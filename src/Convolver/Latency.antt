-- ===== src/Convolver/Latency.antt =====
-- The loop over the engine's blocks (src/convolver_host.cpp, process_buffered) ends, loses no
-- sample and leaves less than a block of input.
use ee_eq_cli.Common.{
  ℕ, zero, suc, ◌+◌, ◌-◌, ◌≤◌, ◌<◌, leb, Bool, true, false, List, Option, none, some, ◌≡◌, refl,
  sym, ap, subst, ◌∙◌, length, take, length-append, length-drop, length-take, on_option, arith,
}
use ee_eq_cli.Floats.{FloatOps}
use ee_eq_cli.Convolver.{Samples, Engine}
use ee_eq_cli.Convolver.Host.{
  Pending, ConvolverHost, refused, processed, queue_block, Looped, over, running, after_block,
  next_block, process_blocks,
}

-- Each of the engine's outputs has as many samples as its inputs.
pub record EngineLaws {Fl : Type 0} (E : Engine Fl) : Type 0 where
  pub process-length :
      (n : ℕ) (left right : List Fl) (c : E.Convproc) (out : List Fl × List Fl)
      → length left ≡ n
      → length right ≡ n
      → (E.process left right c).1 ≡ some out
      → (length out.0 ≡ n) × (length out.1 ≡ n)

module _ {F : FloatOps} (S : Samples F) (E : Engine F.Float) (L : EngineLaws E) where
  open F use {Float}

  -- As many samples wait on the right as on the left.
  abbrev pub Balanced : Pending Float → Type 0
  Balanced p =
      (length p.input_right ≡ length p.input_left) × (length p.output_right ≡ length p.output_left)

  -- The samples that wait, on both sides of the engine.
  abbrev pub waiting : Pending Float → ℕ
  waiting p = length p.input_left + length p.output_left

  -- What the loop leaves of `h`, where it succeeds.
  pub record Drained (h r : ConvolverHost S E) : Type 0 where
    pub balanced : Balanced r.pending
    pub below : length r.pending.input_left < h.block_size
    pub conserved : waiting r.pending ≡ waiting h.pending
    pub same_block : r.block_size ≡ h.block_size

  -- The loop is over.
  abbrev pub Ends : ConvolverHost S E → Looped S E → Type 0
  Ends h (over r true) = Drained h r
  Ends h (over r false) = Unit
  Ends h running = ⊥

  queue_block-Balanced :
      (p : Pending Float) (n : ℕ) (out : List Float × List Float)
      → Balanced p
      → length out.0 ≡ n
      → length out.1 ≡ n
      → Balanced (queue_block S E p n out)
  queue_block-Balanced p n (l, r) (i, o) a b = (
    length-drop n p.input_right ∙ ap (λ k. k - n) i ∙ sym (length-drop n p.input_left),
    length-append p.output_right r ∙ ground (arith, o, a, b) ∙ sym (length-append p.output_left l),
  )

  queue_block-waiting :
      (p : Pending Float) (n : ℕ) (out : List Float × List Float)
      → n ≤ length p.input_left
      → length out.0 ≡ n
      → waiting (queue_block S E p n out) ≡ waiting p
  queue_block-waiting p n (l, r) h a =
      let d = length-drop n p.input_left in
      let e = length-append p.output_left l in omega (arith, d, e, a, h)

  pub Ends-from :
      (g h : ConvolverHost S E) (x : Looped S E)
      → g.block_size ≡ h.block_size
      → waiting g.pending ≡ waiting h.pending
      → Ends g x
      → Ends h x
  Ends-from g h (over r true) b w e = record {
    balanced = e.balanced;
    below = subst (λ n. length r.pending.input_left < n) b e.below;
    conserved = e.conserved ∙ w;
    same_block = e.same_block ∙ b;
  }
  Ends-from g h (over r false) b w e = tt
  Ends-from g h running b w e = e

  abbrev after_engine : ConvolverHost S E → E.Convproc → List Float × List Float → ConvolverHost S E
  after_engine h c out = record h {
    conv = some c;
    pending = queue_block S E h.pending h.block_size out;
  }

  -- A round whose engine has answered, before rounds that end the loop.
  round-Ends :
      (rounds : ℕ) (h : ConvolverHost S E) (x : E.Convproc × Option (List Float × List Float))
      → h.block_size ≤ length h.pending.input_left
      → Balanced h.pending
      → ((out : List Float × List Float)
          → x.1 ≡ some out
          → (length out.0 ≡ h.block_size) × (length out.1 ≡ h.block_size))
      → ((g : ConvolverHost S E)
          → g.block_size ≡ h.block_size
          → Balanced g.pending
          → length g.pending.input_left + h.block_size ≡ length h.pending.input_left
          → Ends g (process_blocks S E rounds g))
      → Ends h (
          after_block S E
            (process_blocks S E rounds)
            (processed S E h x).host
            (processed S E h x).buffers)
  round-Ends rounds h (c, none) fits bal sizes rest = tt
  round-Ends rounds h (c, some out) fits bal sizes rest =
      let (a, b) = sizes out refl in
      Ends-from (after_engine h c out) h (process_blocks S E rounds (after_engine h c out)) refl
        (queue_block-waiting h.pending h.block_size out fits a)
        (rest (after_engine h c out) refl (queue_block-Balanced h.pending h.block_size out bal a b)
          (let d = length-drop h.block_size h.pending.input_left in omega (arith, d, fits)))

  engine-Ends :
      (rounds : ℕ) (h : ConvolverHost S E) (conv : Option E.Convproc) (left right : List Float)
      → h.block_size ≤ length h.pending.input_left
      → Balanced h.pending
      → length left ≡ h.block_size
      → length right ≡ h.block_size
      → ((g : ConvolverHost S E)
          → g.block_size ≡ h.block_size
          → Balanced g.pending
          → length g.pending.input_left + h.block_size ≡ length h.pending.input_left
          → Ends g (process_blocks S E rounds g))
      → Ends h (
          let r = on_option conv (refused S E h) (λ c. processed S E h (E.process left right c)) in
          after_block S E (process_blocks S E rounds) r.host r.buffers)
  engine-Ends rounds h none left right fits bal l r rest = tt
  engine-Ends rounds h (some c) left right fits bal l r rest =
      round-Ends rounds h (E.process left right c) fits bal
        (λ out e. L.process-length h.block_size left right c out l r e) rest

  next-Ends :
      (rounds : ℕ) (h : ConvolverHost S E) (more : Bool)
      → leb h.block_size (length h.pending.input_left) ≡ more
      → Balanced h.pending
      → ((g : ConvolverHost S E)
          → g.block_size ≡ h.block_size
          → Balanced g.pending
          → length g.pending.input_left + h.block_size ≡ length h.pending.input_left
          → Ends g (process_blocks S E rounds g))
      → Ends h (next_block S E more (process_blocks S E rounds) h)
  next-Ends rounds h false e bal rest = record {
    balanced = bal;
    below = ground (arith, e);
    conserved = refl;
    same_block = refl;
  }
  next-Ends rounds h true e bal rest =
      engine-Ends rounds h h.conv (take h.block_size h.pending.input_left)
        (take h.block_size h.pending.input_right) fits bal
        (length-take h.block_size h.pending.input_left fits)
        (length-take h.block_size h.pending.input_right
          (subst (λ n. h.block_size ≤ n) (sym bal.0) fits))
        rest
    where
      fits : h.block_size ≤ length h.pending.input_left
      fits = ground (arith, e)

  -- Enough rounds end the loop.
  pub process_blocks-Ends :
      (rounds : ℕ) (h : ConvolverHost S E)
      → 1 ≤ h.block_size
      → Balanced h.pending
      → length h.pending.input_left < rounds
      → Ends h (process_blocks S E rounds h)
  unfolding process_blocks
  process_blocks-Ends zero h b bal enough = omega (arith, enough)
  process_blocks-Ends (suc rounds) h b bal enough =
      next-Ends rounds h (leb h.block_size (length h.pending.input_left)) refl bal
        (λ g same gbal shorter.
          process_blocks-Ends rounds g (subst (λ n. 1 ≤ n) (sym same) b) gbal
            (omega (arith, shorter, enough, b)))
