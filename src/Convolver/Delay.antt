-- ===== src/Convolver/Delay.antt =====
-- The adapter between the stream's block size and the engine's (src/convolver_host.cpp,
-- process_buffered): it delays the stream by less than one block, and never by less than before.
use ee_eq_cli.Common.{
  ℕ, zero, suc, ◌+◌, ◌-◌, ◌≤◌, ◌<◌, leb, true, false, List, ◌∷◌, ◌++◌, some, ◌≡◌, refl, sym, ap,
  subst, ◌∙◌, ◌⊎◌, inl, inr, length, take, replicate, length-append, length-drop, length-take,
  length-replicate, if_cases, arith,
}
use ee_eq_cli.Floats.{FloatOps}
use ee_eq_cli.Convolver.{Samples, Engine}
use ee_eq_cli.Convolver.Host.{
  ConvolverHost, Processed, Looped, over, running, process_blocks, full, short, end_loop,
  with_input, process_buffered,
}
use ee_eq_cli.Convolver.Latency.{EngineLaws, Balanced, waiting, Ends, process_blocks-Ends}

module _ {F : FloatOps} (S : Samples F) (E : Engine F.Float) (L : EngineLaws E) where
  open F use {Float, f_zero}

  -- Between two calls less than a block waits on both sides of the engine together: the delay.
  pub record Settled (h : ConvolverHost S E) : Type 0 where
    pub balanced : Balanced S E L h.pending
    pub delay : waiting S E L h.pending < h.block_size

  -- What a call leaves of `h`: buffers of `n` samples, which begin with the zeros by which the
  -- delay has grown.
  pub record Delayed (h : ConvolverHost S E) (n : ℕ) (r : Processed S E) : Type 0 where
    pub zeros : ℕ
    pub left : List Float
    pub right : List Float
    pub made : r.buffers ≡ some (left, right)
    pub sizes : (length left ≡ n) × (length right ≡ n)
    pub start_left : take zeros left ≡ replicate zeros f_zero
    pub start_right : take zeros right ≡ replicate zeros f_zero
    pub settled : Settled r.host
    pub grown : waiting S E L r.host.pending ≡ waiting S E L h.pending + zeros

  -- The loop has ended with the engine's failure, or there are buffers.
  abbrev pub Works : ConvolverHost S E → ℕ → Looped S E → Processed S E → Type 0
  Works h n x r = ((g : ConvolverHost S E) × (x ≡ over g false)) ⊎ Delayed h n r

  take-replicate :
      (n : ℕ) (xs : List Float) → take n (replicate n f_zero ++ xs) ≡ replicate n f_zero
  take-replicate zero xs = refl
  take-replicate (suc n) xs = ap (λ l. f_zero ∷ l) (take-replicate n xs)

  padded-length :
      (n : ℕ) (xs ys : List Float)
      → length ys ≡ length xs
      → length xs ≤ n
      → length (replicate (n - length xs) f_zero ++ ys) ≡ n
  padded-length n xs ys e h =
      let a = length-append (replicate (n - length xs) f_zero) ys in
      let b = length-replicate (n - length xs) f_zero in omega (arith, a, b, e, h)

  full-Delayed :
      (h r : ConvolverHost S E) (n : ℕ)
      → Balanced S E L r.pending
      → waiting S E L r.pending ≡ waiting S E L h.pending + n
      → waiting S E L h.pending < r.block_size
      → n ≤ length r.pending.output_left
      → Delayed h n (full S E n r)
  full-Delayed h r n (i, o) w d fits =
      let e = length-drop n r.pending.output_left in
      record {
        zeros = 0;
        left = take n r.pending.output_left;
        right = take n r.pending.output_right;
        made = refl;
        sizes = (
          length-take n r.pending.output_left fits,
          length-take n r.pending.output_right (subst (λ k. n ≤ k) (sym o) fits),
        );
        start_left = refl;
        start_right = refl;
        settled = record {
          balanced = (i, length-drop n r.pending.output_right ∙ ap (λ k. k - n) o ∙ sym e);
          delay = omega (arith, e, w, d, fits);
        };
        grown = omega (arith, e, w, fits);
      }

  short-Delayed :
      (h r : ConvolverHost S E) (n : ℕ)
      → Balanced S E L r.pending
      → waiting S E L r.pending ≡ waiting S E L h.pending + n
      → length r.pending.input_left < r.block_size
      → length r.pending.output_left ≤ n
      → Delayed h n (short S E n r)
  short-Delayed h r n (i, o) w below few = record {
    zeros = n - length r.pending.output_left;
    left = replicate (n - length r.pending.output_left) f_zero ++ r.pending.output_left;
    right = replicate (n - length r.pending.output_left) f_zero ++ r.pending.output_right;
    made = refl;
    sizes = (
      padded-length n r.pending.output_left r.pending.output_left refl few,
      padded-length n r.pending.output_left r.pending.output_right o few,
    );
    start_left = take-replicate (n - length r.pending.output_left) r.pending.output_left;
    start_right = take-replicate (n - length r.pending.output_left) r.pending.output_right;
    settled = record { balanced = (i, refl); delay = omega (arith, below) };
    grown = omega (arith, w, few);
  }

  end_loop-Works :
      (h fed : ConvolverHost S E) (n : ℕ) (x : Looped S E)
      → Settled h
      → fed.block_size ≡ h.block_size
      → waiting S E L fed.pending ≡ waiting S E L h.pending + n
      → Ends S E L fed x
      → Works h n x (end_loop S E n fed x)
  end_loop-Works h fed n (over r true) st b w e =
      if_cases {A = Processed S E} (Works h n (over r true)) (leb n (length r.pending.output_left))
        (λ q. inr (
          full-Delayed h r n e.balanced (e.conserved ∙ w)
            (subst (λ k. waiting S E L h.pending < k) (sym (e.same_block ∙ b)) st.delay)
            (ground (arith, q))))
        (λ q. inr (
          short-Delayed h r n e.balanced (e.conserved ∙ w)
            (subst (λ k. length r.pending.input_left < k) (sym e.same_block) e.below)
            (ground (arith, q))))
  end_loop-Works h fed n (over r false) st b w e = inl (r, refl)
  end_loop-Works h fed n running st b w e = absurd e

  abbrev pub blocks_of : List Float → List Float → ConvolverHost S E → Looped S E
  blocks_of left right h =
      let fed = with_input S E left right h in
      process_blocks S E (suc (length fed.pending.input_left)) fed

  -- On a host with less than a block of samples waiting, on both sides alike, as it is at first and
  -- after calls without a failure, a call with two buffers of `n` samples ends: either the engine
  -- has failed on a block, or two buffers of `n` samples come back, less than a block waits again,
  -- on both sides alike, and the number that waits has grown by the zeros with which the buffers
  -- begin.
  pub process_buffered-Delayed :
      (left right : List Float) (h : ConvolverHost S E)
      → length right ≡ length left
      → Settled h
      → ((g : ConvolverHost S E) × (blocks_of left right h ≡ over g false))
        ⊎ Delayed h (length left) (process_buffered S E left right h)
  unfolding process_buffered
  process_buffered-Delayed left right h same st =
      let l = length-append h.pending.input_left left in
      let r = length-append h.pending.input_right right in
      let i = st.balanced.0 in
      end_loop-Works h (with_input S E left right h) (length left) (blocks_of left right h) st refl
        (omega (arith, l))
        (process_blocks-Ends S E L (suc (length (h.pending.input_left ++ left)))
          (with_input S E left right h) (let d = st.delay in omega (arith, d))
          (omega (arith, l, r, i, same), st.balanced.1) (omega arith))
