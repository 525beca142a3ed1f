-- ===== src/PipeWire/Rounds.antt =====
-- The polling loops end (src/pipewire_router.cpp, wait_for_node_ports, wait_for_links_ready): in
-- which round, and with what.
use ee_eq_cli.Common.{
  ℕ, zero, suc, ◌<◌, ◌≤◌, leb, String, ◌<>◌, decimal, ◌≡◌, refl, subst, sym, arith, if_cases,
}
use ee_eq_cli.PipeWire.{RouterState, World, Tried, done, failed, count_node_ports}
use ee_eq_cli.PipeWire.Outcomes.{OnDone}
use ee_eq_cli.PipeWire.Waiting.{
  Scan, broken, waiting, ready, scan_links, Verdict, finish, again, next_round, poll, look_scan,
  look_links, wait_for_links_ready, look_ports, wait_for_node_ports,
}

module _ (W : World) where
  -- The state after `n` sleeps.
  abbrev pub after : ℕ → RouterState → RouterState
  after zero s = s
  after (suc n) s = after n (W.during s)

  -- The first `n` rounds find nothing.
  abbrev pub Idle : (RouterState → Verdict) → ℕ → RouterState → Type 0
  Idle look zero s = Unit
  Idle look (suc n) s = (look s ≡ again) × Idle look n (W.during s)

  -- A round stops the loop, or all have found nothing.
  pub data Polled (look : RouterState → Verdict) (timeout : String) (rounds : ℕ) (s : RouterState)
      (r : Tried) : Type 0 where
    stopped :
        (n : ℕ)
        → n < rounds
        → Idle look n s
        → look (after n s) ≡ finish r
        → Polled look timeout rounds s r
    timed_out :
        Idle look rounds s → r ≡ failed (after rounds s) timeout → Polled look timeout rounds s r

  later-Polled :
      (look : RouterState → Verdict) (timeout : String) (rounds : ℕ) (s : RouterState) (r : Tried)
      → look s ≡ again
      → Polled look timeout rounds (W.during s) r
      → Polled look timeout (suc rounds) s r
  later-Polled look timeout rounds s r e (stopped n l i h) =
      stopped (suc n) (omega (arith, l)) (e, i) h
  later-Polled look timeout rounds s r e (timed_out i h) = timed_out (e, i) h

  next_round-Polled :
      (look : RouterState → Verdict) (timeout : String) (rounds : ℕ) (s : RouterState) (v : Verdict)
      → look s ≡ v
      → Polled look timeout rounds (W.during s) (poll W look timeout rounds (W.during s))
      → Polled look timeout (suc rounds) s (next_round W v (poll W look timeout rounds) s)
  next_round-Polled look timeout rounds s (finish r) e rest = stopped 0 (omega arith) tt e
  next_round-Polled look timeout rounds s again e rest =
      later-Polled look timeout rounds s (poll W look timeout rounds (W.during s)) e rest

  -- A loop returns what the first round that stops it finds, and fails with its timeout exactly
  -- where none of its rounds does.
  pub poll-Polled :
      (look : RouterState → Verdict) (timeout : String) (rounds : ℕ) (s : RouterState)
      → Polled look timeout rounds s (poll W look timeout rounds s)
  unfolding poll
  poll-Polled look timeout zero s = timed_out tt refl
  poll-Polled look timeout (suc rounds) s =
      next_round-Polled look timeout rounds s (look s) refl
        (poll-Polled look timeout rounds (W.during s))

look_scan-ready :
    (t : RouterState) (r : Tried) (found : Scan)
    → scan_links t.created_links ≡ found
    → look_scan t found ≡ finish r
    → OnDone (λ u. scan_links u.created_links ≡ ready) r
look_scan-ready t r broken e h =
    let p : r ≡ failed t "a chain link entered error state during negotiation" = cc in rw p tt
look_scan-ready t r waiting e h = cc
look_scan-ready t r ready e h = let p : r ≡ done t = cc in rw p e

-- Where the wait for the links succeeds, all of them have negotiated.
pub wait_for_links_ready-ready :
    (W : World) (s : RouterState)
    → OnDone (λ t. scan_links t.created_links ≡ ready) (wait_for_links_ready W s)
wait_for_links_ready-ready W s =
    elim (poll-Polled W look_links "timed out waiting for chain links to negotiate" 5000 s) [
      | stopped n l i e ↦
          look_scan-ready (after W n s) (wait_for_links_ready W s)
            (scan_links ((after W n s).created_links)) refl e
      | timed_out i e ↦ subst (OnDone (λ t. scan_links t.created_links ≡ ready)) (sym e) tt
    ]

module _ (W : World) where
  -- Before each of the first `n` sleeps, the node has too few ports.
  abbrev pub TooFew : ℕ → ℕ → ℕ → RouterState → Type 0
  TooFew node_id minimum_ports zero s = Unit
  TooFew node_id minimum_ports (suc n) s =
      (count_node_ports s node_id < minimum_ports) × TooFew node_id minimum_ports n (W.during s)

  -- How the wait ends: in the first state with enough ports, which it leaves as it is, or with a
  -- timeout after 5,000 sleeps.
  pub data Waited (node_id minimum_ports : ℕ) (s : RouterState) (r : Tried) : Type 0 where
    enough :
        (n : ℕ)
        → n < 5000
        → TooFew node_id minimum_ports n s
        → minimum_ports ≤ count_node_ports (after W n s) node_id
        → r ≡ done (after W n s)
        → Waited node_id minimum_ports s r
    never :
        TooFew node_id minimum_ports 5000 s
        → r ≡ failed (after W 5000 s) ("timed out waiting for ports on node " <> decimal node_id)
        → Waited node_id minimum_ports s r

  few_ports :
      (node_id minimum_ports : ℕ) (s : RouterState)
      → look_ports node_id minimum_ports s ≡ again
      → count_node_ports s node_id < minimum_ports
  few_ports node_id minimum_ports s =
      if_cases {A = Verdict} (λ v. v ≡ again → count_node_ports s node_id < minimum_ports)
        (leb minimum_ports (count_node_ports s node_id)) (λ _ h. cc) (λ e _. ground (arith, e))

  Idle-TooFew :
      (node_id minimum_ports n : ℕ) (s : RouterState)
      → Idle W (look_ports node_id minimum_ports) n s
      → TooFew node_id minimum_ports n s
  Idle-TooFew node_id minimum_ports zero s i = tt
  Idle-TooFew node_id minimum_ports (suc n) s (h, i) =
      (few_ports node_id minimum_ports s h, Idle-TooFew node_id minimum_ports n (W.during s) i)

  enough_ports :
      (node_id minimum_ports : ℕ) (s : RouterState) (r : Tried)
      → look_ports node_id minimum_ports s ≡ finish r
      → (minimum_ports ≤ count_node_ports s node_id) × (r ≡ done s)
  enough_ports node_id minimum_ports s r =
      if_cases {A = Verdict}
        (λ v. v ≡ finish r → (minimum_ports ≤ count_node_ports s node_id) × (r ≡ done s))
        (leb minimum_ports (count_node_ports s node_id)) (λ e h. (ground (arith, e), cc))
        (λ _ h. cc)

  -- `wait_for_node_ports` ends: it succeeds in the first state of its 5,000 rounds in which the
  -- node has the ports, and fails with its timeout exactly after 5,000 rounds without them.
  pub wait_for_node_ports-Waited :
      (node_id minimum_ports : ℕ) (s : RouterState)
      → Waited node_id minimum_ports s (wait_for_node_ports W node_id minimum_ports s)
  wait_for_node_ports-Waited node_id minimum_ports s =
      elim (poll-Polled W (look_ports node_id minimum_ports)
        ("timed out waiting for ports on node " <> decimal node_id) 5000 s) [
          | stopped n l i e ↦
              let (there, result) = enough_ports node_id minimum_ports (after W n s) _ e in
              enough n l (Idle-TooFew node_id minimum_ports n s i) there result
          | timed_out i e ↦ never (Idle-TooFew node_id minimum_ports 5000 s i) e
        ]
