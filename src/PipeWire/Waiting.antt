-- ===== src/PipeWire/Waiting.antt =====
-- The loops that poll the router's state (src/pipewire_router.cpp, wait_for_node_ports,
-- wait_for_virtual_sink, wait_for_links_ready): 5,000 rounds, the source's own bound. Between two
-- rounds PipeWire's callbacks run.
use ee_eq_cli.Common.{
  ℕ, zero, suc, leb, String, List, [], ◌∷◌, on_option, decimal, ◌<>◌, if◌then◌else◌,
}
use ee_eq_cli.PipeWire.{
  RouterState, LinkState, LinkStatus, World, Tried, done, failed, startup_poll_iterations,
  count_node_ports, find_node_by_name, virtual_sink_name,
}

-- `s == PW_LINK_STATE_ERROR`, `s < PW_LINK_STATE_PAUSED`, and neither.
pub data Scan : Type 0 where
  broken : Scan
  waiting : Scan
  ready : Scan

-- The loop over the links, which stops at the first that is not ready.
abbrev pub after_link : LinkStatus → Scan → Scan
after_link LinkStatus.error rest = broken
after_link LinkStatus.unlinked rest = waiting
after_link LinkStatus.init rest = waiting
after_link LinkStatus.negotiating rest = waiting
after_link LinkStatus.allocating rest = waiting
after_link LinkStatus.paused rest = rest
after_link LinkStatus.active rest = rest

abbrev pub scan_links : List LinkState → Scan
scan_links [] = ready
scan_links (link ∷ links) = after_link link.state (scan_links links)

-- What one round finds: the function returns, or it sleeps for another.
pub data Verdict : Type 0 where
  finish : Tried → Verdict
  again : Verdict

module _ (W : World) where
  abbrev pub next_round : Verdict → (RouterState → Tried) → RouterState → Tried
  next_round (finish r) k s = r
  next_round again k s = k (W.during s)

  -- The loops' common form: `look` is a round's body, and `timeout` the error after the last.
  unfoldable pub poll : (RouterState → Verdict) → String → ℕ → RouterState → Tried
  poll look timeout zero s = failed s timeout
  poll look timeout (suc rounds) s = next_round (look s) (poll look timeout rounds) s

abbrev pub look_ports : ℕ → ℕ → RouterState → Verdict
look_ports node_id minimum_ports s =
    if leb minimum_ports (count_node_ports s node_id) then finish (done s) else again

abbrev pub look_virtual_sink : RouterState → Verdict
look_virtual_sink s =
    on_option (find_node_by_name s virtual_sink_name) again
      (λ node. finish (done (record s { virtual_sink = node })))

abbrev pub look_scan : RouterState → Scan → Verdict
look_scan s broken = finish (failed s "a chain link entered error state during negotiation")
look_scan s waiting = again
look_scan s ready = finish (done s)

abbrev pub look_links : RouterState → Verdict
look_links s = look_scan s (scan_links s.created_links)

module _ (W : World) where
  abbrev pub wait_for_node_ports : ℕ → ℕ → RouterState → Tried
  wait_for_node_ports node_id minimum_ports s =
      poll W (look_ports node_id minimum_ports)
        ("timed out waiting for ports on node " <> decimal node_id) startup_poll_iterations s

  abbrev pub wait_for_virtual_sink : RouterState → Tried
  wait_for_virtual_sink s =
      poll W look_virtual_sink "failed to observe virtual sink node in PipeWire registry"
        startup_poll_iterations s

  abbrev pub wait_for_links_ready : RouterState → Tried
  wait_for_links_ready s =
      poll W look_links "timed out waiting for chain links to negotiate" startup_poll_iterations s
