-- ===== src/PipeWire/Reconnect.antt =====
-- The chain is moved to the new default sink (src/pipewire_router.cpp, reconnect_to_sink), or
-- back. The clock is read once.
use ee_eq_cli.Common.{ℕ, String, if◌then◌else◌, on_option}
use ee_eq_cli.PipeWire.{RouterState, NodeInfo, World, Tried, done, failed, ◌>>=◌, find_node_by_name}
use ee_eq_cli.PipeWire.Chain.{connect_chain, destroy_links}
use ee_eq_cli.PipeWire.Waiting.{wait_for_node_ports, wait_for_links_ready}
use ee_eq_cli.PipeWire.Patching.{patch_existing_streams, clear_patched_streams}

abbrev pub select : NodeInfo → RouterState → RouterState
select node s = record s { selected_sink = node }

module _ (W : World) where
  abbrev pub connect_and_wait : RouterState → Tried
  connect_and_wait s = connect_chain W s >>= wait_for_links_ready W

  -- Patched where the chain is connected, else left as it is.
  abbrev pub patch_if_done : ℕ → Tried → RouterState
  patch_if_done now (done s) = patch_existing_streams now s
  patch_if_done now (failed s e) = s

  abbrev pub back_to_old_sink : ℕ → NodeInfo → RouterState → RouterState
  back_to_old_sink now old_sink s =
      patch_if_done now (connect_and_wait (select old_sink (destroy_links s)))

  abbrev pub settle : ℕ → NodeInfo → Tried → RouterState
  settle now old_sink (done s) = patch_existing_streams now s
  settle now old_sink (failed s e) = back_to_old_sink now old_sink s

  abbrev pub switch : ℕ → NodeInfo → RouterState → RouterState
  switch now new_sink s =
      settle now s.selected_sink
        (connect_and_wait (select new_sink (destroy_links (clear_patched_streams s))))

  abbrev pub switch_if_done : ℕ → NodeInfo → Tried → RouterState
  switch_if_done now new_sink (done s) = switch now new_sink s
  switch_if_done now new_sink (failed s e) = s

  unfoldable pub reconnect_to_sink : ℕ → String → RouterState → RouterState
  reconnect_to_sink now new_sink_name s =
      if s.shutting_down
      then s
      else on_option (find_node_by_name s new_sink_name) s
          (λ new_sink. switch_if_done now new_sink (wait_for_node_ports W new_sink.id 2 s))
