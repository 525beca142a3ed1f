-- ===== src/PipeWire/Tests.antt =====
-- Tests of the router's session graph, and its theorems at a small session.
use ee_eq_cli.Common.{
  ℕ, ◌+◌, Bool, true, false, String, List, [], ◌∷◌, map, none, some, ◌≡◌, refl, ap, if◌then◌else◌,
  arith,
}
use ee_eq_cli.Floats.Decimal.{decimals}
use ee_eq_cli.Json.Model.{values}
use ee_eq_cli.PipeWire.{
  RouterState, NodeInfo, PortInfo, NodeData, LinkState, LinkStatus, World, Tried, done, failed,
}
use ee_eq_cli.Json.{JsonLib}
use ee_eq_cli.Outcome.{ok}
use ee_eq_cli.Json.Model.{Value}
use ee_eq_cli.PipeWire.Chain.{connect_chain, connect_plugins, destroy_links}
use ee_eq_cli.PipeWire.Links.{link_nodes, create_links}
use ee_eq_cli.PipeWire.Waiting.{poll, wait_for_node_ports}
use ee_eq_cli.PipeWire.Registry.{
  Dict, default_sink, find_data, observe, updated, on_node_info, on_node_proxy_removed,
}
use ee_eq_cli.PipeWire.Patching.{
  patch_existing_streams, clear_patched_streams, stream_targets_selected_sink, queue_patch_stream,
  run_patch, patch_stream,
}
use ee_eq_cli.PipeWire.Reconnect.{reconnect_to_sink}
use ee_eq_cli.PipeWire.Route.{Route, stages, connect_chain-Route}
use ee_eq_cli.PipeWire.Switch.{Moved, reconnect_to_sink-Moved}
use ee_eq_cli.PipeWire.Rounds.{Waited, wait_for_node_ports-Waited}
use ee_eq_cli.PipeWire.Steps.{none_more, callback, Steps, start, next, node_info, node_removed}
use ee_eq_cli.PipeWire.Tracking.{Tracked}
use ee_eq_cli.PipeWire.Invariant.{Steps-Tracked}
use ee_eq_cli.PipeWire.Guard.{removal-suppresses}
use ee_eq_cli.PipeWire.Outcomes.{ends, all_ends, config, WorldLaws, OnDone}

abbrev node : ℕ → String → String → NodeInfo
node id name media_class = record {
  id = id;
  serial = id + 100;
  name = name;
  media_class = media_class;
  target_object = "";
}

abbrev port : ℕ → ℕ → String → String → PortInfo
port id node_id direction channel = record {
  id = id;
  node_id = node_id;
  port_id = id;
  serial = id + 200;
  direction = direction;
  audio_channel = channel;
  name = "";
}

abbrev stereo : ℕ → ℕ → String → List PortInfo → List PortInfo
stereo id node_id direction rest =
    port id node_id direction "FL" ∷ port (id + 1) node_id direction "FR" ∷ rest

abbrev bound : ℕ → String → String → NodeData
bound id name media_class = record { key = id; info = node id name media_class }

-- The virtual sink 1, the equalizer 2, the limiter 3, the speakers 4 and the headphones 6.
abbrev session : RouterState
session = record {
  plugin_order = "equalizer" ∷ "limiter" ∷ [];
  sink_selector = "";
  shutting_down = false;
  startup_sink_locked = true;
  eq_filter = some 2;
  limiter_filter = some 3;
  convolver_filter = none;
  metadata = true;
  bound_nodes =
      bound 1 "eq_cli_sink" "Audio/Sink"
      ∷ bound 4 "speakers" "Audio/Sink"
      ∷ bound 5 "player" "Stream/Output/Audio"
      ∷ bound 6 "headphones" "Audio/Sink"
      ∷ [];
  ports = stereo 10 1 "out" (
      stereo 20 2 "in" (
        stereo 22 2 "out"
          (stereo 30 3 "in" (stereo 32 3 "out" (stereo 40 4 "in" (stereo 60 6 "in" []))))));
  created_links = [];
  patched_streams = [];
  pending_patch_streams = [];
  recent_patch_attempts = [];
  loop_guard = [];
  selected_sink = node 4 "speakers" "Audio/Sink";
  virtual_sink = node 1 "eq_cli_sink" "Audio/Sink";
  scheduled_tasks = [];
  writes = [];
}

abbrev activate : LinkState → LinkState
activate l = record l { state = LinkStatus.active }

-- Every link is made, and is active when the router looks again.
abbrev quick : World
quick = record {
  creates = λ s l. true;
  during = λ s. record s { created_links = map activate s.created_links };
}

ends-activate : (links : List LinkState) → map ends (map activate links) ≡ map ends links
ends-activate [] = refl
ends-activate (l ∷ links) = ap (λ es. ends l ∷ es) (ends-activate links)

quick-WorldLaws : WorldLaws quick
quick-WorldLaws = record {
  keeps_links = λ s. ends-activate s.created_links;
  keeps_config = λ s. refl;
}

abbrev is_done : Tried → Bool
is_done (done s) = true
is_done (failed s e) = false

chain_done : is_done (connect_chain quick session) ≡ true
unfolding connect_chain connect_plugins link_nodes create_links
chain_done = refl

connect_chain-Route_example :
    OnDone
      (λ t.
        Route
          (all_ends t)
          session.virtual_sink.id
          (stages (config session) session.plugin_order)
          session.selected_sink.id)
      (connect_chain quick session)
connect_chain-Route_example = connect_chain-Route quick quick-WorldLaws session

reconnect_to_sink-Moved_example :
    Moved quick quick-WorldLaws session "headphones"
      (reconnect_to_sink quick 9 "headphones" session)
reconnect_to_sink-Moved_example =
    reconnect_to_sink-Moved quick quick-WorldLaws 9 "headphones" session

wait_for_node_ports-Waited_example :
    Waited quick 7 2 session (wait_for_node_ports quick 7 2 session)
wait_for_node_ports-Waited_example = wait_for_node_ports-Waited quick 7 2 session

abbrev json : JsonLib decimals
json = values decimals (λ bytes. ok Value.empty)

-- Nothing happens while the router waits.
abbrev calm : World
calm = record { creates = λ s l. true; during = λ s. s }

abbrev no_props : Dict
no_props key = none

abbrev observed : RouterState
observed = on_node_info 1000 5 no_props session

abbrev left : RouterState
left = on_node_proxy_removed 2000 5 observed

run : Steps json calm session left
run =
    next observed left (next session observed start (callback observed (node_info 1000 5 no_props)))
      (callback left (node_removed 2000 5))

Steps-Tracked_example : Tracked left
Steps-Tracked_example = Steps-Tracked json calm (λ s. none_more) session left run (tt, tt)

-- Two rapid removals of "player" have been counted, the last half a second ago; it is there again,
-- as the nodes 5 and 7.
abbrev looping : RouterState
looping = record session {
  bound_nodes =
      bound 5 "player" "Stream/Output/Audio" ∷ bound 7 "player" "Stream/Output/Audio" ∷ [];
  patched_streams = 105 ∷ [];
  recent_patch_attempts = record { serial = 105; name = "player"; patched_at = 8000000000 } ∷ [];
  loop_guard =
      record {
        key = "player";
        rapid_removals = 2;
        last_removed_at = 7800000000;
        suppress_until = 0;
      }
      ∷ [];
}

abbrev removed : RouterState
removed = on_node_proxy_removed 8500000000 5 looping

found_again : find_data 7 removed.bound_nodes ≡ some (bound 7 "player" "Stream/Output/Audio")
unfolding on_node_proxy_removed
found_again = refl

removal-suppresses_example : on_node_info 9000000000 7 no_props removed ≡ (
    if removed.shutting_down
    then removed
    else observe 7 (updated no_props (bound 7 "player" "Stream/Output/Audio").info) removed)
removal-suppresses_example =
    removal-suppresses 8500000000 9000000000 5 7 no_props (bound 5 "player" "Stream/Output/Audio")
      (bound 7 "player" "Stream/Output/Audio")
      (record { serial = 105; name = "player"; patched_at = 8000000000 }) looping refl refl
      (omega arith) (omega arith) (omega arith) found_again refl (omega arith)

-- The chain has moved to the headphones.
abbrev moved_session : RouterState
moved_session = reconnect_to_sink quick 9 "headphones" session

reaches_headphones : moved_session.selected_sink.name ≡ "headphones"
unfolding reconnect_to_sink poll connect_chain connect_plugins link_nodes create_links destroy_links
    clear_patched_streams patch_existing_streams patch_stream stream_targets_selected_sink
reaches_headphones = refl

-- A stream is patched when the task for it runs,
patched_by_task :
    (run_patch 2000 105 (queue_patch_stream 1000 105 session)).patched_streams ≡ 105 ∷ []
unfolding run_patch queue_patch_stream patch_stream
patched_by_task = refl

-- but not one without a serial, which is queued under its id and looked for by its serial.
abbrev without_serial : RouterState
without_serial = record session {
  bound_nodes =
      record {
        key = 5;
        info = record {
          id = 5;
          serial = 0;
          name = "player";
          media_class = "Stream/Output/Audio";
          target_object = "";
        };
      }
      ∷ [];
}

zero_serial_unpatched : (patch_existing_streams 1000 without_serial).patched_streams ≡ []
unfolding patch_existing_streams patch_stream stream_targets_selected_sink
zero_serial_unpatched = refl

-- Before the startup sink is locked, a second default sink gets the first one's id and serial.
abbrev starting : RouterState
starting = record session { startup_sink_locked = false }

renamed_sink : (default_sink json 1000 "headphones" starting).selected_sink.id ≡ 4
renamed_sink = refl
