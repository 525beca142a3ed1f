-- ===== src/Lib.antt =====
-- Verification of eq-cli, a headless PipeWire equalizer that runs EasyEffects presets, as a daemon
-- with a command-line client or on its own.
--
-- How the program is put together: `main` (src/main.cpp) first tries the daemon's commands. A
-- client command becomes a request, which goes as JSON over a local socket (src/daemon_ipc.cpp,
-- src/daemon_protocol.cpp) to the server's accept loop, and from there to the controller
-- (src/daemon_controller.cpp). The controller keeps the desired configuration and drives a session
-- backend (src/daemon_backend.cpp), which owns a router (src/pipewire_router.cpp) and a worker
-- thread. Presets are read from files and parsed (src/ee_eq_preset_parser.cpp). Without a daemon
-- command the program reads its options (src/cli_args.cpp) and runs a router itself.
--
-- Which file models which part:
--
-- - Controller: src/daemon_controller.cpp. `DaemonController` is the object's state and
--   `handle_request` a function from it to the response and the next state, since the mutex makes
--   each request one step. Controller/Handlers has one function for each handler: `apply_locked`,
--   `enable_locked`, `disable_locked`, `switch_sink_locked`, `bypass_locked`, `volume_locked`,
--   `list_sinks_locked`, `shutdown_locked`. Code that the handlers repeat is a function of its
--   own: `adopt` (a session that has started), `give_up` (none can be), `start_or_roll_back` and
--   `roll_back`. The other files of Controller hold proofs: Invariant and Requests (the
--   invariant), Spec (an abstract machine over the desired configuration and whether a session
--   runs), Sessions (which session a backend plays), Rollback, Settings, Status, Lifecycle, Errors
--   and Answers. Cases and Starts split a request by the branch it takes.
-- - Backend: the interface of src/daemon_backend.hpp with the contract on which the controller
--   relies. Backend/Real: `RealSessionBackend`, with the threads as flags: `worker` says that a
--   worker was started, `stop_requested` and `worker_failed` are its variables. Backend/Worker:
--   `worker_loop`, over the answers of `poll` and `read`, one for each round.
-- - Router: what the backend calls of src/pipewire_router.hpp, as an interface; Router/Simple is a
--   router for tests. Router/Tasks: its queue of delayed tasks, of src/pipewire_router.cpp.
-- - PipeWire: the state of the router of src/pipewire_router.hpp that its session graph is in,
--   with PipeWire as a parameter (`World`: whether a link is made, and what PipeWire's callbacks
--   do while the router waits). Its children have the functions of src/pipewire_router.cpp: Links
--   (`link_nodes`), Chain (`connect_chain`, `destroy_links`), Patching (`queue_patch_stream`,
--   `patch_stream` and the like), Registry (the handlers of the registry, the nodes and the
--   metadata, and the loop guard), Waiting (the polling loops), Reconnect (`reconnect_to_sink`),
--   Numbers (the C library's number parsing). Steps is the step relation of the running router: a
--   callback, or a task that is due. The other files hold proofs: Outcomes, Stable, Steady and
--   Rounds (what the functions keep), Route and Switch (the chain), Tracking, Callbacks and
--   Invariant (the patched streams), Guard (the loop guard).
-- - Filter: the filter nodes of src/pipewire_router.cpp. What the three classes share is written
--   once over an interface for what they drive, `Processor`; Filter/Lv2 fills it for
--   `EqFilterNode` and `LimiterFilterNode`, Filter/Convolving for `ConvolverFilterNode`. Safety
--   and Events hold proofs.
-- - Convolver: src/convolver_host.hpp and src/convolver_host.cpp, with the convolution engine as a
--   parameter: Kernels (reading and shaping a kernel), Blocks (the block size), Host (the calls).
--   Powers, Latency and Delay hold proofs.
-- - Lv2: src/lv2_host_core.hpp and src/lv2_host_core.cpp, with lilv as a parameter: what it says
--   of a plugin, and whether it makes an instance. Ports (the constructor's reading of the ports,
--   and the control ports' values), Urids (the numbers of URIs) and the proofs Wiring, Reaching
--   (any calls) and Values. Lv2/Mappers: src/lsp_eq_port_mapper.cpp and
--   src/lsp_limiter_port_mapper.cpp, each as the list of the calls that it makes; Writes,
--   Equalizer and Limiter have proofs.
-- - Protocol: src/daemon_protocol.hpp; Protocol/Texts and Protocol/Encoding:
--   src/daemon_protocol.cpp; Protocol/RoundTrip: proofs.
-- - Client: `handle_daemon_mode` and `format_doctor_output` of src/main.cpp; Client/Start: `daemon
--   start` up to the server; Client/Answers: client and daemon joined by a socket that carries
--   bytes without loss, with `dump()` as a parameter.
-- - Server: the loops of src/daemon_ipc.cpp: `write_all`, `read_request_json` and the accept loop
--   of `run_daemon_ipc_server`.
-- - Cli: `parse_cli_args` of src/cli_args.cpp; the loop's body is `read_argument`, the checks
--   after it are `check_args`. Cli/Help: `cli_help_text`.
-- - Preset: src/ee_eq_preset_parser.hpp; Preset/Labels: src/lsp_labels.hpp; Preset/Bands,
--   Preset/Plugins and Preset/Parser: the EasyEffects part of src/ee_eq_preset_parser.cpp. The
--   other files of Preset hold proofs: Order, Valid, Equalizer, Limiter and Accepted on accepted
--   presets, Members and Errors on refused ones.
-- - Kernel: src/kernel_resolver.cpp, with the file system as a parameter; Kernel/Paths: what it
--   uses of std::filesystem::path.
-- - Json: nlohmann::json as the program uses it, an interface with laws; Json/Model is an
--   implementation for tests that keeps the laws, in Json/Throwing those on exceptions. Floats:
--   the floating-point types as a parameter; Floats/Decimal has values for tests.
-- - Common, Outcome: shared types and lemmas. A function of the source that fills an `error` text
--   returns `Result`, `err` with the text; where the JSON library may also throw it returns
--   `Outcome`.
--
-- Each component has a file Tests with concrete runs.
--
-- Bounds and fuel: loops over lists are recursion on the list, so no fuel is needed. Loops over
-- system calls take the list of what the calls answer, and end with the answer that ends them;
-- where the list is too short the result says so. The router's polling loops have the source's own
-- bound of 5,000 rounds. The loop over the convolver's blocks is recursion on a number of rounds,
-- one more than there are samples; that it is over by then is proved. The loop for the engine's
-- block size has 32 rounds, which are enough below 2^31: above it the source's shift wraps, and
-- the loop may never end. Numbers are printed with fuel for 20 digits, which is enough for 64
-- bits. Arrays of 32 bands are lists, and that they have 32 entries is part of what is proved of
-- the parser. Indices and sizes are far below the machine's bounds; `num-bands` and `ir-width`,
-- which a file may give as any int, are integers.
--
-- Parameters and hypotheses: the router keeps a contract (`RouterLaws`: bypass and volume are read
-- back as set, a start that fails says why), float comparisons are IEEE ones at 1.0 (`FloatLaws`),
-- JSON values are read back as written (`JsonLaws`), and the JSON library reports failures by
-- exceptions (`JsonThrows`). While the router waits, PipeWire's callbacks change the state of
-- links but not what they link, and the sinks keep their ids (`WorldLaws`); where the router's own
-- handlers are what runs then, the statement says so. What the JSON library's dump() writes need
-- not be read back as the same value (a NaN becomes null, and text that is no UTF-8 throws): the
-- statements on client and daemon suppose it of the request and the response at hand
-- (`Delivered`). The convolution engine gives as many samples as it gets (`EngineLaws`). A filter
-- node's processor keeps its vectors' size (`ProcessorLaws`, proved of the three nodes). The
-- realtime thread and the worker do not run at the same moment on one node's vectors. The clock is
-- read once in a function, and the writes to PipeWire's metadata are no points where callbacks
-- run. The file system, the environment and the JSON text are parameters.
--
-- Not modelled: creating PipeWire's objects and the router's start and stop, AutoEQ text, writing
-- a preset, the standalone run after its options are read, the creation of the socket and logging.
-- PipeWire, LV2, sndfile, zita-convolver and nlohmann::json are third-party packages.
pub mod Common
pub mod Floats
pub mod Outcome
pub mod Json
pub mod Preset
pub mod Protocol
pub mod Router
pub mod Backend
pub mod Controller
pub mod Cli
pub mod Client
pub mod Server
pub mod Kernel
pub mod PipeWire
pub mod Convolver
pub mod Filter
pub mod Lv2
