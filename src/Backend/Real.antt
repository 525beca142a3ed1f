-- ===== src/Backend/Real.antt =====
-- RealSessionBackend (src/daemon_backend.cpp) over a router. `stop_fd_` is an eventfd, of which
-- the model keeps whether it can be read, or that it could not be opened; `worker` says whether
-- the worker thread is to be joined.
use ee_eq_cli.Common.{
  Bool, true, false, String, [], Option, none, some, ◌≡◌, refl, ◌≢◌, on_option, on_result,
  on_result_cases, is_empty,
}
use ee_eq_cli.Floats.{FloatOps}
use ee_eq_cli.Preset.{ParsedPreset}
use ee_eq_cli.Router.{RouterOps, RouterLaws, RouterSnapshot}
use ee_eq_cli.Backend.{SessionBackend, BackendLaws, RuntimeSnapshot, Started, SinkList}

-- `stop_fd_`: -1, or open with a signal waiting or none.
pub data StopFd : Type 0 where
  closed drained signalled : StopFd

abbrev pub signal : StopFd → StopFd
signal closed = closed
signal _ = signalled

abbrev pub drain : StopFd → StopFd
drain closed = closed
drain _ = drained

module _ {F : FloatOps} (R : RouterOps F) where
  open F use {Double, Float, f_one}

  pub record RealSessionBackend : Type 0 where
    pub router : Option R.Running
    pub preset_origin : String
    pub worker : Bool
    pub stop_requested : Bool
    pub worker_failed : Bool
    pub stop_fd : StopFd

  -- The constructor: whether `eventfd` could be opened is the system's answer.
  pub create : StopFd → RealSessionBackend
  create fd = record {
    router = none;
    preset_origin = "";
    worker = false;
    stop_requested = false;
    worker_failed = false;
    stop_fd = fd;
  }

  unfoldable pub stop_session : RealSessionBackend → RealSessionBackend
  stop_session b = record {
    router = none;
    preset_origin = "";
    worker = false;
    stop_requested = true;
    worker_failed = b.worker_failed;
    stop_fd = signal b.stop_fd;
  }

  unfoldable pub start_session :
      RealSessionBackend → ParsedPreset Double → String → String → Started RealSessionBackend
  start_session b preset origin sink =
      let stopped = stop_session b in
      on_result (R.start preset sink) (λ e. record { started = false; error = e; state = stopped })
        (λ r. record {
          started = true;
          error = "";
          state = record {
            router = some r;
            preset_origin = origin;
            worker = true;
            stop_requested = false;
            worker_failed = false;
            stop_fd = drain stopped.stop_fd;
          };
        })

  unfoldable pub set_bypass : RealSessionBackend → Bool → RealSessionBackend
  set_bypass b x = on_option b.router b (λ r. record b { router = some (R.set_bypass r x) })

  unfoldable pub set_volume : RealSessionBackend → Float → RealSessionBackend
  set_volume b v = on_option b.router b (λ r. record b { router = some (R.set_volume r v) })

  pub list_sinks : RealSessionBackend → SinkList RealSessionBackend
  list_sinks b = record { sinks = R.list_sinks.0; error = R.list_sinks.1; state = b }

  -- `RuntimeSnapshot{}`
  abbrev pub no_snapshot : RuntimeSnapshot Float
  no_snapshot = record {
    session_active = false;
    preset_origin = "";
    sink_name = "";
    sink_serial = 0;
    active_plugins = [];
    init_error = "";
    bypass = false;
    volume = f_one;
  }

  abbrev pub snapshot_of : String → RouterSnapshot Float → RuntimeSnapshot Float
  snapshot_of origin n = record {
    session_active = true;
    preset_origin = origin;
    sink_name = n.sink_name;
    sink_serial = n.sink_serial;
    active_plugins = n.active_plugins;
    init_error = n.init_error;
    bypass = n.bypass;
    volume = n.volume;
  }

  abbrev with_router : Option R.Running → Bool → String → RuntimeSnapshot Float
  with_router none failed origin = no_snapshot
  with_router (some r) true origin = no_snapshot
  with_router (some r) false origin = snapshot_of origin (R.runtime_snapshot r)

  unfoldable pub snapshot : RealSessionBackend → RuntimeSnapshot Float
  snapshot b = with_router b.router b.worker_failed b.preset_origin

  abbrev pub real_backend : SessionBackend F
  real_backend = record {
    State = RealSessionBackend;
    start_session = start_session;
    stop_session = stop_session;
    set_bypass = set_bypass;
    set_volume = set_volume;
    list_sinks = list_sinks;
    snapshot = snapshot;
  }

  module _ (L : RouterLaws R) where
    start_lem :
        (b : RealSessionBackend) (p : ParsedPreset Double) (origin sink : String)
        → (let r = start_session b p origin sink in
            (r.started ≡ true
              → ((snapshot r.state).session_active ≡ true)
                × ((snapshot r.state).preset_origin ≡ origin)
                × ((snapshot r.state).bypass ≡ false)
                × ((snapshot r.state).volume ≡ f_one))
            × (r.started ≡ false
                → ((snapshot r.state).session_active ≡ false) × (is_empty r.error ≡ false)))
    unfolding start_session snapshot stop_session
    start_lem b p origin sink =
        on_result_cases
          (λ (r : Started RealSessionBackend).
            (r.started ≡ true
              → ((snapshot r.state).session_active ≡ true)
                × ((snapshot r.state).preset_origin ≡ origin)
                × ((snapshot r.state).bypass ≡ false)
                × ((snapshot r.state).volume ≡ f_one))
            × (r.started ≡ false
                → ((snapshot r.state).session_active ≡ false) × (is_empty r.error ≡ false)))
          (R.start p sink) (λ e h. (λ x. cc, λ _. (refl, L.start_error p sink e h)))
          (λ r h.
            (λ _. (refl, refl, L.fresh_bypass p sink r h, L.fresh_volume p sink r h), λ x. cc))

    bypass_at :
        (o : Option R.Running) (failed : Bool) (b : RealSessionBackend) (x : Bool)
        → (let b' = record b { router = o; worker_failed = failed } in
            let m = snapshot (set_bypass b' x) in
            let n = snapshot b' in
            (m.session_active ≡ n.session_active)
            × (m.preset_origin ≡ n.preset_origin)
            × (n.session_active ≡ true → m.bypass ≡ x)
            × (m.volume ≡ n.volume))
    unfolding set_bypass snapshot
    bypass_at none failed b x = (refl, refl, λ h. cc, refl)
    bypass_at (some r) true b x = (refl, refl, λ h. cc, refl)
    bypass_at (some r) false b x = (refl, refl, λ _. L.bypass_set r x, L.bypass_volume r x)

    volume_at :
        (o : Option R.Running) (failed : Bool) (b : RealSessionBackend) (v : Float)
        → (let b' = record b { router = o; worker_failed = failed } in
            let m = snapshot (set_volume b' v) in
            let n = snapshot b' in
            (m.session_active ≡ n.session_active)
            × (m.preset_origin ≡ n.preset_origin)
            × (n.session_active ≡ true → m.volume ≡ v)
            × (m.bypass ≡ n.bypass))
    unfolding set_volume snapshot
    volume_at none failed b v = (refl, refl, λ h. cc, refl)
    volume_at (some r) true b v = (refl, refl, λ h. cc, refl)
    volume_at (some r) false b v = (refl, refl, λ _. L.volume_set r v, L.volume_bypass r v)

    not-empty : {e : String} → is_empty e ≡ false → e ≢ ""
    not-empty h p = let q : is_empty "" ≡ false = rw p at h in cc

    stop_inactive : (b : RealSessionBackend) → (snapshot (stop_session b)).session_active ≡ false
    unfolding stop_session snapshot
    stop_inactive b = refl

    list_sinks_lem : (b : RealSessionBackend) → snapshot (list_sinks b).state ≡ snapshot b
    unfolding list_sinks
    list_sinks_lem b = refl

    -- Over a router that keeps its promises the session backend keeps those on which the controller
    -- relies: a start leaves a fresh active session of the given preset or none and an error, a
    -- stop leaves none, and bypass and volume change what they name in an active session only.
    pub real_backend-BackendLaws : BackendLaws real_backend
    real_backend-BackendLaws = record {
      start_active = λ b p o k h. ((start_lem b p o k).0 h).0;
      start_origin = λ b p o k h. ((start_lem b p o k).0 h).1;
      start_bypass = λ b p o k h. ((start_lem b p o k).0 h).2;
      start_volume = λ b p o k h. ((start_lem b p o k).0 h).3;
      start_failed = λ b p o k h. ((start_lem b p o k).1 h).0;
      start_error = λ b p o k h. not-empty ((start_lem b p o k).1 h).1;
      stop_inactive = stop_inactive;
      bypass_active = λ b x. (bypass_at b.router b.worker_failed b x).0;
      bypass_origin = λ b x. (bypass_at b.router b.worker_failed b x).1;
      bypass_set = λ b x h. (bypass_at b.router b.worker_failed b x).2 h;
      bypass_volume = λ b x. (bypass_at b.router b.worker_failed b x).3;
      volume_active = λ b v. (volume_at b.router b.worker_failed b v).0;
      volume_origin = λ b v. (volume_at b.router b.worker_failed b v).1;
      volume_set = λ b v h. (volume_at b.router b.worker_failed b v).2 h;
      volume_bypass = λ b v. (volume_at b.router b.worker_failed b v).3;
      list_snapshot = list_sinks_lem;
    }
