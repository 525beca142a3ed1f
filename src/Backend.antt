-- ===== src/Backend.antt =====
-- The session backend's interface (src/daemon_backend.hpp): the virtual functions over an abstract
-- state, and the contract on which the controller relies.
pub mod Real
pub mod Worker
mod Tests
use ee_eq_cli.Common.{ℕ, Bool, true, false, String, List, ◌≡◌, ◌≢◌}
use ee_eq_cli.Floats.{FloatOps}
use ee_eq_cli.Preset.{ParsedPreset}

pub record RuntimeSnapshot (Fl : Type 0) : Type 0 where
  pub session_active : Bool
  pub preset_origin : String
  pub sink_name : String
  pub sink_serial : ℕ
  pub active_plugins : List String
  pub init_error : String
  pub bypass : Bool
  pub volume : Fl

-- What `start_session` returns, with the `error` that it leaves.
pub record Started (S : Type 0) : Type 0 where
  pub started : Bool
  pub error : String
  pub state : S

pub record SinkList (S : Type 0) : Type 0 where
  pub sinks : List String
  pub error : String
  pub state : S

pub record SessionBackend (F : FloatOps) : Type 1 where
  pub State : Type 0
  pub start_session : State → ParsedPreset F.Double → String → String → Started State
  pub stop_session : State → State
  pub set_bypass : State → Bool → State
  pub set_volume : State → F.Float → State
  pub list_sinks : State → SinkList State
  pub snapshot : State → RuntimeSnapshot F.Float

module _ {F : FloatOps} (B : SessionBackend F) where
  open F use {Double, Float, f_one}
  open B use {State, start_session, stop_session, set_bypass, set_volume, list_sinks, snapshot}

  abbrev pub active : State → Bool
  active b = (snapshot b).session_active

  -- A session is either fresh from a start, or changed by one setting; nothing else changes it.
  pub record BackendLaws : Type 0 where
    pub start_active :
        (b : State) (p : ParsedPreset Double) (origin sink : String)
        → (start_session b p origin sink).started ≡ true
        → active (start_session b p origin sink).state ≡ true
    pub start_origin :
        (b : State) (p : ParsedPreset Double) (origin sink : String)
        → (start_session b p origin sink).started ≡ true
        → (snapshot (start_session b p origin sink).state).preset_origin ≡ origin
    pub start_bypass :
        (b : State) (p : ParsedPreset Double) (origin sink : String)
        → (start_session b p origin sink).started ≡ true
        → (snapshot (start_session b p origin sink).state).bypass ≡ false
    pub start_volume :
        (b : State) (p : ParsedPreset Double) (origin sink : String)
        → (start_session b p origin sink).started ≡ true
        → (snapshot (start_session b p origin sink).state).volume ≡ f_one
    pub start_failed :
        (b : State) (p : ParsedPreset Double) (origin sink : String)
        → (start_session b p origin sink).started ≡ false
        → active (start_session b p origin sink).state ≡ false
    pub start_error :
        (b : State) (p : ParsedPreset Double) (origin sink : String)
        → (start_session b p origin sink).started ≡ false
        → (start_session b p origin sink).error ≢ ""
    pub stop_inactive : (b : State) → active (stop_session b) ≡ false
    pub bypass_active : (b : State) (x : Bool) → active (set_bypass b x) ≡ active b
    pub bypass_origin :
        (b : State) (x : Bool)
        → (snapshot (set_bypass b x)).preset_origin ≡ (snapshot b).preset_origin
    pub bypass_set :
        (b : State) (x : Bool) → active b ≡ true → (snapshot (set_bypass b x)).bypass ≡ x
    pub bypass_volume :
        (b : State) (x : Bool) → (snapshot (set_bypass b x)).volume ≡ (snapshot b).volume
    pub volume_active : (b : State) (v : Float) → active (set_volume b v) ≡ active b
    pub volume_origin :
        (b : State) (v : Float)
        → (snapshot (set_volume b v)).preset_origin ≡ (snapshot b).preset_origin
    pub volume_set :
        (b : State) (v : Float) → active b ≡ true → (snapshot (set_volume b v)).volume ≡ v
    pub volume_bypass :
        (b : State) (v : Float) → (snapshot (set_volume b v)).bypass ≡ (snapshot b).bypass
    pub list_snapshot : (b : State) → snapshot (list_sinks b).state ≡ snapshot b
