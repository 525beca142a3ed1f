-- ===== src/Router.antt =====
-- The router's interface to the session backend (src/pipewire_router.hpp, the public functions of
-- PipeWireRouter). `Running` is a router whose `start` has succeeded: it has an equalizer filter.
pub mod Simple
pub mod Tasks
mod Tests
use ee_eq_cli.Common.{
  ℕ, Bool, true, false, String, List, Option, none, some, ◌≡◌, ◌⊎◌, Result, ok, err, is_empty,
}
use ee_eq_cli.Floats.{FloatOps}
use ee_eq_cli.Preset.{ParsedPreset}

pub record RouterSnapshot (Fl : Type 0) : Type 0 where
  pub sink_name : String
  pub sink_serial : ℕ
  pub active_plugins : List String
  pub init_error : String
  pub bypass : Bool
  pub volume : Fl

pub record RouterOps (F : FloatOps) : Type 1 where
  pub Running : Type 0
  -- The constructor and `start`; a router that fails to start is gone, and leaves its error.
  pub start : ParsedPreset F.Double → String → Result Running
  pub set_bypass : Running → Bool → Running
  pub set_volume : Running → F.Float → Running
  pub runtime_snapshot : Running → RouterSnapshot F.Float
  -- `list_sinks` of a router made for this one call: the lines and the error.
  pub list_sinks : List String × String

module _ {F : FloatOps} (R : RouterOps F) where
  open R use {Running, start, set_bypass, set_volume, runtime_snapshot}

  pub record RouterLaws : Type 0 where
    pub fresh_bypass :
        (p : ParsedPreset F.Double) (sink : String) (r : Running)
        → start p sink ≡ ok r
        → (runtime_snapshot r).bypass ≡ false
    pub fresh_volume :
        (p : ParsedPreset F.Double) (sink : String) (r : Running)
        → start p sink ≡ ok r
        → (runtime_snapshot r).volume ≡ F.f_one
    pub start_error :
        (p : ParsedPreset F.Double) (sink : String) (e : String)
        → start p sink ≡ err e
        → is_empty e ≡ false
    pub bypass_set : (r : Running) (x : Bool) → (runtime_snapshot (set_bypass r x)).bypass ≡ x
    pub bypass_volume :
        (r : Running) (x : Bool)
        → (runtime_snapshot (set_bypass r x)).volume ≡ (runtime_snapshot r).volume
    pub volume_set : (r : Running) (v : F.Float) → (runtime_snapshot (set_volume r v)).volume ≡ v
    pub volume_bypass :
        (r : Running) (v : F.Float)
        → (runtime_snapshot (set_volume r v)).bypass ≡ (runtime_snapshot r).bypass
