-- ===== src/Protocol.antt =====
-- The daemon protocol's types and the texts of its enumerations (src/daemon_protocol.hpp and
-- src/daemon_protocol.cpp). The type of `float` is a parameter. `pid` is a process id, a natural
-- number.
pub mod Encoding
pub mod Texts
pub mod RoundTrip
mod Tests
use ee_eq_cli.Common.{ℕ, Bool, String, List, [], false}
use ee_eq_cli.Floats.{FloatOps}

pub data DaemonProcessState : Type 0 where
  starting ready stopping failed : DaemonProcessState

pub data SessionLifecycleState : Type 0 where
  disabled enabling enabled disabling degraded : SessionLifecycleState

pub data HealthState : Type 0 where
  ok degraded failed : HealthState

pub record DesiredState (Fl : Type 0) : Type 0 where
  pub preset_path : String
  pub sink_selector : String
  pub enabled : Bool
  pub bypass : Bool
  pub volume : Fl

pub record EffectiveState (Fl : Type 0) : Type 0 where
  pub session_active : Bool
  pub preset_origin : String
  pub sink_name : String
  pub sink_serial : ℕ
  pub active_plugins : List String
  pub bypass : Bool
  pub volume : Fl

pub record DaemonStatus (Fl : Type 0) : Type 0 where
  pub daemon_state : DaemonProcessState
  pub session_state : SessionLifecycleState
  pub desired : DesiredState Fl
  pub effective : EffectiveState Fl
  pub health : HealthState
  pub last_error : String
  pub version : String
  pub pid : ℕ
  pub started_at : String

pub record DaemonRequest : Type 0 where
  pub command : String
  pub preset_path : String
  pub sink_selector : String

pub record DaemonResponse (Fl : Type 0) : Type 0 where
  pub ok : Bool
  pub error : String
  pub status : DaemonStatus Fl
  pub sinks : List String

-- The values that `{}` gives.
module _ (F : FloatOps) where
  open F use {Float, f_one}

  abbrev pub no_desired : DesiredState Float
  no_desired = record {
    preset_path = "";
    sink_selector = "";
    enabled = false;
    bypass = false;
    volume = f_one;
  }

  abbrev pub no_effective : EffectiveState Float
  no_effective = record {
    session_active = false;
    preset_origin = "";
    sink_name = "";
    sink_serial = 0;
    active_plugins = [];
    bypass = false;
    volume = f_one;
  }

  abbrev pub no_status : DaemonStatus Float
  no_status = record {
    daemon_state = DaemonProcessState.starting;
    session_state = SessionLifecycleState.disabled;
    desired = no_desired;
    effective = no_effective;
    health = HealthState.ok;
    last_error = "";
    version = "";
    pid = 0;
    started_at = "";
  }
