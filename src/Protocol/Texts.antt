-- ===== src/Protocol/Texts.antt =====
-- The texts of the protocol's enumerations (src/daemon_protocol.cpp).
use ee_eq_cli.Common.{String, ◌≡◌, refl, ◌=s◌, if◌then◌else◌}
use ee_eq_cli.Protocol.{DaemonProcessState, SessionLifecycleState, HealthState}

-- `to_string`, for each of the three types.
pub daemon_state_text : DaemonProcessState → String
daemon_state_text DaemonProcessState.starting = "starting"
daemon_state_text DaemonProcessState.ready = "ready"
daemon_state_text DaemonProcessState.stopping = "stopping"
daemon_state_text DaemonProcessState.failed = "failed"

pub session_state_text : SessionLifecycleState → String
session_state_text SessionLifecycleState.disabled = "disabled"
session_state_text SessionLifecycleState.enabling = "enabling"
session_state_text SessionLifecycleState.enabled = "enabled"
session_state_text SessionLifecycleState.disabling = "disabling"
session_state_text SessionLifecycleState.degraded = "degraded"

pub health_text : HealthState → String
health_text HealthState.ok = "ok"
health_text HealthState.degraded = "degraded"
health_text HealthState.failed = "failed"

pub parse_daemon_state : String → DaemonProcessState
parse_daemon_state value =
    if value =s "ready"
    then DaemonProcessState.ready
    else (if value =s "starting"
        then DaemonProcessState.starting
        else (if value =s "stopping"
            then DaemonProcessState.stopping
            else DaemonProcessState.failed))

pub parse_session_state : String → SessionLifecycleState
parse_session_state value =
    if value =s "enabled"
    then SessionLifecycleState.enabled
    else (if value =s "enabling"
        then SessionLifecycleState.enabling
        else (if value =s "disabling"
            then SessionLifecycleState.disabling
            else (if value =s "degraded"
                then SessionLifecycleState.degraded
                else SessionLifecycleState.disabled)))

pub parse_health_state : String → HealthState
parse_health_state value =
    if value =s "ok"
    then HealthState.ok
    else (if value =s "degraded" then HealthState.degraded else HealthState.failed)

pub parse_daemon_state-text :
    (x : DaemonProcessState) → parse_daemon_state (daemon_state_text x) ≡ x
unfolding parse_daemon_state daemon_state_text
parse_daemon_state-text DaemonProcessState.starting = refl
parse_daemon_state-text DaemonProcessState.ready = refl
parse_daemon_state-text DaemonProcessState.stopping = refl
parse_daemon_state-text DaemonProcessState.failed = refl

pub parse_session_state-text :
    (x : SessionLifecycleState) → parse_session_state (session_state_text x) ≡ x
unfolding parse_session_state session_state_text
parse_session_state-text SessionLifecycleState.disabled = refl
parse_session_state-text SessionLifecycleState.enabling = refl
parse_session_state-text SessionLifecycleState.enabled = refl
parse_session_state-text SessionLifecycleState.disabling = refl
parse_session_state-text SessionLifecycleState.degraded = refl

pub parse_health_state-text : (x : HealthState) → parse_health_state (health_text x) ≡ x
unfolding parse_health_state health_text
parse_health_state-text HealthState.ok = refl
parse_health_state-text HealthState.degraded = refl
parse_health_state-text HealthState.failed = refl
