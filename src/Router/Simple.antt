-- ===== src/Router/Simple.antt =====
-- A router for the tests: it starts on every sink but "missing".
use ee_eq_cli.Common.{
  Bool, false, String, [], ◌∷◌, Result, ok, err, ◌≡◌, refl, ◌=s◌, if◌then◌else◌, if_cases, is_empty,
  arith,
}
use ee_eq_cli.Preset.{ParsedPreset}
use ee_eq_cli.Floats.Decimal.{Decimal, plus, decimals}
use ee_eq_cli.Router.{RouterOps, RouterLaws}

pub record Session : Type 0 where
  pub sink : String
  pub bypass : Bool
  pub volume : Decimal

abbrev start : ParsedPreset Decimal → String → Result Session
start p sink =
    if sink =s "missing"
    then err "no PipeWire sink matched"
    else ok (record { sink = sink; bypass = false; volume = plus 1000 })

abbrev pub simple_router : RouterOps decimals
simple_router = record {
  Running = Session;
  start = start;
  set_bypass = λ r x. record r { bypass = x };
  set_volume = λ r v. record r { volume = v };
  runtime_snapshot = λ r. record {
    sink_name = r.sink;
    sink_serial = 7;
    active_plugins = "equalizer" ∷ [];
    init_error = "";
    bypass = r.bypass;
    volume = r.volume;
  };
  list_sinks = ("speakers [serial 7]" ∷ [], "");
}

start_error :
    (p : ParsedPreset Decimal) (sink e : String) → start p sink ≡ err e → is_empty e ≡ false
start_error p sink =
    if_cases (λ (r : Result Session). (e : String) → r ≡ err e → is_empty e ≡ false)
      (sink =s "missing") (λ _ e h. let q : e ≡ "no PipeWire sink matched" = cc in rw q refl)
      (λ _ e h. cc)

pub simple_router-RouterLaws : RouterLaws simple_router
simple_router-RouterLaws = record {
  fresh_bypass = λ p sink r h. ground arith;
  fresh_volume = λ p sink r h. ground arith;
  start_error = start_error;
  bypass_set = λ r x. refl;
  bypass_volume = λ r x. refl;
  volume_set = λ r v. refl;
  volume_bypass = λ r v. refl;
}
