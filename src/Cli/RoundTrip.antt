-- ===== src/Cli/RoundTrip.antt =====
-- Arguments that are written out and read again.
use ee_eq_cli.Common.{
  arith, Bool, true, false, String, List, [], ◌∷◌, ◌++◌, Option, ok, is_empty, ◌≡◌, refl, sym, ap,
  ◌∙◌, if◌then◌else◌, is_empty_iff, inl, inr, Bool-cases,
}
use ee_eq_cli.Cli.{
  CliArgs, no_args, scan, parse_cli_args, check_args, check_convert, check_preset, with_default,
  read_argument, option_of,
}
use ee_eq_cli.Cli.Checks.{Runs}

-- The arguments that give `args`.
abbrev valued : String → String → List String
valued option v = if is_empty v then [] else option ∷ v ∷ []

abbrev flagged : String → Bool → List String
flagged option b = if b then option ∷ [] else []

module _ (args : CliArgs) where
  abbrev last_part : List String
  last_part = flagged "--list-sinks" args.list_sinks

  abbrev run_part : List String
  run_part = flagged "--dry-run" args.dry_run ++ last_part

  abbrev sink_part : List String
  sink_part = valued "--sink" args.sink_selector ++ run_part

  abbrev output_part : List String
  output_part = valued "--output" args.output_path ++ sink_part

  abbrev convert_part : List String
  convert_part = valued "--convert-autoeq" args.convert_autoeq_source ++ output_part

  abbrev pub render : List String
  render = valued "--preset" args.preset_source ++ convert_part

scan-preset :
    (v : String) (rest : List String) (args : CliArgs)
    → is_empty args.preset_source ≡ true
    → scan (valued "--preset" v ++ rest) args ≡ scan rest (record args { preset_source = v })
unfolding scan read_argument option_of
scan-preset v rest args h = elim (Bool-cases (is_empty v)) [
  | inl e ↦ rw e (
      ap (λ p. scan rest (record args { preset_source = p }))
        ((is_empty_iff args.preset_source).0 h ∙ sym ((is_empty_iff v).0 e)))
  | inr e ↦ rw e refl
]

scan-convert :
    (v : String) (rest : List String) (args : CliArgs)
    → is_empty args.convert_autoeq_source ≡ true
    → scan (valued "--convert-autoeq" v ++ rest) args
      ≡ scan rest (record args { convert_autoeq_source = v })
unfolding scan read_argument option_of
scan-convert v rest args h = elim (Bool-cases (is_empty v)) [
  | inl e ↦ rw e (
      ap (λ p. scan rest (record args { convert_autoeq_source = p }))
        ((is_empty_iff args.convert_autoeq_source).0 h ∙ sym ((is_empty_iff v).0 e)))
  | inr e ↦ rw e refl
]

scan-output :
    (v : String) (rest : List String) (args : CliArgs)
    → is_empty args.output_path ≡ true
    → scan (valued "--output" v ++ rest) args ≡ scan rest (record args { output_path = v })
unfolding scan read_argument option_of
scan-output v rest args h = elim (Bool-cases (is_empty v)) [
  | inl e ↦ rw e (
      ap (λ p. scan rest (record args { output_path = p }))
        ((is_empty_iff args.output_path).0 h ∙ sym ((is_empty_iff v).0 e)))
  | inr e ↦ rw e refl
]

scan-sink :
    (v : String) (rest : List String) (args : CliArgs)
    → is_empty args.sink_selector ≡ true
    → scan (valued "--sink" v ++ rest) args ≡ scan rest (record args { sink_selector = v })
unfolding scan read_argument option_of
scan-sink v rest args h = elim (Bool-cases (is_empty v)) [
  | inl e ↦ rw e (
      ap (λ p. scan rest (record args { sink_selector = p }))
        ((is_empty_iff args.sink_selector).0 h ∙ sym ((is_empty_iff v).0 e)))
  | inr e ↦ rw e refl
]

scan-dry_run :
    (b : Bool) (rest : List String) (args : CliArgs)
    → args.dry_run ≡ false
    → scan (flagged "--dry-run" b ++ rest) args ≡ scan rest (record args { dry_run = b })
unfolding scan read_argument option_of
scan-dry_run true [] args h = refl
scan-dry_run true (a ∷ rest) args h = refl
scan-dry_run false rest args h = ap (λ b. scan rest (record args { dry_run = b })) h

scan-list_sinks :
    (b : Bool) (args : CliArgs)
    → args.list_sinks ≡ false
    → scan (flagged "--list-sinks" b) args ≡ ok (false, record args { list_sinks = b })
unfolding scan read_argument option_of
scan-list_sinks true args h = refl
scan-list_sinks false args h = ap (λ b. ok (false, record args { list_sinks = b })) h

scan-render :
    (args : CliArgs)
    → args.show_help ≡ false
    → args.show_version ≡ false
    → args.preset_from_env ≡ false
    → scan (render args) no_args ≡ ok (false, args)
scan-render args help version env =
    scan-preset args.preset_source (convert_part args) no_args refl
    ∙ scan-convert args.convert_autoeq_source (output_part args) _ refl
    ∙ scan-output args.output_path (sink_part args) _ refl
    ∙ scan-sink args.sink_selector (run_part args) _ refl
    ∙ scan-dry_run args.dry_run (last_part args) _ refl
    ∙ scan-list_sinks args.list_sinks _ refl
    ∙ rw (help, version, env) refl

-- What may run is accepted as it is.
check_args-Runs_iff :
    (getenv : String → Option String) (args : CliArgs)
    → Runs getenv args
    → check_args getenv args ≡ ok args
unfolding check_args check_convert check_preset with_default
check_args-Runs_iff getenv args r = ground arith

-- Arguments under which the program may run are read back from the options that give them.
pub parse_cli_args-render :
    (getenv : String → Option String) (args : CliArgs)
    → Runs getenv args
    → args.show_help ≡ false
    → args.show_version ≡ false
    → args.preset_from_env ≡ false
    → parse_cli_args getenv (render args) ≡ ok args
unfolding parse_cli_args
parse_cli_args-render getenv args r help version env =
    rw (scan-render args help version env) (check_args-Runs_iff getenv args r)
