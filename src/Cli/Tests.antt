-- ===== src/Cli/Tests.antt =====
-- The command line on concrete arguments.
use ee_eq_cli.Common.{true, String, [], ◌∷◌, Option, none, ok, err, ◌≡◌, refl, ◌⊎◌, inl, inr, ◌||◌}
use ee_eq_cli.Cli.{
  CliArgs, no_args, parse_cli_args, scan, read_argument, option_of, check_args, check_convert,
  check_preset, with_default, is_url, starts_with_ci,
}
use ee_eq_cli.Cli.Checks.{Runs, parse_cli_args-Runs}
use ee_eq_cli.Cli.RoundTrip.{render, parse_cli_args-render}

abbrev no_env : String → Option String
no_env name = none

abbrev conversion : CliArgs
conversion = record no_args { convert_autoeq_source = "headphones.txt"; output_path = "out.json" }

converts :
    parse_cli_args no_env ("-o" ∷ "out.json" ∷ "--convert-autoeq" ∷ "headphones.txt" ∷ [])
    ≡ ok conversion
unfolding parse_cli_args scan read_argument option_of check_args check_convert is_url starts_with_ci
converts = refl

refuses_url :
    parse_cli_args no_env ("-p" ∷ "HTTPS://host/p.json" ∷ [])
    ≡ err "--preset must be a local file path; URL presets are no longer supported"
unfolding parse_cli_args scan read_argument option_of check_args check_preset with_default is_url
    starts_with_ci
refuses_url = refl

misses_value : parse_cli_args no_env ("-d" ∷ "-s" ∷ []) ≡ err "missing value for -s"
unfolding parse_cli_args scan read_argument option_of
misses_value = refl

parse_cli_args-Runs_example :
    ((conversion.show_help || conversion.show_version) ≡ true) ⊎ Runs no_env conversion
parse_cli_args-Runs_example =
    parse_cli_args-Runs no_env ("-o" ∷ "out.json" ∷ "--convert-autoeq" ∷ "headphones.txt" ∷ [])
      {args = conversion} converts

conversion-Runs : Runs no_env conversion
unfolding is_url starts_with_ci
conversion-Runs = record {
  one_source = inl refl;
  output_converts = λ _. refl;
  converts_alone = λ _. (refl, refl, refl);
  has_source = inr (inl refl);
  local_preset = refl;
  local_convert = refl;
  env_source = λ h. cc;
}

parse_cli_args-render_example : parse_cli_args no_env (render conversion) ≡ ok conversion
parse_cli_args-render_example =
    parse_cli_args-render no_env conversion conversion-Runs refl refl refl
