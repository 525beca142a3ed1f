-- ===== src/Cli.antt =====
-- The command line of the standalone mode (src/cli_args.hpp and src/cli_args.cpp).
-- `arguments` are those after the program's name. `error` is the text of the result `err`.
pub mod Help
pub mod Checks
pub mod RoundTrip
mod Tests
use Prim.Native.String
use ee_eq_cli.Common.{
  ℕ, ◌+◌, Bool, true, false, not, ◌||◌, ◌&&◌, ◌==◌, ltb, leb, String, List, [], ◌∷◌, Option, none,
  some, Result, ok, err, is_empty, ◌=s◌, ◌<>◌, if◌then◌else◌, on_result, Char, code,
}

pub record CliArgs : Type 0 where
  pub preset_source : String
  pub convert_autoeq_source : String
  pub output_path : String
  pub sink_selector : String
  pub dry_run : Bool
  pub list_sinks : Bool
  pub show_help : Bool
  pub show_version : Bool
  pub preset_from_env : Bool

abbrev pub no_args : CliArgs
no_args = record {
  preset_source = "";
  convert_autoeq_source = "";
  output_path = "";
  sink_selector = "";
  dry_run = false;
  list_sinks = false;
  show_help = false;
  show_version = false;
  preset_from_env = false;
}

abbrev pub default_preset_env : String
default_preset_env = "EQ_CLI_DEFAULT_PRESET"

-- `std::tolower` in the C locale.
abbrev tolower : ℕ → ℕ
tolower n = if leb 65 n && leb n 90 then n + 32 else n

unfoldable pub starts_with_ci : String → String → Bool
starts_with_ci value String.[] = true
starts_with_ci String.[] (String.◌∷◌ p prefix) = false
starts_with_ci (String.◌∷◌ c value) (String.◌∷◌ p prefix) =
    tolower (code c) == tolower (code p) && starts_with_ci value prefix

unfoldable pub is_url : String → Bool
is_url value = starts_with_ci value "http://" || starts_with_ci value "https://"

pub data CliOption : Type 0 where
  help version preset convert_autoeq output sink dry_run list_sinks unknown : CliOption

unfoldable pub option_of : String → CliOption
option_of argument =
    if argument =s "--help" || argument =s "-h"
    then CliOption.help
    else (if argument =s "--version" || argument =s "-v"
        then CliOption.version
        else (if argument =s "--preset" || argument =s "-p"
            then CliOption.preset
            else (if argument =s "--convert-autoeq"
                then CliOption.convert_autoeq
                else (if argument =s "--output" || argument =s "-o"
                    then CliOption.output
                    else (if argument =s "--sink" || argument =s "-s"
                        then CliOption.sink
                        else (if argument =s "--dry-run" || argument =s "-d"
                            then CliOption.dry_run
                            else (if argument =s "--list-sinks"
                                then CliOption.list_sinks
                                else CliOption.unknown)))))))

-- What an argument does: it ends the function with a result or an error, or the loop goes on
-- after it, or after it and its value.
pub data Turn : Type 0 where
  returned : CliArgs → Turn
  refused : String → Turn
  after_one : CliArgs → Turn
  after_two : CliArgs → Turn

-- An option with a value, and `take_value`.
abbrev pub take_value : Option String → String → (String → CliArgs) → Turn
take_value none option f = refused ("missing value for " <> option)
take_value (some v) option f = after_two (f v)

-- The body of the loop at `argument`, with the argument that follows it.
unfoldable pub read_argument : CliOption → String → Option String → CliArgs → Turn
read_argument CliOption.help argument next args = returned (record args { show_help = true })
read_argument CliOption.version argument next args = returned (record args { show_version = true })
read_argument CliOption.preset argument next args =
    take_value next argument (λ v. record args { preset_source = v })
read_argument CliOption.convert_autoeq argument next args =
    take_value next argument (λ v. record args { convert_autoeq_source = v })
read_argument CliOption.output argument next args =
    take_value next argument (λ v. record args { output_path = v })
read_argument CliOption.sink argument next args =
    take_value next argument (λ v. record args { sink_selector = v })
read_argument CliOption.dry_run argument next args = after_one (record args { dry_run = true })
read_argument CliOption.list_sinks argument next args =
    after_one (record args { list_sinks = true })
read_argument CliOption.unknown argument next args = refused ("unknown option: " <> argument)

-- The loop. The flag tells that the function returns at `--help` or `--version`.
unfoldable pub scan : List String → CliArgs → Result (Bool × CliArgs)
scan [] args = ok (false, args)
scan (a ∷ []) args = elim (read_argument (option_of a) a none args) [
  | returned x ↦ ok (true, x)
  | refused e ↦ err e
  | after_one x ↦ ok (false, x)
  | after_two x ↦ ok (false, x)
]
scan (a ∷ v ∷ rest) args = elim (read_argument (option_of a) a (some v) args) [
  | returned x ↦ ok (true, x)
  | refused e ↦ err e
  | after_one x ↦ scan (v ∷ rest) x
  | after_two x ↦ scan rest x
]

-- The checks of a conversion.
unfoldable pub check_convert : CliArgs → Result CliArgs
check_convert args =
    if args.list_sinks
    then err "--convert-autoeq cannot be used with --list-sinks"
    else (if not (is_empty args.sink_selector)
        then err "--convert-autoeq cannot be used with --sink"
        else (if args.dry_run
            then err "--convert-autoeq cannot be used with --dry-run"
            else (if is_url args.convert_autoeq_source
                then err "--convert-autoeq must be a local file path"
                else ok args)))

abbrev pub from_env : Option String → CliArgs → CliArgs
from_env none args = args
from_env (some value) args =
    if is_empty value then args else record args { preset_source = value; preset_from_env = true }

-- The preset of the environment, where none is given.
unfoldable pub with_default : (String → Option String) → CliArgs → CliArgs
with_default getenv args =
    if is_empty args.preset_source && not args.list_sinks
    then from_env (getenv default_preset_env) args
    else args

unfoldable pub check_preset : CliArgs → Result CliArgs
check_preset args =
    if is_empty args.preset_source && not args.list_sinks
    then err ("no preset specified; use --preset <path> or set " <> default_preset_env)
    else (if is_url args.preset_source
        then err "--preset must be a local file path; URL presets are no longer supported"
        else ok args)

unfoldable pub check_args : (String → Option String) → CliArgs → Result CliArgs
check_args getenv args =
    if not (is_empty args.preset_source) && not (is_empty args.convert_autoeq_source)
    then err "--preset and --convert-autoeq cannot be used together"
    else (if not (is_empty args.output_path) && is_empty args.convert_autoeq_source
        then err "--output requires --convert-autoeq"
        else (if not (is_empty args.convert_autoeq_source)
            then check_convert args
            else check_preset (with_default getenv args)))

unfoldable pub parse_cli_args : (String → Option String) → List String → Result CliArgs
parse_cli_args getenv arguments =
    on_result (scan arguments no_args) err (λ r. if r.0 then ok r.1 else check_args getenv r.1)
