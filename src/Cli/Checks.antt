-- ===== src/Cli/Checks.antt =====
-- The arguments with which the program runs.
use ee_eq_cli.Common.{
  arith, Bool, true, false, not, ◌&&◌, ◌||◌, String, List, [], ◌∷◌, Option, none, some, Result, ok,
  err, is_empty, ◌≡◌, refl, ◌⊎◌, inl, inr, if◌then◌else◌, if_cases, on_result,
}
use ee_eq_cli.Cli.{
  Turn, returned, refused, after_one, after_two, CliOption, CliArgs, no_args, is_url,
  starts_with_ci, scan, check_args, check_convert, check_preset, with_default, from_env,
  parse_cli_args, default_preset_env, read_argument, option_of,
}

-- What `check_args` lets pass, given the environment.
pub record Runs (getenv : String → Option String) (args : CliArgs) : Type 0 where
  pub one_source :
      (is_empty args.preset_source ≡ true) ⊎ (is_empty args.convert_autoeq_source ≡ true)
  pub output_converts :
      is_empty args.output_path ≡ false → is_empty args.convert_autoeq_source ≡ false
  pub converts_alone :
      is_empty args.convert_autoeq_source ≡ false
      → (args.list_sinks ≡ false) × (is_empty args.sink_selector ≡ true) × (args.dry_run ≡ false)
  pub has_source :
      (is_empty args.preset_source ≡ false)
      ⊎ (is_empty args.convert_autoeq_source ≡ false)
      ⊎ (args.list_sinks ≡ true)
  pub local_preset : is_url args.preset_source ≡ false
  pub local_convert : is_url args.convert_autoeq_source ≡ false
  pub env_source : args.preset_from_env ≡ true → getenv default_preset_env ≡ some args.preset_source

empty-not_url : (s : String) → is_empty s ≡ true → is_url s ≡ false
unfolding is_url starts_with_ci
empty-not_url String.[] h = refl
empty-not_url (String.◌∷◌ c s) h = cc

-- No preset of the environment has been taken yet.
abbrev Fresh : CliArgs → Type 0
Fresh args = args.preset_from_env ≡ false

abbrev asks : CliArgs → Bool
asks args = args.show_help || args.show_version

-- The loop ends early only for the help or the version.
abbrev NoEnv : Result (Bool × CliArgs) → Type 0
NoEnv (ok r) = Fresh r.1 × (r.0 ≡ true → asks r.1 ≡ true)
NoEnv (err e) = Unit

abbrev FreshTurn : Turn → Type 0
FreshTurn (returned args) = Fresh args × (asks args ≡ true)
FreshTurn (refused e) = Unit
FreshTurn (after_one args) = Fresh args
FreshTurn (after_two args) = Fresh args

read_argument-Fresh :
    (o : CliOption) (a : String) (next : Option String) (args : CliArgs)
    → Fresh args
    → FreshTurn (read_argument o a next args)
unfolding read_argument
read_argument-Fresh CliOption.help a next args h = (h, refl)
read_argument-Fresh CliOption.version a next args h = (h, ground arith)
read_argument-Fresh CliOption.preset a none args h = tt
read_argument-Fresh CliOption.preset a (some v) args h = h
read_argument-Fresh CliOption.convert_autoeq a none args h = tt
read_argument-Fresh CliOption.convert_autoeq a (some v) args h = h
read_argument-Fresh CliOption.output a none args h = tt
read_argument-Fresh CliOption.output a (some v) args h = h
read_argument-Fresh CliOption.sink a none args h = tt
read_argument-Fresh CliOption.sink a (some v) args h = h
read_argument-Fresh CliOption.dry_run a next args h = h
read_argument-Fresh CliOption.list_sinks a next args h = h
read_argument-Fresh CliOption.unknown a next args h = tt

turn-NoEnv :
    (t : Turn) (f g : CliArgs → Result (Bool × CliArgs))
    → ((x : CliArgs) → Fresh x → NoEnv (f x))
    → ((x : CliArgs) → Fresh x → NoEnv (g x))
    → FreshTurn t
    → NoEnv (elim t [
      | returned x ↦ ok (true, x)
      | refused e ↦ err e
      | after_one x ↦ f x
      | after_two x ↦ g x
    ])
turn-NoEnv (returned x) f g p q h = (h.0, λ _. h.1)
turn-NoEnv (refused e) f g p q h = tt
turn-NoEnv (after_one x) f g p q h = p x h
turn-NoEnv (after_two x) f g p q h = q x h

scan-NoEnv : (l : List String) (args : CliArgs) → Fresh args → NoEnv (scan l args)
unfolding scan
scan-NoEnv [] args h = (h, λ k. cc)
scan-NoEnv (a ∷ []) args h =
    turn-NoEnv (read_argument (option_of a) a none args) (λ x. ok (false, x)) (λ x. ok (false, x))
      (λ x k. (k, λ l. cc)) (λ x k. (k, λ l. cc)) (read_argument-Fresh (option_of a) a none args h)
scan-NoEnv (a ∷ v ∷ rest) args h =
    turn-NoEnv (read_argument (option_of a) a (some v) args) (scan (v ∷ rest)) (scan rest)
      (scan-NoEnv (v ∷ rest)) (scan-NoEnv rest)
      (read_argument-Fresh (option_of a) a (some v) args h)

check_convert_inv :
    (args : CliArgs) {x : CliArgs}
    → check_convert args ≡ ok x
    → (x ≡ args)
      × (args.list_sinks ≡ false)
      × (is_empty args.sink_selector ≡ true)
      × (args.dry_run ≡ false)
      × (is_url args.convert_autoeq_source ≡ false)
unfolding check_convert
check_convert_inv args h = ground arith

check_preset_inv :
    (args : CliArgs) {x : CliArgs}
    → check_preset args ≡ ok x
    → (x ≡ args)
      × ((is_empty args.preset_source && not args.list_sinks) ≡ false)
      × (is_url args.preset_source ≡ false)
unfolding check_preset
check_preset_inv args h = ground arith

-- Where the preset comes from after `with_default`.
with_default_lem :
    (getenv : String → Option String) (args : CliArgs)
    → Fresh args
    → (let d = with_default getenv args in
        (d.preset_from_env ≡ true → getenv default_preset_env ≡ some d.preset_source)
        × (d.convert_autoeq_source ≡ args.convert_autoeq_source)
        × (d.output_path ≡ args.output_path)
        × (d.show_help ≡ args.show_help))
unfolding with_default
with_default_lem getenv args h =
    if_cases {A = CliArgs}
      (λ d.
        (d.preset_from_env ≡ true → getenv default_preset_env ≡ some d.preset_source)
        × (d.convert_autoeq_source ≡ args.convert_autoeq_source)
        × (d.output_path ≡ args.output_path)
        × (d.show_help ≡ args.show_help))
      (is_empty args.preset_source && not args.list_sinks)
      (λ _. taken (getenv default_preset_env) refl) (λ _. ground (arith, h))
  where
    taken :
        (o : Option String)
        → getenv default_preset_env ≡ o
        → ((from_env o args).preset_from_env ≡ true
            → getenv default_preset_env ≡ some (from_env o args).preset_source)
          × ((from_env o args).convert_autoeq_source ≡ args.convert_autoeq_source)
          × ((from_env o args).output_path ≡ args.output_path)
          × ((from_env o args).show_help ≡ args.show_help)
    taken none e = ground (arith, h)
    taken (some v) e = ground (arith, h)

-- What `check_args` accepts may run.
check_args-Runs :
    (getenv : String → Option String) (args : CliArgs) {x : CliArgs}
    → Fresh args
    → check_args getenv args ≡ ok x
    → Runs getenv x
unfolding check_args
check_args-Runs getenv args {x} h e =
    if_cases {A = Result CliArgs} (λ r. r ≡ ok x → Runs getenv x)
      (not (is_empty args.preset_source) && not (is_empty args.convert_autoeq_source)) (λ _ e. cc)
      (λ one.
        if_cases {A = Result CliArgs} (λ r. r ≡ ok x → Runs getenv x)
          (not (is_empty args.output_path) && is_empty args.convert_autoeq_source) (λ _ e. cc)
          (λ out.
            if_cases {A = Result CliArgs} (λ r. r ≡ ok x → Runs getenv x)
              (not (is_empty args.convert_autoeq_source))
              (λ converts e. converted one converts (check_convert_inv args e))
              (λ plays e. played out plays (check_preset_inv (with_default getenv args) e))))
      e
  where
    converted :
        (not (is_empty args.preset_source) && not (is_empty args.convert_autoeq_source)) ≡ false
        → not (is_empty args.convert_autoeq_source) ≡ true
        → (x ≡ args)
          × (args.list_sinks ≡ false)
          × (is_empty args.sink_selector ≡ true)
          × (args.dry_run ≡ false)
          × (is_url args.convert_autoeq_source ≡ false)
        → Runs getenv x
    converted one converts (same, no_list, no_sink, wet, here) = rw same (record {
      one_source = inl (ground arith);
      output_converts = λ _. ground arith;
      converts_alone = λ _. (no_list, no_sink, wet);
      has_source = inr (inl (ground arith));
      local_preset = empty-not_url args.preset_source (ground arith);
      local_convert = here;
      env_source = λ k. ground (arith, h);
    })

    played :
        (not (is_empty args.output_path) && is_empty args.convert_autoeq_source) ≡ false
        → not (is_empty args.convert_autoeq_source) ≡ false
        → (x ≡ with_default getenv args)
          × ((is_empty (with_default getenv args).preset_source
                && not (with_default getenv args).list_sinks)
              ≡ false)
          × (is_url (with_default getenv args).preset_source ≡ false)
        → Runs getenv x
    played out plays (same, some_source, here) =
        let (env, convert_same, output_same, _) = with_default_lem getenv args h in
        rw same (record {
          one_source = inr (rw convert_same (ground arith));
          output_converts = rw (convert_same, output_same) (λ k. ground arith);
          converts_alone = rw convert_same (λ k. ground arith);
          has_source = ground arith;
          local_preset = here;
          local_convert =
              empty-not_url (with_default getenv args).convert_autoeq_source
                (rw convert_same (ground arith));
          env_source = env;
        })

parsed-Runs :
    (getenv : String → Option String) (r : Result (Bool × CliArgs)) {x : CliArgs}
    → NoEnv r
    → on_result r err (λ q. if q.0 then ok q.1 else check_args getenv q.1) ≡ ok x
    → (asks x ≡ true) ⊎ Runs getenv x
parsed-Runs getenv (ok (true, args)) n h = inl (ground (arith, n))
parsed-Runs getenv (ok (false, args)) n h = inr (check_args-Runs getenv args n.0 h)
parsed-Runs getenv (err e) n h = cc

-- Arguments that are accepted ask for the help or the version, or the program may run with them:
-- a preset, a conversion or a listing of the sinks is asked for, not both a preset and a
-- conversion; a conversion stands alone and only it has an output file; no source is a URL; and
-- a preset that counts as the environment's is the environment's.
pub parse_cli_args-Runs :
    (getenv : String → Option String) (arguments : List String) {args : CliArgs}
    → parse_cli_args getenv arguments ≡ ok args
    → ((args.show_help || args.show_version) ≡ true) ⊎ Runs getenv args
unfolding parse_cli_args
parse_cli_args-Runs getenv arguments h =
    parsed-Runs getenv (scan arguments no_args) (scan-NoEnv arguments no_args refl) h
