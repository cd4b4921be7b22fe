-- ===== src/Run/Command.antt =====
-- main.go: `main` and `loadDevelopmentEnv`, from the command line to `run`.
use one_time_note.Base.{
  ℕ, Bool, not, Option, none, some, List, [], ◌∷◌, ◌==◌, length, if◌then◌else◌,
}
use one_time_note.Base.Text.{Bytes, is_some}
use one_time_note.Net.{Net}
use one_time_note.Platform.{Platform}
use one_time_note.Platform.Buckets.{lookup}
use one_time_note.RateLimiter.{Rate}
use one_time_note.Http.{Http}
use one_time_note.Views.{Engine}
use one_time_note.Configuration.Env
use one_time_note.Configuration.Parsing.{Parsers}
use one_time_note.Application.{NetHttp}
use one_time_note.Run.{Start, Outcome, run}

abbrev pub value_of : Option Bytes → Bytes
value_of none = []
value_of (some value) = value

-- What `godotenv.Read` finds: the variables, none of them if there is no file, or `none` where it fails
-- otherwise. A variable of the process comes first, unless it is empty.
unfoldable pub load_development_env :
    (os_getenv : Bytes → Bytes) → Option (List (Bytes × Bytes)) → Option (Bytes → Bytes)
load_development_env os_getenv none = none
load_development_env os_getenv (some env) =
    let completed =
      if is_some (lookup Env.environment env)
      then env
      else (Env.environment, Env.environment_development) ∷ env in
    some (λ key.
      if not (length (os_getenv key) == 0) then os_getenv key else value_of (lookup key completed))

module _ (N : Net) (L : Parsers N) (E : Engine N) (R : Rate) (P : Platform) (H : Http)
    (S : NetHttp N) where
  pub data Exit : Type 0 where
    flag_parse_failed development_environment_load_failed : Exit
    unexpected_positional_arguments : ℕ → Exit
    application_run : Outcome N L E R P H S → Exit

  abbrev run_with : Start N L E R P H S → Bool → (Bytes → Bytes) → Exit
  run_with x dev getenv = application_run (
      run N L E R P H S (record x { getenv = some getenv; options = record { development = dev } }))

  -- For the flag `--dev` and the number of arguments behind the flags, where they can be parsed.
  unfoldable pub main :
      Option (Bool × ℕ)
      → (os_getenv : Bytes → Bytes) → (dot_env : Option (List (Bytes × Bytes)))
      → Start N L E R P H S
      → Exit
  main none os_getenv dot_env x = flag_parse_failed
  main (some (dev, count)) os_getenv dot_env x =
      if not (count == 0)
      then unexpected_positional_arguments count
      else if dev
      then elim (load_development_env os_getenv dot_env) [
        | none ↦ development_environment_load_failed
        | some getenv ↦ run_with x dev getenv
      ]
      else run_with x dev os_getenv
