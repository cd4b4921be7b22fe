-- ===== src/Run.antt =====
-- main.go: `run` up to `runServer`, from the environment to what the handler of the server serves.
pub mod Starting
pub mod Serving
pub mod Command
use one_time_note.Base.{ℕ, Bool, Option, none, some, List}
use one_time_note.Base.Text.{Bytes}
use one_time_note.Base.Int.{ℤ, pos, negsuc}
use one_time_note.Clock.{Time}
use one_time_note.Errors.{Error, Result, ok, err}
use one_time_note.Platform.{Platform}
use one_time_note.Database.{Db, Faults}
use one_time_note.Net.{Net}
use one_time_note.RateLimiter.{Rate, new_rate_limiter}
use one_time_note.Http.{Http}
use one_time_note.Configuration.Parsing.{Parsers}
use one_time_note.Configuration.Startup.{StartupOptions, Config, new_config_with_options}
use one_time_note.NoteService.{new_limits}
use one_time_note.NoteService.Cleanup.{startup_maintenance}
use one_time_note.OpenDb.{OpenError, Disk, Opened, opened, not_opened, open_db}
use one_time_note.Assets.{Found, new_asset_version}
use one_time_note.Views.{Engine, new_views}
use one_time_note.Application.{NetHttp, App, Shared}

-- `int` of a size that is not negative.
abbrev pub size_of : ℤ → ℕ
size_of (pos n) = n
size_of (negsuc n) = 0

module _ (N : Net) (L : Parsers N) (E : Engine N) (R : Rate) (P : Platform) (H : Http)
    (S : NetHttp N) where
  -- What a start finds: the environment and the flag `--dev`, the disk, the clock, the random bytes and
  -- the faults of the maintenance, and the files of the assets and the templates, in development or not.
  pub record Start : Type 0 where
    pub getenv : Option (Bytes → Bytes)
    pub options : StartupOptions
    pub fresh : P.Bucket
    pub disk : Disk P.Bucket
    pub key_faults : Faults
    pub cleanup_faults : Faults
    pub key_at : Time
    pub cleanup_at : Time
    pub secret : Bytes
    pub sum256 : Bytes → Bytes
    pub static_files : (is_development : Bool) → List (Bytes × Found)
    pub template_files : (is_development : Bool) → E.FileSystem

  pub data Outcome : Type 0 where
    no_config no_asset_version no_views : Outcome
    no_db : OpenError → Outcome
    not_maintained : Error → Outcome
    ready : App N E R P H S → Shared N E R P H S → Outcome

  -- `applicationFileSystems`
  unfoldable pub application_file_systems : Start → Config N → List (Bytes × Found) × E.FileSystem
  application_file_systems x cfg =
      (x.static_files cfg.is_development, x.template_files cfg.is_development)

  unfoldable pub assemble : Start → Config N → Db P.Bucket → Outcome
  assemble x cfg db =
      let (static_fs, template_fs) = application_file_systems x cfg in
      elim (new_asset_version x.sum256 static_fs) [
        | none ↦ no_asset_version
        | some version ↦ elim (new_views N E template_fs version cfg.is_development cfg.brand) [
          | none ↦ no_views
          | some views ↦
              ready
                (record {
                  asset_version = version;
                  cfg = cfg;
                  limits = new_limits (size_of cfg.max_note_size);
                  views = views;
                })
                (record { db = db; rate_limiter = new_rate_limiter R cfg.rate_limit })
        ]
      ]

  unfoldable pub maintain : Start → Config N → Db P.Bucket → Outcome
  maintain x cfg db =
      let (result, db') =
        startup_maintenance P (new_limits (size_of cfg.max_note_size))
          (x.key_faults, x.cleanup_faults) (x.key_at, x.cleanup_at) x.secret db in
      elim result [ err e ↦ not_maintained e | ok _ ↦ assemble x cfg db' ]

  unfoldable pub run : Start → Outcome
  run x = elim (new_config_with_options N L x.getenv x.options) [
    | none ↦ no_config
    | some cfg ↦ elim (open_db P x.fresh cfg.max_db_size x.disk).0 [
      | not_opened e ↦ no_db e
      | opened db ↦ maintain x cfg db
    ]
  ]
