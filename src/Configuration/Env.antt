-- ===== src/Configuration/Env.antt =====
-- config.go: the names of the variables of the environment, the defaults and the limits.
use one_time_note.Base.{ℕ, ◌*◌}
use one_time_note.Base.Text.{Bytes, codes}

abbrev pub cleanup_interval : Bytes
cleanup_interval = codes "NOTE_CLEANUP_INTERVAL"

abbrev pub db_path : Bytes
db_path = codes "NOTE_DB_PATH"

abbrev pub display_name : Bytes
display_name = codes "NOTE_DISPLAY_NAME"

abbrev pub environment : Bytes
environment = codes "NOTE_ENVIRONMENT"

abbrev pub footer_text : Bytes
footer_text = codes "NOTE_FOOTER_TEXT"

abbrev pub grace_period : Bytes
grace_period = codes "NOTE_GRACE_PERIOD"

abbrev pub health_check_sources : Bytes
health_check_sources = codes "NOTE_HEALTH_CHECK_SOURCES"

abbrev pub hide_git_hub_link : Bytes
hide_git_hub_link = codes "NOTE_HIDE_GITHUB_LINK"

abbrev pub host : Bytes
host = codes "NOTE_HOST"

abbrev pub max_db_size : Bytes
max_db_size = codes "NOTE_MAX_DB_SIZE"

abbrev pub max_note_size : Bytes
max_note_size = codes "NOTE_MAX_NOTE_SIZE"

abbrev pub port : Bytes
port = codes "NOTE_PORT"

abbrev pub public_origin : Bytes
public_origin = codes "NOTE_PUBLIC_ORIGIN"

abbrev pub rate_limit : Bytes
rate_limit = codes "NOTE_RATE_LIMIT"

abbrev pub trusted_proxies : Bytes
trusted_proxies = codes "NOTE_TRUSTED_PROXIES"

abbrev pub environment_development : Bytes
environment_development = codes "development"

abbrev pub environment_production : Bytes
environment_production = codes "production"

abbrev pub default_max_db_size : ℕ
default_max_db_size = 1 * 1024 * 1024 * 1024

abbrev pub default_max_note_size : ℕ
default_max_note_size = 1 * 1024

abbrev pub hard_max_db_size : ℕ
hard_max_db_size = 10 * 1024 * 1024 * 1024

abbrev pub hard_max_note_size : ℕ
hard_max_note_size = 10 * 1024 * 1024

abbrev pub default_git_hub_url : Bytes
default_git_hub_url = codes "https://github.com/stkom/one-time-note"
