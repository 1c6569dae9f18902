-- ===== src/Settings/Load/Tests.antt =====
-- config.go: a file that changes the address, and an environment that changes it again.
use clip_sync_server.Settings.Load.{
  FileRead, bad_yaml, content, dsn, from_file, load_config, missing, resolve_config_path,
}
use clip_sync_server.Base.{
  Option, Text, [], codes, if◌then◌else◌, err, false, none, ok, refl, same, some, true, ◌≡◌,
}
use clip_sync_server.Settings.{Settings, apply_env_overrides, parse_bool}
use clip_sync_server.Text.Format.{format_digits, format_int}
use clip_sync_server.Text.{lower_rune, to_lower}
use clip_sync_server.Text.Decimal.{parse_digits, parse_int}

abbrev built_in : Settings
built_in = record {
  addr = codes ":28001";
  log_dir = codes "logs";
  log_level = codes "info";
  trust_proxy = false;
  read_limit = (false, 10485760);
  token_ttl_hours = (false, 720);
  allow_register = false;
  bootstrap_user = [];
  bootstrap_password = [];
  e2ee_require = false;
}

-- A file that is the address alone.
abbrev unmarshal : Text → Settings → Option Settings
unmarshal yaml s = some (record s { addr = yaml })

abbrev disk : Text → FileRead
disk path = if same path (codes "config.yaml") then content (codes ":9000") else missing

abbrev environment : Text → Text
environment name = if same name (codes "CLIPSYNC_E2EE_REQUIRE") then codes "true" else []

loading : Unit {0}
unfolding load_config from_file resolve_config_path apply_env_overrides parse_bool parse_int
    parse_digits to_lower lower_rune same
loading = tt

abbrev loaded : Settings
loaded = record built_in { addr = codes ":9000"; e2ee_require = true }

is_loaded : load_config unmarshal built_in environment disk [] ≡ ok loaded
unfolding loading
is_loaded = refl

bad_yaml_test : load_config (λ y s. none) built_in environment disk [] ≡ err bad_yaml
unfolding loading
bad_yaml_test = refl

dsn_test :
    dsn (record {
      user = codes "u";
      password = codes "p";
      host = codes "db";
      port = 3306;
      database = codes "c";
      params = codes "x=1";
    })
    ≡ codes "u:p@tcp(db:3306)/c?x=1"
unfolding dsn format_int format_digits
dsn_test = refl
