-- ===== src/Settings.antt =====
-- config.go: what the environment changes in the configuration (`applyEnvOverrides`); logger.go:
-- the
-- level of the log; main.go: the address of a client (`extractIP`). `env` is os.Getenv, empty for a
-- variable that is not set; YAML is read by a library.
pub mod Overrides
pub mod Load
mod Tests
use clip_sync_server.Base.{
  ◌&&◌, ◌==◌, Bool, Option, Text, [], any, codes, if◌then◌else◌, false, is_empty, none, not, same,
  some, true, ◌||◌, ℕ, ◌∷◌,
}
use clip_sync_server.Text.{cut, to_lower, trim_space}
use clip_sync_server.Text.Decimal.{parse_int}

-- The settings that the environment can change. A number has a flag for its minus sign.
pub record Settings : Type 0 where
  pub addr : Text
  pub log_dir : Text
  pub log_level : Text
  pub trust_proxy : Bool
  pub read_limit : Bool × ℕ
  pub token_ttl_hours : Bool × ℕ
  pub allow_register : Bool
  pub bootstrap_user : Text
  pub bootstrap_password : Text
  pub e2ee_require : Bool

-- strconv.ParseBool.
unfoldable pub parse_bool : Text → Option Bool
parse_bool s =
    if any (same s)
      (codes "1" ∷ codes "t" ∷ codes "T" ∷ codes "TRUE" ∷ codes "true" ∷ codes "True" ∷ [])
    then some true
    else if any (same s)
        (codes "0" ∷ codes "f" ∷ codes "F" ∷ codes "FALSE" ∷ codes "false" ∷ codes "False" ∷ [])
    then some false
    else none

abbrev pub given_or {ℓ} : {A : Type ℓ} → A → Option A → A
given_or old none = old
given_or old (some new) = new

abbrev pub override : Text → Text → Text
override value old = if is_empty value then old else value

-- A value that cannot be read changes nothing.
abbrev pub override_with {ℓ} : {A : Type ℓ} → (Text → Option A) → Text → A → A
override_with parse value old = if is_empty value then old else given_or old (parse value)

unfoldable pub apply_env_overrides : (Text → Text) → Settings → Settings
apply_env_overrides env s = record {
  addr = override (env (codes "CLIPSYNC_ADDR")) s.addr;
  log_dir = override (env (codes "CLIPSYNC_LOG_DIR")) s.log_dir;
  log_level = override (to_lower (env (codes "CLIPSYNC_LOG_LEVEL"))) s.log_level;
  trust_proxy = override_with parse_bool (env (codes "CLIPSYNC_TRUST_PROXY")) s.trust_proxy;
  read_limit = override_with parse_int (env (codes "CLIPSYNC_WS_READ_LIMIT")) s.read_limit;
  token_ttl_hours =
      override_with parse_int (env (codes "CLIPSYNC_TOKEN_TTL_HOURS")) s.token_ttl_hours;
  allow_register =
      override_with parse_bool (env (codes "CLIPSYNC_ALLOW_REGISTER")) s.allow_register;
  bootstrap_user = override (env (codes "CLIPSYNC_BOOTSTRAP_USER")) s.bootstrap_user;
  bootstrap_password = override (env (codes "CLIPSYNC_BOOTSTRAP_PASSWORD")) s.bootstrap_password;
  e2ee_require = override_with parse_bool (env (codes "CLIPSYNC_E2EE_REQUIRE")) s.e2ee_require;
}

pub data LogLevel : Type 0 where
  level_debug level_info level_warn level_error : LogLevel

unfoldable pub parse_level : Text → LogLevel
parse_level s =
    let level = to_lower (trim_space s) in
    if same level (codes "debug")
    then level_debug
    else if same level (codes "warn") || same level (codes "warning")
    then level_warn
    else if same level (codes "error")
    then level_error
    else level_info

-- What a request says of its client: the two headers, empty if they are not there, and the address
-- of the peer.
pub record ClientAddress : Type 0 where
  pub forwarded_for : Text
  pub real_ip : Text
  pub remote_addr : Text

abbrev pub first_hop : Text → Option (Text × Text) → Text
first_hop whole none = trim_space whole
first_hop whole (some (hop, rest)) = trim_space hop

-- The text before the last colon, `none` if there is no colon.
unfoldable pub before_last_colon : Text → Option Text
before_last_colon [] = none
before_last_colon (c ∷ s) = elim (before_last_colon s) [
  | some before ↦ some (c ∷ before)
  | none ↦ if c == b':' then some [] else none
]

-- A colon at the start does not count.
abbrev pub without_port : Text → Option Text → Text
without_port whole none = whole
without_port whole (some before) = if is_empty before then whole else before

unfoldable pub extract_ip : Bool → ClientAddress → Text
extract_ip trust_proxy a =
    if trust_proxy && not (is_empty a.forwarded_for)
    then first_hop a.forwarded_for (cut b',' a.forwarded_for)
    else if trust_proxy && not (is_empty a.real_ip)
    then trim_space a.real_ip
    else without_port a.remote_addr (before_last_colon a.remote_addr)
