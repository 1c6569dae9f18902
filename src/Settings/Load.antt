-- ===== src/Settings/Load.antt =====
-- config.go: `LoadConfig`, with the search for the file. yaml.Unmarshal over a configuration is a
-- parameter, and so is the built-in file; `read` is os.ReadFile, and a path with no text is none.
mod Precedence
mod Tests
use clip_sync_server.Base.{
  ◌++◌, Bool, Option, Result, Text, [], codes, if◌then◌else◌, err, false, is_empty, none, not, ok,
  some, true, ℕ,
}
use clip_sync_server.Settings.{Settings, apply_env_overrides}
use clip_sync_server.Text.Format.{format_int}

pub data FileRead : Type 0 where
  content : Text → FileRead
  missing unreadable : FileRead

-- os.Stat succeeds.
abbrev pub is_there : FileRead → Bool
is_there missing = false
is_there _ = true

pub data LoadError : Type 0 where
  bad_yaml read_failed : LoadError

unfoldable pub resolve_config_path : (Text → Text) → (Text → FileRead) → Text
resolve_config_path env read =
    let given = env (codes "CLIPSYNC_CONFIG") in
    if not (is_empty given)
    then given
    else if is_there (read (codes "config.yaml"))
    then codes "config.yaml"
    else if is_there (read (codes "/etc/clipsync/config.yaml"))
    then codes "/etc/clipsync/config.yaml"
    else []

module _ (unmarshal : Text → Settings → Option Settings) (defaults : Settings) where
  abbrev parsed : Option Settings → Result LoadError Settings
  parsed none = err bad_yaml
  parsed (some s) = ok s

  abbrev file_settings : FileRead → Result LoadError Settings
  file_settings (content yaml) = parsed (unmarshal yaml defaults)
  file_settings missing = ok defaults
  file_settings unreadable = err read_failed

  -- The settings before the environment is looked at.
  unfoldable pub from_file : (Text → FileRead) → Text → Result LoadError Settings
  from_file read path = if is_empty path then ok defaults else file_settings (read path)

  abbrev pub overridden : (Text → Text) → Result LoadError Settings → Result LoadError Settings
  overridden env (err e) = err e
  overridden env (ok s) = ok (apply_env_overrides env s)

  -- `path` is the argument `--config`, empty if it is not given.
  unfoldable pub load_config : (Text → Text) → (Text → FileRead) → Text → Result LoadError Settings
  load_config env read path =
      overridden env (from_file read (if is_empty path then resolve_config_path env read else path))

-- `DSN`: the connection string of the MySQL driver.
pub record MysqlConfig : Type 0 where
  pub user : Text
  pub password : Text
  pub host : Text
  pub port : ℕ
  pub database : Text
  pub params : Text

unfoldable pub dsn : MysqlConfig → Text
dsn c =
    c.user
    ++ (codes ":"
        ++ (c.password
            ++ (codes "@tcp("
                ++ (c.host
                    ++ (codes ":"
                        ++ (format_int c.port
                            ++ (codes ")/"
                                ++ (c.database
                                    ++ (codes "?"
                                        ++ (if is_empty c.params
                                            then codes "charset=utf8mb4&parseTime=true&loc=Local"
                                            else c.params))))))))))
