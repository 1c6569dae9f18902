-- ===== src/Settings/Load/Precedence.antt =====
-- config.go: what decides a setting.
-- A variable that is set decides, and otherwise what the file says over the defaults.
use clip_sync_server.Settings.Load.{
  FileRead, from_file, load_config, missing, resolve_config_path, LoadError, overridden,
}
use clip_sync_server.Base.{
  Option, Text, codes, if◌then◌else◌, is_empty, ok, ◌≡◌, Result, err, none, refl, Bool-cases, ap,
  inl, inr,
}
use clip_sync_server.Settings.{Settings, apply_env_overrides, override_with, parse_bool}
use clip_sync_server.Settings.Overrides.{apply_env_overrides_twice}

abbrev pub decided : Text → Text → Text
decided variable below = if is_empty variable then below else variable

decide :
    (env : Text → Text) (defaults s : Settings) (read : Text → FileRead) (file : Text)
    (r : Result LoadError Settings)
    → (read file ≡ missing → (b : Settings) → r ≡ ok b → b ≡ defaults)
    → overridden (λ t o. none) defaults env r ≡ ok s
    → (base : Settings) × (r ≡ ok base)
      × (s ≡ apply_env_overrides env base)
      × (read file ≡ missing → base ≡ defaults)
decide env defaults s read file (err e) m h = cc
decide env defaults s read file (ok base) m h = (base, refl, cc, λ gone. m gone base refl)

missing_file :
    (unmarshal : Text → Settings → Option Settings) (defaults : Settings) (read : Text → FileRead)
    (file : Text)
    → read file ≡ missing
    → (b : Settings) → from_file unmarshal defaults read file ≡ ok b
    → b ≡ defaults
unfolding from_file
missing_file unmarshal defaults read file gone b h = elim (Bool-cases (is_empty file)) [
  | inl blank ↦ let same_result = rw blank at h in cc
  | inr given ↦ let same_result = rw (given, gone) at h in cc
]

-- Whatever is loaded, with and without a file: if loading succeeds, each setting comes from the
-- environment where its variable is set and can be read, and otherwise from the file over the
-- defaults; a file that is missing leaves the defaults, and what is loaded does not change when the
-- same environment is applied again.
pub load_config_decides :
    (unmarshal : Text → Settings → Option Settings) (defaults : Settings) (env : Text → Text)
    (read : Text → FileRead) (path : Text) (s : Settings)
    → load_config unmarshal defaults env read path ≡ ok s
    → let file = if is_empty path then resolve_config_path env read else path in
      (base : Settings) × (from_file unmarshal defaults read file ≡ ok base)
      × (s.addr ≡ decided (env (codes "CLIPSYNC_ADDR")) base.addr)
      × (s.bootstrap_user ≡ decided (env (codes "CLIPSYNC_BOOTSTRAP_USER")) base.bootstrap_user)
      × (s.e2ee_require
          ≡ override_with parse_bool (env (codes "CLIPSYNC_E2EE_REQUIRE")) base.e2ee_require)
      × (read file ≡ missing → base ≡ defaults)
      × (apply_env_overrides env s ≡ s)
unfolding load_config
load_config_decides unmarshal defaults env read path s h =
    let file = if is_empty path then resolve_config_path env read else path in
    let (base, loaded, is_result, gone) =
      decide env defaults s read file (from_file unmarshal defaults read file)
        (missing_file unmarshal defaults read file) h in
    (
      base,
      loaded,
      unfold apply_env_overrides in ap (λ t. t.addr) is_result,
      unfold apply_env_overrides in ap (λ t. t.bootstrap_user) is_result,
      unfold apply_env_overrides in ap (λ t. t.e2ee_require) is_result,
      gone,
      rw is_result (apply_env_overrides_twice env base),
    )
