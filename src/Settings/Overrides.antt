-- ===== src/Settings/Overrides.antt =====
-- config.go, main.go: what the environment and a client can change.
use clip_sync_server.Base.{Option, Option-cases, Text, arith, codes, inl, inr, ◌≡◌}
use clip_sync_server.Settings.{Settings, apply_env_overrides, override, override_with, parse_bool}
use clip_sync_server.Text.Decimal.{parse_int}
use clip_sync_server.Text.{to_lower}

override_twice : (value old : Text) → override value (override value old) ≡ override value old
override_twice value old = ground arith

override_with_twice {ℓ} :
    {A : Type ℓ} (parse : Text → Option A) (value : Text) (old : A)
    → override_with parse value (override_with parse value old) ≡ override_with parse value old
override_with_twice parse value old = elim (Option-cases (parse value)) [
  | inl bad ↦ rw bad (ground arith)
  | inr (new, good) ↦ rw good (ground arith)
]

-- The overrides decide each setting for good: applied again they change nothing.
pub apply_env_overrides_twice :
    (env : Text → Text) (s : Settings)
    → apply_env_overrides env (apply_env_overrides env s) ≡ apply_env_overrides env s
unfolding apply_env_overrides
apply_env_overrides_twice env s = ground (
  arith,
  override_twice (env (codes "CLIPSYNC_ADDR")) s.addr,
  override_twice (env (codes "CLIPSYNC_LOG_DIR")) s.log_dir,
  override_twice (to_lower (env (codes "CLIPSYNC_LOG_LEVEL"))) s.log_level,
  override_with_twice parse_bool (env (codes "CLIPSYNC_TRUST_PROXY")) s.trust_proxy,
  override_with_twice parse_int (env (codes "CLIPSYNC_WS_READ_LIMIT")) s.read_limit,
)
