-- ===== src/Handshake/Origin.antt =====
-- main.go: the check of the header `Origin` that `main` installs for the upgrade.
use clip_sync_server.Base.{
  Text, ◌++◌, Bool, arith, codes, if◌then◌else◌, false, is_empty, refl, true, ◌||◌, ◌≡◌, ◌⊎◌,
  Bool-cases, inl, inr,
}
use clip_sync_server.Text.{has_prefix}
use clip_sync_server.Text.Split.{has_prefix-append}

-- `allow_all` is `message_protocol.check_origin`.
unfoldable pub check_origin : Bool → Text → Bool
check_origin allow_all origin =
    if allow_all
    then true
    else if is_empty origin
    then true
    else has_prefix (codes "http://localhost") origin
      || has_prefix (codes "https://localhost") origin
      || has_prefix (codes "app://") origin

passes :
    (origin : Text)
    → check_origin false origin ≡ true
    → (is_empty origin ≡ true)
      ⊎ (has_prefix (codes "http://localhost") origin ≡ true)
      ⊎ (has_prefix (codes "https://localhost") origin ≡ true)
      ⊎ (has_prefix (codes "app://") origin ≡ true)
unfolding check_origin
passes origin h = elim (Bool-cases (is_empty origin)) [
  | inl none_given ↦ inl none_given
  | inr given ↦ elim (Bool-cases (has_prefix (codes "http://localhost") origin)) [
    | inl http ↦ inr (inl http)
    | inr not_http ↦ elim (Bool-cases (has_prefix (codes "https://localhost") origin)) [
      | inl https ↦ inr (inr (inl https))
      | inr not_https ↦ inr (inr (inr (ground arith)))
    ]
  ]
]

-- An origin that begins with `http://localhost` or `https://localhost` passes whatever follows, so
-- a page of any host whose name merely begins so passes too; and where not every origin is allowed,
-- one that passes is empty or begins with one of these two texts or with `app://`.
pub check_origin_lax :
    (allow_all : Bool) (rest : Text)
    → (check_origin allow_all (codes "http://localhost" ++ rest) ≡ true)
      × (check_origin allow_all (codes "https://localhost" ++ rest) ≡ true)
      × ((origin : Text)
          → check_origin false origin ≡ true
          → (is_empty origin ≡ true)
            ⊎ (has_prefix (codes "http://localhost") origin ≡ true)
            ⊎ (has_prefix (codes "https://localhost") origin ≡ true)
            ⊎ (has_prefix (codes "app://") origin ≡ true))
unfolding check_origin
check_origin_lax true rest = (refl, refl, passes)
check_origin_lax false rest = (
  rw (has_prefix-append (codes "http://localhost") rest) refl,
  (let found = has_prefix-append (codes "https://localhost") rest in ground arith),
  passes,
)
