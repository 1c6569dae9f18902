-- ===== src/Scrypt.antt =====
-- auth_crypto.go: the format in which the hash of a password is stored, `HashPassword` and
-- `VerifyPassword`. scrypt, SHA-256 in hex and base64 are parameters; the salt that was drawn is an
-- argument.
pub mod RoundTrip
pub mod Account
mod Tests
use clip_sync_server.Base.{
  ◌++◌, Bool, List, Option, Text, [], codes, if◌then◌else◌, false, length, none, not, same, some,
  true, ℕ, ◌∷◌, ◌≡◌,
}
use clip_sync_server.Text.{after, split_on}
use clip_sync_server.Text.Split.{is_free}
use clip_sync_server.Text.Decimal.{parse_int}

-- golang.org/x/crypto/scrypt and base64.RawStdEncoding. `derive` takes the password, the salt, N, r
-- and p (`true` for a minus sign), and the length of the key; `none` is an error.
pub record Primitives : Type 0 where
  pub derive : Text → Text → Bool × ℕ → Bool × ℕ → Bool × ℕ → ℕ → Option Text
  pub encode : Text → Text
  pub decode : Text → Option Text
  pub derive-length :
      (password salt : Text) (n r p : Bool × ℕ) (len : ℕ) (dk : Text)
      → derive password salt n r p len ≡ some dk
      → length dk ≡ len
  pub decode-encode : (bytes : Text) → decode (encode bytes) ≡ some bytes
  pub encode_free : (bytes : Text) → is_free b'$' (encode bytes) ≡ true

abbrev pub scrypt_n : Bool × ℕ
scrypt_n = (false, 32768)

abbrev pub scrypt_r : Bool × ℕ
scrypt_r = (false, 8)

abbrev pub scrypt_p : Bool × ℕ
scrypt_p = (false, 1)

abbrev pub scrypt_key_len : ℕ
scrypt_key_len = 32

module _ (P : Primitives) where
  open P use {derive, encode, decode}

  -- What Sprintf prints: the three numbers, the salt and the key, after the name.
  unfoldable pub format_hash : Text → Text → Text
  format_hash salt dk =
      codes "scrypt"
      ++ b'$' ∷ codes "32768"
      ++ b'$' ∷ codes "8"
      ++ b'$' ∷ codes "1"
      ++ b'$' ∷ encode salt
      ++ b'$' ∷ encode dk

  abbrev pub formatted : Text → Option Text → Option Text
  formatted salt none = none
  formatted salt (some dk) = some (format_hash salt dk)

  unfoldable pub hash_password : Text → Text → Option Text
  hash_password salt password =
      formatted salt (derive password salt scrypt_n scrypt_r scrypt_p scrypt_key_len)

  -- ConstantTimeCompare.
  abbrev pub compared : Text → Option Text → Bool
  compared want none = false
  compared want (some got) = same got want

  abbrev pub recomputed :
      Text
      → Option (Bool × ℕ)
      → Option (Bool × ℕ)
      → Option (Bool × ℕ)
      → Option Text
      → Option Text
      → Bool
  recomputed password (some n) (some r) (some p) (some salt) (some want) =
      compared want (derive password salt n r p (length want))
  recomputed password _ _ _ _ _ = false

  abbrev pub verify_parts : Text → List Text → Bool
  verify_parts password (name ∷ n ∷ r ∷ p ∷ salt ∷ want ∷ []) =
      if not (same name (codes "scrypt"))
      then false
      else recomputed password (parse_int n) (parse_int r) (parse_int p) (decode salt) (decode want)
  verify_parts password _ = false

  unfoldable pub verify_password : Text → Text → Bool
  verify_password hash password = verify_parts password (split_on b'$' hash)
