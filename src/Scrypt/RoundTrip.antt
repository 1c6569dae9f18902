-- ===== src/Scrypt/RoundTrip.antt =====
-- auth_crypto.go: a stored hash is read back with the numbers it was written with.
use clip_sync_server.Base.{
  ◌++◌, Text, [], ap, codes, length, refl, same_refl, some, take, true, ◌↔◌, ◌∙◌, ◌∷◌, ◌≡◌, List,
  Option, Option-cases, arith, inl, inr, none, same_iff,
}
use clip_sync_server.Scrypt.{
  Primitives, compared, format_hash, hash_password, scrypt_key_len, scrypt_n, scrypt_p, scrypt_r,
  verify_password, verify_parts,
}
use clip_sync_server.Text.{is_digit, split_on}
use clip_sync_server.Text.Decimal.{parse_digits, parse_int}
use clip_sync_server.Text.Split.{split_on_first, split_on_free}

n_read : parse_int (codes "32768") ≡ some scrypt_n
unfolding parse_int parse_digits is_digit
n_read = refl

r_read : parse_int (codes "8") ≡ some scrypt_r
unfolding parse_int parse_digits is_digit
r_read = refl

p_read : parse_int (codes "1") ≡ some scrypt_p
unfolding parse_int parse_digits is_digit
p_read = refl

module _ (P : Primitives) where
  open P use {derive, encode, decode, derive-length, decode-encode, encode_free}

  split_hash :
      (salt dk : Text)
      → split_on b'$' (format_hash P salt dk)
        ≡ codes "scrypt" ∷ codes "32768" ∷ codes "8" ∷ codes "1" ∷ encode salt ∷ encode dk ∷ []
  unfolding format_hash
  split_hash salt dk =
      let keys = encode salt ++ b'$' ∷ encode dk in
      split_on_first b'$' (codes "scrypt")
        (codes "32768" ++ b'$' ∷ codes "8" ++ b'$' ∷ codes "1" ++ b'$' ∷ keys) refl
      ∙ ap (λ ps. codes "scrypt" ∷ ps)
          (split_on_first b'$' (codes "32768") (codes "8" ++ b'$' ∷ codes "1" ++ b'$' ∷ keys) refl
            ∙ ap (λ ps. codes "32768" ∷ ps)
                (split_on_first b'$' (codes "8") (codes "1" ++ b'$' ∷ keys) refl
                  ∙ ap (λ ps. codes "8" ∷ ps)
                      (split_on_first b'$' (codes "1") keys refl
                        ∙ ap (λ ps. codes "1" ∷ ps)
                            (split_on_first b'$' (encode salt) (encode dk) (encode_free salt)
                              ∙ ap (λ ps. encode salt ∷ ps)
                                  (split_on_free b'$' (encode dk) (encode_free dk))))))

  verified :
      (salt dk password : Text)
      → verify_password P (format_hash P salt dk) password
        ≡ compared P dk (derive password salt scrypt_n scrypt_r scrypt_p (length dk))
  unfolding verify_password
  verified salt dk password =
      rw
        (
          split_hash salt dk,
          same_refl (codes "scrypt"),
          n_read,
          r_read,
          p_read,
          decode-encode salt,
          decode-encode dk,
        )
        refl

  compared_iff :
      (want : Text) (got : Option Text) → (compared P want got ≡ true) ↔ (got ≡ some want)
  compared_iff want none = ground arith
  compared_iff want (some got) = ground (arith, same_iff got want)

  -- A stored hash accepts exactly the passwords of which scrypt makes the same key with the same
  -- salt; so it accepts the password that it was made of.
  pub verify_password-hash_password :
      (salt password other hash : Text)
      → hash_password P salt password ≡ some hash
      → (verify_password P hash other ≡ true) ↔ (
          derive other salt scrypt_n scrypt_r scrypt_p scrypt_key_len
          ≡ derive password salt scrypt_n scrypt_r scrypt_p scrypt_key_len)
  unfolding hash_password
  verify_password-hash_password salt password other hash h =
      elim (Option-cases (derive password salt scrypt_n scrypt_r scrypt_p scrypt_key_len)) [
        | inl failed ↦ ground arith
        | inr (dk, made) ↦
            let len =
              derive-length password salt scrypt_n scrypt_r scrypt_p scrypt_key_len dk made in
            let stored : hash ≡ format_hash P salt dk = ground arith in
            let recomputed_key : verify_password P hash other
                ≡ compared P dk (derive other salt scrypt_n scrypt_r scrypt_p scrypt_key_len) =
              ap (λ x. verify_password P x other) stored
              ∙ verified salt dk other
              ∙ ap (λ l. compared P dk (derive other salt scrypt_n scrypt_r scrypt_p l)) len in
            rw (recomputed_key, made)
              (compared_iff dk (derive other salt scrypt_n scrypt_r scrypt_p scrypt_key_len))
      ]

  form_of :
      (password : Text) (parts : List Text)
      → verify_parts P password parts ≡ true
      → (length parts ≡ 6) × (take 1 parts ≡ codes "scrypt" ∷ [])
  form_of password [] h = ground arith
  form_of password (a ∷ []) h = ground arith
  form_of password (a ∷ b ∷ []) h = ground arith
  form_of password (a ∷ b ∷ c ∷ []) h = ground arith
  form_of password (a ∷ b ∷ c ∷ d ∷ []) h = ground arith
  form_of password (a ∷ b ∷ c ∷ d ∷ e ∷ []) h = ground arith
  form_of password (a ∷ b ∷ c ∷ d ∷ e ∷ f ∷ []) h =
      let named : a ≡ codes "scrypt" = ground (arith, same_iff a (codes "scrypt")) in
      (refl, ap (λ x. x ∷ []) named)
  form_of password (a ∷ b ∷ c ∷ d ∷ e ∷ f ∷ g ∷ parts) h = ground arith

  -- A stored text that accepts any password has six parts between dollar signs, the first of which
  -- is
  -- the name of the algorithm: no other text is a hash that anybody can log in with.
  pub verify_password_form :
      (hash password : Text)
      → verify_password P hash password ≡ true
      → (length (split_on b'$' hash) ≡ 6) × (take 1 (split_on b'$' hash) ≡ codes "scrypt" ∷ [])
  unfolding verify_password
  verify_password_form hash password h = form_of password (split_on b'$' hash) h
