-- ===== src/Password/Verify.antt =====
-- auth/password.cpp: what a stored password accepts.
use simple_ldapd.Prelude.{
  ℕ, ◌<◌, ◌≡◌, refl, ap, ◌∙◌, sym, ◌↔◌, ◌⊎◌, true, false, Option, none, some, [], ◌∷◌, ◌++◌, arith,
  leb, length, drop, length-append, drop-append_of_eq, Bool-cases, Option-cases, inl, inr,
}
use simple_ldapd.Prelude.Bytes.{Bytes, codes, is_empty}
use simple_ldapd.Dn.{find_char, iequals}
use simple_ldapd.Text.Scan.{every-append}
use simple_ldapd.Password.{
  Crypto, scheme_prefix, hash_ssha, verify_ssha, verify_scheme, verify_user_password,
  encode_user_password, same_digest, verify_stored, encode_stored,
}
use simple_ldapd.Password.Base64.{
  AreBytes, base64_encode, base64_decode, base64_decode-base64_encode,
}
use simple_ldapd.Password.Compare.{
  constant_time_equal_iff, padded, padded-length, passwords_equal_refl,
}

-- what OpenSSL documents of its two functions, as the code calls them
pub record IsCrypto (crypto : Crypto) : Type 0 where
  pub digest_length : (m d : Bytes) → crypto.sha1 m ≡ some d → length d ≡ 20
  pub digest_bytes : (m d : Bytes) → crypto.sha1 m ≡ some d → AreBytes d
  pub salt_length : (n : ℕ) (s : Bytes) → crypto.rand_bytes n ≡ some s → length s ≡ 8
  pub salt_bytes : (n : ℕ) (s : Bytes) → crypto.rand_bytes n ≡ some s → AreBytes s

-- a stored value of the SSHA scheme
abbrev pub ssha : Bytes → Bytes → Bytes
ssha digest salt = codes "{SSHA}" ++ base64_encode (digest ++ salt)

scheme_prefix-ssha :
    (payload : Bytes) → scheme_prefix (codes "{SSHA}" ++ payload) ≡ some (codes "SSHA", payload)
unfolding scheme_prefix find_char
scheme_prefix-ssha payload = ground arith

verify_scheme-ssha :
    (crypto : Crypto) (payload provided : Bytes)
    → verify_scheme crypto (codes "SSHA") payload provided ≡ verify_ssha crypto payload provided
unfolding verify_scheme iequals
verify_scheme-ssha crypto payload provided = refl

verify_user_password-ssha :
    (crypto : Crypto) (payload provided : Bytes)
    → verify_user_password crypto (codes "{SSHA}" ++ payload) provided
      ≡ verify_ssha crypto payload provided
unfolding verify_user_password
verify_user_password-ssha crypto payload provided =
    ap (verify_stored crypto (codes "{SSHA}" ++ payload) provided) (scheme_prefix-ssha payload)
    ∙ verify_scheme-ssha crypto payload provided

decoded-ssha :
    (digest salt : Bytes)
    → AreBytes digest
    → AreBytes salt
    → base64_decode (base64_encode (digest ++ salt)) ≡ digest ++ salt
decoded-ssha digest salt p q =
    base64_decode-base64_encode (digest ++ salt) (every-append _ digest salt p q)

verify_ssha-decoded :
    (crypto : Crypto) (digest salt provided : Bytes)
    → AreBytes digest
    → AreBytes salt
    → length digest ≡ 20
    → 0 < length salt
    → verify_ssha crypto (base64_encode (digest ++ salt)) provided
      ≡ same_digest (digest ++ salt) (crypto.sha1 (provided ++ salt))
unfolding verify_ssha
verify_ssha-decoded crypto digest salt provided p q e l =
    let size = length-append digest salt in
    let long : leb (length (digest ++ salt)) 20 ≡ false = ground (arith, size) in
    let cut : drop 20 (digest ++ salt) ≡ salt = drop-append_of_eq 20 digest salt (sym e) in
    rw (decoded-ssha digest salt p q, long, cut) refl

padded-append : (s t : Bytes) → padded (length s) (s ++ t) ≡ s
padded-append [] t = refl
padded-append (c ∷ s) t = ap (λ r. c ∷ r) (padded-append s t)

-- the test on the digest that was computed
same_digest_iff :
    (crypto : Crypto) (digest salt m : Bytes) (computed : Option Bytes)
    → IsCrypto crypto
    → crypto.sha1 m ≡ computed
    → AreBytes digest
    → AreBytes salt
    → length digest ≡ 20
    → (same_digest (digest ++ salt) computed ≡ true) ↔ (computed ≡ some digest)
same_digest_iff crypto digest salt m none law h p q e = (λ x. cc, λ x. cc)
same_digest_iff crypto digest salt m (some d) law h p q e =
    let bytes = law.digest_bytes m d h in
    let size = law.digest_length m d h in
    let same =
      constant_time_equal_iff (digest ++ salt) d 20 (every-append _ digest salt p q) bytes in
    let front : padded 20 (digest ++ salt) ≡ digest =
      ap (λ n. padded n (digest ++ salt)) (sym e) ∙ padded-append digest salt in
    let all : padded 20 d ≡ d = ap (λ n. padded n d) (sym size) ∙ padded-length d in
    (
      λ x. ap some (sym all ∙ sym (same.0 x) ∙ front),
      λ x. let y : d ≡ digest = cc in same.1 (front ∙ sym y ∙ sym all),
    )

-- A stored value of the SSHA scheme, made of a digest and a salt that is not empty, accepts exactly
-- the passwords whose hash with the salt is the digest.
pub verify_user_password-ssha_iff :
    (crypto : Crypto) (digest salt provided : Bytes)
    → IsCrypto crypto
    → AreBytes digest
    → AreBytes salt
    → length digest ≡ 20
    → 0 < length salt
    → (verify_user_password crypto (ssha digest salt) provided ≡ true)
      ↔ (crypto.sha1 (provided ++ salt) ≡ some digest)
verify_user_password-ssha_iff crypto digest salt provided law p q e l =
    let meaning =
      verify_user_password-ssha crypto (base64_encode (digest ++ salt)) provided
      ∙ verify_ssha-decoded crypto digest salt provided p q e l in
    let accepted =
      same_digest_iff crypto digest salt (provided ++ salt) (crypto.sha1 (provided ++ salt)) law
        refl p q e in
    (λ h. accepted.0 (sym meaning ∙ h), λ h. meaning ∙ accepted.1 h)

-- the outcomes of hashing: no hash, or one that was made of a salt drawn and a digest computed
hash_ssha_cases :
    (crypto : Crypto) (p : Bytes) (draws : ℕ)
    → ((hash_ssha crypto p draws).0 ≡ [])
      ⊎ ((salt : Bytes) × (digest : Bytes) × (crypto.rand_bytes draws ≡ some salt)
          × (crypto.sha1 (p ++ salt) ≡ some digest)
          × ((hash_ssha crypto p draws).0 ≡ ssha digest salt))
unfolding hash_ssha
hash_ssha_cases crypto p draws = elim (Option-cases (crypto.rand_bytes draws)) [
  | inl e ↦ inl (ground (arith, e))
  | inr (salt, e) ↦ elim (Option-cases (crypto.sha1 (p ++ salt))) [
    | inl f ↦ inl (ground (arith, e, f))
    | inr (digest, f) ↦ inr (salt, digest, e, f, ground (arith, e, f))
  ]
]

plain_accepted :
    (crypto : Crypto) (value : Bytes)
    → AreBytes value
    → scheme_prefix value ≡ none
    → verify_user_password crypto value value ≡ true
unfolding verify_user_password
plain_accepted crypto value p e =
    ap (verify_stored crypto value value) e ∙ passwords_equal_refl value p

encode_user_password-none :
    (crypto : Crypto) (value : Bytes) (draws : ℕ)
    → scheme_prefix value ≡ none
    → encode_user_password crypto value draws ≡ encode_stored crypto value draws none
unfolding encode_user_password
encode_user_password-none crypto value draws e = ap (encode_stored crypto value draws) e

encoded_cases :
    (crypto : Crypto) (value : Bytes) (draws : ℕ)
    → ((encode_stored crypto value draws none).0 ≡ value)
      ⊎ ((salt : Bytes) × (digest : Bytes) × (crypto.rand_bytes draws ≡ some salt)
          × (crypto.sha1 (value ++ salt) ≡ some digest)
          × ((encode_stored crypto value draws none).0 ≡ ssha digest salt))
encoded_cases crypto value draws = elim (Bool-cases (is_empty value)) [
  | inl f ↦ inl (ground (arith, f))
  | inr f ↦ elim (hash_ssha_cases crypto value draws) [
    | inl g ↦ inl (ground (arith, f, g))
    | inr (salt, digest, drawn, computed, g) ↦
        inr (salt, digest, drawn, computed, ground (arith, f, g))
  ]
]

-- A password that names no scheme is accepted by what is stored for it, hashed or, where no hash can
-- be had, as it is.
pub verify_user_password-encode_user_password :
    (crypto : Crypto) (value : Bytes) (draws : ℕ)
    → IsCrypto crypto
    → AreBytes value
    → scheme_prefix value ≡ none
    → verify_user_password crypto (encode_user_password crypto value draws).0 value ≡ true
verify_user_password-encode_user_password crypto value draws law p e =
    ap (λ r. verify_user_password crypto r.0 value) (encode_user_password-none crypto value draws e)
    ∙ elim (encoded_cases crypto value draws) [
      | inl f ↦ ap (λ s. verify_user_password crypto s value) f ∙ plain_accepted crypto value p e
      | inr (salt, digest, drawn, computed, f) ↦
          ap (λ s. verify_user_password crypto s value) f
          ∙ (verify_user_password-ssha_iff crypto digest salt value law
                (law.digest_bytes (value ++ salt) digest computed) (law.salt_bytes draws salt drawn)
                (law.digest_length (value ++ salt) digest computed)
                (let size = law.salt_length draws salt drawn in omega arith)).1
              computed
    ]
