-- ===== src/Password.antt =====
-- auth/password.cpp: hashed passwords and the account control. The hash and the random bytes of
-- OpenSSL are parameters; a build without OpenSSL is the one where both give nothing.
pub mod Base64
pub mod Compare
pub mod Verify
use simple_ldapd.Prelude.{
  ℕ, zero, suc, ◌+◌, ◌-◌, ◌/◌, ◌%◌, Bool, true, false, not, ◌&&◌, ◌||◌, Option, none, some, List,
  [], ◌∷◌, ◌++◌, map, ltb, leb, ◌==◌, if◌then◌else◌, length, take, drop,
}
use simple_ldapd.Prelude.Bytes.{Bytes, codes, is_empty}
use simple_ldapd.OrderedMap.{OrderedMap}
use simple_ldapd.Dn.{iequals, find_char}
use simple_ldapd.Directory.{
  DirectoryEntry, find_attribute, ModifyOp, add, delete, replace, unnamed_op, AttributeModification,
}
use simple_ldapd.Text.Numbers.{whole_number}
use simple_ldapd.Password.Base64.{base64_encode, base64_decode}
use simple_ldapd.Password.Compare.{constant_time_equal, passwords_equal}

-- `EVP_Digest` with SHA-1, and the bytes that the calls of `RAND_bytes` give, one after the other;
-- `none` is a failure
pub record Crypto : Type 0 where
  pub sha1 : Bytes → Option Bytes
  pub rand_bytes : ℕ → Option Bytes

abbrev sha1_length : ℕ
sha1_length = 20

starts_brace : Bytes → Bool
starts_brace [] = false
starts_brace (c ∷ value) = c == b'{'

-- `schemePrefix`: the scheme and what is behind it
unfoldable pub scheme_prefix : Bytes → Option (Bytes × Bytes)
unfolding find_char starts_brace
scheme_prefix value =
    if ltb (length value) 3 || not (starts_brace value) then none else elim (find_char b'}' value) [
      | none ↦ none
      | some close ↦
          if ltb close 2
          then none
          else some (take (close - 1) (drop 1 value), drop (close + 1) value)
    ]

-- `hashSsha` with the number of random draws so far, which it counts on
unfoldable pub hash_ssha : Crypto → Bytes → ℕ → Bytes × ℕ
unfolding base64_encode
hash_ssha crypto password draws = elim (crypto.rand_bytes draws) [
  | none ↦ ([], suc draws)
  | some salt ↦ elim (crypto.sha1 (password ++ salt)) [
    | none ↦ ([], suc draws)
    | some digest ↦ (codes "{SSHA}" ++ base64_encode (digest ++ salt), suc draws)
  ]
]

abbrev same_digest : Bytes → Option Bytes → Bool
same_digest decoded none = false
same_digest decoded (some digest) = constant_time_equal decoded digest sha1_length

unfoldable pub verify_sha : Crypto → Bytes → Bytes → Bool
unfolding base64_decode constant_time_equal
verify_sha crypto payload password =
    let decoded = base64_decode payload in
    if not (length decoded == sha1_length)
    then false
    else same_digest decoded (crypto.sha1 password)

unfoldable pub verify_ssha : Crypto → Bytes → Bytes → Bool
unfolding base64_decode constant_time_equal
verify_ssha crypto payload password =
    let decoded = base64_decode payload in
    if leb (length decoded) sha1_length
    then false
    else same_digest decoded (crypto.sha1 (password ++ drop sha1_length decoded))

-- the schemes
unfoldable pub verify_scheme : Crypto → Bytes → Bytes → Bytes → Bool
unfolding iequals passwords_equal verify_sha verify_ssha
verify_scheme crypto scheme rest provided =
    if iequals scheme (codes "CLEARTEXT")
    then passwords_equal provided rest
    else if iequals scheme (codes "SSHA")
    then verify_ssha crypto rest provided
    else if iequals scheme (codes "SHA")
    then verify_sha crypto rest provided
    else false

abbrev pub verify_stored : Crypto → Bytes → Bytes → Option (Bytes × Bytes) → Bool
verify_stored crypto stored provided none = passwords_equal provided stored
verify_stored crypto stored provided (some (scheme, rest)) =
    verify_scheme crypto scheme rest provided

unfoldable pub verify_user_password : Crypto → Bytes → Bytes → Bool
unfolding scheme_prefix verify_scheme passwords_equal
verify_user_password crypto stored provided =
    verify_stored crypto stored provided (scheme_prefix stored)

abbrev or_plain : Bytes → Bytes × ℕ → Bytes × ℕ
or_plain value (hashed, draws) = (if is_empty hashed then value else hashed, draws)

abbrev pub encode_stored : Crypto → Bytes → ℕ → Option (Bytes × Bytes) → Bytes × ℕ
encode_stored crypto value draws (some prefix) = (value, draws)
encode_stored crypto value draws none =
    if is_empty value then (value, draws) else or_plain value (hash_ssha crypto value draws)

unfoldable pub encode_user_password : Crypto → Bytes → ℕ → Bytes × ℕ
unfolding scheme_prefix hash_ssha
encode_user_password crypto value draws = encode_stored crypto value draws (scheme_prefix value)

unfoldable pub recoverable_password : Bytes → Option Bytes
unfolding scheme_prefix iequals
recoverable_password stored = elim (scheme_prefix stored) [
  | none ↦ some stored
  | some (scheme, rest) ↦ if iequals scheme (codes "CLEARTEXT") then some rest else none
]

-- `kAccountDisableBit` in a number that was read
abbrev has_disable_bit : Option ℕ → Bool
has_disable_bit none = false
has_disable_bit (some parsed) = parsed / 2 % 2 == 1

unfoldable pub any_disables : List Bytes → Bool
unfolding whole_number
any_disables [] = false
any_disables (value ∷ values) = has_disable_bit (whole_number value) || any_disables values

unfoldable pub account_disabled : DirectoryEntry → Bool
unfolding find_attribute any_disables
account_disabled entry = elim (find_attribute entry (codes "userAccountControl")) [
  | none ↦ false
  | some values ↦ any_disables values
]

-- the loop over the values of an attribute
unfoldable pub encode_values : Crypto → List Bytes → ℕ → List Bytes × ℕ
unfolding encode_user_password
encode_values crypto [] draws = ([], draws)
encode_values crypto (value ∷ values) draws =
    let (encoded, draws') = encode_user_password crypto value draws in
    let (rest, draws'') = encode_values crypto values draws' in (encoded ∷ rest, draws'')

abbrev user_password : Bytes
user_password = codes "userPassword"

unfoldable pub encode_attributes_of :
    Crypto → OrderedMap (List Bytes) → ℕ → OrderedMap (List Bytes) × ℕ
unfolding encode_values iequals
encode_attributes_of crypto [] draws = ([], draws)
encode_attributes_of crypto ((name, values) ∷ attributes) draws =
    let (values', draws') =
      if iequals name user_password then encode_values crypto values draws else (values, draws) in
    let (rest, draws'') = encode_attributes_of crypto attributes draws' in
    ((name, values') ∷ rest, draws'')

unfoldable pub encode_user_passwords : Crypto → DirectoryEntry → ℕ → DirectoryEntry × ℕ
unfolding encode_attributes_of
encode_user_passwords crypto entry draws =
    let (attributes, draws') = encode_attributes_of crypto entry.attributes draws in
    (record entry { attributes = attributes }, draws')

abbrev is_delete : ModifyOp → Bool
is_delete delete = true
is_delete add = false
is_delete replace = false
is_delete (unnamed_op code) = false

unfoldable pub encode_user_password_changes :
    Crypto → List AttributeModification → ℕ → List AttributeModification × ℕ
unfolding encode_values iequals
encode_user_password_changes crypto [] draws = ([], draws)
encode_user_password_changes crypto (change ∷ changes) draws =
    let (values, draws') =
      if is_delete change.op || not (iequals change.type user_password)
      then (change.values, draws)
      else encode_values crypto change.values draws in
    let (rest, draws'') = encode_user_password_changes crypto changes draws' in
    (record change { values = values } ∷ rest, draws'')
