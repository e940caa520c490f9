-- ===== src/Tests/Auth.antt =====
-- Passwords, the names that a bind accepts, and the bind itself, at concrete inputs.
use simple_ldapd.Prelude.{
  ltb, ap, sym, ◌≡◌, ◌↔◌, refl, true, Option, none, some, [], ◌++◌, arith, length,
}
use simple_ldapd.Prelude.Bytes.{Bytes, codes}
use simple_ldapd.Directory.{success}
use simple_ldapd.Text.Scan.{every}
use simple_ldapd.Memory.{memory_backend}
use simple_ldapd.Config.{LdapConfig, default_config}
use simple_ldapd.Password.{Crypto, scheme_prefix, encode_user_password, verify_user_password}
use simple_ldapd.Password.Base64.{base64_encode, base64_decode, base64_decode-base64_encode}
use simple_ldapd.Password.Compare.{passwords_equal, passwords_equal_iff}
use simple_ldapd.Password.Verify.{
  IsCrypto, ssha, verify_user_password-ssha_iff, verify_user_password-encode_user_password,
}
use simple_ldapd.Bind.{find_account, bind}
use simple_ldapd.Bind.Account.{IsAccount, find_account_iff}
use simple_ldapd.Bind.Outcome.{Granted, bind_success_iff}
use simple_ldapd.Tests.Store.{store, root_name, amy_name}

abbrev secret : Bytes
secret = codes "sesame"

abbrev zeros : Bytes
zeros = codes "aaaaaaaaaaaaaaaaaaaa"

abbrev salt : Bytes
salt = codes "saltsalt"

-- a hash that is the same for all, and one salt
abbrev pub crypto : Crypto
crypto = record { sha1 = λ m. some zeros; rand_bytes = λ n. some salt }

abbrev given : Option Bytes → Bytes
given none = []
given (some bytes) = bytes

crypto-IsCrypto : IsCrypto crypto
unfolding every
crypto-IsCrypto = record {
  digest_length = λ m d e. ap (λ o. length (given o)) (sym e);
  digest_bytes = λ m d e. ap (λ o. every (λ c. ltb c 256) (given o)) (sym e);
  salt_length = λ n s e. ap (λ o. length (given o)) (sym e);
  salt_bytes = λ n s e. ap (λ o. every (λ c. ltb c 256) (given o)) (sym e);
}

names_no_scheme : scheme_prefix secret ≡ none
unfolding scheme_prefix
names_no_scheme = refl

verify_user_password-encode_user_password_example :
    verify_user_password crypto (encode_user_password crypto secret 0).0 secret ≡ true
unfolding every
verify_user_password-encode_user_password_example =
    verify_user_password-encode_user_password crypto secret 0 crypto-IsCrypto refl names_no_scheme

verify_user_password-ssha_iff_example :
    (verify_user_password crypto (ssha zeros salt) secret ≡ true)
    ↔ (crypto.sha1 (secret ++ salt) ≡ some zeros)
unfolding every
verify_user_password-ssha_iff_example =
    verify_user_password-ssha_iff crypto zeros salt secret crypto-IsCrypto refl refl refl
      (omega arith)

passwords_equal_iff_example :
    (passwords_equal secret (codes "sesam") ≡ true) ↔ (secret ≡ codes "sesam")
unfolding every
passwords_equal_iff_example =
    passwords_equal_iff secret (codes "sesam") refl refl (omega arith) (omega arith)

base64_decode-base64_encode_example : base64_decode (base64_encode secret) ≡ secret
unfolding every
base64_decode-base64_encode_example = base64_decode-base64_encode secret refl

abbrev config : LdapConfig
config = record default_config { base_dn = root_name }

find_account_iff_example :
    (find_account memory_backend config store (codes "amy") ≡ some amy_name)
    ↔ IsAccount memory_backend config store (codes "amy") amy_name
find_account_iff_example = find_account_iff memory_backend config store (codes "amy") amy_name

bind_success_iff_example :
    (bind memory_backend default_config crypto store amy_name secret ≡ success)
    ↔ Granted memory_backend default_config crypto store amy_name secret
bind_success_iff_example =
    bind_success_iff memory_backend default_config crypto store amy_name secret
