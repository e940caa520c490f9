-- ===== src/Config/Settings.antt =====
-- config/config.cpp: one line of the file after the other.
use simple_ldapd.Prelude.{
  ℕ, ◌-◌, ◌%◌, ◌^◌, Bool, true, false, not, ◌||◌, Option, none, some, List, [], ◌∷◌, ◌++◌, leb,
  ◌==◌, if◌then◌else◌, take, drop, suc,
}
use simple_ldapd.Prelude.Bytes.{Bytes, codes, is_empty, equal}
use simple_ldapd.Dn.{to_lower_ascii, find_char}
use simple_ldapd.Text.{is_space, drop_while, trim_copy, take_until}
use simple_ldapd.Text.Lines.{lines_of}
use simple_ldapd.Text.Numbers.{is_digit, number_of}
use simple_ldapd.Acl.{parse_acl_line, ParsedAcl, parsed, refused}
use simple_ldapd.Config.{LdapConfig}

-- the digits at the start
abbrev digits_of : Bytes → Bytes
digits_of text = take_until (λ c. not (is_digit c)) text

abbrev read_digits : Bool → Bytes → Option (Bool × ℕ)
read_digits negative text =
    if is_empty (digits_of text) then none else some (negative, number_of 0 (digits_of text))

abbrev read_signed : Bytes → Option (Bool × ℕ)
read_signed [] = none
read_signed (c ∷ text) =
    if c == b'-'
    then read_digits true text
    else if c == b'+'
    then read_digits false text
    else read_digits false (c ∷ text)

-- the sign and the value that `strtol` and `strtoul` read, whatever stands behind them; `none` is
-- no number at all
unfoldable pub leading_number : Bytes → Option (Bool × ℕ)
unfolding drop_while take_until is_space
leading_number text = read_signed (drop_while is_space text)

-- `value` or its negative in `width` bits
abbrev pub low_bits : ℕ → Bool → ℕ → ℕ
low_bits modulus negative value =
    if negative then (modulus - value % modulus) % modulus else value % modulus

-- `static_cast<port_t>(std::stoi(value))`; `none` is the exception
unfoldable pub port_of : Bytes → Option ℕ
unfolding leading_number
port_of text = elim (leading_number text) [
  | none ↦ none
  | some (negative, value) ↦
      if leb value (if negative then 2147483648 else 2147483647)
      then some (low_bits (2 ^ 16) negative value)
      else none
]

-- `static_cast<std::uint32_t>(std::stoul(value))`, an `unsigned long` having 64 bits
unfoldable pub uint32_of : Bytes → Option ℕ
unfolding leading_number
uint32_of text = elim (leading_number text) [
  | none ↦ none
  | some (negative, value) ↦
      if leb value 18446744073709551615 then some (low_bits (2 ^ 32) negative value) else none
]

unfoldable pub parse_bool : Bytes → Bool
unfolding to_lower_ascii equal
parse_bool value =
    let lower = to_lower_ascii value in
    equal lower (codes "1")
    || equal lower (codes "true")
    || equal lower (codes "yes")
    || equal lower (codes "on")

abbrev pub with_acl : LdapConfig → ParsedAcl → LdapConfig
with_acl config (parsed rule) = record config { acls = config.acls ++ (rule ∷ []) }
with_acl config (refused error) = record config {
  acl_errors = config.acl_errors ++ ((if is_empty error then codes "invalid acl" else error) ∷ []);
}

abbrev pub set_number : Option ℕ → (ℕ → LdapConfig) → Option LdapConfig
set_number none f = none
set_number (some n) f = some (f n)

-- the second half of the chain of keys
unfoldable pub apply_late : LdapConfig → Bytes → Bytes → Option LdapConfig
unfolding uint32_of parse_bool parse_acl_line equal
apply_late config key value =
    if equal key (codes "base_dn")
    then some (record config { base_dn = value })
    else if equal key (codes "root_dn")
    then some (record config { root_dn = value })
    else if equal key (codes "root_password")
    then some (record config { root_password = value })
    else if equal key (codes "log_file")
    then some (record config { log_file = value })
    else if equal key (codes "log_level")
    then some (record config { log_level = value })
    else if equal key (codes "bind_rate_limit")
    then set_number (uint32_of value) (λ n. record config { bind_rate_limit = n })
    else if equal key (codes "max_pdu_size")
    then set_number (uint32_of value) (λ n. record config { max_pdu_size = n })
    else if equal key (codes "max_sessions")
    then set_number (uint32_of value) (λ n. record config { max_sessions = n })
    else if equal key (codes "idle_timeout")
    then set_number (uint32_of value) (λ n. record config { idle_timeout = n })
    else if equal key (codes "foreground")
    then some (record config { foreground = parse_bool value })
    else if equal key (codes "require_confidentiality")
    then some (record config { require_confidentiality = parse_bool value })
    else if equal key (codes "krb_realm")
    then some (record config { krb_realm = value })
    else if equal key (codes "gssapi_keytab")
    then some (record config { gssapi_keytab = value })
    else if equal key (codes "gssapi_service")
    then some (record config { gssapi_service = value })
    else if equal key (codes "acl")
    then some (with_acl config (parse_acl_line value))
    else some config

-- one setting; `none` is an exception, which `loadFromFile` does not catch
unfoldable pub apply_setting : LdapConfig → Bytes → Bytes → Option LdapConfig
unfolding port_of parse_bool apply_late equal
apply_setting config key value =
    if equal key (codes "listen_address")
    then some (record config { listen_address = value })
    else if equal key (codes "ldap_port")
    then set_number (port_of value) (λ n. record config { ldap_port = n })
    else if equal key (codes "ldaps_port")
    then set_number (port_of value) (λ n. record config { ldaps_port = n })
    else if equal key (codes "enable_ldaps")
    then some (record config { enable_ldaps = parse_bool value })
    else if equal key (codes "enable_starttls")
    then some (record config { enable_starttls = parse_bool value })
    else if equal key (codes "tls_cert_file")
    then some (record config { tls_cert_file = value })
    else if equal key (codes "tls_key_file")
    then some (record config { tls_key_file = value })
    else if equal key (codes "tls_ca_file")
    then some (record config { tls_ca_file = value })
    else if equal key (codes "tls_verify_client")
    then some (record config { tls_verify_client = parse_bool value })
    else if equal key (codes "backend")
    then some (record config { backend = value })
    else if equal key (codes "ldif_file")
    then some (record config { ldif_file = value })
    else if equal key (codes "sqlite_file")
    then some (record config { sqlite_file = value })
    else if equal key (codes "schema_dir")
    then some (record config { schema_dir = value })
    else apply_late config key value

-- the part of a line before its comment, trimmed
abbrev pub content_of : Bytes → Bytes
content_of line = trim_copy (take_until (λ c. c == b'#') line)

unfoldable pub apply_line : LdapConfig → Bytes → Option LdapConfig
unfolding trim_copy take_until find_char apply_setting
apply_line config line =
    let content = content_of line in
    if is_empty content then some config else elim (find_char b'=' content) [
      | none ↦ some config
      | some eq ↦
          apply_setting config (trim_copy (take eq content)) (trim_copy (drop (suc eq) content))
    ]

abbrev pub and_then : Option LdapConfig → (LdapConfig → Option LdapConfig) → Option LdapConfig
and_then none next = none
and_then (some config) next = next config

unfoldable pub apply_lines : LdapConfig → List Bytes → Option LdapConfig
unfolding apply_line
apply_lines config [] = some config
apply_lines config (line ∷ lines) =
    and_then (apply_line config line) (λ config'. apply_lines config' lines)

-- `loadFromFile` on the text of a file that can be opened
unfoldable pub load_text : LdapConfig → Bytes → Option LdapConfig
unfolding lines_of apply_lines
load_text config text = apply_lines config (lines_of text)
