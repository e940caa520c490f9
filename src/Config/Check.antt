-- ===== src/Config/Check.antt =====
-- config/config.cpp: the check of the settings.
use simple_ldapd.Prelude.{
  Bool, true, false, not, ◌&&◌, ◌||◌, Option, none, some, List, [], ◌∷◌, ◌++◌, ◌==◌, if◌then◌else◌,
}
use simple_ldapd.Prelude.Bytes.{Bytes, codes, is_empty, equal}
use simple_ldapd.Dn.{to_lower_ascii}
use simple_ldapd.Config.{LdapConfig}

-- utils/logger.cpp
pub data LogLevel : Type 0 where
  debug info warning error fatal : LogLevel

unfoldable pub parse_log_level : Bytes → Option LogLevel
unfolding to_lower_ascii equal
parse_log_level name =
    let lower = to_lower_ascii name in
    if equal lower (codes "debug")
    then some debug
    else if equal lower (codes "info")
    then some info
    else if equal lower (codes "warning") || equal lower (codes "warn")
    then some warning
    else if equal lower (codes "error")
    then some error
    else if equal lower (codes "fatal")
    then some fatal
    else none

abbrev is_level : Option LogLevel → Bool
is_level none = false
is_level (some level) = true

-- an error that is reported under a condition
abbrev pub report : Bool → Bytes → List Bytes
report true text = text ∷ []
report false text = []

-- what the check finds outside the settings: whether SQLite was built in, and which files can be
-- opened
pub record Environment : Type 0 where
  pub has_sqlite : Bool
  pub is_readable : Bytes → Bool

abbrev sqlite_errors : Environment → LdapConfig → List Bytes
sqlite_errors env config =
    if env.has_sqlite
    then report (is_empty config.sqlite_file)
        (codes "sqlite_file is required when backend is sqlite")
    else codes "sqlite backend was not built (SQLite3 not found)" ∷ []

-- `validateDetailed`: the errors, of which `validate` and the result want none
unfoldable pub validate_detailed : Environment → LdapConfig → List Bytes
unfolding equal parse_log_level
validate_detailed env config =
    report
      ((config.enable_ldaps || config.enable_starttls)
        && (is_empty config.tls_cert_file || is_empty config.tls_key_file))
      (codes "tls_cert_file and tls_key_file are required when TLS is enabled")
    ++ (report (config.tls_verify_client && is_empty config.tls_ca_file)
          (codes "tls_ca_file is required when tls_verify_client is true")
        ++ (report (not (is_level (parse_log_level config.log_level)))
              (codes "log_level must be debug, info, warning, error, or fatal")
            ++ (report (config.max_pdu_size == 0) (codes "max_pdu_size must be greater than 0")
                ++ (report
                      (not (equal config.backend (codes "memory"))
                        && (not (equal config.backend (codes "ldif"))
                            && not (equal config.backend (codes "sqlite"))))
                      (codes "backend must be memory, ldif, or sqlite")
                    ++ ((if equal config.backend (codes "sqlite")
                          then sqlite_errors env config
                          else [])
                        ++ (report (is_empty config.base_dn) (codes "base_dn is required")
                            ++ (report
                                  (not (is_empty config.gssapi_keytab)
                                    && not (env.is_readable config.gssapi_keytab))
                                  (codes "gssapi_keytab is not readable")
                                ++ config.acl_errors)))))))

unfoldable pub validate : Environment → LdapConfig → Bool
unfolding validate_detailed
validate env config = is_empty (validate_detailed env config)
