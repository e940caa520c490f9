-- ===== src/Config/Bounds.antt =====
-- config/config.cpp: the numbers of the settings that a file is read into.
use simple_ldapd.Prelude.{ℕ, ◌^◌, ◌<◌, Option, none, some}
use simple_ldapd.Prelude.Bytes.{Bytes}
use simple_ldapd.Config.{LdapConfig}

-- each number fits its type: `port_t` has 16 bits, the others have 32
abbrev pub IsInRange : LdapConfig → Type 0
IsInRange config =
    (config.ldap_port < 2 ^ 16)
    × (config.ldaps_port < 2 ^ 16)
    × (config.bind_rate_limit < 2 ^ 32)
    × (config.max_pdu_size < 2 ^ 32)
    × (config.max_sessions < 2 ^ 32)
    × (config.idle_timeout < 2 ^ 32)

-- the settings of a result, where there is one
pub data Fits : Option LdapConfig → Type 0 where
  thrown : Fits none
  fits : {config : LdapConfig} → IsInRange config → Fits (some config)

abbrev Below : ℕ → Option ℕ → Type 0
Below limit none = Unit
Below limit (some n) = n < limit

abbrev config_or : LdapConfig → Option LdapConfig → LdapConfig
config_or other none = other
config_or other (some config) = config
