-- ===== src/Config.antt =====
-- config/config.hpp and config.cpp: the settings, their file and their check.
pub mod Settings
pub mod Check
pub mod Bounds
use simple_ldapd.Prelude.{ℕ, Bool, true, false, List, []}
use simple_ldapd.Prelude.Bytes.{Bytes, codes}
use simple_ldapd.Acl.{AclRule, AclConfig}

pub record LdapConfig : Type 0 where
  pub listen_address : Bytes
  pub ldap_port : ℕ
  pub ldaps_port : ℕ
  pub enable_ldaps : Bool
  pub enable_starttls : Bool
  pub tls_cert_file : Bytes
  pub tls_key_file : Bytes
  pub tls_ca_file : Bytes
  pub tls_verify_client : Bool
  pub backend : Bytes
  pub ldif_file : Bytes
  pub sqlite_file : Bytes
  pub schema_dir : Bytes
  pub base_dn : Bytes
  pub root_dn : Bytes
  pub root_password : Bytes
  pub log_file : Bytes
  pub log_level : Bytes
  pub bind_rate_limit : ℕ
  pub max_pdu_size : ℕ
  pub max_sessions : ℕ
  pub idle_timeout : ℕ
  pub foreground : Bool
  pub require_confidentiality : Bool
  pub krb_realm : Bytes
  pub gssapi_keytab : Bytes
  pub gssapi_service : Bytes
  pub acls : List AclRule
  pub acl_errors : List Bytes

-- `LdapConfig()`
abbrev pub default_config : LdapConfig
default_config = record {
  listen_address = codes "0.0.0.0";
  ldap_port = 389;
  ldaps_port = 636;
  enable_ldaps = false;
  enable_starttls = false;
  tls_cert_file = [];
  tls_key_file = [];
  tls_ca_file = [];
  tls_verify_client = false;
  backend = codes "memory";
  ldif_file = [];
  sqlite_file = [];
  schema_dir = codes "schemas";
  base_dn = codes "dc=example,dc=com";
  root_dn = codes "cn=admin,dc=example,dc=com";
  root_password = [];
  log_file = [];
  log_level = codes "info";
  bind_rate_limit = 0;
  max_pdu_size = 1048576;
  max_sessions = 0;
  idle_timeout = 0;
  foreground = true;
  require_confidentiality = false;
  krb_realm = [];
  gssapi_keytab = [];
  gssapi_service = [];
  acls = [];
  acl_errors = [];
}

-- the fields that the access control reads
abbrev pub acl_config : LdapConfig → AclConfig
acl_config config = record { root_dn = config.root_dn; acls = config.acls }
