-- ===== src/Session.antt =====
-- core/session.hpp and session.cpp: what a session has, and the guards its handlers share. A handler
-- runs as one step on the store; the store stands behind the interface of a backend.
pub mod Write
pub mod Rename
pub mod Read
pub mod Search
pub mod Serve
pub mod Outcome
pub mod Store
pub mod Steps
pub mod Secrecy
pub mod Parents
pub mod Runs
use simple_ldapd.Prelude.{ℕ, Bool, true, false, not, ◌&&◌, Option, none, some, List, []}
use simple_ldapd.Prelude.Bytes.{Bytes}
use simple_ldapd.Directory.{ResultCode, success, DirectoryEntry}
use simple_ldapd.Backend.{Backend}
use simple_ldapd.Acl as Acl
use simple_ldapd.Config.{LdapConfig, acl_config}
use simple_ldapd.Password.{Crypto}
use simple_ldapd.RateLimiter.{RateLimiter}
use simple_ldapd.Message.{BindRequestData}

-- what the connection tells of the peer and of TLS
pub record Connection : Type 0 where
  pub tls : Bool
  pub peer_verified : Bool
  pub peer_identity : Bytes
  pub peer : Bytes

-- auth/sasl.hpp
pub record SaslBindResult : Type 0 where
  pub result : ResultCode
  pub bind_dn : Bytes
  pub server_creds : Bytes
  pub diagnostic : Bytes

-- the members of the SASL authenticator that a session calls; a bind hands on the nonce, which it
-- may change, and the number of random draws
pub record Sasl (S : Type 0) : Type 0 where
  pub bind : S → BindRequestData → Connection → Bytes → ℕ → SaslBindResult × Bytes × ℕ
  pub advertised : List Bytes

-- what the sessions of a server share and do not change; a pointer that may be null is an `Option`
pub record Server (S : Type 0) : Type 0 where
  pub backend : Backend S
  pub config : LdapConfig
  pub crypto : Crypto
  pub schema : Option (DirectoryEntry → ResultCode × Bytes)
  pub sasl : Option (Sasl S)
  pub tls_enabled : Bool

-- the members of a session that change, with the store, the limiter and the random draws so far
pub record Session (S : Type 0) : Type 0 where
  pub store : S
  pub connection : Connection
  pub bound : Bool
  pub bind_dn : Bytes
  pub nonce : Bytes
  pub limiter : Option RateLimiter
  pub draws : ℕ

-- the result of a handler, with what it changes
pub record Answer (S : Type 0) : Type 0 where
  pub code : ResultCode
  pub diagnostic : Bytes
  pub store : S
  pub draws : ℕ

abbrev pub is_success : ResultCode → Bool
is_success success = true
is_success _ = false

abbrev pub checked :
    Option (DirectoryEntry → ResultCode × Bytes) → DirectoryEntry → ResultCode × Bytes
checked none entry = (success, [])
checked (some validate) entry = validate entry

module _ {S : Type 0} (server : Server S) where
  unfoldable pub may_search : Session S → Bytes → Bool
  unfolding Acl.may_search
  may_search st entry_dn =
      Acl.may_search (acl_config server.config) (server.backend.lookup st.store) st.bind_dn entry_dn

  unfoldable pub may_write : Session S → Bytes → Bool
  unfolding Acl.may_write
  may_write st entry_dn =
      st.bound
      && Acl.may_write (acl_config server.config) (server.backend.lookup st.store) st.bind_dn
          entry_dn

  unfoldable pub check_schema : DirectoryEntry → ResultCode × Bytes
  check_schema entry = checked server.schema entry

-- an early return
abbrev pub refuse : {S : Type 0} → Session S → ResultCode → Bytes → Answer S
refuse st code diagnostic = record {
  code = code;
  diagnostic = diagnostic;
  store = st.store;
  draws = st.draws;
}
