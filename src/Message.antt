-- ===== src/Message.antt =====
-- protocol/message.hpp: the messages. An `int` is its bit pattern, a number below 2 ^ 32.
pub mod Results
pub mod Entries
pub mod Requests
pub mod Search
pub mod Controls
pub mod Envelope
pub mod Names
pub mod Make
pub mod RoundTrip
use simple_ldapd.Prelude.{ℕ, Bool, true, false, Option, none, List, []}
use simple_ldapd.Prelude.Bytes.{Bytes, codes}
use simple_ldapd.Directory.{ResultCode, success, SearchScope, subtree, AttributeModification}
use simple_ldapd.Filter.{SearchFilter, present_filter}

pub data ProtocolOp : Type 0 where
  bind_request bind_response unbind_request search_request search_result_entry : ProtocolOp
  search_result_done modify_request modify_response add_request add_response : ProtocolOp
  del_request del_response modify_dn_request modify_dn_response compare_request : ProtocolOp
  compare_response extended_request extended_response unknown : ProtocolOp

pub record BindRequestData : Type 0 where
  pub version : ℕ
  pub dn : Bytes
  pub password : Bytes
  pub simple : Bool
  pub sasl_mechanism : Bytes
  pub sasl_credentials : Bytes

abbrev pub default_bind : BindRequestData
default_bind = record {
  version = 3;
  dn = [];
  password = [];
  simple = true;
  sasl_mechanism = [];
  sasl_credentials = [];
}

pub record SearchRequestData : Type 0 where
  pub base_dn : Bytes
  pub scope : SearchScope
  pub size_limit : ℕ
  pub time_limit : ℕ
  pub types_only : Bool
  pub filter : SearchFilter
  pub attributes : List Bytes

abbrev pub default_search : SearchRequestData
default_search = record {
  base_dn = [];
  scope = subtree;
  size_limit = 0;
  time_limit = 0;
  types_only = false;
  filter = present_filter (codes "objectClass");
  attributes = [];
}

pub record PartialAttribute : Type 0 where
  pub type : Bytes
  pub values : List Bytes

pub record SearchEntryData : Type 0 where
  pub dn : Bytes
  pub attributes : List PartialAttribute

pub record AddRequestData : Type 0 where
  pub dn : Bytes
  pub attributes : List PartialAttribute

pub record ModifyRequestData : Type 0 where
  pub dn : Bytes
  pub changes : List AttributeModification

pub record ModifyDnRequestData : Type 0 where
  pub dn : Bytes
  pub new_rdn : Bytes
  pub delete_old_rdn : Bool
  pub new_superior : Bytes

pub record CompareRequestData : Type 0 where
  pub dn : Bytes
  pub attribute : Bytes
  pub value : Bytes

pub record LdapControl : Type 0 where
  pub oid : Bytes
  pub critical : Bool
  pub value : Bytes

pub record LdapMessage : Type 0 where
  pub message_id : ℕ
  pub op : ProtocolOp
  pub result : ResultCode
  pub matched_dn : Bytes
  pub diagnostic : Bytes
  pub bind : BindRequestData
  pub search : SearchRequestData
  pub entry : SearchEntryData
  pub add : AddRequestData
  pub modify : ModifyRequestData
  pub delete_dn : Bytes
  pub modify_dn : ModifyDnRequestData
  pub extended_oid : Bytes
  pub extended_value : Bytes
  pub server_sasl_creds : Bytes
  pub compare : CompareRequestData
  pub controls : List LdapControl

-- `LdapMessage{}`
abbrev pub default_message : LdapMessage
default_message = record {
  message_id = 0;
  op = unknown;
  result = success;
  matched_dn = [];
  diagnostic = [];
  bind = default_bind;
  search = default_search;
  entry = record { dn = []; attributes = [] };
  add = record { dn = []; attributes = [] };
  modify = record { dn = []; changes = [] };
  delete_dn = [];
  modify_dn = record { dn = []; new_rdn = []; delete_old_rdn = true; new_superior = [] };
  extended_oid = [];
  extended_value = [];
  server_sasl_creds = [];
  compare = record { dn = []; attribute = []; value = [] };
  controls = [];
}

pub record PasswordModifyRequest : Type 0 where
  pub user_identity : Bytes
  pub old_password : Option Bytes
  pub new_password : Option Bytes

-- `kPasswordModifyOid`, `kWhoAmIOid` and `kPagedResultsOid`
abbrev pub password_modify_oid : Bytes
password_modify_oid = codes "1.3.6.1.4.1.4203.1.11.1"

abbrev pub who_am_i_oid : Bytes
who_am_i_oid = codes "1.3.6.1.4.1.4203.1.11.3"

abbrev pub paged_results_oid : Bytes
paged_results_oid = codes "1.2.840.113556.1.4.319"
