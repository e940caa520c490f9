-- ===== src/Directory.antt =====
-- backend/backend.hpp and protocol/result_codes.hpp: entries, scopes, modifications, result codes.
use simple_ldapd.Prelude.{ℕ, List, Option}
use simple_ldapd.Prelude.Bytes.{Bytes}
use simple_ldapd.OrderedMap.{OrderedMap, find_first}
use simple_ldapd.Dn.{iequals}

-- the result codes by name; `unnamed` is a value of the underlying byte that has no name, which a
-- cast from the wire can give
pub data ResultCode : Type 0 where
  success operations_error protocol_error time_limit_exceeded size_limit_exceeded : ResultCode
  compare_false compare_true auth_method_not_supported stronger_auth_required referral : ResultCode
  admin_limit_exceeded unavailable_critical_extension confidentiality_required : ResultCode
  sasl_bind_in_progress no_such_attribute undefined_attribute_type : ResultCode
  inappropriate_matching constraint_violation attribute_or_value_exists : ResultCode
  invalid_attribute_syntax no_such_object alias_problem invalid_dn_syntax : ResultCode
  alias_dereferencing_problem inappropriate_authentication invalid_credentials : ResultCode
  insufficient_access_rights busy unavailable unwilling_to_perform loop_detect : ResultCode
  naming_violation object_class_violation not_allowed_on_non_leaf not_allowed_on_rdn : ResultCode
  entry_already_exists object_class_mods_prohibited affects_multiple_dsas other : ResultCode
  unnamed : ℕ → ResultCode

pub record DirectoryEntry : Type 0 where
  pub dn : Bytes
  pub attributes : OrderedMap (List Bytes)

-- `unnamed_scope` and `unnamed_op` are the values that a cast from the wire gives besides the names
pub data SearchScope : Type 0 where
  base one_level subtree : SearchScope
  unnamed_scope : ℕ → SearchScope

pub data ModifyOp : Type 0 where
  add delete replace : ModifyOp
  unnamed_op : ℕ → ModifyOp

pub record AttributeModification : Type 0 where
  pub op : ModifyOp
  pub type : Bytes
  pub values : List Bytes

-- `findAttribute`, which modify.cpp, filter.cpp, acl.cpp, bind.cpp and registry.cpp each define
unfoldable pub find_attribute : DirectoryEntry → Bytes → Option (List Bytes)
unfolding find_first iequals
find_attribute entry name = find_first (λ key. iequals key name) entry.attributes
