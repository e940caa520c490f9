-- ===== src/Message/Results.antt =====
-- protocol/message.cpp and result_codes.hpp: results, and the responses that carry one.
use simple_ldapd.Prelude.{ℕ, ◌%◌, not, ◌&&◌, List, [], ◌∷◌, ◌==◌, if◌then◌else◌}
use simple_ldapd.Prelude.Bytes.{Bytes, is_empty}
use simple_ldapd.Directory.{
  ResultCode, success, operations_error, protocol_error, time_limit_exceeded, size_limit_exceeded,
  compare_false, compare_true, auth_method_not_supported, stronger_auth_required, referral,
  admin_limit_exceeded, unavailable_critical_extension, confidentiality_required,
  sasl_bind_in_progress, no_such_attribute, undefined_attribute_type, inappropriate_matching,
  constraint_violation, attribute_or_value_exists, invalid_attribute_syntax, no_such_object,
  alias_problem, invalid_dn_syntax, alias_dereferencing_problem, inappropriate_authentication,
  invalid_credentials, insufficient_access_rights, busy, unavailable, unwilling_to_perform,
  loop_detect, naming_violation, object_class_violation, not_allowed_on_non_leaf,
  not_allowed_on_rdn, entry_already_exists, object_class_mods_prohibited, affects_multiple_dsas,
  other, unnamed,
}
use simple_ldapd.Ber.Tags.{
  ber_bind_response, ber_server_sasl_creds, ber_context10, ber_context11, ber_extended_response,
}
use simple_ldapd.Ber.{write_octet_string, write_octets, write_enumerated, write_constructed}
use simple_ldapd.Ber.Reader.{
  Read, ◌>>=◌, ◌>>◌, pure, peek_tag, read_octet_string, read_octets, read_enumerated, skip,
  check_ok,
}
use simple_ldapd.Ber.Loop.{read_list}
use simple_ldapd.Message.{LdapMessage}

-- `static_cast<int>(result)`
unfoldable pub code_of_result : ResultCode → ℕ
code_of_result success = 0
code_of_result operations_error = 1
code_of_result protocol_error = 2
code_of_result time_limit_exceeded = 3
code_of_result size_limit_exceeded = 4
code_of_result compare_false = 5
code_of_result compare_true = 6
code_of_result auth_method_not_supported = 7
code_of_result stronger_auth_required = 8
code_of_result referral = 10
code_of_result admin_limit_exceeded = 11
code_of_result unavailable_critical_extension = 12
code_of_result confidentiality_required = 13
code_of_result sasl_bind_in_progress = 14
code_of_result no_such_attribute = 16
code_of_result undefined_attribute_type = 17
code_of_result inappropriate_matching = 18
code_of_result constraint_violation = 19
code_of_result attribute_or_value_exists = 20
code_of_result invalid_attribute_syntax = 21
code_of_result no_such_object = 32
code_of_result alias_problem = 33
code_of_result invalid_dn_syntax = 34
code_of_result alias_dereferencing_problem = 36
code_of_result inappropriate_authentication = 48
code_of_result invalid_credentials = 49
code_of_result insufficient_access_rights = 50
code_of_result busy = 51
code_of_result unavailable = 52
code_of_result unwilling_to_perform = 53
code_of_result loop_detect = 54
code_of_result naming_violation = 64
code_of_result object_class_violation = 65
code_of_result not_allowed_on_non_leaf = 66
code_of_result not_allowed_on_rdn = 67
code_of_result entry_already_exists = 68
code_of_result object_class_mods_prohibited = 69
code_of_result affects_multiple_dsas = 71
code_of_result other = 80
code_of_result (unnamed code) = code

named_results : List ResultCode
named_results =
    success ∷ operations_error ∷ protocol_error ∷ time_limit_exceeded ∷ size_limit_exceeded
    ∷ compare_false ∷ compare_true ∷ auth_method_not_supported ∷ stronger_auth_required ∷ referral
    ∷ admin_limit_exceeded ∷ unavailable_critical_extension ∷ confidentiality_required
    ∷ sasl_bind_in_progress ∷ no_such_attribute ∷ undefined_attribute_type ∷ inappropriate_matching
    ∷ constraint_violation ∷ attribute_or_value_exists ∷ invalid_attribute_syntax ∷ no_such_object
    ∷ alias_problem ∷ invalid_dn_syntax ∷ alias_dereferencing_problem ∷ inappropriate_authentication
    ∷ invalid_credentials ∷ insufficient_access_rights ∷ busy ∷ unavailable ∷ unwilling_to_perform
    ∷ loop_detect ∷ naming_violation ∷ object_class_violation ∷ not_allowed_on_non_leaf
    ∷ not_allowed_on_rdn ∷ entry_already_exists ∷ object_class_mods_prohibited
    ∷ affects_multiple_dsas ∷ other ∷ []

named_or : ResultCode → ℕ → List ResultCode → ResultCode
unfolding code_of_result
named_or given code [] = given
named_or given code (result ∷ results) =
    if code_of_result result == code then result else named_or given code results

-- `static_cast<ResultCode>(code)`: the underlying type is a byte
unfoldable pub result_of_code : ℕ → ResultCode
unfolding named_or named_results code_of_result
result_of_code code = named_or (unnamed (code % 256)) (code % 256) named_results

unfoldable pub encode_result : ResultCode → Bytes → Bytes → Bytes
unfolding write_enumerated write_octet_string code_of_result
encode_result result matched_dn diagnostic =
    write_octets (write_octets (write_enumerated [] (code_of_result result)) matched_dn) diagnostic

-- an element behind the three of a result
pub data Extra : Type 0 where
  creds oid value : Bytes → Extra
  other_element : Extra

unfoldable pub decode_extra : Read Extra
unfolding peek_tag read_octet_string skip
decode_extra r =
    let tag = peek_tag r in
    if tag == ber_server_sasl_creds
    then (read_octet_string ber_server_sasl_creds >>= λ v. pure (creds v)) r
    else if tag == ber_context10
    then (read_octet_string ber_context10 >>= λ v. pure (oid v)) r
    else if tag == ber_context11
    then (read_octet_string ber_context11 >>= λ v. pure (value v)) r
    else (skip >>= λ _. pure other_element) r

-- the assignments of the loop, which its tests do not read
unfoldable pub put_extras : LdapMessage → List Extra → LdapMessage
put_extras message [] = message
put_extras message (creds v ∷ extras) = put_extras (record message { server_sasl_creds = v }) extras
put_extras message (oid v ∷ extras) = put_extras (record message { extended_oid = v }) extras
put_extras message (value v ∷ extras) = put_extras (record message { extended_value = v }) extras
put_extras message (other_element ∷ extras) = put_extras message extras

unfoldable pub decode_result : LdapMessage → Read LdapMessage
unfolding read_enumerated read_octet_string read_list decode_extra put_extras result_of_code
decode_result message = do
  code ← read_enumerated
  matched_dn ← read_octets
  diagnostic ← read_octets
  extras ← read_list decode_extra
  check_ok
  pure (
      put_extras
        (record message {
          matched_dn = matched_dn;
          diagnostic = diagnostic;
          result = result_of_code code;
        })
        extras)

unfoldable pub encode_bind_response : LdapMessage → Bytes
unfolding encode_result write_octet_string write_constructed
encode_bind_response message =
    let inner = encode_result message.result message.matched_dn message.diagnostic in
    write_constructed [] ber_bind_response (
      if is_empty message.server_sasl_creds
      then inner
      else write_octet_string inner ber_server_sasl_creds message.server_sasl_creds)

-- the local function `resultOp` of `encodeLdapMessage`
unfoldable pub result_op : LdapMessage → ℕ → Bytes
unfolding encode_result write_octet_string write_constructed
result_op message tag =
    let inner = encode_result message.result message.matched_dn message.diagnostic in
    let extra =
      if is_empty message.extended_oid
      then inner
      else write_octet_string inner ber_context10 message.extended_oid in
    let no_extra = is_empty message.extended_oid && is_empty message.extended_value in
    write_constructed [] tag (
      if tag == ber_extended_response && not no_extra
      then write_octet_string extra ber_context11 message.extended_value
      else inner)
