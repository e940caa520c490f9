-- ===== src/Message/Names.antt =====
-- protocol/result_codes.hpp: the texts of the result codes.
use simple_ldapd.Prelude.Bytes.{Bytes, codes}
use simple_ldapd.Directory.{
  ResultCode, success, operations_error, protocol_error, time_limit_exceeded, size_limit_exceeded,
  compare_false, compare_true, auth_method_not_supported, unavailable_critical_extension,
  confidentiality_required, sasl_bind_in_progress, no_such_attribute, undefined_attribute_type,
  constraint_violation, attribute_or_value_exists, invalid_attribute_syntax, no_such_object,
  invalid_dn_syntax, invalid_credentials, insufficient_access_rights, busy, unavailable,
  unwilling_to_perform, naming_violation, object_class_violation, not_allowed_on_non_leaf,
  entry_already_exists,
}

-- `toString(ResultCode)`
unfoldable pub text_of_result : ResultCode → Bytes
text_of_result success = codes "success"
text_of_result operations_error = codes "operationsError"
text_of_result protocol_error = codes "protocolError"
text_of_result time_limit_exceeded = codes "timeLimitExceeded"
text_of_result size_limit_exceeded = codes "sizeLimitExceeded"
text_of_result compare_false = codes "compareFalse"
text_of_result compare_true = codes "compareTrue"
text_of_result unavailable_critical_extension = codes "unavailableCriticalExtension"
text_of_result busy = codes "busy"
text_of_result unavailable = codes "unavailable"
text_of_result unwilling_to_perform = codes "unwillingToPerform"
text_of_result invalid_credentials = codes "invalidCredentials"
text_of_result no_such_object = codes "noSuchObject"
text_of_result auth_method_not_supported = codes "authMethodNotSupported"
text_of_result sasl_bind_in_progress = codes "saslBindInProgress"
text_of_result no_such_attribute = codes "noSuchAttribute"
text_of_result invalid_dn_syntax = codes "invalidDNSyntax"
text_of_result insufficient_access_rights = codes "insufficientAccessRights"
text_of_result entry_already_exists = codes "entryAlreadyExists"
text_of_result naming_violation = codes "namingViolation"
text_of_result not_allowed_on_non_leaf = codes "notAllowedOnNonLeaf"
text_of_result attribute_or_value_exists = codes "attributeOrValueExists"
text_of_result confidentiality_required = codes "confidentialityRequired"
text_of_result undefined_attribute_type = codes "undefinedAttributeType"
text_of_result constraint_violation = codes "constraintViolation"
text_of_result invalid_attribute_syntax = codes "invalidAttributeSyntax"
text_of_result object_class_violation = codes "objectClassViolation"
text_of_result _ = codes "other"
