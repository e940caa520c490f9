-- ===== src/Message/Make.antt =====
-- protocol/message.cpp: the functions that make a message.
use simple_ldapd.Prelude.{ℕ, false}
use simple_ldapd.Prelude.Bytes.{Bytes}
use simple_ldapd.Directory.{ResultCode}
use simple_ldapd.Message.{
  ProtocolOp, bind_request, bind_response, unbind_request, search_request, search_result_entry,
  search_result_done, modify_request, add_request, del_request, modify_dn_request, compare_request,
  extended_request, LdapMessage, default_message, default_bind, SearchRequestData, SearchEntryData,
  AddRequestData, ModifyRequestData, ModifyDnRequestData, CompareRequestData, PasswordModifyRequest,
  password_modify_oid,
}
use simple_ldapd.Message.Controls.{encode_password_modify_value}

unfoldable pub make_bind_request : ℕ → Bytes → Bytes → LdapMessage
make_bind_request message_id dn password = record default_message {
  message_id = message_id;
  op = bind_request;
  bind = record default_bind { dn = dn; password = password };
}

unfoldable pub make_sasl_bind_request : ℕ → Bytes → Bytes → Bytes → LdapMessage
make_sasl_bind_request message_id dn mechanism credentials = record default_message {
  message_id = message_id;
  op = bind_request;
  bind = record default_bind {
    dn = dn;
    simple = false;
    sasl_mechanism = mechanism;
    sasl_credentials = credentials;
  };
}

unfoldable pub make_bind_response : ℕ → ResultCode → Bytes → Bytes → LdapMessage
make_bind_response message_id result diagnostic server_sasl_creds = record default_message {
  message_id = message_id;
  op = bind_response;
  result = result;
  diagnostic = diagnostic;
  server_sasl_creds = server_sasl_creds;
}

unfoldable pub make_search_request : ℕ → SearchRequestData → LdapMessage
make_search_request message_id search = record default_message {
  message_id = message_id;
  op = search_request;
  search = search;
}

unfoldable pub make_search_entry : ℕ → SearchEntryData → LdapMessage
make_search_entry message_id entry = record default_message {
  message_id = message_id;
  op = search_result_entry;
  entry = entry;
}

unfoldable pub make_ldap_result : ℕ → ProtocolOp → ResultCode → Bytes → LdapMessage
make_ldap_result message_id op result diagnostic = record default_message {
  message_id = message_id;
  op = op;
  result = result;
  diagnostic = diagnostic;
}

unfoldable pub make_search_done : ℕ → ResultCode → Bytes → LdapMessage
make_search_done message_id result diagnostic = record default_message {
  message_id = message_id;
  op = search_result_done;
  result = result;
  diagnostic = diagnostic;
}

unfoldable pub make_unbind_request : ℕ → LdapMessage
make_unbind_request message_id = record default_message {
  message_id = message_id;
  op = unbind_request;
}

unfoldable pub make_add_request : ℕ → AddRequestData → LdapMessage
make_add_request message_id add = record default_message {
  message_id = message_id;
  op = add_request;
  add = add;
}

unfoldable pub make_modify_request : ℕ → ModifyRequestData → LdapMessage
make_modify_request message_id modify = record default_message {
  message_id = message_id;
  op = modify_request;
  modify = modify;
}

unfoldable pub make_del_request : ℕ → Bytes → LdapMessage
make_del_request message_id dn = record default_message {
  message_id = message_id;
  op = del_request;
  delete_dn = dn;
}

unfoldable pub make_modify_dn_request : ℕ → ModifyDnRequestData → LdapMessage
make_modify_dn_request message_id modify_dn = record default_message {
  message_id = message_id;
  op = modify_dn_request;
  modify_dn = modify_dn;
}

unfoldable pub make_compare_request : ℕ → CompareRequestData → LdapMessage
make_compare_request message_id compare = record default_message {
  message_id = message_id;
  op = compare_request;
  compare = compare;
}

unfoldable pub make_extended_request : ℕ → Bytes → Bytes → LdapMessage
make_extended_request message_id oid value = record default_message {
  message_id = message_id;
  op = extended_request;
  extended_oid = oid;
  extended_value = value;
}

unfoldable pub make_password_modify_request : ℕ → PasswordModifyRequest → LdapMessage
unfolding make_extended_request encode_password_modify_value
make_password_modify_request message_id request =
    make_extended_request message_id password_modify_oid (encode_password_modify_value request)
