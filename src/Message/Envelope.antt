-- ===== src/Message/Envelope.antt =====
-- protocol/message.cpp: `decodeLdapMessage` and `encodeLdapMessage`.
use simple_ldapd.Prelude.{ℕ, ◌%◌, ◌^◌, not, ◌&&◌, Option, [], ◌==◌, if◌then◌else◌}
use simple_ldapd.Prelude.Bytes.{Bytes, is_empty}
use simple_ldapd.Ber.Tags.{
  ber_sequence, ber_bind_request, ber_bind_response, ber_unbind_request, ber_search_request,
  ber_search_result_entry, ber_search_result_done, ber_modify_request, ber_modify_response,
  ber_add_request, ber_add_response, ber_del_request, ber_del_response, ber_modify_dn_request,
  ber_modify_dn_response, ber_compare_request, ber_compare_response, ber_extended_request,
  ber_extended_response, ber_controls,
}
use simple_ldapd.Ber.{
  write_bytes, write_octet_string, write_null, write_integer, int64_of_int, write_constructed,
}
use simple_ldapd.Ber.Reader.{
  reader, Read, ◌>>=◌, pure, at_end, peek_tag, read_constructed, read_octet_string, read_integer,
  skip, over,
}
use simple_ldapd.Message.{
  ProtocolOp, bind_request, bind_response, unbind_request, search_request, search_result_entry,
  search_result_done, modify_request, modify_response, add_request, add_response, del_request,
  del_response, modify_dn_request, modify_dn_response, compare_request, compare_response,
  extended_request, extended_response, unknown, LdapMessage, default_message,
}
use simple_ldapd.Message.Results.{encode_bind_response, decode_result, result_op}
use simple_ldapd.Message.Entries.{
  encode_search_entry, decode_search_entry, encode_add_request, decode_add_request,
}
use simple_ldapd.Message.Requests.{
  encode_bind_request, decode_bind_request, encode_modify_request, decode_modify_request,
  encode_modify_dn_request, decode_modify_dn_request, encode_compare_request,
  decode_compare_request, encode_extended_request, decode_extended_request,
}
use simple_ldapd.Message.Search.{encode_search_request, decode_search_request}
use simple_ldapd.Message.Controls.{encode_controls, decode_controls}

-- the names of the `switch`
unfoldable pub op_of_tag : ℕ → ProtocolOp
op_of_tag tag =
    if tag == ber_bind_request
    then bind_request
    else if tag == ber_bind_response
    then bind_response
    else if tag == ber_unbind_request
    then unbind_request
    else if tag == ber_search_request
    then search_request
    else if tag == ber_search_result_entry
    then search_result_entry
    else if tag == ber_search_result_done
    then search_result_done
    else if tag == ber_modify_request
    then modify_request
    else if tag == ber_modify_response
    then modify_response
    else if tag == ber_add_request
    then add_request
    else if tag == ber_add_response
    then add_response
    else if tag == ber_del_request
    then del_request
    else if tag == ber_del_response
    then del_response
    else if tag == ber_modify_dn_request
    then modify_dn_request
    else if tag == ber_modify_dn_response
    then modify_dn_response
    else if tag == ber_compare_request
    then compare_request
    else if tag == ber_compare_response
    then compare_response
    else if tag == ber_extended_request
    then extended_request
    else if tag == ber_extended_response
    then extended_response
    else unknown

-- the case of each operation
unfoldable pub decode_case : ProtocolOp → ℕ → LdapMessage → Read LdapMessage
unfolding read_constructed read_octet_string skip decode_result decode_search_entry
    decode_add_request decode_bind_request decode_modify_request decode_modify_dn_request
    decode_compare_request decode_extended_request decode_search_request
decode_case bind_request tag message =
    over tag (decode_bind_request >>= λ bind. pure (record message { bind = bind }))
decode_case search_request tag message =
    over tag (decode_search_request >>= λ search. pure (record message { search = search }))
decode_case search_result_entry tag message =
    over tag (decode_search_entry >>= λ entry. pure (record message { entry = entry }))
decode_case modify_request tag message =
    over tag (decode_modify_request >>= λ modify. pure (record message { modify = modify }))
decode_case add_request tag message =
    over tag (decode_add_request >>= λ add. pure (record message { add = add }))
decode_case del_request tag message = read_octet_string ber_del_request >>= λ delete_dn.
    pure (record message { delete_dn = delete_dn })
decode_case modify_dn_request tag message =
    over tag
      (decode_modify_dn_request >>= λ modify_dn. pure (record message { modify_dn = modify_dn }))
decode_case compare_request tag message =
    over tag (decode_compare_request >>= λ compare. pure (record message { compare = compare }))
decode_case extended_request tag message = over tag (
    decode_extended_request >>= λ (oid, value).
    pure (record message { extended_oid = oid; extended_value = value }))
decode_case unbind_request tag message = skip >>= λ _. pure message
decode_case unknown tag message = skip >>= λ _. pure message
decode_case bind_response tag message = over tag (decode_result message)
decode_case search_result_done tag message = over tag (decode_result message)
decode_case modify_response tag message = over tag (decode_result message)
decode_case add_response tag message = over tag (decode_result message)
decode_case del_response tag message = over tag (decode_result message)
decode_case modify_dn_response tag message = over tag (decode_result message)
decode_case compare_response tag message = over tag (decode_result message)
decode_case extended_response tag message = over tag (decode_result message)

abbrev pub decode_op : LdapMessage → Read LdapMessage
decode_op message r =
    let tag = peek_tag r in
    decode_case (op_of_tag tag) tag (record message { op = op_of_tag tag }) r

abbrev pub decode_trailer : LdapMessage → Read LdapMessage
decode_trailer message r =
    if not (at_end r) && peek_tag r == ber_controls
    then (over ber_controls decode_controls >>= λ controls.
          pure (record message { controls = controls }))
        r
    else pure message r

abbrev pub message_body : Read LdapMessage
message_body = do
  message_id ← read_integer
  message ← decode_op (record default_message { message_id = message_id % 2 ^ 32 })
  decode_trailer message

unfoldable pub decode_ldap_message : Bytes → Option LdapMessage
unfolding read_constructed read_integer peek_tag at_end op_of_tag decode_case decode_controls
decode_ldap_message wire = (over ber_sequence message_body (reader wire)).0

-- the `switch` over the operation
unfoldable pub encode_op : LdapMessage → ProtocolOp → Bytes
unfolding write_null write_octet_string encode_bind_response result_op encode_search_entry
    encode_add_request encode_bind_request encode_modify_request encode_modify_dn_request
    encode_compare_request encode_extended_request encode_search_request
encode_op message bind_request = encode_bind_request message.bind
encode_op message bind_response = encode_bind_response message
encode_op message unbind_request = write_null [] ber_unbind_request
encode_op message search_request = encode_search_request message.search
encode_op message search_result_entry = encode_search_entry message.entry
encode_op message search_result_done = result_op message ber_search_result_done
encode_op message modify_request = encode_modify_request message.modify
encode_op message modify_response = result_op message ber_modify_response
encode_op message add_request = encode_add_request message.add
encode_op message add_response = result_op message ber_add_response
encode_op message del_request = write_octet_string [] ber_del_request message.delete_dn
encode_op message del_response = result_op message ber_del_response
encode_op message modify_dn_request = encode_modify_dn_request message.modify_dn
encode_op message modify_dn_response = result_op message ber_modify_dn_response
encode_op message compare_request = encode_compare_request message.compare
encode_op message compare_response = result_op message ber_compare_response
encode_op message extended_request =
    encode_extended_request message.extended_oid message.extended_value
encode_op message extended_response = result_op message ber_extended_response
encode_op message unknown = result_op message ber_search_result_done

unfoldable pub encode_ldap_message : LdapMessage → Bytes
unfolding write_integer write_bytes write_constructed encode_op encode_controls
encode_ldap_message message =
    let head = write_integer [] (int64_of_int message.message_id) in
    let body = write_bytes head (encode_op message message.op) in
    write_constructed [] ber_sequence (
      if is_empty message.controls
      then body
      else write_bytes body (encode_controls message.controls))
