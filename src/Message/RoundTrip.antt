-- ===== src/Message/RoundTrip.antt =====
-- message.cpp: a whole message is read back.
use simple_ldapd.Prelude.{
  ℕ, ◌%◌, ◌^◌, ◌<◌, ◌≡◌, refl, sym, ap, ◌∙◌, some, [], ◌++◌, arith, length, append-nil,
  length-append,
}
use simple_ldapd.Prelude.Bytes.{Bytes}
use simple_ldapd.Ber.Tags.{ber_sequence, ber_integer, ber_add_request, ber_del_request}
use simple_ldapd.Ber.{write_bytes, write_integer, int64_of_int, encode_integer}
use simple_ldapd.Ber.Reader.{reader, Read, ◌>>=◌, pure, at_end, over}
use simple_ldapd.Ber.Element.{
  element, write_octet_string-element, write_constructed-element, write_integer-element,
}
use simple_ldapd.Ber.RoundTrip.{
  read_integer-element, read_octet_string-element, peek_tag-element, length-element, over-element,
  over-last,
}
use simple_ldapd.Message.{LdapMessage, default_message, AddRequestData, add_request}
use simple_ldapd.Message.Entries.{decode_add_request}
use simple_ldapd.Message.Entries.RoundTrip.{
  add_contents, encode_add_request-element, decode_add_request-contents,
}
use simple_ldapd.Message.Envelope.{
  op_of_tag, decode_case, decode_op, decode_ldap_message, encode_op, encode_ldap_message,
  message_body,
}
use simple_ldapd.Message.Make.{make_add_request, make_del_request}

-- The low 32 bits of an `int` that was extended are the `int`.
int64_of_int-mod : (v : ℕ) → v < 2 ^ 32 → int64_of_int v % 2 ^ 32 ≡ v
int64_of_int-mod v h = ground arith

int64_of_int-lt : (v : ℕ) → v < 2 ^ 32 → int64_of_int v < 2 ^ 64
int64_of_int-lt v h = ground arith

start : ℕ → LdapMessage
start message_id = record default_message { message_id = message_id }

-- The contents of a message without controls.
plain_contents : LdapMessage → Bytes
plain_contents message =
    element ber_integer (encode_integer (int64_of_int message.message_id))
    ++ encode_op message message.op

bytes_behind :
    (value : ℕ) (body : Bytes)
    → write_bytes (write_integer [] value) body ≡ element ber_integer (encode_integer value) ++ body
bytes_behind value body = unfold write_bytes in ap (λ t. t ++ body) (write_integer-element [] value)

encode_ldap_message-element :
    (message : LdapMessage)
    → message.controls ≡ []
    → encode_ldap_message message ≡ element ber_sequence (plain_contents message)
unfolding encode_ldap_message plain_contents
encode_ldap_message-element message plain = rw plain (
    write_constructed-element [] ber_sequence (
      write_bytes (write_integer [] (int64_of_int message.message_id))
        (encode_op message message.op))
    ∙ ap (element ber_sequence)
        (bytes_behind (int64_of_int message.message_id) (encode_op message message.op)))

message_body-contents :
    (message after : LdapMessage)
    → message.message_id < 2 ^ 32
    → decode_op (start message.message_id) (reader (encode_op message message.op))
      ≡ (some after, reader [])
    → message_body (reader (plain_contents message)) ≡ (some after, reader [])
unfolding plain_contents start
message_body-contents message after id op =
    let value = int64_of_int message.message_id in
    let body = encode_op message message.op in
    let first = read_integer-element value body (int64_of_int-lt message.message_id id) in
    let low = int64_of_int-mod message.message_id id in rw (first, low, op) (unfold at_end in refl)

-- A message without controls is read back where its operation is.
message_back :
    (message after : LdapMessage)
    → message.controls ≡ []
    → message.message_id < 2 ^ 32
    → length (encode_ldap_message message) < 2 ^ 32
    → decode_op (start message.message_id) (reader (encode_op message message.op))
      ≡ (some after, reader [])
    → decode_ldap_message (encode_ldap_message message) ≡ some after
unfolding decode_ldap_message
message_back message after plain id h op =
    let written = encode_ldap_message-element message plain in
    let size = ap length written in
    let inner = length-element ber_sequence (plain_contents message) in
    let contents = message_body-contents message after id op in
    let back =
      over-last ber_sequence message_body (plain_contents message) [] after (omega arith)
        contents in
    ap (λ t. (over ber_sequence message_body (reader t)).0) written ∙ ap (λ t. t.0) back

encode_op-lt :
    (message : LdapMessage)
    → message.controls ≡ []
    → length (encode_ldap_message message) < 2 ^ 32
    → length (encode_op message message.op) < 2 ^ 32
unfolding plain_contents
encode_op-lt message plain h =
    let size = ap length (encode_ldap_message-element message plain) in
    let inner = length-element ber_sequence (plain_contents message) in
    let sum =
      length-append (element ber_integer (encode_integer (int64_of_int message.message_id)))
        (encode_op message message.op) in
    omega arith

-- A request to add an entry is read back, with all its attributes and values in their order.
pub add_request-back :
    (message_id : ℕ) (add : AddRequestData)
    → message_id < 2 ^ 32
    → length (encode_ldap_message (make_add_request message_id add)) < 2 ^ 32
    → decode_ldap_message (encode_ldap_message (make_add_request message_id add))
      ≡ some (make_add_request message_id add)
unfolding make_add_request encode_op op_of_tag decode_case start
add_request-back message_id add id h =
    let message = make_add_request message_id add in
    let c = add_contents add in
    let written = encode_add_request-element add in
    let small = encode_op-lt message refl h in
    let size = ap length written in
    let inner = length-element ber_add_request c in
    let tag = peek_tag-element ber_add_request c [] in
    let named = record (start message_id) { op = add_request } in
    let body : Read LdapMessage = decode_add_request >>= λ a. pure (record named { add = a }) in
    let read = decode_add_request-contents add (omega arith) in
    let back = over-element ber_add_request body c [] [] message (omega arith) (rw read refl) in
    message_back message message refl id h (
      ap (λ t. decode_op (start message_id) (reader t))
        (written ∙ sym (append-nil (element ber_add_request c)))
      ∙ rw tag back)

-- A request to delete an entry is read back.
pub del_request-back :
    (message_id : ℕ) (dn : Bytes)
    → message_id < 2 ^ 32
    → length (encode_ldap_message (make_del_request message_id dn)) < 2 ^ 32
    → decode_ldap_message (encode_ldap_message (make_del_request message_id dn))
      ≡ some (make_del_request message_id dn)
unfolding make_del_request encode_op op_of_tag decode_case start
del_request-back message_id dn id h =
    let message = make_del_request message_id dn in
    let written = write_octet_string-element [] ber_del_request dn in
    let small = encode_op-lt message refl h in
    let size = ap length written in
    let inner = length-element ber_del_request dn in
    let tag = peek_tag-element ber_del_request dn [] in
    let read = read_octet_string-element ber_del_request dn [] (omega arith) in
    message_back message message refl id h (
      ap (λ t. decode_op (start message_id) (reader t))
        (written ∙ sym (append-nil (element ber_del_request dn)))
      ∙ rw (tag, read) refl)
