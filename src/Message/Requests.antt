-- ===== src/Message/Requests.antt =====
-- protocol/message.cpp: the requests to bind, modify, rename, compare and extend.
use simple_ldapd.Prelude.{ℕ, ◌%◌, ◌^◌, false, not, ◌&&◌, List, [], ◌∷◌, ◌==◌, if◌then◌else◌}
use simple_ldapd.Prelude.Bytes.{Bytes, is_empty}
use simple_ldapd.Directory.{ModifyOp, add, delete, replace, unnamed_op, AttributeModification}
use simple_ldapd.Ber.Tags.{
  ber_sequence, ber_set, ber_bind_request, ber_simple_auth, ber_sasl_auth, ber_modify_request,
  ber_modify_dn_request, ber_compare_request, ber_extended_request, ber_context1,
}
use simple_ldapd.Ber.{
  BerWriter, write_octet_string, write_octets, write_integer, int64_of_int, write_enumerated,
  write_boolean, write_constructed,
}
use simple_ldapd.Ber.Reader.{
  Read, ◌>>=◌, ◌>>◌, pure, at_end, peek_tag, read_constructed, read_octet_string, read_octets,
  read_integer, read_enumerated, read_boolean, skip, check_ok, over, inside,
}
use simple_ldapd.Ber.Loop.{read_list}
use simple_ldapd.Message.{
  BindRequestData, default_bind, ModifyRequestData, ModifyDnRequestData, CompareRequestData,
}
use simple_ldapd.Message.Entries.{write_partial, write_values}

-- the credentials, which are not written where they are empty
abbrev pub write_sasl : BindRequestData → BerWriter
write_sasl bind =
    let head = write_octets [] bind.sasl_mechanism in
    if is_empty bind.sasl_credentials then head else write_octets head bind.sasl_credentials

unfoldable pub encode_bind_request : BindRequestData → Bytes
unfolding write_integer write_octet_string write_constructed
encode_bind_request bind =
    let inner = write_octets (write_integer [] (int64_of_int bind.version)) bind.dn in
    write_constructed [] ber_bind_request (
      if bind.simple
      then write_octet_string inner ber_simple_auth bind.password
      else write_constructed inner ber_sasl_auth (write_sasl bind))

abbrev pub sasl_body : Read (Bytes × Bytes)
sasl_body = do
  mechanism ← read_octets
  credentials ← (λ r. if at_end r then pure [] r else read_octets r)
  pure (mechanism, credentials)

abbrev pub read_authentication : BindRequestData → Read BindRequestData
read_authentication bind r =
    let tag = peek_tag r in
    let sasl = record bind { simple = false } in
    if tag == ber_simple_auth
    then (read_octet_string ber_simple_auth >>= λ password.
          pure (record bind { password = password }))
        r
    else if tag == ber_sasl_auth
    then (inside ber_sasl_auth sasl_body >>= λ (mechanism, credentials).
          pure (record sasl { sasl_mechanism = mechanism; sasl_credentials = credentials }))
        r
    else (skip >>= λ _. pure sasl) r

-- The version of 64 bits is cut to an `int`.
unfoldable pub decode_bind_request : Read BindRequestData
unfolding read_integer read_octet_string read_constructed peek_tag at_end skip
decode_bind_request = do
  version ← read_integer
  dn ← read_octets
  read_authentication (record default_bind { version = version % 2 ^ 32; dn = dn })

-- `static_cast<int>(op)` and `static_cast<ModifyOp>(op)`
unfoldable pub code_of_op : ModifyOp → ℕ
code_of_op add = 0
code_of_op delete = 1
code_of_op replace = 2
code_of_op (unnamed_op code) = code

unfoldable pub op_of_code : ℕ → ModifyOp
op_of_code code =
    if code == 0
    then add
    else if code == 1
    then delete
    else if code == 2
    then replace
    else unnamed_op code

unfoldable pub write_change : BerWriter → AttributeModification → BerWriter
unfolding write_octet_string write_constructed write_enumerated write_values code_of_op
write_change w change = write_constructed w ber_sequence (
    write_constructed (write_enumerated [] (code_of_op change.op)) ber_sequence
      (write_partial change.type change.values))

unfoldable pub write_changes : BerWriter → List AttributeModification → BerWriter
unfolding write_change
write_changes w [] = w
write_changes w (change ∷ changes) = write_changes (write_change w change) changes

unfoldable pub encode_modify_request : ModifyRequestData → Bytes
unfolding write_octet_string write_constructed write_changes
encode_modify_request modify =
    write_constructed [] ber_modify_request
      (write_constructed (write_octets [] modify.dn) ber_sequence (write_changes [] modify.changes))

unfoldable pub read_change : Read AttributeModification
unfolding read_constructed read_octet_string read_enumerated read_list op_of_code
read_change = over ber_sequence (do
  code ← read_enumerated
  over ber_sequence (do
    type ← read_octets
    values ← over ber_set (read_list read_octets)
    pure (record { op = op_of_code code; type = type; values = values })))

unfoldable pub decode_modify_request : Read ModifyRequestData
unfolding read_constructed read_octet_string read_list read_change
decode_modify_request = do
  dn ← read_octets
  changes ← inside ber_sequence (read_list read_change)
  pure (record { dn = dn; changes = changes })

unfoldable pub encode_modify_dn_request : ModifyDnRequestData → Bytes
unfolding write_octet_string write_constructed write_boolean
encode_modify_dn_request modify_dn =
    let inner =
      write_boolean (write_octets (write_octets [] modify_dn.dn) modify_dn.new_rdn)
        modify_dn.delete_old_rdn in
    write_constructed [] ber_modify_dn_request (
      if is_empty modify_dn.new_superior
      then inner
      else write_octet_string inner ber_simple_auth modify_dn.new_superior)

-- an element with this tag at the end, or the test of `ok()`
abbrev pub read_optional : ℕ → Read Bytes
read_optional tag r =
    if not (at_end r) && peek_tag r == tag then read_octet_string tag r else (check_ok >> pure []) r

unfoldable pub decode_modify_dn_request : Read ModifyDnRequestData
unfolding read_octet_string read_boolean peek_tag at_end
decode_modify_dn_request = do
  dn ← read_octets
  new_rdn ← read_octets
  delete_old_rdn ← read_boolean
  new_superior ← read_optional ber_simple_auth
  pure (record {
    dn = dn;
    new_rdn = new_rdn;
    delete_old_rdn = delete_old_rdn;
    new_superior = new_superior;
  })

unfoldable pub encode_compare_request : CompareRequestData → Bytes
unfolding write_octet_string write_constructed
encode_compare_request compare = write_constructed [] ber_compare_request (
    write_constructed (write_octets [] compare.dn) ber_sequence
      (write_octets (write_octets [] compare.attribute) compare.value))

unfoldable pub decode_compare_request : Read CompareRequestData
unfolding read_octet_string read_constructed
decode_compare_request = do
  dn ← read_octets
  (attribute, value) ←
      over ber_sequence (do attribute ← read_octets; value ← read_octets; pure (attribute, value))
  check_ok
  pure (record { dn = dn; attribute = attribute; value = value })

unfoldable pub encode_extended_request : Bytes → Bytes → Bytes
unfolding write_octet_string write_constructed
encode_extended_request oid value =
    let inner = write_octet_string [] ber_simple_auth oid in
    write_constructed [] ber_extended_request
      (if is_empty value then inner else write_octet_string inner ber_context1 value)

unfoldable pub decode_extended_request : Read (Bytes × Bytes)
unfolding read_octet_string peek_tag at_end
decode_extended_request = do
  oid ← read_octet_string ber_simple_auth
  value ← read_optional ber_context1
  pure (oid, value)
