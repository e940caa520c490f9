-- ===== src/Message/Controls.antt =====
-- protocol/message.cpp: controls, and the values of the paged-results control and of the request to
-- change a password.
use simple_ldapd.Prelude.{
  ℕ, ◌%◌, ◌^◌, Bool, true, false, not, ◌&&◌, Option, none, some, List, [], ◌∷◌, ◌==◌, if◌then◌else◌,
}
use simple_ldapd.Prelude.Bytes.{Bytes, is_empty}
use simple_ldapd.Ber.Tags.{
  ber_sequence, ber_boolean, ber_controls, ber_simple_auth, ber_context1, ber_context2,
}
use simple_ldapd.Ber.{
  BerWriter, write_octet_string, write_octets, write_integer, int64_of_int, write_boolean,
  write_constructed,
}
use simple_ldapd.Ber.Reader.{
  reader, Read, ◌>>=◌, ◌>>◌, pure, at_end, peek_tag, read_constructed, read_octet_string,
  read_octets, read_integer, read_boolean, skip, check_ok, over, inside,
}
use simple_ldapd.Ber.Loop.{read_list}
use simple_ldapd.Message.{LdapControl, PasswordModifyRequest, paged_results_oid}

unfoldable pub write_control : BerWriter → LdapControl → BerWriter
unfolding write_octet_string write_boolean write_constructed
write_control w control =
    let named = write_octets [] control.oid in
    let critical = if control.critical then write_boolean named true else named in
    write_constructed w ber_sequence
      (if is_empty control.value then critical else write_octets critical control.value)

unfoldable pub write_controls : BerWriter → List LdapControl → BerWriter
unfolding write_control
write_controls w [] = w
write_controls w (control ∷ controls) = write_controls (write_control w control) controls

unfoldable pub encode_controls : List LdapControl → Bytes
unfolding write_controls write_constructed
encode_controls controls = write_constructed [] ber_controls (write_controls [] controls)

unfoldable pub read_control : Read LdapControl
unfolding read_constructed read_octet_string read_boolean at_end peek_tag
read_control = over ber_sequence (do
  oid ← read_octets
  critical ←
      (λ r. if not (at_end r) && peek_tag r == ber_boolean then read_boolean r else pure false r)
  value ← (λ r. if at_end r then pure [] r else read_octets r)
  pure (record { oid = oid; critical = critical; value = value }))

unfoldable pub decode_controls : Read (List LdapControl)
unfolding read_control read_list
decode_controls = do controls ← read_list read_control; check_ok; pure controls

unfoldable pub encode_paged_results_value : ℕ → Bytes → Bytes
unfolding write_integer write_octet_string write_constructed
encode_paged_results_value size cookie =
    write_constructed [] ber_sequence (write_octets (write_integer [] (int64_of_int size)) cookie)

unfoldable pub decode_paged_results_value : Bytes → Option (ℕ × Bytes)
unfolding read_constructed read_integer read_octet_string
decode_paged_results_value value =
    ((do
      (parsed, cookie) ←
          over ber_sequence (do parsed ← read_integer; cookie ← read_octets; pure (parsed, cookie))
      check_ok
      pure (parsed % 2 ^ 32, cookie))
      (reader value)).0

unfoldable pub make_paged_results_control : ℕ → Bytes → Bool → LdapControl
unfolding encode_paged_results_value
make_paged_results_control size cookie critical = record {
  oid = paged_results_oid;
  critical = critical;
  value = encode_paged_results_value size cookie;
}

abbrev write_if_set : BerWriter → ℕ → Option Bytes → BerWriter
write_if_set w tag none = w
write_if_set w tag (some value) = write_octet_string w tag value

unfoldable pub encode_password_modify_value : PasswordModifyRequest → Bytes
unfolding write_octet_string write_constructed
encode_password_modify_value request =
    let identity =
      if is_empty request.user_identity
      then []
      else write_octet_string [] ber_simple_auth request.user_identity in
    write_constructed [] ber_sequence (
      write_if_set (write_if_set identity ber_context1 request.old_password) ber_context2
        request.new_password)

pub data PasswordField : Type 0 where
  identity_field old_field new_field : Bytes → PasswordField
  skipped_field : PasswordField

unfoldable pub read_password_field : Read PasswordField
unfolding peek_tag read_octet_string skip
read_password_field r =
    let tag = peek_tag r in
    if tag == ber_simple_auth
    then (read_octet_string ber_simple_auth >>= λ field. pure (identity_field field)) r
    else if tag == ber_context1
    then (read_octet_string ber_context1 >>= λ field. pure (old_field field)) r
    else if tag == ber_context2
    then (read_octet_string ber_context2 >>= λ field. pure (new_field field)) r
    else (skip >>= λ _. pure skipped_field) r

-- the assignments of the loop, which its tests do not read
unfoldable pub put_fields : PasswordModifyRequest → List PasswordField → PasswordModifyRequest
put_fields request [] = request
put_fields request (identity_field field ∷ fields) =
    put_fields (record request { user_identity = field }) fields
put_fields request (old_field field ∷ fields) =
    put_fields (record request { old_password = some field }) fields
put_fields request (new_field field ∷ fields) =
    put_fields (record request { new_password = some field }) fields
put_fields request (skipped_field ∷ fields) = put_fields request fields

-- `request = {}`
abbrev pub no_request : PasswordModifyRequest
no_request = record { user_identity = []; old_password = none; new_password = none }

unfoldable pub decode_password_modify_value : Bytes → Option PasswordModifyRequest
unfolding read_constructed read_list read_password_field put_fields
decode_password_modify_value value =
    if is_empty value
    then some no_request
    else ((do
      fields ← inside ber_sequence (read_list read_password_field)
      pure (put_fields no_request fields))
        (reader value)).0
