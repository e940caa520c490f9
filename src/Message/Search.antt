-- ===== src/Message/Search.antt =====
-- protocol/message.cpp: the request to search.
use simple_ldapd.Prelude.{ℕ, ◌%◌, ◌^◌, [], ◌==◌, if◌then◌else◌}
use simple_ldapd.Prelude.Bytes.{Bytes}
use simple_ldapd.Directory.{SearchScope, base, one_level, subtree, unnamed_scope}
use simple_ldapd.Ber.Tags.{ber_sequence, ber_search_request}
use simple_ldapd.Ber.{
  write_bytes, write_octet_string, write_octets, write_integer, int64_of_int, write_enumerated,
  write_boolean, write_constructed,
}
use simple_ldapd.Ber.Reader.{
  Read, ◌>>=◌, pure, read_constructed, read_octet_string, read_octets, read_integer,
  read_enumerated, read_boolean, inside,
}
use simple_ldapd.Ber.Loop.{read_list}
use simple_ldapd.Filter.Wire.{encode_ber, decode_ber}
use simple_ldapd.Message.{SearchRequestData}
use simple_ldapd.Message.Entries.{write_values}

-- `static_cast<int>(scope)` and `static_cast<SearchScope>(scope)`
unfoldable pub code_of_scope : SearchScope → ℕ
code_of_scope base = 0
code_of_scope one_level = 1
code_of_scope subtree = 2
code_of_scope (unnamed_scope code) = code

unfoldable pub scope_of_code : ℕ → SearchScope
scope_of_code code =
    if code == 0
    then base
    else if code == 1
    then one_level
    else if code == 2
    then subtree
    else unnamed_scope code

unfoldable pub encode_search_request : SearchRequestData → Bytes
unfolding write_bytes write_octet_string write_integer write_enumerated write_boolean
    write_constructed encode_ber write_values code_of_scope
encode_search_request search =
    let names = write_octets [] search.base_dn in
    let scopes = write_enumerated (write_enumerated names (code_of_scope search.scope)) 0 in
    let limits =
      write_integer (write_integer scopes (int64_of_int search.size_limit))
        (int64_of_int search.time_limit) in
    let filtered =
      write_bytes (write_boolean limits search.types_only) (encode_ber search.filter) in
    write_constructed [] ber_search_request
      (write_constructed filtered ber_sequence (write_values [] search.attributes))

unfoldable pub decode_search_request : Read SearchRequestData
unfolding read_octet_string read_integer read_enumerated read_boolean read_constructed decode_ber
    read_list scope_of_code
decode_search_request = do
  base_dn ← read_octets
  scope ← read_enumerated
  deref ← read_enumerated
  size_limit ← read_integer
  time_limit ← read_integer
  types_only ← read_boolean
  filter ← decode_ber
  attributes ← inside ber_sequence (read_list read_octets)
  pure (record {
    base_dn = base_dn;
    scope = scope_of_code scope;
    size_limit = size_limit % 2 ^ 32;
    time_limit = time_limit % 2 ^ 32;
    types_only = types_only;
    filter = filter;
    attributes = attributes;
  })
