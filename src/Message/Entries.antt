-- ===== src/Message/Entries.antt =====
-- protocol/message.cpp: lists of attributes, in entries and in requests to add one.
pub mod RoundTrip
use simple_ldapd.Prelude.{ℕ, Option, none, some, List, [], ◌∷◌, map, ◌++◌}
use simple_ldapd.Prelude.Bytes.{Bytes}
use simple_ldapd.OrderedMap.{OrderedMap, assign}
use simple_ldapd.Directory.{DirectoryEntry}
use simple_ldapd.Ber.Tags.{ber_sequence, ber_set, ber_search_result_entry, ber_add_request}
use simple_ldapd.Ber.{BerWriter, write_octet_string, write_octets, write_constructed}
use simple_ldapd.Ber.Reader.{
  Read, continue, ◌>>=◌, ◌>>◌, pure, read_constructed, read_octet_string, read_octets, check_ok,
  within, over, inside,
}
use simple_ldapd.Ber.Loop.{read_list}
use simple_ldapd.Message.{PartialAttribute, SearchEntryData, AddRequestData}

-- the loop over the values
unfoldable pub write_values : BerWriter → List Bytes → BerWriter
unfolding write_octet_string
write_values w [] = w
write_values w (value ∷ values) = write_values (write_octets w value) values

-- a type with its values, which a modification also has
abbrev pub write_partial : Bytes → List Bytes → BerWriter
write_partial type values =
    write_constructed (write_octets [] type) ber_set (write_values [] values)

unfoldable pub write_attributes : BerWriter → List PartialAttribute → BerWriter
unfolding write_octet_string write_constructed write_values
write_attributes w [] = w
write_attributes w (attribute ∷ attributes) =
    write_attributes
      (write_constructed w ber_sequence (write_partial attribute.type attribute.values)) attributes

unfoldable pub encode_attributes : List PartialAttribute → Bytes
unfolding write_attributes
encode_attributes attributes = write_attributes [] attributes

abbrev pub partial_body : Read PartialAttribute
partial_body = do
  type ← read_octets
  values ← over ber_set (read_list read_octets)
  pure (record { type = type; values = values })

unfoldable pub read_partial : Read PartialAttribute
unfolding read_constructed read_octet_string read_list
read_partial = over ber_sequence partial_body

unfoldable pub decode_attributes : Read (List PartialAttribute)
unfolding read_partial read_list
decode_attributes = do attributes ← read_list read_partial; check_ok; pure attributes

-- The two requests have the same parts.
abbrev pub write_entry : Bytes → List PartialAttribute → BerWriter
write_entry dn attributes =
    write_constructed (write_octets [] dn) ber_sequence (encode_attributes attributes)

unfoldable pub encode_search_entry : SearchEntryData → Bytes
unfolding write_octet_string write_constructed encode_attributes
encode_search_entry entry =
    write_constructed [] ber_search_result_entry (write_entry entry.dn entry.attributes)

unfoldable pub decode_search_entry : Read SearchEntryData
unfolding read_constructed read_octet_string decode_attributes
decode_search_entry = do
  dn ← read_octets
  attributes ← over ber_sequence decode_attributes
  pure (record { dn = dn; attributes = attributes })

unfoldable pub encode_add_request : AddRequestData → Bytes
unfolding write_octet_string write_constructed encode_attributes
encode_add_request add = write_constructed [] ber_add_request (write_entry add.dn add.attributes)

unfoldable pub decode_add_request : Read AddRequestData
unfolding read_constructed read_octet_string decode_attributes
decode_add_request = do
  dn ← read_octets
  attributes ← over ber_sequence decode_attributes
  pure (record { dn = dn; attributes = attributes })

-- the loop of `toDirectoryEntry`
unfoldable pub put_attributes :
    OrderedMap (List Bytes) → List PartialAttribute → OrderedMap (List Bytes)
unfolding assign
put_attributes m [] = m
put_attributes m (attribute ∷ attributes) =
    put_attributes (assign attribute.type attribute.values m) attributes

unfoldable pub to_directory_entry : AddRequestData → DirectoryEntry
unfolding put_attributes
to_directory_entry add = record { dn = add.dn; attributes = put_attributes [] add.attributes }

unfoldable pub listed_attributes : OrderedMap (List Bytes) → List PartialAttribute
listed_attributes [] = []
listed_attributes ((type, values) ∷ m) =
    record { type = type; values = values } ∷ listed_attributes m

unfoldable pub to_add_request : DirectoryEntry → AddRequestData
unfolding listed_attributes
to_add_request entry = record { dn = entry.dn; attributes = listed_attributes entry.attributes }
