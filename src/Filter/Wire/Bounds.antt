-- ===== src/Filter/Wire/Bounds.antt =====
-- protocol/filter.cpp: sizes of what the encoder writes.
use simple_ldapd.Prelude.{ℕ, suc, ◌≤◌, ◌<◌, ◌≡◌, ap, ◌∙◌, some, [], ◌++◌, arith, length}
use simple_ldapd.Prelude.Bytes.{Bytes}
use simple_ldapd.Ber.Tags.{
  ber_sequence, ber_octet_string, ber_filter_and, ber_filter_or, ber_filter_not,
  ber_filter_equality, ber_filter_substrings, ber_filter_present,
}
use simple_ldapd.Ber.{write_octet_string, write_constructed}
use simple_ldapd.Ber.Reader.{reader}
use simple_ldapd.Ber.Element.{element, write_octet_string-element, write_constructed-element}
use simple_ldapd.Ber.RoundTrip.{length-element}
use simple_ldapd.Filter.{FilterType, FilterNode, node}
use simple_ldapd.Filter.Wire.{object_class, encode_node, decode_node}
use simple_ldapd.Filter.Wire.Nodes.{octets_alone, constructed_alone}

pub contents_lt :
    (tag : ℕ) (c : Bytes) (n : ℕ) → length (write_constructed [] tag c) < n → length c < n
contents_lt tag c n h =
    let same = ap length (constructed_alone tag c) in
    let inner = length-element tag c in omega arith

pub contents_le :
    (tag : ℕ) (c : Bytes) (n : ℕ) → length (write_constructed [] tag c) ≤ suc n → length c ≤ n
contents_le tag c n h =
    let same = ap length (constructed_alone tag c) in
    let inner = length-element tag c in omega arith

pub write_constructed-pos : (tag : ℕ) (c : Bytes) → 0 < length (write_constructed [] tag c)
write_constructed-pos tag c =
    let same = ap length (constructed_alone tag c) in
    let inner = length-element tag c in omega arith

pub write_octet_string-pos : (tag : ℕ) (v : Bytes) → 0 < length (write_octet_string [] tag v)
write_octet_string-pos tag v =
    let same = ap length (octets_alone tag v) in let inner = length-element tag v in omega arith

pub encode_node-pos : (n : FilterNode) → 0 < length (encode_node [] n)
unfolding encode_node
encode_node-pos (node FilterType.and _ _ children _ _ _) = write_constructed-pos ber_filter_and _
encode_node-pos (node FilterType.or _ _ children _ _ _) = write_constructed-pos ber_filter_or _
encode_node-pos (node FilterType.not _ _ children _ _ _) = write_constructed-pos ber_filter_not _
encode_node-pos (node FilterType.present a _ _ _ _ _) = write_octet_string-pos ber_filter_present a
encode_node-pos (node FilterType.equality _ _ _ _ _ _) = write_constructed-pos ber_filter_equality _
encode_node-pos (node FilterType.substring _ _ _ _ _ _) =
    write_constructed-pos ber_filter_substrings _
encode_node-pos (node FilterType.true_filter _ _ _ _ _ _) =
    write_octet_string-pos ber_filter_present object_class
encode_node-pos (node FilterType.false_filter _ _ _ _ _ _) =
    write_constructed-pos ber_filter_not (write_octet_string [] ber_filter_present object_class)

-- The step from what the writer writes to an element.
pub back_from :
    (fuel : ℕ) (written contents rest : Bytes) (n : FilterNode)
    → written ≡ contents
    → decode_node fuel (reader (contents ++ rest)) ≡ (some n, reader rest)
    → decode_node fuel (reader (written ++ rest)) ≡ (some n, reader rest)
back_from fuel written contents rest n e h = ap (λ t. decode_node fuel (reader (t ++ rest))) e ∙ h

pub octet_element :
    (tag : ℕ) (v : Bytes) (n : ℕ)
    → length (write_octet_string [] tag v) < n
    → length (element tag v) < n
octet_element tag v n h = let same = ap length (octets_alone tag v) in omega arith

pub constructed_element :
    (tag : ℕ) (c c' : Bytes) (n : ℕ)
    → c ≡ c'
    → length (write_constructed [] tag c) < n
    → length (element tag c') < n
constructed_element tag c c' n e h =
    let same = ap length (constructed_alone tag c) in
    let also = ap (λ t. length (element tag t)) e in omega arith

pub equality_contents :
    (attribute value : Bytes)
    → write_octet_string (write_octet_string [] ber_octet_string attribute) ber_octet_string value
      ≡ element ber_octet_string attribute ++ element ber_octet_string value
equality_contents attribute value =
    rw (octets_alone ber_octet_string attribute)
      (write_octet_string-element (element ber_octet_string attribute) ber_octet_string value)

pub substring_contents :
    (attribute parts : Bytes)
    → write_constructed (write_octet_string [] ber_octet_string attribute) ber_sequence parts
      ≡ element ber_octet_string attribute ++ element ber_sequence parts
substring_contents attribute parts =
    rw (octets_alone ber_octet_string attribute)
      (write_constructed-element (element ber_octet_string attribute) ber_sequence parts)
