-- ===== src/Filter/Wire/Nodes.antt =====
-- protocol/filter.cpp: each type of node is read back from its element.
use simple_ldapd.Prelude.{
  leb, ℕ, suc, ◌^◌, ◌<◌, ◌≡◌, refl, sym, ap, ◌∙◌, false, some, List, [], ◌∷◌, ◌++◌, arith, length,
  append-nil, length-append,
}
use simple_ldapd.Prelude.Bytes.{Bytes}
use simple_ldapd.Ber.Tags.{
  ber_sequence, ber_octet_string, ber_filter_and, ber_filter_or, ber_filter_not,
  ber_filter_equality, ber_filter_substrings, ber_filter_present,
}
use simple_ldapd.Ber.{write_octet_string, write_constructed}
use simple_ldapd.Ber.Reader.{reader, at_end, read_octet_string, inside}
use simple_ldapd.Ber.Loop.{read_all, read_list}
use simple_ldapd.Ber.Element.{element, write_octet_string-element, write_constructed-element}
use simple_ldapd.Ber.RoundTrip.{
  read_octet_string-element, peek_tag-element, length-element, inside-element,
}
use simple_ldapd.Filter.{
  FilterNode, nil, cons, and_node, or_node, not_node, present_node, equality_node, substring_node,
}
use simple_ldapd.Filter.Wire.{
  substring_parts, decode_part, nodes, decode_node, equality_body, substring_body,
}
use simple_ldapd.Filter.Wire.Parts.{parts_of, put_parts-parts_of, read_list-parts}

-- An element as the writer writes it into an empty buffer.
pub octets_alone : (tag : ℕ) (v : Bytes) → write_octet_string [] tag v ≡ element tag v
octets_alone tag v = write_octet_string-element [] tag v

pub constructed_alone : (tag : ℕ) (c : Bytes) → write_constructed [] tag c ≡ element tag c
constructed_alone tag c = write_constructed-element [] tag c

-- A present test of either kind of name.
pub present_back :
    (fuel : ℕ) (attribute rest : Bytes)
    → length (element ber_filter_present attribute) < 2 ^ 32
    → decode_node (suc fuel) (reader (element ber_filter_present attribute ++ rest))
      ≡ (some (present_node attribute), reader rest)
unfolding decode_node
present_back fuel attribute rest h =
    let inner = length-element ber_filter_present attribute in
    rw
      (
        peek_tag-element ber_filter_present attribute rest,
        read_octet_string-element ber_filter_present attribute rest (omega arith),
      )
      refl

pub equality_back :
    (fuel : ℕ) (attribute value rest : Bytes)
    → length (
        element ber_filter_equality
          (element ber_octet_string attribute ++ element ber_octet_string value))
      < 2 ^ 32
    → decode_node (suc fuel) (
        reader (
          element ber_filter_equality
            (element ber_octet_string attribute ++ element ber_octet_string value)
          ++ rest))
      ≡ (some (equality_node attribute value), reader rest)
unfolding decode_node
equality_back fuel attribute value rest h =
    let a = element ber_octet_string attribute in
    let b = element ber_octet_string value in
    let outer = length-element ber_filter_equality (a ++ b) in
    let size = length-append a b in
    let one = length-element ber_octet_string attribute in
    let two = length-element ber_octet_string value in
    let first = read_octet_string-element ber_octet_string attribute b (omega arith) in
    let second : read_octet_string ber_octet_string (reader b) ≡ (some value, reader []) =
      ap (λ t. read_octet_string ber_octet_string (reader t)) (sym (append-nil b))
      ∙ read_octet_string-element ber_octet_string value [] (omega arith) in
    rw (peek_tag-element ber_filter_equality (a ++ b) rest) (
      inside-element ber_filter_equality equality_body (a ++ b) rest []
        (equality_node attribute value) (omega arith) (rw (first, second) refl))

pub substring_back :
    (fuel : ℕ) (attribute initial : Bytes) (any : List Bytes) (final rest contents : Bytes)
    → contents
      ≡ element ber_octet_string attribute
        ++ element ber_sequence (substring_parts initial any final)
    → length (element ber_filter_substrings contents) < 2 ^ 32
    → decode_node (suc fuel) (reader (element ber_filter_substrings contents ++ rest))
      ≡ (some (substring_node attribute initial any final), reader rest)
unfolding decode_node
substring_back fuel attribute initial any final rest contents e h =
    let a = element ber_octet_string attribute in
    let parts = substring_parts initial any final in
    let b = element ber_sequence parts in
    let outer = length-element ber_filter_substrings contents in
    let size = length-append a b in
    let same = ap length e in
    let one = length-element ber_octet_string attribute in
    let two = length-element ber_sequence parts in
    let first = read_octet_string-element ber_octet_string attribute b (omega arith) in
    let loop = read_list-parts initial any final (omega arith) in
    let second : inside ber_sequence (read_list decode_part) (reader b)
        ≡ (some (parts_of initial any final), reader []) =
      ap (λ t. inside ber_sequence (read_list decode_part) (reader t)) (sym (append-nil b))
      ∙ inside-element ber_sequence (read_list decode_part) parts [] [] (parts_of initial any final)
          (omega arith) loop in
    rw (peek_tag-element ber_filter_substrings contents rest) (
      inside-element ber_filter_substrings substring_body contents rest []
        (substring_node attribute initial any final) (omega arith)
        (rw (e, first, second, put_parts-parts_of initial any final) refl))

module _ (fuel : ℕ) where
  pub and_back :
      (children : List FilterNode) (contents rest : Bytes)
      → length contents < 2 ^ 32
      → read_all (suc (length contents)) (decode_node fuel) (reader contents)
        ≡ (some children, reader [])
      → decode_node (suc fuel) (reader (element ber_filter_and contents ++ rest))
        ≡ (some (and_node (nodes children)), reader rest)
  unfolding decode_node read_list
  and_back children contents rest h e =
      rw
        (
          peek_tag-element ber_filter_and contents rest,
          inside-element ber_filter_and (read_list (decode_node fuel)) contents rest [] children h
              e,
        )
        refl

  pub or_back :
      (children : List FilterNode) (contents rest : Bytes)
      → length contents < 2 ^ 32
      → read_all (suc (length contents)) (decode_node fuel) (reader contents)
        ≡ (some children, reader [])
      → decode_node (suc fuel) (reader (element ber_filter_or contents ++ rest))
        ≡ (some (or_node (nodes children)), reader rest)
  unfolding decode_node read_list
  or_back children contents rest h e =
      rw
        (
          peek_tag-element ber_filter_or contents rest,
          inside-element ber_filter_or (read_list (decode_node fuel)) contents rest [] children h e,
        )
        refl

  pub not_back :
      (child : FilterNode) (contents rest : Bytes)
      → length contents < 2 ^ 32
      → decode_node fuel (reader contents) ≡ (some child, reader [])
      → decode_node (suc fuel) (reader (element ber_filter_not contents ++ rest))
        ≡ (some (not_node (cons child nil)), reader rest)
  unfolding decode_node
  not_back child contents rest h e =
      rw
        (
          peek_tag-element ber_filter_not contents rest,
          inside-element ber_filter_not (decode_node fuel) contents rest [] child h e,
        )
        refl

  pub list_end :
      (rounds : ℕ) → read_all (suc rounds) (decode_node fuel) (reader []) ≡ (some [], reader [])
  unfolding read_all at_end
  list_end rounds = refl

  -- The loop over the children, where each is read back.
  pub list_step :
      (rounds : ℕ) (child : FilterNode) (children : List FilterNode) (front behind : Bytes)
      → 0 < length front
      → decode_node fuel (reader (front ++ behind)) ≡ (some child, reader behind)
      → read_all rounds (decode_node fuel) (reader behind) ≡ (some children, reader [])
      → read_all (suc rounds) (decode_node fuel) (reader (front ++ behind))
        ≡ (some (child ∷ children), reader [])
  unfolding read_all
  list_step rounds child children front behind ne one later =
      let size = length-append front behind in
      let more : leb (length (front ++ behind)) 0 ≡ false = ground arith in
      rw (more, one, later) refl
