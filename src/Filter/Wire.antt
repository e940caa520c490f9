-- ===== src/Filter/Wire.antt =====
-- protocol/filter.cpp: a filter to its encoding and back (`encodeNode`, `decodeNode`, `encodeBer`,
-- `decodeBer`).
pub mod Form
mod Parts
pub mod Meaning
mod Nodes
mod Bounds
pub mod RoundTrip
use simple_ldapd.Prelude.{
  Bool, List, Option, false, if◌then◌else◌, length, none, not, some, suc, true, zero, ℕ, [], ◌&&◌,
  ◌++◌, ◌+◌, ◌==◌, ◌||◌, ◌∷◌,
}
use simple_ldapd.Prelude.Bytes.{Bytes, codes, is_empty}
use simple_ldapd.Ber.Tags.{
  ber_sequence, ber_octet_string, ber_filter_and, ber_filter_or, ber_filter_not,
  ber_filter_equality, ber_filter_substrings, ber_filter_present, ber_substring_initial,
  ber_substring_any, ber_substring_final,
}
use simple_ldapd.Ber.{BerWriter, write_octet_string, write_constructed}
use simple_ldapd.Ber.Reader.{
  BerReader, Read, continue, ◌>>=◌, ◌>>◌, pure, fail, peek_tag, read_constructed, read_octet_string,
  skip, inside, check_ok,
}
use simple_ldapd.Ber.Loop.{read_list}
use simple_ldapd.Filter.{
  FilterType, FilterNode, FilterNodes, node, nil, cons, and_node, or_node, not_node, present_node,
  equality_node, substring_node, SearchFilter,
}

-- a part of a substring filter that is written where it is not empty
abbrev pub write_part : BerWriter → ℕ → Bytes → BerWriter
write_part w tag part = if is_empty part then w else write_octet_string w tag part

unfoldable pub write_any : BerWriter → List Bytes → BerWriter
unfolding write_octet_string
write_any w [] = w
write_any w (part ∷ any) = write_any (write_octet_string w ber_substring_any part) any

abbrev pub substring_parts : Bytes → List Bytes → Bytes → BerWriter
substring_parts initial any final =
    write_part (write_any (write_part [] ber_substring_initial initial) any) ber_substring_final
      final

-- the attribute `objectClass`, which every entry should have
abbrev pub object_class : Bytes
object_class = codes "objectClass"

unfoldable mutual
  unfolding write_octet_string write_constructed write_any

  pub encode_node : BerWriter → FilterNode → BerWriter
  encode_node w (node FilterType.and _ _ children _ _ _) =
      write_constructed w ber_filter_and (encode_nodes [] children)
  encode_node w (node FilterType.or _ _ children _ _ _) =
      write_constructed w ber_filter_or (encode_nodes [] children)
  encode_node w (node FilterType.not _ _ children _ _ _) =
      write_constructed w ber_filter_not (encode_front children)
  encode_node w (node FilterType.present attribute _ _ _ _ _) =
      write_octet_string w ber_filter_present attribute
  encode_node w (node FilterType.equality attribute value _ _ _ _) =
      write_constructed w ber_filter_equality (
        write_octet_string (write_octet_string [] ber_octet_string attribute) ber_octet_string
          value)
  encode_node w (node FilterType.substring attribute _ _ initial any final) =
      write_constructed w ber_filter_substrings (
        write_constructed (write_octet_string [] ber_octet_string attribute) ber_sequence
          (substring_parts initial any final))
  encode_node w (node FilterType.true_filter _ _ _ _ _ _) =
      write_octet_string w ber_filter_present object_class
  encode_node w (node FilterType.false_filter _ _ _ _ _ _) =
      write_constructed w ber_filter_not (write_octet_string [] ber_filter_present object_class)

  -- the loop over the children
  pub encode_nodes : BerWriter → FilterNodes → BerWriter
  encode_nodes w nil = w
  encode_nodes w (cons child children) = encode_nodes (encode_node w child) children

  -- `children.front()`, where there is one
  pub encode_front : FilterNodes → BerWriter
  encode_front nil = []
  encode_front (cons child children) = encode_node [] child

-- `SearchFilter::encodeBer`
unfoldable pub encode_ber : SearchFilter → Bytes
unfolding encode_node
encode_ber filter =
    if filter.valid then encode_node [] filter.root else encode_node [] (present_node object_class)

-- a component of the loop over the parts
pub data Part : Type 0 where
  initial_part any_part final_part : Bytes → Part
  skipped : Part

unfoldable pub decode_part : Read Part
unfolding peek_tag read_octet_string skip
decode_part r =
    let tag = peek_tag r in
    if tag == ber_substring_initial
    then (read_octet_string ber_substring_initial >>= λ component. pure (initial_part component)) r
    else if tag == ber_substring_any
    then (read_octet_string ber_substring_any >>= λ component. pure (any_part component)) r
    else if tag == ber_substring_final
    then (read_octet_string ber_substring_final >>= λ component. pure (final_part component)) r
    else (skip >>= λ _. pure skipped) r

-- The assignments of the loop, after it: no test of the loop reads what it assigns. A later initial
-- or final part takes the place of an earlier one.
unfoldable pub put_parts : Bytes → List Bytes → Bytes → List Part → Bytes × List Bytes × Bytes
put_parts initial any final [] = (initial, any, final)
put_parts initial any final (initial_part component ∷ parts) = put_parts component any final parts
put_parts initial any final (any_part component ∷ parts) =
    put_parts initial (any ++ (component ∷ [])) final parts
put_parts initial any final (final_part component ∷ parts) = put_parts initial any component parts
put_parts initial any final (skipped ∷ parts) = put_parts initial any final parts

abbrev pub nodes : List FilterNode → FilterNodes
nodes [] = nil
nodes (child ∷ children) = cons child (nodes children)

abbrev pub equality_body : Read FilterNode
equality_body = do
  attribute ← read_octet_string ber_octet_string
  value ← read_octet_string ber_octet_string
  pure (equality_node attribute value)

abbrev pub substring_body : Read FilterNode
substring_body = do
  attribute ← read_octet_string ber_octet_string
  parts ← inside ber_sequence (read_list decode_part)
  let (initial, any, final) = put_parts [] [] [] parts
  pure (substring_node attribute initial any final)

-- The levels of `decodeNode`, at most `fuel` of them.
unfoldable pub decode_node : ℕ → Read FilterNode
unfolding peek_tag read_constructed read_octet_string read_list decode_part put_parts
decode_node zero r = fail r
decode_node (suc fuel) r =
    let tag = peek_tag r in
    let children = inside tag (read_list (decode_node fuel)) in
    let child = inside ber_filter_not (decode_node fuel) in
    if tag == ber_filter_and
    then (children >>= λ list. pure (and_node (nodes list))) r
    else if tag == ber_filter_or
    then (children >>= λ list. pure (or_node (nodes list))) r
    else if tag == ber_filter_not
    then (child >>= λ one. pure (not_node (cons one nil))) r
    else if tag == ber_filter_present
    then (read_octet_string ber_filter_present >>= λ attribute. pure (present_node attribute)) r
    else if tag == ber_filter_equality
    then inside ber_filter_equality equality_body r
    else if tag == ber_filter_substrings
    then inside ber_filter_substrings substring_body r
    else fail r

-- `SearchFilter::decodeBer`, without the filter that it leaves where it fails
unfoldable pub decode_ber : Read SearchFilter
unfolding decode_node
decode_ber r =
    (do
      root ← decode_node (suc (length r.rest))
      check_ok
      pure (record { text = codes "(decoded)"; valid = true; root = root }))
      r
