-- ===== src/Filter/Wire/Form.antt =====
-- protocol/filter.cpp: what comes back of a filter that is encoded and decoded.
use simple_ldapd.Prelude.{◌≡◌, sym, ◌∙◌, List, [], ◌∷◌, ◌++◌, append_assoc, append-nil}
use simple_ldapd.Ber.Tags.{
  ber_filter_and, ber_filter_or, ber_filter_not, ber_filter_equality, ber_filter_substrings,
  ber_filter_present,
}
use simple_ldapd.Ber.{BerWriter, write_octet_string}
use simple_ldapd.Ber.Element.{write_octet_string-append, write_constructed-append}
use simple_ldapd.Filter.{
  FilterType, FilterNode, FilterNodes, node, nil, cons, and_node, or_node, not_node, present_node,
  equality_node, substring_node,
}
use simple_ldapd.Filter.Wire.{object_class, encode_node, encode_nodes, encode_front, nodes}

-- The fields that the type of a node does not read are lost, and the two constant filters become a
-- test for `objectClass`.
unfoldable mutual
  pub wire_form : FilterNode → FilterNode
  wire_form (node FilterType.and _ _ children _ _ _) = and_node (nodes (wire_forms children))
  wire_form (node FilterType.or _ _ children _ _ _) = or_node (nodes (wire_forms children))
  wire_form (node FilterType.not _ _ nil _ _ _) = not_node nil
  wire_form (node FilterType.not _ _ (cons child children) _ _ _) =
      not_node (cons (wire_form child) nil)
  wire_form (node FilterType.present attribute _ _ _ _ _) = present_node attribute
  wire_form (node FilterType.equality attribute value _ _ _ _) = equality_node attribute value
  wire_form (node FilterType.substring attribute _ _ initial any final) =
      substring_node attribute initial any final
  wire_form (node FilterType.true_filter _ _ _ _ _ _) = present_node object_class
  wire_form (node FilterType.false_filter _ _ _ _ _ _) =
      not_node (cons (present_node object_class) nil)

  pub wire_forms : FilterNodes → List FilterNode
  wire_forms nil = []
  wire_forms (cons child children) = wire_form child ∷ wire_forms children

-- Every negation has one child.
unfoldable mutual
  pub IsWritable : FilterNode → Type 0
  IsWritable (node FilterType.and _ _ children _ _ _) = AllWritable children
  IsWritable (node FilterType.or _ _ children _ _ _) = AllWritable children
  IsWritable (node FilterType.not _ _ nil _ _ _) = ⊥
  IsWritable (node FilterType.not _ _ (cons child nil) _ _ _) = IsWritable child
  IsWritable (node FilterType.not _ _ (cons child (cons _ _)) _ _ _) = ⊥
  IsWritable (node FilterType.present _ _ _ _ _ _) = Unit
  IsWritable (node FilterType.equality _ _ _ _ _ _) = Unit
  IsWritable (node FilterType.substring _ _ _ _ _ _) = Unit
  IsWritable (node FilterType.true_filter _ _ _ _ _ _) = Unit
  IsWritable (node FilterType.false_filter _ _ _ _ _ _) = Unit

  pub AllWritable : FilterNodes → Type 0
  AllWritable nil = Unit
  AllWritable (cons child children) = IsWritable child × AllWritable children

pub encode_node-append : (w : BerWriter) (n : FilterNode) → encode_node w n ≡ w ++ encode_node [] n
unfolding encode_node
encode_node-append w (node FilterType.and _ _ children _ _ _) =
    write_constructed-append w ber_filter_and (encode_nodes [] children)
encode_node-append w (node FilterType.or _ _ children _ _ _) =
    write_constructed-append w ber_filter_or (encode_nodes [] children)
encode_node-append w (node FilterType.not _ _ children _ _ _) =
    write_constructed-append w ber_filter_not (encode_front children)
encode_node-append w (node FilterType.present attribute _ _ _ _ _) =
    write_octet_string-append w ber_filter_present attribute
encode_node-append w (node FilterType.equality attribute value _ _ _ _) =
    write_constructed-append w ber_filter_equality _
encode_node-append w (node FilterType.substring attribute _ _ initial any final) =
    write_constructed-append w ber_filter_substrings _
encode_node-append w (node FilterType.true_filter _ _ _ _ _ _) =
    write_octet_string-append w ber_filter_present object_class
encode_node-append w (node FilterType.false_filter _ _ _ _ _ _) =
    write_constructed-append w ber_filter_not
      (write_octet_string [] ber_filter_present object_class)

pub encode_nodes-append :
    (w : BerWriter) (ns : FilterNodes) → encode_nodes w ns ≡ w ++ encode_nodes [] ns
unfolding encode_node
encode_nodes-append w nil = sym (append-nil w)
encode_nodes-append w (cons child children) =
    let first = encode_node-append w child in
    let later = encode_nodes-append (encode_node w child) children in
    let alone = encode_nodes-append (encode_node [] child) children in
    later ∙ rw (first, alone) (append_assoc w (encode_node [] child) (encode_nodes [] children))
