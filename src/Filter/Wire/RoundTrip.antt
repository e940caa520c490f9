-- ===== src/Filter/Wire/RoundTrip.antt =====
-- protocol/filter.cpp: a filter is read back from its encoding.
use simple_ldapd.Prelude.{
  ℕ, zero, suc, ◌^◌, ◌≤◌, ◌<◌, ◌≡◌, refl, sym, ap, ◌∙◌, true, some, List, [], ◌++◌, arith, length,
  append-nil, length-append,
}
use simple_ldapd.Prelude.Bytes.{Bytes, codes}
use simple_ldapd.Directory.{DirectoryEntry, find_attribute}
use simple_ldapd.Filter.Match.{matches}
use simple_ldapd.Filter.Wire.Meaning.{wire_form-matches}
use simple_ldapd.Ber.Tags.{
  ber_filter_and, ber_filter_or, ber_filter_not, ber_filter_equality, ber_filter_substrings,
  ber_filter_present,
}
use simple_ldapd.Ber.{write_octet_string}
use simple_ldapd.Ber.Reader.{reader}
use simple_ldapd.Ber.Loop.{read_all}
use simple_ldapd.Ber.Element.{element}
use simple_ldapd.Filter.{
  FilterType, FilterNode, FilterNodes, node, nil, cons, present_node, SearchFilter,
}
use simple_ldapd.Filter.Wire.{
  substring_parts, object_class, encode_node, encode_nodes, decode_node, encode_ber, decode_ber,
}
use simple_ldapd.Filter.Wire.Form.{
  wire_form, wire_forms, IsWritable, AllWritable, encode_nodes-append,
}
use simple_ldapd.Filter.Wire.Nodes.{
  octets_alone, constructed_alone, present_back, equality_back, substring_back, and_back, or_back,
  not_back, list_step, list_end,
}
use simple_ldapd.Filter.Wire.Bounds.{
  contents_lt, contents_le, write_octet_string-pos, encode_node-pos, back_from, octet_element,
  constructed_element, equality_contents, substring_contents,
}

present_alone :
    (fuel : ℕ) (attribute : Bytes)
    → length (write_octet_string [] ber_filter_present attribute) < 2 ^ 32
    → length (write_octet_string [] ber_filter_present attribute) ≤ fuel
    → decode_node fuel (reader (write_octet_string [] ber_filter_present attribute))
      ≡ (some (present_node attribute), reader [])
present_alone zero attribute h k =
    absurd (let some_byte = write_octet_string-pos ber_filter_present attribute in omega arith)
present_alone (suc fuel) attribute h k =
    let v = element ber_filter_present attribute in
    ap (λ t. decode_node (suc fuel) (reader t))
      (octets_alone ber_filter_present attribute ∙ sym (append-nil v))
    ∙ present_back fuel attribute [] (octet_element ber_filter_present attribute (2 ^ 32) h)

mutual
  unfolding encode_node wire_form IsWritable

  node_back :
      (n : FilterNode) (fuel : ℕ) (rest : Bytes)
      → IsWritable n
      → length (encode_node [] n) < 2 ^ 32
      → length (encode_node [] n) ≤ fuel
      → decode_node fuel (reader (encode_node [] n ++ rest)) ≡ (some (wire_form n), reader rest)
  node_back n zero rest w h k = absurd (let some_byte = encode_node-pos n in omega arith)
  node_back (node FilterType.and _ _ children _ _ _) (suc fuel) rest w h k =
      let c = encode_nodes [] children in
      let size = contents_lt ber_filter_and c (2 ^ 32) h in
      let deep = contents_le ber_filter_and c fuel k in
      back_from (suc fuel) _ (element ber_filter_and c) rest _ (constructed_alone ber_filter_and c)
        (and_back fuel (wire_forms children) c rest size
          (nodes_back children fuel (suc (length c)) w size deep (omega arith)))
  node_back (node FilterType.or _ _ children _ _ _) (suc fuel) rest w h k =
      let c = encode_nodes [] children in
      let size = contents_lt ber_filter_or c (2 ^ 32) h in
      let deep = contents_le ber_filter_or c fuel k in
      back_from (suc fuel) _ (element ber_filter_or c) rest _ (constructed_alone ber_filter_or c) (
        or_back fuel (wire_forms children) c rest size
          (nodes_back children fuel (suc (length c)) w size deep (omega arith)))
  node_back (node FilterType.not _ _ nil _ _ _) (suc fuel) rest w h k = absurd w
  node_back (node FilterType.not _ _ (cons child (cons _ _)) _ _ _) (suc fuel) rest w h k = absurd w
  node_back (node FilterType.not _ _ (cons child nil) _ _ _) (suc fuel) rest w h k =
      let c = encode_node [] child in
      let size = contents_lt ber_filter_not c (2 ^ 32) h in
      let deep = contents_le ber_filter_not c fuel k in
      let one : decode_node fuel (reader c) ≡ (some (wire_form child), reader []) =
        ap (λ t. decode_node fuel (reader t)) (sym (append-nil c))
        ∙ node_back child fuel [] w size deep in
      back_from (suc fuel) _ (element ber_filter_not c) rest _ (constructed_alone ber_filter_not c)
        (not_back fuel (wire_form child) c rest size one)
  node_back (node FilterType.present attribute _ _ _ _ _) (suc fuel) rest w h k =
      back_from (suc fuel) _ (element ber_filter_present attribute) rest _
        (octets_alone ber_filter_present attribute)
        (present_back fuel attribute rest (octet_element ber_filter_present attribute (2 ^ 32) h))
  node_back (node FilterType.equality attribute value _ _ _ _) (suc fuel) rest w h k =
      let e = equality_contents attribute value in
      back_from (suc fuel) _ _ rest _
        (constructed_alone ber_filter_equality _ ∙ ap (element ber_filter_equality) e)
        (equality_back fuel attribute value rest
          (constructed_element ber_filter_equality _ _ (2 ^ 32) e h))
  node_back (node FilterType.substring attribute _ _ initial any final) (suc fuel) rest w h k =
      let parts = substring_parts initial any final in
      let e = substring_contents attribute parts in
      back_from (suc fuel) _ _ rest _ (constructed_alone ber_filter_substrings _) (
        substring_back fuel attribute initial any final rest _ e
          (constructed_element ber_filter_substrings _ _ (2 ^ 32) refl h))
  node_back (node FilterType.true_filter _ _ _ _ _ _) (suc fuel) rest w h k =
      back_from (suc fuel) _ (element ber_filter_present object_class) rest _
        (octets_alone ber_filter_present object_class)
        (present_back fuel object_class rest
          (octet_element ber_filter_present object_class (2 ^ 32) h))
  node_back (node FilterType.false_filter _ _ _ _ _ _) (suc fuel) rest w h k =
      let c = write_octet_string [] ber_filter_present object_class in
      let size = contents_lt ber_filter_not c (2 ^ 32) h in
      let deep = contents_le ber_filter_not c fuel k in
      back_from (suc fuel) _ (element ber_filter_not c) rest _ (constructed_alone ber_filter_not c)
        (not_back fuel (present_node object_class) c rest size
          (present_alone fuel object_class size deep))

  nodes_back :
      (ns : FilterNodes) (fuel rounds : ℕ)
      → AllWritable ns
      → length (encode_nodes [] ns) < 2 ^ 32
      → length (encode_nodes [] ns) ≤ fuel
      → length (encode_nodes [] ns) < rounds
      → read_all rounds (decode_node fuel) (reader (encode_nodes [] ns))
        ≡ (some (wire_forms ns), reader [])
  nodes_back ns fuel zero w h k r = elim r [ ]
  nodes_back nil fuel (suc rounds) w h k r = list_end fuel rounds
  nodes_back (cons child children) fuel (suc rounds) w h k r =
      let front = encode_node [] child in
      let behind = encode_nodes [] children in
      let split = encode_nodes-append front children in
      let size = ap length split in
      let sum = length-append front behind in
      let some_byte = encode_node-pos child in
      ap (λ t. read_all (suc rounds) (decode_node fuel) (reader t)) split
      ∙ list_step fuel rounds (wire_form child) (wire_forms children) front behind some_byte
          (node_back child fuel behind w.0 (omega arith) (omega arith))
          (nodes_back children fuel rounds w.1 (omega arith) (omega arith) (omega arith))

decode_ber-encode_node :
    (n : FilterNode) (rest : Bytes)
    → IsWritable n
    → length (encode_node [] n) < 2 ^ 32
    → decode_ber (reader (encode_node [] n ++ rest))
      ≡ (some (record { text = codes "(decoded)"; valid = true; root = wire_form n }), reader rest)
unfolding decode_ber
decode_ber-encode_node n rest w h =
    let total = length-append (encode_node [] n) rest in
    let root = node_back n (suc (length (encode_node [] n ++ rest))) rest w h (omega arith) in
    rw root refl

-- A filter in which every negation has one child is read back from its encoding, whatever follows:
-- its fields that count, with a test for `objectClass` for each constant.
pub decode_ber-encode_ber :
    (filter : SearchFilter) (rest : Bytes)
    → filter.valid ≡ true
    → IsWritable filter.root
    → length (encode_ber filter) < 2 ^ 32
    → decode_ber (reader (encode_ber filter ++ rest)) ≡ (
      some (record { text = codes "(decoded)"; valid = true; root = wire_form filter.root }),
      reader rest,
    )
unfolding encode_ber
decode_ber-encode_ber filter rest v w h =
    let written : encode_ber filter ≡ encode_node [] filter.root = rw v refl in
    let size = ap length written in
    ap (λ t. decode_ber (reader (t ++ rest))) written
    ∙ decode_ber-encode_node filter.root rest w (omega arith)

-- A filter in which every negation has one child is read back, whatever follows its encoding, as a
-- filter that matches an entry with a value list for objectClass exactly if the filter does.
pub decode_ber-matches :
    (filter : SearchFilter) (rest : Bytes) (entry : DirectoryEntry) (values : List Bytes)
    → filter.valid ≡ true
    → IsWritable filter.root
    → length (encode_ber filter) < 2 ^ 32
    → find_attribute entry object_class ≡ some values
    → (back : SearchFilter) × ((decode_ber (reader (encode_ber filter ++ rest))).0 ≡ some back)
      × (matches back entry ≡ matches filter entry)
unfolding matches
decode_ber-matches filter rest entry values v w h has = (
  record { text = codes "(decoded)"; valid = true; root = wire_form filter.root },
  ap (λ r. r.0) (decode_ber-encode_ber filter rest v w h),
  rw (v, wire_form-matches entry values filter.root has w) refl,
)
