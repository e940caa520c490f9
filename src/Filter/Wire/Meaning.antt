-- ===== src/Filter/Wire/Meaning.antt =====
-- protocol/filter.cpp: what the encoding keeps of the meaning of a filter.
use simple_ldapd.Prelude.{◌≡◌, refl, ap, Bool, true, false, not, Option, none, some, List}
use simple_ldapd.Prelude.Bytes.{Bytes}
use simple_ldapd.Directory.{DirectoryEntry, find_attribute}
use simple_ldapd.Filter.{FilterType, FilterNode, FilterNodes, node, nil, cons, present_node}
use simple_ldapd.Filter.Match.{node_matches, all_match, any_matches}
use simple_ldapd.Filter.Wire.{object_class, nodes}
use simple_ldapd.Filter.Wire.Form.{wire_form, wire_forms, IsWritable, AllWritable}

abbrev is_found : Option (List Bytes) → Bool
is_found none = false
is_found (some values) = true

module _ (entry : DirectoryEntry) (values : List Bytes)
    (has : find_attribute entry object_class ≡ some values) where
  present_class : node_matches (present_node object_class) entry ≡ true
  unfolding node_matches
  present_class = ap is_found has

  mutual
    unfolding node_matches wire_form IsWritable

    matches_wire :
        (n : FilterNode) → IsWritable n → node_matches (wire_form n) entry ≡ node_matches n entry
    matches_wire (node FilterType.and _ _ children _ _ _) w = all_wire children w
    matches_wire (node FilterType.or _ _ children _ _ _) w = any_wire children w
    matches_wire (node FilterType.not _ _ nil _ _ _) w = absurd w
    matches_wire (node FilterType.not _ _ (cons child nil) _ _ _) w = ap not (matches_wire child w)
    matches_wire (node FilterType.not _ _ (cons child (cons _ _)) _ _ _) w = absurd w
    matches_wire (node FilterType.present _ _ _ _ _ _) w = refl
    matches_wire (node FilterType.equality _ _ _ _ _ _) w = refl
    matches_wire (node FilterType.substring _ _ _ _ _ _) w = refl
    matches_wire (node FilterType.true_filter _ _ _ _ _ _) w = present_class
    matches_wire (node FilterType.false_filter _ _ _ _ _ _) w = ap not present_class

    all_wire :
        (ns : FilterNodes)
        → AllWritable ns
        → all_match (nodes (wire_forms ns)) entry ≡ all_match ns entry
    all_wire nil w = refl
    all_wire (cons child children) w = rw (matches_wire child w.0, all_wire children w.1) refl

    any_wire :
        (ns : FilterNodes)
        → AllWritable ns
        → any_matches (nodes (wire_forms ns)) entry ≡ any_matches ns entry
    any_wire nil w = refl
    any_wire (cons child children) w = rw (matches_wire child w.0, any_wire children w.1) refl

-- An entry that has `objectClass` matches what comes back of a filter as it matches the filter.
pub wire_form-matches :
    (entry : DirectoryEntry) (values : List Bytes) (n : FilterNode)
    → find_attribute entry object_class ≡ some values
    → IsWritable n
    → node_matches (wire_form n) entry ≡ node_matches n entry
wire_form-matches entry values n has w = matches_wire entry values has n w
