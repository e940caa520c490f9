-- ===== src/Schema/Validate.antt =====
-- schema/registry.cpp: an entry against the schema.
use simple_ldapd.Prelude.{
  ℕ, suc, Bool, true, false, not, ◌&&◌, ◌||◌, Option, none, some, List, [], ◌∷◌, ◌++◌, ltb, leb,
  ◌==◌, if◌then◌else◌, length, take,
}
use simple_ldapd.Prelude.Bytes.{Bytes, codes, is_empty, equal}
use simple_ldapd.OrderedMap.{OrderedMap, assign}
use simple_ldapd.OrderedMap.Keys.{find_key}
use simple_ldapd.Dn.{to_lower_ascii, find_char}
use simple_ldapd.Directory.{
  ResultCode, success, undefined_attribute_type, constraint_violation, invalid_attribute_syntax,
  object_class_violation, DirectoryEntry,
}
use simple_ldapd.Directory as Directory
use simple_ldapd.Filter.Match.{find_at}
use simple_ldapd.Text.Scan.{every}
use simple_ldapd.Text.Numbers.{is_digit}
use simple_ldapd.Schema.{
  ObjectClassKind, abstract, structural, auxiliary, SchemaAttribute, SchemaObjectClass,
  SchemaRegistry, loaded, find_attribute, find_object_class, attribute_syntax,
}
use simple_ldapd.Schema.Collect.{
  Collected, collected, unknown_class, out_of_rounds, collect_object_classes,
}

-- `std::set<std::string>`
abbrev pub Names : Type 0
Names = OrderedMap Bool

abbrev pub insert_name : Bytes → Names → Names
insert_name name names = assign name true names

abbrev pub is_some : {A : Type 0} → Option A → Bool
is_some none = false
is_some (some value) = true

abbrev pub has_name : Names → Bytes → Bool
has_name names name = is_some (find_key name names)

unfoldable pub syntax_oid : Bytes → Bytes
unfolding find_char
syntax_oid syntax = elim (find_char b'{' syntax) [ none ↦ syntax | some brace ↦ take brace syntax ]

abbrev pub is_digits : Bytes → Bool
is_digits value = not (is_empty value) && every is_digit value

abbrev integer_text : Bytes → Bool
integer_text [] = false
integer_text (c ∷ value) = if c == b'-' then is_digits value else is_digits (c ∷ value)

abbrev contains_char : ℕ → Bytes → Bool
contains_char c value = is_some (find_char c value)

unfoldable pub value_matches_syntax : Bytes → Bytes → Bool
unfolding syntax_oid equal every find_char find_at
value_matches_syntax syntax value =
    let oid = syntax_oid syntax in
    if equal oid (codes "1.3.6.1.4.1.1466.115.121.1.27")
    then integer_text value
    else if equal oid (codes "1.3.6.1.4.1.1466.115.121.1.7")
    then equal value (codes "TRUE") || equal value (codes "FALSE")
    else if equal oid (codes "1.3.6.1.4.1.1466.115.121.1.12")
    then contains_char b'=' value
    else if equal oid (codes "1.3.6.1.4.1.1466.115.121.1.38")
    then not (is_empty value)
      && (not (is_some (find_at (codes "..") value)) && every (λ c. is_digit c || c == b'.') value)
    else if equal oid (codes "1.3.6.1.4.1.1466.115.121.1.26")
    then every (λ c. leb c 127) value
    else true

abbrev any_filled : List Bytes → Bool
any_filled [] = false
any_filled (value ∷ values) = not (is_empty value) || any_filled values

abbrev filled : Option (List Bytes) → Bool
filled none = false
filled (some values) = any_filled values

unfoldable pub has_non_empty : DirectoryEntry → Bytes → Bool
unfolding Directory.find_attribute
has_non_empty entry name = filled (Directory.find_attribute entry name)

-- the four sets that the loop over the classes fills
pub record Sets : Type 0 where
  pub structural_names : Names
  pub structural_superiors : Names
  pub allowed : Names
  pub required : Names

abbrev pub first_name : List Bytes → Bytes
first_name [] = []
first_name (name ∷ names) = name

abbrev pub structural_parent : Option SchemaObjectClass → Names → Names
structural_parent none names = names
structural_parent (some parent) names = elim parent.kind [
  | structural ↦ insert_name (to_lower_ascii (first_name parent.names)) names
  | abstract ↦ names
  | auxiliary ↦ names
]

unfoldable pub add_superiors : SchemaRegistry → List Bytes → Names → Names
unfolding find_object_class assign to_lower_ascii
add_superiors registry [] names = names
add_superiors registry (superior ∷ superiors) names =
    add_superiors registry superiors (structural_parent (find_object_class registry superior) names)

unfoldable pub add_names : List Bytes → Names → Names
unfolding assign to_lower_ascii
add_names [] names = names
add_names (name ∷ rest) names = add_names rest (insert_name (to_lower_ascii name) names)

abbrev pub add_structural : SchemaRegistry → ObjectClassKind → SchemaObjectClass → Sets → Sets
add_structural registry structural object_class sets = record sets {
  structural_names =
      insert_name (to_lower_ascii (first_name object_class.names)) sets.structural_names;
  structural_superiors = add_superiors registry object_class.superiors sets.structural_superiors;
}
add_structural registry abstract object_class sets = sets
add_structural registry auxiliary object_class sets = sets

-- one round of the loop over the classes
unfoldable pub add_class : SchemaRegistry → SchemaObjectClass → Sets → Sets
unfolding add_superiors add_names assign to_lower_ascii
add_class registry object_class sets =
    let sets' = add_structural registry object_class.kind object_class sets in
    record sets' {
      required = add_names object_class.must sets'.required;
      allowed = add_names object_class.may (add_names object_class.must sets'.allowed);
    }

unfoldable pub add_classes : SchemaRegistry → List SchemaObjectClass → Sets → Sets
unfolding add_class
add_classes registry [] sets = sets
add_classes registry (object_class ∷ classes) sets =
    add_classes registry classes (add_class registry object_class sets)

-- `leaves.size()`
unfoldable pub count_leaves : Names → Names → ℕ
count_leaves superiors [] = 0
count_leaves superiors ((name, _) ∷ names) =
    let rest = count_leaves superiors names in if has_name superiors name then rest else suc rest

abbrev pub Verdict : Type 0
Verdict = ResultCode × Bytes

abbrev pub fine : Verdict
fine = (success, [])

-- the loop over the required names
unfoldable pub missing : DirectoryEntry → Names → Option Bytes
unfolding has_non_empty
missing entry [] = none
missing entry ((name, _) ∷ names) =
    let rest = missing entry names in if has_non_empty entry name then rest else some name

unfoldable pub all_match : Bytes → List Bytes → Bool
unfolding value_matches_syntax
all_match syntax [] = true
all_match syntax (value ∷ values) = value_matches_syntax syntax value && all_match syntax values

abbrev pub syntax_of : SchemaAttribute → Option SchemaAttribute → Bytes
syntax_of attribute none = attribute.syntax
syntax_of attribute (some source) = source.syntax

-- the tests of one attribute that has a definition
abbrev pub check_defined :
    SchemaRegistry → Names → Bytes → List Bytes → Option SchemaAttribute → Verdict → Verdict
check_defined registry allowed type values none next =
    (undefined_attribute_type, codes "undefined attribute type " ++ type)
check_defined registry allowed type values (some attribute) next =
    if not (has_name allowed (to_lower_ascii type))
    then (
      object_class_violation,
      codes "attribute " ++ (type ++ codes " is not allowed by object class"),
    )
    else if attribute.single_value && ltb 1 (length values)
    then (constraint_violation, codes "attribute " ++ (type ++ codes " is single-valued"))
    else (let syntax = syntax_of attribute (attribute_syntax registry attribute) in
        if not (is_empty syntax) && not (all_match syntax values)
        then (invalid_attribute_syntax, codes "invalid syntax for " ++ type)
        else next)

-- the loop over the attributes of the entry
unfoldable pub check_attributes : SchemaRegistry → Names → OrderedMap (List Bytes) → Verdict
unfolding to_lower_ascii equal find_attribute attribute_syntax all_match
check_attributes registry allowed [] = fine
check_attributes registry allowed ((type, values) ∷ attributes) =
    let rest = check_attributes registry allowed attributes in
    if equal (to_lower_ascii type) (codes "objectclass")
    then rest
    else check_defined registry allowed type values (find_attribute registry type) rest

abbrev pub check_required : SchemaRegistry → DirectoryEntry → Names → Option Bytes → Verdict
check_required registry entry allowed (some name) =
    (object_class_violation, codes "missing required attribute " ++ name)
check_required registry entry allowed none = check_attributes registry allowed entry.attributes

abbrev pub check_sets : SchemaRegistry → DirectoryEntry → Sets → Verdict
check_sets registry entry sets =
    if not (count_leaves sets.structural_superiors sets.structural_names == 1)
    then (object_class_violation, codes "entry must have exactly one structural object class")
    else check_required registry entry sets.allowed (missing entry sets.required)

abbrev pub initial_sets : Sets
initial_sets = record {
  structural_names = [];
  structural_superiors = [];
  allowed = insert_name (codes "objectclass") [];
  required = [];
}

-- behind the search for the classes, which always ends
abbrev pub check_collected : SchemaRegistry → DirectoryEntry → Collected → Verdict
check_collected registry entry (unknown_class text) = (object_class_violation, text)
check_collected registry entry out_of_rounds = (object_class_violation, [])
check_collected registry entry (collected classes) =
    check_sets registry entry (add_classes registry classes initial_sets)

abbrev pub check_values : SchemaRegistry → DirectoryEntry → Option (List Bytes) → Verdict
check_values registry entry none = (object_class_violation, codes "objectClass is required")
check_values registry entry (some []) = (object_class_violation, codes "objectClass is required")
check_values registry entry (some (name ∷ names)) =
    check_collected registry entry (collect_object_classes registry (name ∷ names))

-- the result and the diagnostic of `validateEntry`
unfoldable pub validate_entry : SchemaRegistry → DirectoryEntry → Verdict
unfolding Directory.find_attribute collect_object_classes add_classes count_leaves missing
    check_attributes assign
validate_entry registry entry =
    if not (loaded registry)
    then fine
    else check_values registry entry (Directory.find_attribute entry (codes "objectClass"))
