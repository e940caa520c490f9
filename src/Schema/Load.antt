-- ===== src/Schema/Load.antt =====
-- schema/registry.cpp: definitions, and a whole file.
use simple_ldapd.Prelude.{
  ℕ, zero, suc, Bool, true, false, ◌||◌, Option, none, some, [], ◌==◌, if◌then◌else◌, length, drop,
}
use simple_ldapd.Prelude.Bytes.{Bytes, codes, is_empty}
use simple_ldapd.Dn.{iequals}
use simple_ldapd.Schema.{
  SchemaAttribute, SchemaObjectClass, structural, SchemaRegistry, push_attribute, push_object_class,
}
use simple_ldapd.Schema.Parser.{
  strip_comments, skip, peek, consume, read_word, attribute_field, object_class_field,
}

abbrev default_attribute : SchemaAttribute
default_attribute = record {
  oid = [];
  names = [];
  superior = [];
  equality = [];
  syntax = [];
  single_value = false;
}

abbrev default_object_class : SchemaObjectClass
default_object_class = record {
  oid = [];
  names = [];
  superiors = [];
  kind = structural;
  must = [];
  may = [];
}

-- The loop over the keywords, which `parseAttribute` and `parseObjectClass` have, up to the closing
-- parenthesis. A round takes at least one character.
unfoldable pub read_fields :
    {A : Type 0} → (A → Bytes → Bytes → Option (A × Bytes)) → ℕ → A → Bytes → Option (A × Bytes)
unfolding peek consume read_word
read_fields field zero value text = none
read_fields field (suc rounds) value text = elim (peek text == b')' || peek text == 0) [
  | true ↦ elim (consume b')' text) [ none ↦ none | some rest ↦ some (value, rest) ]
  | false ↦ elim (read_word text) [
    | none ↦ none
    | some (key, behind) ↦ elim (field value key behind) [
      | none ↦ none
      | some (value', rest) ↦ read_fields field rounds value' rest
    ]
  ]
]

-- the opening parenthesis and the OID
abbrev opened : Option Bytes → Option (Bytes × Bytes)
opened none = none
opened (some rest) = read_word rest

abbrev attribute_from : Option (Bytes × Bytes) → Option (SchemaAttribute × Bytes)
attribute_from none = none
attribute_from (some (oid, rest)) =
    read_fields attribute_field (suc (length rest)) (record default_attribute { oid = oid }) rest

abbrev object_class_from : Option (Bytes × Bytes) → Option (SchemaObjectClass × Bytes)
object_class_from none = none
object_class_from (some (oid, rest)) =
    read_fields object_class_field (suc (length rest)) (record default_object_class { oid = oid })
      rest

abbrev named_attribute : Option (SchemaAttribute × Bytes) → Option (SchemaAttribute × Bytes)
named_attribute none = none
named_attribute (some (attribute, rest)) =
    if is_empty attribute.names then none else some (attribute, rest)

abbrev named_object_class : Option (SchemaObjectClass × Bytes) → Option (SchemaObjectClass × Bytes)
named_object_class none = none
named_object_class (some (object_class, rest)) =
    if is_empty object_class.names then none else some (object_class, rest)

unfoldable pub parse_attribute : Bytes → Option (SchemaAttribute × Bytes)
unfolding consume read_word read_fields attribute_field
parse_attribute text = named_attribute (attribute_from (opened (consume b'(' text)))

unfoldable pub parse_object_class : Bytes → Option (SchemaObjectClass × Bytes)
unfolding consume read_word read_fields object_class_field
parse_object_class text = named_object_class (object_class_from (opened (consume b'(' text)))

-- what one round of `loadFile` leaves: the registry with the text behind, or the end at an error
abbrev attribute_read :
    SchemaRegistry → Option (SchemaAttribute × Bytes) → Option (SchemaRegistry × Bytes)
attribute_read registry none = none
attribute_read registry (some (attribute, rest)) = some (push_attribute registry attribute, rest)

abbrev object_class_read :
    SchemaRegistry → Option (SchemaObjectClass × Bytes) → Option (SchemaRegistry × Bytes)
object_class_read registry none = none
object_class_read registry (some (object_class, rest)) =
    some (push_object_class registry object_class, rest)

unfoldable pub read_definition : SchemaRegistry → Bytes → Bytes → Option (SchemaRegistry × Bytes)
unfolding iequals parse_attribute parse_object_class push_attribute push_object_class
read_definition registry keyword text =
    if iequals keyword (codes "attributetype") || iequals keyword (codes "attributetypes")
    then attribute_read registry (parse_attribute text)
    else if iequals keyword (codes "objectclass") || iequals keyword (codes "objectclasses")
    then object_class_read registry (parse_object_class text)
    else some (registry, text)

-- The loop of `loadFile`, with its result. A round takes at least one character.
unfoldable pub load_from : ℕ → SchemaRegistry → Bytes → SchemaRegistry × Bool
unfolding skip read_word read_definition
load_from zero registry text = (registry, false)
load_from (suc rounds) registry text = elim (is_empty (skip text)) [
  | true ↦ (registry, true)
  | false ↦ elim (read_word text) [
    | none ↦ load_from rounds registry (drop 1 (skip text))
    | some (keyword, behind) ↦ elim (read_definition registry keyword behind) [
      | none ↦ (registry, false)
      | some (registry', rest) ↦ load_from rounds registry' rest
    ]
  ]
]

-- `loadFile` on the text of a file that can be opened
unfoldable pub load_text : SchemaRegistry → Bytes → SchemaRegistry × Bool
unfolding strip_comments load_from
load_text registry text =
    let stripped = strip_comments text in load_from (suc (length stripped)) registry stripped
