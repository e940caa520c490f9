-- ===== src/Schema.antt =====
-- schema/registry.hpp and registry.cpp: attribute types and object classes, and how they are found.
pub mod Parser
pub mod Load
pub mod Collect
pub mod Closed
pub mod Validate
pub mod Sets
pub mod Leaf
pub mod Required
use simple_ldapd.Prelude.{
  ℕ, zero, suc, Bool, true, false, not, ◌&&◌, Option, none, some, List, [], ◌∷◌, ◌++◌,
  if◌then◌else◌, length,
}
use simple_ldapd.Prelude.Bytes.{Bytes, is_empty}
use simple_ldapd.OrderedMap.{OrderedMap, assign}
use simple_ldapd.OrderedMap.Keys.{find_key}
use simple_ldapd.Dn.{to_lower_ascii}

pub data ObjectClassKind : Type 0 where
  abstract structural auxiliary : ObjectClassKind

pub record SchemaAttribute : Type 0 where
  pub oid : Bytes
  pub names : List Bytes
  pub superior : Bytes
  pub equality : Bytes
  pub syntax : Bytes
  pub single_value : Bool

pub record SchemaObjectClass : Type 0 where
  pub oid : Bytes
  pub names : List Bytes
  pub superiors : List Bytes
  pub kind : ObjectClassKind
  pub must : List Bytes
  pub may : List Bytes

-- The indexes are hash maps, of which no order is read.
pub record SchemaRegistry : Type 0 where
  pub attributes : List SchemaAttribute
  pub object_classes : List SchemaObjectClass
  pub attribute_index : OrderedMap ℕ
  pub object_class_index : OrderedMap ℕ

abbrev pub empty_registry : SchemaRegistry
empty_registry = record {
  attributes = [];
  object_classes = [];
  attribute_index = [];
  object_class_index = [];
}

abbrev pub loaded : SchemaRegistry → Bool
loaded registry = not (is_empty registry.object_classes)

-- the element at an index
abbrev pub get_elem? {ℓ} : {A : Type ℓ} → List A → ℕ → Option A
get_elem? [] i = none
get_elem? (x ∷ xs) zero = some x
get_elem? (x ∷ xs) (suc i) = get_elem? xs i

-- the loop of `indexAttribute` and `indexObjectClass` over the names
unfoldable pub index_names : List Bytes → ℕ → OrderedMap ℕ → OrderedMap ℕ
unfolding to_lower_ascii assign
index_names [] index m = m
index_names (name ∷ names) index m = index_names names index (assign (to_lower_ascii name) index m)

-- `push_back`, and the index of the last element
unfoldable pub push_attribute : SchemaRegistry → SchemaAttribute → SchemaRegistry
unfolding index_names
push_attribute registry attribute = record registry {
  attributes = registry.attributes ++ (attribute ∷ []);
  attribute_index =
      index_names attribute.names (length registry.attributes) registry.attribute_index;
}

unfoldable pub push_object_class : SchemaRegistry → SchemaObjectClass → SchemaRegistry
unfolding index_names
push_object_class registry object_class = record registry {
  object_classes = registry.object_classes ++ (object_class ∷ []);
  object_class_index =
      index_names object_class.names (length registry.object_classes) registry.object_class_index;
}

abbrev pub at_index {ℓ} : {A : Type ℓ} → List A → Option ℕ → Option A
at_index xs none = none
at_index xs (some i) = get_elem? xs i

unfoldable pub find_attribute : SchemaRegistry → Bytes → Option SchemaAttribute
unfolding to_lower_ascii
find_attribute registry name =
    at_index registry.attributes (find_key (to_lower_ascii name) registry.attribute_index)

unfoldable pub find_object_class : SchemaRegistry → Bytes → Option SchemaObjectClass
unfolding to_lower_ascii
find_object_class registry name =
    at_index registry.object_classes (find_key (to_lower_ascii name) registry.object_class_index)

-- the loop of `attributeSyntax`, for as many steps as are left of 32
unfoldable pub syntax_source : SchemaRegistry → ℕ → SchemaAttribute → Option SchemaAttribute
unfolding find_attribute
syntax_source registry zero attribute = some attribute
syntax_source registry (suc depth) attribute =
    elim (is_empty attribute.syntax && not (is_empty attribute.superior)) [
      | false ↦ some attribute
      | true ↦ elim (find_attribute registry attribute.superior) [
        | none ↦ none
        | some superior ↦ syntax_source registry depth superior
      ]
    ]

unfoldable pub attribute_syntax : SchemaRegistry → SchemaAttribute → Option SchemaAttribute
unfolding syntax_source
attribute_syntax registry attribute = syntax_source registry 32 attribute
