-- ===== src/Schema/Required.antt =====
-- schema/registry.cpp: what an entry has that the schema accepts.
use simple_ldapd.Prelude.{
  ◌≡◌, refl, ap, ◌∙◌, sym, Bool, true, false, ◌&&◌, ◌||◌, Option, none, some, List, [], ◌∷◌, arith,
  ◌==◌, ltb, length, Bool-cases, Option-cases, inl, inr,
}
use simple_ldapd.Prelude.Bytes.{Bytes, codes, is_empty, equal, equal_iff}
use simple_ldapd.OrderedMap.{OrderedMap, key_lt, upsert, assign}
use simple_ldapd.Dn.{to_lower_ascii}
use simple_ldapd.Directory as Directory
use simple_ldapd.Directory.{success, DirectoryEntry}
use simple_ldapd.Schema.{
  ObjectClassKind, abstract, structural, auxiliary, SchemaObjectClass, SchemaAttribute,
  SchemaRegistry, loaded, find_attribute, attribute_syntax,
}
use mathlib.Core.Path.{subst}
use simple_ldapd.Schema.Closed.{IsClosure, collected-IsClosure}
use simple_ldapd.Schema.Leaf.{HasOneLeaf, count_leaves-HasOneLeaf, IsAllowed, allowed_sound}
use simple_ldapd.Schema.Collect.{
  Collected, collected, unknown_class, out_of_rounds, collect_object_classes,
}
use simple_ldapd.Schema.Validate.{
  Names, Sets, has_name, has_non_empty, add_names, add_class, add_classes, add_structural,
  initial_sets, missing, all_match, check_attributes, check_defined, check_sets, check_collected,
  check_values, count_leaves, syntax_of, validate_entry, Verdict,
}

-- every key of a set has a property
abbrev Holds : (Bytes → Bool) → Names → Type 0
Holds p [] = Unit
Holds p ((name, _) ∷ names) = (p name ≡ true) × Holds p names

abbrev pub AllNames : (Bytes → Bool) → List Bytes → Type 0
AllNames p [] = Unit
AllNames p (name ∷ names) = (p (to_lower_ascii name) ≡ true) × AllNames p names

Holds-assign :
    (p : Bytes → Bool) (name : Bytes) (names : Names)
    → Holds p (assign name true names)
    → (p name ≡ true) × Holds p names
unfolding assign upsert
Holds-assign p name [] h = h
Holds-assign p name ((j, b) ∷ names) h = elim (Bool-cases (equal name j)) [
  | inl e ↦
      let same = (equal_iff name j).0 e in
      let h' : Holds p ((j, true) ∷ names) = ground (arith, e, h) in
      (ap p same ∙ h'.0, (h'.0, h'.1))
  | inr e ↦ elim (Bool-cases (key_lt name j)) [
    | inl l ↦
        let h' : Holds p ((name, true) ∷ (j, b) ∷ names) = ground (arith, e, l, h) in (h'.0, h'.1)
    | inr l ↦
        let h' : Holds p ((j, b) ∷ assign name true names) = ground (arith, e, l, h) in
        let (x, y) = Holds-assign p name names h'.1 in (x, (h'.0, y))
  ]
]

Holds-add_names :
    (p : Bytes → Bool) (l : List Bytes) (names : Names)
    → Holds p (add_names l names)
    → AllNames p l × Holds p names
unfolding add_names
Holds-add_names p [] names h = (tt, h)
Holds-add_names p (name ∷ l) names h =
    let (all, rest) = Holds-add_names p l (assign (to_lower_ascii name) true names) h in
    let (x, y) = Holds-assign p (to_lower_ascii name) names rest in ((x, all), y)

structural_required :
    (registry : SchemaRegistry) (kind : ObjectClassKind) (c : SchemaObjectClass) (sets : Sets)
    → (add_structural registry kind c sets).required ≡ sets.required
structural_required registry structural c sets = refl
structural_required registry abstract c sets = refl
structural_required registry auxiliary c sets = refl

abbrev pub AllClasses : (Bytes → Bool) → List SchemaObjectClass → Type 0
AllClasses p [] = Unit
AllClasses p (c ∷ classes) = AllNames p c.must × AllClasses p classes

required_of_classes :
    (registry : SchemaRegistry) (p : Bytes → Bool) (classes : List SchemaObjectClass) (sets : Sets)
    → Holds p (add_classes registry classes sets).required
    → AllClasses p classes × Holds p sets.required
unfolding add_classes add_class
required_of_classes registry p [] sets h = (tt, h)
required_of_classes registry p (c ∷ classes) sets h =
    let (all, before) = required_of_classes registry p classes (add_class registry c sets) h in
    let (these, rest) =
      Holds-add_names p c.must (add_structural registry c.kind c sets).required before in
    ((these, all), subst (Holds p) (structural_required registry c.kind c sets) rest)

missing-none :
    (entry : DirectoryEntry) (names : Names)
    → missing entry names ≡ none
    → Holds (has_non_empty entry) names
unfolding missing
missing-none entry [] h = tt
missing-none entry ((name, b) ∷ names) h = elim (Bool-cases (has_non_empty entry name)) [
  | inl e ↦ (e, missing-none entry names (ground (arith, e, h)))
  | inr e ↦ absurd (ground (arith, e, h))
]

-- an attribute that has a definition and a place, as many values as it may have, and values of its
-- syntax
pub data Conforms (registry : SchemaRegistry) (classes : List SchemaObjectClass) (type : Bytes)
    (values : List Bytes) : Type 0 where
  is_object_class :
      to_lower_ascii type ≡ codes "objectclass" → Conforms registry classes type values
  is_defined :
      (attribute : SchemaAttribute)
      → find_attribute registry type ≡ some attribute
      → IsAllowed classes type
      → (attribute.single_value && ltb 1 (length values)) ≡ false
      → (is_empty (syntax_of attribute (attribute_syntax registry attribute))
          || all_match (syntax_of attribute (attribute_syntax registry attribute)) values)
        ≡ true
      → Conforms registry classes type values

abbrev pub AllConform : SchemaRegistry → List SchemaObjectClass → OrderedMap (List Bytes) → Type 0
AllConform registry classes [] = Unit
AllConform registry classes ((type, values) ∷ attributes) =
    Conforms registry classes type values × AllConform registry classes attributes

abbrev allowed_by : SchemaRegistry → List SchemaObjectClass → Names
allowed_by registry classes = (add_classes registry classes initial_sets).allowed

defined_fine :
    (registry : SchemaRegistry) (classes : List SchemaObjectClass) (type : Bytes)
    (values : List Bytes) (next : Verdict)
    → equal (to_lower_ascii type) (codes "objectclass") ≡ false
    → (check_defined registry
        (allowed_by registry classes)
        type
        values
        (find_attribute registry type)
        next).0
      ≡ success
    → Conforms registry classes type values × (next.0 ≡ success)
defined_fine registry classes type values next other h =
    elim (Option-cases (find_attribute registry type)) [
      | inl e ↦ absurd (ground (arith, e, h))
      | inr (attribute, e) ↦
          let syntax = syntax_of attribute (attribute_syntax registry attribute) in
          let h' : (check_defined registry (allowed_by registry classes) type values
                (some attribute) next).0
              ≡ success =
            ap (λ o. (check_defined registry (allowed_by registry classes) type values o next).0)
              (sym e)
            ∙ h in
          elim (Bool-cases (has_name (allowed_by registry classes) (to_lower_ascii type))) [
            | inr a ↦ absurd (ground (arith, a, h'))
            | inl a ↦ elim (Bool-cases (attribute.single_value && ltb 1 (length values))) [
              | inl b ↦ absurd (ground (arith, a, b, h'))
              | inr b ↦ elim (Bool-cases (is_empty syntax || all_match syntax values)) [
                | inr c ↦ absurd (ground (arith, a, b, c, h'))
                | inl c ↦ (
                  is_defined attribute e (allowed_sound registry classes type other a) b c,
                  ground (arith, a, b, c, h'),
                )
              ]
            ]
          ]
    ]

attributes_conform :
    (registry : SchemaRegistry) (classes : List SchemaObjectClass) (m : OrderedMap (List Bytes))
    → (check_attributes registry (allowed_by registry classes) m).0 ≡ success
    → AllConform registry classes m
unfolding check_attributes
attributes_conform registry classes [] h = tt
attributes_conform registry classes ((type, values) ∷ m) h =
    elim (Bool-cases (equal (to_lower_ascii type) (codes "objectclass"))) [
      | inl e ↦ (
        is_object_class ((equal_iff (to_lower_ascii type) (codes "objectclass")).0 e),
        attributes_conform registry classes m (ground (arith, e, h)),
      )
      | inr e ↦
          let (this, rest) =
            defined_fine registry classes type values
              (check_attributes registry (allowed_by registry classes) m) e
              (ground (arith, e, h)) in
          (this, attributes_conform registry classes m rest)
    ]

-- what an entry has that is accepted, whose values of objectClass are the names
pub record Accepted (registry : SchemaRegistry) (entry : DirectoryEntry) (names : List Bytes)
    : Type 0 where
  pub classes : List SchemaObjectClass
  pub closure : IsClosure registry names classes
  pub one_leaf : HasOneLeaf registry classes
  pub required : AllClasses (has_non_empty entry) classes
  pub conform : AllConform registry classes entry.attributes

sets_accepted :
    (registry : SchemaRegistry) (entry : DirectoryEntry) (sets : Sets)
    → (check_sets registry entry sets).0 ≡ success
    → (count_leaves sets.structural_superiors sets.structural_names ≡ 1)
      × (missing entry sets.required ≡ none)
      × ((check_attributes registry sets.allowed entry.attributes).0 ≡ success)
sets_accepted registry entry sets h =
    elim (Bool-cases (count_leaves sets.structural_superiors sets.structural_names == 1)) [
      | inr a ↦ absurd (ground (arith, a, h))
      | inl a ↦ elim (Option-cases (missing entry sets.required)) [
        | inr (name, b) ↦ absurd (ground (arith, a, b, h))
        | inl b ↦ (ground (arith, a), b, ground (arith, a, b, h))
      ]
    ]

collected-Accepted :
    (registry : SchemaRegistry) (entry : DirectoryEntry) (names : List Bytes) (r : Collected)
    → collect_object_classes registry names ≡ r
    → (check_collected registry entry r).0 ≡ success
    → Accepted registry entry names
collected-Accepted registry entry names (unknown_class text) e h = cc
collected-Accepted registry entry names out_of_rounds e h = cc
collected-Accepted registry entry names (collected classes) e h =
    let sets = add_classes registry classes initial_sets in
    let (one, none_missing, rest) = sets_accepted registry entry sets h in
    record {
      classes = classes;
      closure = collected-IsClosure registry names classes e;
      one_leaf = count_leaves-HasOneLeaf registry classes one;
      required =
          (required_of_classes registry (has_non_empty entry) classes initial_sets
            (missing-none entry sets.required none_missing)).0;
      conform = attributes_conform registry classes entry.attributes rest;
    }

-- the values of objectClass, of which there is one at least
abbrev pub HasClasses : SchemaRegistry → DirectoryEntry → Type 0
HasClasses registry entry =
    (name : Bytes) × (names : List Bytes) × (Directory.find_attribute entry (codes "objectClass")
      ≡ some (name ∷ names))
    × Accepted registry entry (name ∷ names)

values_accepted :
    (registry : SchemaRegistry) (entry : DirectoryEntry) (o : Option (List Bytes))
    → Directory.find_attribute entry (codes "objectClass") ≡ o
    → (check_values registry entry o).0 ≡ success
    → HasClasses registry entry
values_accepted registry entry none e h = cc
values_accepted registry entry (some []) e h = cc
values_accepted registry entry (some (name ∷ names)) e h =
    (name, names, e, collected-Accepted registry entry (name ∷ names) _ refl h)

-- An entry that a loaded schema accepts has at least one value of objectClass. All classes that these
-- values name, and all classes that stand above one of them, are known; and of these classes, which
-- are collected with no others, exactly one name is the first name of a structural class that stands
-- directly above no structural class. The entry has a value that is not empty for each attribute that
-- a collected class requires; and each of its attributes is objectClass, or is defined, allowed or
-- required by a collected class, has no second value if it is single-valued, and has values of its
-- syntax.
pub validate_entry-HasClasses :
    (registry : SchemaRegistry) (entry : DirectoryEntry)
    → loaded registry ≡ true
    → (validate_entry registry entry).0 ≡ success
    → HasClasses registry entry
unfolding validate_entry
validate_entry-HasClasses registry entry l h =
    values_accepted registry entry (Directory.find_attribute entry (codes "objectClass")) refl
      (ground (arith, l, h))
