-- ===== src/Schema/Sets.antt =====
-- schema/registry.cpp: what the sets of `validateEntry` hold, in terms of the classes.
use simple_ldapd.Prelude.{
  ◌≡◌, refl, ap, Bool, true, false, ◌&&◌, ◌||◌, Option, none, some, List, [], ◌∷◌, arith,
  Bool-cases, inl, inr, any_of,
}
use simple_ldapd.Prelude.Bytes.{Bytes, equal, equal_iff}
use simple_ldapd.OrderedMap.{key_lt, upsert, assign, find_first}
use simple_ldapd.Dn.{to_lower_ascii}
use simple_ldapd.Schema.{
  ObjectClassKind, abstract, structural, auxiliary, SchemaObjectClass, SchemaRegistry,
  find_object_class,
}
use simple_ldapd.Schema.Validate.{
  Names, Sets, has_name, insert_name, first_name, structural_parent, add_superiors, add_names,
  add_structural, add_class, add_classes,
}

has_name-insert_name :
    (k n : Bytes) (names : Names)
    → has_name (insert_name k names) n ≡ (equal k n || has_name names n)
unfolding assign upsert find_first
has_name-insert_name k n [] = ground arith
has_name-insert_name k n ((j, b) ∷ names) = elim (Bool-cases (equal k j)) [
  | inl e ↦ ground (arith, e, ap (λ x. equal x n) ((equal_iff k j).0 e))
  | inr e ↦ elim (Bool-cases (key_lt k j)) [
    | inl l ↦ ground (arith, e, l)
    | inr l ↦ ground (arith, e, l, has_name-insert_name k n names)
  ]
]

-- a type among the names of a list, up to case
abbrev pub lists : Bytes → List Bytes → Bool
lists n names = any_of (λ name. equal (to_lower_ascii name) n) names

has_name-add_names :
    (n : Bytes) (l : List Bytes) (names : Names)
    → has_name (add_names l names) n ≡ (lists n l || has_name names n)
unfolding add_names
has_name-add_names n [] names = refl
has_name-add_names n (name ∷ l) names = ground (
  arith,
  has_name-add_names n l (insert_name (to_lower_ascii name) names),
  has_name-insert_name (to_lower_ascii name) n names,
)

abbrev pub is_structural : ObjectClassKind → Bool
is_structural structural = true
is_structural abstract = false
is_structural auxiliary = false

-- the first name of a structural class
abbrev pub is_primary : Bytes → SchemaObjectClass → Bool
is_primary n c = is_structural c.kind && equal (to_lower_ascii (first_name c.names)) n

abbrev pub parent_is : Bytes → Option SchemaObjectClass → Bool
parent_is n none = false
parent_is n (some parent) = is_primary n parent

-- a structural class of whose superiors one is a structural class with that first name
abbrev pub is_above : SchemaRegistry → Bytes → SchemaObjectClass → Bool
is_above registry n c =
    is_structural c.kind
    && any_of (λ superior. parent_is n (find_object_class registry superior)) c.superiors

has_name-structural_parent :
    (n : Bytes) (o : Option SchemaObjectClass) (names : Names)
    → has_name (structural_parent o names) n ≡ (parent_is n o || has_name names n)
has_name-structural_parent n none names = refl
has_name-structural_parent n (some parent) names = go parent.kind
  where
    go :
        (kind : ObjectClassKind)
        → has_name
            (elim kind [
              | structural ↦ insert_name (to_lower_ascii (first_name parent.names)) names
              | abstract ↦ names
              | auxiliary ↦ names
            ])
            n
          ≡ ((is_structural kind && equal (to_lower_ascii (first_name parent.names)) n)
              || has_name names n)
    go structural = has_name-insert_name (to_lower_ascii (first_name parent.names)) n names
    go abstract = refl
    go auxiliary = refl

has_name-add_superiors :
    (registry : SchemaRegistry) (n : Bytes) (l : List Bytes) (names : Names)
    → has_name (add_superiors registry l names) n ≡ (
        any_of (λ superior. parent_is n (find_object_class registry superior)) l
        || has_name names n)
unfolding add_superiors
has_name-add_superiors registry n [] names = refl
has_name-add_superiors registry n (superior ∷ l) names =
    let parent = find_object_class registry superior in
    ground (
      arith,
      has_name-add_superiors registry n l (structural_parent parent names),
      has_name-structural_parent n parent names,
    )

-- one class more
abbrev Grown : SchemaRegistry → Bytes → SchemaObjectClass → Sets → Sets → Type 0
Grown registry n c sets after =
    (has_name after.structural_names n ≡ (is_primary n c || has_name sets.structural_names n))
    × (has_name after.structural_superiors n
        ≡ (is_above registry n c || has_name sets.structural_superiors n))
    × (has_name after.allowed n ≡ ((lists n c.may || lists n c.must) || has_name sets.allowed n))

add_structural_names :
    (registry : SchemaRegistry) (n : Bytes) (kind : ObjectClassKind) (c : SchemaObjectClass)
    (sets : Sets)
    → (has_name (add_structural registry kind c sets).structural_names n ≡ (
        (is_structural kind && equal (to_lower_ascii (first_name c.names)) n)
        || has_name sets.structural_names n))
      × (has_name (add_structural registry kind c sets).structural_superiors n ≡ (
          (is_structural kind
            && any_of (λ superior. parent_is n (find_object_class registry superior)) c.superiors)
          || has_name sets.structural_superiors n))
      × ((add_structural registry kind c sets).allowed ≡ sets.allowed)
add_structural_names registry n structural c sets = (
  has_name-insert_name (to_lower_ascii (first_name c.names)) n sets.structural_names,
  has_name-add_superiors registry n c.superiors sets.structural_superiors,
  refl,
)
add_structural_names registry n abstract c sets = (refl, refl, refl)
add_structural_names registry n auxiliary c sets = (refl, refl, refl)

add_class_names :
    (registry : SchemaRegistry) (n : Bytes) (c : SchemaObjectClass) (sets : Sets)
    → Grown registry n c sets (add_class registry c sets)
unfolding add_class
add_class_names registry n c sets =
    let sets' = add_structural registry c.kind c sets in
    let (first, superiors, allowed) = add_structural_names registry n c.kind c sets in
    (
      first,
      superiors,
      ground (
        arith,
        has_name-add_names n c.may (add_names c.must sets'.allowed),
        has_name-add_names n c.must sets'.allowed,
        ap (λ names. has_name names n) allowed,
      ),
    )

pub add_classes_names :
    (registry : SchemaRegistry) (n : Bytes) (classes : List SchemaObjectClass) (sets : Sets)
    → (has_name (add_classes registry classes sets).structural_names n
        ≡ (any_of (is_primary n) classes || has_name sets.structural_names n))
      × (has_name (add_classes registry classes sets).structural_superiors n
          ≡ (any_of (is_above registry n) classes || has_name sets.structural_superiors n))
      × (has_name (add_classes registry classes sets).allowed n
          ≡ (any_of (λ c. lists n c.may || lists n c.must) classes || has_name sets.allowed n))
unfolding add_classes
add_classes_names registry n [] sets = (refl, refl, refl)
add_classes_names registry n (c ∷ classes) sets =
    let (a, b, d) = add_class_names registry n c sets in
    let (a', b', d') = add_classes_names registry n classes (add_class registry c sets) in
    (ground (arith, a, a'), ground (arith, b, b'), ground (arith, d, d'))
