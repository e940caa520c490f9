-- ===== src/Schema/Collect.antt =====
-- schema/registry.cpp: the object classes of an entry, with all that stand above them.
use simple_ldapd.Prelude.{
  ℕ, zero, suc, ◌+◌, ◌≤◌, ◌≡◌, ◌⊎◌, refl, ap, ◌∙◌, sym, Bool, true, false, ◌||◌, Option, none, some,
  List, [], ◌∷◌, ◌++◌, arith, if◌then◌else◌, length, Bool-cases, Option-cases, inl, inr,
}
use simple_ldapd.Prelude.Bytes.{Bytes, codes, equal, equal_iff}
use simple_ldapd.OrderedMap.{OrderedMap, find_first}
use simple_ldapd.OrderedMap.Keys.{find_key}
use simple_ldapd.Dn.{to_lower_ascii}
use simple_ldapd.Schema.{SchemaRegistry, SchemaObjectClass, find_object_class, get_elem?, at_index}

-- `seen`, of which no order is read
unfoldable pub contains : List Bytes → Bytes → Bool
unfolding equal
contains [] key = false
contains (k ∷ seen) key = equal k key || contains seen key

-- what `collectObjectClasses` gives: the classes, or the text of the error
pub data Collected : Type 0 where
  collected : List SchemaObjectClass → Collected
  unknown_class : Bytes → Collected
  out_of_rounds : Collected

abbrev pub and_class : SchemaObjectClass → Collected → Collected
and_class object_class (collected classes) = collected (object_class ∷ classes)
and_class object_class (unknown_class text) = unknown_class text
and_class object_class out_of_rounds = out_of_rounds

-- The superiors are pushed in their order, and the last name is taken first.
abbrev pub push_all : List Bytes → List Bytes → List Bytes
push_all [] pending = pending
push_all (name ∷ names) pending = push_all names (name ∷ pending)

-- the loop, with the last pending name at the head
unfoldable pub collect_from : SchemaRegistry → ℕ → List Bytes → List Bytes → Collected
unfolding contains find_object_class to_lower_ascii
collect_from registry rounds seen [] = collected []
collect_from registry zero seen (name ∷ pending) = out_of_rounds
collect_from registry (suc rounds) seen (name ∷ pending) =
    elim (contains seen (to_lower_ascii name)) [
      | true ↦ collect_from registry rounds seen pending
      | false ↦ elim (find_object_class registry name) [
        | none ↦ unknown_class (codes "unknown object class " ++ name)
        | some object_class ↦ and_class object_class (
            collect_from registry rounds (to_lower_ascii name ∷ seen)
              (push_all object_class.superiors pending))
      ]
    ]

-- the superiors of the class at an index of the registry
abbrev superiors_at : Option SchemaObjectClass → ℕ
superiors_at none = 0
superiors_at (some object_class) = length object_class.superiors

-- the superiors of the classes in the index that are not seen yet
unfoldable pub unseen : List SchemaObjectClass → List Bytes → OrderedMap ℕ → ℕ
unfolding contains
unseen classes seen [] = 0
unseen classes seen ((key, i) ∷ index) =
    (if contains seen key then 0 else superiors_at (get_elem? classes i))
    + unseen classes seen index

unfoldable pub collect_object_classes : SchemaRegistry → List Bytes → Collected
unfolding collect_from unseen
collect_object_classes registry names =
    collect_from registry
      (length names + unseen registry.object_classes [] registry.object_class_index) []
      (push_all names [])

length-push_all :
    (names pending : List Bytes) → length (push_all names pending) ≡ length names + length pending
length-push_all [] pending = omega arith
length-push_all (name ∷ names) pending = omega (arith, length-push_all names (name ∷ pending))

-- one more name that is seen leaves no more to come
unseen_le :
    (classes : List SchemaObjectClass) (key : Bytes) (seen : List Bytes) (index : OrderedMap ℕ)
    → unseen classes (key ∷ seen) index ≤ unseen classes seen index
unfolding unseen contains
unseen_le classes key seen [] = omega arith
unseen_le classes key seen ((k, i) ∷ index) = ground (arith, unseen_le classes key seen index)

-- and takes away the superiors of the class that it names
unseen_found :
    (classes : List SchemaObjectClass) (key : Bytes) (seen : List Bytes) (i : ℕ)
    (index : OrderedMap ℕ)
    → contains seen key ≡ false
    → find_key key index ≡ some i
    → superiors_at (get_elem? classes i) + unseen classes (key ∷ seen) index
      ≤ unseen classes seen index
unfolding unseen contains find_first
unseen_found classes key seen i [] n e = absurd (cc)
unseen_found classes key seen i ((k, j) ∷ index) n e = elim (Bool-cases (equal k key)) [
  | inl same ↦
      let k_is = (equal_iff k key).0 same in
      let self = (equal_iff key k).1 (sym k_is) in
      let here : contains seen k ≡ false = ap (contains seen) k_is ∙ n in
      let at : superiors_at (get_elem? classes j) ≡ superiors_at (get_elem? classes i) =
        ground (arith, same, e) in
      ground (arith, self, here, at, unseen_le classes key seen index)
  | inr other ↦ ground (arith, unseen_found classes key seen i index n (ground (arith, other, e)))
]

found_at :
    (registry : SchemaRegistry) (name : Bytes) (object_class : SchemaObjectClass)
    → find_object_class registry name ≡ some object_class
    → (i : ℕ) × (find_key (to_lower_ascii name) registry.object_class_index ≡ some i)
      × (get_elem? registry.object_classes i ≡ some object_class)
unfolding find_object_class
found_at registry name object_class e =
    elim (Option-cases (find_key (to_lower_ascii name) registry.object_class_index)) [
      | inl f ↦ absurd (
          let x : none ≡ some object_class = ap (at_index registry.object_classes) (sym f) ∙ e in
          cc)
      | inr (i, f) ↦ (i, f, ap (at_index registry.object_classes) (sym f) ∙ e)
    ]

abbrev is_out : Collected → Bool
is_out (collected classes) = false
is_out (unknown_class text) = false
is_out out_of_rounds = true

is_out-and_class : (c : SchemaObjectClass) (r : Collected) → is_out (and_class c r) ≡ is_out r
is_out-and_class c (collected classes) = refl
is_out-and_class c (unknown_class text) = refl
is_out-and_class c out_of_rounds = refl

never_out :
    (registry : SchemaRegistry) (rounds : ℕ) (seen pending : List Bytes)
    → length pending + unseen registry.object_classes seen registry.object_class_index ≤ rounds
    → is_out (collect_from registry rounds seen pending) ≡ false
unfolding collect_from
never_out registry rounds seen [] h = refl
never_out registry zero seen (name ∷ pending) h = absurd (omega arith)
never_out registry (suc rounds) seen (name ∷ pending) h =
    elim (Bool-cases (contains seen (to_lower_ascii name))) [
      | inl e ↦ ground (arith, e, never_out registry rounds seen pending (omega arith))
      | inr e ↦ elim (Option-cases (find_object_class registry name)) [
        | inl f ↦ ground (arith, e, f)
        | inr (c, f) ↦
            let (i, found, is) = found_at registry name c f in
            let less =
              unseen_found registry.object_classes (to_lower_ascii name) seen i
                registry.object_class_index e found in
            let same : superiors_at (get_elem? registry.object_classes i) ≡ length c.superiors =
              ap superiors_at is in
            let size = length-push_all c.superiors pending in
            let rest =
              never_out registry rounds (to_lower_ascii name ∷ seen) (push_all c.superiors pending)
                (omega arith) in
            ground (
              arith,
              e,
              f,
              rest,
              is_out-and_class c (
                  collect_from registry rounds (to_lower_ascii name ∷ seen)
                    (push_all c.superiors pending)),
            )
      ]
    ]

collected_or_unknown :
    (r : Collected)
    → is_out r ≡ false
    → ((classes : List SchemaObjectClass) × (r ≡ collected classes))
      ⊎ ((text : Bytes) × (r ≡ unknown_class text))
collected_or_unknown (collected classes) h = inl (classes, refl)
collected_or_unknown (unknown_class text) h = inr (text, refl)
collected_or_unknown out_of_rounds h = cc

-- The search for the classes of an entry always ends, with the classes or with the text of an error,
-- also where the classes of the registry stand above each other in a circle.
pub collect_object_classes-ends :
    (registry : SchemaRegistry) (names : List Bytes)
    → ((classes : List SchemaObjectClass) × (collect_object_classes registry names
          ≡ collected classes))
      ⊎ ((text : Bytes) × (collect_object_classes registry names ≡ unknown_class text))
unfolding collect_object_classes
collect_object_classes-ends registry names = collected_or_unknown _ (
    never_out registry
      (length names + unseen registry.object_classes [] registry.object_class_index) []
      (push_all names []) (let size = length-push_all names [] in omega arith))
