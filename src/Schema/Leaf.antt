-- ===== src/Schema/Leaf.antt =====
-- schema/registry.cpp: the one structural class below all others, and the types that classes allow.
use simple_ldapd.Prelude.{
  ◌≡◌, refl, ap, sym, ◌∙◌, Bool, true, false, ◌||◌, Option, none, some, List, [], ◌∷◌, arith,
  Bool-cases, inl, inr, Among, any_of, any_of_sound, any_of_complete,
}
use simple_ldapd.Prelude.Bytes.{Bytes, codes, equal, equal_iff}
use simple_ldapd.OrderedMap.{find_first, assign, upsert}
use simple_ldapd.Dn.{to_lower_ascii}
use simple_ldapd.Schema.{
  ObjectClassKind, abstract, structural, auxiliary, SchemaObjectClass, SchemaRegistry,
  find_object_class,
}
use simple_ldapd.Schema.Validate.{
  Names, has_name, first_name, add_classes, count_leaves, initial_sets,
}
use simple_ldapd.Schema.Sets.{
  lists, is_structural, is_primary, parent_is, is_above, add_classes_names,
}

-- the name of a structural class that stands directly above a structural class
pub data IsCovered (registry : SchemaRegistry) (classes : List SchemaObjectClass) (n : Bytes)
    : Type 0 where
  covered :
      (c : SchemaObjectClass) (superior : Bytes) (parent : SchemaObjectClass)
      → Among c classes
      → c.kind ≡ structural
      → Among superior c.superiors
      → find_object_class registry superior ≡ some parent
      → parent.kind ≡ structural
      → to_lower_ascii (first_name parent.names) ≡ n
      → IsCovered registry classes n

-- the name of a structural class of the classes that stands above no other
pub record IsLeaf (registry : SchemaRegistry) (classes : List SchemaObjectClass) (n : Bytes)
    : Type 0 where
  pub leaf : SchemaObjectClass
  pub among : Among leaf classes
  pub kind : leaf.kind ≡ structural
  pub name : to_lower_ascii (first_name leaf.names) ≡ n
  pub uncovered : ¬ IsCovered registry classes n

count_none :
    (superiors names : Names) (n : Bytes)
    → count_leaves superiors names ≡ 0
    → has_name names n ≡ true
    → has_name superiors n ≡ true
unfolding count_leaves find_first
count_none superiors [] n h p = absurd (cc)
count_none superiors ((j, b) ∷ names) n h p = elim (Bool-cases (has_name superiors j)) [
  | inr e ↦ absurd (ground (arith, e, h))
  | inl e ↦ elim (Bool-cases (equal j n)) [
    | inl same ↦ ap (has_name superiors) (sym ((equal_iff j n).0 same)) ∙ e
    | inr other ↦ count_none superiors names n (ground (arith, e, h)) (ground (arith, other, p))
  ]
]

-- the only name that counts
abbrev Alone : Names → Names → Bytes → Type 0
Alone superiors names n =
    (has_name names n ≡ true)
    × (has_name superiors n ≡ false)
    × ((m : Bytes) → has_name names m ≡ true → has_name superiors m ≡ false → m ≡ n)

clash : {A : Type 0} {b : Bool} → b ≡ true → b ≡ false → A
clash p q = absurd (let x : true ≡ false = sym p ∙ q in cc)

count_one :
    (superiors names : Names)
    → count_leaves superiors names ≡ 1
    → (n : Bytes) × Alone superiors names n
unfolding count_leaves find_first
count_one superiors [] h = absurd (cc)
count_one superiors ((j, b) ∷ names) h = elim (Bool-cases (has_name superiors j)) [
  | inl e ↦
      let (n, (here_too, bare, alone)) = count_one superiors names (ground (arith, e, h)) in
      (
        n,
        (
          elim (Bool-cases (equal j n)) [
            | inl same ↦ ground (arith, same)
            | inr other ↦ ground (arith, other, here_too)
          ],
          bare,
          λ m p q. elim (Bool-cases (equal j m)) [
            | inl same ↦ clash (ap (has_name superiors) (sym ((equal_iff j m).0 same)) ∙ e) q
            | inr other ↦ alone m (ground (arith, other, p)) q
          ],
        ),
      )
  | inr e ↦
      let rest : count_leaves superiors names ≡ 0 = ground (arith, e, h) in
      (
        j,
        (
          ground (arith, (equal_iff j j).1 refl),
          e,
          λ m p q. elim (Bool-cases (equal j m)) [
            | inl same ↦ sym ((equal_iff j m).0 same)
            | inr other ↦ clash (count_none superiors names m rest (ground (arith, other, p))) q
          ],
        ),
      )
]

structural_kind : (kind : ObjectClassKind) → is_structural kind ≡ true → kind ≡ structural
structural_kind structural h = refl
structural_kind abstract h = cc
structural_kind auxiliary h = cc

primary_sound :
    (n : Bytes) (c : SchemaObjectClass)
    → is_primary n c ≡ true
    → (c.kind ≡ structural) × (to_lower_ascii (first_name c.names) ≡ n)
primary_sound n c h = (
  structural_kind c.kind (ground arith),
  (equal_iff (to_lower_ascii (first_name c.names)) n).0 (ground arith),
)

primary_complete :
    (n : Bytes) (c : SchemaObjectClass)
    → c.kind ≡ structural
    → to_lower_ascii (first_name c.names) ≡ n
    → is_primary n c ≡ true
primary_complete n c k e =
    ground (arith, ap is_structural k, (equal_iff (to_lower_ascii (first_name c.names)) n).1 e)

parent_sound :
    (n : Bytes) (o : Option SchemaObjectClass)
    → parent_is n o ≡ true
    → (parent : SchemaObjectClass) × (o ≡ some parent) × (is_primary n parent ≡ true)
parent_sound n none h = absurd (cc)
parent_sound n (some parent) h = (parent, refl, h)

IsCovered-sound :
    (registry : SchemaRegistry) (n : Bytes) (classes : List SchemaObjectClass)
    → any_of (is_above registry n) classes ≡ true
    → IsCovered registry classes n
IsCovered-sound registry n classes h =
    let (c, among, above) = any_of_sound (is_above registry n) classes h in
    let (superior, listed, is_parent) =
      any_of_sound (λ superior. parent_is n (find_object_class registry superior)) c.superiors
        (ground arith) in
    let (parent, found, primary) = parent_sound n (find_object_class registry superior) is_parent in
    let (kind, name) = primary_sound n parent primary in
    covered c superior parent among (structural_kind c.kind (ground arith)) listed found kind name

IsCovered-complete :
    (registry : SchemaRegistry) (n : Bytes) (classes : List SchemaObjectClass)
    → IsCovered registry classes n
    → any_of (is_above registry n) classes ≡ true
IsCovered-complete registry n classes
      (covered c superior parent among kind listed found kind' name) =
    let is_parent : parent_is n (find_object_class registry superior) ≡ true =
      ap (parent_is n) found ∙ primary_complete n parent kind' name in
    let any =
      any_of_complete (λ superior. parent_is n (find_object_class registry superior)) superior
        c.superiors listed is_parent in
    any_of_complete (is_above registry n) c classes among
      (ground (arith, ap is_structural kind, any))

IsLeaf-alone :
    (registry : SchemaRegistry) (classes : List SchemaObjectClass) (n : Bytes)
    → any_of (is_primary n) classes ≡ true
    → any_of (is_above registry n) classes ≡ false
    → IsLeaf registry classes n
IsLeaf-alone registry classes n p q =
    let (c, among, primary) = any_of_sound (is_primary n) classes p in
    let (kind, name) = primary_sound n c primary in
    record {
      leaf = c;
      among = among;
      kind = kind;
      name = name;
      uncovered = λ h. clash (IsCovered-complete registry n classes h) q;
    }

-- one structural class, by its first name, that stands above no other
abbrev pub HasOneLeaf : SchemaRegistry → List SchemaObjectClass → Type 0
HasOneLeaf registry classes =
    (n : Bytes) × IsLeaf registry classes n × ((m : Bytes) → IsLeaf registry classes m → m ≡ n)

pub count_leaves-HasOneLeaf :
    (registry : SchemaRegistry) (classes : List SchemaObjectClass)
    → count_leaves
        (add_classes registry classes initial_sets).structural_superiors
        (add_classes registry classes initial_sets).structural_names
      ≡ 1
    → HasOneLeaf registry classes
unfolding find_first
count_leaves-HasOneLeaf registry classes h =
    let sets = add_classes registry classes initial_sets in
    let (n, (there_is, bare, alone)) =
      count_one sets.structural_superiors sets.structural_names h in
    let (first, above, _) = add_classes_names registry n classes initial_sets in
    (
      n,
      IsLeaf-alone registry classes n (ground (arith, first, there_is))
          (ground (arith, above, bare)),
      λ m l.
          let (first', above', _) = add_classes_names registry m classes initial_sets in
          alone m
            (ground (
              arith,
              first',
              any_of_complete (is_primary m) l.leaf classes l.among
                  (primary_complete m l.leaf l.kind l.name),
            ))
            (elim (Bool-cases (any_of (is_above registry m) classes)) [
              | inl e ↦ absurd (l.uncovered (IsCovered-sound registry m classes e))
              | inr e ↦ ground (arith, above', e)
            ]),
    )

-- a type that a class of the classes allows or requires
pub data IsAllowed (classes : List SchemaObjectClass) (type : Bytes) : Type 0 where
  by_may :
      (c : SchemaObjectClass) (name : Bytes)
      → Among c classes
      → Among name c.may
      → to_lower_ascii name ≡ to_lower_ascii type
      → IsAllowed classes type
  by_must :
      (c : SchemaObjectClass) (name : Bytes)
      → Among c classes
      → Among name c.must
      → to_lower_ascii name ≡ to_lower_ascii type
      → IsAllowed classes type

listed_sound :
    (n : Bytes) (names : List Bytes)
    → lists n names ≡ true
    → (name : Bytes) × Among name names × (to_lower_ascii name ≡ n)
listed_sound n names h =
    let (name, among, same) = any_of_sound (λ name. equal (to_lower_ascii name) n) names h in
    (name, among, (equal_iff (to_lower_ascii name) n).0 same)

pub allowed_sound :
    (registry : SchemaRegistry) (classes : List SchemaObjectClass) (type : Bytes)
    → equal (to_lower_ascii type) (codes "objectclass") ≡ false
    → has_name (add_classes registry classes initial_sets).allowed (to_lower_ascii type) ≡ true
    → IsAllowed classes type
unfolding find_first assign upsert
allowed_sound registry classes type other h =
    let key = to_lower_ascii type in
    let (_, _, allowed) = add_classes_names registry key classes initial_sets in
    let not_it : equal (codes "objectclass") key ≡ false =
      elim (Bool-cases (equal (codes "objectclass") key)) [
        | inr e ↦ e
        | inl e ↦
            clash
              ((equal_iff key (codes "objectclass")).1
                (sym ((equal_iff (codes "objectclass") key).0 e)))
              other
      ] in
    let some_class : any_of (λ c. lists key c.may || lists key c.must) classes ≡ true =
      ground (arith, allowed, h, not_it) in
    let (c, among, in_lists) =
      any_of_sound (λ c. lists key c.may || lists key c.must) classes some_class in
    elim (Bool-cases (lists key c.may)) [
      | inl e ↦
          let (name, listed, same) = listed_sound key c.may e in by_may c name among listed same
      | inr e ↦
          let (name, listed, same) = listed_sound key c.must (ground (arith, e, in_lists)) in
          by_must c name among listed same
    ]
