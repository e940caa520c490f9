-- ===== src/Schema/Closed.antt =====
-- schema/registry.cpp: what the search for classes finds, by their names and what stands above them.
use simple_ldapd.Prelude.{
  ℕ, zero, suc, ◌≡◌, refl, ap, sym, ◌∙◌, ◌⊎◌, true, some, List, [], ◌∷◌, arith, Bool-cases,
  Option-cases, inl, inr, Among, here, there, Among-cases, Among-nil,
}
use simple_ldapd.Prelude.Bytes.{Bytes, equal, equal_iff}
use simple_ldapd.Dn.{to_lower_ascii}
use simple_ldapd.OrderedMap.Keys.{find_key}
use simple_ldapd.Schema.{SchemaObjectClass, SchemaRegistry, find_object_class, at_index}
use simple_ldapd.Schema.Collect.{
  Collected, collected, unknown_class, out_of_rounds, contains, and_class, push_all, collect_from,
  collect_object_classes,
}
use mathlib.Core.Path.{subst}

-- a name of a class that is known and among the classes
abbrev pub IsCollected : SchemaRegistry → List SchemaObjectClass → Bytes → Type 0
IsCollected registry classes name =
    (c : SchemaObjectClass) × (find_object_class registry name ≡ some c) × Among c classes

-- the classes that the names name, and all that stand above them
pub data Reached (registry : SchemaRegistry) (names : List Bytes) : SchemaObjectClass → Type 0 where
  named :
      (name : Bytes) (c : SchemaObjectClass)
      → Among name names
      → find_object_class registry name ≡ some c
      → Reached registry names c
  above :
      (c : SchemaObjectClass) (superior : Bytes) (d : SchemaObjectClass)
      → Reached registry names c
      → Among superior c.superiors
      → find_object_class registry superior ≡ some d
      → Reached registry names d

-- a name that was seen before, or whose class is collected
abbrev Done : SchemaRegistry → List Bytes → List SchemaObjectClass → Bytes → Type 0
Done registry seen classes name =
    (contains seen (to_lower_ascii name) ≡ true) ⊎ IsCollected registry classes name

-- names that differ only in case have the same class
find_object_class-lower :
    (registry : SchemaRegistry) (name other : Bytes)
    → to_lower_ascii name ≡ to_lower_ascii other
    → find_object_class registry name ≡ find_object_class registry other
unfolding find_object_class
find_object_class-lower registry name other e =
    ap (λ key. at_index registry.object_classes (find_key key registry.object_class_index)) e

Done-next :
    (registry : SchemaRegistry) (seen : List Bytes) (classes : List SchemaObjectClass)
    (name other : Bytes) (c : SchemaObjectClass)
    → find_object_class registry name ≡ some c
    → Done registry (to_lower_ascii name ∷ seen) classes other
    → Done registry seen (c ∷ classes) other
unfolding contains
Done-next registry seen classes name other c f (inr (d, g, among)) = inr (d, g, there among)
Done-next registry seen classes name other c f (inl h) =
    elim (Bool-cases (equal (to_lower_ascii name) (to_lower_ascii other))) [
      | inl e ↦
          let same = (equal_iff (to_lower_ascii name) (to_lower_ascii other)).0 e in
          inr (c, sym (find_object_class-lower registry name other same) ∙ f, here)
      | inr e ↦ inl (ground (arith, e, h))
    ]

pushed_first :
    (name : Bytes) (pending names : List Bytes)
    → Among name pending
    → Among name (push_all names pending)
pushed_first name pending [] a = a
pushed_first name pending (n ∷ names) a = pushed_first name (n ∷ pending) names (there a)

pushed_all :
    (name : Bytes) (pending names : List Bytes)
    → Among name names
    → Among name (push_all names pending)
pushed_all name pending _ (here {xs = names}) = pushed_first name (name ∷ pending) names here
pushed_all name pending _ (there {y = n} {xs = names} a) = pushed_all name (n ∷ pending) names a

pushed_from :
    (name : Bytes) (pending names : List Bytes)
    → Among name (push_all names pending)
    → Among name names ⊎ Among name pending
pushed_from name pending [] a = inr a
pushed_from name pending (n ∷ names) a = elim (pushed_from name (n ∷ pending) names a) [
  | inl b ↦ inl (there b)
  | inr b ↦ elim (Among-cases name n pending b) [
    | inl e ↦ inl (subst (λ x. Among name (x ∷ names)) e here)
    | inr later ↦ inr later
  ]
]

-- every pending name and every superior is done with
abbrev AllDone : SchemaRegistry → List Bytes → List Bytes → List SchemaObjectClass → Type 0
AllDone registry seen pending classes =
    ((name : Bytes) → Among name pending → Done registry seen classes name)
    × ((c : SchemaObjectClass) (superior : Bytes)
        → Among c classes
        → Among superior c.superiors
        → Done registry seen classes superior)

abbrev classes_of : List SchemaObjectClass → Collected → List SchemaObjectClass
classes_of other (collected classes) = classes
classes_of other (unknown_class text) = other
classes_of other out_of_rounds = other

and_class_collected :
    (c : SchemaObjectClass) (r : Collected) (classes : List SchemaObjectClass)
    → and_class c r ≡ collected classes
    → (rest : List SchemaObjectClass) × (r ≡ collected rest) × (classes ≡ c ∷ rest)
and_class_collected c (collected rest) classes h = (rest, refl, ap (classes_of []) (sym h))
and_class_collected c (unknown_class text) classes h = absurd (cc)
and_class_collected c out_of_rounds classes h = absurd (cc)

-- one class more
step_done :
    (registry : SchemaRegistry) (seen pending : List Bytes) (rest : List SchemaObjectClass)
    (name : Bytes) (c : SchemaObjectClass)
    → find_object_class registry name ≡ some c
    → AllDone registry (to_lower_ascii name ∷ seen) (push_all c.superiors pending) rest
    → AllDone registry seen (name ∷ pending) (c ∷ rest)
step_done registry seen pending rest name c f (all, closed) = (
  λ other a. elim (Among-cases other name pending a) [
    | inl same ↦ inr (c, ap (find_object_class registry) same ∙ f, here)
    | inr later ↦
        Done-next registry seen rest name other c f
          (all other (pushed_first other pending c.superiors later))
  ],
  λ d superior a b. elim (Among-cases d c rest a) [
    | inl same ↦ Done-next registry seen rest name superior c f (
        all superior (
          pushed_all superior pending c.superiors (subst (λ e. Among superior e.superiors) same b)))
    | inr later ↦ Done-next registry seen rest name superior c f (closed d superior later b)
  ],
)

collect_from_done :
    (registry : SchemaRegistry) (rounds : ℕ) (seen pending : List Bytes)
    (classes : List SchemaObjectClass)
    → collect_from registry rounds seen pending ≡ collected classes
    → AllDone registry seen pending classes
unfolding collect_from
collect_from_done registry rounds seen [] classes h =
    let none_left : classes ≡ [] = ap (classes_of []) (sym h) in
    (
      λ name a. absurd (Among-nil name a),
      λ c s a b. absurd (Among-nil c (subst (Among c) none_left a)),
    )
collect_from_done registry zero seen (name ∷ pending) classes h = absurd (cc)
collect_from_done registry (suc rounds) seen (name ∷ pending) classes h =
    elim (Bool-cases (contains seen (to_lower_ascii name))) [
      | inl e ↦
          let (all, closed) =
            collect_from_done registry rounds seen pending classes (ground (arith, e, h)) in
          (
            λ other a. elim (Among-cases other name pending a) [
              | inl same ↦ inl (ap (λ n. contains seen (to_lower_ascii n)) same ∙ e)
              | inr later ↦ all other later
            ],
            closed,
          )
      | inr e ↦ elim (Option-cases (find_object_class registry name)) [
        | inl f ↦ absurd (ground (arith, e, f, h))
        | inr (c, f) ↦
            let (rest, found, all) =
              and_class_collected c
                (collect_from registry rounds (to_lower_ascii name ∷ seen)
                  (push_all c.superiors pending))
                classes (ground (arith, e, f, h)) in
            subst (AllDone registry seen (name ∷ pending)) (sym all) (
              step_done registry seen pending rest name c f (
                collect_from_done registry rounds (to_lower_ascii name ∷ seen)
                  (push_all c.superiors pending) rest found))
      ]
    ]

unseen_at_first :
    (registry : SchemaRegistry) (classes : List SchemaObjectClass) (name : Bytes)
    → Done registry [] classes name
    → IsCollected registry classes name
unfolding contains
unseen_at_first registry classes name (inl h) = absurd (cc)
unseen_at_first registry classes name (inr known) = known

-- where a pending name comes from
abbrev Origin : SchemaRegistry → List Bytes → Bytes → Type 0
Origin registry names name =
    Among name names ⊎ ((c : SchemaObjectClass) × Reached registry names c × Among name c.superiors)

Origin-Reached :
    (registry : SchemaRegistry) (names : List Bytes) (name : Bytes) (c : SchemaObjectClass)
    → Origin registry names name
    → find_object_class registry name ≡ some c
    → Reached registry names c
Origin-Reached registry names name c (inl a) f = named name c a f
Origin-Reached registry names name c (inr (d, r, a)) f = above d name c r a f

collect_from-Reached :
    (registry : SchemaRegistry) (names : List Bytes) (rounds : ℕ) (seen pending : List Bytes)
    (classes : List SchemaObjectClass)
    → ((name : Bytes) → Among name pending → Origin registry names name)
    → collect_from registry rounds seen pending ≡ collected classes
    → (c : SchemaObjectClass) → Among c classes
    → Reached registry names c
unfolding collect_from
collect_from-Reached registry names rounds seen [] classes o h c a =
    let none_left : classes ≡ [] = ap (classes_of []) (sym h) in
    absurd (Among-nil c (subst (Among c) none_left a))
collect_from-Reached registry names zero seen (name ∷ pending) classes o h c a = absurd (cc)
collect_from-Reached registry names (suc rounds) seen (name ∷ pending) classes o h c a =
    elim (Bool-cases (contains seen (to_lower_ascii name))) [
      | inl e ↦
          collect_from-Reached registry names rounds seen pending classes
            (λ other later. o other (there later)) (ground (arith, e, h)) c a
      | inr e ↦ elim (Option-cases (find_object_class registry name)) [
        | inl f ↦ absurd (ground (arith, e, f, h))
        | inr (d, f) ↦
            let (rest, found, all) =
              and_class_collected d
                (collect_from registry rounds (to_lower_ascii name ∷ seen)
                  (push_all d.superiors pending))
                classes (ground (arith, e, f, h)) in
            let reached = Origin-Reached registry names name d (o name here) f in
            let origins : (other : Bytes)
                → Among other (push_all d.superiors pending)
                → Origin registry names other =
              λ other pushed. elim (pushed_from other pending d.superiors pushed) [
                | inl up ↦ inr (d, reached, up)
                | inr later ↦ o other (there later)
              ] in
            elim (Among-cases c d rest (subst (Among c) all a)) [
              | inl same ↦ subst (Reached registry names) (sym same) reached
              | inr later ↦
                  collect_from-Reached registry names rounds (to_lower_ascii name ∷ seen)
                    (push_all d.superiors pending) rest origins found c later
            ]
      ]
    ]

-- the classes of the names and all above them, and no others
pub record IsClosure (registry : SchemaRegistry) (names : List Bytes)
    (classes : List SchemaObjectClass) : Type 0 where
  pub of_names : (name : Bytes) → Among name names → IsCollected registry classes name
  pub of_superiors :
      (c : SchemaObjectClass) (superior : Bytes)
      → Among c classes
      → Among superior c.superiors
      → IsCollected registry classes superior
  pub no_others : (c : SchemaObjectClass) → Among c classes → Reached registry names c

pub collected-IsClosure :
    (registry : SchemaRegistry) (names : List Bytes) (classes : List SchemaObjectClass)
    → collect_object_classes registry names ≡ collected classes
    → IsClosure registry names classes
unfolding collect_object_classes
collected-IsClosure registry names classes h =
    let (all, closed) = collect_from_done registry _ [] (push_all names []) classes h in
    record {
      of_names =
          λ name a. unseen_at_first registry classes name (all name (pushed_all name [] names a));
      of_superiors =
          λ c superior a b. unseen_at_first registry classes superior (closed c superior a b);
      no_others =
          collect_from-Reached registry names _ [] (push_all names []) classes
            (λ name pushed. elim (pushed_from name [] names pushed) [
              | inl a ↦ inl a
              | inr a ↦ absurd (Among-nil name a)
            ])
            h;
    }
