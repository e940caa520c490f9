-- ===== src/OrderedMap/Distinct.antt =====
-- Maps in which no two keys are the same up to an equivalence, such as equality up to case.
use simple_ldapd.Prelude.{
  ◌≡◌, refl, sym, ◌∙◌, Bool, true, false, none, some, [], ◌∷◌, arith, if◌then◌else◌, Bool-cases,
  inl, inr,
}
use simple_ldapd.Prelude.Bytes.{Bytes, equal, equal_iff}
use simple_ldapd.OrderedMap.{OrderedMap, key_lt, upsert, assign, find_first, set_first, erase_first}
use simple_ldapd.OrderedMap.First.{
  find_first-upsert_ne, find_first-upsert_new, find_first-ext, find_first-set_self,
  find_first-set_ne, find_first-set_none, find_first-erase_none, find_first-cons_none,
}

-- The keys of `same` are compared by a normal form.
pub record IsSameness (same : Bytes → Bytes → Bool) : Type 0 where
  pub reflexive : (k : Bytes) → same k k ≡ true
  pub symmetric : (k j : Bytes) → same k j ≡ same j k
  pub transports : (k name j : Bytes) → same k name ≡ true → same j k ≡ same j name

module _ {ℓ} {V : Type ℓ} (same : Bytes → Bytes → Bool) where
  -- No later key is the same as an earlier one.
  abbrev pub IsDistinct : OrderedMap V → Type ℓ
  IsDistinct [] = Unit
  IsDistinct ((k, v) ∷ m) = (find_first (λ j. same j k) m ≡ none) × IsDistinct m

module _ (same : Bytes → Bytes → Bool) (eqv : IsSameness same) where
  pub apart : (key name k : Bytes) → same key name ≡ false → same k key ≡ true → same k name ≡ false
  apart key name k e h =
      eqv.symmetric k name ∙ eqv.transports k key name h ∙ eqv.symmetric name key ∙ e

module _ {ℓ} {V : Type ℓ} (same : Bytes → Bytes → Bool) (eqv : IsSameness same) where
  pub find_first-same :
      (k name : Bytes) (m : OrderedMap V)
      → same k name ≡ true
      → find_first (λ j. same j k) m ≡ find_first (λ j. same j name) m
  find_first-same k name m h = find_first-ext _ _ m (λ j. eqv.transports k name j h)

  pub find_first-assign :
      (k : Bytes) (v : V) (name : Bytes) (m : OrderedMap V)
      → find_first (λ j. same j k) m ≡ none
      → find_first (λ j. same j name) (assign k v m)
        ≡ (if same k name then some v else find_first (λ j. same j name) m)
  unfolding assign
  find_first-assign k v name m n = elim (Bool-cases (same k name)) [
    | inl e ↦ rw e (
        find_first-upsert_new (λ j. same j name) k v (λ w. v) m e
          (sym (find_first-same k name m e) ∙ n))
    | inr e ↦ rw e (find_first-upsert_ne (λ j. same j name) k v (λ w. v) m e)
  ]

  pub assign-IsDistinct :
      (k : Bytes) (v : V) (m : OrderedMap V)
      → find_first (λ j. same j k) m ≡ none
      → IsDistinct same m
      → IsDistinct same (assign k v m)
  unfolding assign upsert
  assign-IsDistinct k v [] n d = (unfold find_first in refl, tt)
  assign-IsDistinct k v ((j, w) ∷ m) n d =
      let (other, free) = find_first-cons_none _ j w m n in
      let other' = eqv.symmetric k j ∙ other in
      elim (Bool-cases (equal k j)) [
        | inl e ↦ absurd (ground (arith, (equal_iff k j).0 e, eqv.reflexive j))
        | inr e ↦ elim (Bool-cases (key_lt k j)) [
          | inl l ↦ rw (e, l) (n, d)
          | inr l ↦
              rw (e, l)
                (
                  find_first-upsert_ne (λ i. same i j) k v (λ x. v) m other' ∙ d.0,
                  assign-IsDistinct k v m free d.1,
                )
        ]
      ]

  pub find_first-set :
      (key : Bytes) (v w : V) (name : Bytes) (m : OrderedMap V)
      → find_first (λ j. same j key) m ≡ some w
      → find_first (λ j. same j name) (set_first (λ j. same j key) v m)
        ≡ (if same key name then some v else find_first (λ j. same j name) m)
  find_first-set key v w name m h = elim (Bool-cases (same key name)) [
    | inl e ↦ rw e (
        sym (find_first-same key name (set_first (λ j. same j key) v m) e)
        ∙ find_first-set_self (λ j. same j key) v w m h)
    | inr e ↦
        rw e (find_first-set_ne (λ j. same j key) _ v m (λ k x. apart same eqv key name k e x))
  ]

  pub set_first-IsDistinct :
      (key : Bytes) (v : V) (m : OrderedMap V)
      → IsDistinct same m
      → IsDistinct same (set_first (λ j. same j key) v m)
  unfolding set_first
  set_first-IsDistinct key v [] d = tt
  set_first-IsDistinct key v ((j, w) ∷ m) d = elim (Bool-cases (same j key)) [
    | inl e ↦ rw e d
    | inr e ↦ rw e (find_first-set_none _ _ v m d.0, set_first-IsDistinct key v m d.1)
  ]

  pub find_first-erase :
      (key name : Bytes) (m : OrderedMap V)
      → IsDistinct same m
      → find_first (λ j. same j name) (erase_first (λ j. same j key) m)
        ≡ (if same key name then none else find_first (λ j. same j name) m)
  unfolding find_first erase_first
  find_first-erase key name [] d = ground arith
  find_first-erase key name ((j, w) ∷ m) d =
      let ih = find_first-erase key name m d.1 in
      elim (Bool-cases (same key name)) [
        | inl e ↦ ground (
          arith,
          ih,
          eqv.transports key name j e,
          λ (x : same j name ≡ true). find_first-same j name m x,
        )
        | inr e ↦ ground (arith, ih, apart same eqv key name j e)
      ]

  pub erase_first-IsDistinct :
      (key : Bytes) (m : OrderedMap V)
      → IsDistinct same m
      → IsDistinct same (erase_first (λ j. same j key) m)
  unfolding erase_first
  erase_first-IsDistinct key [] d = tt
  erase_first-IsDistinct key ((j, w) ∷ m) d = elim (Bool-cases (same j key)) [
    | inl e ↦ rw e d.1
    | inr e ↦ rw e (find_first-erase_none _ _ m d.0, erase_first-IsDistinct key m d.1)
  ]
