-- ===== src/OrderedMap/Keys.antt =====
-- The entry at a key of an ordered map, after `m[k] = v` and after a loop that erases.
use simple_ldapd.Prelude.{
  ◌≡◌, refl, Bool, false, Option, none, some, [], ◌∷◌, arith, if◌then◌else◌, Bool-cases, inl, inr,
}
use simple_ldapd.Prelude.Bytes.{Bytes, equal, equal_iff, equal_refl}
use simple_ldapd.OrderedMap.{OrderedMap, upsert, assign, find_first, erase_if}
use simple_ldapd.OrderedMap.First.{find_first-upsert_ne}
use simple_ldapd.OrderedMap.Order.{Above, IsOrdered, key_lt_irrefl}

-- `m.find(k)`
abbrev pub find_key {ℓ} : {V : Type ℓ} → Bytes → OrderedMap V → Option V
find_key k m = find_first (λ j. equal j k) m

abbrev pub reject_if {ℓ} : {V : Type ℓ} → (V → Bool) → Option V → Option V
reject_if q none = none
reject_if q (some v) = if q v then none else some v

module _ {ℓ} {V : Type ℓ} where
  find_key-Above : (k : Bytes) (m : OrderedMap V) → Above k m → find_key k m ≡ none
  unfolding find_first
  find_key-Above k [] u = refl
  find_key-Above k ((j, v) ∷ m) u =
      ground (arith, find_key-Above k m u.1, equal_iff j k, key_lt_irrefl k, u.0)

  -- An assignment at a key is what the key finds.
  pub find_key-assign :
      (k : Bytes) (v : V) (m : OrderedMap V) → IsOrdered m → find_key k (assign k v m) ≡ some v
  unfolding find_first assign upsert
  find_key-assign k v [] o = ground (arith, equal_refl k)
  find_key-assign k v ((j, w) ∷ m) o =
      ground (arith, find_key-assign k v m o.1, equal_iff k j, equal_iff j k, equal_refl k)

  pub find_key-assign_ne :
      (k : Bytes) (v : V) (name : Bytes) (m : OrderedMap V)
      → equal k name ≡ false
      → find_key name (assign k v m) ≡ find_key name m
  unfolding assign
  find_key-assign_ne k v name m h = find_first-upsert_ne (λ j. equal j name) k v (λ w. v) m h

  Above-erase_if :
      (a : Bytes) (q : V → Bool) (m : OrderedMap V) → Above a m → Above a (erase_if q m)
  unfolding erase_if
  Above-erase_if a q [] u = tt
  Above-erase_if a q ((j, w) ∷ m) u = elim (Bool-cases (q w)) [
    | inl e ↦ rw e (Above-erase_if a q m u.1)
    | inr e ↦ rw e (u.0, Above-erase_if a q m u.1)
  ]

  pub erase_if-IsOrdered :
      (q : V → Bool) (m : OrderedMap V) → IsOrdered m → IsOrdered (erase_if q m)
  unfolding erase_if
  erase_if-IsOrdered q [] o = tt
  erase_if-IsOrdered q ((j, w) ∷ m) o = elim (Bool-cases (q w)) [
    | inl e ↦ rw e (erase_if-IsOrdered q m o.1)
    | inr e ↦ rw e (Above-erase_if j q m o.0, erase_if-IsOrdered q m o.1)
  ]

  -- The loop takes away the entry at a key where its value has the property, and no other.
  pub find_key-erase_if :
      (q : V → Bool) (k : Bytes) (m : OrderedMap V)
      → IsOrdered m
      → find_key k (erase_if q m) ≡ reject_if q (find_key k m)
  unfolding find_first erase_if
  find_key-erase_if q k [] o = refl
  find_key-erase_if q k ((j, w) ∷ m) o =
      let ih = find_key-erase_if q k m o.1 in
      let later = find_key-Above j (erase_if q m) (Above-erase_if j q m o.0) in
      elim (Bool-cases (equal j k)) [
        | inl e ↦ ground (arith, later, (equal_iff j k).0 e)
        | inr e ↦ ground (arith, ih)
      ]
