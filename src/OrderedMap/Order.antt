-- ===== src/OrderedMap/Order.antt =====
-- The keys of a map stand in strictly increasing order, and every write keeps them so.
use simple_ldapd.Prelude.{◌≡◌, refl, Bool, true, false, [], ◌∷◌, arith, Bool-cases, inl, inr}
use simple_ldapd.Prelude.Bytes.{Bytes, equal}
use simple_ldapd.OrderedMap.{OrderedMap, key_lt, upsert, assign, set_first, erase_first}

key_lt_trans : (a b c : Bytes) → key_lt a b ≡ true → key_lt b c ≡ true → key_lt a c ≡ true
unfolding key_lt
key_lt_trans [] (y ∷ b) (z ∷ c) h k = refl
key_lt_trans (x ∷ a) (y ∷ b) (z ∷ c) h k = ground (arith, key_lt_trans a b c)
key_lt_trans _ _ _ h k = ground arith

key_lt_total : (a b : Bytes) → equal a b ≡ false → key_lt a b ≡ false → key_lt b a ≡ true
unfolding key_lt equal
key_lt_total (x ∷ a) (y ∷ b) h k = ground (arith, key_lt_total a b)
key_lt_total _ _ h k = ground arith

pub key_lt_irrefl : (a : Bytes) → key_lt a a ≡ false
unfolding key_lt
key_lt_irrefl [] = refl
key_lt_irrefl (x ∷ a) = ground (arith, key_lt_irrefl a)

module _ {ℓ} {V : Type ℓ} where
  -- Every key of the map is greater than `k`.
  abbrev pub Above : Bytes → OrderedMap V → Type 0
  Above k [] = Unit
  Above k ((j, v) ∷ m) = (key_lt k j ≡ true) × Above k m

  -- The keys increase strictly.
  abbrev pub IsOrdered : OrderedMap V → Type 0
  IsOrdered [] = Unit
  IsOrdered ((k, v) ∷ m) = Above k m × IsOrdered m

  Above-trans : (a b : Bytes) (m : OrderedMap V) → key_lt a b ≡ true → Above b m → Above a m
  Above-trans a b [] h u = tt
  Above-trans a b ((j, v) ∷ m) h u = (key_lt_trans a b j h u.0, Above-trans a b m h u.1)

  Above-upsert :
      (a k : Bytes) (d : V) (f : V → V) (m : OrderedMap V)
      → key_lt a k ≡ true
      → Above a m
      → Above a (upsert k d f m)
  unfolding upsert
  Above-upsert a k d f [] h u = (h, tt)
  Above-upsert a k d f ((j, w) ∷ m) h u = elim (Bool-cases (equal k j)) [
    | inl e ↦ rw e u
    | inr e ↦ elim (Bool-cases (key_lt k j)) [
      | inl l ↦ rw (e, l) (h, u)
      | inr l ↦ rw (e, l) (u.0, Above-upsert a k d f m h u.1)
    ]
  ]

  pub upsert-IsOrdered :
      (k : Bytes) (d : V) (f : V → V) (m : OrderedMap V) → IsOrdered m → IsOrdered (upsert k d f m)
  unfolding upsert
  upsert-IsOrdered k d f [] o = (tt, tt)
  upsert-IsOrdered k d f ((j, w) ∷ m) o = elim (Bool-cases (equal k j)) [
    | inl e ↦ rw e o
    | inr e ↦ elim (Bool-cases (key_lt k j)) [
      | inl l ↦ rw (e, l) ((l, Above-trans k j m l o.0), o)
      | inr l ↦
          rw (e, l)
            (Above-upsert j k d f m (key_lt_total k j e l) o.0, upsert-IsOrdered k d f m o.1)
    ]
  ]

  Above-set_first :
      (a : Bytes) (p : Bytes → Bool) (v : V) (m : OrderedMap V)
      → Above a m
      → Above a (set_first p v m)
  unfolding set_first
  Above-set_first a p v [] u = tt
  Above-set_first a p v ((j, w) ∷ m) u = elim (Bool-cases (p j)) [
    | inl e ↦ rw e u
    | inr e ↦ rw e (u.0, Above-set_first a p v m u.1)
  ]

  pub set_first-IsOrdered :
      (p : Bytes → Bool) (v : V) (m : OrderedMap V) → IsOrdered m → IsOrdered (set_first p v m)
  unfolding set_first
  set_first-IsOrdered p v [] o = tt
  set_first-IsOrdered p v ((j, w) ∷ m) o = elim (Bool-cases (p j)) [
    | inl e ↦ rw e o
    | inr e ↦ rw e (Above-set_first j p v m o.0, set_first-IsOrdered p v m o.1)
  ]

  Above-erase_first :
      (a : Bytes) (p : Bytes → Bool) (m : OrderedMap V) → Above a m → Above a (erase_first p m)
  unfolding erase_first
  Above-erase_first a p [] u = tt
  Above-erase_first a p ((j, w) ∷ m) u = elim (Bool-cases (p j)) [
    | inl e ↦ rw e u.1
    | inr e ↦ rw e (u.0, Above-erase_first a p m u.1)
  ]

  pub erase_first-IsOrdered :
      (p : Bytes → Bool) (m : OrderedMap V) → IsOrdered m → IsOrdered (erase_first p m)
  unfolding erase_first
  erase_first-IsOrdered p [] o = tt
  erase_first-IsOrdered p ((j, w) ∷ m) o = elim (Bool-cases (p j)) [
    | inl e ↦ rw e o.1
    | inr e ↦ rw e (Above-erase_first j p m o.0, erase_first-IsOrdered p m o.1)
  ]

  pub assign-IsOrdered :
      (k : Bytes) (v : V) (m : OrderedMap V) → IsOrdered m → IsOrdered (assign k v m)
  unfolding assign
  assign-IsOrdered k v m o = upsert-IsOrdered k v (λ w. v) m o
