-- ===== src/OrderedMap/First.antt =====
-- The first key with a property, after each kind of write. `same` is an equivalence on keys, such as
-- equality up to case; a map in which no two keys are the same holds at most one entry for a name.
use simple_ldapd.Prelude.{◌≡◌, refl, Bool, true, false, none, some, [], ◌∷◌, arith}
use simple_ldapd.Prelude.Bytes.{Bytes, equal_iff}
use simple_ldapd.OrderedMap.{OrderedMap, upsert, find_first, set_first, erase_first}

module _ {ℓ} {V : Type ℓ} where
  -- A write at a key without the property leaves the first key with it alone.
  pub find_first-upsert_ne :
      (p : Bytes → Bool) (k : Bytes) (d : V) (f : V → V) (m : OrderedMap V)
      → p k ≡ false
      → find_first p (upsert k d f m) ≡ find_first p m
  unfolding find_first upsert
  find_first-upsert_ne p k d f [] h = ground arith
  find_first-upsert_ne p k d f ((j, w) ∷ m) h =
      ground (arith, find_first-upsert_ne p k d f m h, equal_iff k j)

  -- Where no key has the property, a write at one that has is found.
  pub find_first-upsert_new :
      (p : Bytes → Bool) (k : Bytes) (d : V) (f : V → V) (m : OrderedMap V)
      → p k ≡ true
      → find_first p m ≡ none
      → find_first p (upsert k d f m) ≡ some (f d)
  unfolding find_first upsert
  find_first-upsert_new p k d f [] h n = ground arith
  find_first-upsert_new p k d f ((j, w) ∷ m) h n =
      ground (arith, find_first-upsert_new p k d f m h, equal_iff k j)

  pub find_first-set_self :
      (p : Bytes → Bool) (v w : V) (m : OrderedMap V)
      → find_first p m ≡ some w
      → find_first p (set_first p v m) ≡ some v
  unfolding find_first set_first
  find_first-set_self p v w [] h = cc
  find_first-set_self p v w ((k, x) ∷ m) h = ground (arith, find_first-set_self p v w m)

  -- Two properties that no key shares do not meet.
  pub find_first-set_ne :
      (p q : Bytes → Bool) (v : V) (m : OrderedMap V)
      → ((k : Bytes) → p k ≡ true → q k ≡ false)
      → find_first q (set_first p v m) ≡ find_first q m
  unfolding find_first set_first
  find_first-set_ne p q v [] h = refl
  find_first-set_ne p q v ((k, x) ∷ m) h = ground (arith, find_first-set_ne p q v m h, h k)

  pub find_first-erase_ne :
      (p q : Bytes → Bool) (m : OrderedMap V)
      → ((k : Bytes) → p k ≡ true → q k ≡ false)
      → find_first q (erase_first p m) ≡ find_first q m
  unfolding find_first erase_first
  find_first-erase_ne p q [] h = refl
  find_first-erase_ne p q ((k, x) ∷ m) h = ground (arith, find_first-erase_ne p q m h, h k)

  pub set_first-none :
      (p : Bytes → Bool) (v : V) (m : OrderedMap V) → find_first p m ≡ none → set_first p v m ≡ m
  unfolding find_first set_first
  set_first-none p v [] h = refl
  set_first-none p v ((k, x) ∷ m) h = ground (arith, set_first-none p v m)

  pub find_first-ext :
      (p q : Bytes → Bool) (m : OrderedMap V)
      → ((k : Bytes) → p k ≡ q k)
      → find_first p m ≡ find_first q m
  unfolding find_first
  find_first-ext p q [] h = refl
  find_first-ext p q ((k, x) ∷ m) h = rw (h k, find_first-ext p q m h)

  -- Writes at keys that are there bring in no key.
  pub find_first-set_none :
      (p q : Bytes → Bool) (v : V) (m : OrderedMap V)
      → find_first q m ≡ none
      → find_first q (set_first p v m) ≡ none
  unfolding find_first set_first
  find_first-set_none p q v [] h = refl
  find_first-set_none p q v ((k, x) ∷ m) h = ground (arith, find_first-set_none p q v m)

  pub find_first-erase_none :
      (p q : Bytes → Bool) (m : OrderedMap V)
      → find_first q m ≡ none
      → find_first q (erase_first p m) ≡ none
  unfolding find_first erase_first
  find_first-erase_none p q [] h = refl
  find_first-erase_none p q ((k, x) ∷ m) h = ground (arith, find_first-erase_none p q m)

  pub find_first-cons_none :
      (p : Bytes → Bool) (k : Bytes) (v : V) (m : OrderedMap V)
      → find_first p ((k, v) ∷ m) ≡ none
      → (p k ≡ false) × (find_first p m ≡ none)
  unfolding find_first
  find_first-cons_none p k v m h = ground arith
