-- ===== src/OrderedMap.antt =====
-- `std::map` with string keys: a list of pairs in the order of the keys, as an iterator meets them.
pub mod First
pub mod Order
pub mod Distinct
pub mod Keys
use simple_ldapd.Prelude.{
  ℕ, ◌≡◌, Bool, true, false, Option, none, some, List, [], ◌∷◌, ltb, ◌==◌, if◌then◌else◌,
}
use simple_ldapd.Prelude.Bytes.{Bytes, equal}

abbrev pub OrderedMap {ℓ} : Type ℓ → Type ℓ
OrderedMap V = List (Bytes × V)

-- `operator<` of two strings: bytes are compared as unsigned, and a prefix comes first
unfoldable pub key_lt : Bytes → Bytes → Bool
key_lt [] [] = false
key_lt [] (y ∷ b) = true
key_lt (x ∷ a) [] = false
key_lt (x ∷ a) (y ∷ b) =
    let rest = key_lt a b in if ltb x y then true else if x == y then rest else false

module _ {ℓ} {V : Type ℓ} where
  -- `f` on the reference that `m[k]` returns; a key that is not there comes in with the value `d`
  unfoldable pub upsert : Bytes → V → (V → V) → OrderedMap V → OrderedMap V
  upsert k d f [] = (k, f d) ∷ []
  upsert k d f ((j, w) ∷ m) =
      let rest = upsert k d f m in
      if equal k j
      then (j, f w) ∷ m
      else if key_lt k j
      then (k, f d) ∷ (j, w) ∷ m
      else (j, w) ∷ rest

  -- `m[k] = v`
  unfoldable pub assign : Bytes → V → OrderedMap V → OrderedMap V
  unfolding upsert
  assign k v m = upsert k v (λ w. v) m

  -- a loop over the map, or `std::find_if`, that stops at the first key with the property
  unfoldable pub find_first : (Bytes → Bool) → OrderedMap V → Option V
  find_first p [] = none
  find_first p ((k, v) ∷ m) = if p k then some v else find_first p m

  -- a write through the iterator at that key
  unfoldable pub set_first : (Bytes → Bool) → V → OrderedMap V → OrderedMap V
  set_first p v [] = []
  set_first p v ((k, w) ∷ m) =
      let rest = set_first p v m in if p k then (k, v) ∷ m else (k, w) ∷ rest

  -- `m.erase(it)` at that key
  unfoldable pub erase_first : (Bytes → Bool) → OrderedMap V → OrderedMap V
  erase_first p [] = []
  erase_first p ((k, w) ∷ m) = let rest = erase_first p m in if p k then m else (k, w) ∷ rest

  -- a loop over the map that erases each entry whose value has the property
  unfoldable pub erase_if : (V → Bool) → OrderedMap V → OrderedMap V
  erase_if q [] = []
  erase_if q ((k, w) ∷ m) = let rest = erase_if q m in if q w then rest else (k, w) ∷ rest
