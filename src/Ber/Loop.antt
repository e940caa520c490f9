-- ===== src/Ber/Loop.antt =====
-- The loops `while (!reader.atEnd())` of the decoders, each of which reads one item in a round.
use simple_ldapd.Prelude.{
  ℕ, zero, suc, ◌<◌, ◌≡◌, refl, ap, false, Option, none, some, List, [], ◌∷◌, ◌++◌, arith, leb,
  if◌then◌else◌, length, length-append, Bool-cases, inl, inr,
}
use simple_ldapd.Prelude.Bytes.{Bytes}
use simple_ldapd.Ber.Reader.{BerReader, reader, Read, continue, ◌>>=◌, pure, fail, at_end}

-- With `fuel` rounds at most; a round reads an item and goes on behind it.
unfoldable pub read_all : {A : Type 0} → ℕ → Read A → Read (List A)
unfolding at_end
read_all zero item r = fail r
read_all (suc fuel) item r =
    let round = continue (item r) (λ a. read_all fuel item >>= λ items. pure (a ∷ items)) in
    if at_end r then (some [], r) else round

-- One round for each byte left is enough, since an item has at least one.
unfoldable pub read_list : {A : Type 0} → Read A → Read (List A)
unfolding read_all
read_list item r = read_all (suc (length r.rest)) item r

-- A read that succeeds leaves fewer bytes.
abbrev pub Shrinks : {A : Type 0} → Read A → Type 0
Shrinks {A} item =
    (r : BerReader) (a : A) → (item r).0 ≡ some a → length (item r).1.rest < length r.rest

module _ {A : Type 0} (encode : A → Bytes) where
  abbrev pub encodings : List A → Bytes
  encodings [] = []
  encodings (a ∷ items) = encode a ++ encodings items

module _ {A : Type 0} (item : Read A) where
  continue-ext :
      (step : Option A × BerReader) (f g : A → Read (List A))
      → ((a : A) → step.0 ≡ some a → f a step.1 ≡ g a step.1)
      → continue step f ≡ continue step g
  continue-ext (none, r) f g h = refl
  continue-ext (some a, r) f g h = h a refl

  -- Any two numbers of rounds above the number of bytes left give the same result, so the loop is not
  -- cut short by the bound.
  pub read_all_enough :
      (fuel fuel' : ℕ) (r : BerReader)
      → Shrinks item
      → length r.rest < fuel
      → length r.rest < fuel'
      → read_all fuel item r ≡ read_all fuel' item r
  unfolding read_all
  read_all_enough zero fuel' r s h k = elim h [ ]
  read_all_enough (suc fuel) zero r s h k = elim k [ ]
  read_all_enough (suc fuel) (suc fuel') r s h k = elim (Bool-cases (at_end r)) [
    | inl e ↦ rw e refl
    | inr e ↦ rw e (
        continue-ext (item r) _ _ (λ a got.
          let less = s r a got in
          ap (λ t. continue t (λ items. pure (a ∷ items)))
            (read_all_enough fuel fuel' (item r).1 s (omega arith) (omega arith))))
  ]

  module _ (encode : A → Bytes) where
    -- The item reads back each of the values, whatever follows, and no encoding is empty.
    abbrev pub ReadsBack : List A → Type 0
    ReadsBack [] = Unit
    ReadsBack (a ∷ items) =
        ((rest : Bytes) → item (reader (encode a ++ rest)) ≡ (some a, reader rest))
        × (0 < length (encode a))
        × ReadsBack items

    read_all-encodings :
        (fuel : ℕ) (items : List A)
        → ReadsBack items
        → length (encodings encode items) < fuel
        → read_all fuel item (reader (encodings encode items)) ≡ (some items, reader [])
    unfolding read_all
    read_all-encodings zero items h k = elim k [ ]
    read_all-encodings (suc fuel) [] h k = unfold at_end in refl
    read_all-encodings (suc fuel) (a ∷ items) h k =
        let size = length-append (encode a) (encodings encode items) in
        let more : leb (length (encode a ++ encodings encode items)) 0 ≡ false =
          ground (arith, h.1) in
        let rest : read_all fuel item (reader (encodings encode items)) ≡ (some items, reader []) =
          read_all-encodings fuel items h.2 (omega arith) in
        rw (more, h.0 (encodings encode items), rest) refl

    -- The loop reads back a list of encodings that fills its bytes.
    pub read_list-encodings :
        (items : List A)
        → ReadsBack items
        → read_list item (reader (encodings encode items)) ≡ (some items, reader [])
    unfolding read_list
    read_list-encodings items h =
        read_all-encodings (suc (length (encodings encode items))) items h (omega arith)
