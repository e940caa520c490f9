-- ===== src/Dn/Children.antt =====
-- `dn_is_one_level_child` is the relation between an entry and its parent.
use simple_ldapd.Prelude.{
  ℕ, zero, suc, ◌-◌, ◌≡◌, ◌≢◌, refl, ap, ◌∙◌, sym, ◌↔◌, inl, inr, true, false, not, ◌||◌, Option,
  none, some, [], ◌∷◌, ◌++◌, arith, if◌then◌else◌, length, take, drop, length-append,
  take-append_of_eq,
}
use simple_ldapd.Prelude.Bytes.{Bytes}
use simple_ldapd.Dn.{
  is_none, find_char, to_lower_ascii, dn_equals, dn_equals_iff, dn_ends_with, dn_is_one_level_child,
  dn_parent,
}
use simple_ldapd.Dn.Find.{
  find_char-to_lower_ascii, find_char-append, dn_parent-some, drop-suc-append,
}
use simple_ldapd.Dn.Suffix.{dn_ends_with_iff}

is_none_iff : (o : Option ℕ) → (is_none o ≡ true) ↔ (o ≡ none)
is_none_iff none = ground arith
is_none_iff (some i) = ground arith

-- The text before the comma and the base, which the code cuts off by lengths.
rdn_cut :
    (pre : Bytes) (needle : Bytes)
    → take (length (pre ++ (b',' ∷ needle)) - length needle - 1) (pre ++ (b',' ∷ needle)) ≡ pre
rdn_cut pre needle =
    take-append_of_eq _ pre (b',' ∷ needle) (omega (arith, length-append pre (b',' ∷ needle)))

abbrev pub ChildOf : Bytes → Bytes → Type 0
ChildOf dn base =
    (rdn : Bytes) × (to_lower_ascii dn ≡ rdn ++ (b',' ∷ to_lower_ascii base))
    × (find_char b',' rdn ≡ none)

append-ne : (pre : Bytes) (s : Bytes) → pre ++ (b',' ∷ s) ≢ s
append-ne pre s e = omega (arith, ap length e, length-append pre (b',' ∷ s))

-- What the code takes for the leading part once the suffix test has passed.
abbrev leading : Bytes → Bytes → Bytes
leading dn base =
    take (length (to_lower_ascii dn) - length (to_lower_ascii base) - 1) (to_lower_ascii dn)

child_lem :
    (dn : Bytes) (c : ℕ) (base : Bytes)
    → dn_is_one_level_child dn (c ∷ base) ≡ (
        if not (dn_ends_with dn (c ∷ base)) || dn_equals dn (c ∷ base)
        then false
        else is_none (find_char b',' (leading dn (c ∷ base))))
unfolding dn_is_one_level_child
child_lem dn c base = refl

child_parts :
    (dn : Bytes) (c : ℕ) (base : Bytes)
    → dn_is_one_level_child dn (c ∷ base) ≡ true
    → (dn_ends_with dn (c ∷ base) ≡ true)
      × (dn_equals dn (c ∷ base) ≡ false)
      × (find_char b',' (leading dn (c ∷ base)) ≡ none)
child_parts dn c base h =
    ground (arith, child_lem dn c base, is_none_iff (find_char b',' (leading dn (c ∷ base))))

leading_eq :
    (dn base pre : Bytes)
    → to_lower_ascii dn ≡ pre ++ (b',' ∷ to_lower_ascii base)
    → leading dn base ≡ pre
leading_eq dn base pre e = cc (rdn_cut pre (to_lower_ascii base))

child_sound :
    (dn : Bytes) (c : ℕ) (base : Bytes)
    → dn_is_one_level_child dn (c ∷ base) ≡ true
    → ChildOf dn (c ∷ base)
child_sound dn c base h =
    let (ends, other, free) = child_parts dn c base h in
    elim ((dn_ends_with_iff dn (c ∷ base)).0 ends) [
      | inl e ↦ absurd cc
      | inr (inl e) ↦ absurd (ground (arith, (dn_equals_iff dn (c ∷ base)).1 e))
      | inr (inr (pre, e)) ↦ (pre, e, cc (leading_eq dn (c ∷ base) pre e))
    ]

child_complete :
    (dn : Bytes) (c : ℕ) (base : Bytes)
    → ChildOf dn (c ∷ base)
    → dn_is_one_level_child dn (c ∷ base) ≡ true
child_complete dn c base (rdn, e, free) =
    let other : to_lower_ascii dn ≢ to_lower_ascii (c ∷ base) =
      λ same. append-ne rdn (to_lower_ascii (c ∷ base)) (sym e ∙ same) in
    ground (
      arith,
      child_lem dn c base,
      (dn_ends_with_iff dn (c ∷ base)).1 (inr (inr (rdn, e))),
      dn_equals_iff dn (c ∷ base),
      leading_eq dn (c ∷ base) rdn e,
      is_none_iff (find_char b',' (leading dn (c ∷ base))),
    )

-- `dn_is_one_level_child` decides, for a base that is not empty, whether the name is the base
-- with one more component: text that holds no comma, then a comma, then the base, case aside.
pub dn_is_one_level_child_iff :
    (dn base : Bytes) → base ≢ [] → (dn_is_one_level_child dn base ≡ true) ↔ ChildOf dn base
dn_is_one_level_child_iff dn [] h = absurd (h refl)
dn_is_one_level_child_iff dn (c ∷ base) h = (child_sound dn c base, child_complete dn c base)

pub map-drop : (n : ℕ) (s : Bytes) → to_lower_ascii (drop n s) ≡ drop n (to_lower_ascii s)
unfolding to_lower_ascii
map-drop zero s = refl
map-drop (suc n) [] = refl
map-drop (suc n) (x ∷ s) = map-drop n s

-- The base of a one-level child is its parent: what `dn_parent` returns equals the base up to
-- case, where the base is not empty.
pub child-dn_parent :
    (dn base : Bytes)
    → base ≢ []
    → dn_is_one_level_child dn base ≡ true
    → dn_equals (dn_parent dn) base ≡ true
child-dn_parent dn base ne h =
    let (rdn, e, free) = (dn_is_one_level_child_iff dn base ne).0 h in
    let found : find_char b',' dn ≡ some (length rdn) =
      cc (find_char-to_lower_ascii dn, e, find_char-append b',' rdn (to_lower_ascii base) free) in
    (dn_equals_iff (dn_parent dn) base).1 (
      cc (
        dn_parent-some dn (length rdn) found,
        map-drop (suc (length rdn)) dn,
        e,
        drop-suc-append rdn b',' (to_lower_ascii base),
      ))
