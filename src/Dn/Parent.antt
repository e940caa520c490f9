-- ===== src/Dn/Parent.antt =====
-- `dn_parent` and `dn_is_one_level_child` agree, and neither sees the case of letters.
use simple_ldapd.Prelude.{
  suc, ◌≡◌, ◌≢◌, refl, ap, ◌∙◌, sym, true, [], ◌∷◌, ◌++◌, take, drop, eq_of_iff, Option-cases, inl,
  inr,
}
use simple_ldapd.Prelude.Bytes.{Bytes}
use simple_ldapd.Dn.{
  find_char, to_lower, to_lower_ascii, dn_equals, dn_equals_iff, dn_is_one_level_child, dn_parent,
}
use simple_ldapd.Dn.Find.{find_char-eq_some, find_char-to_lower_ascii, dn_parent-some, dn_none}
use simple_ldapd.Dn.Children.{map-drop, dn_is_one_level_child_iff}

lower-append : (a b : Bytes) → to_lower_ascii (a ++ b) ≡ to_lower_ascii a ++ to_lower_ascii b
unfolding to_lower_ascii
lower-append [] b = refl
lower-append (c ∷ a) b = ap (λ t. to_lower c ∷ t) (lower-append a b)

lower-nil : to_lower_ascii [] ≡ []
unfolding to_lower_ascii
lower-nil = refl

lower-comma : (b : Bytes) → to_lower_ascii (b',' ∷ b) ≡ b',' ∷ to_lower_ascii b
unfolding to_lower_ascii to_lower
lower-comma b = refl

-- An entry is a child of the entry that its name gives as the parent.
pub dn_parent-child :
    (dn base : Bytes)
    → base ≢ []
    → dn_parent dn ≢ []
    → dn_equals (dn_parent dn) base ≡ true
    → dn_is_one_level_child dn base ≡ true
dn_parent-child dn base ne np h = elim (Option-cases (find_char b',' dn)) [
  | inl e ↦ absurd (np (dn_none dn e).1)
  | inr (i, e) ↦
      let (cut, before, inside) = find_char-eq_some b',' dn i e in
      let parent = dn_parent-some dn i e in
      let lower : to_lower_ascii (drop (suc i) dn) ≡ to_lower_ascii base =
        ap to_lower_ascii (sym parent) ∙ (dn_equals_iff (dn_parent dn) base).0 h in
      (dn_is_one_level_child_iff dn base ne).1 (
        to_lower_ascii (take i dn),
        ap to_lower_ascii cut
            ∙ lower-append (take i dn) (b',' ∷ drop (suc i) dn)
            ∙ ap (λ t. to_lower_ascii (take i dn) ++ t)
                (lower-comma (drop (suc i) dn) ∙ ap (λ t. b',' ∷ t) lower),
        find_char-to_lower_ascii (take i dn) ∙ before,
      )
]

-- Two names that are equal up to case are children of the same entries.
pub dn_is_one_level_child-same :
    (a b base : Bytes)
    → base ≢ []
    → dn_equals a b ≡ true
    → dn_is_one_level_child a base ≡ dn_is_one_level_child b base
dn_is_one_level_child-same a b base ne h =
    let same = (dn_equals_iff a b).0 h in
    eq_of_iff (dn_is_one_level_child a base) (dn_is_one_level_child b base)
      (λ c.
        let (rdn, e, free) = (dn_is_one_level_child_iff a base ne).0 c in
        (dn_is_one_level_child_iff b base ne).1 (rdn, sym same ∙ e, free))
      (λ c.
        let (rdn, e, free) = (dn_is_one_level_child_iff b base ne).0 c in
        (dn_is_one_level_child_iff a base ne).1 (rdn, same ∙ e, free))

dn_parent-lower : (dn : Bytes) → to_lower_ascii (dn_parent dn) ≡ dn_parent (to_lower_ascii dn)
dn_parent-lower dn = elim (Option-cases (find_char b',' dn)) [
  | inl e ↦
      let none_too = find_char-to_lower_ascii dn ∙ e in
      ap to_lower_ascii (dn_none dn e).1 ∙ lower-nil ∙ sym (dn_none (to_lower_ascii dn) none_too).1
  | inr (i, e) ↦
      let some_too = find_char-to_lower_ascii dn ∙ e in
      ap to_lower_ascii (dn_parent-some dn i e)
      ∙ map-drop (suc i) dn
      ∙ sym (dn_parent-some (to_lower_ascii dn) i some_too)
]

-- Names that are equal up to case have parents that are.
pub dn_parent-same :
    (a b : Bytes) → dn_equals a b ≡ true → dn_equals (dn_parent a) (dn_parent b) ≡ true
dn_parent-same a b h =
    (dn_equals_iff (dn_parent a) (dn_parent b)).1
      (dn_parent-lower a ∙ ap dn_parent ((dn_equals_iff a b).0 h) ∙ sym (dn_parent-lower b))

-- Only an empty name is equal to the empty one.
pub dn_equals-nil : (a : Bytes) → dn_equals a [] ≡ true → a ≡ []
unfolding to_lower_ascii
dn_equals-nil [] h = refl
dn_equals-nil (c ∷ a) h = absurd (let e = (dn_equals_iff (c ∷ a) []).0 h in cc)
