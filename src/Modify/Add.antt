-- ===== src/Modify/Add.antt =====
-- modify.cpp: when adding values to an attribute is refused.
use simple_ldapd.Prelude.{
  ◌≡◌, refl, ap, sym, ◌∙◌, ◌↔◌, ◌⊎◌, true, false, Option, none, some, List, [], ◌∷◌, ◌++◌, arith,
  Bool-cases, Option-cases, inl, inr, append-nil, append_assoc, Among, here, there,
}
use simple_ldapd.Prelude.Bytes.{Bytes, is_empty}
use simple_ldapd.Dn.{iequals}
use simple_ldapd.Directory.{success, attribute_or_value_exists, DirectoryEntry, add, find_attribute}
use simple_ldapd.Modify.{has_value, add_values, apply_op}
use simple_ldapd.Modify.Values.{changed, changed_lem}
use mathlib.Core.Path.{subst}

-- A value of the change, `value`, is up to case among the values held or those before it.
pub data Repeats (held values : List Bytes) : Type 0 where
  repeats :
      (before after : List Bytes) (value other : Bytes)
      → values ≡ before ++ (value ∷ after)
      → Among other (held ++ before)
      → iequals other value ≡ true
      → Repeats held values

has_value_sound :
    (held : List Bytes) (value : Bytes)
    → has_value held value ≡ true
    → (other : Bytes) × Among other held × (iequals other value ≡ true)
unfolding has_value
has_value_sound [] value h = absurd (cc)
has_value_sound (x ∷ held) value h = elim (Bool-cases (iequals x value)) [
  | inl e ↦ (x, here, e)
  | inr e ↦
      let (other, among, same) = has_value_sound held value (ground (arith, e)) in
      (other, there among, same)
]

has_value_complete :
    (value other : Bytes) (held : List Bytes)
    → Among other held
    → iequals other value ≡ true
    → has_value held value ≡ true
unfolding has_value
has_value_complete value other _ here e = rw e refl
has_value_complete value other _ (there {xs = held} among) e =
    ground (arith, has_value_complete value other held among e)

add_values_sound :
    (held values : List Bytes)
    → (add_values held values).0 ≡ attribute_or_value_exists
    → Repeats held values
unfolding add_values
add_values_sound held [] h = absurd (cc)
add_values_sound held (v ∷ values) h = elim (Bool-cases (has_value held v)) [
  | inl e ↦
      let (other, among, same) = has_value_sound held v e in
      repeats [] values v other refl (subst (Among other) (sym (append-nil held)) among) same
  | inr e ↦ elim (add_values_sound (held ++ (v ∷ [])) values (rw e at h)) [
    | repeats before after value other split among same ↦
        repeats (v ∷ before) after value other (ap (λ l. v ∷ l) split)
          (subst (Among other) (append_assoc held (v ∷ []) before) among) same
  ]
]

first_of : Bytes → List Bytes → Bytes
first_of v [] = v
first_of v (x ∷ values) = x

rest_of : List Bytes → List Bytes
rest_of [] = []
rest_of (x ∷ values) = values

add_values_complete :
    (held values before after : List Bytes) (value other : Bytes)
    → values ≡ before ++ (value ∷ after)
    → Among other (held ++ before)
    → iequals other value ≡ true
    → (add_values held values).0 ≡ attribute_or_value_exists
unfolding add_values
add_values_complete held [] [] after value other e among same = absurd (cc)
add_values_complete held [] (b ∷ before) after value other e among same = absurd (cc)
add_values_complete held (v ∷ values) [] after value other e among same =
    let head : v ≡ value = unfold first_of in ap (first_of v) e in
    let found =
      has_value_complete v other held (subst (Among other) (append-nil held) among)
        (ap (iequals other) head ∙ same) in
    rw found refl
add_values_complete held (v ∷ values) (b ∷ before) after value other e among same =
    let head : v ≡ b = unfold first_of in ap (first_of v) e in
    let tail : values ≡ before ++ (value ∷ after) = unfold rest_of in ap rest_of e in
    let moved : Among other ((held ++ (v ∷ [])) ++ before) =
      subst (Among other) (sym (append_assoc held (v ∷ []) before))
        (subst (λ x. Among other (held ++ (x ∷ before))) (sym head) among) in
    let rest =
      add_values_complete (held ++ (v ∷ [])) values before after value other tail moved same in
    ground (arith, rest)

add_values_result :
    (held values : List Bytes)
    → ((add_values held values).0 ≡ success)
      ⊎ ((add_values held values).0 ≡ attribute_or_value_exists)
unfolding add_values
add_values_result held [] = inl refl
add_values_result held (v ∷ values) = elim (Bool-cases (has_value held v)) [
  | inl e ↦ rw e (inr refl)
  | inr e ↦ rw e (add_values_result (held ++ (v ∷ [])) values)
]

Repeats-refused :
    (held values : List Bytes)
    → Repeats held values
    → (add_values held values).0 ≡ attribute_or_value_exists
Repeats-refused held values (repeats before after value other split among same) =
    add_values_complete held values before after value other split among same

abbrev held_or_none : Option (List Bytes) → List Bytes
held_or_none none = []
held_or_none (some held) = held

-- A change that adds values to an attribute succeeds, or is refused with attributeOrValueExists;
-- refused exactly if the entry has the attribute and some value of the change is, up to case, among
-- the values of the attribute or the values before it in the change.
pub apply_change-add_refused :
    (entry : DirectoryEntry) (name : Bytes) (values : List Bytes)
    → is_empty name ≡ false
    → (((changed entry name add values).0 ≡ success)
        ⊎ ((changed entry name add values).0 ≡ attribute_or_value_exists))
      × (((changed entry name add values).0 ≡ attribute_or_value_exists)
          ↔ ((held : List Bytes) × (find_attribute entry name ≡ some held) × Repeats held values))
apply_change-add_refused entry name values named =
    rw (changed_lem entry name named) (elim (Option-cases (find_attribute entry name)) [
      | inl e ↦
          rw e (unfold apply_op in (inl refl, (λ h. absurd (cc), λ (held, h, _). absurd (cc))))
      | inr (held, e) ↦ rw e (
          unfold apply_op in
          (
            add_values_result held values,
            (
              λ h. (held, refl, add_values_sound held values h),
              λ (held', same, repeated).
                  subst (λ x. (add_values x values).0 ≡ attribute_or_value_exists)
                    (ap held_or_none (sym same)) (Repeats-refused held' values repeated),
            ),
          ))
    ])
