-- ===== src/Modify/Frame.antt =====
-- modify.cpp: what a change leaves alone.
use simple_ldapd.Prelude.{
  ◌≡◌, refl, ◌∙◌, true, false, Option, none, some, List, [], ◌∷◌, arith, Bool-cases, inl, inr,
}
use simple_ldapd.Prelude.Bytes.{Bytes, is_empty}
use simple_ldapd.OrderedMap.First.{find_first-upsert_ne, find_first-set_ne, find_first-erase_ne}
use simple_ldapd.Dn.{iequals, iequals_iff}
use simple_ldapd.Directory.{
  ResultCode, success, DirectoryEntry, ModifyOp, add, delete, replace, unnamed_op,
  AttributeModification, find_attribute,
}
use simple_ldapd.Modify.{
  put_values, erase_attribute, new_attribute, apply_add, apply_delete, apply_replace, apply_op,
  apply_change, apply_modifications, go_on, finish_delete, add_values, delete_values,
}

-- Two names that are not equal up to case have no key in common.
pub iequals_apart :
    (a b : Bytes) → iequals a b ≡ false → (k : Bytes) → iequals k a ≡ true → iequals k b ≡ false
iequals_apart a b h k e = ground (arith, iequals_iff a b, iequals_iff k a, iequals_iff k b)

module _ (name other : Bytes) (apart : iequals name other ≡ false) (entry : DirectoryEntry) where
  pub put_values-other :
      (values : List Bytes)
      → find_attribute (put_values name values entry) other ≡ find_attribute entry other
  unfolding find_attribute put_values
  put_values-other values =
      find_first-set_ne _ _ values entry.attributes (iequals_apart name other apart)

  pub erase_attribute-other :
      find_attribute (erase_attribute name entry) other ≡ find_attribute entry other
  unfolding find_attribute erase_attribute
  erase_attribute-other = find_first-erase_ne _ _ entry.attributes (iequals_apart name other apart)

  pub new_attribute-other :
      (values : List Bytes)
      → find_attribute (new_attribute name values entry) other ≡ find_attribute entry other
  unfolding find_attribute new_attribute
  new_attribute-other values =
      find_first-upsert_ne _ name values (λ w. values) entry.attributes apart

  finish_delete-other :
      (code : ResultCode) (held : List Bytes)
      → find_attribute (finish_delete code held name entry).1 other ≡ find_attribute entry other
  unfolding finish_delete
  finish_delete-other success [] = erase_attribute-other
  finish_delete-other success (x ∷ held) = put_values-other (x ∷ held)
  finish_delete-other _ held = put_values-other held

  apply_add-other :
      (it : Option (List Bytes)) (values : List Bytes)
      → find_attribute (apply_add it name values entry).1 other ≡ find_attribute entry other
  unfolding apply_add
  apply_add-other none values = new_attribute-other values
  apply_add-other (some held) values = put_values-other (add_values held values).1

  apply_delete-other :
      (it : Option (List Bytes)) (values : List Bytes)
      → find_attribute (apply_delete it name values entry).1 other ≡ find_attribute entry other
  unfolding apply_delete
  apply_delete-other none values = refl
  apply_delete-other (some held) [] = erase_attribute-other
  apply_delete-other (some held) (v ∷ values) =
      let (code, held') = delete_values held (v ∷ values) in finish_delete-other code held'

  apply_replace-other :
      (it : Option (List Bytes)) (values : List Bytes)
      → find_attribute (apply_replace it name values entry).1 other ≡ find_attribute entry other
  unfolding apply_replace
  apply_replace-other none [] = refl
  apply_replace-other (some held) [] = erase_attribute-other
  apply_replace-other none (v ∷ values) = new_attribute-other (v ∷ values)
  apply_replace-other (some held) (v ∷ values) = put_values-other (v ∷ values)

  apply_op-other :
      (op : ModifyOp) (it : Option (List Bytes)) (values : List Bytes)
      → find_attribute (apply_op op it name values entry).1 other ≡ find_attribute entry other
  unfolding apply_op
  apply_op-other add it values = apply_add-other it values
  apply_op-other delete it values = apply_delete-other it values
  apply_op-other replace it values = apply_replace-other it values
  apply_op-other (unnamed_op n) it values = refl

apply_change-other :
    (entry : DirectoryEntry) (change : AttributeModification) (other : Bytes)
    → iequals change.type other ≡ false
    → find_attribute (apply_change entry change).1 other ≡ find_attribute entry other
unfolding apply_change
apply_change-other entry change other apart = elim (Bool-cases (is_empty change.type)) [
  | inl e ↦ rw e
  | inr e ↦ rw e (apply_op-other change.type other apart entry change.op _ change.values)
]

-- No change of the list names the attribute.
abbrev pub Untouched : List AttributeModification → Bytes → Type 0
Untouched [] other = Unit
Untouched (change ∷ changes) other = (iequals change.type other ≡ false) × Untouched changes other

-- What holds of the entry that a step leaves is kept by the steps after it.
go_on-other :
    (other : Bytes) (was : Option (List Bytes))
    (next : DirectoryEntry → ResultCode × DirectoryEntry) (step : ResultCode × DirectoryEntry)
    → ((entry : DirectoryEntry) → find_attribute (next entry).1 other ≡ find_attribute entry other)
    → find_attribute step.1 other ≡ was
    → find_attribute (go_on next step).1 other ≡ was
go_on-other other was next (success, entry) h e = h entry ∙ e
go_on-other other was next (_, entry) h e = e

-- An attribute that no change names has its old values afterwards, or is as absent as before, also
-- where a change fails and the changes before it stay made.
pub apply_modifications-Untouched :
    (entry : DirectoryEntry) (changes : List AttributeModification) (other : Bytes)
    → Untouched changes other
    → find_attribute (apply_modifications entry changes).1 other ≡ find_attribute entry other
unfolding apply_modifications
apply_modifications-Untouched entry [] other u = refl
apply_modifications-Untouched entry (change ∷ changes) other u =
    go_on-other other _ _ (apply_change entry change)
      (λ entry'. apply_modifications-Untouched entry' changes other u.1)
      (apply_change-other entry change other u.0)
