-- ===== src/Modify/Values.antt =====
-- modify.cpp: what a change makes of the attribute that it names.
use simple_ldapd.Prelude.{
  ◌≡◌, refl, ap, ◌∙◌, Bool, false, Option, some, List, [], ◌∷◌, ◌++◌, arith, Option-cases, inl, inr,
}
use simple_ldapd.Prelude.Bytes.{Bytes, is_empty}
use simple_ldapd.OrderedMap.{OrderedMap, find_first, set_first}
use simple_ldapd.Directory.{
  ResultCode, success, DirectoryEntry, ModifyOp, add, delete, replace, AttributeModification,
  find_attribute,
}
use simple_ldapd.Modify.{
  put_values, apply_delete, apply_op, apply_change, apply_modifications, go_on,
}
use simple_ldapd.Modify.Fresh.{
  put_values_self, new_attribute_self, Fresh, add_values-Fresh, delete_values-Fresh,
}

-- The entry after one change.
abbrev pub changed : DirectoryEntry → Bytes → ModifyOp → List Bytes → ResultCode × DirectoryEntry
changed entry name op values = apply_change entry (record { op = op; type = name; values = values })

module _ (entry : DirectoryEntry) (name : Bytes) (named : is_empty name ≡ false) where
  pub changed_lem :
      (op : ModifyOp) (values : List Bytes)
      → changed entry name op values ≡ apply_op op (find_attribute entry name) name values entry
  unfolding apply_change
  changed_lem op values = rw named

  changed-add :
      (held values : List Bytes)
      → find_attribute entry name ≡ some held
      → Fresh held values
      → changed entry name add values ≡ (success, put_values name (held ++ values) entry)
  changed-add held values h f =
      rw (changed_lem, h) (unfold apply_op in rw (add_values-Fresh held values f))

-- Replacing by at least one value succeeds, whatever the attribute was, and leaves those values.
pub apply_change-replace :
    (entry : DirectoryEntry) (name : Bytes) (value : Bytes) (values : List Bytes)
    → is_empty name ≡ false
    → ((changed entry name replace (value ∷ values)).0 ≡ success)
      × (find_attribute (changed entry name replace (value ∷ values)).1 name
          ≡ some (value ∷ values))
apply_change-replace entry name value values named =
    rw (changed_lem entry name named) (elim (Option-cases (find_attribute entry name)) [
      | inl e ↦ rw e (unfold apply_op in (refl, new_attribute_self name _ entry e))
      | inr (held, e) ↦ rw e (unfold apply_op in (refl, put_values_self name _ held entry e))
    ])

set_first-twice :
    (p : Bytes → Bool) (v w : List Bytes) (m : OrderedMap (List Bytes))
    → find_first p m ≡ some w
    → set_first p w (set_first p v m) ≡ m
unfolding find_first set_first
set_first-twice p v w [] h = refl
set_first-twice p v w ((k, x) ∷ m) h = ground (arith, set_first-twice p v w m)

put_values-twice :
    (name : Bytes) (held values : List Bytes) (entry : DirectoryEntry)
    → find_attribute entry name ≡ some held
    → put_values name held (put_values name values entry) ≡ entry
unfolding put_values find_attribute
put_values-twice name held values entry h =
    ap (λ m. record entry { attributes = m }) (set_first-twice _ values held entry.attributes h)

apply_delete-append :
    (name : Bytes) (entry : DirectoryEntry) (x : Bytes) (held : List Bytes) (value : Bytes)
    (values : List Bytes)
    → Fresh (x ∷ held) (value ∷ values)
    → apply_delete (some ((x ∷ held) ++ (value ∷ values))) name (value ∷ values) entry
      ≡ (success, put_values name (x ∷ held) entry)
unfolding apply_delete
apply_delete-append name entry x held value values f =
    rw (delete_values-Fresh (x ∷ held) (value ∷ values) f)

apply_op-delete :
    (name : Bytes) (it : Option (List Bytes)) (values : List Bytes) (entry : DirectoryEntry)
    → apply_op delete it name values entry ≡ apply_delete it name values entry
unfolding apply_op
apply_op-delete name it values entry = refl

apply_modifications-nil : (entry : DirectoryEntry) → apply_modifications entry [] ≡ (success, entry)
unfolding apply_modifications
apply_modifications-nil entry = refl

apply_modifications-cons :
    (entry : DirectoryEntry) (change : AttributeModification) (changes : List AttributeModification)
    (next : DirectoryEntry)
    → apply_change entry change ≡ (success, next)
    → apply_modifications entry (change ∷ changes) ≡ apply_modifications next changes
apply_modifications-cons entry change changes next e =
    unfold apply_modifications in
    ap (λ (r : ResultCode × DirectoryEntry). go_on (λ entry'. apply_modifications entry' changes) r)
      e

-- Adding new values to an attribute that has some, and deleting the same values, succeeds and gives
-- back the very entry.
pub add_then_delete :
    (entry : DirectoryEntry) (name : Bytes) (x : Bytes) (held : List Bytes) (value : Bytes)
    (values : List Bytes)
    → is_empty name ≡ false
    → find_attribute entry name ≡ some (x ∷ held)
    → Fresh (x ∷ held) (value ∷ values)
    → apply_modifications entry (
        record { op = add; type = name; values = value ∷ values }
        ∷ record { op = delete; type = name; values = value ∷ values }
        ∷ [])
      ≡ (success, entry)
add_then_delete entry name x held value values named h f =
    let between = put_values name ((x ∷ held) ++ (value ∷ values)) entry in
    let second : changed between name delete (value ∷ values) ≡ (success, entry) =
      changed_lem between name named delete (value ∷ values)
      ∙ cc (
        put_values_self name ((x ∷ held) ++ (value ∷ values)) (x ∷ held) entry h,
        apply_op-delete name (some ((x ∷ held) ++ (value ∷ values))) (value ∷ values) between,
        apply_delete-append name between x held value values f,
        put_values-twice name (x ∷ held) ((x ∷ held) ++ (value ∷ values)) entry h,
      ) in
    apply_modifications-cons entry _ _ _ (changed-add entry name named (x ∷ held) _ h f)
    ∙ apply_modifications-cons between _ _ _ second
    ∙ apply_modifications-nil entry
