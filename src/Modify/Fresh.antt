-- ===== src/Modify/Fresh.antt =====
-- modify.cpp: values that are new to an attribute, and the loops that add and delete them.
use simple_ldapd.Prelude.{
  ◌≡◌, refl, ◌∙◌, true, false, ◌||◌, none, some, List, [], ◌∷◌, ◌++◌, arith, append-nil,
  append_assoc,
}
use simple_ldapd.Prelude.Bytes.{Bytes}
use simple_ldapd.OrderedMap.First.{find_first-upsert_new, find_first-set_self}
use simple_ldapd.Dn.{iequals_refl}
use simple_ldapd.Directory.{success, DirectoryEntry, find_attribute}
use simple_ldapd.Modify.{
  has_value, add_values, erase_value, delete_values, put_values, new_attribute,
}

pub put_values_self :
    (name : Bytes) (values held : List Bytes) (entry : DirectoryEntry)
    → find_attribute entry name ≡ some held
    → find_attribute (put_values name values entry) name ≡ some values
unfolding find_attribute put_values
put_values_self name values held entry h = find_first-set_self _ values held entry.attributes h

pub new_attribute_self :
    (name : Bytes) (values : List Bytes) (entry : DirectoryEntry)
    → find_attribute entry name ≡ none
    → find_attribute (new_attribute name values entry) name ≡ some values
unfolding find_attribute new_attribute
new_attribute_self name values entry h =
    find_first-upsert_new _ name values (λ w. values) entry.attributes (iequals_refl name) h

-- No value of the second list is held already, nor repeats an earlier one, up to case.
abbrev pub Fresh : List Bytes → List Bytes → Type 0
Fresh held [] = Unit
Fresh held (value ∷ values) = (has_value held value ≡ false) × Fresh (held ++ (value ∷ [])) values

pub has_value-append :
    (xs ys : List Bytes) (v : Bytes) → has_value (xs ++ ys) v ≡ (has_value xs v || has_value ys v)
unfolding has_value
has_value-append [] ys v = refl
has_value-append (x ∷ xs) ys v = ground (arith, has_value-append xs ys v)

pub add_values-Fresh :
    (held values : List Bytes)
    → Fresh held values
    → add_values held values ≡ (success, held ++ values)
unfolding add_values
add_values-Fresh held [] f = rw append-nil
add_values-Fresh held (v ∷ values) f =
    rw f.0 (add_values-Fresh (held ++ (v ∷ [])) values f.1 ∙ rw append_assoc)

pub erase_value-append :
    (held rest : List Bytes) (v : Bytes)
    → has_value held v ≡ false
    → erase_value v (held ++ (v ∷ rest)) ≡ held ++ rest
unfolding has_value erase_value
erase_value-append [] rest v h = rw (iequals_refl v)
erase_value-append (x ∷ held) rest v h = ground (arith, erase_value-append held rest v)

pub Fresh-weaken :
    (held less values : List Bytes)
    → ((v : Bytes) → has_value held v ≡ false → has_value less v ≡ false)
    → Fresh held values
    → Fresh less values
Fresh-weaken held less [] h f = tt
Fresh-weaken held less (v ∷ values) h f = (
  h v f.0,
  Fresh-weaken (held ++ (v ∷ [])) (less ++ (v ∷ [])) values
      (λ w n.
        ground (arith, has_value-append held (v ∷ []) w, has_value-append less (v ∷ []) w, h w))
      f.1,
)

pub has_value-middle :
    (held rest : List Bytes) (v : Bytes) → has_value (held ++ (v ∷ rest)) v ≡ true
unfolding has_value
has_value-middle [] rest v = rw (iequals_refl v)
has_value-middle (x ∷ held) rest v = ground (arith, has_value-middle held rest v)

-- Deleting the values just added, in their order, gives the old values back.
pub delete_values-Fresh :
    (held values : List Bytes)
    → Fresh held values
    → delete_values (held ++ values) values ≡ (success, held)
unfolding delete_values
delete_values-Fresh held [] f = rw append-nil
delete_values-Fresh held (v ∷ values) f =
    rw (has_value-middle held values v, erase_value-append held values v f.0)
      (delete_values-Fresh held values (
        Fresh-weaken (held ++ (v ∷ [])) held values
          (λ w n. ground (arith, has_value-append held (v ∷ []) w)) f.1))
