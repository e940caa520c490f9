-- ===== src/Modify.antt =====
-- backend/modify.cpp: the attribute changes of a Modify request. The entry comes back beside the
-- result code, since the code works on a reference and leaves what it changed before an error.
pub mod Frame
pub mod Add
pub mod Values
pub mod Fresh
use simple_ldapd.Prelude.{
  Bool, true, false, ◌||◌, Option, none, some, List, [], ◌∷◌, ◌++◌, if◌then◌else◌,
}
use simple_ldapd.Prelude.Bytes.{Bytes, is_empty}
use simple_ldapd.OrderedMap.{assign, set_first, erase_first}
use simple_ldapd.Dn.{iequals}
use simple_ldapd.Directory.{
  ResultCode, success, no_such_attribute, attribute_or_value_exists, invalid_attribute_syntax,
  DirectoryEntry, ModifyOp, add, delete, replace, AttributeModification, find_attribute,
}

unfoldable pub has_value : List Bytes → Bytes → Bool
unfolding iequals
has_value [] wanted = false
has_value (value ∷ values) wanted = iequals value wanted || has_value values wanted

-- the loop of `ModifyOp::Add` over the values of the change
unfoldable pub add_values : List Bytes → List Bytes → ResultCode × List Bytes
unfolding has_value
add_values held [] = (success, held)
add_values held (value ∷ values) =
    let rest = add_values (held ++ (value ∷ [])) values in
    if has_value held value then (attribute_or_value_exists, held) else rest

-- `erase` at the first value that is equal up to case
unfoldable pub erase_value : Bytes → List Bytes → List Bytes
unfolding iequals
erase_value value [] = []
erase_value value (existing ∷ held) =
    if iequals existing value then held else existing ∷ erase_value value held

-- the loop of `ModifyOp::Delete` over the values of the change
unfoldable pub delete_values : List Bytes → List Bytes → ResultCode × List Bytes
unfolding has_value erase_value
delete_values held [] = (success, held)
delete_values held (value ∷ values) =
    let rest = delete_values (erase_value value held) values in
    if has_value held value then rest else (no_such_attribute, held)

-- a new value of `it->second`, `it` found for `name`
unfoldable pub put_values : Bytes → List Bytes → DirectoryEntry → DirectoryEntry
unfolding set_first iequals
put_values name values entry = record entry {
  attributes = set_first (λ key. iequals key name) values entry.attributes;
}

-- `entry.attributes.erase(it)`
unfoldable pub erase_attribute : Bytes → DirectoryEntry → DirectoryEntry
unfolding erase_first iequals
erase_attribute name entry = record entry {
  attributes = erase_first (λ key. iequals key name) entry.attributes;
}

-- `entry.attributes[change.type] = change.values`
unfoldable pub new_attribute : Bytes → List Bytes → DirectoryEntry → DirectoryEntry
unfolding assign
new_attribute name values entry = record entry { attributes = assign name values entry.attributes }

unfoldable pub apply_add :
    Option (List Bytes) → Bytes → List Bytes → DirectoryEntry → ResultCode × DirectoryEntry
unfolding add_values put_values new_attribute
apply_add none name values entry = (success, new_attribute name values entry)
apply_add (some held) name values entry =
    let (code, held') = add_values held values in (code, put_values name held' entry)

-- after the loop over the values: an attribute with no value left goes
finish_delete : ResultCode → List Bytes → Bytes → DirectoryEntry → ResultCode × DirectoryEntry
finish_delete success [] name entry = (success, erase_attribute name entry)
finish_delete code held name entry = (code, put_values name held entry)

unfoldable pub apply_delete :
    Option (List Bytes) → Bytes → List Bytes → DirectoryEntry → ResultCode × DirectoryEntry
unfolding delete_values finish_delete put_values erase_attribute
apply_delete none name values entry = (no_such_attribute, entry)
apply_delete (some held) name [] entry = (success, erase_attribute name entry)
apply_delete (some held) name (value ∷ values) entry =
    let (code, held') = delete_values held (value ∷ values) in finish_delete code held' name entry

unfoldable pub apply_replace :
    Option (List Bytes) → Bytes → List Bytes → DirectoryEntry → ResultCode × DirectoryEntry
unfolding put_values erase_attribute new_attribute
apply_replace none name [] entry = (success, entry)
apply_replace (some held) name [] entry = (success, erase_attribute name entry)
apply_replace none name (value ∷ values) entry =
    (success, new_attribute name (value ∷ values) entry)
apply_replace (some held) name (value ∷ values) entry =
    (success, put_values name (value ∷ values) entry)

-- the switch; a value of `op` with no name takes no case of it
unfoldable pub apply_op :
    ModifyOp
    → Option (List Bytes)
    → Bytes
    → List Bytes
    → DirectoryEntry
    → ResultCode × DirectoryEntry
unfolding apply_add apply_delete apply_replace
apply_op add = apply_add
apply_op delete = apply_delete
apply_op replace = apply_replace
apply_op _ = λ it name values entry. (success, entry)

-- one round of the loop over the changes
unfoldable pub apply_change : DirectoryEntry → AttributeModification → ResultCode × DirectoryEntry
unfolding apply_op find_attribute
apply_change entry change =
    if is_empty change.type
    then (invalid_attribute_syntax, entry)
    else apply_op change.op (find_attribute entry change.type) change.type change.values entry

-- the early returns of the loop
abbrev pub go_on :
    (DirectoryEntry → ResultCode × DirectoryEntry)
    → ResultCode × DirectoryEntry
    → ResultCode × DirectoryEntry
go_on next (success, entry) = next entry
go_on next (code, entry) = (code, entry)

unfoldable pub apply_modifications :
    DirectoryEntry → List AttributeModification → ResultCode × DirectoryEntry
unfolding apply_change
apply_modifications entry [] = (success, entry)
apply_modifications entry (change ∷ changes) =
    go_on (λ entry'. apply_modifications entry' changes) (apply_change entry change)
