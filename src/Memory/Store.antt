-- ===== src/Memory/Store.antt =====
-- The in-memory store keeps what the interface of a store promises.
use simple_ldapd.Prelude.{
  ◌≡◌, refl, sym, ap, ◌∙◌, true, false, not, ◌&&◌, ◌||◌, none, some, arith, if◌then◌else◌,
  Bool-cases, Option-cases, inl, inr,
}
use simple_ldapd.Prelude.Bytes.{Bytes, is_empty}
use simple_ldapd.OrderedMap.{find_first, erase_first}
use simple_ldapd.OrderedMap.First.{find_first-erase_none}
use simple_ldapd.OrderedMap.Distinct.{find_first-same, find_first-assign, find_first-erase}
use simple_ldapd.Dn.{dn_equals}
use simple_ldapd.Dn.Sameness.{dn_equals-IsSameness}
use simple_ldapd.Directory.{DirectoryEntry}
use simple_ldapd.Backend.{IsStore, found, renamed}
use simple_ldapd.Memory.{MemoryBackend, at_dn, lookup, add, modify, remove, rename, memory_backend}
use simple_ldapd.Memory.Invariant.{
  IsWellFormed, assign-IsWellFormed, erase-IsWellFormed, add-IsWellFormed, modify-IsWellFormed,
  remove-IsWellFormed,
}
use simple_ldapd.Memory.Table.{
  add-done, lookup-add, modify-done, lookup-modify, remove-done, lookup-remove,
}
use simple_ldapd.Memory.Children.{lookup-named, has_children-lookup}
use simple_ldapd.Memory.Rename.{moved, rename-outcome}

rename_empty :
    (s : MemoryBackend) (from to : Bytes)
    → (is_empty from || is_empty to) ≡ true
    → rename s from to ≡ (s, false)
unfolding rename
rename_empty s from to h = rw h

moved-IsWellFormed :
    (s : MemoryBackend) (from to : Bytes) (entry : DirectoryEntry)
    → IsWellFormed s
    → find_first (at_dn to) s.entries ≡ none
    → IsWellFormed (moved s from to entry)
moved-IsWellFormed s from to entry w t =
    assign-IsWellFormed (record s { entries = erase_first (at_dn from) s.entries })
      (record entry { dn = to }) (find_first-erase_none (at_dn from) (at_dn to) s.entries t)
      (erase-IsWellFormed s from w)

lookup-moved :
    (s : MemoryBackend) (from to dn : Bytes) (entry : DirectoryEntry)
    → IsWellFormed s
    → find_first (at_dn to) s.entries ≡ none
    → lookup (moved s from to entry) dn ≡ (
        if dn_equals to dn
        then some (record entry { dn = to })
        else if dn_equals from dn
        then none
        else lookup s dn)
unfolding lookup
lookup-moved s from to dn entry w t =
    find_first-assign dn_equals dn_equals-IsSameness to (record entry { dn = to }) dn
      (erase_first (at_dn from) s.entries)
      (find_first-erase_none (at_dn from) (at_dn to) s.entries t)
    ∙ ap (λ o. if dn_equals to dn then some (record entry { dn = to }) else o)
        (find_first-erase dn_equals dn_equals-IsSameness from dn s.entries w.distinct)

lookup-find_first : (s : MemoryBackend) (dn : Bytes) → lookup s dn ≡ find_first (at_dn dn) s.entries
unfolding lookup
lookup-find_first s dn = refl

lookup-same : (s : MemoryBackend) (a c : Bytes) → dn_equals a c ≡ true → lookup s a ≡ lookup s c
unfolding lookup
lookup-same s a c h = find_first-same dn_equals dn_equals-IsSameness a c s.entries h

-- A rename keeps the store well-formed, whether it takes place or not.
pub rename-IsWellFormed :
    (s : MemoryBackend) (from to : Bytes) → IsWellFormed s → IsWellFormed (rename s from to).0
rename-IsWellFormed s from to w = elim (Bool-cases (is_empty from || is_empty to)) [
  | inl e ↦ rw (rename_empty s from to e) w
  | inr e ↦
      rw (rename-outcome s from to w (ground arith) (ground arith))
        (elim (Option-cases (lookup s from)) [
          | inl f ↦ rw f w
          | inr (entry, f) ↦ rw f (elim (Bool-cases (dn_equals from to)) [
            | inl same ↦ rw same w
            | inr other ↦ rw other (elim (Option-cases (lookup s to)) [
              | inl t ↦
                  rw t (moved-IsWellFormed s from to entry w (sym (lookup-find_first s to) ∙ t))
              | inr (x, t) ↦ rw t w
            ])
          ])
        ])
]

rename-done :
    (s : MemoryBackend) (from to : Bytes)
    → IsWellFormed s
    → (rename s from to).1 ≡ (
        not (is_empty from)
        && not (is_empty to)
        && found (lookup s from)
        && (if dn_equals from to then true else not (found (lookup s to))))
rename-done s from to w = elim (Bool-cases (is_empty from || is_empty to)) [
  | inl e ↦ ground (arith, rename_empty s from to e)
  | inr e ↦ ground (arith, e, rename-outcome s from to w (ground arith) (ground arith))
]

lookup-rename :
    (s : MemoryBackend) (from to dn : Bytes)
    → IsWellFormed s
    → lookup (rename s from to).0 dn ≡ (
        if (rename s from to).1 && not (dn_equals from to)
        then if dn_equals to dn
          then renamed to (lookup s from)
          else if dn_equals from dn
          then none
          else lookup s dn
        else lookup s dn)
lookup-rename s from to dn w = elim (Bool-cases (is_empty from || is_empty to)) [
  | inl e ↦ rw (rename_empty s from to e) refl
  | inr e ↦
      rw (rename-outcome s from to w (ground arith) (ground arith))
        (elim (Option-cases (lookup s from)) [
          | inl f ↦ rw f refl
          | inr (entry, f) ↦ rw f (elim (Bool-cases (dn_equals from to)) [
            | inl same ↦ rw same refl
            | inr other ↦ rw other (elim (Option-cases (lookup s to)) [
              | inl t ↦ rw t (lookup-moved s from to dn entry w (sym (lookup-find_first s to) ∙ t))
              | inr (x, t) ↦ rw t refl
            ])
          ])
        ])
]

-- An entry is added exactly if its name is not empty and no entry has that name up to case, and the
-- result says so. A lookup then finds it at its name, and at each other name what it found before.
pub add-result :
    (s : MemoryBackend) (entry : DirectoryEntry) (dn : Bytes)
    → ((add s entry).1 ≡ (not (is_empty entry.dn) && not (found (lookup s entry.dn))))
      × (lookup (add s entry).0 dn
          ≡ (if (add s entry).1 && dn_equals entry.dn dn then some entry else lookup s dn))
add-result s entry dn = (add-done s entry, lookup-add s entry dn)

-- An entry is replaced exactly if there is one of its name up to case, and the result says so. A
-- lookup then finds the new entry at its name, and at each other name what it found before.
pub modify-result :
    (s : MemoryBackend) (entry : DirectoryEntry) (dn : Bytes)
    → ((modify s entry).1 ≡ found (lookup s entry.dn))
      × (lookup (modify s entry).0 dn
          ≡ (if (modify s entry).1 && dn_equals entry.dn dn then some entry else lookup s dn))
modify-result s entry dn = (modify-done s entry, lookup-modify s entry dn)

-- In a well-formed store the result of a removal says whether there was an entry of the name up to
-- case. A lookup then finds nothing at the name, and at each other name what it found before.
pub remove-result :
    (s : MemoryBackend) (gone dn : Bytes)
    → IsWellFormed s
    → ((remove s gone).1 ≡ found (lookup s gone))
      × (lookup (remove s gone).0 dn ≡ (if dn_equals gone dn then none else lookup s dn))
remove-result s gone dn w = (remove-done s gone, lookup-remove s gone dn w)

-- In a well-formed store a rename takes place exactly if neither name is empty, there is an entry of
-- the old name, and none of the new one unless the two are equal up to case; the result says so. A
-- lookup then finds the entry under its new name at that name and nothing at the old one, and at
-- each other name what it found before; where the two are equal up to case nothing changes.
pub rename-result :
    (s : MemoryBackend) (from to dn : Bytes)
    → IsWellFormed s
    → ((rename s from to).1 ≡ (
        not (is_empty from)
        && not (is_empty to)
        && found (lookup s from)
        && (if dn_equals from to then true else not (found (lookup s to)))))
      × (lookup (rename s from to).0 dn ≡ (
          if (rename s from to).1 && not (dn_equals from to)
          then if dn_equals to dn
            then renamed to (lookup s from)
            else if dn_equals from dn
            then none
            else lookup s dn
          else lookup s dn))
rename-result s from to dn w = (rename-done s from to w, lookup-rename s from to dn w)

-- The in-memory store, from any well-formed state, implements the table of entries by names up to
-- case: every operation keeps the state well-formed, says truly whether it took place, and changes
-- what `lookup` finds at the names given and nowhere else; an entry that is found has the name asked
-- for, up to case; and a name other than the empty one that has no children, by `has_children`, has no
-- entry one level below it.
pub memory_backend-IsStore : IsStore memory_backend IsWellFormed
memory_backend-IsStore = record {
  add_valid = add-IsWellFormed;
  modify_valid = modify-IsWellFormed;
  remove_valid = remove-IsWellFormed;
  rename_valid = rename-IsWellFormed;
  persist_valid = λ s w. w;
  persist_lookup = λ s dn. refl;
  lookup_same = λ s a c w h. lookup-same s a c h;
  lookup_named = lookup-named;
  children_found = λ s parent dn e w. has_children-lookup s parent dn e;
  add_done = add-done;
  add_lookup = λ s e dn w. lookup-add s e dn;
  modify_done = modify-done;
  modify_lookup = λ s e dn w. lookup-modify s e dn;
  remove_done = remove-done;
  remove_lookup = lookup-remove;
  rename_done = rename-done;
  rename_lookup = lookup-rename;
}
