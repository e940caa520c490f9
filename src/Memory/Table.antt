-- ===== src/Memory/Table.antt =====
-- memory.cpp: what `lookup` finds after `add`, `modify` and `remove`.
use simple_ldapd.Prelude.{
  ◌≡◌, true, not, ◌&&◌, none, some, arith, if◌then◌else◌, Option-cases, inl, inr,
}
use simple_ldapd.Prelude.Bytes.{Bytes, is_empty}
use simple_ldapd.OrderedMap.{find_first}
use simple_ldapd.OrderedMap.Distinct.{
  find_first-assign, find_first-same, find_first-set, find_first-erase,
}
use simple_ldapd.Dn.{dn_equals}
use simple_ldapd.Dn.Sameness.{dn_equals-IsSameness}
use simple_ldapd.Directory.{DirectoryEntry}
use simple_ldapd.Backend.{found}
use simple_ldapd.Memory.{MemoryBackend, at_dn, lookup, add, modify, remove}
use simple_ldapd.Memory.Invariant.{IsWellFormed}

pub add-done :
    (s : MemoryBackend) (entry : DirectoryEntry)
    → (add s entry).1 ≡ (not (is_empty entry.dn) && not (found (lookup s entry.dn)))
unfolding add lookup
add-done s entry = ground arith

pub lookup-add :
    (s : MemoryBackend) (entry : DirectoryEntry) (dn : Bytes)
    → lookup (add s entry).0 dn
      ≡ (if (add s entry).1 && dn_equals entry.dn dn then some entry else lookup s dn)
unfolding add lookup
lookup-add s entry dn = elim (Option-cases (find_first (at_dn entry.dn) s.entries)) [
  | inl free ↦ ground (
    arith,
    free,
    find_first-assign dn_equals dn_equals-IsSameness entry.dn entry dn s.entries free,
  )
  | inr (old, taken) ↦ ground (arith, taken)
]

pub modify-done :
    (s : MemoryBackend) (entry : DirectoryEntry) → (modify s entry).1 ≡ found (lookup s entry.dn)
unfolding modify lookup
modify-done s entry = ground arith

pub lookup-modify :
    (s : MemoryBackend) (entry : DirectoryEntry) (dn : Bytes)
    → lookup (modify s entry).0 dn
      ≡ (if (modify s entry).1 && dn_equals entry.dn dn then some entry else lookup s dn)
unfolding modify lookup
lookup-modify s entry dn = elim (Option-cases (find_first (at_dn entry.dn) s.entries)) [
  | inl free ↦ rw free
  | inr (old, taken) ↦
      rw taken (find_first-set dn_equals dn_equals-IsSameness entry.dn entry old dn s.entries taken)
]

pub remove-done : (s : MemoryBackend) (dn : Bytes) → (remove s dn).1 ≡ found (lookup s dn)
unfolding remove lookup
remove-done s dn = ground arith

pub lookup-remove :
    (s : MemoryBackend) (gone dn : Bytes)
    → IsWellFormed s
    → lookup (remove s gone).0 dn ≡ (if dn_equals gone dn then none else lookup s dn)
unfolding remove lookup
lookup-remove s gone dn w = elim (Option-cases (find_first (at_dn gone) s.entries)) [
  | inl free ↦ ground (
    arith,
    free,
    λ (e : dn_equals gone dn ≡ true).
        find_first-same dn_equals dn_equals-IsSameness gone dn s.entries e,
  )
  | inr (old, taken) ↦
      rw taken (find_first-erase dn_equals dn_equals-IsSameness gone dn s.entries w.distinct)
]
