-- ===== src/Memory/Invariant.antt =====
-- memory.cpp: what holds of the map between operations.
use simple_ldapd.Prelude.{◌≡◌, Bool, true, none, [], ◌∷◌, arith, Bool-cases, Option-cases, inl, inr}
use simple_ldapd.Prelude.Bytes.{Bytes, is_empty, equal, equal_iff}
use simple_ldapd.OrderedMap.{OrderedMap, key_lt, upsert, assign, find_first, set_first, erase_first}
use simple_ldapd.OrderedMap.Order.{
  IsOrdered, assign-IsOrdered, set_first-IsOrdered, erase_first-IsOrdered,
}
use simple_ldapd.OrderedMap.Distinct.{
  IsDistinct, assign-IsDistinct, set_first-IsDistinct, erase_first-IsDistinct,
}
use simple_ldapd.Dn.{dn_equals, dn_equals_refl}
use simple_ldapd.Dn.Sameness.{dn_equals-IsSameness}
use simple_ldapd.Directory.{DirectoryEntry}
use simple_ldapd.Backend.{found}
use simple_ldapd.Memory.{MemoryBackend, at_dn, add, modify, remove}

-- Each entry's own name is its key, up to case.
abbrev pub IsNamed : OrderedMap DirectoryEntry → Type 0
IsNamed [] = Unit
IsNamed ((key, entry) ∷ m) = (dn_equals key entry.dn ≡ true) × IsNamed m

-- The keys stand in order, no two are equal up to case, and each entry has its key for a name.
pub record IsWellFormed (s : MemoryBackend) : Type 0 where
  pub ordered : IsOrdered s.entries
  pub distinct : IsDistinct dn_equals s.entries
  pub named : IsNamed s.entries

pub assign-IsNamed :
    (entry : DirectoryEntry) (m : OrderedMap DirectoryEntry)
    → IsNamed m
    → IsNamed (assign entry.dn entry m)
unfolding assign upsert
assign-IsNamed entry [] h = (dn_equals_refl entry.dn, tt)
assign-IsNamed entry ((key, e) ∷ m) h = elim (Bool-cases (equal entry.dn key)) [
  | inl same ↦ rw same (ground (arith, dn_equals_refl entry.dn, equal_iff entry.dn key), h.1)
  | inr other ↦ elim (Bool-cases (key_lt entry.dn key)) [
    | inl l ↦ rw (other, l) (dn_equals_refl entry.dn, h)
    | inr l ↦ rw (other, l) (h.0, assign-IsNamed entry m h.1)
  ]
]

pub set_first-IsNamed :
    (entry : DirectoryEntry) (m : OrderedMap DirectoryEntry)
    → IsNamed m
    → IsNamed (set_first (at_dn entry.dn) entry m)
unfolding set_first
set_first-IsNamed entry [] h = tt
set_first-IsNamed entry ((key, e) ∷ m) h = elim (Bool-cases (dn_equals key entry.dn)) [
  | inl same ↦ rw same (same, h.1)
  | inr other ↦ rw other (h.0, set_first-IsNamed entry m h.1)
]

pub erase_first-IsNamed :
    (p : Bytes → Bool) (m : OrderedMap DirectoryEntry) → IsNamed m → IsNamed (erase_first p m)
unfolding erase_first
erase_first-IsNamed p [] h = tt
erase_first-IsNamed p ((key, e) ∷ m) h = elim (Bool-cases (p key)) [
  | inl same ↦ rw same h.1
  | inr other ↦ rw other (h.0, erase_first-IsNamed p m h.1)
]

-- The three ways in which an operation changes the map.
pub assign-IsWellFormed :
    (s : MemoryBackend) (entry : DirectoryEntry)
    → find_first (at_dn entry.dn) s.entries ≡ none
    → IsWellFormed s
    → IsWellFormed (record s { entries = assign entry.dn entry s.entries })
assign-IsWellFormed s entry free w = record {
  ordered = assign-IsOrdered entry.dn entry s.entries w.ordered;
  distinct =
      assign-IsDistinct dn_equals dn_equals-IsSameness entry.dn entry s.entries free w.distinct;
  named = assign-IsNamed entry s.entries w.named;
}

set-IsWellFormed :
    (s : MemoryBackend) (entry : DirectoryEntry)
    → IsWellFormed s
    → IsWellFormed (record s { entries = set_first (at_dn entry.dn) entry s.entries })
set-IsWellFormed s entry w = record {
  ordered = set_first-IsOrdered (at_dn entry.dn) entry s.entries w.ordered;
  distinct =
      set_first-IsDistinct dn_equals dn_equals-IsSameness entry.dn entry s.entries w.distinct;
  named = set_first-IsNamed entry s.entries w.named;
}

pub erase-IsWellFormed :
    (s : MemoryBackend) (dn : Bytes)
    → IsWellFormed s
    → IsWellFormed (record s { entries = erase_first (at_dn dn) s.entries })
erase-IsWellFormed s dn w = record {
  ordered = erase_first-IsOrdered (at_dn dn) s.entries w.ordered;
  distinct = erase_first-IsDistinct dn_equals dn_equals-IsSameness dn s.entries w.distinct;
  named = erase_first-IsNamed (at_dn dn) s.entries w.named;
}

-- An added entry keeps the store well-formed, as does a call that is refused.
pub add-IsWellFormed :
    (s : MemoryBackend) (entry : DirectoryEntry) → IsWellFormed s → IsWellFormed (add s entry).0
unfolding add
add-IsWellFormed s entry w = elim (Bool-cases (is_empty entry.dn)) [
  | inl e ↦ rw e w
  | inr e ↦ elim (Option-cases (find_first (at_dn entry.dn) s.entries)) [
    | inl free ↦ rw (e, free) (assign-IsWellFormed s entry free w)
    | inr (old, taken) ↦ rw (e, taken) w
  ]
]

-- A replaced entry keeps the store well-formed, as does a call that is refused.
pub modify-IsWellFormed :
    (s : MemoryBackend) (entry : DirectoryEntry) → IsWellFormed s → IsWellFormed (modify s entry).0
unfolding modify
modify-IsWellFormed s entry w = elim (Bool-cases (found (find_first (at_dn entry.dn) s.entries))) [
  | inl e ↦ rw e (set-IsWellFormed s entry w)
  | inr e ↦ rw e w
]

-- A removal keeps the store well-formed, as does a call that is refused.
pub remove-IsWellFormed :
    (s : MemoryBackend) (dn : Bytes) → IsWellFormed s → IsWellFormed (remove s dn).0
unfolding remove
remove-IsWellFormed s dn w = elim (Bool-cases (found (find_first (at_dn dn) s.entries))) [
  | inl e ↦ rw e (erase-IsWellFormed s dn w)
  | inr e ↦ rw e w
]
