-- ===== src/Memory/Children.antt =====
-- memory.cpp: the children of an entry, and the names that a lookup gives.
use simple_ldapd.Prelude.{
  ◌≡◌, ◌≢◌, ap, ◌∙◌, sym, true, false, some, [], ◌∷◌, arith, Bool-cases, inl, inr,
}
use simple_ldapd.Prelude.Bytes.{Bytes}
use simple_ldapd.OrderedMap.{OrderedMap, find_first}
use simple_ldapd.Dn.{dn_equals, dn_equals_iff, dn_is_one_level_child}
use simple_ldapd.Dn.Parent.{dn_is_one_level_child-same}
use simple_ldapd.Directory.{DirectoryEntry}
use simple_ldapd.Memory.{MemoryBackend, at_dn, lookup, child_among, has_children}
use simple_ldapd.Memory.Invariant.{IsNamed, IsWellFormed}

find_named :
    (dn : Bytes) (e : DirectoryEntry) (m : OrderedMap DirectoryEntry)
    → IsNamed m
    → find_first (at_dn dn) m ≡ some e
    → dn_equals e.dn dn ≡ true
unfolding find_first
find_named dn e [] n h = cc
find_named dn e ((key, entry) ∷ m) n h = elim (Bool-cases (dn_equals key dn)) [
  | inl same ↦
      let this : entry ≡ e = ground (arith, same, h) in
      let lower : dn_equals entry.dn dn ≡ true =
        (dn_equals_iff entry.dn dn).1
          (sym ((dn_equals_iff key entry.dn).0 n.0) ∙ (dn_equals_iff key dn).0 same) in
      ap (λ x. dn_equals x.dn dn) (sym this) ∙ lower
  | inr other ↦ find_named dn e m n.1 (ground (arith, other, h))
]

-- What is found at a name has that name, up to case.
pub lookup-named :
    (s : MemoryBackend) (dn : Bytes) (e : DirectoryEntry)
    → IsWellFormed s
    → lookup s dn ≡ some e
    → dn_equals e.dn dn ≡ true
unfolding lookup
lookup-named s dn e w h = find_named dn e s.entries w.named h

no_child :
    (parent c : Bytes) (e : DirectoryEntry) (m : OrderedMap DirectoryEntry)
    → parent ≢ []
    → child_among m parent ≡ false
    → find_first (at_dn c) m ≡ some e
    → dn_is_one_level_child c parent ≡ false
unfolding find_first child_among
no_child parent c e [] ne f h = absurd (cc)
no_child parent c e ((key, entry) ∷ m) ne f h = elim (Bool-cases (dn_equals key c)) [
  | inl same ↦ sym (dn_is_one_level_child-same key c parent ne same) ∙ ground arith
  | inr other ↦ no_child parent c e m ne (ground arith) (ground (arith, other, h))
]

-- A name without children is the parent of no entry that can be found.
pub has_children-lookup :
    (s : MemoryBackend) (parent c : Bytes) (e : DirectoryEntry)
    → parent ≢ []
    → has_children s parent ≡ false
    → lookup s c ≡ some e
    → dn_is_one_level_child c parent ≡ false
unfolding lookup has_children
has_children-lookup s parent c e ne f h = no_child parent c e s.entries ne f h
