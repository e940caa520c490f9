-- ===== src/Memory/Rename.antt =====
-- memory.cpp: the scan of `rename` and what it comes to.
use simple_ldapd.Prelude.{
  ◌≡◌, refl, ap, ◌∙◌, Bool, true, false, Option, none, some, arith, if◌then◌else◌, Bool-cases,
  Option-cases, inl, inr,
}
use simple_ldapd.Prelude.Bytes.{Bytes, is_empty, equal}
use simple_ldapd.OrderedMap.{find_first, assign, erase_first}
use simple_ldapd.Dn.{dn_equals}
use simple_ldapd.Directory.{DirectoryEntry}
use simple_ldapd.Backend.{found}
use simple_ldapd.Memory.{MemoryBackend, at_dn, lookup, rename_scan, rename_to, rename}
use simple_ldapd.Memory.Invariant.{IsWellFormed}
use simple_ldapd.Memory.Scan.{
  Entries, find_key-none, find_key-some, or_else, blocks, scan_free, scan_blocked, blocks-same,
  blocks-other, erase_exact,
}

module _ (s : MemoryBackend) (w : IsWellFormed s) (from to : Bytes) where
  abbrev scanned : Option (Option (Bytes × DirectoryEntry))
  scanned = rename_scan from to none s.entries

  -- The four ways in which the scan comes out.
  scanned-same :
      (entry : DirectoryEntry)
      → dn_equals from to ≡ true
      → find_first (at_dn from) s.entries ≡ some entry
      → (hit : Bytes × DirectoryEntry) × (scanned ≡ some (some hit))
  unfolding or_else
  scanned-same entry e f =
      let (key, hit, same) = find_key-some from s.entries entry f in
      (
        (key, entry),
        rw (scan_free from to none s.entries w.distinct (blocks-same from to s.entries e), hit)
            refl,
      )

  scanned-missing :
      find_first (blocks from to) s.entries ≡ none
      → find_first (at_dn from) s.entries ≡ none
      → scanned ≡ some none
  unfolding or_else
  scanned-missing b f =
      rw (scan_free from to none s.entries w.distinct b, find_key-none from s.entries f) refl

  scanned-moves :
      (entry : DirectoryEntry)
      → dn_equals from to ≡ false
      → find_first (at_dn from) s.entries ≡ some entry
      → find_first (at_dn to) s.entries ≡ none
      → (key : Bytes) × (scanned ≡ some (some (key, entry)))
        × (erase_first (λ k. equal k key) s.entries ≡ erase_first (at_dn from) s.entries)
  unfolding or_else
  scanned-moves entry e f t =
      let (key, hit, same) = find_key-some from s.entries entry f in
      let free = blocks-other from to s.entries e ∙ t in
      (
        key,
        rw (scan_free from to none s.entries w.distinct free, hit) refl,
        erase_exact from key entry s.entries hit same,
      )

  scanned-taken :
      (other : DirectoryEntry)
      → dn_equals from to ≡ false
      → find_first (at_dn to) s.entries ≡ some other
      → scanned ≡ none
  scanned-taken other e t =
      scan_blocked from to none s.entries other (blocks-other from to s.entries e ∙ t)

-- The store after a rename that moves an entry.
abbrev pub moved : MemoryBackend → Bytes → Bytes → DirectoryEntry → MemoryBackend
moved s from to entry = record s {
  entries = assign to (record entry { dn = to }) (erase_first (at_dn from) s.entries);
}

-- What `rename` returns, by what `lookup` finds for the two names.
abbrev pub outcome :
    MemoryBackend
    → Bytes
    → Bytes
    → Option DirectoryEntry
    → Option DirectoryEntry
    → MemoryBackend × Bool
outcome s from to none target = (s, false)
outcome s from to (some entry) target =
    if dn_equals from to
    then (s, true)
    else if found target
    then (s, false)
    else (moved s from to entry, true)

nothing_to_move :
    (s : MemoryBackend) (w : IsWellFormed s) (from to : Bytes)
    → find_first (at_dn from) s.entries ≡ none
    → rename_to s from to (scanned s w from to) ≡ (s, false)
unfolding rename_to
nothing_to_move s w from to f = elim (Bool-cases (dn_equals from to)) [
  | inl e ↦ rw (scanned-missing s w from to (blocks-same from to s.entries e) f) refl
  | inr e ↦ elim (Option-cases (find_first (at_dn to) s.entries)) [
    | inl t ↦ rw (scanned-missing s w from to (blocks-other from to s.entries e ∙ t) f) refl
    | inr (other, t) ↦ rw (scanned-taken s w from to other e t) refl
  ]
]

something_to_move :
    (s : MemoryBackend) (w : IsWellFormed s) (from to : Bytes) (entry : DirectoryEntry)
    → find_first (at_dn from) s.entries ≡ some entry
    → rename_to s from to (scanned s w from to) ≡ (
        if dn_equals from to
        then (s, true)
        else if found (find_first (at_dn to) s.entries)
        then (s, false)
        else (moved s from to entry, true))
unfolding rename_to
something_to_move s w from to entry f = elim (Bool-cases (dn_equals from to)) [
  | inl e ↦ let (hit, p) = scanned-same s w from to entry e f in ground (arith, p, e)
  | inr e ↦ elim (Option-cases (find_first (at_dn to) s.entries)) [
    | inl t ↦
        let (key, p, erased) = scanned-moves s w from to entry e f t in
        ground (arith, p, e, t, ap (λ (m : Entries). assign to (record entry { dn = to }) m) erased)
    | inr (other, t) ↦ ground (arith, scanned-taken s w from to other e t, e, t)
  ]
]

pub rename-outcome :
    (s : MemoryBackend) (from to : Bytes)
    → IsWellFormed s
    → is_empty from ≡ false
    → is_empty to ≡ false
    → rename s from to ≡ outcome s from to (lookup s from) (lookup s to)
unfolding rename lookup
rename-outcome s from to w ef et =
    let start : rename s from to ≡ rename_to s from to (scanned s w from to) = rw (ef, et) refl in
    elim (Option-cases (find_first (at_dn from) s.entries)) [
      | inl f ↦ rw f (start ∙ nothing_to_move s w from to f)
      | inr (entry, f) ↦ rw f (start ∙ something_to_move s w from to entry f)
    ]
