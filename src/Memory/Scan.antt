-- ===== src/Memory/Scan.antt =====
-- memory.cpp: the loop of `rename` over the entries.
use simple_ldapd.Prelude.{
  ◌≡◌, refl, sym, ◌∙◌, Bool, true, false, not, ◌&&◌, Option, none, some, [], ◌∷◌, arith,
  if◌then◌else◌, Bool-cases, inl, inr,
}
use simple_ldapd.Prelude.Bytes.{Bytes, equal, equal_iff, equal_refl}
use simple_ldapd.OrderedMap.{OrderedMap, find_first, erase_first}
use simple_ldapd.OrderedMap.First.{find_first-ext}
use simple_ldapd.OrderedMap.Distinct.{IsDistinct, apart, find_first-same}
use simple_ldapd.Dn.{dn_equals}
use simple_ldapd.Dn.Sameness.{dn_equals-IsSameness}
use simple_ldapd.Directory.{DirectoryEntry}
use simple_ldapd.Memory.{at_dn, rename_scan}

abbrev pub Entries : Type 0
Entries = OrderedMap DirectoryEntry

-- `find_first`, with the key.
unfoldable pub find_key : Bytes → Entries → Option (Bytes × DirectoryEntry)
find_key dn [] = none
find_key dn ((key, entry) ∷ m) = if dn_equals key dn then some (key, entry) else find_key dn m

pub find_key-none :
    (dn : Bytes) (m : Entries) → find_first (at_dn dn) m ≡ none → find_key dn m ≡ none
unfolding find_key find_first
find_key-none dn [] h = refl
find_key-none dn ((key, entry) ∷ m) h = ground (arith, find_key-none dn m)

pub find_key-some :
    (dn : Bytes) (m : Entries) (entry : DirectoryEntry)
    → find_first (at_dn dn) m ≡ some entry
    → (key : Bytes) × (find_key dn m ≡ some (key, entry)) × (dn_equals key dn ≡ true)
unfolding find_key find_first
find_key-some dn [] entry h = cc
find_key-some dn ((key, e) ∷ m) entry h = elim (Bool-cases (dn_equals key dn)) [
  | inl same ↦ (key, ground (arith, same), same)
  | inr other ↦ let (k, f, s) = find_key-some dn m entry (rw other at h) in (k, rw other f, s)
]

unfoldable pub or_else :
    Option (Bytes × DirectoryEntry)
    → Option (Bytes × DirectoryEntry)
    → Option (Bytes × DirectoryEntry)
or_else none source = source
or_else (some hit) source = some hit

-- A key that makes the loop return early.
abbrev pub blocks : Bytes → Bytes → Bytes → Bool
blocks from to key = not (dn_equals key from) && dn_equals key to

pub scan_free :
    (from to : Bytes) (source : Option (Bytes × DirectoryEntry)) (m : Entries)
    → IsDistinct dn_equals m
    → find_first (blocks from to) m ≡ none
    → rename_scan from to source m ≡ some (or_else (find_key from m) source)
unfolding rename_scan find_first find_key or_else
scan_free from to source [] d h = refl
scan_free from to source ((key, entry) ∷ m) d h = elim (Bool-cases (dn_equals key from)) [
  | inl same ↦
      let none_left =
        find_key-none from m
          (sym (find_first-same dn_equals dn_equals-IsSameness key from m same) ∙ d.0) in
      ground (arith, same, none_left, scan_free from to (some (key, entry)) m d.1)
  | inr other ↦ ground (arith, other, scan_free from to source m d.1)
]

pub scan_blocked :
    (from to : Bytes) (source : Option (Bytes × DirectoryEntry)) (m : Entries) (e : DirectoryEntry)
    → find_first (blocks from to) m ≡ some e
    → rename_scan from to source m ≡ none
unfolding rename_scan find_first
scan_blocked from to source [] e h = cc
scan_blocked from to source ((key, entry) ∷ m) e h =
    ground (arith, scan_blocked from to source m e, scan_blocked from to (some (key, entry)) m e)

-- Which keys block: none if the names are equal up to case, else those of the new name.
pub blocks-same :
    (from to : Bytes) (m : Entries)
    → dn_equals from to ≡ true
    → find_first (blocks from to) m ≡ none
unfolding find_first
blocks-same from to [] h = refl
blocks-same from to ((key, entry) ∷ m) h =
    ground (arith, blocks-same from to m h, dn_equals-IsSameness.transports from to key h)

pub blocks-other :
    (from to : Bytes) (m : Entries)
    → dn_equals from to ≡ false
    → find_first (blocks from to) m ≡ find_first (at_dn to) m
blocks-other from to m h =
    find_first-ext (blocks from to) (at_dn to) m
      (λ k. ground (arith, apart dn_equals dn_equals-IsSameness from to k h))

-- The iterator's own key erases the entry that the name finds.
pub erase_exact :
    (from key : Bytes) (entry : DirectoryEntry) (m : Entries)
    → find_key from m ≡ some (key, entry)
    → dn_equals key from ≡ true
    → erase_first (λ k. equal k key) m ≡ erase_first (at_dn from) m
unfolding find_key erase_first
erase_exact from key entry [] h r = refl
erase_exact from key entry ((k, e) ∷ m) h r = elim (Bool-cases (dn_equals k from)) [
  | inl same ↦ ground (arith, same, equal_refl k)
  | inr other ↦ ground (arith, other, equal_iff k key, erase_exact from key entry m)
]
