-- ===== src/Memory.antt =====
-- backend/memory.cpp: the in-memory store. Each operation holds the mutex from its start to its end,
-- so it is one step on the map.
pub mod Invariant
pub mod Table
pub mod Rename
mod Scan
pub mod Children
pub mod Store
pub mod Search
use simple_ldapd.Prelude.{
  ℕ, Bool, true, false, ◌&&◌, ◌||◌, Option, none, some, List, [], ◌∷◌, if◌then◌else◌,
}
use simple_ldapd.Prelude.Bytes.{Bytes, is_empty, equal}
use simple_ldapd.OrderedMap.{OrderedMap, assign, find_first, set_first, erase_first}
use simple_ldapd.Dn.{dn_equals, dn_ends_with, dn_is_one_level_child}
use simple_ldapd.Directory.{DirectoryEntry, SearchScope, base, one_level, subtree}
use simple_ldapd.Filter.{SearchFilter}
use simple_ldapd.Filter.Match.{matches}
use simple_ldapd.Backend.{Backend, found}

pub record MemoryBackend : Type 0 where
  pub entries : OrderedMap DirectoryEntry

-- the property of a key that the loops test
abbrev pub at_dn : Bytes → Bytes → Bool
at_dn dn key = dn_equals key dn

unfoldable pub lookup : MemoryBackend → Bytes → Option DirectoryEntry
unfolding find_first dn_equals
lookup s dn = find_first (at_dn dn) s.entries

unfoldable pub in_scope : SearchScope → Bytes → Bytes → Bool
unfolding dn_equals dn_is_one_level_child dn_ends_with
in_scope base dn base_dn = dn_equals dn base_dn
in_scope one_level dn base_dn = dn_is_one_level_child dn base_dn
in_scope subtree dn base_dn = dn_ends_with dn base_dn
in_scope _ dn base_dn = false

-- the loop of `search`
unfoldable pub search_entries :
    OrderedMap DirectoryEntry → Bytes → SearchScope → SearchFilter → List DirectoryEntry
unfolding in_scope matches
search_entries [] base_dn scope filter = []
search_entries ((dn, entry) ∷ m) base_dn scope filter =
    let rest = search_entries m base_dn scope filter in
    if in_scope scope dn base_dn && matches filter entry then entry ∷ rest else rest

unfoldable pub search : MemoryBackend → Bytes → SearchScope → SearchFilter → List DirectoryEntry
unfolding search_entries
search s base_dn scope filter = search_entries s.entries base_dn scope filter

unfoldable pub add : MemoryBackend → DirectoryEntry → MemoryBackend × Bool
unfolding find_first dn_equals assign
add s entry =
    if is_empty entry.dn
    then (s, false)
    else if found (find_first (at_dn entry.dn) s.entries)
    then (s, false)
    else (record s { entries = assign entry.dn entry s.entries }, true)

unfoldable pub modify : MemoryBackend → DirectoryEntry → MemoryBackend × Bool
unfolding find_first set_first dn_equals
modify s entry =
    if found (find_first (at_dn entry.dn) s.entries)
    then (record s { entries = set_first (at_dn entry.dn) entry s.entries }, true)
    else (s, false)

unfoldable pub remove : MemoryBackend → Bytes → MemoryBackend × Bool
unfolding find_first erase_first dn_equals
remove s dn =
    if found (find_first (at_dn dn) s.entries)
    then (record s { entries = erase_first (at_dn dn) s.entries }, true)
    else (s, false)

-- The loop of `rename`; `source` is the iterator kept so far, with what it points to. The outer
-- `none` is the early `return false`.
unfoldable pub rename_scan :
    Bytes
    → Bytes
    → Option (Bytes × DirectoryEntry)
    → OrderedMap DirectoryEntry
    → Option (Option (Bytes × DirectoryEntry))
unfolding dn_equals
rename_scan from to source [] = some source
rename_scan from to source ((key, entry) ∷ m) =
    let next = rename_scan from to source m in
    let hit = rename_scan from to (some (key, entry)) m in
    if dn_equals key from then hit else if dn_equals key to then none else next

-- behind the loop
unfoldable pub rename_to :
    MemoryBackend → Bytes → Bytes → Option (Option (Bytes × DirectoryEntry)) → MemoryBackend × Bool
unfolding assign erase_first dn_equals equal
rename_to s from to none = (s, false)
rename_to s from to (some none) = (s, false)
rename_to s from to (some (some (key, entry))) =
    if dn_equals from to
    then (s, true)
    else let left = erase_first (λ k. equal k key) s.entries in
      (record s { entries = assign to (record entry { dn = to }) left }, true)

unfoldable pub rename : MemoryBackend → Bytes → Bytes → MemoryBackend × Bool
unfolding rename_scan rename_to
rename s from to =
    if is_empty from || is_empty to
    then (s, false)
    else rename_to s from to (rename_scan from to none s.entries)

unfoldable pub child_among : OrderedMap DirectoryEntry → Bytes → Bool
unfolding dn_is_one_level_child
child_among [] dn = false
child_among ((key, entry) ∷ m) dn = dn_is_one_level_child key dn || child_among m dn

unfoldable pub has_children : MemoryBackend → Bytes → Bool
unfolding child_among
has_children s dn = child_among s.entries dn

-- the class; `persist` is the empty default
abbrev pub memory_backend : Backend MemoryBackend
memory_backend = record {
  lookup = lookup;
  search = search;
  add = add;
  modify = modify;
  remove = remove;
  rename = rename;
  has_children = has_children;
  persist = λ s. s;
}
