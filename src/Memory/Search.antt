-- ===== src/Memory/Search.antt =====
-- memory.cpp: how `search`, `lookup` and `hasChildren` agree.
use simple_ldapd.Prelude.{
  ◌≡◌, refl, sym, ◌∙◌, true, not, Option, none, some, List, [], ◌∷◌, arith, if◌then◌else◌,
  Bool-cases, inl, inr,
}
use simple_ldapd.Prelude.Bytes.{Bytes, is_empty}
use simple_ldapd.OrderedMap.{OrderedMap, find_first}
use simple_ldapd.OrderedMap.Distinct.{IsDistinct, find_first-same}
use simple_ldapd.Dn.{dn_equals}
use simple_ldapd.Dn.Sameness.{dn_equals-IsSameness}
use simple_ldapd.Directory.{DirectoryEntry, base, one_level}
use simple_ldapd.Filter.{SearchFilter, all_filter}
use simple_ldapd.Filter.Match.{matches}
use simple_ldapd.Memory.{
  MemoryBackend, at_dn, lookup, search_entries, search, child_among, has_children,
}
use simple_ldapd.Memory.Invariant.{IsWellFormed}

-- The entry found, if the filter takes it.
abbrev pub taken : SearchFilter → Option DirectoryEntry → List DirectoryEntry
taken filter none = []
taken filter (some entry) = if matches filter entry then entry ∷ [] else []

search_nothing :
    (base_dn : Bytes) (filter : SearchFilter) (m : OrderedMap DirectoryEntry)
    → find_first (at_dn base_dn) m ≡ none
    → search_entries m base_dn base filter ≡ []
unfolding search_entries find_first
search_nothing base_dn filter [] h = refl
search_nothing base_dn filter ((key, entry) ∷ m) h = ground (arith, search_nothing base_dn filter m)

search_base :
    (base_dn : Bytes) (filter : SearchFilter) (m : OrderedMap DirectoryEntry)
    → IsDistinct dn_equals m
    → search_entries m base_dn base filter ≡ taken filter (find_first (at_dn base_dn) m)
unfolding search_entries find_first
search_base base_dn filter [] d = refl
search_base base_dn filter ((key, entry) ∷ m) d = elim (Bool-cases (dn_equals key base_dn)) [
  | inl same ↦
      let rest =
        search_nothing base_dn filter m
          (sym (find_first-same dn_equals dn_equals-IsSameness key base_dn m same) ∙ d.0) in
      rw (same, rest) refl
  | inr other ↦ rw other (search_base base_dn filter m d.1)
]

-- A search with the base scope returns the entry that `lookup` finds for the name, if the filter
-- takes it, and nothing else.
pub search-base :
    (s : MemoryBackend) (dn : Bytes) (filter : SearchFilter)
    → IsWellFormed s
    → search s dn base filter ≡ taken filter (lookup s dn)
unfolding search lookup
search-base s dn filter w = search_base dn filter s.entries w.distinct

matches-all : (entry : DirectoryEntry) → matches all_filter entry ≡ true
unfolding matches all_filter
matches-all entry = refl

children_of :
    (dn : Bytes) (m : OrderedMap DirectoryEntry)
    → child_among m dn ≡ not (is_empty (search_entries m dn one_level all_filter))
unfolding child_among search_entries
children_of dn [] = refl
children_of dn ((key, entry) ∷ m) = ground (arith, children_of dn m, matches-all entry)

-- `has_children` says whether a one-level search for everything returns anything.
pub has_children-search :
    (s : MemoryBackend) (dn : Bytes)
    → has_children s dn ≡ not (is_empty (search s dn one_level all_filter))
unfolding has_children search
has_children-search s dn = children_of dn s.entries
