-- ===== src/Tests/Store.antt =====
-- A small directory, and the laws of the store on it.
use simple_ldapd.Prelude.{◌≡◌, not, [], ◌∷◌}
use simple_ldapd.Prelude.Bytes.{Bytes, codes, is_empty}
use simple_ldapd.Directory.{DirectoryEntry, base, one_level}
use simple_ldapd.Filter.{all_filter, equality_filter}
use simple_ldapd.Memory.{MemoryBackend, lookup, search, add, has_children}
use simple_ldapd.Memory.Invariant.{IsWellFormed, add-IsWellFormed}
use simple_ldapd.Memory.Search.{taken, search-base, has_children-search}

abbrev pub root_name : Bytes
root_name = codes "dc=x"

abbrev pub amy_name : Bytes
amy_name = codes "uid=amy,dc=x"

abbrev bob_name : Bytes
bob_name = codes "uid=bob,dc=x"

abbrev pub root : DirectoryEntry
root = record { dn = root_name; attributes = [] }

abbrev pub amy : DirectoryEntry
amy = record { dn = amy_name; attributes = (codes "uid", codes "amy" ∷ []) ∷ [] }

abbrev pub empty_store : MemoryBackend
empty_store = record { entries = [] }

abbrev pub store : MemoryBackend
store = (add (add empty_store root).0 amy).0

pub store-IsWellFormed : IsWellFormed store
store-IsWellFormed =
    add-IsWellFormed (add empty_store root).0 amy
      (add-IsWellFormed empty_store root (record { ordered = tt; distinct = tt; named = tt }))

search-base_example :
    search store amy_name base (equality_filter (codes "uid") (codes "AMY"))
    ≡ taken (equality_filter (codes "uid") (codes "AMY")) (lookup store amy_name)
search-base_example =
    search-base store amy_name (equality_filter (codes "uid") (codes "AMY")) store-IsWellFormed

has_children-search_example :
    has_children store root_name ≡ not (is_empty (search store root_name one_level all_filter))
has_children-search_example = has_children-search store root_name
