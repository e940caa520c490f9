-- ===== src/Backend.antt =====
-- backend/backend.hpp: the interface that the access control, the binds and the sessions use, over
-- the states `S` of a store, and what a store promises of it.
use simple_ldapd.Prelude.{
  ◌≡◌, ◌≢◌, [], Bool, true, false, not, ◌&&◌, Option, none, some, List, if◌then◌else◌,
}
use simple_ldapd.Prelude.Bytes.{Bytes, is_empty}
use simple_ldapd.Dn.{dn_equals, dn_is_one_level_child}
use simple_ldapd.Directory.{DirectoryEntry, SearchScope}
use simple_ldapd.Filter.{SearchFilter}

-- the virtual functions; one that changes the store returns the new state
pub record Backend (S : Type 0) : Type 0 where
  pub lookup : S → Bytes → Option DirectoryEntry
  pub search : S → Bytes → SearchScope → SearchFilter → List DirectoryEntry
  pub add : S → DirectoryEntry → S × Bool
  pub modify : S → DirectoryEntry → S × Bool
  pub remove : S → Bytes → S × Bool
  pub rename : S → Bytes → Bytes → S × Bool
  pub has_children : S → Bytes → Bool
  pub persist : S → S

abbrev pub found : Option DirectoryEntry → Bool
found none = false
found (some entry) = true

abbrev pub renamed : Bytes → Option DirectoryEntry → Option DirectoryEntry
renamed to none = none
renamed to (some entry) = some (record entry { dn = to })

-- A store is a partial function from names, taken up to case, to entries; each operation says
-- whether it took place, and the table afterwards is the old one changed at the names given.
pub record IsStore {S : Type 0} (b : Backend S) (Valid : S → Type 0) : Type 0 where
  pub add_valid : (s : S) (e : DirectoryEntry) → Valid s → Valid (b.add s e).0
  pub modify_valid : (s : S) (e : DirectoryEntry) → Valid s → Valid (b.modify s e).0
  pub remove_valid : (s : S) (dn : Bytes) → Valid s → Valid (b.remove s dn).0
  pub rename_valid : (s : S) (from to : Bytes) → Valid s → Valid (b.rename s from to).0
  pub persist_valid : (s : S) → Valid s → Valid (b.persist s)
  pub persist_lookup : (s : S) (dn : Bytes) → b.lookup (b.persist s) dn ≡ b.lookup s dn
  pub lookup_same :
      (s : S) (a c : Bytes) → Valid s → dn_equals a c ≡ true → b.lookup s a ≡ b.lookup s c
  pub lookup_named :
      (s : S) (dn : Bytes) (e : DirectoryEntry)
      → Valid s
      → b.lookup s dn ≡ some e
      → dn_equals e.dn dn ≡ true
  pub children_found :
      (s : S) (parent dn : Bytes) (e : DirectoryEntry)
      → Valid s
      → parent ≢ []
      → b.has_children s parent ≡ false
      → b.lookup s dn ≡ some e
      → dn_is_one_level_child dn parent ≡ false
  pub add_done :
      (s : S) (e : DirectoryEntry)
      → (b.add s e).1 ≡ (not (is_empty e.dn) && not (found (b.lookup s e.dn)))
  pub add_lookup :
      (s : S) (e : DirectoryEntry) (dn : Bytes)
      → Valid s
      → b.lookup (b.add s e).0 dn
        ≡ (if (b.add s e).1 && dn_equals e.dn dn then some e else b.lookup s dn)
  pub modify_done : (s : S) (e : DirectoryEntry) → (b.modify s e).1 ≡ found (b.lookup s e.dn)
  pub modify_lookup :
      (s : S) (e : DirectoryEntry) (dn : Bytes)
      → Valid s
      → b.lookup (b.modify s e).0 dn
        ≡ (if (b.modify s e).1 && dn_equals e.dn dn then some e else b.lookup s dn)
  pub remove_done : (s : S) (dn : Bytes) → (b.remove s dn).1 ≡ found (b.lookup s dn)
  pub remove_lookup :
      (s : S) (gone dn : Bytes)
      → Valid s
      → b.lookup (b.remove s gone).0 dn ≡ (if dn_equals gone dn then none else b.lookup s dn)
  pub rename_done :
      (s : S) (from to : Bytes)
      → Valid s
      → (b.rename s from to).1 ≡ (
          not (is_empty from)
          && not (is_empty to)
          && found (b.lookup s from)
          && (if dn_equals from to then true else not (found (b.lookup s to))))
  pub rename_lookup :
      (s : S) (from to dn : Bytes)
      → Valid s
      → b.lookup (b.rename s from to).0 dn ≡ (
          if (b.rename s from to).1 && not (dn_equals from to)
          then if dn_equals to dn
            then renamed to (b.lookup s from)
            else if dn_equals from dn
            then none
            else b.lookup s dn
          else b.lookup s dn)
