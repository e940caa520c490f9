-- ===== src/Tests/Names.antt =====
-- The laws of names and of modifications on concrete ones.
use simple_ldapd.Prelude.{◌⊎◌, List, ◌≡◌, ◌≢◌, ◌↔◌, refl, inl, true, none, some, [], ◌∷◌}
use simple_ldapd.Prelude.Bytes.{Bytes, codes}
use simple_ldapd.Dn.{
  find_char, iequals, dn_ends_with, dn_is_one_level_child, dn_parent, dn_rdn, compose_dn,
}
use simple_ldapd.Dn.Suffix.{Under, dn_ends_with_iff}
use simple_ldapd.Dn.Children.{ChildOf, dn_is_one_level_child_iff}
use simple_ldapd.Dn.Parts.{compose_dn-parts}
use simple_ldapd.Directory.{
  DirectoryEntry, success, attribute_or_value_exists, add, delete, find_attribute,
  AttributeModification,
}
use simple_ldapd.Modify.{has_value, apply_modifications}
use simple_ldapd.Modify.Frame.{Untouched, apply_modifications-Untouched}
use simple_ldapd.Modify.Fresh.{Fresh}
use simple_ldapd.Modify.Values.{changed, add_then_delete}
use simple_ldapd.Modify.Add.{Repeats, apply_change-add_refused}
use simple_ldapd.Acl.{AclConfig, Lookup, anyone, write, may_search, may_write}
use simple_ldapd.Acl.Order.{may_write-may_search, may_write-below, may_search-below}

abbrev base_name : Bytes
base_name = codes "dc=x"

abbrev child : Bytes
child = codes "uid=amy,DC=x"

abbrev rdn : Bytes
rdn = codes "uid=amy"

abbrev mail : Bytes
mail = codes "mail"

abbrev one : Bytes
one = codes "a"

abbrev two : Bytes
two = codes "b"

abbrev person : DirectoryEntry
person = record { dn = child; attributes = (codes "Mail", one ∷ []) ∷ [] }

two_is_new : Fresh (one ∷ []) (two ∷ [])
unfolding has_value
two_is_new = (refl, tt)

abbrev config : AclConfig
config = record {
  root_dn = [];
  acls = record { who = anyone; who_value = []; permission = write; target = base_name } ∷ [];
}

abbrev no_entry : Lookup
no_entry name = none

base_is_named : base_name ≢ []
base_is_named h = cc

rdn_is_named : rdn ≢ []
rdn_is_named h = cc

abbrev no_uid : AttributeModification
no_uid = record { op = delete; type = codes "uid"; values = [] }

other_name : Untouched (no_uid ∷ []) mail
unfolding iequals
other_name = (refl, tt)

may : may_write config no_entry [] base_name ≡ true
unfolding may_write
may = refl

may_read : may_search config no_entry [] base_name ≡ true
unfolding may_search
may_read = refl

is_below : dn_ends_with child base_name ≡ true
unfolding dn_ends_with
is_below = refl

is_child : dn_is_one_level_child child base_name ≡ true
unfolding dn_is_one_level_child
is_child = refl

no_comma : find_char b',' rdn ≡ none
unfolding find_char
no_comma = refl

has_mail : find_attribute person mail ≡ some (one ∷ [])
unfolding find_attribute
has_mail = refl

may_write-may_search_example : may_search config no_entry [] base_name ≡ true
may_write-may_search_example = may_write-may_search config no_entry [] base_name may

may_write-below_example : may_write config no_entry [] child ≡ true
may_write-below_example =
    may_write-below config no_entry [] base_name child base_is_named is_below may

may_search-below_example : may_search config no_entry [] child ≡ true
may_search-below_example =
    may_search-below config no_entry [] base_name child base_is_named is_below may_read

dn_ends_with_iff_example : (dn_ends_with child base_name ≡ true) ↔ Under child base_name
dn_ends_with_iff_example = dn_ends_with_iff child base_name

dn_is_one_level_child_iff_example :
    (dn_is_one_level_child child base_name ≡ true) ↔ ChildOf child base_name
dn_is_one_level_child_iff_example = dn_is_one_level_child_iff child base_name base_is_named

compose_dn-parts_example : compose_dn (dn_rdn rdn) (dn_parent rdn) ≡ rdn
compose_dn-parts_example = compose_dn-parts rdn (inl no_comma)

apply_modifications-Untouched_example :
    find_attribute (apply_modifications person (no_uid ∷ [])).1 mail ≡ find_attribute person mail
apply_modifications-Untouched_example =
    apply_modifications-Untouched person (no_uid ∷ []) mail other_name

add_then_delete_example :
    apply_modifications person (
      record { op = add; type = mail; values = two ∷ [] }
      ∷ record { op = delete; type = mail; values = two ∷ [] }
      ∷ [])
    ≡ (success, person)
add_then_delete_example = add_then_delete person mail one [] two [] refl has_mail two_is_new

apply_change-add_refused_example :
    (((changed person mail add (two ∷ [])).0 ≡ success)
      ⊎ ((changed person mail add (two ∷ [])).0 ≡ attribute_or_value_exists))
    × (((changed person mail add (two ∷ [])).0 ≡ attribute_or_value_exists) ↔ (
        (held : List Bytes) × (find_attribute person mail ≡ some held) × Repeats held (two ∷ [])))
apply_change-add_refused_example = apply_change-add_refused person mail (two ∷ []) refl
