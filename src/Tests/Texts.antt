-- ===== src/Tests/Texts.antt =====
-- The text form of filters and the schema, at concrete inputs.
use simple_ldapd.Prelude.{◌≡◌, ◌⊎◌, refl, true, false, List, [], ◌∷◌, arith}
use simple_ldapd.Prelude.Bytes.{Bytes, codes, equal}
use simple_ldapd.Text.{is_space}
use simple_ldapd.Text.Scan.{every}
use simple_ldapd.OrderedMap.{key_lt}
use simple_ldapd.Schema.Collect.{
  collected, unknown_class, collect_object_classes, collect_object_classes-ends,
}
use simple_ldapd.Directory.{DirectoryEntry, success}
use simple_ldapd.Filter.{
  FilterNode, nil, cons, and_node, not_node, equality_node, present_node, substring_node,
}
use simple_ldapd.Filter.Parse.{parse, parse_filter}
use simple_ldapd.Filter.Parse.Plain.{
  written, IsPlain, plain_and, plain_not, plain_equality, plain_present, plain_substring, plain_nil,
  plain_cons,
}
use simple_ldapd.Filter.Parse.Text.{parse-written}
use simple_ldapd.Filter.Parse.Fuel.{parse_filter_ends}
use simple_ldapd.Schema.{SchemaObjectClass, SchemaRegistry, empty_registry, loaded}
use simple_ldapd.Config.{LdapConfig, default_config}
use simple_ldapd.Config.Settings as Settings
use simple_ldapd.Schema.Load.{load_text}
use simple_ldapd.Schema.Validate.{validate_entry}
use simple_ldapd.Schema.Required.{HasClasses, validate_entry-HasClasses}

abbrev tree : FilterNode
tree = and_node (
    cons (equality_node (codes "uid") (codes "amy")) (
      cons (not_node (cons (present_node (codes "seeAlso")) nil))
        (cons (substring_node (codes "cn") (codes "A") (codes "m" ∷ []) (codes "y")) nil)))

tree-IsPlain : IsPlain tree
unfolding every equal is_space
tree-IsPlain = plain_and (
    plain_cons (plain_equality {attribute = codes "uid"} {value = codes "amy"} refl refl) (
      plain_cons (plain_not (plain_present {attribute = codes "seeAlso"} refl)) (
        plain_cons
          (plain_substring {attribute = codes "cn"} {initial = codes "A"} {any = codes "m" ∷ []}
            {final = codes "y"} refl refl refl refl refl)
          plain_nil)))

parse-written_example :
    parse (written tree []) ≡ record { text = written tree []; valid = true; root = tree }
parse-written_example = parse-written tree tree-IsPlain

abbrev text : Bytes
text = codes "(!(a=b))"

parse_filter_ends_example : (parse_filter 9 text).exhausted ≡ false
parse_filter_ends_example = parse_filter_ends 9 text (omega arith)

-- a class that stands above itself, and one below it
abbrev registry : SchemaRegistry
registry =
    (load_text empty_registry (
      codes
        "attributetype ( 2.5.4.3 NAME 'cn' ) objectclass ( 1.2 NAME 'top' SUP top ABSTRACT ) objectclass ( 1.3 NAME 'thing' SUP top MUST cn )")).0

registry-loaded : loaded registry ≡ true
unfolding load_text
registry-loaded = refl

abbrev entry : DirectoryEntry
entry = record {
  dn = codes "cn=a";
  attributes = (codes "cn", codes "a" ∷ []) ∷ (codes "objectClass", codes "thing" ∷ []) ∷ [];
}

accepted_by_registry : (validate_entry registry entry).0 ≡ success
unfolding load_text validate_entry key_lt
accepted_by_registry = refl

validate_entry-HasClasses_example : HasClasses registry entry
validate_entry-HasClasses_example =
    validate_entry-HasClasses registry entry registry-loaded accepted_by_registry

collect_object_classes-ends_example :
    ((classes : List SchemaObjectClass) × (collect_object_classes registry (codes "thing" ∷ [])
        ≡ collected classes))
    ⊎ ((found : Bytes) × (collect_object_classes registry (codes "thing" ∷ [])
          ≡ unknown_class found))
collect_object_classes-ends_example = collect_object_classes-ends registry (codes "thing" ∷ [])

-- a port that is cut to its 16 bits
abbrev settings_text : Bytes
settings_text = codes "ldap_port = 65925"

abbrev read_settings : LdapConfig
read_settings = record default_config { ldap_port = 389 }
