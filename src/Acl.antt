-- ===== src/Acl.antt =====
-- security/acl.cpp: rules, their text form and the two decisions.
pub mod Order
use simple_ldapd.Prelude.{
  Bool, List, Option, drop, false, if◌then◌else◌, none, not, some, take, true, ℕ, [], ◌&&◌, ◌++◌,
  ◌==◌, ◌||◌, ◌∷◌,
}
use simple_ldapd.Prelude.Bytes.{Bytes, codes, is_empty, equal}
use simple_ldapd.Text.{trim_copy, read_word, take_until}
use simple_ldapd.Dn.{to_lower_ascii, iequals, dn_equals, dn_ends_with, dn_rdn, parse_rdn}
use simple_ldapd.Directory.{DirectoryEntry, find_attribute}

pub data AclWhoKind : Type 0 where
  anyone anonymous users dn group : AclWhoKind

pub data AclPermission : Type 0 where
  search write : AclPermission

pub record AclRule : Type 0 where
  pub who : AclWhoKind
  pub who_value : Bytes
  pub permission : AclPermission
  pub target : Bytes

-- the result of `parseAclLine`: the rule, or the text of the error
pub data ParsedAcl : Type 0 where
  parsed : AclRule → ParsedAcl
  refused : Bytes → ParsedAcl

abbrev starts_with : Bytes → Bytes → Bool
starts_with [] s = true
starts_with (c ∷ p) [] = false
starts_with (c ∷ p) (x ∷ s) = if c == x then starts_with p s else false

pub data ParsedWho : Type 0 where
  who_is : AclWhoKind → Bytes → ParsedWho
  bad_who : Bytes → ParsedWho

-- the text behind `dn:` or `group:`
named_who : AclWhoKind → Bytes → Bytes → ParsedWho
named_who kind [] error = bad_who error
named_who kind (c ∷ value) error = who_is kind (c ∷ value)

unfoldable pub parse_who : Bytes → ParsedWho
unfolding to_lower_ascii equal named_who
parse_who who =
    let who_key = to_lower_ascii who in
    if equal who_key (codes "*") || equal who_key (codes "anyone")
    then who_is anyone []
    else if equal who_key (codes "anonymous")
    then who_is anonymous []
    else if equal who_key (codes "users")
    then who_is users []
    else if starts_with (codes "dn:") who_key
    then named_who dn (drop 3 who) (codes "acl dn: is empty")
    else if starts_with (codes "group:") who_key
    then named_who group (drop 6 who) (codes "acl group: is empty")
    else bad_who (codes "acl who must be anonymous, users, *, dn:..., or group:...")

unfoldable pub parse_permission : Bytes → Option AclPermission
unfolding to_lower_ascii equal
parse_permission perm =
    let perm_key = to_lower_ascii perm in
    if equal perm_key (codes "search")
    then some search
    else if equal perm_key (codes "write") || equal perm_key (codes "*")
    then some write
    else none

abbrev with_target : AclWhoKind → Bytes → Bytes → Option AclPermission → ParsedAcl
with_target kind value target none = refused (codes "acl permission must be search or write")
with_target kind value target (some permission) = parsed (record {
  who = kind;
  who_value = value;
  permission = permission;
  target = if is_empty target || equal target (codes "*") then [] else target;
})

abbrev with_who : ParsedWho → Bytes → Bytes → ParsedAcl
with_who (bad_who error) perm target = refused error
with_who (who_is kind value) perm target = with_target kind value target (parse_permission perm)

unfoldable pub parse_acl_line : Bytes → ParsedAcl
unfolding read_word trim_copy take_until parse_who parse_permission equal
parse_acl_line text =
    let (who, behind) = read_word text in
    let (perm, rest) = read_word behind in
    if is_empty who || is_empty perm
    then refused (codes "acl requires who and permission")
    else with_who (parse_who who) perm (trim_copy (take_until (λ c. c == b'\n') rest))

-- the fields of `LdapConfig` that the decisions read
pub record AclConfig : Type 0 where
  pub root_dn : Bytes
  pub acls : List AclRule

abbrev pub Lookup : Type 0
Lookup = Bytes → Option DirectoryEntry

unfoldable pub is_root : AclConfig → Bytes → Bool
unfolding dn_equals
is_root config bind_dn =
    not (is_empty bind_dn) && not (is_empty config.root_dn) && dn_equals bind_dn config.root_dn

unfoldable pub covers : AclRule → Bytes → Bool
unfolding dn_equals dn_ends_with
covers rule entry_dn =
    is_empty rule.target || (dn_equals entry_dn rule.target || dn_ends_with entry_dn rule.target)

abbrev pub may_do : AclPermission → Bool → Bool
may_do write true = true
may_do search true = false
may_do permission false = true

unfoldable pub grants : AclRule → Bool → Bool
grants rule writing = may_do rule.permission writing

unfoldable pub value_among : List Bytes → Bytes → Bool
unfolding iequals
value_among [] value = false
value_among (item ∷ values) value = iequals item value || value_among values value

-- `hasValue`; `dnEquals` and `iequals` are one function, so its last argument makes no difference
unfoldable pub has_value : DirectoryEntry → Bytes → Bytes → Bool
unfolding find_attribute value_among
has_value entry name value = elim (find_attribute entry name) [
  | none ↦ false
  | some values ↦ value_among values value
]

abbrev first_value : Option (List Bytes) → Bytes
first_value none = []
first_value (some []) = []
first_value (some (value ∷ values)) = value

abbrev user_uid : Option DirectoryEntry → Bytes
user_uid none = []
user_uid (some user) = first_value (find_attribute user (codes "uid"))

-- the uid in the name itself, where the entry gives none
unfoldable pub rdn_uid : Bytes → Bytes
unfolding parse_rdn dn_rdn iequals
rdn_uid bind_dn = elim (parse_rdn (dn_rdn bind_dn)) [
  | none ↦ []
  | some (type, value) ↦ if iequals type (codes "uid") then value else []
]

abbrev member_of : Option DirectoryEntry → Bytes → Bool
member_of none group_dn = false
member_of (some user) group_dn = has_value user (codes "memberOf") group_dn

unfoldable pub listed_in : DirectoryEntry → Option DirectoryEntry → Bytes → Bytes → Bool
unfolding has_value rdn_uid
listed_in group_entry user bind_dn group_dn =
    let uid = if is_empty (user_uid user) then rdn_uid bind_dn else user_uid user in
    has_value group_entry (codes "member") bind_dn
    || has_value group_entry (codes "uniqueMember") bind_dn
    || member_of user group_dn
    || (not (is_empty uid) && has_value group_entry (codes "memberUid") uid)

unfoldable pub in_group : Lookup → Bytes → Bytes → Bool
unfolding listed_in
in_group lookup bind_dn group_dn = if is_empty bind_dn then false else elim (lookup group_dn) [
  | none ↦ false
  | some group_entry ↦ listed_in group_entry (lookup bind_dn) bind_dn group_dn
]

abbrev pub matches_kind : AclWhoKind → Lookup → Bytes → Bytes → Bool
matches_kind anyone lookup who_value bind_dn = true
matches_kind anonymous lookup who_value bind_dn = is_empty bind_dn
matches_kind users lookup who_value bind_dn = not (is_empty bind_dn)
matches_kind dn lookup who_value bind_dn = dn_equals bind_dn who_value
matches_kind group lookup who_value bind_dn = in_group lookup bind_dn who_value

unfoldable pub who_matches : Lookup → AclRule → Bytes → Bool
unfolding in_group dn_equals
who_matches lookup rule bind_dn = matches_kind rule.who lookup rule.who_value bind_dn

-- the loop over the rules, which both decisions have
unfoldable pub some_rule : Lookup → List AclRule → Bytes → Bytes → Bool → Bool
unfolding who_matches covers grants
some_rule lookup [] bind_dn entry_dn writing = false
some_rule lookup (rule ∷ rules) bind_dn entry_dn writing =
    (who_matches lookup rule bind_dn && covers rule entry_dn && grants rule writing)
    || some_rule lookup rules bind_dn entry_dn writing

unfoldable pub may_search : AclConfig → Lookup → Bytes → Bytes → Bool
unfolding is_root some_rule
may_search config lookup bind_dn entry_dn =
    if is_empty entry_dn || is_root config bind_dn
    then true
    else if is_empty config.acls
    then true
    else some_rule lookup config.acls bind_dn entry_dn false

unfoldable pub may_write : AclConfig → Lookup → Bytes → Bytes → Bool
unfolding is_root some_rule
may_write config lookup bind_dn entry_dn =
    if is_root config bind_dn
    then true
    else if is_empty config.acls
    then false
    else some_rule lookup config.acls bind_dn entry_dn true
