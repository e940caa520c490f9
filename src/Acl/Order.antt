-- ===== src/Acl/Order.antt =====
-- acl.cpp: how the decisions compare, over operations and over names.
use simple_ldapd.Prelude.{◌≡◌, ◌≢◌, refl, Bool, true, false, List, [], ◌∷◌, arith, inl, inr}
use simple_ldapd.Prelude.Bytes.{Bytes}
use simple_ldapd.Dn.{dn_equals, dn_ends_with, dn_equals_iff}
use simple_ldapd.Dn.Suffix.{dn_ends_with_iff, dn_ends_with_trans}
use simple_ldapd.Acl.{AclRule, AclConfig, Lookup, covers, grants, some_rule, may_search, may_write}

some_rule-search :
    (lookup : Lookup) (rules : List AclRule) (bind_dn entry_dn : Bytes)
    → some_rule lookup rules bind_dn entry_dn true ≡ true
    → some_rule lookup rules bind_dn entry_dn false ≡ true
unfolding some_rule grants
some_rule-search lookup [] bind_dn entry_dn h = cc
some_rule-search lookup (rule ∷ rules) bind_dn entry_dn h =
    grind (arith, some_rule-search lookup rules bind_dn entry_dn)

-- Whoever may write an entry may search it.
pub may_write-may_search :
    (config : AclConfig) (lookup : Lookup) (bind_dn entry_dn : Bytes)
    → may_write config lookup bind_dn entry_dn ≡ true
    → may_search config lookup bind_dn entry_dn ≡ true
may_write-may_search config lookup bind_dn entry_dn h =
    let rules = some_rule-search lookup config.acls bind_dn entry_dn in
    unfold may_search may_write in ground arith

equal_under : (a b : Bytes) → dn_equals a b ≡ true → dn_ends_with a b ≡ true
equal_under a b h = (dn_ends_with_iff a b).1 (inr (inl ((dn_equals_iff a b).0 h)))

-- A rule that covers an entry covers all below it.
covers-below :
    (rule : AclRule) (entry_dn below : Bytes)
    → entry_dn ≢ []
    → dn_ends_with below entry_dn ≡ true
    → covers rule entry_dn ≡ true
    → covers rule below ≡ true
covers-below rule entry_dn below ne h k =
    unfold covers in
    ground (arith, dn_ends_with_trans below entry_dn rule.target, equal_under entry_dn rule.target)

some_rule-below :
    (lookup : Lookup) (rules : List AclRule) (bind_dn entry_dn below : Bytes) (writing : Bool)
    → entry_dn ≢ []
    → dn_ends_with below entry_dn ≡ true
    → some_rule lookup rules bind_dn entry_dn writing ≡ true
    → some_rule lookup rules bind_dn below writing ≡ true
unfolding some_rule
some_rule-below lookup [] bind_dn entry_dn below writing ne h k = cc
some_rule-below lookup (rule ∷ rules) bind_dn entry_dn below writing ne h k = ground (
  arith,
  some_rule-below lookup rules bind_dn entry_dn below writing ne h,
  covers-below rule entry_dn below ne h,
)

-- Whoever may write an entry may write every entry below it, where its name is not empty.
pub may_write-below :
    (config : AclConfig) (lookup : Lookup) (bind_dn entry_dn below : Bytes)
    → entry_dn ≢ []
    → dn_ends_with below entry_dn ≡ true
    → may_write config lookup bind_dn entry_dn ≡ true
    → may_write config lookup bind_dn below ≡ true
may_write-below config lookup bind_dn entry_dn below ne h k =
    let rules = some_rule-below lookup config.acls bind_dn entry_dn below true ne h in
    unfold may_write in ground arith

-- Whoever may search an entry may search every entry below it, where its name is not empty.
pub may_search-below :
    (config : AclConfig) (lookup : Lookup) (bind_dn entry_dn below : Bytes)
    → entry_dn ≢ []
    → dn_ends_with below entry_dn ≡ true
    → may_search config lookup bind_dn entry_dn ≡ true
    → may_search config lookup bind_dn below ≡ true
may_search-below config lookup bind_dn (c ∷ entry_dn) below ne h k =
    let rules = some_rule-below lookup config.acls bind_dn (c ∷ entry_dn) below false ne h in
    unfold may_search in ground arith
may_search-below config lookup bind_dn [] below ne h k = absurd (ne refl)
