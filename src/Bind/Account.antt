-- ===== src/Bind/Account.antt =====
-- auth/bind.cpp: the filter that finds an account.
use simple_ldapd.Prelude.{
  ◌≡◌, refl, ap, sym, ◌∙◌, ◌↔◌, true, false, Option, some, none, List, [], ◌∷◌, arith, Bool-cases,
  inl, inr,
}
use simple_ldapd.Prelude.Bytes.{Bytes, codes, is_empty}
use simple_ldapd.Directory.{DirectoryEntry, subtree}
use simple_ldapd.Backend.{Backend}
use simple_ldapd.Config.{LdapConfig}
use simple_ldapd.Text.{is_space}
use simple_ldapd.Text.Scan.{every}
use simple_ldapd.Filter.{nil, cons, SearchFilter, or_node, equality_node}
use simple_ldapd.Filter.Parse.{parse}
use simple_ldapd.Filter.Parse.Plain.{
  plain_value, plain_attribute, plain_or, plain_cons, plain_nil, plain_equality,
}
use simple_ldapd.Filter.Parse.Text.{parse-written}
use simple_ldapd.Bind.{has_meta, account_text, only_dn, find_account}

abbrev pub account_filter : Bytes → Bytes → SearchFilter
account_filter text name = record {
  text = text;
  valid = true;
  root = or_node (
      cons (equality_node (codes "uid") name)
        (cons (equality_node (codes "sAMAccountName") name) nil));
}

plain_name : (name : Bytes) → has_meta name ≡ false → plain_value name ≡ true
unfolding has_meta every
plain_name [] h = refl
plain_name (c ∷ name) h = ground (arith, plain_name name)

-- the filter of such a name has the two equalities with that very name
parse-account_text :
    (name : Bytes)
    → has_meta name ≡ false
    → parse (account_text name) ≡ account_filter (account_text name) name
unfolding is_space
parse-account_text name h =
    let plain = plain_name name h in
    let uid : plain_attribute (codes "uid") ≡ true = unfold every in refl in
    let sam : plain_attribute (codes "sAMAccountName") ≡ true = unfold every in refl in
    parse-written
      (or_node (
        cons (equality_node (codes "uid") name)
          (cons (equality_node (codes "sAMAccountName") name) nil)))
      (plain_or
        (plain_cons (plain_equality uid plain) (plain_cons (plain_equality sam plain) plain_nil)))

-- the account of a name: the name is not empty and has no parenthesis, star or backslash, and one
-- entry alone is below the base and has that very name for its uid or sAMAccountName
abbrev pub IsAccount : {S : Type 0} → Backend S → LdapConfig → S → Bytes → Bytes → Type 0
IsAccount backend config s name dn =
    (is_empty name ≡ false)
    × (has_meta name ≡ false)
    × ((entry : DirectoryEntry) × (backend.search s config.base_dn subtree
            (account_filter (account_text name) name)
          ≡ entry ∷ [])
        × (entry.dn ≡ dn))

abbrev name_or_none : Option Bytes → Bytes
name_or_none none = []
name_or_none (some dn) = dn

only_dn_sound :
    (matches : List DirectoryEntry) (dn : Bytes)
    → only_dn matches ≡ some dn
    → (entry : DirectoryEntry) × (matches ≡ entry ∷ []) × (entry.dn ≡ dn)
only_dn_sound [] dn h = absurd (cc)
only_dn_sound (entry ∷ []) dn h = (entry, refl, ap name_or_none h)
only_dn_sound (entry ∷ entry' ∷ matches) dn h = absurd (cc)

module _ {S : Type 0} (backend : Backend S) (config : LdapConfig) where
  -- For every name whatever, an account is found exactly if the name is not empty, has no parenthesis,
  -- star or backslash, and a search below the base for the entries whose uid or sAMAccountName is that
  -- very name gives one entry alone; its name is the result. So no name puts structure of its own into
  -- the filter.
  pub find_account_iff :
      (s : S) (name dn : Bytes)
      → (find_account backend config s name ≡ some dn) ↔ IsAccount backend config s name dn
  unfolding find_account
  find_account_iff s name dn = (
    λ h. elim (Bool-cases (is_empty name)) [
      | inl e ↦ absurd (ground (arith, e, h))
      | inr e ↦ elim (Bool-cases (has_meta name)) [
        | inl m ↦ absurd (ground (arith, e, m, h))
        | inr m ↦ (
          e,
          m,
          only_dn_sound _ dn (
              ap (λ f. only_dn (backend.search s config.base_dn subtree f))
                (sym (parse-account_text name m))
              ∙ ground (arith, e, m, h)),
        )
      ]
    ],
    λ (e, m, (entry, alone, named)). rw (e, m, parse-account_text name m, alone) (ap some named),
  )
