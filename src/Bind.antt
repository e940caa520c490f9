-- ===== src/Bind.antt =====
-- auth/bind.cpp: the simple bind, and the names it accepts. The members take the class's references
-- to the store and to the settings as arguments.
pub mod Account
pub mod Outcome
use simple_ldapd.Prelude.{
  ℕ, Bool, true, false, not, ◌&&◌, ◌||◌, Option, none, some, List, [], ◌∷◌, ◌++◌, ◌==◌,
  if◌then◌else◌,
}
use simple_ldapd.Prelude.Bytes.{Bytes, codes, is_empty}
use simple_ldapd.Dn.{iequals, dn_equals, find_char, dn_rdn, parse_rdn}
use simple_ldapd.Directory.{
  ResultCode, success, invalid_credentials, DirectoryEntry, SearchScope, subtree, find_attribute,
}
use simple_ldapd.Filter.Parse.{parse}
use simple_ldapd.Backend.{Backend}
use simple_ldapd.Config.{LdapConfig}
use simple_ldapd.Password.{Crypto, verify_user_password, recoverable_password, account_disabled}

-- `name.find_first_of("()*\\") != npos`
abbrev pub is_meta : ℕ → Bool
is_meta c = c == b'(' || (c == b')' || (c == b'*' || c == b'\\'))

unfoldable pub has_meta : Bytes → Bool
has_meta [] = false
has_meta (c ∷ name) = is_meta c || has_meta name

-- the text of the filter for an account
abbrev pub account_text : Bytes → Bytes
account_text name = codes "(|(uid=" ++ (name ++ (codes ")(sAMAccountName=" ++ (name ++ codes "))")))

-- the name of the only match
abbrev pub only_dn : List DirectoryEntry → Option Bytes
only_dn [] = none
only_dn (entry ∷ []) = some entry.dn
only_dn (entry ∷ entry' ∷ matches) = none

-- `!config_.root_dn.empty() && dnEquals(dn, config_.root_dn)`
abbrev pub is_root_dn : LdapConfig → Bytes → Bool
is_root_dn config dn = not (is_empty config.root_dn) && dn_equals dn config.root_dn

abbrev has_equals : Option ℕ → Bool
has_equals none = false
has_equals (some eq) = true

-- the loop over the values of `userPassword`
unfoldable pub any_verifies : Crypto → List Bytes → Bytes → Bool
unfolding verify_user_password
any_verifies crypto [] password = false
any_verifies crypto (value ∷ values) password =
    verify_user_password crypto value password || any_verifies crypto values password

-- the password of an entry, checked
abbrev pub accepts : Crypto → Option (List Bytes) → Bytes → Bool
accepts crypto none password = false
accepts crypto (some values) password = any_verifies crypto values password

abbrev pub credentials : Bool → ResultCode
credentials true = success
credentials false = invalid_credentials

-- the entry that was looked up
abbrev pub entry_accepts : Crypto → Option DirectoryEntry → Bytes → Bool
entry_accepts crypto none password = false
entry_accepts crypto (some entry) password =
    not (account_disabled entry)
    && accepts crypto (find_attribute entry (codes "userPassword")) password

abbrev first_recoverable : Option (List Bytes) → Option Bytes
first_recoverable none = none
first_recoverable (some []) = none
first_recoverable (some (value ∷ values)) = recoverable_password value

module _ {S : Type 0} (backend : Backend S) (config : LdapConfig) where
  unfoldable pub find_account : S → Bytes → Option Bytes
  unfolding has_meta parse
  find_account s name =
      if is_empty name || has_meta name
      then none
      else only_dn (backend.search s config.base_dn subtree (parse (account_text name)))

  -- the value of the name in the first part of a name
  abbrev account_of_rdn : S → Option (Bytes × Bytes) → Option Bytes
  account_of_rdn s none = none
  account_of_rdn s (some (type, value)) = find_account s value

  abbrev entry_dn_or : S → Bytes → Option DirectoryEntry → Option Bytes
  entry_dn_or s name (some entry) = some entry.dn
  entry_dn_or s name none = account_of_rdn s (parse_rdn (dn_rdn name))

  abbrev names_root : Option (Bytes × Bytes) → Bytes → Bool
  names_root none name = false
  names_root (some (type, value)) name = iequals value name

  unfoldable pub resolve_name : S → Bytes → Option Bytes
  unfolding find_char find_account dn_equals parse_rdn dn_rdn iequals
  resolve_name s name =
      if is_empty name
      then none
      else if has_equals (find_char b'=' name)
      then if is_root_dn config name
        then some config.root_dn
        else entry_dn_or s name (backend.lookup s name)
      else if not (is_empty config.root_dn) && names_root (parse_rdn (dn_rdn config.root_dn)) name
      then some config.root_dn
      else find_account s name

  -- a name that was resolved
  abbrev pub resolved_accepts : Crypto → S → Option Bytes → Bytes → Bool
  resolved_accepts crypto s none password = false
  resolved_accepts crypto s (some dn) password =
      if is_root_dn config dn
      then not (is_empty config.root_password)
        && verify_user_password crypto config.root_password password
      else entry_accepts crypto (backend.lookup s dn) password

  unfoldable pub bind : Crypto → S → Bytes → Bytes → ResultCode
  unfolding resolve_name dn_equals verify_user_password account_disabled find_attribute any_verifies
  bind crypto s dn password = credentials (
      if is_empty dn
      then is_empty password
      else resolved_accepts crypto s (resolve_name s dn) password)

  abbrev entry_password : Option DirectoryEntry → Option Bytes
  entry_password none = none
  entry_password (some entry) = first_recoverable (find_attribute entry (codes "userPassword"))

  unfoldable pub password_for : S → Bytes → Option Bytes
  unfolding dn_equals find_attribute recoverable_password
  password_for s dn =
      if is_root_dn config dn
      then if is_empty config.root_password then none else some config.root_password
      else entry_password (backend.lookup s dn)

  abbrev entry_disabled : Option DirectoryEntry → Bool
  entry_disabled none = false
  entry_disabled (some entry) = account_disabled entry

  unfoldable pub is_account_disabled : S → Bytes → Bool
  unfolding dn_equals account_disabled
  is_account_disabled s dn =
      if is_root_dn config dn then false else entry_disabled (backend.lookup s dn)
