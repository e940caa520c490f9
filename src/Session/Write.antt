-- ===== src/Session/Write.antt =====
-- core/session.cpp: the requests to add, modify and delete an entry.
use simple_ldapd.Prelude.{
  ℕ, Bool, true, false, not, ◌&&◌, Option, none, some, List, [], if◌then◌else◌,
}
use simple_ldapd.Prelude.Bytes.{Bytes, codes, is_empty}
use simple_ldapd.Dn.{dn_parent}
use simple_ldapd.Directory.{
  ResultCode, success, operations_error, no_such_object, invalid_dn_syntax,
  insufficient_access_rights, naming_violation, not_allowed_on_non_leaf, entry_already_exists,
  DirectoryEntry, AttributeModification,
}
use simple_ldapd.Backend.{found}
use simple_ldapd.Modify.{apply_modifications}
use simple_ldapd.Password.{encode_user_passwords, encode_user_password_changes}
use simple_ldapd.Message.{AddRequestData, ModifyRequestData}
use simple_ldapd.Message.Entries.{to_directory_entry}
use simple_ldapd.Message.Names.{text_of_result}
use simple_ldapd.Session.{Server, Session, Answer, is_success, may_write, check_schema, refuse}

module _ {S : Type 0} (server : Server S) where
  -- the result of a call that changes the store, and `persist` behind one that took place
  abbrev pub stored : S × Bool → ℕ → Bytes → Answer S
  stored (s, true) draws failed = record {
    code = success;
    diagnostic = [];
    store = server.backend.persist s;
    draws = draws;
  }
  stored (s, false) draws failed = record {
    code = operations_error;
    diagnostic = failed;
    store = s;
    draws = draws;
  }

  -- the schema's answer, and then the call
  abbrev pub if_valid : Session S → ℕ → ResultCode × Bytes → Answer S → Answer S
  if_valid st draws (code, diagnostic) next =
      if is_success code
      then next
      else record { code = code; diagnostic = diagnostic; store = st.store; draws = draws }

  abbrev pub add_entry : Session S → DirectoryEntry × ℕ → Answer S
  add_entry st (entry, draws) =
      if_valid st draws (check_schema server entry)
        (stored (server.backend.add st.store entry) draws (codes "add failed"))

  unfoldable pub handle_add : Session S → AddRequestData → Answer S
  unfolding may_write dn_parent to_directory_entry encode_user_passwords check_schema
  handle_add st request =
      if not (may_write server st request.dn)
      then refuse st insufficient_access_rights (codes "insufficient access")
      else if is_empty request.dn
      then refuse st invalid_dn_syntax (codes "empty DN")
      else if found (server.backend.lookup st.store request.dn)
      then refuse st entry_already_exists (codes "entry already exists")
      else if not (is_empty (dn_parent request.dn))
          && not (found (server.backend.lookup st.store (dn_parent request.dn)))
      then refuse st naming_violation (codes "parent does not exist")
      else add_entry st (encode_user_passwords server.crypto (to_directory_entry request) st.draws)

  -- behind the changes to the copy of the entry
  abbrev pub modify_entry : Session S → ℕ → Bytes → ResultCode × DirectoryEntry → Answer S
  modify_entry st draws failed (applied, entry) =
      if is_success applied
      then if_valid st draws (check_schema server entry)
          (stored (server.backend.modify st.store entry) draws failed)
      else record {
        code = applied;
        diagnostic = text_of_result applied;
        store = st.store;
        draws = draws;
      }

  abbrev pub modify_with : Session S → DirectoryEntry → List AttributeModification × ℕ → Answer S
  modify_with st entry (changes, draws) =
      modify_entry st draws (codes "modify failed") (apply_modifications entry changes)

  abbrev pub modify_found : Session S → ModifyRequestData → Option DirectoryEntry → Answer S
  modify_found st request none = refuse st no_such_object (codes "no such object")
  modify_found st request (some entry) =
      modify_with st entry (encode_user_password_changes server.crypto request.changes st.draws)

  unfoldable pub handle_modify : Session S → ModifyRequestData → Answer S
  unfolding may_write encode_user_password_changes apply_modifications check_schema text_of_result
  handle_modify st request =
      if not (may_write server st request.dn)
      then refuse st insufficient_access_rights (codes "insufficient access")
      else modify_found st request (server.backend.lookup st.store request.dn)

  unfoldable pub handle_delete : Session S → Bytes → Answer S
  unfolding may_write
  handle_delete st dn =
      if not (may_write server st dn)
      then refuse st insufficient_access_rights (codes "insufficient access")
      else if not (found (server.backend.lookup st.store dn))
      then refuse st no_such_object (codes "no such object")
      else if server.backend.has_children st.store dn
      then refuse st not_allowed_on_non_leaf (codes "entry has children")
      else stored (server.backend.remove st.store dn) st.draws (codes "delete failed")
