-- ===== src/Session/Read.antt =====
-- core/session.cpp: the requests to compare, to ask who one is, and to change a password.
use simple_ldapd.Prelude.{
  ℕ, Bool, true, false, not, ◌&&◌, ◌||◌, Option, none, some, List, [], ◌∷◌, ◌++◌, if◌then◌else◌,
}
use simple_ldapd.Prelude.Bytes.{Bytes, codes, is_empty}
use simple_ldapd.Dn.{iequals, dn_equals}
use simple_ldapd.Directory.{
  ResultCode, protocol_error, compare_false, compare_true, no_such_object, no_such_attribute,
  insufficient_access_rights, confidentiality_required, invalid_credentials, unwilling_to_perform,
  DirectoryEntry, ModifyOp, AttributeModification, find_attribute,
}
use simple_ldapd.Modify.{apply_modifications}
use simple_ldapd.Password.{Crypto, verify_user_password, encode_user_password}
use simple_ldapd.Bind.{is_root_dn, resolve_name, bind}
use simple_ldapd.Message.{CompareRequestData, PasswordModifyRequest}
use simple_ldapd.Message.Controls.{decode_password_modify_value}
use simple_ldapd.Message.Names.{text_of_result}
use simple_ldapd.Session.{Server, Session, Answer, is_success, may_search, may_write, refuse}
use simple_ldapd.Session.Write.{modify_entry}

abbrev pub is_user_password : Bytes → Bool
is_user_password name = iequals name (codes "userPassword")

-- the two loops of `handleCompare` over the values
unfoldable pub any_same : (Bytes → Bool) → List Bytes → Bool
any_same test [] = false
any_same test (value ∷ values) = test value || any_same test values

abbrev pub value_test : Crypto → CompareRequestData → Bytes → Bool
value_test crypto request value =
    if is_user_password request.attribute
    then verify_user_password crypto value request.value
    else iequals value request.value

abbrev pub compare_code : Bool → ResultCode
compare_code true = compare_true
compare_code false = compare_false

-- the new password, if the request has one that is not empty
abbrev pub given : Option Bytes → Bytes
given none = []
given (some password) = password

abbrev pub replace_password : Bytes → List AttributeModification
replace_password value =
    record { op = ModifyOp.replace; type = codes "userPassword"; values = value ∷ [] } ∷ []

module _ {S : Type 0} (server : Server S) where
  abbrev pub compare_values : Session S → CompareRequestData → Option (List Bytes) → Answer S
  compare_values st request none = refuse st no_such_attribute (codes "no such attribute")
  compare_values st request (some values) =
      refuse st (compare_code (any_same (value_test server.crypto request) values)) []

  abbrev pub compare_found : Session S → CompareRequestData → Option DirectoryEntry → Answer S
  compare_found st request none = refuse st no_such_object (codes "no such object")
  compare_found st request (some entry) =
      compare_values st request (find_attribute entry request.attribute)

  unfoldable pub handle_compare : Session S → CompareRequestData → Answer S
  unfolding may_search find_attribute any_same iequals verify_user_password
  handle_compare st request =
      if is_empty request.dn || is_empty request.attribute
      then refuse st protocol_error (codes "invalid compare request")
      else if not (may_search server st request.dn)
      then refuse st insufficient_access_rights (codes "insufficient access")
      else compare_found st request (server.backend.lookup st.store request.dn)

  -- the value of the answer to `handleWhoAmI`
  unfoldable pub who_am_i : Session S → Bytes
  who_am_i st = if is_empty st.bind_dn then [] else codes "dn:" ++ st.bind_dn

  -- the entry of the target, and the new password as it is to be stored
  abbrev pub set_password : Session S → DirectoryEntry → Bytes × ℕ → Answer S
  set_password st entry (encoded, draws) =
      modify_entry server st draws (codes "password modify failed")
        (apply_modifications entry (replace_password encoded))

  abbrev pub change_found : Session S → PasswordModifyRequest → Option DirectoryEntry → Answer S
  change_found st change none = refuse st no_such_object (codes "no such object")
  change_found st change (some entry) =
      set_password st entry
        (encode_user_password server.crypto (given change.new_password) st.draws)

  -- the test of the old password
  abbrev pub old_is_wrong : Session S → Bytes → Option Bytes → Bool
  old_is_wrong st target none = false
  old_is_wrong st target (some old) =
      not (is_success (bind server.backend server.config server.crypto st.store target old))

  abbrev pub change_target : Session S → PasswordModifyRequest → Option Bytes → Answer S
  change_target st change none = refuse st no_such_object (codes "no such object")
  change_target st change (some target) =
      if is_root_dn server.config target
      then refuse st unwilling_to_perform (codes "root_password is configured, not an entry")
      else if not (is_root_dn server.config st.bind_dn)
          && not (dn_equals st.bind_dn target)
          && not (may_write server st target)
      then refuse st insufficient_access_rights (codes "cannot change another password")
      else if old_is_wrong st target change.old_password
      then refuse st invalid_credentials (codes "invalid credentials")
      else change_found st change (server.backend.lookup st.store target)

  abbrev pub change_password : Session S → Option PasswordModifyRequest → Answer S
  change_password st none = refuse st protocol_error (codes "invalid password modify request")
  change_password st (some change) =
      if is_empty (given change.new_password)
      then refuse st unwilling_to_perform (codes "new password is required")
      else change_target st change (
          resolve_name server.backend server.config st.store
            (if is_empty change.user_identity then st.bind_dn else change.user_identity))

  unfoldable pub handle_password_modify : Session S → Bytes → Answer S
  unfolding may_write decode_password_modify_value resolve_name bind dn_equals encode_user_password
      apply_modifications text_of_result
  handle_password_modify st value =
      if not st.bound || is_empty st.bind_dn
      then refuse st insufficient_access_rights (codes "bind required")
      else if server.config.require_confidentiality && not st.connection.tls
      then refuse st confidentiality_required (codes "confidentiality required")
      else change_password st (decode_password_modify_value value)
