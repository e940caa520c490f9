-- ===== src/Session/Rename.antt =====
-- core/session.cpp: the request to change a name.
use simple_ldapd.Prelude.{
  Bool, true, false, not, ◌&&◌, ◌||◌, Option, none, some, List, [], ◌∷◌, ◌==◌, if◌then◌else◌,
}
use simple_ldapd.Prelude.Bytes.{Bytes, codes, is_empty}
use simple_ldapd.Dn.{dn_parent, dn_rdn, dn_equals, compose_dn, parse_rdn}
use simple_ldapd.Directory.{
  ResultCode, success, operations_error, no_such_object, no_such_attribute, invalid_dn_syntax,
  insufficient_access_rights, naming_violation, entry_already_exists, attribute_or_value_exists,
  DirectoryEntry, ModifyOp, AttributeModification,
}
use simple_ldapd.Backend.{found}
use simple_ldapd.Modify.{apply_modifications}
use simple_ldapd.Message.{ModifyDnRequestData}
use simple_ldapd.Message.Results.{code_of_result}
use simple_ldapd.Message.Names.{text_of_result}
use simple_ldapd.Session.{Server, Session, Answer, is_success, may_write, check_schema, refuse}
use simple_ldapd.Session.Write.{stored, if_valid}

abbrev one_change : ModifyOp → Bytes → Bytes → List AttributeModification
one_change op type value = record { op = op; type = type; values = value ∷ [] } ∷ []

-- `result == success || result == allowed`, which lets the handler go on
abbrev pub lets_pass : ResultCode → ResultCode → Bool
lets_pass allowed code = is_success code || code_of_result code == code_of_result allowed

-- the value of the old name taken out, if the request asks for it
abbrev pub without_old : ModifyDnRequestData → DirectoryEntry → ResultCode × DirectoryEntry
without_old request entry =
    if request.delete_old_rdn
    then elim (parse_rdn (dn_rdn request.dn)) [
      | none ↦ (success, entry)
      | some (type, value) ↦ apply_modifications entry (one_change ModifyOp.delete type value)
    ]
    else (success, entry)

abbrev pub with_new : ModifyDnRequestData → DirectoryEntry → ResultCode × DirectoryEntry
with_new request entry = elim (parse_rdn request.new_rdn) [
  | none ↦ (success, entry)
  | some (type, value) ↦ apply_modifications entry (one_change ModifyOp.add type value)
]

abbrev pub new_parent : ModifyDnRequestData → Bytes
new_parent request =
    if is_empty request.new_superior then dn_parent request.dn else request.new_superior

unfoldable pub new_dn : ModifyDnRequestData → Bytes
unfolding dn_parent compose_dn
new_dn request = compose_dn request.new_rdn (new_parent request)

module _ {S : Type 0} (server : Server S) where
  -- a result of a change to the copy
  abbrev changed :
      Session S → ResultCode → ResultCode × DirectoryEntry → (DirectoryEntry → Answer S) → Answer S
  changed st allowed (code, entry) next =
      if lets_pass allowed code then next entry else refuse st code (text_of_result code)

  -- the entry with its new attributes is stored under the old name, and then renamed
  abbrev pub renamed_to : Session S → ModifyDnRequestData → S × Bool → Answer S
  renamed_to st request (s, false) = record {
    code = operations_error;
    diagnostic = codes "modify DN attributes failed";
    store = s;
    draws = st.draws;
  }
  renamed_to st request (s, true) =
      stored server (server.backend.rename s request.dn (new_dn request)) st.draws
        (codes "rename failed")

  abbrev pub rename_entry : Session S → ModifyDnRequestData → DirectoryEntry → Answer S
  rename_entry st request entry =
      changed st no_such_attribute (without_old request entry) (λ entry'.
        changed st attribute_or_value_exists (with_new request entry') (λ entry''.
          if_valid server st st.draws (check_schema server entry'')
            (renamed_to st request (server.backend.modify st.store entry''))))

  abbrev pub rename_found : Session S → ModifyDnRequestData → Option DirectoryEntry → Answer S
  rename_found st request none = refuse st no_such_object (codes "no such object")
  rename_found st request (some entry) =
      if not (is_empty (new_parent request))
        && not (found (server.backend.lookup st.store (new_parent request)))
      then refuse st naming_violation (codes "new parent does not exist")
      else if not (dn_equals (new_dn request) request.dn)
          && found (server.backend.lookup st.store (new_dn request))
      then refuse st entry_already_exists (codes "target DN exists")
      else rename_entry st request entry

  unfoldable pub handle_modify_dn : Session S → ModifyDnRequestData → Answer S
  unfolding code_of_result may_write new_dn dn_equals dn_parent dn_rdn parse_rdn apply_modifications
      check_schema text_of_result
  handle_modify_dn st request =
      if is_empty request.new_rdn
      then refuse st invalid_dn_syntax (codes "empty new RDN")
      else if not (may_write server st request.dn) || not (may_write server st (new_dn request))
      then refuse st insufficient_access_rights (codes "insufficient access")
      else rename_found st request (server.backend.lookup st.store request.dn)
