-- ===== src/Session/Outcome.antt =====
-- core/session.cpp: what the handlers that write do to the store, on their errors and on success.
use simple_ldapd.Prelude.{
  ℕ, ◌≡◌, refl, ap, ◌∙◌, sym, Bool, true, false, not, ◌&&◌, ◌||◌, Option, none, some, arith,
  Bool-cases, inl, inr,
}
use simple_ldapd.Prelude.Bytes.{Bytes, codes, is_empty}
use simple_ldapd.Dn.{dn_equals, dn_parent}
use simple_ldapd.Directory.{
  ResultCode, no_such_attribute, attribute_or_value_exists, DirectoryEntry,
}
use simple_ldapd.Backend.{found}
use simple_ldapd.Password.{
  Crypto, encode_user_passwords, encode_user_password, encode_user_password_changes,
}
use simple_ldapd.Modify.{apply_modifications}
use mathlib.Core.Path.{subst}
use simple_ldapd.Message.Entries.{to_directory_entry}
use simple_ldapd.Message.{
  AddRequestData, ModifyRequestData, ModifyDnRequestData, PasswordModifyRequest,
}
use simple_ldapd.Session.{Server, Session, Answer, is_success, may_write, check_schema}
use simple_ldapd.Session.Write.{
  stored, modify_entry, modify_found, handle_add, handle_modify, handle_delete,
}
use simple_ldapd.Session.Rename.{
  handle_modify_dn, new_dn, new_parent, renamed_to, rename_found, rename_entry, without_old,
  with_new, lets_pass,
}
use simple_ldapd.Session.Read.{
  handle_password_modify, change_found, change_target, change_password, old_is_wrong, given,
  replace_password,
}
use simple_ldapd.Bind.{is_root_dn}
use simple_ldapd.Message.Controls.{decode_password_modify_value}

-- the requests that write
pub data Write : Type 0 where
  add_of : AddRequestData → Write
  modify_of : ModifyRequestData → Write
  delete_of : Bytes → Write
  modify_dn_of : ModifyDnRequestData → Write
  password_of : Bytes → Write

abbrev pub answer_of : {S : Type 0} → Server S → Session S → Write → Answer S
answer_of server st (add_of request) = handle_add server st request
answer_of server st (modify_of request) = handle_modify server st request
answer_of server st (delete_of dn) = handle_delete server st dn
answer_of server st (modify_dn_of request) = handle_modify_dn server st request
answer_of server st (password_of value) = handle_password_modify server st value

abbrev pub is_rename : Write → Bool
is_rename (modify_dn_of request) = true
is_rename (add_of request) = false
is_rename (modify_of request) = false
is_rename (delete_of dn) = false
is_rename (password_of value) = false

-- a refusal that leaves the store as it is
abbrev pub Refused : {S : Type 0} → Session S → Answer S → Type 0
Refused st answer = (is_success answer.code ≡ false) × (answer.store ≡ st.store)

module _ {S : Type 0} (server : Server S) where
  may_write-unbound :
      (st : Session S) (dn : Bytes) → st.bound ≡ false → may_write server st dn ≡ false
  unfolding may_write
  may_write-unbound st dn h = rw h refl

  -- In a session that is not bound every request that writes is refused, and the store is left as it
  -- is.
  pub unbound-Refused :
      (st : Session S) (w : Write) → st.bound ≡ false → Refused st (answer_of server st w)
  unfolding handle_add handle_modify handle_delete handle_modify_dn handle_password_modify
  unbound-Refused st (add_of request) h = ground (arith, may_write-unbound st request.dn h)
  unbound-Refused st (modify_of request) h = ground (arith, may_write-unbound st request.dn h)
  unbound-Refused st (delete_of dn) h = ground (arith, may_write-unbound st dn h)
  unbound-Refused st (modify_dn_of request) h = ground (arith, may_write-unbound st request.dn h)
  unbound-Refused st (password_of value) h = ground (arith, h)

  -- what an answer rests on: nothing but the store as it was, or one call of the backend behind the
  -- guards that the handler has
  pub data Effect (renames : Bool) (st : Session S) (answer : Answer S) : Type 0 where
    refused : Refused st answer → Effect renames st answer
    added :
        (e : DirectoryEntry) (draws : ℕ) (failed : Bytes)
        → found (server.backend.lookup st.store e.dn) ≡ false
        → (is_empty (dn_parent e.dn) || found (server.backend.lookup st.store (dn_parent e.dn)))
          ≡ true
        → answer ≡ stored server (server.backend.add st.store e) draws failed
        → Effect renames st answer
    modified :
        (e : DirectoryEntry) (draws : ℕ) (failed : Bytes)
        → answer ≡ stored server (server.backend.modify st.store e) draws failed
        → Effect renames st answer
    removed :
        (dn : Bytes) (draws : ℕ) (failed : Bytes)
        → server.backend.has_children st.store dn ≡ false
        → answer ≡ stored server (server.backend.remove st.store dn) draws failed
        → Effect renames st answer
    moved :
        (e : DirectoryEntry) (request : ModifyDnRequestData)
        → renames ≡ true
        → is_empty request.new_rdn ≡ false
        → found (server.backend.lookup st.store request.dn) ≡ true
        → (dn_equals (new_dn request) request.dn
            || not (found (server.backend.lookup st.store (new_dn request))))
          ≡ true
        → answer ≡ renamed_to server st request (server.backend.modify st.store e)
        → Effect renames st answer

  encode_user_passwords-dn :
      (crypto : Crypto) (e : DirectoryEntry) (draws : ℕ)
      → (encode_user_passwords crypto e draws).0.dn ≡ e.dn
  unfolding encode_user_passwords
  encode_user_passwords-dn crypto e draws = refl

  to_directory_entry-dn : (r : AddRequestData) → (to_directory_entry r).dn ≡ r.dn
  unfolding to_directory_entry
  to_directory_entry-dn r = refl

  add_effect : (st : Session S) (r : AddRequestData) → Effect false st (handle_add server st r)
  unfolding handle_add
  add_effect st r =
      let look = server.backend.lookup st.store in
      let (e, draws) = encode_user_passwords server.crypto (to_directory_entry r) st.draws in
      let named : e.dn ≡ r.dn =
        encode_user_passwords-dn server.crypto (to_directory_entry r) st.draws
        ∙ to_directory_entry-dn r in
      elim (Bool-cases (may_write server st r.dn)) [
        | inr m ↦ refused (ground (arith, m))
        | inl m ↦ elim (Bool-cases (is_empty r.dn)) [
          | inl n ↦ refused (ground (arith, m, n))
          | inr n ↦ elim (Bool-cases (found (look r.dn))) [
            | inl f ↦ refused (ground (arith, m, n, f))
            | inr f ↦
                elim (Bool-cases (is_empty (dn_parent r.dn) || found (look (dn_parent r.dn)))) [
                  | inr p ↦ refused (ground (arith, m, n, f, p))
                  | inl p ↦ elim (Bool-cases (is_success (check_schema server e).0)) [
                    | inr c ↦ refused (ground (arith, m, n, f, p, c))
                    | inl c ↦
                        added e draws (codes "add failed") (rw named f) (rw named p)
                          (ground (arith, m, n, f, p, c))
                  ]
                ]
          ]
        ]
      ]

  modify_entry_effect :
      (st : Session S) (draws : ℕ) (failed : Bytes) (r : ResultCode × DirectoryEntry)
      → Effect false st (modify_entry server st draws failed r)
  modify_entry_effect st draws failed r = elim (Bool-cases (is_success r.0)) [
    | inr a ↦ refused (ground (arith, a))
    | inl a ↦ elim (Bool-cases (is_success (check_schema server r.1).0)) [
      | inr c ↦ refused (ground (arith, a, c))
      | inl c ↦ modified r.1 draws failed (ground (arith, a, c))
    ]
  ]

  modify_found_effect :
      (st : Session S) (r : ModifyRequestData) (o : Option DirectoryEntry)
      → Effect false st (modify_found server st r o)
  modify_found_effect st r none = refused (refl, refl)
  modify_found_effect st r (some entry) =
      let (changes, draws) = encode_user_password_changes server.crypto r.changes st.draws in
      modify_entry_effect st draws (codes "modify failed") (apply_modifications entry changes)

  modify_effect :
      (st : Session S) (r : ModifyRequestData) → Effect false st (handle_modify server st r)
  unfolding handle_modify
  modify_effect st r = elim (Bool-cases (may_write server st r.dn)) [
    | inr m ↦ refused (ground (arith, m))
    | inl m ↦ rw m (modify_found_effect st r (server.backend.lookup st.store r.dn))
  ]

  delete_effect : (st : Session S) (dn : Bytes) → Effect false st (handle_delete server st dn)
  unfolding handle_delete
  delete_effect st dn = elim (Bool-cases (may_write server st dn)) [
    | inr m ↦ refused (ground (arith, m))
    | inl m ↦ elim (Bool-cases (found (server.backend.lookup st.store dn))) [
      | inr f ↦ refused (ground (arith, m, f))
      | inl f ↦ elim (Bool-cases (server.backend.has_children st.store dn)) [
        | inl c ↦ refused (ground (arith, m, f, c))
        | inr c ↦ removed dn st.draws (codes "delete failed") c (ground (arith, m, f, c))
      ]
    ]
  ]

  change_found_effect :
      (st : Session S) (change : PasswordModifyRequest) (o : Option DirectoryEntry)
      → Effect false st (change_found server st change o)
  change_found_effect st change none = refused (refl, refl)
  change_found_effect st change (some entry) =
      let (encoded, draws) =
        encode_user_password server.crypto (given change.new_password) st.draws in
      modify_entry_effect st draws (codes "password modify failed")
        (apply_modifications entry (replace_password encoded))

  change_target_effect :
      (st : Session S) (change : PasswordModifyRequest) (target : Option Bytes)
      → Effect false st (change_target server st change target)
  change_target_effect st change none = refused (refl, refl)
  change_target_effect st change (some target) =
      elim (Bool-cases (is_root_dn server.config target)) [
        | inl a ↦ refused (ground (arith, a))
        | inr a ↦
            let others =
              not (is_root_dn server.config st.bind_dn)
              && not (dn_equals st.bind_dn target)
              && not (may_write server st target) in
            elim (Bool-cases others) [
              | inl b ↦ refused (ground (arith, a, b))
              | inr b ↦ elim (Bool-cases (old_is_wrong server st target change.old_password)) [
                | inl c ↦ refused (ground (arith, a, b, c))
                | inr c ↦
                    rw (a, b, c)
                      (change_found_effect st change (server.backend.lookup st.store target))
              ]
            ]
      ]

  change_password_effect :
      (st : Session S) (change : Option PasswordModifyRequest)
      → Effect false st (change_password server st change)
  change_password_effect st none = refused (refl, refl)
  change_password_effect st (some change) =
      elim (Bool-cases (is_empty (given change.new_password))) [
        | inl a ↦ refused (ground (arith, a))
        | inr a ↦ rw a (change_target_effect st change _)
      ]

  password_effect :
      (st : Session S) (value : Bytes) → Effect false st (handle_password_modify server st value)
  unfolding handle_password_modify
  password_effect st value = elim (Bool-cases (not st.bound || is_empty st.bind_dn)) [
    | inl a ↦ refused (ground (arith, a))
    | inr a ↦ elim (Bool-cases (server.config.require_confidentiality && not st.connection.tls)) [
      | inl b ↦ refused (ground (arith, a, b))
      | inr b ↦ rw (a, b) (change_password_effect st (decode_password_modify_value value))
    ]
  ]

  -- the guards of a rename
  abbrev MayMove : Session S → ModifyDnRequestData → Type 0
  MayMove st r =
      (is_empty r.new_rdn ≡ false)
      × (found (server.backend.lookup st.store r.dn) ≡ true)
      × ((dn_equals (new_dn r) r.dn || not (found (server.backend.lookup st.store (new_dn r))))
          ≡ true)

  rename_entry_effect :
      (st : Session S) (r : ModifyDnRequestData) (entry : DirectoryEntry)
      → MayMove st r
      → Effect true st (rename_entry server st r entry)
  rename_entry_effect st r entry (n, f, t) =
      let old = without_old r entry in
      elim (Bool-cases (lets_pass no_such_attribute old.0)) [
        | inr a ↦ refused (ground (arith, a))
        | inl a ↦
            let new = with_new r old.1 in
            elim (Bool-cases (lets_pass attribute_or_value_exists new.0)) [
              | inr b ↦ refused (ground (arith, a, b))
              | inl b ↦ elim (Bool-cases (is_success (check_schema server new.1).0)) [
                | inr c ↦ refused (ground (arith, a, b, c))
                | inl c ↦ moved new.1 r refl n f t (ground (arith, a, b, c))
              ]
            ]
      ]

  rename_found_effect :
      (st : Session S) (r : ModifyDnRequestData) (o : Option DirectoryEntry)
      → is_empty r.new_rdn ≡ false
      → server.backend.lookup st.store r.dn ≡ o
      → Effect true st (rename_found server st r o)
  rename_found_effect st r none n e = refused (refl, refl)
  rename_found_effect st r (some entry) n e =
      let look = server.backend.lookup st.store in
      elim (Bool-cases (not (is_empty (new_parent r)) && not (found (look (new_parent r))))) [
        | inl a ↦ refused (ground (arith, a))
        | inr a ↦ elim (Bool-cases (not (dn_equals (new_dn r) r.dn) && found (look (new_dn r)))) [
          | inl b ↦ refused (ground (arith, a, b))
          | inr b ↦ rw (a, b) (rename_entry_effect st r entry (n, ap found e, ground (arith, b)))
        ]
      ]

  modify_dn_effect :
      (st : Session S) (r : ModifyDnRequestData) → Effect true st (handle_modify_dn server st r)
  unfolding handle_modify_dn
  modify_dn_effect st r = elim (Bool-cases (is_empty r.new_rdn)) [
    | inl n ↦ refused (ground (arith, n))
    | inr n ↦
        elim (Bool-cases (not (may_write server st r.dn) || not (may_write server st (new_dn r)))) [
          | inl m ↦ refused (ground (arith, n, m))
          | inr m ↦
              let go : handle_modify_dn server st r
                  ≡ rename_found server st r (server.backend.lookup st.store r.dn) =
                ground (arith, n, m) in
              subst (λ a. Effect true st a) (sym go)
                (rename_found_effect st r (server.backend.lookup st.store r.dn) n refl)
        ]
  ]

  pub effect : (st : Session S) (w : Write) → Effect (is_rename w) st (answer_of server st w)
  effect st (add_of r) = add_effect st r
  effect st (modify_of r) = modify_effect st r
  effect st (delete_of dn) = delete_effect st dn
  effect st (modify_dn_of r) = modify_dn_effect st r
  effect st (password_of value) = password_effect st value
