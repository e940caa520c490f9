-- ===== src/Session/Store.antt =====
-- core/session.cpp: what the handlers that write keep of the store, over any backend that keeps the
-- laws of a store.
use simple_ldapd.Prelude.{
  ℕ, ◌≡◌, refl, ap, ◌∙◌, sym, Bool, true, false, not, ◌||◌, Option, none, some, [], ◌∷◌, arith,
  eq_of_iff, Bool-cases, inl, inr,
}
use simple_ldapd.Prelude.Bytes.{Bytes, codes, is_empty}
use simple_ldapd.Dn.{dn_equals, dn_equals_iff, compose_dn}
use simple_ldapd.Directory.{DirectoryEntry}
use simple_ldapd.Backend.{IsStore, found}
use simple_ldapd.Message.{ModifyDnRequestData}
use simple_ldapd.Session.{Server, Session, Answer, is_success}
use simple_ldapd.Session.Write.{stored}
use simple_ldapd.Session.Rename.{new_dn, new_parent, renamed_to}
use mathlib.Core.Path.{subst}
use simple_ldapd.Session.Outcome.{
  Write, answer_of, is_rename, Effect, refused, added, modified, removed, moved, effect,
}

compose_dn-is_empty :
    (rdn parent : Bytes) → is_empty rdn ≡ false → is_empty (compose_dn rdn parent) ≡ false
unfolding compose_dn
compose_dn-is_empty [] parent h = absurd (cc)
compose_dn-is_empty (c ∷ rdn) parent h = ground arith

new_dn-is_empty :
    (r : ModifyDnRequestData) → is_empty r.new_rdn ≡ false → is_empty (new_dn r) ≡ false
unfolding new_dn
new_dn-is_empty r h = compose_dn-is_empty r.new_rdn (new_parent r) h

pub dn_equals_sym : (a b : Bytes) → dn_equals a b ≡ dn_equals b a
dn_equals_sym a b =
    eq_of_iff (dn_equals a b) (dn_equals b a)
      (λ h. (dn_equals_iff b a).1 (sym ((dn_equals_iff a b).0 h)))
      (λ h. (dn_equals_iff a b).1 (sym ((dn_equals_iff b a).0 h)))

is_empty_cases : (a : Bytes) → is_empty a ≡ true → a ≡ []
is_empty_cases [] h = refl
is_empty_cases (c ∷ a) h = absurd (cc)

pub not_found : (o : Option DirectoryEntry) → found o ≡ false → o ≡ none
not_found none h = refl
not_found (some e) h = absurd (cc)

module _ {S : Type 0} (server : Server S) (Valid : S → Type 0)
    (laws : IsStore server.backend Valid) where
  -- a call of the backend whose result is an error did not take place
  stored_failed :
      (r : S × Bool) (draws : ℕ) (failed : Bytes)
      → is_success (stored server r draws failed).code ≡ false
      → (r.1 ≡ false) × ((stored server r draws failed).store ≡ r.0)
  stored_failed (s, true) draws failed h = cc
  stored_failed (s, false) draws failed h = (refl, refl)

  stored-Valid :
      (r : S × Bool) (draws : ℕ) (failed : Bytes)
      → Valid r.0
      → Valid (stored server r draws failed).store
  stored-Valid (s, true) draws failed v = laws.persist_valid s v
  stored-Valid (s, false) draws failed v = v

  pub stored-lookup :
      (r : S × Bool) (draws : ℕ) (failed dn : Bytes)
      → server.backend.lookup (stored server r draws failed).store dn ≡ server.backend.lookup r.0 dn
  stored-lookup (s, true) draws failed dn = laws.persist_lookup s dn
  stored-lookup (s, false) draws failed dn = refl

  -- a change of an entry adds no name and takes none away
  pub modify-found :
      (s : S) (e : DirectoryEntry) (dn : Bytes)
      → Valid s
      → found (server.backend.lookup (server.backend.modify s e).0 dn)
        ≡ found (server.backend.lookup s dn)
  modify-found s e dn v = elim (Bool-cases (dn_equals e.dn dn)) [
    | inl same ↦ ground (
      arith,
      same,
      laws.modify_lookup s e dn v,
      laws.modify_done s e,
      laws.lookup_same s e.dn dn v same,
    )
    | inr other ↦ ground (arith, other, laws.modify_lookup s e dn v)
  ]

  -- behind the guards of a rename, the call that renames takes place
  rename_takes_place :
      (s : S) (r : ModifyDnRequestData)
      → Valid s
      → found (server.backend.lookup s []) ≡ false
      → is_empty r.new_rdn ≡ false
      → found (server.backend.lookup s r.dn) ≡ true
      → (dn_equals (new_dn r) r.dn || not (found (server.backend.lookup s (new_dn r)))) ≡ true
      → (server.backend.rename s r.dn (new_dn r)).1 ≡ true
  rename_takes_place s r v z n f t = elim (Bool-cases (is_empty r.dn)) [
    | inl e ↦
        absurd (let g = ap (λ d. found (server.backend.lookup s d)) (is_empty_cases r.dn e) in cc)
    | inr e ↦ ground (
      arith,
      laws.rename_done s r.dn (new_dn r) v,
      new_dn-is_empty r n,
      n,
      f,
      t,
      e,
      dn_equals_sym (new_dn r) r.dn,
    )
  ]

  renamed_true :
      (st : Session S) (r : ModifyDnRequestData) (m : S × Bool)
      → m.1 ≡ true
      → renamed_to server st r m
        ≡ stored server (server.backend.rename m.0 r.dn (new_dn r)) st.draws (codes "rename failed")
  renamed_true st r (s, true) h = refl
  renamed_true st r (s, false) h = absurd (cc)

  renamed_false :
      (st : Session S) (r : ModifyDnRequestData) (m : S × Bool)
      → m.1 ≡ false
      → (renamed_to server st r m).store ≡ m.0
  renamed_false st r (s, true) h = absurd (cc)
  renamed_false st r (s, false) h = refl

  renamed-Valid :
      (st : Session S) (r : ModifyDnRequestData) (m : S × Bool)
      → Valid m.0
      → Valid (renamed_to server st r m).store
  renamed-Valid st r (s, false) v = v
  renamed-Valid st r (s, true) v =
      stored-Valid (server.backend.rename s r.dn (new_dn r)) st.draws (codes "rename failed")
        (laws.rename_valid s r.dn (new_dn r) v)

  -- An answer to a request that writes, other than a success, leaves every name with the entry that it
  -- had, if no entry has the empty name.
  pub failure-unchanged :
      (st : Session S) (w : Write) (dn : Bytes)
      → Valid st.store
      → found (server.backend.lookup st.store []) ≡ false
      → is_success (answer_of server st w).code ≡ false
      → server.backend.lookup (answer_of server st w).store dn ≡ server.backend.lookup st.store dn
  failure-unchanged st w dn v z h = unchanged (answer_of server st w) (effect server st w) h
    where
      failed_call :
          (a : Answer S) (r : S × Bool) (draws : ℕ) (failed : Bytes)
          → a ≡ stored server r draws failed
          → is_success a.code ≡ false
          → (r.1 ≡ false) × (server.backend.lookup a.store dn ≡ server.backend.lookup r.0 dn)
      failed_call a r draws failed e h =
          let (f, s) = stored_failed r draws failed (sym (ap (λ x. is_success x.code) e) ∙ h) in
          (f, ap (λ x. server.backend.lookup x.store dn) e ∙ ap (λ x. server.backend.lookup x dn) s)

      unchanged :
          (a : Answer S)
          → Effect server (is_rename w) st a
          → is_success a.code ≡ false
          → server.backend.lookup a.store dn ≡ server.backend.lookup st.store dn
      unchanged a (refused (c, s)) h = ap (λ x. server.backend.lookup x dn) s
      unchanged a (added e draws failed f p q) h =
          let (no_, same) = failed_call a (server.backend.add st.store e) draws failed q h in
          ground (arith, no_, same, laws.add_lookup st.store e dn v)
      unchanged a (modified e draws failed q) h =
          let (no_, same) = failed_call a (server.backend.modify st.store e) draws failed q h in
          ground (arith, no_, same, laws.modify_lookup st.store e dn v)
      unchanged a (removed gone draws failed c q) h =
          let (no_, same) = failed_call a (server.backend.remove st.store gone) draws failed q h in
          let absent : server.backend.lookup st.store gone ≡ none =
            not_found (server.backend.lookup st.store gone)
              (sym (laws.remove_done st.store gone) ∙ no_) in
          same ∙ elim (Bool-cases (dn_equals gone dn)) [
            | inl e ↦ ground (
              arith,
              e,
              absent,
              laws.remove_lookup st.store gone dn v,
              laws.lookup_same st.store gone dn v e,
            )
            | inr e ↦ ground (arith, e, laws.remove_lookup st.store gone dn v)
          ]
      unchanged a (moved e r t n f u q) h =
          let m = server.backend.modify st.store e in
          elim (Bool-cases m.1) [
            | inr no_ ↦
                ap (λ x. server.backend.lookup x.store dn) q
                ∙ ap (λ x. server.backend.lookup x dn) (renamed_false st r m no_)
                ∙ ground (arith, no_, laws.modify_lookup st.store e dn v)
            | inl done ↦
                let (fails, same) =
                  failed_call a (server.backend.rename m.0 r.dn (new_dn r)) st.draws
                    (codes "rename failed") (q ∙ renamed_true st r m done) h in
                let holds =
                  rename_takes_place m.0 r (laws.modify_valid st.store e v)
                    (modify-found st.store e [] v ∙ z) n (modify-found st.store e r.dn v ∙ f)
                    (ap (λ b. dn_equals (new_dn r) r.dn || not b)
                        (modify-found st.store e (new_dn r) v)
                      ∙ u) in
                absurd (let no_ : false ≡ true = sym fails ∙ holds in cc)
          ]

  -- An answer to a request that writes leaves the store valid, whatever the answer is.
  pub answer-Valid :
      (st : Session S) (w : Write) → Valid st.store → Valid (answer_of server st w).store
  answer-Valid st w v = kept (answer_of server st w) (effect server st w)
    where
      kept : (a : Answer S) → Effect server (is_rename w) st a → Valid a.store
      kept a (refused (c, s)) = subst Valid (sym s) v
      kept a (added e draws failed f p q) =
          subst (λ x. Valid x.store) (sym q)
            (stored-Valid _ draws failed (laws.add_valid st.store e v))
      kept a (modified e draws failed q) =
          subst (λ x. Valid x.store) (sym q)
            (stored-Valid _ draws failed (laws.modify_valid st.store e v))
      kept a (removed gone draws failed c q) =
          subst (λ x. Valid x.store) (sym q)
            (stored-Valid _ draws failed (laws.remove_valid st.store gone v))
      kept a (moved e r t n f u q) =
          subst (λ x. Valid x.store) (sym q)
            (renamed-Valid st r (server.backend.modify st.store e) (laws.modify_valid st.store e v))
