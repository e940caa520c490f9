-- ===== src/Session/Parents.antt =====
-- core/session.cpp: which requests keep the entries in a tree.
use simple_ldapd.Prelude.{
  ℕ, ◌≡◌, ◌≢◌, refl, ap, ◌∙◌, sym, Bool, true, false, ◌||◌, [], ◌∷◌, arith, Bool-cases,
  Option-cases, inl, inr,
}
use simple_ldapd.Prelude.Bytes.{Bytes, is_empty}
use simple_ldapd.Dn.{dn_equals, dn_parent, dn_is_one_level_child}
use simple_ldapd.Dn.Parent.{dn_parent-child, dn_parent-same, dn_equals-nil}
use simple_ldapd.Directory.{DirectoryEntry}
use simple_ldapd.Backend.{Backend, IsStore, found}
use simple_ldapd.Session.{Server, Session, Answer}
use simple_ldapd.Session.Write.{stored}
use mathlib.Core.Path.{subst}
use simple_ldapd.Session.Outcome.{
  Write, answer_of, is_rename, Effect, refused, added, modified, removed, moved, effect,
}
use simple_ldapd.Session.Store.{dn_equals_sym, stored-lookup, modify-found}

-- Every entry of which the name has a parent has an entry for it.
abbrev pub HasParents : {S : Type 0} → Backend S → S → Type 0
HasParents backend s =
    (dn : Bytes)
    → found (backend.lookup s dn) ≡ true
    → dn_parent dn ≢ []
    → found (backend.lookup s (dn_parent dn)) ≡ true

is_empty-nil : (a : Bytes) → a ≢ [] → is_empty a ≡ false
is_empty-nil [] h = absurd (h refl)
is_empty-nil (c ∷ a) h = refl

found_some : {A : Type 0} → (b : Bool) → b ≡ true → b ≡ false → A
found_some true p q = absurd (cc)
found_some false p q = absurd (cc)

module _ {S : Type 0} (server : Server S) (Valid : S → Type 0)
    (laws : IsStore server.backend Valid) where
  HasParents-same :
      (s t : S)
      → ((dn : Bytes) → found (server.backend.lookup t dn) ≡ found (server.backend.lookup s dn))
      → HasParents server.backend s
      → HasParents server.backend t
  HasParents-same s t same h dn present named =
      same (dn_parent dn) ∙ h dn (sym (same dn) ∙ present) named

  parents_after_add :
      (s : S) (e : DirectoryEntry)
      → Valid s
      → (is_empty (dn_parent e.dn) || found (server.backend.lookup s (dn_parent e.dn))) ≡ true
      → HasParents server.backend s
      → HasParents server.backend (server.backend.add s e).0
  parents_after_add s e v p h dn present named =
      let grows = laws.add_lookup s e (dn_parent dn) v in
      elim (Bool-cases (dn_equals e.dn dn)) [
        | inr other ↦
            let old : found (server.backend.lookup s dn) ≡ true =
              ground (arith, other, present, laws.add_lookup s e dn v) in
            let above = h dn old named in ground (arith, above, grows)
        | inl same ↦
            let parents = dn_parent-same e.dn dn same in
            let some_parent : dn_parent e.dn ≢ [] = λ z. named (
              dn_equals-nil (dn_parent dn) (
                dn_equals_sym (dn_parent dn) []
                ∙ ap (λ x. dn_equals x (dn_parent dn)) (sym z)
                ∙ parents)) in
            let above = laws.lookup_same s (dn_parent e.dn) (dn_parent dn) v parents in
            ground (arith, is_empty-nil (dn_parent e.dn) some_parent, p, above, grows)
      ]

  parents_after_remove :
      (s : S) (gone : Bytes)
      → Valid s
      → server.backend.has_children s gone ≡ false
      → HasParents server.backend s
      → HasParents server.backend (server.backend.remove s gone).0
  parents_after_remove s gone v c h dn present named =
      let left = laws.remove_lookup s gone (dn_parent dn) v in
      let old : found (server.backend.lookup s dn) ≡ true =
        ground (arith, present, laws.remove_lookup s gone dn v) in
      let above = h dn old named in
      elim (Bool-cases (dn_equals gone (dn_parent dn))) [
        | inr other ↦ ground (arith, other, above, left)
        | inl same ↦ elim (Option-cases (server.backend.lookup s dn)) [
          | inl e ↦ absurd (ground (arith, e, old))
          | inr (entry, e) ↦
              let some_name : gone ≢ [] = λ z. named (
                dn_equals-nil (dn_parent dn) (
                  dn_equals_sym (dn_parent dn) []
                  ∙ ap (λ x. dn_equals x (dn_parent dn)) (sym z)
                  ∙ same)) in
              found_some (dn_is_one_level_child dn gone)
                (dn_parent-child dn gone some_name named (dn_equals_sym (dn_parent dn) gone ∙ same))
                (laws.children_found s gone dn entry v some_name c e)
        ]
      ]

  stored_parents :
      (r : S × Bool) (draws : ℕ) (failed : Bytes)
      → HasParents server.backend r.0
      → HasParents server.backend (stored server r draws failed).store
  stored_parents r draws failed h =
      HasParents-same r.0 (stored server r draws failed).store
        (λ dn. ap found (stored-lookup server Valid laws r draws failed dn)) h

  -- A request to add, modify, delete or change a password keeps it so that every entry has an entry
  -- for its parent, whatever the answer is.
  pub answer-HasParents :
      (st : Session S) (w : Write)
      → is_rename w ≡ false
      → Valid st.store
      → HasParents server.backend st.store
      → HasParents server.backend (answer_of server st w).store
  answer-HasParents st w n v h = kept (answer_of server st w) (effect server st w)
    where
      kept : (a : Answer S) → Effect server (is_rename w) st a → HasParents server.backend a.store
      kept a (refused (c, s)) = subst (HasParents server.backend) (sym s) h
      kept a (added e draws failed f p q) =
          subst (λ x. HasParents server.backend x.store) (sym q)
            (stored_parents (server.backend.add st.store e) draws failed
              (parents_after_add st.store e v p h))
      kept a (modified e draws failed q) =
          subst (λ x. HasParents server.backend x.store) (sym q)
            (stored_parents (server.backend.modify st.store e) draws failed (
              HasParents-same st.store (server.backend.modify st.store e).0
                (λ dn. modify-found server Valid laws st.store e dn v) h))
      kept a (removed gone draws failed c q) =
          subst (λ x. HasParents server.backend x.store) (sym q)
            (stored_parents (server.backend.remove st.store gone) draws failed
              (parents_after_remove st.store gone v c h))
      kept a (moved e r t rest f u q) = found_some (is_rename w) t n
