-- ===== src/Session/Runs.antt =====
-- core/session.cpp: what holds of the store through any number of requests.
use simple_ldapd.Prelude.{◌≡◌, sym, ◌∙◌, Bool, false, List, inl, inr}
use simple_ldapd.Backend.{IsStore}
use simple_ldapd.Message.{LdapMessage}
use simple_ldapd.Session.{Server, Session}
use simple_ldapd.Session.Serve.{World, served, serve_request}
use simple_ldapd.Session.Store.{answer-Valid}
use simple_ldapd.Session.Parents.{HasParents, answer-HasParents}
use simple_ldapd.Session.Steps.{Keeps, is_modify_dn, serve_request-Keeps}
use mathlib.Core.Path.{subst}

-- the states that a session can come to by requests that do not change a name
pub data Reaches {S : Type 0} (server : Server S) (st : Session S) : Session S → Type 0 where
  start : Reaches server st st
  next :
      {st' st'' : Session S} (world : World) (request : LdapMessage) (messages : List LdapMessage)
      (go : Bool)
      → Reaches server st st'
      → is_modify_dn request.op ≡ false
      → serve_request server world st' request ≡ served st'' messages go
      → Reaches server st st''

module _ {S : Type 0} (server : Server S) (Valid : S → Type 0)
    (laws : IsStore server.backend Valid) where
  -- A session that starts on a valid store in which every entry has an entry for its parent has such
  -- a store in every state that it can come to, by any requests other than to change a name, from
  -- whoever is bound and whatever the answers are.
  pub Reaches-HasParents :
      (st st' : Session S)
      → Reaches server st st'
      → Valid st.store
      → HasParents server.backend st.store
      → Valid st'.store × HasParents server.backend st'.store
  Reaches-HasParents st _ start v h = (v, h)
  Reaches-HasParents st st'' (next {st' = mid} world r messages go before plain e) v h =
      let (mid_valid, mid_parents) = Reaches-HasParents st mid before v h in
      elim (subst (Keeps server (is_modify_dn r.op) mid) e
        (serve_request-Keeps server world mid r)) [
          | inl same ↦ (
            subst Valid (sym same) mid_valid,
            subst (HasParents server.backend) (sym same) mid_parents,
          )
          | inr (w, named, same) ↦ (
            subst Valid (sym same) (answer-Valid server Valid laws mid w mid_valid),
            subst (HasParents server.backend) (sym same)
                (answer-HasParents server Valid laws mid w (named ∙ plain) mid_valid mid_parents),
          )
        ]
