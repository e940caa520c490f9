-- ===== src/Session/Steps.antt =====
-- core/session.cpp: the steps of a session, one request each, and what they keep.
use simple_ldapd.Prelude.{
  ℕ, ◌≡◌, refl, ◌∙◌, ◌⊎◌, inl, inr, Bool, true, false, not, ◌||◌, Option, none, some, List, [],
  arith, Bool-cases,
}
use simple_ldapd.Prelude.Bytes.{Bytes, equal}
use simple_ldapd.Directory.{DirectoryEntry, find_attribute}
use simple_ldapd.Session.Read.{handle_compare, compare_found, compare_values}
use simple_ldapd.RateLimiter.{RateLimiter}
use simple_ldapd.Message.{
  ProtocolOp, BindRequestData, CompareRequestData, LdapMessage, password_modify_oid, who_am_i_oid,
}
use simple_ldapd.Session.{Connection, Sasl, Server, Session}
use simple_ldapd.Session.Search.{SearchOutcome, replied, undefined, handle_search, start_tls_oid}
use simple_ldapd.Session.Outcome.{
  Write, add_of, modify_of, delete_of, modify_dn_of, password_of, answer_of, unbound-Refused,
  is_rename,
}
use simple_ldapd.Session.Serve.{
  World, Served, served, fault, limited, sasl_bind, bind_as, handle_bind, search_served, handshaken,
  start_tls, serve_extended, serve_op, serve_request,
}
use mathlib.Core.Path.{subst}

-- the requests that change a name
abbrev pub is_modify_dn : ProtocolOp → Bool
is_modify_dn ProtocolOp.modify_dn_request = true
is_modify_dn _ = false

module _ {S : Type 0} (server : Server S) where
  limited-store :
      (st : Session S) (now : ℕ) (limiter : Option RateLimiter)
      → (limited server st now limiter).1.store ≡ st.store
  limited-store st now none = refl
  limited-store st now (some limiter) = refl

  sasl_bind-store :
      (st : Session S) (message_id : ℕ) (request : BindRequestData) (sasl : Option (Sasl S))
      → (sasl_bind server st message_id request sasl).0.store ≡ st.store
  sasl_bind-store st message_id request none = refl
  sasl_bind-store st message_id request (some sasl) = ground arith

  bind_as-store :
      (message_id : ℕ) (request : BindRequestData) (b : Bool) (st : Session S)
      → (bind_as server message_id request (b, st)).0.store ≡ st.store
  bind_as-store message_id request false st = refl
  bind_as-store message_id request true st = elim (Bool-cases request.simple) [
    | inl s ↦ ground (arith, s)
    | inr s ↦ ground (arith, s, sasl_bind-store st message_id request server.sasl)
  ]

  handle_bind-store :
      (now : ℕ) (st : Session S) (message_id : ℕ) (request : BindRequestData)
      → (handle_bind server now st message_id request).0.store ≡ st.store
  unfolding handle_bind
  handle_bind-store now st message_id request =
      let fresh = record st { bound = false; bind_dn = [] } in
      let l = limited server fresh now fresh.limiter in
      ground
        (arith, bind_as-store message_id request l.0 l.1, limited-store fresh now fresh.limiter)

  compare_values-store :
      (st : Session S) (r : CompareRequestData) (o : Option (List Bytes))
      → (compare_values server st r o).store ≡ st.store
  compare_values-store st r none = refl
  compare_values-store st r (some values) = refl

  compare_found-store :
      (st : Session S) (r : CompareRequestData) (o : Option DirectoryEntry)
      → (compare_found server st r o).store ≡ st.store
  compare_found-store st r none = refl
  compare_found-store st r (some e) = compare_values-store st r (find_attribute e r.attribute)

  handle_compare-store :
      (st : Session S) (r : CompareRequestData) → (handle_compare server st r).store ≡ st.store
  unfolding handle_compare
  handle_compare-store st r =
      ground (arith, compare_found-store st r (server.backend.lookup st.store r.dn))

  -- the store behind a request: as it was, or as an answer to a request that writes leaves it, which
  -- changes a name if `renames` holds
  abbrev pub Keeps : Bool → Session S → Served S → Type 0
  Keeps renames st fault = Unit
  Keeps renames st (served st' messages go) =
      (st'.store ≡ st.store)
      ⊎ ((w : Write) × (is_rename w ≡ renames) × (st'.store ≡ (answer_of server st w).store))

  search_served-Keeps :
      (st : Session S) (o : SearchOutcome) → Keeps false st (search_served server st o)
  search_served-Keeps st undefined = tt
  search_served-Keeps st (replied messages ok) = inl refl

  handshaken-Keeps :
      (st : Session S) (m : LdapMessage) (ok : Bool) (c : Option Connection)
      → Keeps false st (handshaken server st m ok c)
  handshaken-Keeps st m false c = inl refl
  handshaken-Keeps st m true none = inl refl
  handshaken-Keeps st m true (some c) = inl refl

  start_tls-Keeps :
      (world : World) (st : Session S) (r : LdapMessage)
      → Keeps false st (start_tls server world st r)
  unfolding start_tls
  start_tls-Keeps world st r =
      elim (Bool-cases
        (not server.config.enable_starttls || (not server.tls_enabled || st.connection.tls))) [
          | inl e ↦ rw e (inl refl)
          | inr e ↦ rw e (handshaken-Keeps st _ (world.outside.sends 0) world.handshake)
        ]

  serve_extended-Keeps :
      (world : World) (st : Session S) (r : LdapMessage)
      → Keeps false st (serve_extended server world st r)
  unfolding serve_extended
  serve_extended-Keeps world st r = elim (Bool-cases (equal r.extended_oid start_tls_oid)) [
    | inl e ↦ rw e (start_tls-Keeps world st r)
    | inr e ↦ elim (Bool-cases (equal r.extended_oid password_modify_oid)) [
      | inl f ↦ rw (e, f) (inr (password_of r.extended_value, refl, refl))
      | inr f ↦ elim (Bool-cases (equal r.extended_oid who_am_i_oid)) [
        | inl g ↦ rw (e, f, g) (inl refl)
        | inr g ↦ rw (e, f, g) (inl refl)
      ]
    ]
  ]

  serve_op-Keeps :
      (op : ProtocolOp) (world : World) (st : Session S) (r : LdapMessage)
      → Keeps (is_modify_dn op) st (serve_op server op world st r)
  serve_op-Keeps ProtocolOp.unbind_request world st r = inl refl
  serve_op-Keeps ProtocolOp.search_request world st r =
      search_served-Keeps st (handle_search server world.outside st r)
  serve_op-Keeps ProtocolOp.bind_request world st r =
      inl (handle_bind-store world.now st r.message_id r.bind)
  serve_op-Keeps ProtocolOp.modify_request world st r = inr (modify_of r.modify, refl, refl)
  serve_op-Keeps ProtocolOp.add_request world st r = inr (add_of r.add, refl, refl)
  serve_op-Keeps ProtocolOp.del_request world st r = inr (delete_of r.delete_dn, refl, refl)
  serve_op-Keeps ProtocolOp.modify_dn_request world st r =
      inr (modify_dn_of r.modify_dn, refl, refl)
  serve_op-Keeps ProtocolOp.compare_request world st r = inl (handle_compare-store st r.compare)
  serve_op-Keeps ProtocolOp.extended_request world st r = serve_extended-Keeps world st r
  serve_op-Keeps ProtocolOp.bind_response world st r = inl refl
  serve_op-Keeps ProtocolOp.search_result_entry world st r = inl refl
  serve_op-Keeps ProtocolOp.search_result_done world st r = inl refl
  serve_op-Keeps ProtocolOp.modify_response world st r = inl refl
  serve_op-Keeps ProtocolOp.add_response world st r = inl refl
  serve_op-Keeps ProtocolOp.del_response world st r = inl refl
  serve_op-Keeps ProtocolOp.modify_dn_response world st r = inl refl
  serve_op-Keeps ProtocolOp.compare_response world st r = inl refl
  serve_op-Keeps ProtocolOp.extended_response world st r = inl refl
  serve_op-Keeps ProtocolOp.unknown world st r = inl refl

-- one request that is answered
pub data Step {S : Type 0} (server : Server S) (st st' : Session S) : Type 0 where
  step :
      (world : World) (request : LdapMessage) (messages : List LdapMessage) (go : Bool)
      → serve_request server world st request ≡ served st' messages go
      → Step server st st'

module _ {S : Type 0} (server : Server S) where
  pub serve_request-Keeps :
      (world : World) (st : Session S) (r : LdapMessage)
      → Keeps server (is_modify_dn r.op) st (serve_request server world st r)
  unfolding serve_request
  serve_request-Keeps world st r = serve_op-Keeps server r.op world st r

  -- While a session is not bound, the next request leaves the store as it is, whatever the request is
  -- and however it is answered.
  pub unbound-store :
      (st st' : Session S) → st.bound ≡ false → Step server st st' → st'.store ≡ st.store
  unbound-store st st' u (step world r messages go e) =
      elim (subst (Keeps server (is_modify_dn r.op) st) e (serve_request-Keeps world st r)) [
        | inl same ↦ same
        | inr (w, _, same) ↦ same ∙ (unbound-Refused server st w u).1
      ]
