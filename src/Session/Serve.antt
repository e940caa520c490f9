-- ===== src/Session/Serve.antt =====
-- core/session.cpp: binding, and the answer to one request.
use simple_ldapd.Prelude.{
  ℕ, Bool, true, false, not, ◌&&◌, ◌||◌, Option, none, some, List, [], ◌∷◌, ◌==◌, if◌then◌else◌,
}
use simple_ldapd.Prelude.Bytes.{Bytes, codes, is_empty, equal}
use simple_ldapd.Directory.{
  ResultCode, success, protocol_error, auth_method_not_supported, confidentiality_required, busy,
  unwilling_to_perform,
}
use simple_ldapd.RateLimiter.{RateLimiter, allow}
use simple_ldapd.Bind.{bind, resolve_name}
use simple_ldapd.Message.{
  ProtocolOp, BindRequestData, LdapMessage, password_modify_oid, who_am_i_oid,
}
use simple_ldapd.Message.Make.{make_bind_response, make_ldap_result}
use simple_ldapd.Session.{Connection, SaslBindResult, Sasl, Server, Session, Answer, is_success}
use simple_ldapd.Session.Write.{handle_add, handle_modify, handle_delete}
use simple_ldapd.Session.Rename.{handle_modify_dn}
use simple_ldapd.Session.Read.{handle_compare, who_am_i, handle_password_modify}
use simple_ldapd.Session.Search.{
  SearchOutcome, replied, undefined, Outside, handle_search, start_tls_oid,
}

-- what comes from outside while one request is answered: besides the clock's readings and the sends,
-- the time that the limiter reads, and the connection behind a TLS handshake that succeeds
pub record World : Type 0 where
  pub outside : Outside
  pub now : ℕ
  pub handshake : Option Connection

-- the session afterwards, the messages that it tried to send, and whether it goes on to the next
pub data Served (S : Type 0) : Type 0 where
  served : Session S → List LdapMessage → Bool → Served S
  fault : Served S

abbrev or_name : Bytes → Option Bytes → Bytes
or_name dn none = dn
or_name dn (some resolved) = resolved

module _ {S : Type 0} (server : Server S) where
  -- the answer of the limiter, where there is one
  abbrev pub limited : Session S → ℕ → Option RateLimiter → Bool × Session S
  limited st now none = (true, st)
  limited st now (some limiter) =
      let (allowed, limiter') = allow limiter st.connection.peer now in
      (allowed, record st { limiter = some limiter' })

  abbrev pub sasl_bound : Session S → ℕ → SaslBindResult × Bytes × ℕ → Session S × LdapMessage
  sasl_bound st message_id (outcome, nonce, draws) =
      let st' = record st { nonce = nonce; draws = draws } in
      (
        if is_success outcome.result
            then record st' { bound = true; bind_dn = outcome.bind_dn }
            else st',
        make_bind_response message_id outcome.result outcome.diagnostic outcome.server_creds,
      )

  abbrev pub sasl_bind : Session S → ℕ → BindRequestData → Option (Sasl S) → Session S × LdapMessage
  sasl_bind st message_id request none = (
    st,
    make_bind_response message_id auth_method_not_supported (codes "SASL bind is not implemented")
        [],
  )
  sasl_bind st message_id request (some sasl) =
      sasl_bound st message_id (sasl.bind st.store request st.connection st.nonce st.draws)

  abbrev pub simple_result : Session S → ℕ → BindRequestData → ResultCode → Session S × LdapMessage
  simple_result st message_id request result =
      if is_success result
      then (
        record st {
          bound = true;
          bind_dn =
              if is_empty request.dn
              then []
              else or_name request.dn
                  (resolve_name server.backend server.config st.store request.dn);
        },
        make_bind_response message_id success [] [],
      )
      else (st, make_bind_response message_id result (codes "invalid credentials") [])

  abbrev pub simple_bind : Session S → ℕ → BindRequestData → Session S × LdapMessage
  simple_bind st message_id request =
      if server.config.require_confidentiality
        && not st.connection.tls
        && not (is_empty request.password)
      then (
        st,
        make_bind_response message_id confidentiality_required (codes "confidentiality required")
            [],
      )
      else simple_result st message_id request
          (bind server.backend server.config server.crypto st.store request.dn request.password)

  -- behind the limiter
  abbrev pub bind_as : ℕ → BindRequestData → Bool × Session S → Session S × LdapMessage
  bind_as message_id request (false, st) =
      (st, make_bind_response message_id busy (codes "bind rate limit exceeded") [])
  bind_as message_id request (true, st) =
      if not request.simple
      then sasl_bind st message_id request server.sasl
      else simple_bind (record st { nonce = [] }) message_id request

  unfoldable pub handle_bind : ℕ → Session S → ℕ → BindRequestData → Session S × LdapMessage
  unfolding allow bind resolve_name make_bind_response
  handle_bind now st message_id request =
      let fresh = record st { bound = false; bind_dn = [] } in
      if not (request.version == 3)
      then (
        fresh,
        make_bind_response message_id protocol_error (codes "only LDAPv3 is supported") [],
      )
      else bind_as message_id request (limited fresh now fresh.limiter)

  -- the answer of a handler, in a message
  abbrev pub put_answer : Session S → Answer S → Session S
  put_answer st answer = record st { store = answer.store; draws = answer.draws }

  abbrev pub answered : World → Session S → LdapMessage → ProtocolOp → Answer S → Served S
  answered world st request op answer =
      served (put_answer st answer)
        (make_ldap_result request.message_id op answer.code answer.diagnostic ∷ [])
        (world.outside.sends 0)

  abbrev pub bind_served : World → Session S × LdapMessage → Served S
  bind_served world (st, response) = served st (response ∷ []) (world.outside.sends 0)

  abbrev pub search_served : Session S → SearchOutcome → Served S
  search_served st undefined = fault
  search_served st (replied messages ok) = served st messages ok

  -- the handshake, behind a success that could be sent
  abbrev pub handshaken : Session S → LdapMessage → Bool → Option Connection → Served S
  handshaken st message false connection = served st (message ∷ []) false
  handshaken st message true none = served st (message ∷ []) false
  handshaken st message true (some connection) =
      served (record st { connection = connection }) (message ∷ []) true

  unfoldable pub start_tls : World → Session S → LdapMessage → Served S
  unfolding make_ldap_result
  start_tls world st request =
      if not server.config.enable_starttls || (not server.tls_enabled || st.connection.tls)
      then served st
          (make_ldap_result request.message_id ProtocolOp.extended_response unwilling_to_perform (
              if st.connection.tls
              then codes "TLS already active"
              else codes "StartTLS is not available")
            ∷ [])
          (world.outside.sends 0)
      else handshaken st
          (make_ldap_result request.message_id ProtocolOp.extended_response success [])
          (world.outside.sends 0) world.handshake

  abbrev who_message : Session S → ℕ → LdapMessage
  who_message st message_id =
      record (make_ldap_result message_id ProtocolOp.extended_response success []) {
        extended_oid = who_am_i_oid;
        extended_value = who_am_i server st;
      }

  unfoldable pub serve_extended : World → Session S → LdapMessage → Served S
  unfolding start_tls handle_password_modify who_am_i make_ldap_result equal
  serve_extended world st request =
      if equal request.extended_oid start_tls_oid
      then start_tls world st request
      else if equal request.extended_oid password_modify_oid
      then answered world st request ProtocolOp.extended_response
          (handle_password_modify server st request.extended_value)
      else if equal request.extended_oid who_am_i_oid
      then served st (who_message st request.message_id ∷ []) (world.outside.sends 0)
      else served st
          (make_ldap_result request.message_id ProtocolOp.extended_response unwilling_to_perform
              (codes "extended operations not implemented")
            ∷ [])
          (world.outside.sends 0)

  abbrev unsupported : World → Session S → LdapMessage → Served S
  unsupported world st request =
      served st
        (make_ldap_result request.message_id ProtocolOp.search_result_done protocol_error
            (codes "unsupported operation")
          ∷ [])
        (world.outside.sends 0)

  abbrev pub serve_op : ProtocolOp → World → Session S → LdapMessage → Served S
  serve_op ProtocolOp.unbind_request world st request = served st [] false
  serve_op ProtocolOp.search_request world st request =
      search_served st (handle_search server world.outside st request)
  serve_op ProtocolOp.bind_request world st request =
      bind_served world (handle_bind world.now st request.message_id request.bind)
  serve_op ProtocolOp.modify_request world st request =
      answered world st request ProtocolOp.modify_response (handle_modify server st request.modify)
  serve_op ProtocolOp.add_request world st request =
      answered world st request ProtocolOp.add_response (handle_add server st request.add)
  serve_op ProtocolOp.del_request world st request =
      answered world st request ProtocolOp.del_response (handle_delete server st request.delete_dn)
  serve_op ProtocolOp.modify_dn_request world st request =
      answered world st request ProtocolOp.modify_dn_response
        (handle_modify_dn server st request.modify_dn)
  serve_op ProtocolOp.compare_request world st request =
      answered world st request ProtocolOp.compare_response
        (handle_compare server st request.compare)
  serve_op ProtocolOp.extended_request world st request = serve_extended world st request
  serve_op _ world st request = unsupported world st request

  -- one round of `serve` with a request that was received and decoded
  unfoldable pub serve_request : World → Session S → LdapMessage → Served S
  unfolding handle_search handle_bind handle_modify handle_add handle_delete handle_modify_dn
      handle_compare serve_extended make_ldap_result
  serve_request world st request = serve_op request.op world st request
