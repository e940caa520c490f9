-- ===== src/Tests/Session.antt =====
-- Requests to a session on a small directory.
use simple_ldapd.Prelude.{◌≡◌, refl, true, false, none, List, [], ◌∷◌}
use simple_ldapd.Prelude.Bytes.{codes}
use simple_ldapd.Directory.{subtree, insufficient_access_rights}
use simple_ldapd.Memory.{MemoryBackend, memory_backend, lookup, add, search, has_children}
use simple_ldapd.OrderedMap.{key_lt}
use simple_ldapd.Memory.Store.{memory_backend-IsStore}
use simple_ldapd.Memory.Invariant.{IsWellFormed}
use simple_ldapd.Config.{default_config}
use simple_ldapd.Filter.{all_filter}
use simple_ldapd.Message.{ProtocolOp, LdapMessage, default_message}
use simple_ldapd.Message.Make.{make_ldap_result}
use simple_ldapd.Session.{Connection, Server, Session}
use simple_ldapd.Session.Write.{handle_delete}
use simple_ldapd.Session.Search.{Outside, SearchOutcome, replied, undefined, handle_search}
use simple_ldapd.Session.Serve.{World, Served, fault, served, serve_request}
use simple_ldapd.Session.Outcome.{Write, add_of, delete_of, answer_of, Refused, unbound-Refused}
use simple_ldapd.Session.Store.{failure-unchanged}
use simple_ldapd.Session.Parents.{HasParents, answer-HasParents}
use simple_ldapd.Session.Steps.{Step, step, unbound-store}
use simple_ldapd.Session.Runs.{start, next, Reaches-HasParents}
use simple_ldapd.Session.Secrecy.{AllAllowed, handle_search-Allowed}
use simple_ldapd.Tests.Store.{root_name, amy_name, empty_store, store, store-IsWellFormed}
use simple_ldapd.Tests.Auth.{crypto}

abbrev server : Server MemoryBackend
server = record {
  backend = memory_backend;
  config = default_config;
  crypto = crypto;
  schema = none;
  sasl = none;
  tls_enabled = false;
}

abbrev connection : Connection
connection = record {
  tls = false;
  peer_verified = false;
  peer_identity = [];
  peer = codes "192.0.2.1";
}

abbrev fresh : MemoryBackend → Session MemoryBackend
fresh s = record {
  store = s;
  connection = connection;
  bound = false;
  bind_dn = [];
  nonce = [];
  limiter = none;
  draws = 0;
}

abbrev as_root : MemoryBackend → Session MemoryBackend
as_root s = record (fresh s) { bound = true; bind_dn = default_config.root_dn }

abbrev removal : Write
removal = delete_of amy_name

unbound-Refused_example : Refused (fresh store) (answer_of server (fresh store) removal)
unbound-Refused_example = unbound-Refused server (fresh store) removal refl

abbrev request : LdapMessage
request = record default_message { op = ProtocolOp.del_request; delete_dn = amy_name }

abbrev outside : Outside
outside = record { clock = λ n. n; sends = λ n. true }

abbrev world : World
world = record { outside = outside; now = 0; handshake = none }

refused-Step : Step server (fresh store) (fresh store)
unfolding serve_request make_ldap_result
refused-Step =
    step world request
      (make_ldap_result request.message_id ProtocolOp.del_response insufficient_access_rights
          (codes "insufficient access")
        ∷ [])
      true refl

unbound-store_example : (fresh store).store ≡ (fresh store).store
unbound-store_example = unbound-store server (fresh store) (fresh store) refl refused-Step

no_parents : HasParents memory_backend empty_store
unfolding lookup
no_parents dn present = absurd (cc)

abbrev addition : Write
addition = add_of (record { dn = root_name; attributes = [] })

answer-HasParents_example :
    HasParents memory_backend (answer_of server (as_root empty_store) addition).store
answer-HasParents_example =
    answer-HasParents server IsWellFormed memory_backend-IsStore (as_root empty_store) addition refl
      (record { ordered = tt; distinct = tt; named = tt }) no_parents

abbrev add_request : LdapMessage
add_request = record default_message {
  op = ProtocolOp.add_request;
  add = record { dn = root_name; attributes = [] };
}

abbrev session_of : Served MemoryBackend → Session MemoryBackend
session_of (served st messages go) = st
session_of fault = fresh empty_store

abbrev sent_of : Served MemoryBackend → List LdapMessage
sent_of (served st messages go) = messages
sent_of fault = []

abbrev after_add : Served MemoryBackend
after_add = serve_request server world (as_root empty_store) add_request

added : after_add ≡ served (session_of after_add) (sent_of after_add) true
unfolding serve_request
added = refl

Reaches-HasParents_example :
    IsWellFormed (session_of after_add).store
    × HasParents memory_backend (session_of after_add).store
Reaches-HasParents_example =
    Reaches-HasParents server IsWellFormed memory_backend-IsStore (as_root empty_store)
      (session_of after_add) (next world add_request (sent_of after_add) true start refl added)
      (record { ordered = tt; distinct = tt; named = tt }) no_parents

abbrev root_removal : Write
root_removal = delete_of root_name

failure-unchanged_example :
    lookup (answer_of server (as_root store) root_removal).store amy_name ≡ lookup store amy_name
unfolding lookup add key_lt handle_delete has_children
failure-unchanged_example =
    failure-unchanged server IsWellFormed memory_backend-IsStore (as_root store) root_removal
      amy_name store-IsWellFormed refl refl

abbrev question : LdapMessage
question = record default_message {
  search = record default_message.search {
    base_dn = root_name;
    scope = subtree;
    filter = all_filter;
  };
}

abbrev messages_of : SearchOutcome → List LdapMessage
messages_of (replied messages ok) = messages
messages_of undefined = []

abbrev answers : List LdapMessage
answers = messages_of (handle_search server outside (as_root store) question)

answered : handle_search server outside (as_root store) question ≡ replied answers true
unfolding handle_search all_filter lookup add key_lt search
answered = refl

handle_search-Allowed_example : AllAllowed server (as_root store) question.search answers
handle_search-Allowed_example =
    handle_search-Allowed server (as_root store) outside question answers true answered
