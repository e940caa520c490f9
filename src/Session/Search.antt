-- ===== src/Session/Search.antt =====
-- core/session.cpp: the search. An `int` is its bit pattern; a store holds fewer than 2 ^ 31 entries.
use simple_ldapd.Prelude.{
  ℕ, suc, ◌+◌, ◌-◌, ◌*◌, ◌%◌, ◌^◌, Bool, true, false, not, ◌&&◌, ◌||◌, Option, none, some, List, [],
  ◌∷◌, ◌++◌, ltb, leb, ◌==◌, if◌then◌else◌, length, drop,
}
use simple_ldapd.Prelude.Bytes.{Bytes, codes, is_empty, equal}
use simple_ldapd.OrderedMap.{OrderedMap, assign}
use simple_ldapd.OrderedMap.Keys.{find_key}
use simple_ldapd.Dn.{iequals, dn_equals}
use simple_ldapd.Directory.{
  ResultCode, success, protocol_error, time_limit_exceeded, size_limit_exceeded, no_such_object,
  insufficient_access_rights, unavailable_critical_extension, DirectoryEntry, SearchScope, base,
  one_level, subtree, unnamed_scope,
}
use simple_ldapd.Filter.Match.{matches}
use simple_ldapd.Text.Numbers.{whole_number, decimal}
use simple_ldapd.Backend.{found}
use simple_ldapd.Message.{
  SearchRequestData, SearchEntryData, PartialAttribute, LdapControl, LdapMessage,
  password_modify_oid, who_am_i_oid, paged_results_oid,
}
use simple_ldapd.Message.Controls.{decode_paged_results_value, make_paged_results_control}
use simple_ldapd.Message.Make.{make_search_entry, make_search_done}
use simple_ldapd.Session.{Server, Session, Sasl, may_search}
use simple_ldapd.Session.Read.{is_user_password}

-- `kStartTlsOid` of security/tls.hpp
abbrev pub start_tls_oid : Bytes
start_tls_oid = codes "1.3.6.1.4.1.1466.20037"

-- an `int` greater than 0
abbrev pub is_positive : ℕ → Bool
is_positive n = not (n == 0) && ltb n 2147483648

unfoldable pub any_star : List Bytes → Bool
unfolding equal
any_star [] = false
any_star (name ∷ names) = equal name (codes "*") || any_star names

unfoldable pub wants_all_attributes : List Bytes → Bool
unfolding any_star
wants_all_attributes names = is_empty names || any_star names

unfoldable pub wants_no_attributes : List Bytes → Bool
unfolding equal
wants_no_attributes [] = false
wants_no_attributes (name ∷ []) = equal name (codes "1.1")
wants_no_attributes (name ∷ name' ∷ names) = false

unfoldable pub attribute_requested : List Bytes → Bytes → Bool
unfolding iequals
attribute_requested [] attribute = false
attribute_requested (name ∷ names) attribute =
    iequals name attribute || attribute_requested names attribute

-- the loop over the attributes of an entry
unfoldable pub shown_attributes :
    SearchRequestData → Bool → Bool → OrderedMap (List Bytes) → List PartialAttribute
unfolding attribute_requested iequals
shown_attributes request all reveal [] = []
shown_attributes request all reveal ((type, values) ∷ attributes) =
    let rest = shown_attributes request all reveal attributes in
    if not all && not (attribute_requested request.attributes type)
    then rest
    else if is_user_password type && not reveal
    then rest
    else record { type = type; values = if request.types_only then [] else values } ∷ rest

-- `entry.attributes[name].push_back(value)`
abbrev pub values_or_none : Option (List Bytes) → List Bytes
values_or_none none = []
values_or_none (some values) = values

unfoldable pub push_value : Bytes → Bytes → OrderedMap (List Bytes) → OrderedMap (List Bytes)
unfolding assign
push_value name value m = assign name (values_or_none (find_key name m) ++ (value ∷ [])) m

-- what the loop over the controls leaves: an early answer, or the page size and the cookie
pub data Paging : Type 0 where
  stop : ResultCode → Bytes → Paging
  paging : ℕ → Bytes → Paging

abbrev pub paged_control : Bool → Option (ℕ × Bytes) → Paging
paged_control critical none =
    stop (if critical then unavailable_critical_extension else protocol_error)
      (codes "invalid paged results control")
paged_control critical (some (size, cookie)) = paging size cookie

-- `page_size` is -1 before the loop
unfoldable pub read_controls : Paging → List LdapControl → Paging
unfolding iequals decode_paged_results_value
read_controls (stop code text) controls = stop code text
read_controls (paging size cookie) [] = paging size cookie
read_controls (paging size cookie) (control ∷ controls) =
    read_controls
      (if iequals control.oid paged_results_oid
        then paged_control control.critical (decode_paged_results_value control.value)
        else if control.critical
        then stop unavailable_critical_extension (codes "unsupported critical control")
        else paging size cookie)
      controls

-- the cookie's offset: none is an invalid cookie
abbrev pub offset_of : Bytes → Option ℕ
offset_of [] = some 0
offset_of (c ∷ cookie) = elim (whole_number (c ∷ cookie)) [
  | none ↦ none
  | some parsed ↦ some (parsed % 2 ^ 32)
]

-- what a search does: the messages it tries to send, the last one in vain if `ok` is false, or an
-- access outside the vector, which C++ leaves undefined
pub data SearchOutcome : Type 0 where
  replied : List LdapMessage → Bool → SearchOutcome
  undefined : SearchOutcome

-- the clock's readings in turn, in nanoseconds, and whether the sends in turn succeed
pub record Outside : Type 0 where
  pub clock : ℕ → ℕ
  pub sends : ℕ → Bool

-- the messages of the loop, and the result for the last one; `none` is a failed send
pub record Sent : Type 0 where
  pub messages : List LdapMessage
  pub count : ℕ
  pub result : Option ResultCode

abbrev pub sent_first : LdapMessage → Sent → Sent
sent_first message sent = record sent { messages = message ∷ sent.messages }

abbrev pub past : Option ℕ → ℕ → Bool
past none now = false
past (some deadline) now = leb deadline now

-- the loop over the entries from the offset on
unfoldable pub send_entries :
    Outside → Option ℕ → ℕ → ℕ → (DirectoryEntry → LdapMessage) → ℕ → List DirectoryEntry → Sent
send_entries outside deadline size_limit page_size message sent [] = record {
  messages = [];
  count = sent;
  result = some success;
}
send_entries outside deadline size_limit page_size message sent (entry ∷ entries) =
    let rest = send_entries outside deadline size_limit page_size message (suc sent) entries in
    if past deadline (outside.clock (suc sent))
    then record { messages = []; count = sent; result = some time_limit_exceeded }
    else if is_positive size_limit && leb size_limit sent
    then record { messages = []; count = sent; result = some size_limit_exceeded }
    else if is_positive page_size && leb page_size sent
    then record { messages = []; count = sent; result = some success }
    else if outside.sends sent
    then sent_first (message entry) rest
    else record { messages = message entry ∷ []; count = sent; result = none }

abbrev pub is_size_limit : ResultCode → Bool
is_size_limit size_limit_exceeded = true
is_size_limit _ = false

-- the control of the last message of a page
unfoldable pub page_controls : ℕ → ℕ → ResultCode → ℕ → List LdapControl
unfolding decimal make_paged_results_control
page_controls page_size next result size =
    let next_cookie = if ltb next size && not (is_size_limit result) then decimal next else [] in
    if is_positive page_size
    then make_paged_results_control (size - next) next_cookie false ∷ []
    else []

abbrev pub with_controls : LdapMessage → List LdapControl → LdapMessage
with_controls message controls = record message { controls = controls }

-- behind the loop
abbrev pub finish_search : Outside → ℕ → ℕ → ℕ → ℕ → Sent → SearchOutcome
finish_search outside message_id page_size offset size sent = elim sent.result [
  | none ↦ replied sent.messages false
  | some result ↦
      replied
        (sent.messages
          ++ (with_controls (make_search_done message_id result [])
                (page_controls page_size (offset + sent.count) result size)
              ∷ []))
        (outside.sends sent.count)
]

-- behind a loop that ends at the deadline with a negative offset, `below` under 0; the number of
-- entries that remain may then be above the largest `int`
unfoldable pub late_page : Outside → ℕ → ℕ → ℕ → ℕ → SearchOutcome
unfolding make_search_done make_paged_results_control decimal
late_page outside message_id page_size below size =
    if not (is_positive page_size)
    then replied (make_search_done message_id time_limit_exceeded [] ∷ []) (outside.sends 0)
    else if leb 2147483648 (size + below)
    then undefined
    else replied
        (with_controls (make_search_done message_id time_limit_exceeded [])
            (make_paged_results_control (size + below) (b'-' ∷ decimal below) false ∷ [])
          ∷ [])
        (outside.sends 0)

abbrev pub deadline_of : Outside → SearchRequestData → Option ℕ
deadline_of outside request =
    if is_positive request.time_limit
    then some (outside.clock 0 + request.time_limit * 1000000000)
    else none

-- a search that sends one message only
abbrev pub done_only : Outside → ℕ → ResultCode → Bytes → SearchOutcome
done_only outside message_id code text =
    replied (make_search_done message_id code text ∷ []) (outside.sends 0)

module _ {S : Type 0} (server : Server S) where
  abbrev sasl_names : Option (Sasl S) → OrderedMap (List Bytes) → OrderedMap (List Bytes)
  sasl_names none m = m
  sasl_names (some sasl) m = assign (codes "supportedSASLMechanisms") sasl.advertised m

  unfoldable pub root_dse : DirectoryEntry
  unfolding push_value assign
  root_dse =
      let m = push_value (codes "objectClass") (codes "top") [] in
      let m = push_value (codes "namingContexts") server.config.base_dn m in
      let m = push_value (codes "supportedLDAPVersion") (codes "3") m in
      let m = push_value (codes "vendorName") (codes "SimpleDaemons") m in
      let m = push_value (codes "vendorVersion") (codes "1.0.0") m in
      let m = push_value (codes "supportedExtension") password_modify_oid m in
      let m = push_value (codes "supportedExtension") who_am_i_oid m in
      let m = push_value (codes "supportedControl") paged_results_oid m in
      let m =
        if server.config.enable_starttls
        then push_value (codes "supportedExtension") start_tls_oid m
        else m in
      record { dn = []; attributes = sasl_names server.sasl m }

  -- whether the session may see passwords
  abbrev pub reveals : Session S → Bool
  reveals st = st.bound && not (is_empty st.bind_dn) && dn_equals st.bind_dn server.config.root_dn

  unfoldable pub to_search_entry : Session S → DirectoryEntry → SearchRequestData → SearchEntryData
  unfolding wants_no_attributes wants_all_attributes shown_attributes dn_equals
  to_search_entry st entry request = record {
    dn = entry.dn;
    attributes =
        if wants_no_attributes request.attributes
        then []
        else shown_attributes request (wants_all_attributes request.attributes) (reveals st)
            entry.attributes;
  }

  -- the root of the tree of entries, where the search starts at it
  abbrev dse_match : SearchRequestData → List DirectoryEntry
  dse_match request = if matches request.filter (root_dse) then root_dse ∷ [] else []

  abbrev stored_matches : Session S → SearchRequestData → List DirectoryEntry
  stored_matches st request =
      server.backend.search st.store request.base_dn request.scope request.filter

  abbrev from_root : Session S → SearchRequestData → SearchScope → List DirectoryEntry
  from_root st request base = dse_match request
  from_root st request one_level = stored_matches st request
  from_root st request subtree = dse_match request ++ stored_matches st request
  from_root st request (unnamed_scope code) = dse_match request ++ stored_matches st request

  unfoldable pub found_entries : Session S → SearchRequestData → List DirectoryEntry
  unfolding matches root_dse
  found_entries st request =
      if is_empty request.base_dn
      then from_root st request request.scope
      else stored_matches st request

  -- the loop that keeps what the session may see
  unfoldable pub visible : Session S → List DirectoryEntry → List DirectoryEntry
  unfolding may_search
  visible st [] = []
  visible st (entry ∷ entries) =
      let rest = visible st entries in if may_search server st entry.dn then entry ∷ rest else rest

  -- behind the offset; one that is negative is below the number of entries, and is used as an index
  abbrev pub send_page :
      Outside → Session S → ℕ → SearchRequestData → ℕ → ℕ → List DirectoryEntry → SearchOutcome
  send_page outside st message_id request page_size offset seen =
      if page_size == 0
      then replied
          (with_controls (make_search_done message_id success [])
              (make_paged_results_control 0 [] false ∷ [])
            ∷ [])
          (outside.sends 0)
      else if leb 2147483648 offset
      then if past (deadline_of outside request) (outside.clock 1)
        then late_page outside message_id page_size (2 ^ 32 - offset) (length seen)
        else undefined
      else finish_search outside message_id page_size offset (length seen) (
          send_entries outside (deadline_of outside request) request.size_limit page_size
            (λ entry. make_search_entry message_id (to_search_entry st entry request)) 0
            (drop offset seen))

  -- the code behind the controls
  unfoldable pub search_page :
      Outside → Session S → ℕ → SearchRequestData → ℕ → Bytes → SearchOutcome
  unfolding may_search found_entries visible send_entries page_controls to_search_entry
      make_search_done make_search_entry make_paged_results_control whole_number late_page
  search_page outside st message_id request page_size cookie =
      if not (is_empty request.base_dn)
        && not (found (server.backend.lookup st.store request.base_dn))
      then done_only outside message_id no_such_object (codes "no such object")
      else if not (is_empty request.base_dn) && not (may_search server st request.base_dn)
      then done_only outside message_id insufficient_access_rights (codes "insufficient access")
      else elim (offset_of cookie) [
        | none ↦ done_only outside message_id protocol_error (codes "invalid paged results cookie")
        | some offset ↦
            send_page outside st message_id request page_size offset
              (visible st (found_entries st request))
      ]

  abbrev pub controlled : Outside → Session S → ℕ → SearchRequestData → Paging → SearchOutcome
  controlled outside st message_id request (stop code text) = done_only outside message_id code text
  controlled outside st message_id request (paging page_size cookie) =
      search_page outside st message_id request page_size cookie

  unfoldable pub handle_search : Outside → Session S → LdapMessage → SearchOutcome
  unfolding read_controls search_page make_search_done
  handle_search outside st request =
      if not request.search.filter.valid
      then done_only outside request.message_id protocol_error (codes "invalid search filter")
      else controlled outside st request.message_id request.search
          (read_controls (paging (2 ^ 32 - 1) []) request.controls)
