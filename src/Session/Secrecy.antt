-- ===== src/Session/Secrecy.antt =====
-- core/session.cpp: what a search sends.
use simple_ldapd.Prelude.{
  ℕ, zero, suc, ◌+◌, ◌-◌, ◌^◌, ◌≡◌, refl, inl, inr, Bool, true, false, not, ◌&&◌, Option, List, [],
  ◌∷◌, ◌++◌, leb, ◌==◌, Bool-cases, Option-cases, length, drop,
}
use simple_ldapd.Prelude.Bytes.{Bytes, is_empty}
use simple_ldapd.OrderedMap.{OrderedMap}
use simple_ldapd.Directory.{ResultCode, DirectoryEntry}
use simple_ldapd.Backend.{found}
use simple_ldapd.Message.{SearchRequestData, PartialAttribute, LdapControl, LdapMessage}
use simple_ldapd.Message.Make.{make_search_entry, make_search_done}
use simple_ldapd.Session.{Server, Session, may_search}
use simple_ldapd.Session.Read.{is_user_password}
use simple_ldapd.Session.Search.{
  shown_attributes, attribute_requested, to_search_entry, reveals, wants_no_attributes,
  wants_all_attributes, Outside, Sent, send_entries, past, is_positive, SearchOutcome, replied,
  undefined, done_only, finish_search, page_controls, with_controls, send_page, late_page,
  search_page, handle_search, Paging, stop, paging, offset_of, visible, deadline_of, found_entries,
  controlled,
}
use mathlib.Core.Path.{subst}

-- an attribute is not the password
abbrev pub NoPassword : List PartialAttribute → Type 0
NoPassword [] = Unit
NoPassword (a ∷ attributes) = (is_user_password a.type ≡ false) × NoPassword attributes

shown_attributes-NoPassword :
    (request : SearchRequestData) (all : Bool) (m : OrderedMap (List Bytes))
    → NoPassword (shown_attributes request all false m)
unfolding shown_attributes
shown_attributes-NoPassword request all [] = tt
shown_attributes-NoPassword request all ((type, values) ∷ m) =
    elim (Bool-cases (not all && not (attribute_requested request.attributes type))) [
      | inl a ↦ rw a (shown_attributes-NoPassword request all m)
      | inr a ↦ elim (Bool-cases (is_user_password type)) [
        | inl p ↦ rw (a, p) (shown_attributes-NoPassword request all m)
        | inr p ↦ rw (a, p) (p, shown_attributes-NoPassword request all m)
      ]
    ]

module _ {S : Type 0} (server : Server S) (st : Session S) where
  -- what a message of a search gives away: an entry that the session may see, without the password
  -- unless it may see that too, or no entry at all
  pub data Allowed (request : SearchRequestData) (message : LdapMessage) : Type 0 where
    no_entry : message.entry.attributes ≡ [] → message.entry.dn ≡ [] → Allowed request message
    seen :
        (e : DirectoryEntry)
        → may_search server st e.dn ≡ true
        → message.entry ≡ to_search_entry server st e request
        → (reveals server st ≡ false → NoPassword message.entry.attributes)
        → Allowed request message

  pub data AllAllowed (request : SearchRequestData) : List LdapMessage → Type 0 where
    all_nil : AllAllowed request []
    all_cons :
        {message : LdapMessage} {messages : List LdapMessage}
        → Allowed request message
        → AllAllowed request messages
        → AllAllowed request (message ∷ messages)

  to_search_entry-NoPassword :
      (e : DirectoryEntry) (request : SearchRequestData)
      → reveals server st ≡ false
      → NoPassword (to_search_entry server st e request).attributes
  unfolding to_search_entry
  to_search_entry-NoPassword e request h =
      elim (Bool-cases (wants_no_attributes request.attributes)) [
        | inl n ↦ rw n tt
        | inr n ↦
            rw (n, h)
              (shown_attributes-NoPassword request (wants_all_attributes request.attributes)
                e.attributes)
      ]

  -- every entry of a list may be seen
  abbrev Seen : List DirectoryEntry → Type 0
  Seen [] = Unit
  Seen (e ∷ entries) = (may_search server st e.dn ≡ true) × Seen entries

  visible-Seen : (entries : List DirectoryEntry) → Seen (visible server st entries)
  unfolding visible
  visible-Seen [] = tt
  visible-Seen (e ∷ entries) = elim (Bool-cases (may_search server st e.dn)) [
    | inl m ↦ rw m (m, visible-Seen entries)
    | inr m ↦ rw m (visible-Seen entries)
  ]

  drop-Seen : (n : ℕ) (entries : List DirectoryEntry) → Seen entries → Seen (drop n entries)
  drop-Seen zero entries h = h
  drop-Seen (suc n) [] h = tt
  drop-Seen (suc n) (e ∷ entries) h = drop-Seen n entries h.1

  entry_allowed :
      (message_id : ℕ) (e : DirectoryEntry) (request : SearchRequestData)
      → may_search server st e.dn ≡ true
      → Allowed request (make_search_entry message_id (to_search_entry server st e request))
  unfolding make_search_entry
  entry_allowed message_id e request m = seen e m refl (λ h. to_search_entry-NoPassword e request h)

  done_allowed :
      (message_id : ℕ) (code : ResultCode) (text : Bytes) (controls : List LdapControl)
      (request : SearchRequestData)
      → Allowed request (with_controls (make_search_done message_id code text) controls)
  unfolding make_search_done
  done_allowed message_id code text controls request = no_entry refl refl

  all_append :
      (request : SearchRequestData) (m n : List LdapMessage)
      → AllAllowed request m
      → AllAllowed request n
      → AllAllowed request (m ++ n)
  all_append request _ n all_nil b = b
  all_append request _ n (all_cons {messages = messages} x a) b =
      all_cons x (all_append request messages n a b)

  send_entries_allowed :
      (outside : Outside) (deadline : Option ℕ) (size_limit page_size message_id : ℕ)
      (request : SearchRequestData) (sent : ℕ) (entries : List DirectoryEntry)
      → Seen entries
      → AllAllowed request
          (send_entries outside deadline size_limit page_size
            (λ e. make_search_entry message_id (to_search_entry server st e request))
            sent
            entries).messages
  unfolding send_entries
  send_entries_allowed outside deadline size_limit page_size message_id request sent [] h = all_nil
  send_entries_allowed outside deadline size_limit page_size message_id request sent (e ∷ entries)
        h =
      let this = entry_allowed message_id e request h.0 in
      elim (Bool-cases (past deadline (outside.clock (suc sent)))) [
        | inl a ↦ rw a all_nil
        | inr a ↦ elim (Bool-cases (is_positive size_limit && leb size_limit sent)) [
          | inl b ↦ rw (a, b) all_nil
          | inr b ↦ elim (Bool-cases (is_positive page_size && leb page_size sent)) [
            | inl c ↦ rw (a, b, c) all_nil
            | inr c ↦ elim (Bool-cases (outside.sends sent)) [
              | inr d ↦ rw (a, b, c, d) (all_cons this all_nil)
              | inl d ↦
                  rw (a, b, c, d)
                    (all_cons this (
                      send_entries_allowed outside deadline size_limit page_size message_id request
                        (suc sent) entries h.1))
            ]
          ]
        ]
      ]

  abbrev OutcomeAllowed : SearchRequestData → SearchOutcome → Type 0
  OutcomeAllowed request undefined = Unit
  OutcomeAllowed request (replied messages ok) = AllAllowed request messages

  one_done :
      (message_id : ℕ) (code : ResultCode) (text : Bytes) (controls : List LdapControl)
      (request : SearchRequestData)
      → AllAllowed request (with_controls (make_search_done message_id code text) controls ∷ [])
  one_done message_id code text controls request =
      all_cons (done_allowed message_id code text controls request) all_nil

  done_only_allowed :
      (outside : Outside) (message_id : ℕ) (code : ResultCode) (text : Bytes)
      (request : SearchRequestData)
      → OutcomeAllowed request (done_only outside message_id code text)
  unfolding make_search_done
  done_only_allowed outside message_id code text request = all_cons (no_entry refl refl) all_nil

  finish_allowed :
      (outside : Outside) (message_id page_size offset size : ℕ) (sent : Sent)
      (request : SearchRequestData)
      → AllAllowed request sent.messages
      → OutcomeAllowed request (finish_search outside message_id page_size offset size sent)
  finish_allowed outside message_id page_size offset size sent request h =
      elim (Option-cases sent.result) [
        | inl e ↦ rw e h
        | inr (result, e) ↦ rw e (
            all_append request sent.messages _ h (
              one_done message_id result []
                (page_controls page_size (offset + sent.count) result size) request))
      ]

  late_allowed :
      (outside : Outside) (message_id page_size below size : ℕ) (request : SearchRequestData)
      → OutcomeAllowed request (late_page outside message_id page_size below size)
  unfolding late_page
  late_allowed outside message_id page_size below size request =
      elim (Bool-cases (not (is_positive page_size))) [
        | inl a ↦ rw a (done_only_allowed outside message_id _ [] request)
        | inr a ↦ elim (Bool-cases (leb 2147483648 (size + below))) [
          | inl b ↦ rw (a, b) tt
          | inr b ↦ rw (a, b) (one_done message_id _ [] _ request)
        ]
      ]

  send_page_allowed :
      (outside : Outside) (message_id : ℕ) (request : SearchRequestData) (page_size offset : ℕ)
      (entries : List DirectoryEntry)
      → Seen entries
      → OutcomeAllowed request
          (send_page server outside st message_id request page_size offset entries)
  send_page_allowed outside message_id request page_size offset entries h =
      elim (Bool-cases (page_size == 0)) [
        | inl a ↦ rw a (one_done message_id _ [] _ request)
        | inr a ↦ elim (Bool-cases (leb 2147483648 offset)) [
          | inr b ↦
              rw (a, b)
                (finish_allowed outside message_id page_size offset (length entries) _ request (
                  send_entries_allowed outside (deadline_of outside request) request.size_limit
                    page_size message_id request 0 (drop offset entries)
                    (drop-Seen offset entries h)))
          | inl b ↦ elim (Bool-cases (past (deadline_of outside request) (outside.clock 1))) [
            | inl c ↦
                rw (a, b, c)
                  (late_allowed outside message_id page_size (2 ^ 32 - offset) (length entries)
                    request)
            | inr c ↦ rw (a, b, c) tt
          ]
        ]
      ]

  search_page_allowed :
      (outside : Outside) (message_id : ℕ) (request : SearchRequestData) (page_size : ℕ)
      (cookie : Bytes)
      → OutcomeAllowed request (search_page server outside st message_id request page_size cookie)
  unfolding search_page
  search_page_allowed outside message_id request page_size cookie =
      elim (Bool-cases (
        not (is_empty request.base_dn)
        && not (found (server.backend.lookup st.store request.base_dn)))) [
          | inl a ↦ rw a (done_only_allowed outside message_id _ _ request)
          | inr a ↦
              elim (Bool-cases
                (not (is_empty request.base_dn) && not (may_search server st request.base_dn))) [
                  | inl b ↦ rw (a, b) (done_only_allowed outside message_id _ _ request)
                  | inr b ↦ elim (Option-cases (offset_of cookie)) [
                    | inl c ↦ rw (a, b, c) (done_only_allowed outside message_id _ _ request)
                    | inr (offset, c) ↦
                        rw (a, b, c)
                          (send_page_allowed outside message_id request page_size offset
                            (visible server st (found_entries server st request))
                            (visible-Seen (found_entries server st request)))
                  ]
                ]
        ]

  controlled_allowed :
      (outside : Outside) (message_id : ℕ) (request : SearchRequestData) (p : Paging)
      → OutcomeAllowed request (controlled server outside st message_id request p)
  controlled_allowed outside message_id request (stop code text) =
      done_only_allowed outside message_id code text request
  controlled_allowed outside message_id request (paging page_size cookie) =
      search_page_allowed outside message_id request page_size cookie

  search_allowed :
      (outside : Outside) (message : LdapMessage)
      → OutcomeAllowed message.search (handle_search server outside st message)
  unfolding handle_search
  search_allowed outside message = elim (Bool-cases (not message.search.filter.valid)) [
    | inl a ↦ rw a (done_only_allowed outside message.message_id _ _ message.search)
    | inr a ↦ rw a (controlled_allowed outside message.message_id message.search _)
  ]

  -- Each message that a search sends carries no entry, or an entry that the access control lets the
  -- session see; and this without any attribute userPassword, up to case, unless the session is bound
  -- to the root's name.
  pub handle_search-Allowed :
      (outside : Outside) (request : LdapMessage) (messages : List LdapMessage) (ok : Bool)
      → handle_search server outside st request ≡ replied messages ok
      → AllAllowed request.search messages
  handle_search-Allowed outside request messages ok e =
      subst (OutcomeAllowed request.search) e (search_allowed outside request)
