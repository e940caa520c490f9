-- ===== src/Lib.antt =====
-- simple-ldapd: the directory model of an LDAP server, as definitions that compute and theorems
-- about them. The paths below are those of the repository.
--
-- A client's request arrives as bytes. The BER codec (protocol/ber.cpp) and the message codec
-- (protocol/message.cpp) turn it into a request; a search carries a filter (protocol/filter.cpp).
-- A session (core/session.cpp) answers it: the rate limiter (security/rate_limiter.cpp) bounds the
-- attempts to bind, the simple bind (auth/bind.cpp) compares passwords (auth/password.cpp), the access
-- rules (security/acl.cpp) decide whether a request may go on, the schema (schema/registry.cpp) checks
-- the entry that it would leave, and the store (backend/) looks up, searches and changes entries,
-- whose names are compared by utils/dn.cpp. The settings come from config/config.cpp.
--
-- The files under src/simple-ldapd, with their headers under include/simple-ldapd, and the modules:
-- - Dn: utils/dn.cpp. Names are bytes; the children say what each test decides.
-- - Directory: the data of backend/backend.hpp and protocol/result_codes.hpp.
-- - Modify: backend/modify.cpp, `applyModifications`, one function for each case of its switch.
-- - Backend: the interface `Backend` as a record of operations, and `IsStore`, the laws that a
--   client may use. Memory: backend/memory.cpp, which implements it. A `std::map` is a list of pairs
--   in the order of its keys (OrderedMap).
-- - Ber: protocol/ber.cpp, the writer, and Ber.Reader, the reader as a state monad whose state is
--   the bytes that are left and `ok_`. Ber.Loop has the loops that run to the end of the bytes.
-- - Filter: protocol/filter.hpp, Filter.Match: `nodeMatches`, Filter.Wire: the encoding.
-- - Message: protocol/message.hpp, and message.cpp in its children by kind of message.
-- - Text and Acl: security/acl.cpp. The store is a parameter of the decisions, by its `lookup`.
-- - RateLimiter: security/rate_limiter.cpp, with the clock as an argument.
-- - Filter.Parse: the text form of filters in filter.cpp, with a printer of plain filters.
-- - Password: auth/password.cpp. The hash and the random bytes of OpenSSL are the record `Crypto`.
-- - Bind: auth/bind.cpp. Config: config/config.hpp and config.cpp, with the names of the levels of
--   utils/logger.cpp.
-- - Session: core/session.cpp. Each handler is a function of the session and the request to an
--   answer with the store behind it; Session.Serve has one round of `serve`, Session.Runs any number.
--   What comes from outside (the clock, the sends, the handshake) is the record `World`.
-- - Schema: schema/registry.hpp and registry.cpp.
-- - Prelude: lists, tests and bytes that the others share. Tests: the theorems at concrete inputs.
--
-- A number of w bits is a natural number below 2 ^ w, a signed one its bit pattern. Bytes are
-- numbers; that they are below 256 is not asked for where no law needs it. `std::tolower` and
-- `std::isspace` are those of the C locale. A mutex makes an operation one step.
--
-- Loops over a reader have fuel. `read_list` gives itself one round more than there are bytes
-- left, and each item takes at least one byte; `decode_ber` gives itself one level more than there
-- are bytes left, and each level of a filter takes at least two. The parser of filters has one level
-- more than there are characters, each level and each item of a list taking at least one; its result
-- tells whether the fuel ran out. The search
-- for classes has a round for each name given and for each superior of a class in the index, since a
-- class is taken once. The loader of a schema has one round more than there are characters. The
-- decimal text of an `int` has ten digits at most.
--
-- Not modelled: the receiving of bytes, the idle timeout, and what other sessions do between the calls
-- of the store in one handler, since these are threads and sockets; the mechanisms of SASL and GSSAPI,
-- which a session takes by their interface; LDIF; the SQLite store, which is SQL run by a library;
-- the listing and opening of files; TLS, logging and the command line tools.

pub mod Prelude
pub mod OrderedMap
pub mod Dn
pub mod Directory
pub mod Modify
pub mod Filter
pub mod Backend
pub mod Memory
pub mod Ber
pub mod Text
pub mod Acl
pub mod Password
pub mod Config
pub mod Bind
pub mod RateLimiter
pub mod Message
pub mod Schema
pub mod Session
pub mod Tests
