-- ===== src/Lib.antt =====
-- The parts of sutegi, a web framework of small crates without dependencies, that carry its own
-- logic, modelled as functions and step relations, with what makes them correct.
--
-- A request reaches the HTTP parser, which reads it off the connection within its limits; the web
-- service dispatches it: probes, the guard of the operational surface, middleware, the route table. An
-- upgraded connection belongs to a shard of the WebSocket reactor, once admission has counted it; the
-- shard decodes its frames, hands messages to the application and writes what the application sends.
-- Tokens and keys are compared and transported by the encodings of the crypto crate, whose hashes sign
-- them: a session is a JSON object in a cookie signed with HMAC, and the PostgreSQL client answers a
-- server's challenge with the same hash. Messages between parts pass through the broker. Background work
-- runs in actors under a supervisor. Files are kept under keys that storage validates first.
--
-- Which file models what:
-- - Http, Http/Parse: crates/sutegi-http/src/lib.rs. `parse_request_impl` is `parse_request`, with
--   `read_line_capped`, the header loop as `header_loop` (one line is `header_line`) and the body loop
--   as `body_loop`. The peer is the list of what `fill_buf` and `read` answer, each chunk with whether
--   the deadline has passed when it is used up. Http/Parse/Lines, Headers and Framing hold the proofs.
-- - Web/Router: crates/sutegi-web/src/lib.rs, `compile_pattern`, `split_segments`, `match_segs`,
--   `join_prefix`. Web/Router/Matching describes a pattern by a relation.
-- - Web/Service: the same file, the closure that `into_service` builds: `dispatch` is its inner
--   closure, `service` the whole with the after-middleware and the counters. The application's closures
--   are functions of the request, and a list of calls says which of them ran.
-- - Web/Form: the same file, `url_decode` and `parse_urlencoded`; Web/Form/Escapes describes the texts that
--   stand for given bytes.
-- - Storage: crates/sutegi-storage/src/lib.rs, `validate_key`.
-- - Ws/Protocol, Ws/Close: crates/sutegi-ws/src/protocol.rs, one definition for each function, the long
--   `decode_frame` cut into its header, length and payload parts.
-- - Ws/Conn, Ws/Conn/Receive: crates/sutegi-ws/src/reactor.rs, one connection of a shard:
--   `handle_readable`, `parse_frames`, `handle_frame`, `deliver`, `begin_close`, `enqueue`, `flush_out`,
--   `remove`, `tick`. `World` is the slot of the slab with what leaves it. Ws/Conn/Reachable has every
--   order of the calls as a step relation.
-- - Ws/Admission: the same file, `Admission`. Ws/Admission/Interleaving splits `reserve` and `release`
--   into their atomic operations, which threads interleave.
-- - Actors/Supervisor: crates/sutegi-actors/src/supervisor.rs, the loop of `run_supervisor` as a
--   function of the messages that arrive; Generations is about late exits, Restarts about the strategies.
-- - Crypto: crates/sutegi-crypto/src/lib.rs, `hex`, `from_hex`, `base64_encode`, `base64_decode`,
--   `constant_time_eq`.
-- - Crypto/Sha256: the same file, `Sha256` with `update` and `finalize`; Blocks and Streaming prove them against
--   the padded message, Keyed has `hmac_sha256`, `pbkdf2_hmac_sha256` and `hkdf_sha256`, Derive the lengths that
--   the last one gives. Crypto/Legacy has `sha1` and `md5`.
-- - Json, Json/Parse: crates/sutegi-json/src/lib.rs, the value type with the compact writer, and the parser:
--   `value` stands for `Parser::value`, `elements` and `pairs` for the loops of `array` and `object`. Strings,
--   Numbers, Steps and RoundTrip read back what is written; Tokens, Taken and Termination bound what each
--   function takes; Order is about the keys of an object.
-- - Http/Cookie: `Request::cookie`.
-- - Session: crates/sutegi-session/src/lib.rs, over the three above: `token`, `verify_token`, `load`,
--   `cookie_for`, `csrf`.
-- - Pubsub: crates/sutegi-pubsub/src/lib.rs, the in-process broker; Pubsub/Delivery has the histories.
-- - Channels: crates/sutegi-channels/src/presence.rs, the difference of two states of presence; Channels/Balance counts
--   the metas of each key.
-- - Pg: crates/sutegi-pg/src/protocol.rs, `recv`, `frame`, `pick_statement`; Pg/Scram has `Scram`, Pg/Auth
--   `authenticate` with the stream of the server as a list of bytes.
-- - Orm: crates/sutegi-orm/src, the query builders of builder.rs: Ident, Path, Predicates, Builder (Setters are its
--   methods, Render its text), Update, Delete. Marks counts placeholders and says what a clean text is, Kept is the invariant of a builder.
-- - Orm/Schema: the tables of value.rs and the plans of schema_diff.rs: Ops (a change, its risk, its inverse), Diff
--   (`diff`, `diff_table`), Apply (`apply`, `apply_all`); the equality of two default values is a parameter. Keyed is
--   about lists searched by name, Columns to Table follow one table through its changes, Tables to Wanted the whole set;
--   Renaming and Undo are about inverses.
-- - Base: what the others share: tests and case rules, lists measured by native numbers, bit operations
--   as arithmetic, byte strings.
-- The modules named Examples run the definitions and apply the theorems at concrete inputs.
--
-- Texts are lists of bytes or of code points, numbers are natural with the wrap-around of a word
-- written out where the code's own arithmetic can reach it. The target is 64-bit and little-endian.
--
-- Bounds and fuel: the header loop runs on fuel of one more than the header budget, and every round
-- takes a byte of that budget at least. `parse_loop` counts down the code's own limit of 256 frames in
-- one wake. The JSON parser runs on twice the length of the
-- input and one more, each call taking a unit; the loop of `hkdf_sha256` on 256, one more than the blocks that are
-- allowed; the padding of a hash on 64; `authenticate` on any number above the length of the stream, since a message
-- takes five bytes at least. All other loops recurse on their input; `flush_loop` and the read loops recurse on the
-- script of the system's answers, and where a script ends the socket is one that would block, and a
-- request's connection one that ended.
--
-- Taken as parameters: UTF-8 validation and repair (`std::str::from_utf8`, `String::from_utf8_lossy`), the access log, for which requests a handler panics, the text of the
-- metrics, the introspection document, the random bytes of a nonce and of a CSRF token, and what std does with an
-- `f64`: whether it is finite, how it is printed and read. Where a theorem needs a fact about UTF-8 it is a hypothesis.
--
-- Not modelled: sockets, threads, epoll and timers as such; the slab's tokens and generations and
-- the inbox of a shard; writing HTTP responses, streaming and keep-alive; multipart bodies; the
-- storage backends; the ciphers; joining a channel and the exchange of presence between hosts; the pretty printer and the conversions of JSON; the queries of the
-- PostgreSQL client; the queue, mail; migrations, the SQL of a change and the backends of the ORM; the macros and the command line.
pub mod Actors
pub mod Base
pub mod Channels
pub mod Crypto
pub mod Http
pub mod Json
pub mod Orm
pub mod Pg
pub mod Pubsub
pub mod Session
pub mod Storage
pub mod Web
pub mod Ws
