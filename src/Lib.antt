-- ===== src/Lib.antt =====
-- A verification library for a store-and-forward mailer, the Rust workspace under crates/.
--
-- A mailer is a set of identities (an address and a public key). It packs items (messages, files,
-- requests and responses) into TLVs, signs them, and exchanges bundles of them with another
-- system. What goes where is decided by the configuration, the nodelist and the router.
--
-- The parts, and the files that model them:
--
-- - Base: shared names, and lists, options, results and equality tests over the native numbers.
-- - Wire, crates/tith-wire/src/:
--   . Wire/Integer is integer.rs (`encode_u64`, `decode_u64_prefix`, `decode_u64`), Wire/Signed is
--     signed_integer.rs. A u64 or an i64 is a number with its bounds written out; the checked
--     multiplication and addition fail above 2 ^ 64 - 1.
--   . Wire/TypeCode is type_code.rs: the codes that the protocol defines, and the state that
--     follows the codes of a sequence.
--   . Wire/Tlv is tlv.rs (`OwnedTlv`, `TlvHeader`, `parse_sequence`) with `concatenate` of
--     common.rs. A TLV owns its bytes, so a borrowed slice is a list. A usize has 64 bits.
--   . Wire/Stream is `TlvReader` and `TlvValue` of tlv.rs, as crates/tithd/src/server_exchange.rs
--     reads the first TLV. A `Read` is a parameter; Stream/Reading shows what is read of one that
--     delivers its bytes, Stream/Equal compares it with `parse_sequence`.
--   . Wire/Address is address.rs and identity.rs, Wire/Pattern the patterns of address.rs.
--     Wire/Validity has what holds of addresses and identities.
--   . Wire/Types is types.rs, bundle_types.rs and item_types.rs: the codes and which are defined.
--   . Wire/Item has the types of item_format.rs and item_format_impl.rs, Wire/Cursor the `Cursor`
--     over the children of an item, with the errors of error.rs.
--   . Wire/Carrier is item_carrier.rs: requests, responses (`accepted`, `rejected`,
--     `validate_response`) and the request identifier of an item (`set_request_identifier`).
-- - Exchange, crates/tith-exchange/src/: Exchange/Tracker is response.rs (`ResponseTracker`, which
--   matches responses with the requests that wait for one), Exchange/Session is session.rs
--   (`ClientSession`, the phases of one exchange as a client), each with the errors of error.rs.
-- - Config and Nodelist: the data of crates/tith-config/src/lib.rs and of
--   crates/tith-nodelist/src/document.rs that routing reads. Config/Lines has `lines` and
--   `fields`.
-- - Router is crates/tith-router/src/lib.rs (`route_netmail`, `selector_matches`,
--   `failure_policies`).
-- - Schedule is crates/tithd/src/schedule.rs (`Scheduler::poll`, `finished`, `next_wakeup`) with
--   `Schedule` of the configuration.
-- - Store is crates/tith-store/src/lib.rs and outbound.rs: what is committed to be sent, and its
--   state.
--   . Store/Types has the records, Store/Bytes how a record is written and read (`put_u64`,
--     `take_string`), Store/JobCodec `encode_job` and `decode_job`, Store/JobCodes the bytes of
--     its enums, Store/Events the events (`append_event`, `encode_event`, `decode_event`).
--   . Store/Table is the database, the third-party crate redb. A table is a parameter, an instance
--     of `Tables` with the calls that the store makes and laws for what redb documents of them.
--   . Store/Outbound has what each operation does to one job (`claim_job`, `finish_job`,
--     `recover_job`), Outbound/Control the controls (`cancel_update`), Outbound/NewJob the job of
--     a submission (`validate_new_job`, `make_job`), Store/Outbound/Operations the operations of
--     `OutboundStore` on the database. Store/Outbound/Spool is their specification: the same
--     operations on jobs, without bytes. Store/Outbound/Sound says what is true of a sound job,
--     Created, Copies, Changes, Storable and Reported what the operations keep of it; Refines,
--     Controls and Claims relate the two. Outbound/Snapshot is poll_snapshot.rs
--     (`claim_poll_snapshot`).
--   . Store/Inbound is the inbound half: Inbound/Codec the stored form of records, mappings and
--     tokens, Inbound/Steps what is done to a record and Inbound/Operations `InboundStore`
--     (`claim`, `resolve`, `renew`, `refresh_expirations`). `claim` is two transactions, so its
--     error comes with the database that the first one leaves. Inbound/Accept is
--     inbound_accept.rs, inbound_identifier.rs and `encode_duplicate_identity` of
--     duplicate_identity.rs; the hash of an item, of the cryptography, is a parameter. Reading,
--     Resolved, ClaimSteps and Claimed are the lemmas.
--   . Store/KeyPin is key_pin.rs (`KeyPinStore`): KeyPin/Layout and Codec have the stored form,
--     KeyPin/Form which bytes are one, KeyPin/Stored what is read after a pin is stored, Initial and
--     Continuity what holds of the first key and the next.
-- - Ledger is crates/tith-ledger/src/lib.rs, the ledger of the legacy adapter: Ledger/Bytes and
--   Ledger/Codec have the stored forms (`encode`, `decode`, `encode_orphan`, `decode_orphan`),
--   Ledger/Operations the calls of `Ledger` on tables (`stage`, `stage_orphan`, `advance`).
--   Ledger/Book is its specification: a book of records and orphans with the commands that change
--   it. Pieces, RoundTrip, Storable, Refines, Reads and Again relate the two.
-- - The files named Runs run the definitions and apply the theorems at concrete values.
--
-- State and errors. A method on `&mut self` is a function from the state to the result and the
-- state after it, so a state that an error leaves behind is a value too. A `Result` is `Result`,
-- an `Option` is `Option`. `panic` is a value of the error types that the code does not have; it
-- stands where the code would panic. `stuck` stands where a loop on fuel has none left.
--
-- Bounds and fuel. `groups` has 10 slots, MAX_U64_BYTES, as 10 groups of 7 bits hold 64 bits. The
-- loop of `parse_sequence` has the number of bytes as fuel, and each round reads at least two.
-- `decimal` writes up to 21 digits, and a u64 has 20. `allocate` draws as often as its fuel lets
-- it. Reading to the end of a stream has one round more than the stream has bytes, and `patience`
-- bounds how often a read may be interrupted.
--
-- A time is a number of seconds; the operations of u64 on it saturate or wrap where the code's do.
--
-- An operation of the store is one transaction: a function from the database to a result and the
-- database after it; an error leaves the database as it was, since it is not committed. The token
-- of a claim and the identifiers of records, which the code draws from the random source of the
-- system, are arguments.
--
-- A `BTreeMap` is the list of its entries in the order of the keys. The key resolver, a trait
-- object, is a function, and a parameter of the router.
--
-- Not modelled: cryptography (foreign functions of a vendored library), files, sockets, threads
-- and processes, the texts of errors, errors of the database itself, allocation that fails, and
-- what reads configuration and nodelist files. The bodies of items, bundles, and `commit_batch` of
-- the store have no model here.
pub mod Base
pub mod Wire
pub mod Exchange
pub mod Config
pub mod Nodelist
pub mod Router
pub mod Schedule
pub mod Store
pub mod Ledger
