-- ===== src/Lib.antt =====
-- A verification library for the Python package `mdc` of this repository (mdc/src/mdc): the
-- storage engine below the conversational front ends. Each file models one part of the package
-- and says at its top which code it is about; the statements are at the end of this comment.
--
-- The parts and how they interact. A `StorageBackend` (storage/interface.py) keeps blocks under
-- text ids. `Storage.Interface` states it as a record of operations with a record of laws;
-- `Storage.Memory` is MemoryStorageBackend (storage/memory_store.py), its four dicts kept as
-- association lists in insertion order, with the laws proved in `Storage.Memory.Lawful`. The DNA
-- archive (dna/) is another backend, written on top of a durable one: `Dna.Encoder` maps bytes to
-- bases and back (dna/encoder.py), `Dna.Ecc` is the repetition code with its majority vote
-- (dna/ecc.py), `Dna.Crypto` the sealing of a payload (dna/crypto.py), `Dna.Packed` the stored form
-- of the copies, `Dna.Storage` the backend itself and `Dna.Storage.Rotation` its change of key
-- (dna/storage.py). `Compression` is the registry of compressors (compression/compressor.py),
-- `Strategy` the choice of tier, compression and chunking (storage_intelligence/policy.py,
-- analyzer.py, strategy.py), `Index` the catalog of objects (index/object_index.py) and `Location`
-- the three kinds of block ids, which never meet. `Router` is StorageRouter
-- (storage_intelligence/router.py): its HOT tier is an in-memory store, WARM and COLD are one
-- durable store, and the archive and the index lie on that same store, so that a call on one
-- changes what the others read. `Vocabulary` has the enumerations of
-- storage_intelligence/strategy_types.py and classification/data_type.py, and `Errors` the
-- exceptions, which are values of a result type here. `Security` is beside the storage: the roles
-- and permissions, the accounts and the bearer tokens (security/roles.py, users.py, tokens.py).
-- `Events` is the log of the agents' state (events/): `Events.Sealing` seals a record and binds it to
-- its place (sealing.py), `Events.Codec` writes a change of a JSON object as operations at paths
-- (codec.py), and `Events.Store` is the EventStore (store.py) over any storage backend.
-- `Events.Store.Reading` finds, opens and replays a log, `Events.Store.Listing` lists streams and
-- events, `Events.Store.Requests` judges what a call is given, `Events.Store.Writing` has the
-- methods, with the cache of tails in their state, and `Events.Store.Rotation` the change of key.
-- The abstract view of a stream is a `Log`, a list of changes with the states that they lead to
-- (`Events.Store.Reading.Replayed`), and `HoldsLog` says that a storage holds one.
-- `Clarification` is the question that the conversational front end asks when a word may mean
-- several things, and the reading of its answer (mce/ambiguity.py,
-- mce/confidence.py).
-- `Engine` is MDCDataEngine (engine/, model/record.py, model/operation.py): `Engine.Filters` tests and
-- sorts records, `Engine.Records` writes and finds one, `Engine.Creating` has `create` and
-- `create_many` and `Engine.Calls` the other methods, over the registry of `Schema` and any storage
-- backend, or one that keeps records itself.
-- `Schema` is the registry of collections and its check of records (schema/registry.py).
-- `Dna.Corruption` and `Dna.Research` are the study of damage to stored sequences
-- (dna/corruption.py, and corrupt_and_recover of dna/storage.py). `Prelude` and `Dict` are shared,
-- `Examples` has runs on concrete values.
--
-- Conventions. Bytes are lists of natural numbers; a theorem that needs them below 256 says so.
-- A bit string is a list of Booleans and a base its code point. An operation that changes an object
-- takes the object and returns the new one; one that may raise returns a `Result`. The clock, the
-- random bytes of a nonce, SHA-256, AES-GCM, the compressors, the JSON reader and pydantic's form of
-- an index entry are arguments (`Platform`, `Index.EntryJson`), and what the code relies on is in
-- `IsAuthenticated`, `IsLossless` and `IsFaithful`: a sealed message opens under its key and place,
-- and under no other. A float is a type with the tests that the code makes of it. All loops are
-- structural recursion on a list, on a number of copies or on a length, so no fuel is used. What
-- Python raises after it changed the object leaves the changed object (`Action`). The four
-- bytes of a packed length are written out with their wrap at 256, and a number that does not fit
-- is the error that struct.pack raises. A write or a deletion of a storage backend does not raise
-- here, but for those of `create_many` and of a change of the events' key, which take the outage of
-- the storage as an argument. The theorems of `Engine` on the calls of MDCDataEngine are about a storage that keeps a
-- block for each record. The durable store that several objects share in Python is
-- kept once, in the router, and handed to the archive for the time of a call.
--
-- Not modelled: the HTTP and command line front ends (api/, cli/, app.py), language understanding
-- (nlp/, llm/, conversation/, the rest of mce/), the file readers and writers of portability/, the
-- matrix code on floating point numbers, monitoring/, and the SQL that storage/duckdb_store.py sends;
-- key files (security/keys.py), the language of cql/, the managed databases (databases/) and the
-- reading of times (events/timeparse.py).
pub mod Prelude
pub mod Dict
pub mod Vocabulary
pub mod Errors
pub mod Storage
pub mod Platform
pub mod Dna
pub mod Clarification
pub mod Compression
pub mod Strategy
pub mod Location
pub mod Index
pub mod Router
pub mod Security
pub mod Schema
pub mod Engine
pub mod Events
pub mod Examples
