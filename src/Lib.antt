-- ===== src/Lib.antt =====
-- Couchbase Lite Core keeps JSON documents, their revision trees and the state of their replication.
--
-- The parts and the files that model them:
-- - LiteCore/RevTrees/RevTree.cc and .hh: the tree of a document's revisions. RevTree.antt has the
--   records Rev and RevTree and the lookups; RevTree/Insert.antt has keepBody, _insert, insert and
--   insertHistory; RevTree/Order.antt has sort, hasConflict, the remotes and saved;
--   RevTree/Remove.antt has the bodies' removal, compact, purge, purgeAll and prune. A `const Rev*`
--   is an address in an explicit heap (the deque `_revsStorage`), and the vector `_revs` is a list of
--   addresses, so that what one revision's change does to those that point at it is as in the code.
--   The other files of RevTree/ prove: WellFormed the invariant, Shape, Children and Lookup what it
--   depends on, Added and Inserted one insertion, InsertChecked, InsertMembers and InsertTotal
--   `insert`, Walks the walks' termination, History the walk to the root, InsertHistory and
--   HistoryResult `insertHistory`, Purging, PurgeLoop and PurgeResult `purge`.
-- - LiteCore/RevTrees/RawRevTree.cc and .hh: the stored form of a tree. RawRevTree.antt, with
--   RevTree's encode and decode; beside it Bytes is about numbers and flags in bytes, Places about
--   the parents' indexes, Stored about one record, RoundTrip about the records and the remotes,
--   Whole about a tree. The fuel of the loops is the number of bytes, of which each record takes one
--   at least.
-- - LiteCore/RevTrees/RevID.cc and .hh: the binary form of a revision's ID. RevId.antt; the text form
--   and its parser are in RevId/Text.antt, with RevId/Digits.antt, RevId/Hex.antt and
--   RevId/RoundTrip.antt on the generation, the digest and the whole.
-- - LiteCore/Support/EncryptedStream.cc and .hh, over LiteCore/BlobStore/Stream.cc: the encrypted
--   streams. EncryptedStream.antt has the writer and EncryptedStream/Reader.antt the reader; Blocks
--   describes the file by its text, Writing relates the writer to it, Sealed finds its blocks, Reading
--   decrypts one, Parts, BlockLoop and Sequential are about `read`, Seeking about `seek`, RoundTrip
--   about both streams. The file is a list of bytes. The loop of `write` has the number of bytes for
--   fuel, that of `read` the number of blocks.
-- - LiteCore/Support/SequenceSet.hh: the sequences being pushed. SequenceSet.antt, with
--   SequenceSet/Invariant.antt and SequenceSet/Contract.antt.
-- - LiteCore/Support/RemoteSequenceSet.hh: the sequences being pulled. RemoteSequenceSet.antt; beside
--   it Queue is its contract, Entries is about the map, FindFirst about the search for the earliest,
--   Refinement and Runs relate the set to the queue.
-- - LiteCore/Database/SequenceTracker.cc and .hh: who has seen which changes. SequenceTracker.antt has
--   the list of entries, its cleaning and the loop that reads it; SequenceTracker/Placeholders.antt the
--   observers' places, Documents the changes of a document, Transactions the rest; Pending and Reading
--   are about what is pending for an observer. A callback is recorded as a notice; what a client does in
--   it is a call after it. An iterator is named by its document or its observer.
-- - Replicator/Checkpoint.cc and .hh: the replicator's checkpoint and its autosave. Checkpoint.antt has
--   the operations; Checkpoint/Autosave.antt is the step relation of the threads that share it, each
--   locked part one step; AutosaveSafe and AutosaveReach beside it have the invariant and what
--   follows from it. The timer is a flag, whether it is scheduled.
-- - Replicator/CookieStore.cc and .hh, with Replicator/Address.cc: the cookies of a replication.
--   CookieStore.antt has the cookies, the tests of addresses and the store; CookieStore/Header.antt the
--   parser of Set-Cookie, Saved the stored form, Time the signed numbers; Matching is about the store
--   as a map from identities, SavedBack and Changes about the stored form. Each call holds the mutex,
--   and is one step.
-- RevTree reads generations and compares IDs through RevID.
--
-- Code that is not in the repository: Fleece.antt is the interface to vendor/fleece (varints, the
-- search for a byte and the order of slices), with the laws that its documentation states;
-- Fleece/Sample.antt is one such implementation, on which the tests run. EncryptedStream/Aes.antt is
-- the platform's AES-256, EncryptedStream/Sample.antt one that hides nothing, for the tests. Json in
-- Checkpoint.antt is what the checkpoint calls of its JSON encoder and decoder. Strings in
-- CookieStore.antt, Parsers in CookieStore/Header.antt and Values in CookieStore/Saved.antt are what
-- the cookies call of the C and C++ libraries and of vendor/fleece.
--
-- Prelude.antt has the shared types, tests and lemmas: Slice is a list of bytes and Result is a value
-- or an exception.
--
-- Fuel: the walks along parents (history, keepBody, markBranchAsConflict, purge, prune) recurse on
-- fuel and throw out_of_fuel without it. In a well-formed tree a parent has a lower generation than
-- its child, so fuel above every generation is enough (RevTree/Walks.antt); the loops over a vector
-- recurse on it. Generations are cut to 32 bits where the code does so.
--
-- Not modelled: the alignment and ownership of bodies, the debugging output, and the parts that are
-- calls of SQLite, sockets, the file system or the platform (the storage engine, the query functions,
-- the replicator's messages, REST, the C API and the Java bindings). Documents
-- (VersionedDocument.cc) are not modelled either.
pub mod Prelude
pub mod Fleece
pub mod RevId
pub mod RevTree
pub mod SequenceSet
pub mod RemoteSequenceSet
pub mod Checkpoint
pub mod CookieStore
pub mod EncryptedStream
pub mod RawRevTree
pub mod SequenceTracker
pub mod Record
pub mod KeyStore
pub mod VersionedDocument
