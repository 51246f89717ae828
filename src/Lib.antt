-- ===== src/Lib.antt =====
-- Verification of blobs.db, a database server that stores blobs in clusters, clusters in segments, and
-- serves transactions of many clients with locks, and of its client library.
--
-- The parts of the program and the files that model them:
--
-- Config: the special ids and limits of ClientLib/include/blobs/Config.hpp, as constants.
--
-- BlobLocation: Network/common/BlobLocation.cpp, a triple of ids with its comparison operators. An id
-- is a number; where the source adds to a `uint32_t`, the model adds modulo 2 ^ 32.
--
-- Lock: ServerLib/Lock.cpp, one lock with its readers and its writer: CanAcquire,
-- CollectConflictingClients, Acquire, Release. Whether a client is outside a transaction, so that its
-- locks are sticky and can be revoked, is the parameter `can_revoke`; the revocations that Acquire asks
-- for are returned as a list.
--
-- LockUtil: ServerLib/include/server/LockUtil.hpp, the locations that a request has to lock. The
-- captured variables of a lambda are a state that the predicate passes on. What it reads of the
-- database is the interface Directory, which Snapshot.directory fills.
--
-- LockTable: the locks of a database in ServerLib/Database.cpp (AcquireLocks, AcquireClientLock,
-- AcquireImplicitWriteLocks, ReleaseLock, ReleaseLocks), a list of locks that is searched by location.
--
-- ReadQueue: the reads that wait for locks in ServerLib/Database.cpp (QueueReadCheckDeadlock with
-- CollectLockConflicts and FindLockConflictWith, AbortClientTransaction, CheckForLockTimeouts). The
-- clock is a number of milliseconds.
--
-- FreeList: the class FreeList of ServerLib/Database.cpp, which hands out the blocks of the file. Each
-- block of a commit enters with the size that CalculateRequiredSize answers for it, in the order in
-- which the loop over the set of blocks meets it. `std::sort` is the parameter Sort: it gives some
-- permutation in ascending order of the offsets.
--
-- BlockTable: the layout of a snapshot, a segment and a cluster in the file, whose code is the same in
-- ServerLib/Database.cpp, ServerLib/Segment.cpp and ServerLib/Cluster.cpp (CalculateRequiredSize,
-- SerializeIntoBuffer, LoadFrom). A buffer is the list of the range headers and block references that
-- it holds, each with its size in bytes.
--
-- IdRanges: intoIdRanges of ServerLib/Server.cpp.
--
-- Snapshot: the lookups of a snapshot, a segment and a cluster, as values. A segment, a cluster or a
-- blob stands with the content that it has once it is loaded. A flat map is the list of its entries,
-- and the binary search in it the first entry with the key.
--
-- BlobLocationRanges: ServerLib/BlobLocationRanges.cpp, the bookkeeping of what a commit creates. What
-- it reads of the database is the interface Blobs, which Snapshot.blob_lookup fills.
--
-- Commit: ValidateCommitMessages of ServerLib/Server.cpp, in Commit the checks of one update, in
-- Commit.Databases the loops around them and the locks that the client gets.
--
-- Reads: EnsureRequestedBlobsExist and TryHandleBlobsRead of ServerLib/Server.cpp: the checks of a
-- request to read or to delete, and how it is handled.
--
-- ClientLocks: Client::DatabaseLocks of ServerLib/Client.cpp, the server's list of one client's locks
-- in one database with the revocations that the client is not told of yet, and the operations of Client
-- on it (AcquireLocks, AcquireImplicitWriteLocks, ReleaseDeletedLocks, ReleaseAllLocksForDatabase,
-- RevokeStickyLock, ConstructTransactionBeginResponse). They take the entry of the list and the lock
-- table of its database, and give both back.
--
-- HeldLocks: ClientLib/HeldLocks.cpp, the same locks as the client library keeps them.
--
-- Mvcc: BeginMVCC and EndMVCC of ServerLib/Database.cpp, the counted MVCC snapshot of a database.
--
-- Client: the rest of ServerLib/Client.cpp: the databases that a client has open (OpenDatabase,
-- CloseDatabase, GetDatabase, LookupDatabase) and its transaction (BeginTransaction, AbortTransaction).
-- What these change in the databases is a store, a function from the number of a database.
--
-- FlatMap: ServerLib/include/server/sorted_flat_map.hpp.
--
-- Versions: the objects of a snapshot with their commit ids, and the copies and changes of a commit
-- (UpdateSegment, UpdateCluster, UpdateBlob, the deletions) of ServerLib/Database.cpp,
-- ServerLib/Segment.cpp and ServerLib/Cluster.cpp. A shared pointer is the value that it points to: an
-- object is changed in place only if its commit id is the one of the commit, and then the commit has
-- made it, so that no other snapshot has it. All objects are loaded.
--
-- ApplyCommit: ApplyCommitMessage and CalculateCommitResult of ServerLib/Database.cpp, as far as the
-- snapshot and the list of deletions go, and ServerLib/Deleted.cpp.
--
-- ReadResponse: BuildAndSendBlobsReadResponse of ServerLib/Server.cpp with its handlers, and the
-- messages into which it splits the response.
--
-- Scheduler: the sorted list of tasks of ServerLib/Scheduler.cpp, RunAt and the inner loop of the
-- scheduler's thread; the readings of the clock are a parameter.
--
-- StdSet: `std::set` and `std::map`, as the client library uses them, as lists in the order of their
-- keys. The order is an instance, the operator< of the key. Outcome: what a call of the client library
-- comes to, with the exceptions of ClientLib/include/blobs/Exception.hpp.
--
-- Transaction: ClientLib/Transaction.cpp. Transaction has what a transaction keeps of one database (the
-- class DatabaseState) and the operations on it, Transaction.Operations the operations as values and
-- what they mean for a blob, Transaction.IdLists the lists of ids with the changes of the transaction
-- (MergeBlobIdList, MergeClusterIdList, MergeSegmentIdList), Transaction.Messages the commit messages
-- (GetSortedWritesToTransmit, ConstructCommitMessages).
--
-- BlobCache: the class of this name of ClientLib/Database.cpp, the cache of blobs of a database.
--
-- ClientDatabase: ClientLib/Database.cpp, the begin of a transaction with its sticky locks
-- (GetTransaction), ReadBlobInternal and WriteBlobInternal; ClientDatabase.Creations, Deletions and Lists
-- have the operations of these names, ClientDatabase.Committing has Commit of ClientLib/Transaction.cpp.
-- The answers of the server are a parameter, the record Server, and a session has one database.
--
-- A handler of a read calls LockTable.acquire_locks by ClientLocks, and ReadQueue if that fails, else
-- ReadResponse; a commit is validated by Commit, which asks LockTable who owns a lock and
-- BlobLocationRanges what is created, then ApplyCommit makes the new snapshot, FreeList and BlockTable
-- write it, LockTable acquires the implicit locks and ClientLocks releases those of what is deleted.
-- What ApplyCommit gets are the messages that Transaction.Messages makes; HeldLocks has the locks of a
-- Transaction, and those that ClientDatabase keeps between two of them.
--
-- Every loop goes through a list, or a counted range of ids, but for the outer loops of ReadResponse and
-- of Transaction.Messages, which have a number of turns; one for each blob is enough, as the theorems on
-- them show. An assertion of LockUtil.hpp, of ReleaseLock, of LoadFrom, of Client.cpp or of
-- ConstructCommitMessages that fails is the result `none`, one of the rest of the client library is the
-- outcome `assertion_failed`; the other assertions are not modelled, so also not the one of
-- AssignStickyLocks of ClientLib/Database.cpp.
--
-- Not modelled: the blocks that a commit allocates and releases (MemoryBlockDelta), loading of objects
-- that are not in memory yet, the handlers of messages, what becomes of a database that no client uses,
-- the threads of the scheduler, files, sockets, configuration, logging and the test programs; of the
-- client library dirty reads and requests for several blobs, opening and closing, and sessions with more
-- than one database.
pub mod Base
pub mod Config
pub mod BlobLocation
pub mod Lock
pub mod FreeList
pub mod IdRanges
pub mod BlockTable
pub mod LockUtil
pub mod LockTable
pub mod BlobLocationRanges
pub mod ReadQueue
pub mod Reads
pub mod ClientLocks
pub mod HeldLocks
pub mod Mvcc
pub mod Client
pub mod FlatMap
pub mod StdSet
pub mod Outcome
pub mod Transaction
pub mod BlobCache
pub mod ClientDatabase
pub mod Versions
pub mod ApplyCommit
pub mod ReadResponse
pub mod Scheduler
pub mod Snapshot
pub mod Commit
pub mod Tests
