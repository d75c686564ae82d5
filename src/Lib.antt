-- ===== src/Lib.antt =====
-- fnd: the node of a name-addressed social network. Each Handshake name has a blob of 4096 sectors,
-- whose owner signs its tip hash; nodes announce updates to each other, queue them, fetch the new
-- sectors from their peers, check them against the signed tip, and store them.
--
-- This library models the core of that path. A name's update is announced to UpdateQueue.Enqueue,
-- which checks it against the store and queues it; a worker takes it with Dequeue and calls
-- UpdateBlob, which plans what to fetch from the stored header, takes the name's lock, opens the
-- blob from the pool, syncs the sectors in a transaction, rehashes the blob, and stores the new
-- header or rolls back. A response that conflicts with the stored hash chain bans the name, and the
-- proof is told to the peers; the sector server answers requests for blobs and takes such proofs.
--
-- Base and its children: lists, Go's map, byte strings, errors as values, Boolean tests.
-- Util/MultiLocker: util/multi_locker.go. Each method is one step, because it holds the mutex; the
-- child Invariant has the reference lock, and Schedule the interleavings of goroutines. Util/Cache:
-- util/cache.go. Blob/Io, Blob/Hash, Blob/Transaction, Blob/Pool: blob/io.go, blob/hash.go,
-- blob/transaction.go with the callbacks of blob/blob.go, and blob/pool.go. A file is its content.
-- Crypto: crypto/hash.go and crypto/signature.go. Store: the package store over leveldb. Types has
-- its records; Interface the reads and writes that the protocol asks of it, and Database fills that
-- interface; Keys, Ints and Json have the keys and the encodings; Leveldb has what is asked of
-- goleveldb, with its laws on a disk that does not fail, and Views what follows from them key by
-- key; Transactions and Commits are store/store.go; Headers, Names, Peers and Moderation are the
-- files of these names (naming.go, and equivocation_proof.go beside moderation.go), and Truncation
-- the loops that empty them. P2p/Muxer: p2p/peer_muxer.go, with Removal, Tally, Invariant and Runs.
-- P2p/Manager: p2p/peer_manager.go, where AcceptPeer and DialPeer are each cut in two steps at the
-- network, so that other steps come between them. Util/Sampler: util/sampler.go.
-- Protocol/NameImporter: doSync and what it calls of protocol/name_importer.go, with Termination,
-- Progress and Heights. Protocol/BanLists: protocol/ban_list.go and protocol/moderation.go.
-- P2p/Seeds: p2p/seeds.go. Protocol/Epoch, Protocol/PeerSet, Protocol/UpdateQueue,
-- Protocol/Updater, Protocol/SectorServer, Protocol/UpdateServer and Protocol/Syncer: the files of
-- the same names under protocol/. Protocol/Validate: the signature check of protocol/syncer.go with
-- blob/seal.go. Wire/Fields, Wire/Message and Wire/Envelope: the package wire, whose fields are
-- encoded by dwire. Tests: runs at concrete inputs.
--
-- A method of the source is a function of the same name in snake_case, on the record of the
-- object's state. An error result is an Outcome, whose third case is a panic; where a call changes
-- state on an error path too, the function gives the new state and the outcome. Numbers of type
-- uint16 wrap where the code adds to them; the counters of locks and pools are int64 and int and
-- are taken not to overflow. Offsets are not negative. Seconds() of a time difference is a float64
-- in the source and is read as exact. Two functions take fuel. `iterate`, which calls an iterator
-- until it ends, is given one more than the number of ids. The loop of `do_sync` is given more than
-- the chain has blocks; each turn passes one block at least if there are workers.
--
-- Code outside the repository's own packages is a parameter: blake2b, the field encodings of dwire,
-- secp256k1, HashName and ValidateName, goleveldb, the text format of encoding/json, the getter of
-- the pool, the Handshake client, name lookups, the lists fetched over HTTP and rand.Intn. Not
-- modelled: sockets, timers, the RPC server, the syncer of names, and the command line.
pub mod Base
pub mod Util
pub mod Blob
pub mod Crypto
pub mod Store
pub mod P2p
pub mod Protocol
pub mod Wire
pub mod Tests
