-- ===== src/Lib.antt =====
-- PrivateMesh: a self-hosted search system of search nodes, which keep a shard of documents
-- each, and of coordinators, which register the nodes and fan queries out to them.
--
-- The parts that are modelled, and their files:
-- - Document: Document of internal/search/index.go, and Mutation, Upsert and Delete of
--   internal/segment/codec.go.
-- - Wal: internal/wal/log.go, the write-ahead log of a search node. Wal/Record has
--   encodeMutation, encodeCommit and decodeRecord; Wal/Frame the headers of the file and of a
--   record; Wal/Scan the loop of scanLog; Wal/Disk the calls of the operating system;
--   Wal/Writer appendRecord, initialize and rewrite; Wal/Log the methods of Log. Their children
--   hold the proofs; Wal/Log/Spec has the abstract log, a list of appends and commits, that the
--   methods are shown to implement.
-- - Election: internal/replication/election.go, the leadership leases with fencing terms.
-- - Replication: internal/replication/protocol.go, quorum writes and catching up over replicas
--   of any kind, under the leadership of Election.
-- - Registry: internal/registry/registry.go, the active search nodes and their leases. Its map
--   of registrations is Map of Text/Maps, its sets of strings are the ascending lists of
--   Text/Sets.
-- - Authorization: internal/authorization. Authorization/Policy has rules, policies and the
--   store in memory, Authorization/Enforcer Authorize and Filter over any store and any audit
--   sink, with HMAC as a parameter.
-- - Segment: internal/segment. Segment/Codec has the segment file of codec.go, its Write and
--   Read children with the two directions, Segment/Directory the calls on the directory,
--   Segment/Store the methods of Store of store.go; Segment/Store/Steps and
--   Segment/Store/Compacting are about Compact. SHA-256 and the tokenizer are parameters.
-- - Search: internal/search/index.go and Search of ranking.go. Search/Index has the methods of
--   Index, Search/Ranking the query; Search/Described says what the fields are in terms of the
--   documents. The tokenizer and the scores are parameters.
-- - Engine: internal/searchnode/engine.go, the collection engine over the log, the index and
--   the enforcer of the parts above. Engine/Interfaces has the embedder, the vector index and
--   the other functions that it takes as parameters, Engine/Query has Search and Get.
-- - Identity: internal/identity/token.go, the tokens of principals: Verify, Sign and their
--   constructors. Identity/Valid says what Verify accepts without its checks. Base64, JSON and
--   the signatures are parameters.
-- - Service: internal/searchnode/service.go, the requests to the engine of a search node.
--   Service/Handlers has the four handlers, Service/Writes and Service/Reads what they let a
--   principal do; the bearer token is taken in Identity/Bearer. Rpc has the status codes of
--   both services.
-- - Distributed: internal/distributed/executor.go. Distributed/Merge has mergeState and its
--   methods, Distributed/Execute the query, whose goroutine takes a sequence of events: answers
--   of nodes and the end of its context. Loop, Coverage, Completing and Answers show that it
--   ends and what its last update says.
-- - ControlPlane: internal/controlplane/service.go, the requests of search nodes to the
--   registry and the codes of their errors.
-- - Planner: internal/planner/planner.go, the choice of a retrieval strategy. Planner has the
--   tracker of observations, Planner/Features and Planner/Select the query and the choice;
--   Planner/Window shows what the tracker keeps, Planner/Choice what is chosen, by the order of
--   Planner/Order and the sorting of Planner/Sorting.
-- - Coordinator: internal/coordinator/api.go, the requests of browsers over the registry and
--   the executor of the parts above. Coordinator/Handlers has the handlers,
--   Coordinator/Prepared, Coordinator/Covers and Coordinator/Coverage what a search answers,
--   Coordinator/Owner where the requests for a document go.
-- Prelude, Text and Binary hold what the parts share: lists and numbers, Go strings, and the
-- integer encodings and the checksum of Go's standard library.
--
-- Conventions. A Go string is the list of its bytes. A method is a function of the fields of
-- its receiver, which a mutex makes one step, and a history is a list of steps. A clock reading
-- is an argument, a natural number, with the zero time 0. An error is a value of the
-- component's error type, without its message. A call of the operating system may fail at any
-- time, a write after any of its bytes: the list of its faults is part of the disk. What was in
-- the file at the last successful sync is kept apart, as what a crash cannot take away. A
-- canceled context is a list of the answers of ctx.Err(). The loop of scanLog runs on fuel, one
-- round more than there are bytes left, which is enough because each round takes a byte at
-- least.
--
-- Not modelled: the floating-point scores of a search, the rank fusion and the snippet of a
-- hit, the vector index, the planner's evaluation, the fetching of keys over the network, and
-- the process wiring, the network and the generated code.
pub mod Prelude
pub mod Text
pub mod Binary
pub mod Document
pub mod Wal
pub mod Election
pub mod Registry
pub mod Authorization
pub mod Replication
pub mod Segment
pub mod Search
pub mod Engine
pub mod Identity
pub mod Rpc
pub mod ControlPlane
pub mod Service
pub mod Planner
pub mod Coordinator
pub mod Distributed
