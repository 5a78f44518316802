-- ===== src/Lib.antt =====
-- ShardZero, a replicated key-value store in Go: the state machine, its event buffer, the Raft node
-- that replicates it, its write-ahead log, the store of a single node, the answers of the HTTP API
-- to requests, the client of a cluster, and the simulator. A client's command is proposed to a
-- leader (`Submit`), stored in the leader's log, sent to the followers (`AppendEntries`), committed
-- on a quorum, and then applied to the state machine of every node; a snapshot of the machine
-- replaces the committed prefix. Before that, a node is elected: its clock makes it ask the others
-- for their votes (`RequestVote`), and a majority makes it the leader.
--
-- Files:
--   Prelude, Prelude/*       Go's comparisons, lists, strings as bytes, maps as association lists
--   StateMachine             internal/statemachine/machine.go: Validate, check, Apply, Get, Snapshot,
--                            Restore; Checks (the cases of check), Retries (sessions), Semantics (a
--                            specification on partial functions), Invariant, Snapshots
--   Events, Events/History   internal/events/events.go
--   Database                 internal/database/database.go: one machine over a log of commands;
--                            Durability (what Execute acknowledges)
--   Api                      internal/api/http.go: the answers to errors; Handlers (reads and writes,
--                            Handler, AdminHandler), Admission (who may pause a node), Serving (a GET
--                            after a PUT), Cluster (ClusterHandler), Committing (what its 200 stands
--                            for)
--   ClusterClient            internal/cluster/client.go: New, add, addresses, Do, discover; Addresses
--                            (the list that is kept), Starting (New), Retries (what Do does and returns),
--                            Reaching (a live server is found)
--   Simulation               internal/simulation/simulation.go: Default, Validate, Minimize;
--                            Sorting and Minimal (what Minimize sorts and leaves), Integers (int and
--                            int64); Checker (check, converged), Checker/Remembering and
--                            Checker/Consistent (what checks that pass say), Checker/Clock; Schedule
--                            (the queue); Runner (its state), with Runner/Places (start, fault, the
--                            recovery of all), Runner/Clients (try, collect, the clock) and
--                            Runner/Network (drain, send), whose children Fine, Reviving, Asking and
--                            Carrying say what they keep; Run (the loop and the result), Run/Soundness, Run/Accounts, Run/Convergence
--   Storage                  internal/storage: Disk (the calls of the system), Frames (the bytes of a
--                            record), Wal (OpenJournal, Append, Replace, Close); Wal/Scanning and
--                            Wal/Opening (any file), Wal/Reading and Wal/Reopening (a disk that does
--                            not fail), Wal/Appending, Wal/Compacting, Wal/Locking, Wal/Ending
--   Raft/Types               internal/raft/types.go and the records of store.go
--   Raft/Store               internal/raft/store.go: Validation (validate), Journal (the journal
--                            interface), Shape (the shape of a log), Accept, Durability (save),
--                            Recovery (openStoreUsing), Compaction (checkpoint), Recalling and
--                            Reopening (what a journal keeps of the term and the vote)
--   Raft/Node                internal/raft/node.go: the state of a node and the helpers of a handler
--   Raft/Replication         prepareAppendLocked, queueAppendLocked, kickLocked
--   Raft/Commit              advanceCommitLocked, applyLocked, maybeSnapshotLocked; Replay (the
--                            machine that a log stands for), Holding and Quorum (what a leader
--                            commits), Compacting (maybeSnapshotLocked), Answers and Applying (whose
--                            answer a waiter gets)
--   Raft/Election            startElectionLocked, becomeLeaderLocked, voteResponseLocked, RequestVote
--   Raft/Rpc                 AppendEntries, acceptAppendLocked, DeliverAppend
--   Raft/Client              Submit, Poll, Cancel, Execute, Get, Tick, SetPaused, Close, Status;
--                            Registering (the waiter of a proposal)
--   Raft/Proposing           Execute, Get and propose, from the call to the return
--   Raft/Inspect             Audit and Inspect, with the hashes as parameters
--   Raft/Open                OpenWithRuntime, with the URL test and the identity hash as parameters;
--                            Beginning and Restoring (the parts), Soundness (the
--                            whole)
--   Raft/Steps               the handlers as a step relation: Safety (what any run of them keeps), Outcomes
--                            (what a ticket gets)
--   Raft/Cluster             nodes that ask each other for votes: Quorums (majorities meet), Ballots
--                            (the votes that were stored), Keeping (the invariant about them),
--                            Voting (every step keeps it), Restarts (a member opens its journal again),
--                            Safety
-- An `Effects` module says what the functions of its parent keep of a node, a `Roles` module what they
-- do to its role and its votes; a `Tests` module applies theorems to concrete inputs.
--
-- A method that changes its receiver returns the new value beside its results. Each handler holds
-- the node's mutex, so it is one step. Errors are values: a data type per package. A byte of a
-- string, a duration and a time are numbers. `x++` on a uint64 wraps around (`inc64`): terms,
-- sequence numbers, the operation count and event numbers. Log indexes are assumed to stay below
-- 2^64. A journal carries a function that says what its n-th write does (stored, failed before it was
-- stored, failed after), so that a theorem over all journals covers every sequence of disk failures.
-- A random number is read from a function of the number of draws so far.
--
-- Fuel: the batching loop of prepareAppendLocked makes at most 32 rounds and has 33 of fuel; a
-- decimal of a uint64 has at most 20 digits; the loop of applyLocked is given the number of its
-- rounds, commit - applied; the loop of OpenJournal has one round more than the file has bytes; the
-- loops of Do and Minimize are given the attempts that are left of 40 and of 100, as in the code, and
-- the loop of the simulator's Run the items that are left of 2,000,000. All other loops are
-- recursion on a list or on a distance.
--
-- An index out of range, which ends a Go process, reads the zero entry past the log and the sentinel
-- below the base, except in prepareAppendLocked, where `panicked` records it, and in Inspect,
-- which then gives no result.
--
-- Not modelled: goroutines, JSON and SHA-256, log lines, the HTTP transport, the
-- decoding of a configuration, the lab and the commands.
pub mod Prelude
pub mod Events
pub mod StateMachine
pub mod Raft
pub mod Database
pub mod Api
pub mod Storage
pub mod Simulation
pub mod ClusterClient
