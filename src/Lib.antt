-- ===== src/Lib.antt =====
-- A model of the core of UFlow, a daemon that moves data between hosts, devices and a simulator.
--
-- Providers hold resources and carry out operations on them; the daemon registers them under their ids.
-- A provider that is a simulator is reached over a bridge, by frames on a byte stream. Copies to and from
-- devices go through a pool of pinned transfer lanes, which the daemon's threads lease under one lock.
-- The broker of shared DDR memory writes what it is about to do, and has done, to an append log, whose events
-- are replayed to find what is still held by whom after a crash.
--
-- Files:
--  Prelude    what the parts share: Boolean tests, lists, results, words, text as UTF-8, and maps
--  Bridge     crates/uf-core/src/bridge.rs. Wire: numbers and the checksum; Frame: `BridgeFrame`, `validate`;
--             Codec: `encode`, `decode`; Stream: `write_to`, `read_from`; Replay: `ReplayCache`
--  Provider   crates/uf-core/src/provider.rs (Types, Operation, Completion) and
--             crates/uf-daemon/src/providers/registry.rs (Registry, Lookup)
--  Mock       crates/uf-daemon/src/providers/mock.rs. State: `MockState`; Execute: `execute`, a handler to a
--             definition; Submit: the `DataProvider` operations; Runs: sequences of submissions
--  Channel    crates/uf-daemon/src/transfer_channel.rs. State: `ManagerState` and the configuration; Reap:
--             `reap_*`; Acquire: `acquire`, `release`; Stats: `stats`; WithLane: `with_lane`
--             among the calls of others; Pool: runs of several clients
--  Recovery   crates/uf-daemon/src/ddr_recovery_audit.rs in Audit. Types: identities and events; State:
--             `AuditReplay`; Backings, Views, Works: the arms of `apply`, one to a definition; Apply: `apply`;
--             Moves: the life cycles as a step relation; Guards: the events as a transition
--             system.
--             crates/uf-daemon/src/ddr_recovery_journal.rs in Journal. Checksum: `crc64`; Frame: `Kind`,
--             `Frame`; Scan: the loop of `parse_frames`; Head: `Head`; Store: `AnchoredJournal`, `open`,
--             `verify`; Append: `append_inner` and its callers.
--             crates/uf-daemon/src/ddr_recovery_durable.rs in Durable: `record`, `checkpoint_after_drain`,
--             which drive both
-- The other files of a part hold proofs, and its Tests the runs at concrete inputs.
--
-- Conventions: a byte is a number and a `usize` has 64 bits. An addition on `u64` wraps, as in a release
-- build; a `checked_add` or `checked_mul` that fails is an error value, and a slice out of range is the fault
-- `panic`. Maps are association lists in which the first entry of a key counts. Operations take the state and
-- return it, since each of them holds the lock of its component from start to end;
-- `with_lane`, which does not, has the calls of others between its own.
--
-- Loops: those over slices and lists are structural. `acquire` runs on fuel for its `continue`s; as each of
-- them has closed a lane, one unit more than there are lanes is enough, and a run gives that. `cv.wait` ends
-- a call; `with_lane` goes on with another when other clients have run, in batches that are given.
-- `wait_completion` runs on fuel for its polls. The loop of `parse_frames` runs on as much fuel as the journal
-- has bytes; a turn takes 41 of them or more.
--
-- Parameters: the environment, the clock, the answers of ACL to the pool (of which some theorems ask that it
-- pins as many bytes as it is asked for), the provider objects that are registered, the bits of the file
-- seals, the codec between audit events and journal payloads,
-- what the system answers on the names and owners of the files of the journal, and the point at which a
-- write to them fails.
--
-- Not modelled: the object catalog and services, the DDR authority and witnesses, the codec of audit events
-- and the opening of a journal of earlier brokers, the simulator's provider and the key-value protocol;
-- transfer planning, tracing and statistics, whose numbers are floating-point; and devices, files, sockets and threads, which are the
-- operating system's. Of the modelled parts the trace records, the diagnostics, the waiting times and poisoned
-- locks are left out, and a panic in a transfer, which keeps its lane.
pub mod Prelude
pub mod Bridge
pub mod Provider
pub mod Mock
pub mod Channel
pub mod Recovery
