-- ===== src/Lib.antt =====
-- A verification library for GroundCore, the ground-station software of this repository.
--
-- The program's parts that are modelled, and how they interact:
--
--   * hardware/src/pool.rs. A pool of devices (`HardwarePool`) gives devices to passes. Each device
--     has a circuit breaker (`CircuitBreaker`), which trips after failures in a row; the pool's
--     `find_available` asks both, `allocate` asks the devices only, and `mark_unhealthy` and
--     `record_success` tell both. Hardware/Breaker.antt has the breaker, Hardware/Device.antt the
--     device, Hardware/Pool.antt the pool. Hardware/Pool/Owners.antt has the histories of the pool:
--     the states that its methods lead to, in any order.
--   * hardware/src/emergency.rs. The reserve of memory shards: Hardware/Emergency.antt.
--   * hardware/src/shard.rs. The shard of a pass, with its ring buffers, its log and its state:
--     Hardware/Shard.antt.
--   * rf-layer/src. An SDR yields samples, which a ring buffer stores (sdr.rs: RfLayer/Sdr.antt);
--     the demodulator turns them into bytes and is saved in snapshots (demodulator.rs:
--     RfLayer/Demodulator.antt, RfLayer/Demodulator/Snapshot.antt); the acquisition of a pass calls
--     both and fails over to a shadow SDR (shadow.rs: RfLayer/Shadow.antt), and resets its pass
--     shard; RfLayer/Tracker.antt is the pool of shadows. RfLayer/Demodulator/Digits.antt has the
--     reference for the assembly of bytes, RfLayer/Demodulator/Output.antt the output,
--     RfLayer/Shadow/Failover.antt the histories of an acquisition, RfLayer/Tracker/Kept.antt
--     those of the pool.
--   * uplink/src. A command (command.rs: Uplink/Command.antt) is validated, queued (queue.rs:
--     Uplink/Queue.antt), put into a transmission window (scheduler.rs: Uplink/Scheduler.antt) and
--     followed until it is confirmed (confirmation.rs: Uplink/Confirmation.antt, with the round of
--     the timeout checker, which calls the tracker). The queue reads the states of the commands
--     that others depend on; the scheduler compares the priorities of command.rs.
--   * caching/src. The two generic caches of generic.rs, Caching/Lru.antt and Caching/Ttl.antt,
--     over the entries of Caching/Entry.antt, and the cache of schedule fragments of schedule.rs,
--     Caching/Fragments.antt.
--   * batching/src. The batchers of symbols, which the output of the demodulator calls, of log
--     entries and of orbital elements: Batching.antt.
--   * bitemporal/src. Times of sending and of reception (timestamp.rs: Bitemporal/Timestamp.antt),
--     which the handoffs record, the log of entries chained by hashes (log.rs:
--     Bitemporal/Log.antt), and the provenance chains and their verifier (provenance.rs:
--     Bitemporal/Provenance.antt).
--   * oisl/src/resource/allocator.rs. Allocations of resources to tenants for time windows
--     (oisl/src/lib.rs: Oisl/Window.antt), with one index by terminal and one by tenant:
--     Oisl/Resource/Allocator.antt. Its child Index relates the indices to the allocations, Scan
--     the lookups through them to searches of all allocations, Histories has the states that the
--     methods lead to, and Undo a release after an allocation.
--   * oisl/src/resource/manager.rs. The resources of one satellite, which grants the same claims:
--     Oisl/Resource/Manager.antt over the records of Oisl/Resource/Parts.antt, with the accounts of
--     its storage in its child Storage.
--   * oisl/src/federation/control_plane_handoff.rs. The handoffs of satellites between control
--     nodes: Oisl/Handoff/State.antt has one handoff, Oisl/Handoff/Manager.antt the manager, and
--     Oisl/Handoff/Chains.antt the histories of its calls.
--   * oisl/src/federation/mod.rs. The federation plane: control nodes, satellites bound to them,
--     peers of other operators and the links with them. Oisl/Plane/State.antt has the data,
--     Oisl/Plane.antt the operations, Oisl/Plane/Chains.antt the histories of the calls.
--   * federation/src. Peers with a trust score that their attestations and the manager of peers
--     adjust (peer.rs: Federation/Peer.antt, with its histories in Federation/Peer/History.antt), the challenge passes that a peer carries (verification.rs:
--     Federation/Challenge.antt), and the coordination of spectrum with the peers that are trusted
--     (spectrum.rs: the conflicts in Federation/Spectrum.antt, the coordinator with its messages in
--     Federation/Coordinator.antt).
--   * scheduler/src/schedule.rs. The schedule of passes, its index of devices and its conflicts:
--     Scheduling/Schedule.antt. Its children follow the check for conflicts: Devices the index,
--     Members the pairs in its buckets, Buckets the loops, Reference the pairwise scan that they
--     are compared with, over the lists of pairs of Pairs.
--   * regulatory/src. Bands and frequencies (types.rs: Regulatory/Types.antt), licences and their
--     store (license.rs: Regulatory/License.antt), the transmission (transmit.rs:
--     Regulatory/Transmit.antt) and the check at run time (enforcement.rs:
--     Regulatory/Enforcement.antt), which reads the same licences. Regulatory/Held.antt has the keys
--     of a holder and the end of a stored licence in words of their own, for the report on a holder. A type with a phantom band is a
--     type that is indexed by the record of the band's constants.
--
-- Under the name of a component stand the modules with its lemmas. The modules called Tests hold
-- runs at concrete inputs. Common has the shared types: numbers and Boolean tests, lists, signed
-- integers, texts, readings of the clock, results, association lists with what holds of their
-- values (Values) and those that serve as an index (Index), and selections from them; searches
-- (Search), the ends of sequences (Ends), the loops of the two ring buffers and the circular
-- storage that they fill (Ring), and the bounded first-in first-out queue with which the ring
-- buffers are compared (Fifo).
--
-- How the state and the operations correspond to the code:
--
--   * A struct is a record with the struct's fields, an enum is a data type with its variants, a
--     method is a function from the old state to the result and the new state. A method that fails
--     returns `err` together with the state that it leaves behind.
--   * `Utc::now()` is an argument, one for each reading that the code takes. A reading is a number
--     of nanoseconds (Common/Clock.antt), and nothing is assumed of the order of two readings but
--     what a theorem says. `Uuid::new_v4()` and the random bytes of an id are arguments as well.
--   * A `HashMap` is an association list. Its order stands for the order of iteration, which Rust
--     leaves open; a new key goes to the end.
--   * `u32` and `u64` counters wrap at 2^32 and 2^64, and `usize` is taken to have 64 bits, as in a
--     release build for such a machine; the wrap is written out (`sub_u64` of Common/Tests.antt is
--     the subtraction).
--   * An `RwLock` that a method takes and gives back is left out: methods run one after the other.
--     `CommandQueue::dequeue` asks for a write guard under a read guard, so there the lock is an
--     interface, `RwLock` of Uplink/Queue.antt, as is `priority_queue::PriorityQueue`.
--   * `dequeue` loops. Its model has fuel, and `unfinished` means that the fuel has run out; the
--     theorem on it speaks of every amount of fuel from one on. The pruning loop of the fragment
--     cache has fuel too, and `none` means that it has run out: two more rounds than there are
--     fragments are enough, since each round removes one.
--   * Floating-point numbers are parameters: the interfaces `Floats` of Uplink/Scheduler.antt,
--     Oisl/Resource/Allocator.antt, Oisl/Plane/State.antt, Federation/Floats.antt,
--     Regulatory/Types.antt and RfLayer/Floats.antt, `Outside` of Bitemporal/Provenance.antt, and
--     the type alone in Scheduling/Schedule.antt. Nothing is assumed of them, but that one half is
--     not at least 0.8 where a theorem says so.
--   * `serde_json` and the parser of timestamps are the record `Formats` of
--     Regulatory/License.antt, the digest of an attestation is `Hashing` of Oisl/Plane.antt.
--   * An index out of range, which panics in Rust, is `none` in the check for conflicts of
--     Scheduling/Schedule.antt, where chains of options stand for the panics.
--   * A sum of a time and a duration panics in Rust if it leaves the range of times. In
--     Uplink/Scheduler.antt `schedule` is a call that does not panic, with unbounded sums;
--     `call_schedule` is the call with its panics, where `none` stands for one, and the range of
--     chrono's times and durations is a parameter. A call that panics stores nothing, so the
--     histories of the scheduler are made of the others. Elsewhere times are not bounded.
--   * The samples in a ring buffer are of any type, since the buffer only moves them; a default
--     element stands for what a read out of range would yield.
--   * A name clash with a Rust method is resolved by a longer name: `get` of a cache is
--     `get_value`, `get` of the queue is `get_command`.
--   * The digest of the log and the serialized texts are the record `Encoding` of
--     Bitemporal/Log.antt; `sort_by_key` is an insertion sort that keeps the order of equal keys.
--   * The manager of handoffs reads the clock several times in one call: there the clock is a
--     function, from the number of the reading to the reading.
--
-- Not modelled: the bump arenas, the tasks and channels of tokio, serialization, logging, the
-- ciphers of uplink/src/crypto.rs and hardware/src/tenant.rs, the radio hardware, and the numerical
-- code (SGP4, filters, Doppler prediction, routing geometry), which works on floating-point
-- numbers. The files of these crates that are not named above, and the other crates of the
-- repository, are not modelled either.
pub mod Common
pub mod Hardware
pub mod Oisl
pub mod RfLayer
pub mod Uplink
pub mod Batching
pub mod Bitemporal
pub mod Caching
pub mod Scheduling
pub mod Regulatory
pub mod Federation
