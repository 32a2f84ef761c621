-- ===== src/Lib.antt =====
-- Verification of localtrans, a file transfer program for devices on a local network, with a relay
-- for devices that cannot reach each other.
--
-- The parts that are modelled, and the files that model them:
--
--   Base        what all parts share: Boolean tests, lists and bytes, results, maps, a map with an
--               index into it (Base/Indexes), integers as bytes (Base/Words).
--   Net         IP and socket addresses. Json: `serde_json` as a parameter.
--   Relay       the relay. Its server keeps one lease table (Relay/Lease, for
--               crates/localtrans-relay/src/lease.rs): which device has which port and token, and which
--               two devices may use which session port. The control plane (Relay/Control and
--               Relay/Requests, for crates/localtrans-relay/src/control.rs) registers devices, answers
--               their requests and tells them about each other; Relay/Slots has its counters of
--               connections. The data plane (Relay/DataPlane, for
--               crates/localtrans-relay/src/data_plane.rs) forwards the packets of a session between its
--               two members. The wire formats are in Relay/Proto (crates/localtrans-core/src/relay/
--               proto.rs) and the client's socket in Relay/VirtualUdp (crates/localtrans-core/src/relay/
--               virtual_ep.rs).
--   Card        the state machine of a transfer card, in the desktop program (Card/Desktop, for
--               src-tauri/src/transfer_state.rs) and in the mobile one (Card/Ffi, for
--               crates/localtrans-ffi/src/transfer_state.rs), and what the two have in common.
--   Routing     the channels to a device, what probes have measured of them (Routing, for
--               crates/localtrans-core/src/routing/mod.rs), and the choice among them (Routing/Score, for
--               crates/localtrans-core/src/routing/score.rs).
--   Protocol    the control messages of two devices, their frames and the headers of chunk streams
--               (crates/localtrans-core/src/protocol.rs).
--   Session     the control stream of a session, for crates/localtrans-core/src/session.rs and
--               pairing.rs: how its bytes become messages (Session/Stream, `take_msg` and the reads of
--               `ctrl_loop`), the state of sessions and of pairing (Session/Pairing), consent and the
--               judging of codes (Session/Gate), new sessions
--               (Session/Incoming), requests and their answers (Session/Rpc), what
--               `ctrl_loop` does with each message (Session/Control), and all of this in any order, one
--               thing after the other, for any devices (Session/History).
--   Discovery   discovery packets, signatures and the guard against replays
--               (crates/localtrans-core/src/discovery.rs).
--   Identity    the trust store (crates/localtrans-core/src/identity.rs).
--   Memory      the memory of connections and the waits before a new attempt
--               (crates/localtrans-core/src/connect_memory.rs and relay/autoheal.rs).
--   Transfer    the chunks of a file (Transfer/Manifest, for crates/localtrans-core/src/transfer/
--               manifest.rs), the writer of a file that is received (Transfer/Writer, for `PartWriter` of
--               transfer/engine.rs), the check of its name (Transfer/Names) and the scans for jobs
--               (Transfer/Jobs), both for transfer/mod.rs, the number of streams (Transfer/Streams, for
--               transfer/adapt.rs and source_probe.rs), and the index of the files that are there
--               already (Transfer/Inbox, for transfer/dedup.rs).
--   Tests       runs at small data.
--
-- How the state is modelled. A component is a record, and an operation that changes it returns the new
-- record with its answer. A hash map is a list of pairs; what is said of a map by key does not depend on
-- their order. Locks are held for the length of an operation, so that operations follow each other; where
-- an operation releases a lock in between, its parts are functions of their own. Times are readings of the
-- monotonic clock, in milliseconds, and every function that reads the clock takes the reading as an
-- argument. Random tokens are arguments as well; where a property needs one that is not in use, it says so.
-- Counters wrap around or saturate at their width as the source has them. Functions are structural
-- recursions, apart from two loops that run on fuel: the reads of the control stream take as many rounds as
-- the buffer has bytes, and each message takes at least five of them; the loop that connects again is shown
-- to end on three rounds and more. A file is the string of its bytes, a directory a list of named files, and
-- whether the disk does what it is told is an argument of each operation that writes.
--
-- What is outside. QUIC, TLS and the sockets: whether a push gets through within its time,
-- whether it fails at once, and whether another stream can be opened, is a record `Reaches` that the control plane is given, and what a server does to a
-- connection is a list of effects. The hash of a chunk is a parameter too.
-- `identity::verify_possession` and the printing of addresses are the fields of `Outside`.
-- `serde_json` is a printer and a parser, of which only is assumed that the parser reads back what the
-- printer wrote. The score of a channel is computed in floating point, and is a function that the
-- choice is given. The requests of different clients are handled one after the other: interleavings at
-- the points where a request waits for the network are not modelled, apart from the pushes of a
-- broadcast. In a session, the parts of an operation that release the lock in between follow each other without a step
-- of another task. SHA-256 and Ed25519 are parameters; of a signature it is assumed that it has 64 bytes and
-- is accepted with the key of its maker. Not modelled are the tasks of the transfer engine, the dialling
-- of sessions, the sockets of discovery, storage, the user interfaces and the commands between them and the
-- core.
pub mod Base
pub mod Net
pub mod Json
pub mod Relay
pub mod Card
pub mod Routing
pub mod Transfer
pub mod Protocol
pub mod Session
pub mod Discovery
pub mod Identity
pub mod Memory
mod Tests
