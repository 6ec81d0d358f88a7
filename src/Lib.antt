-- ===== src/Lib.antt =====
-- jamjam-client: peer-to-peer audio for playing music together over the internet.
--
-- Two applications exchange UDP packets (src/protocol/packet.rs). Each packet that leaves for a peer
-- is sealed by the link to that peer (src/network/encryption.rs), and each that arrives is opened by
-- it. Audio packets go out in groups, each followed by a packet of error correction
-- (src/network/fec.rs), from which the receiver rebuilds one lost packet of the group. The receiver
-- counts what was lost by the sequence numbers (src/network/sequence_tracker.rs), and the frames wait
-- in the play-out buffer for the audio callback (src/audio/playout.rs). Pings and announcements of
-- the audio format travel in the payloads of packets of their own types, and what kind of
-- route a link came up on is written down (src/network/link_facts.rs). The connection
-- (src/network/connection.rs) joins these: it probes the addresses a participant published
-- (src/network/signaling.rs), takes up one of them, hands each datagram to the link and what it opens to
-- the part it is for, and watches for silence. Which participant of a room it is with is decided by the
-- roster (src-tauri/src/session/roster.rs). Its own public address, which it publishes, it asks STUN
-- servers for (src/network/stun.rs).
--
-- Files
--
-- * Prelude (Tests, Lists, Bytes, Counters, Assoc, Int, Members): Boolean tests, lists, big-endian bytes,
--   lists of numbers as sets, association lists, signed integers and membership, for all of the parts.
-- * Bits (Step, Digit, Xor, Pack): the binary digits of `bit_and`, `bit_or` and `bit_xor`.
-- * Packet (Types, Wire, Probe), src/protocol/packet.rs: `Packet::to_bytes` and `from_bytes`, the flags
--   and the probes of a route. Wire and Probe prove.
-- * Latency (Utf8, Info, Pings), src/protocol/packet.rs: the payloads of ping,
--   pong and info packets, with the check that a codec's name is UTF-8.
-- * Fec, src/network/fec.rs: `FecEncoder`, `FecDecoder` and `FecPacket`. Columns, Order, Groups,
--   Recovery, Steps and Arrival lead to the recovery of a lost packet; Encoding is the sender, Wire
--   the bytes, Retention what the decoder keeps.
-- * Link, src/network/encryption.rs: `SecureLink` as a value. Types has its states, Libraries the
--   operations of the cryptographic libraries with the laws they promise, Exchange the halves of a key
--   exchange and `derive_keys`, Sealing one packet under keys, and Link itself `seal` (`seal`),
--   `open` (`open_packet`), `receive` and `receive_control`. Replay is `ReplayWindow`, with Replay/History.
--   Outcomes, Refusals and Steps say what a packet may do, as a step relation; Once, Standing, Guard and Nonces are
--   about whole runs of events; Delivery and Agreement are about two ends.
-- * Tracker, src/network/sequence_tracker.rs: `SequenceTracker::record` (`record_packet`) and
--   `was_received`. Positions and Gaps are what they are measured against, History, Branches and
--   Recording the proofs.
-- * Playout, src/audio/playout.rs: `PlayoutBuffer`. Types has its state, Delay the target and `adapt`,
--   Ring its slots, Trim `trim_excess` and `watch_depth`, Playout itself `write` and `read_into`. Bounds, Freeing, Depth, Position and
--   Writing prove.
-- * Route, src/network/link_facts.rs: `LinkRoute::of`, `route_preference`, `RouteOverride::allows` and
--   `LinkFacts`. Ranking and Recorded prove. Named is `RouteOverride::from_env` and `parse`.
-- * Peers, src/network/signaling.rs: `AddressCandidate` and `PeerInfo::get_sorted_candidates`. Ranked is
--   about priorities, Offered about the list of addresses.
-- * Roster, src-tauri/src/session/roster.rs: `Roster`, each method under its name, and `step` over the
--   events that call them. Began and Outcome say what an event may do, as families of results; Player,
--   Started, Valid and Onward prove.
-- * Connect, src/network/connection.rs. Probes is `Probing` and Assess its `assess`; Medians, Pool,
--   Verdicts and Settled are about what it settles on, Hearing, Heard and Sound about what it counts. Routes is
--   `Route`, with Following. States has the states and `ReconnectConfig`, Monitor `start_liveness_monitor`
--   (`watch`), with Watching. Pings is `RttMeasurement`, Receiving `start_receive_loop`
--   (`receive_loop`); Alike, Kept and Strangers are about datagrams from elsewhere.
-- * Stun, src/network/stun.rs: the binding request and `parse_binding_response`; Discover the query of a
--   server and the list of servers. Loop, Addresses, Attributes, Answers and Asked prove.
-- * Channels, src/audio/channels.rs: `capture_picks`, `capture_attempts` and `smallest_channel_count`,
--   with Smallest. Verdict, src/network/bandwidth.rs: `BandwidthVerdict::confirm_at`, with Streak.
--
-- A file named Tests has the runs on concrete values, and for each theorem with hypotheses a case
-- where they hold.
--
-- How the code is modelled
--
-- A number is a native natural number, with the wrap-around of the machine's integers written out.
-- A byte is a number below 256 where this matters. A method that changes its object gives the
-- object as it is afterwards. A `HashMap` is a list of entries, and what is proved holds for any
-- order of them. A random secret, the moment and the wire are arguments. A moment of the clock is a
-- number of nanoseconds in Connect. A loop is recursion on a list or on the number of turns it has
-- left (`trim` of Playout: the frames still to remove), but for `parse_attributes` of Stun, whose
-- fuel is the length of the message: each turn passes at least four bytes of it.
-- The methods of a link hold its lock throughout, so the events of a link are a sequence.
--
-- Not modelled: sockets, threads, devices and windows; floating point (the loss rate of the tracker,
-- the two tests of the loss rate that `adapt` makes, which it is given, the concealment of
-- src/audio/plc.rs, of which the play-out buffer is given the operations, and the averages of round trips,
-- which the pings take as an `Estimator`); the cryptography itself, whose laws are the hypotheses
-- SealLaws, ExchangeLaws and SignatureLaws; when the connection sends its probes and keep-alives, and the
-- messages to and from the signaling server.
mod Prelude
mod Bits
pub mod Packet
pub mod Latency
pub mod Tracker
pub mod Route
pub mod Peers
pub mod Roster
pub mod Stun
pub mod Connect
pub mod Channels
pub mod Verdict
pub mod Playout
pub mod Fec
pub mod Link
