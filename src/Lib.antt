-- ===== src/Lib.antt =====
-- Verification of OpenAudio, which sends uncompressed audio over a local network in UDP packets.
--
-- The publisher splits audio into packets (crates/network-core/src/protocol.rs) and after each
-- group of packets sends one parity packet (crates/network-core/src/fec.rs). The subscriber
-- (crates/network-core/src/receiver.rs) parses the datagrams, keeps the payloads for the recovery
-- of a packet that was lost, puts the packets in the order of their sequence numbers, and returns
-- one event at a time. Subscribers are found through crates/network-core/src/discovery.rs, and
-- within a program audio goes through the queues of crates/audio-core/src/util.rs.
--
-- Common: the names that all files share. Lists, options and results; machine integers with what
-- overflow does, written as in the source (checked, wrapping, saturating); big-endian fields and
-- the bit patterns of floats (Common.Bytes); exclusive or (Common.Xor); a `BTreeMap` as a sorted
-- list of keys with their values (Common.SortedMap). A `u8` or a sample is a number; the
-- theorems say where its range matters.
-- Protocol: protocol.rs. The headers, `sample_rate_to_code` and `code_to_sample_rate`, and
-- `max_float32_frames_per_packet`; the encoders of audio packets in Protocol.Encode, the parser and
-- the payload readers in Protocol.Parse, the FEC and NACK packets in Protocol.FecPacket and
-- Protocol.NackPacket. An `Err` text is a constructor of `Error` with the values that it shows. A
-- float is its bit pattern.
-- Fec: fec.rs. `FecEncoder` and `FecDecoder` are records, and each method returns the record after
-- the call. Children: the parity as a column of bytes (Fec.Parity), a whole group through the
-- encoder (Fec.Encoder), the history (Fec.History), the recovery (Fec.Recovery), and the way from
-- the encoder to the decoder (Fec.EndToEnd).
-- Reorder: `PacketReorderWindow` of receiver.rs, with the time as an argument of each call. Its
-- loops run on fuel: `drain` on one more than the packets of the buffer, `spill` and the eviction
-- of the history on the number of entries, since each round removes one; Reorder.Run,
-- Reorder.Bounds and Fec.History have the proofs that this is enough.
-- Receiver: `StreamReceiver` of receiver.rs. What the socket gives, the times before and after it is
-- read, and the registered decoder of other formats are arguments of the calls; the update of the
-- jitter estimate, which is on floats, is a parameter.
--
-- Discovery: the registry of subscribers in crates/network-core/src/discovery.rs, as
-- `run_control_listener` and `active_subscribers` use it, and the channel labels. The parsers of
-- JSON are parameters, and a `HashMap` is a list with one entry for each key. Children: the limits
-- (Discovery.Limits, Discovery.Admission), the lease (Discovery.Lease), the labels
-- (Discovery.Labels), and the directory of nodes that `start_discovery_listener` keeps
-- (Discovery.Directory, Discovery.Directory.Entries), in which texts are of a parameter type.
-- AudioQueue: `trim_interleaved_queue` and `BoundedAudioQueue` of crates/audio-core/src/util.rs, the
-- queue between a device callback and the network thread. Whether `try_lock` succeeds is an
-- argument, and a recycled buffer, which is empty, is only counted. Children: the blocks that make
-- room (AudioQueue.Eviction), runs of calls (AudioQueue.Runs), what becomes of the frames
-- (AudioQueue.Accounts), and the trimming (AudioQueue.Trim).
-- Crypto: `packet_nonce`, `encrypt_audio_packet` and `decrypt_audio_packet` of
-- crates/audio-core/src/crypto.rs. The cipher with its key is a parameter (`Aead`), of which
-- Crypto.Envelope states the two laws that the code relies on.
-- Asio: crates/audio-core/src/asio_subscribe.rs. The routes of channels to outputs, the blocks that
-- the driver asks for, and the datagrams of the receive loop; the loop that shortens the buffer runs
-- on as much fuel as the buffer has samples. Floats are bit patterns, and their operations, the
-- resampler, the controller and the synchronizer are parameters (Mixer, Timing). Children: the sums
-- of routed samples (Asio.Routing), the blocks (Asio.Rendering), and the buffer (Asio.Alignment,
-- Asio.Received).
-- Combine: crates/audio-core/src/combine.rs. The setup with the devices as arguments, what their
-- callbacks capture, and a round of the loop as a function to the datagrams that it sends; it calls
-- AudioQueue, Discovery, Protocol and Crypto. The loop that empties a queue runs on more fuel than
-- the queue has blocks. Children: what a round takes from the slots (Combine.Slots), the
-- interleaving (Combine.Interleaving), a round (Combine.Rounds), the datagrams to the
-- subscribers (Combine.Sending), the packets (Combine.Packets), the setup (Combine.Ready), and
-- captures and rounds in any order (Combine.Captures, Combine.Runs).
-- Split: crates/audio-core/src/split.rs. A payload taken apart into the queues of its channels, and a
-- queue rendered to a device; the resampler and the clamp of a float are parameters. Children: the
-- bytes at the positions of a channel (Split.Demux), what Combine sends (Split.Combined), and the
-- blocks for a device (Split.Rendering).
-- Plc: `PacketLossConcealer` of crates/network-core/src/plc.rs. The operations on floats are
-- parameters (`Floats`); `none` is a panic of `copy_from_slice`, of an index, or of a vector with a
-- capacity of 2^63 bytes or more. Children: Plc.Frames, Plc.Incoming,
-- Plc.Calls.
-- Patchbay: apps/sender/src/patchbay.rs, with a `HashSet` as the list of its elements; the child is
-- Patchbay.Sets.
--
-- Gateway: crates/audio-core/src/web_gateway.rs. The state with its sessions and failed logins, whose
-- locks may be poisoned; the routes and their handlers (Gateway.Handlers), the cookie
-- (Gateway.Cookies), and the reading of a request from a socket (Gateway.Http), whose loops recurse
-- on the events of the socket's reads. The clock, the random bytes, the hash of passwords and the
-- parsers are arguments. Children with proofs: the sessions against a specification (Gateway.Issued,
-- Gateway.Sessions), the failed logins against one (Gateway.Guards, Gateway.Lockout), the cookie
-- (Gateway.CookieRoundTrip), a login and the requests after it (Gateway.LoginFlow), the places for
-- clients (Gateway.Slots), and requests in chunks (Gateway.Chunks, Gateway.Requests,
-- Gateway.Arrival).
--
-- Not modelled: sockets, threads, clocks and devices; poisoned locks, but in Gateway; the derivation of
-- keys, the relay of audio to browsers, the audio backends, and the user interfaces of the
-- applications.
pub mod Common
pub mod Protocol
pub mod Fec
pub mod Reorder
pub mod Receiver
pub mod Asio
pub mod AudioQueue
pub mod Combine
pub mod Crypto
pub mod Discovery
pub mod Gateway
pub mod Patchbay
pub mod Plc
pub mod Split
