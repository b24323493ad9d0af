-- ===== src/Combine/Packets.antt =====
-- What the combined publisher sends in a round.
use open_audio.Common.{
  ℕ, ◌+◌, ◌*◌, ◌%◌, ◌^◌, ◌≤◌, ◌≡◌, refl, sym, ap, ◌∙◌, false, ◌==◌, wrapping_add, arith,
}
use open_audio.Common.{Option, none, some, List, [], ◌∷◌, length, get_or, All}
use open_audio.Common.Bytes.{IsU64}
use mathlib.Core.Path.{subst}
use open_audio.Protocol.Encode.{f32_bytes}
use open_audio.Protocol.AudioRoundTrip.{IsInRange, IsSample, ReadsBack, audio_packet-ReadsBack}
use open_audio.Crypto.{Aead}
use open_audio.Crypto.Envelope.{audio_packet-Seals}
use open_audio.Discovery.{Address, active_subscribers}
use open_audio.Combine.{
  Combiner, after_drain, available_frames, combined_packet, packet_to_send, send_all, round,
}
use open_audio.Combine.Sending.{HasLaws, Sends, send_all-map, send_all-Sends}
use open_audio.Combine.Slots.{report_drops-Drains}
use open_audio.Combine.Interleaving.{interleaved_slots, interleaved-IsSample}
use open_audio.Protocol.Budget.{div_bounds}
use open_audio.Combine.Rounds.{
  held_by, IsReady, frames_in, samples_in, drained-HaveFrames, header_in, packet_in, Takes,
  AreFirst, round_sending, round-Takes,
}

header_in-IsInRange :
    (rate : ℕ) (c : Combiner) (timestamp_ns : ℕ)
    → IsReady rate c
    → IsU64 timestamp_ns
    → IsInRange (header_in c timestamp_ns)
header_in-IsInRange rate c timestamp_ns r stamp = record {
  sub_stream = omega arith;
  stream = r.stream;
  sequence = r.numbered;
  timestamp = stamp;
}

packet_to_send-Sends :
    (cipher : Option Aead) (c : Combiner) (now timestamp_ns : ℕ) (destinations : List Address)
    → HasLaws cipher
    → IsInRange (header_in c timestamp_ns)
    → Sends cipher
        (header_in c timestamp_ns)
        (packet_in now timestamp_ns c)
        destinations
        (send_all destinations (packet_to_send cipher (packet_in now timestamp_ns c)))
unfolding combined_packet
packet_to_send-Sends none c now timestamp_ns destinations laws r =
    send_all-map destinations (packet_in now timestamp_ns c)
packet_to_send-Sends (some cipher) c now timestamp_ns destinations laws r =
    send_all-Sends cipher (header_in c timestamp_ns) (packet_in now timestamp_ns c) destinations _
      refl
      (audio_packet-Seals cipher (header_in c timestamp_ns) (c.channel_count % 256)
        c.sample_rate_code (frames_in now c % 2 ^ 16) (f32_bytes (samples_in now c)) laws r)

round_sends :
    (cipher : Option Aead) (c : Combiner) (now timestamp_ns : ℕ) (d : Address) (ds : List Address)
    → (available_frames (after_drain now c).slots == 0) ≡ false
    → (active_subscribers c.registry now c.stream_id).0 ≡ some (d ∷ ds)
    → ((round cipher c now timestamp_ns).0
        ≡ send_all (d ∷ ds) (packet_to_send cipher (packet_in now timestamp_ns c)))
      × ((round cipher c now timestamp_ns).1.sequence ≡ wrapping_add c.sequence 1)
unfolding combined_packet
round_sends cipher c now timestamp_ns d ds e subscribed =
    rw (round_sending cipher c now timestamp_ns e, subscribed) (refl, refl)

packet_in-ReadsBack :
    (rate : ℕ) (c : Combiner) (now timestamp_ns : ℕ)
    → IsReady rate c
    → All (All IsSample) (held_by c)
    → IsU64 timestamp_ns
    → 1 ≤ frames_in now c
    → length (samples_in now c) ≡ frames_in now c * c.channel_count
    → ReadsBack
        (header_in c timestamp_ns)
        c.channel_count
        rate
        (samples_in now c)
        (frames_in now c)
        (packet_in now timestamp_ns c)
unfolding combined_packet
packet_in-ReadsBack rate c now timestamp_ns r finite stamp f1 size =
    let d = report_drops-Drains now c.last_drop_report c.slots in
    let samples = interleaved-IsSample (frames_in now c) c.slots _ d finite in
    let few = r.few_frames in
    let frames16 : frames_in now c % 2 ^ 16 ≡ frames_in now c = omega (
      arith,
      few,
      r.some_channels,
      div_bounds 1168 (c.channel_count * 4) (omega (arith, r.some_channels)),
    ) in
    let channels8 : c.channel_count % 256 ≡ c.channel_count = omega (arith, r.few_channels) in
    rw (channels8, frames16, r.coded)
      (audio_packet-ReadsBack (header_in c timestamp_ns) c.channel_count rate (samples_in now c)
        (frames_in now c) (header_in-IsInRange rate c timestamp_ns r stamp) samples r.some_channels
        r.known f1 size (omega (arith, few)))

-- A round of a publisher that is ready, whose slots hold finite samples and each active one at least
-- one, for a stream with subscribers, at a time that is a 64-bit number, with a cipher that keeps its
-- laws or without one. Without a cipher every subscriber is sent one packet. With a cipher every
-- subscriber is sent one datagram that is 16 bytes longer than the packet, decrypts to it, and is not
-- taken for an audio packet; only where the cipher refuses the packet nothing is sent. The sequence
-- number goes on by one, modulo 2^32. Before encryption the packet is at most 1200 bytes long and
-- reads back as a packet of the stream with the number before it, as many channels as slots, and at
-- least one frame; sample by sample it decodes to the first that each slot held, in the position of
-- the slot, or to silence for a slot that was left out. These frames are taken from every slot, and
-- no more.
pub round_publishes :
    (cipher : Option Aead) (rate : ℕ) (c : Combiner) (now timestamp_ns : ℕ) (d : Address)
    (ds : List Address)
    → HasLaws cipher
    → IsReady rate c
    → All (All IsSample) (held_by c)
    → IsU64 timestamp_ns
    → (available_frames (after_drain now c).slots == 0) ≡ false
    → (active_subscribers c.registry now c.stream_id).0 ≡ some (d ∷ ds)
    → let (sent, after) = round cipher c now timestamp_ns in
      (Sends cipher (header_in c timestamp_ns) (packet_in now timestamp_ns c) (d ∷ ds) sent
        × (after.sequence ≡ wrapping_add c.sequence 1))
      × Takes now c after
      × ReadsBack
          (header_in c timestamp_ns)
          c.channel_count
          rate
          (samples_in now c)
          (frames_in now c)
          (packet_in now timestamp_ns c)
      × AreFirst now c
round_publishes cipher rate c now timestamp_ns d ds laws r finite stamp some_left subscribed =
    let drains = report_drops-Drains now c.last_drop_report c.slots in
    let (size, first) =
      interleaved_slots (frames_in now c) c.slots _ drains (drained-HaveFrames now c) in
    let takes = round-Takes cipher rate c now timestamp_ns r some_left in
    let counted = r.counted in
    let (sent, numbered) = round_sends cipher c now timestamp_ns d ds some_left subscribed in
    (
      (
        subst (Sends cipher (header_in c timestamp_ns) (packet_in now timestamp_ns c) (d ∷ ds))
            (sym sent)
            (packet_to_send-Sends cipher c now timestamp_ns (d ∷ ds) laws
              (header_in-IsInRange rate c timestamp_ns r stamp)),
        numbered,
      ),
      takes,
      packet_in-ReadsBack rate c now timestamp_ns r finite stamp takes.frames_taken
          (size ∙ ap (λ k. frames_in now c * k) counted),
      λ frame ch f h.
          ap (λ k. get_or (samples_in now c) (frame * k + ch) 0) (sym counted)
          ∙ first frame ch f (omega (arith, counted)),
    )

-- Without a subscriber a round of a publisher that is ready, where each active slot holds a sample,
-- sends nothing and keeps its sequence number, and still takes frames from every slot, so that the
-- queues of the devices do not fill.
round_unheard :
    (cipher : Option Aead) (rate : ℕ) (c : Combiner) (now timestamp_ns : ℕ)
    → IsReady rate c
    → (available_frames (after_drain now c).slots == 0) ≡ false
    → (active_subscribers c.registry now c.stream_id).0 ≡ none
    → let (sent, after) = round cipher c now timestamp_ns in
      (sent ≡ []) × (after.sequence ≡ c.sequence) × Takes now c after
round_unheard cipher rate c now timestamp_ns r some_left unheard =
    let takes = round-Takes cipher rate c now timestamp_ns r some_left in
    (
      rw (round_sending cipher c now timestamp_ns some_left, unheard) refl,
      rw (round_sending cipher c now timestamp_ns some_left, unheard) refl,
      takes,
    )
