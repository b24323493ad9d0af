-- ===== src/Combine/Rounds.antt =====
-- What a round of the combined publisher takes from its slots.
use open_audio.Common.{ℕ, ◌+◌, ◌*◌, ◌/◌, ◌≤◌, ◌<◌, ◌≡◌, ◌≢◌, min, false, ◌==◌, arith}
use open_audio.Common.{
  Option, none, some, List, [], ◌∷◌, map, length, drop, get_or, inl, inr, Option-cases, if_false,
}
use open_audio.Common.Bytes.{IsU32}
use open_audio.Protocol.{PacketHeader, sample_rate_to_code}
use open_audio.Crypto.{Aead}
use open_audio.Discovery.{Address, active_subscribers}
use open_audio.Combine.{
  ChannelSlot, active, skipped, Combiner, after_drain, take_frames, send_frames, pending_frames,
  available_frames, slot_samples, slot_after, interleave, combined_packet, publish, round,
}
use open_audio.Combine.Slots.{
  slot_held, HaveFrames, report_drops-Drains, pending-HaveFrames, slot_after-held,
}

abbrev pub held_by : Combiner → List (List ℕ)
held_by c = map slot_held c.slots

-- What the setup gives and the rounds keep, at a sample rate.
pub record IsReady (rate : ℕ) (c : Combiner) : Type 0 where
  pub counted : length c.slots ≡ c.channel_count
  pub some_channels : 1 ≤ c.channel_count
  pub few_channels : c.channel_count ≤ 255
  pub some_frames : 1 ≤ c.max_frames_per_packet
  pub few_frames : c.max_frames_per_packet ≤ 1168 / (c.channel_count * 4)
  pub coded : c.sample_rate_code ≡ sample_rate_to_code rate
  pub known : sample_rate_to_code rate ≢ 0
  pub stream : IsU32 c.stream_id
  pub numbered : IsU32 c.sequence

-- The frames of a round.
abbrev pub frames_in : ℕ → Combiner → ℕ
frames_in now c = min (available_frames (after_drain now c).slots) c.max_frames_per_packet

-- The samples of a round, interleaved.
abbrev pub samples_in : ℕ → Combiner → List ℕ
samples_in now c =
    interleave (map (slot_samples (frames_in now c)) (after_drain now c).slots) (frames_in now c)

pub drained-HaveFrames :
    (now : ℕ) (c : Combiner) → HaveFrames (frames_in now c) (after_drain now c).slots
drained-HaveFrames now c = elim (Option-cases (pending_frames (after_drain now c).slots)) [
  | inl e ↦ zero-HaveFrames (after_drain now c).slots (frames_in now c) (ground (arith, e))
  | inr (n, e) ↦
      pending-HaveFrames (after_drain now c).slots (frames_in now c) n e (ground (arith, e))
]
  where
    zero-HaveFrames : (slots : List ChannelSlot) (frames : ℕ) → frames ≡ 0 → HaveFrames frames slots
    zero-HaveFrames [] frames e = tt
    zero-HaveFrames (skipped ∷ slots) frames e = zero-HaveFrames slots frames e
    zero-HaveFrames (active channel ∷ slots) frames e =
        (omega arith, zero-HaveFrames slots frames e)

abbrev pub header_in : Combiner → ℕ → PacketHeader
header_in c timestamp_ns = record {
  sub_stream_index = 0;
  stream_id = c.stream_id;
  sequence_number = c.sequence;
  presentation_timestamp_ns = timestamp_ns;
}

abbrev pub packet_in : ℕ → ℕ → Combiner → List ℕ
packet_in now timestamp_ns c = combined_packet c timestamp_ns (frames_in now c) (samples_in now c)

-- What a round does with the samples that the slots held.
pub record Takes (now : ℕ) (c after : Combiner) : Type 0 where
  pub frames_taken : 1 ≤ frames_in now c
  pub frames_few : frames_in now c ≤ c.max_frames_per_packet
  pub left : held_by after ≡ map (drop (frames_in now c)) (held_by c)

-- Sample by sample the interleaved samples are the first that the slots held, or silence.
abbrev pub AreFirst : ℕ → Combiner → Type 0
AreFirst now c =
    (frame ch : ℕ)
    → frame < frames_in now c
    → ch < c.channel_count
    → get_or (samples_in now c) (frame * c.channel_count + ch) 0
      ≡ get_or (get_or (held_by c) ch []) frame 0

pub round_sending :
    (cipher : Option Aead) (c : Combiner) (now timestamp_ns : ℕ)
    → (available_frames (after_drain now c).slots == 0) ≡ false
    → round cipher c now timestamp_ns
      ≡ send_frames cipher
          (after_drain now c)
          now
          timestamp_ns
          (available_frames (after_drain now c).slots)
unfolding round
round_sending cipher c now timestamp_ns e =
    if_false {A = List (Address × List ℕ) × Combiner} ([], after_drain now c) e

pub round-Takes :
    (cipher : Option Aead) (rate : ℕ) (c : Combiner) (now timestamp_ns : ℕ)
    → IsReady rate c
    → (available_frames (after_drain now c).slots == 0) ≡ false
    → Takes now c (round cipher c now timestamp_ns).1
round-Takes cipher rate c now timestamp_ns r e =
    let d = report_drops-Drains now c.last_drop_report c.slots in
    let left = slot_after-held (frames_in now c) c.slots _ d (drained-HaveFrames now c) in
    let enough = r.some_frames in
    rw (round_sending cipher c now timestamp_ns e) (record {
      frames_taken = ground (arith, e, enough);
      frames_few = omega arith;
      left = published (active_subscribers c.registry now c.stream_id).0 left;
    })
  where
    published :
        (destinations : Option (List Address))
        → map slot_held (map (slot_after (frames_in now c)) (after_drain now c).slots)
          ≡ map (drop (frames_in now c)) (held_by c)
        → held_by
            (publish cipher
              (take_frames (frames_in now c) (record (after_drain now c) {
                registry = (active_subscribers c.registry now c.stream_id).1;
              }))
              timestamp_ns
              (frames_in now c)
              (samples_in now c)
              destinations).1
          ≡ map (drop (frames_in now c)) (held_by c)
    published none left = left
    published (some []) left = left
    published (some (d ∷ ds)) left = left
