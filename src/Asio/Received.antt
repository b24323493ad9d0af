-- ===== src/Asio/Received.antt =====
-- Datagrams of crates/audio-core/src/asio_subscribe.rs: the buffer keeps whole frames and its limit.
use open_audio.Common.{ℕ, ◌*◌, ◌≤◌, ◌≡◌, refl, min, arith}
use open_audio.Common.{Option, none, some, List, ◌++◌, ◌⊎◌, length, Bool-cases, inl, inr}
use mathlib.Core.Path.{subst}
use open_audio.Common.Outcome.{Result, ok, err, Result-cases}
use open_audio.AudioQueue.{saturating_mul}
use open_audio.Protocol.Parse.{ParsedPacket, parse_packet}
use open_audio.Asio.{
  AsioError, Timing, Playback, packet_samples, settle, played, is_for, parsed_packet,
  receive_packet,
}
use open_audio.Asio.Alignment.{
  IsWhole, append-IsWhole, trim_frames-IsWhole, trim_frames-le, apply_clock_correction-IsWhole,
  packet_samples-IsWhole,
}

module _ {R J K : Type 0} (timing : Timing R J K) where
  -- What is relied on of the resampler: whole frames become whole frames.
  abbrev pub KeepsFrames : ℕ → Type 0
  KeepsFrames channels =
      (r after : R) (samples out : List ℕ)
      → timing.process r samples ≡ some (out, after)
      → IsWhole channels samples
      → IsWhole channels out

  -- A datagram leaves the playback as it was, or its buffer within the limit, or is refused.
  abbrev pub Kept : Playback R J K → Result AsioError (Playback R J K) → Type 0
  Kept p (err e) = Unit {0}
  Kept p (ok after) =
      IsWhole p.incoming_channels after.buffer
      × (after.incoming_channels ≡ p.incoming_channels)
      × ((after ≡ p) ⊎ (length after.buffer ≤ p.max_buffered_frames * p.incoming_channels))

  settle-Kept :
      (p : Playback R J K) (now : ℕ) (buffer : List ℕ) (r : R) (parsed : ParsedPacket)
      → 1 ≤ p.incoming_channels
      → IsWhole p.incoming_channels buffer
      → Kept p (ok (settle timing p now buffer r parsed))
  settle-Kept p now buffer r parsed c h =
      let correction =
        timing.correction
          (timing.observe_clock p.synchronizer parsed.presentation_timestamp_ns now) in
      let corrected =
        apply_clock_correction-IsWhole buffer p.incoming_channels correction now p.last_adjustment
          h in
      (
        trim_frames-IsWhole _ _ p.incoming_channels _ corrected,
        refl,
        inr (
            within _ p.max_buffered_frames _ p.incoming_channels
              (trim_frames-le _ _ p.incoming_channels _ (omega arith) c)),
      )
    where
      within :
          (n frames more channels : ℕ)
          → n ≤ saturating_mul (min frames more) channels
          → n ≤ frames * channels
      within n frames more channels h =
          let bound : min frames more * channels ≤ frames * channels = grind arith in omega arith

  played-Kept :
      (p : Playback R J K) (now : ℕ) (samples : List ℕ) (parsed : ParsedPacket)
      (o : Option (List ℕ × R))
      → KeepsFrames p.incoming_channels
      → timing.process p.resampler samples ≡ o
      → 1 ≤ p.incoming_channels
      → IsWhole p.incoming_channels p.buffer
      → IsWhole p.incoming_channels samples
      → Kept p (played timing p now parsed o)
  played-Kept p now samples parsed none law e c h k = tt
  played-Kept p now samples parsed (some (out, after)) law e c h k =
      settle-Kept p now (p.buffer ++ out) after parsed c
        (append-IsWhole p.incoming_channels p.buffer out h (law p.resampler after samples out e k))

  parsed-Kept :
      (p : Playback R J K) (now : ℕ) (packet : List ℕ) (o : Option ParsedPacket)
      → KeepsFrames p.incoming_channels
      → 1 ≤ p.incoming_channels
      → IsWhole p.incoming_channels p.buffer
      → Kept p (parsed_packet timing p now packet o)
  parsed-Kept p now packet none law c h = (h, refl, inl refl)
  parsed-Kept p now packet (some parsed) law c h = elim (Bool-cases (is_for timing p parsed)) [
    | inr other ↦ rw other (h, refl, inl refl)
    | inl mine ↦ rw mine (elim (Result-cases (packet_samples packet parsed)) [
      | inl (e, refused) ↦ rw refused tt
      | inr (samples, got) ↦
          let same : parsed.channel_count ≡ p.incoming_channels = ground (arith, mine) in
          let whole =
            subst (λ channels. IsWhole channels samples) same
              (packet_samples-IsWhole packet parsed samples got) in
          rw got (
            played-Kept p now samples parsed (timing.process p.resampler samples) law refl c h
              whole)
    ])
  ]

  -- With a resampler that keeps whole frames whole, a playback of at least one channel whose buffer
  -- holds whole frames holds whole frames after every datagram that it does not refuse with an error,
  -- so that channels never change places; and a datagram either changes nothing, or leaves at most
  -- the configured number of frames in the buffer.
  pub receive_packet-Kept :
      (p : Playback R J K) (now : ℕ) (packet : List ℕ)
      → KeepsFrames p.incoming_channels
      → 1 ≤ p.incoming_channels
      → IsWhole p.incoming_channels p.buffer
      → Kept p (receive_packet timing p now packet)
  unfolding receive_packet
  receive_packet-Kept p now packet law c h = parsed-Kept p now packet (parse_packet packet) law c h
