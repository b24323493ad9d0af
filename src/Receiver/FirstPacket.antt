-- ===== src/Receiver/FirstPacket.antt =====
-- From the encoder to the events of a new receiver.
use open_audio.Common.{ℕ, ◌*◌, ◌-◌, ◌≤◌, ◌≡◌, refl, ap, ◌∙◌, arith, true, false, ltb, ◌==◌}
use open_audio.Common.{wrapping_add, some, List, [], ◌∷◌, length, ==_refl, All}
use open_audio.Common.Outcome.{ok}
use open_audio.Protocol.{PacketHeader, sample_format_float32}
use open_audio.Protocol.Encode.{encode_float32_packet}
use open_audio.Protocol.Parse.{ParsedPacket, parse_packet, decode_float32}
use open_audio.Protocol.AudioRoundTrip.{IsInRange, IsSample, parsed_as, decode-encode_float32}
use open_audio.Fec.{FecDecoder}
use open_audio.Reorder.Order.{push-new, flush-new}
use open_audio.Reorder.{packet, format_changed, reconnected, new_window}
use open_audio.Receiver.{
  StreamReceiver, new_receiver, CustomDecoder, datagram, receive, remember, samples, decoded,
  accept, poll_next_event,
}
use open_audio.Receiver.Errors.{audio_kind, remember-same}

samples-float32 :
    (custom : CustomDecoder) (buf : List ℕ) (p : ParsedPacket) {pcm : List ℕ}
    → p.sample_format ≡ sample_format_float32
    → decode_float32 buf p ≡ some pcm
    → samples custom buf p ≡ ok pcm
samples-float32 custom buf p fmt dec =
    let here : (p.sample_format == sample_format_float32) ≡ true =
      rw fmt (==_refl sample_format_float32) in
    rw here (rw dec)

module _ {J : Type 0} where
  -- The first packet of a stream, as its receiver handles it.
  receive_first :
      (id now after : ℕ) (jitter : J) (custom : CustomDecoder) (buf : List ℕ) (p : ParsedPacket)
      (pcm : List ℕ)
      → parse_packet buf ≡ some p
      → p.stream_id ≡ id
      → p.sample_format ≡ sample_format_float32
      → decode_float32 buf p ≡ some pcm
      → let r = new_receiver id now jitter in
        receive r after custom (datagram buf) ≡ accept (remember r buf p) after p pcm
  unfolding receive
  receive_first id now after jitter custom buf p pcm parsed own fmt dec =
      let r = new_receiver id now jitter in
      let here : (p.stream_id == id) ≡ true = rw own (==_refl id) in
      rw (audio_kind buf parsed) (
        rw parsed (
          rw here (ap (decoded (remember r buf p) after p) (samples-float32 custom buf p fmt dec))))

  -- The receiver after the first event of its first packet.
  abbrev pub after_first :
      StreamReceiver J → FecDecoder → ℕ → ParsedPacket → List ℕ → StreamReceiver J
  after_first r d after p pcm = record r {
    fec_decoder = d;
    is_connected = true;
    last_receive = after;
    current_format = some (p.channel_count, p.sample_rate);
    reorder_window = record (new_window 32) {
      next_expected_seq = some (wrapping_add p.sequence_number 1);
    };
    event_queue = format_changed p.channel_count p.sample_rate ∷ packet p pcm ∷ [];
  }

  accept_first :
      (id now after : ℕ) (jitter : J) (d : FecDecoder) (p : ParsedPacket) (pcm : List ℕ)
      → let r = new_receiver id now jitter in
        accept (record r { fec_decoder = d }) after p pcm
        ≡ (ok (some reconnected), after_first r d after p pcm)
  accept_first id now after jitter d p pcm = rw (push-new 32 after p pcm, accept)

  poll_first :
      (id now before after : ℕ) (jitter : J) (custom : CustomDecoder) (buf : List ℕ)
      → before - now ≤ 1_000_000_000
      → let r = new_receiver id now jitter in
        poll_next_event r before after custom (datagram buf) ≡ receive r after custom (datagram buf)
  unfolding poll_next_event
  poll_first id now before after jitter custom buf h =
      let quiet : ltb 1_000_000_000 (before - now) ≡ false = ground arith in
      rw (flush-new 32 before) (rw quiet)

  -- A packet that the encoder returns, as the first datagram of a new receiver of its stream within
  -- a second of its start, makes the call return the event of the connection, and leaves the
  -- receiver connected with two events queued: the format, and the packet with the samples that
  -- were encoded.
  pub poll_first_packet :
      (h : PacketHeader) (channels rate : ℕ) (pcm buf : List ℕ) (id now before after : ℕ)
      (jitter : J) (custom : CustomDecoder)
      → IsInRange h
      → All IsSample pcm
      → encode_float32_packet h channels rate pcm ≡ ok buf
      → h.stream_id ≡ id
      → before - now ≤ 1_000_000_000
      → let r = new_receiver id now jitter in
        (frames : ℕ) × (d : FecDecoder) × (length pcm ≡ frames * channels)
        × (poll_next_event r before after custom (datagram buf) ≡ (
          ok (some reconnected),
          after_first r d after (parsed_as h channels sample_format_float32 rate frames) pcm,
        ))
  poll_first_packet h channels rate pcm buf id now before after jitter custom range ok_pcm e own
        soon =
      let (frames, whole, back) = decode-encode_float32 h channels rate pcm buf range ok_pcm e in
      let (fits, parsed, dec) = back in
      let p = parsed_as h channels sample_format_float32 rate frames in
      let r = new_receiver id now jitter in
      let d = (remember r buf p).fec_decoder in
      (
        frames,
        d,
        whole,
        poll_first id now before after jitter custom buf soon
            ∙ receive_first id now after jitter custom buf p pcm parsed own refl dec
            ∙ ap (λ (s : StreamReceiver J). accept s after p pcm) (remember-same r buf p)
            ∙ accept_first id now after jitter d p pcm,
      )
