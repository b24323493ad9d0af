-- ===== src/Receiver/Errors.antt =====
-- What a call of the receiver leaves unchanged: on errors, and on datagrams of other streams.
use open_audio.Common.{ℕ, ◌≡◌, ◌≢◌, ◌⊎◌, inl, inr, refl, ap, sym, ◌∙◌, true, false, Bool-cases}
use open_audio.Common.{
  Option, none, some, List, [], ◌∷◌, Option-cases, ne_==, slice, ◌+◌, ◌==◌, ◌++◌,
}
use open_audio.Common.Outcome.{Result, ok, err}
use open_audio.Protocol.{peek_packet_type}
use open_audio.Protocol.Kinds.{parsers_disjoint}
use open_audio.Protocol.FecPacket.{ParsedFecPacket, parse_fec_packet}
use open_audio.Protocol.Parse.{ParsedPacket, parse_packet, float32_payload}
use open_audio.Fec.{FecDecoder, decode_fec}
use open_audio.Reorder.{ReceiveEvent, push, push_recovered}
use open_audio.Receiver.{
  StreamReceiver, ReceiveError, Polled, CustomDecoder, Received, datagram, timed_out, socket_failed,
  connection_events, format_events, pop_event, recovered_into, fec_parsed, remember, samples,
  decoded, audio_parsed, is_fec, receive,
}

pub audio_kind :
    (buf : List ℕ) {p : ParsedPacket}
    → parse_packet buf ≡ some p
    → is_fec (peek_packet_type buf) ≡ false
audio_kind buf e = elim (parsers_disjoint buf).0 [ inl kind ↦ rw kind | inr refused ↦ cc ]

fec_kind :
    (buf : List ℕ) {f : ParsedFecPacket}
    → parse_fec_packet buf ≡ some f
    → is_fec (peek_packet_type buf) ≡ true
fec_kind buf e = elim (parsers_disjoint buf).1 [ inl kind ↦ rw kind | inr refused ↦ cc ]

module _ {J : Type 0} where
  -- An error leaves all of the receiver but the FEC decoder.
  abbrev pub KeptOnError : StreamReceiver J → Polled J → Type 0
  KeptOnError r (ok e, r') = Unit {0}
  KeptOnError r (err e, r') = r' ≡ record r { fec_decoder = r'.fec_decoder }

  pop_event-Kept :
      (r r' : StreamReceiver J) (q : List ReceiveEvent) → KeptOnError r (pop_event r' q)
  pop_event-Kept r r' [] = tt
  pop_event-Kept r r' (e ∷ q) = tt

  recovered_into-Kept :
      (r : StreamReceiver J) (after : ℕ) (out : Option (ParsedPacket × List ℕ) × FecDecoder)
      → KeptOnError r (recovered_into r after out)
  recovered_into-Kept r after (none, d) =
      pop_event-Kept r (record r { fec_decoder = d }) r.event_queue
  recovered_into-Kept r after (some (p, pcm), d) =
      let (events, w) = push_recovered r.reorder_window after p pcm in
      pop_event-Kept r (record r { fec_decoder = d; reorder_window = w }) (r.event_queue ++ events)

  fec_parsed-Kept :
      (r : StreamReceiver J) (after : ℕ) (buf : List ℕ) (f : Option ParsedFecPacket)
      → KeptOnError r (fec_parsed r after buf f)
  fec_parsed-Kept r after buf none = pop_event-Kept r r r.event_queue
  fec_parsed-Kept r after buf (some f) =
      let payload = slice buf f.payload_offset (f.payload_offset + f.payload_len) in
      elim (Bool-cases (f.stream_id == r.stream_id)) [
        | inl e ↦ rw e (recovered_into-Kept r after (decode_fec r.fec_decoder f payload))
        | inr e ↦ rw e (pop_event-Kept r r r.event_queue)
      ]

  pub remember-same :
      (r : StreamReceiver J) (buf : List ℕ) (p : ParsedPacket)
      → remember r buf p ≡ record r { fec_decoder = (remember r buf p).fec_decoder }
  remember-same r buf p = elim (Option-cases (float32_payload buf p)) [
    | inl e ↦ rw (e, remember)
    | inr (payload, e) ↦ rw (e, remember)
  ]

  decoded-Kept :
      (r r' : StreamReceiver J) (after : ℕ) (p : ParsedPacket) (s : Result ReceiveError (List ℕ))
      → r' ≡ record r { fec_decoder = r'.fec_decoder }
      → KeptOnError r (decoded r' after p s)
  decoded-Kept r r' after p (ok pcm) e =
      let (events, w) = push r'.reorder_window after p pcm in
      pop_event-Kept r
        (record r' {
          is_connected = true;
          last_receive = after;
          current_format = some (p.channel_count, p.sample_rate);
          reorder_window = w;
        })
        (r'.event_queue ++ connection_events r' ++ format_events r' p ++ events)
  decoded-Kept r r' after p (err x) e = e

  audio_parsed-Kept :
      (r : StreamReceiver J) (after : ℕ) (custom : CustomDecoder) (buf : List ℕ)
      (p : Option ParsedPacket)
      → KeptOnError r (audio_parsed r after custom buf p)
  audio_parsed-Kept r after custom buf none = tt
  audio_parsed-Kept r after custom buf (some p) = elim (Bool-cases (p.stream_id == r.stream_id)) [
    | inl e ↦
        rw e
          (decoded-Kept r (remember r buf p) after p (samples custom buf p) (remember-same r buf p))
    | inr e ↦ rw e tt
  ]

  -- When a call of `receive` returns an error, the connection, the format, the reorder window, the
  -- queue of events and the counters are what they were: only the FEC decoder may have changed.
  pub receive-KeptOnError :
      (r : StreamReceiver J) (after : ℕ) (custom : CustomDecoder) (input : Received)
      → KeptOnError r (receive r after custom input)
  unfolding receive
  receive-KeptOnError r after custom timed_out = tt
  receive-KeptOnError r after custom socket_failed = refl
  receive-KeptOnError r after custom (datagram buf) =
      elim (Bool-cases (is_fec (peek_packet_type buf))) [
        | inl e ↦ rw e (fec_parsed-Kept r after buf (parse_fec_packet buf))
        | inr e ↦ rw e (audio_parsed-Kept r after custom buf (parse_packet buf))
      ]

  pop_event-same :
      (r : StreamReceiver J) → r.event_queue ≡ [] → pop_event r r.event_queue ≡ (ok none, r)
  pop_event-same r q =
      ap (pop_event r) q
      ∙ ap (λ (l : List ReceiveEvent). (ok none, record r { event_queue = l })) (sym q)

  -- A datagram of another stream, audio or FEC, has no effect on a receiver with an empty queue.
  pub receive_foreign :
      (r : StreamReceiver J) (after : ℕ) (custom : CustomDecoder) (buf : List ℕ)
      → r.event_queue ≡ []
      → ((p : ParsedPacket) × (parse_packet buf ≡ some p) × (p.stream_id ≢ r.stream_id))
        ⊎ ((f : ParsedFecPacket) × (parse_fec_packet buf ≡ some f) × (f.stream_id ≢ r.stream_id))
      → receive r after custom (datagram buf) ≡ (ok none, r)
  unfolding receive
  receive_foreign r after custom buf q (inl (p, e, ne)) =
      let kind : is_fec (peek_packet_type buf) ≡ false = audio_kind buf e in
      rw kind (rw e (rw (ne_== p.stream_id r.stream_id ne)))
  receive_foreign r after custom buf q (inr (f, e, ne)) =
      let kind : is_fec (peek_packet_type buf) ≡ true = fec_kind buf e in
      rw kind (rw e (rw (ne_== f.stream_id r.stream_id ne) (pop_event-same r q)))
