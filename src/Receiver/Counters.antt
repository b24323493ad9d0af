-- ===== src/Receiver/Counters.antt =====
-- The counters of the receiver count the events that its calls return.
use open_audio.Common.{ℕ, ◌+◌, ◌-◌, ◌^◌, ◌≡◌, refl, ◌∙◌, arith, min}
use open_audio.Common.{
  Bool, true, false, Bool-cases, inl, inr, Option, none, some, List, [], ◌∷◌, ◌==◌, ltb,
}
use open_audio.Common.{Option-cases, saturating_add, slice, ◌++◌}
use open_audio.Common.Bytes.{IsU64}
use open_audio.Common.Outcome.{Result, ok, err}
use open_audio.Protocol.{peek_packet_type}
use open_audio.Protocol.FecPacket.{ParsedFecPacket, parse_fec_packet}
use open_audio.Protocol.Parse.{ParsedPacket, parse_packet, float32_payload}
use open_audio.Fec.{FecDecoder, decode_fec}
use open_audio.Reorder.{
  ReceiveEvent, packet, format_changed, dropped, disconnected, reconnected, push, push_recovered,
  flush_expired_gap,
}
use open_audio.Receiver.{
  StreamReceiver, ReceiveError, CustomDecoder, Received, datagram, timed_out, socket_failed,
  connection_events, format_events, pop_event, recovered_into, fec_parsed, remember, samples,
  decoded, audio_parsed, is_fec, receive, resubscribe, after_silence, listen, poll_flushed,
  poll_queue, poll_next_event, next_event, new_receiver, recorded,
}

-- How much an event adds to the counters.
abbrev pub packet_count : Option ReceiveEvent → ℕ
packet_count (some (packet p pcm)) = 1
packet_count _ = 0

abbrev pub dropped_count : Option ReceiveEvent → ℕ
dropped_count (some (dropped n)) = n
dropped_count _ = 0

-- The event that a call returns, if any.
abbrev pub event_of : Result ReceiveError (Option ReceiveEvent) → Option ReceiveEvent
event_of (ok o) = o
event_of (err e) = none

abbrev pub packets_in : List (Option ReceiveEvent) → ℕ
packets_in [] = 0
packets_in (o ∷ rest) = packet_count o + packets_in rest

abbrev pub dropped_in : List (Option ReceiveEvent) → ℕ
dropped_in [] = 0
dropped_in (o ∷ rest) = dropped_count o + dropped_in rest

-- The times, the decoder and the datagram of one call.
pub record Call : Type 0 where
  pub before : ℕ
  pub after : ℕ
  pub custom : CustomDecoder
  pub input : Received

module _ {J : Type 0} where
  -- The counters of packets are those of another receiver.
  pub record SameCounters (r s : StreamReceiver J) : Type 0 where
    pub received : s.total_packets_received ≡ r.total_packets_received
    pub lost : s.total_packets_dropped ≡ r.total_packets_dropped

  Same_refl : (r : StreamReceiver J) → SameCounters r r
  Same_refl r = record { received = refl; lost = refl }

  pop-Same :
      (r s : StreamReceiver J) (q : List ReceiveEvent)
      → SameCounters r s
      → SameCounters r (pop_event s q).1
  pop-Same r s [] c = record { received = c.received; lost = c.lost }
  pop-Same r s (e ∷ q) c = record { received = c.received; lost = c.lost }

  recovered_into-Same :
      (r : StreamReceiver J) (after : ℕ) (out : Option (ParsedPacket × List ℕ) × FecDecoder)
      → SameCounters r (recovered_into r after out).1
  recovered_into-Same r after (none, d) =
      pop-Same r (record r { fec_decoder = d }) r.event_queue
        (record { received = refl; lost = refl })
  recovered_into-Same r after (some (p, pcm), d) =
      let (events, w) = push_recovered r.reorder_window after p pcm in
      pop-Same r (record r { fec_decoder = d; reorder_window = w }) (r.event_queue ++ events)
        (record { received = refl; lost = refl })

  fec_parsed-Same :
      (r : StreamReceiver J) (after : ℕ) (buf : List ℕ) (f : Option ParsedFecPacket)
      → SameCounters r (fec_parsed r after buf f).1
  fec_parsed-Same r after buf none = pop-Same r r r.event_queue (Same_refl r)
  fec_parsed-Same r after buf (some f) =
      let payload = slice buf f.payload_offset (f.payload_offset + f.payload_len) in
      elim (Bool-cases (f.stream_id == r.stream_id)) [
        | inl e ↦ rw e (recovered_into-Same r after (decode_fec r.fec_decoder f payload))
        | inr e ↦ rw e (pop-Same r r r.event_queue (Same_refl r))
      ]

  remember-Same :
      (r : StreamReceiver J) (buf : List ℕ) (p : ParsedPacket) → SameCounters r (remember r buf p)
  remember-Same r buf p = elim (Option-cases (float32_payload buf p)) [
    | inl e ↦ rw (e, remember) (Same_refl r)
    | inr (payload, e) ↦ rw (e, remember) (record { received = refl; lost = refl })
  ]

  decoded-Same :
      (r s : StreamReceiver J) (after : ℕ) (p : ParsedPacket) (o : Result ReceiveError (List ℕ))
      → SameCounters r s
      → SameCounters r (decoded s after p o).1
  decoded-Same r s after p (ok pcm) c =
      let (events, w) = push s.reorder_window after p pcm in
      pop-Same r
        (record s {
          is_connected = true;
          last_receive = after;
          current_format = some (p.channel_count, p.sample_rate);
          reorder_window = w;
        })
        (s.event_queue ++ connection_events s ++ format_events s p ++ events)
        (record { received = c.received; lost = c.lost })
  decoded-Same r s after p (err x) c = c

  audio_parsed-Same :
      (r : StreamReceiver J) (after : ℕ) (custom : CustomDecoder) (buf : List ℕ)
      (p : Option ParsedPacket)
      → SameCounters r (audio_parsed r after custom buf p).1
  audio_parsed-Same r after custom buf none = Same_refl r
  audio_parsed-Same r after custom buf (some p) = elim (Bool-cases (p.stream_id == r.stream_id)) [
    | inl e ↦
        rw e
          (decoded-Same r (remember r buf p) after p (samples custom buf p) (remember-Same r buf p))
    | inr e ↦ rw e (Same_refl r)
  ]

  receive-Same :
      (r : StreamReceiver J) (after : ℕ) (custom : CustomDecoder) (input : Received)
      → SameCounters r (receive r after custom input).1
  unfolding receive
  receive-Same r after custom timed_out = Same_refl r
  receive-Same r after custom socket_failed = Same_refl r
  receive-Same r after custom (datagram buf) = elim (Bool-cases (is_fec (peek_packet_type buf))) [
    | inl e ↦ rw e (fec_parsed-Same r after buf (parse_fec_packet buf))
    | inr e ↦ rw e (audio_parsed-Same r after custom buf (parse_packet buf))
  ]

  Same_trans : (r s t : StreamReceiver J) → SameCounters r s → SameCounters s t → SameCounters r t
  Same_trans r s t a b = record { received = b.received ∙ a.received; lost = b.lost ∙ a.lost }

  after_silence-Same :
      (s : StreamReceiver J) (after : ℕ) (custom : CustomDecoder) (input : Received) (was : Bool)
      → SameCounters s (after_silence s after custom input was).1
  after_silence-Same s after custom input true = Same_refl s
  after_silence-Same s after custom input false = receive-Same s after custom input

  listen-Same :
      (r : StreamReceiver J) (before after : ℕ) (custom : CustomDecoder) (input : Received)
      → SameCounters r (listen r before after custom input).1
  listen-Same r before after custom input =
      let silent = record (resubscribe r before) { is_connected = false } in
      let s = after_silence-Same silent after custom input r.is_connected in
      elim (Bool-cases (ltb 1_000_000_000 (before - r.last_receive))) [
        | inl e ↦ rw e (record { received = s.received; lost = s.lost })
        | inr e ↦ rw e (receive-Same r after custom input)
      ]

  poll_flushed-Same :
      (r : StreamReceiver J) (before after : ℕ) (custom : CustomDecoder) (input : Received)
      (events : List ReceiveEvent)
      → SameCounters r (poll_flushed r before after custom input events).1
  poll_flushed-Same r before after custom input [] = listen-Same r before after custom input
  poll_flushed-Same r before after custom input (e ∷ queue) = record {
    received = refl;
    lost = refl;
  }

  poll_queue-Same :
      (r : StreamReceiver J) (before after : ℕ) (custom : CustomDecoder) (input : Received)
      (events : List ReceiveEvent)
      → SameCounters r (poll_queue r before after custom input events).1
  poll_queue-Same r before after custom input [] =
      let (events, w) = flush_expired_gap r.reorder_window before in
      let s =
        poll_flushed-Same (record r { reorder_window = w; event_queue = events }) before after
          custom input events in
      record { received = s.received; lost = s.lost }
  poll_queue-Same r before after custom input (e ∷ queue) = record { received = refl; lost = refl }

  poll-Same :
      (r : StreamReceiver J) (before after : ℕ) (custom : CustomDecoder) (input : Received)
      → SameCounters r (poll_next_event r before after custom input).1
  unfolding poll_next_event
  poll-Same r before after custom input = poll_queue-Same r before after custom input r.event_queue

  -- The counters after a call that returns `o`, from those of `r`.
  abbrev Counted : StreamReceiver J → Option ReceiveEvent → StreamReceiver J → Type 0
  Counted r o s =
      (s.total_packets_received ≡ saturating_add r.total_packets_received (packet_count o))
      × (s.total_packets_dropped ≡ saturating_add r.total_packets_dropped (dropped_count o))

  abbrev CountersInRange : StreamReceiver J → Type 0
  CountersInRange r = IsU64 r.total_packets_received × IsU64 r.total_packets_dropped

  recorded-Counted :
      (update : J → ℕ → ℕ → J) (after : ℕ) (r s : StreamReceiver J)
      (o : Result ReceiveError (Option ReceiveEvent))
      → CountersInRange r
      → SameCounters r s
      → let out = recorded update after (o, s) in Counted r (event_of out.0) out.1
  recorded-Counted update after r s (err e) h c = (ground arith, ground arith)
  recorded-Counted update after r s (ok none) h c = (ground arith, ground arith)
  recorded-Counted update after r s (ok (some (packet p pcm))) h c = (ground arith, ground arith)
  recorded-Counted update after r s (ok (some (dropped n))) h c = (ground arith, ground arith)
  recorded-Counted update after r s (ok (some (format_changed x y))) h c =
      (ground arith, ground arith)
  recorded-Counted update after r s (ok (some disconnected)) h c = (ground arith, ground arith)
  recorded-Counted update after r s (ok (some reconnected)) h c = (ground arith, ground arith)

  next_event-Counted :
      (update : J → ℕ → ℕ → J) (r : StreamReceiver J) (before after : ℕ) (custom : CustomDecoder)
      (input : Received)
      → CountersInRange r
      → let out = next_event update r before after custom input in Counted r (event_of out.0) out.1
  unfolding next_event
  next_event-Counted update r before after custom input h =
      let polled = poll_next_event r before after custom input in
      recorded-Counted update after r polled.1 polled.0 h (poll-Same r before after custom input)

  -- Calls of `next_event` in order: the events that they return, and the receiver after them.
  pub next_each :
      (J → ℕ → ℕ → J) → StreamReceiver J → List Call → List (Option ReceiveEvent) × StreamReceiver J
  next_each update r [] = ([], r)
  next_each update r (c ∷ calls) =
      let (result, r') = next_event update r c.before c.after c.custom c.input in
      let (events, r'') = next_each update r' calls in (event_of result ∷ events, r'')

  next_each-Counted :
      (update : J → ℕ → ℕ → J) (r : StreamReceiver J) (calls : List Call)
      → CountersInRange r
      → let (events, s) = next_each update r calls in
        (s.total_packets_received ≡ min (2 ^ 64 - 1) (r.total_packets_received + packets_in events))
        × (s.total_packets_dropped ≡ min (2 ^ 64 - 1) (r.total_packets_dropped + dropped_in events))
  unfolding next_each
  next_each-Counted update r [] h = (omega arith, omega arith)
  next_each-Counted update r (c ∷ calls) h =
      let out = next_event update r c.before c.after c.custom c.input in
      let (one, lost) = next_event-Counted update r c.before c.after c.custom c.input h in
      let (total, total_lost) =
        next_each-Counted update out.1 calls (ground (arith, one), ground (arith, lost)) in
      (ground (arith, one, total), ground (arith, lost, total_lost))

  -- After any calls of `next_event` on a new receiver, whatever the datagrams and the times, the
  -- counter of received packets is the number of packet events that were returned, and the counter
  -- of dropped packets is the sum of the losses that were returned, each up to the largest 64-bit
  -- number.
  pub counters_exact :
      (update : J → ℕ → ℕ → J) (id now : ℕ) (jitter : J) (calls : List Call)
      → let (events, r) = next_each update (new_receiver id now jitter) calls in
        (r.total_packets_received ≡ min (2 ^ 64 - 1) (packets_in events))
        × (r.total_packets_dropped ≡ min (2 ^ 64 - 1) (dropped_in events))
  counters_exact update id now jitter calls =
      let (a, b) =
        next_each-Counted update (new_receiver id now jitter) calls (omega arith, omega arith) in
      (omega (arith, a), omega (arith, b))
