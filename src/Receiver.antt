-- ===== src/Receiver.antt =====
-- crates/network-core/src/receiver.rs: `StreamReceiver`. The socket, the clock and the decoder of
-- compressed formats are arguments of the calls that use them; times are in nanoseconds. `before`
-- is the time until the datagram is awaited and `after` the time when it has come.
pub mod Errors
pub mod Counters
pub mod FirstPacket
mod Tests
use open_audio.Common.{
  ℕ, ◌+◌, ◌-◌, ◌^◌, Bool, true, false, not, ltb, leb, ◌==◌, ◌&&◌, if◌then◌else◌,
}
use open_audio.Common.{Option, none, some, List, [], ◌∷◌, ◌++◌, length, slice, drop, saturating_add}
use open_audio.Common.Outcome.{Result, ok, err}
use open_audio.Protocol.{
  packet_type_fec, sample_format_float32, sample_format_name, FormatName, peek_packet_type,
}
use open_audio.Protocol.FecPacket.{ParsedFecPacket, parse_fec_packet}
use open_audio.Protocol.Parse.{ParsedPacket, parse_packet, float32_payload, decode_float32}
use open_audio.Fec.{FecDecoder, new_decoder, record_received, decode_fec}
use open_audio.Reorder.{
  ReceiveEvent, packet, format_changed, dropped, disconnected, reconnected, Window, new_window,
  push, push_recovered, flush_expired_gap,
}

-- What `recv_from` gives: a datagram, nothing within the timeout, or another error.
pub data Received : Type 0 where
  datagram : List ℕ → Received
  timed_out socket_failed : Received

-- `unsupported_format` shows the name of the format if it has one, and its number.
pub data ReceiveError : Type 0 where
  receive_error invalid_payload decoder_error : ReceiveError
  unsupported_format : Option FormatName → ℕ → ReceiveError

-- The registered decoder at the time of a call; none is registered at first.
abbrev pub CustomDecoder : Type 0
CustomDecoder = Option (ParsedPacket → List ℕ → Option (List ℕ))

-- The jitter estimate is a float: `J` is its type, and `sent_requests` counts the subscribe requests
-- that were handed to the socket.
pub record StreamReceiver (J : Type 0) : Type 0 where
  pub stream_id : ℕ
  pub reorder_window : Window
  pub fec_decoder : FecDecoder
  pub last_receive : ℕ
  pub current_format : Option (ℕ × ℕ)
  pub is_connected : Bool
  pub event_queue : List ReceiveEvent
  pub total_packets_received : ℕ
  pub total_packets_dropped : ℕ
  pub jitter_ms : J
  pub last_transit : Option (ℕ × ℕ)
  pub sent_requests : ℕ

-- What a call returns, and the receiver after it.
abbrev pub Polled : Type 0 → Type 0
Polled J = Result ReceiveError (Option ReceiveEvent) × StreamReceiver J

abbrev pub same_format : Option (ℕ × ℕ) → ParsedPacket → Bool
same_format none p = false
same_format (some (channels, rate)) p = channels == p.channel_count && rate == p.sample_rate

-- The samples of a packet, or the error of the call.
abbrev pub custom_samples : CustomDecoder → List ℕ → ParsedPacket → Result ReceiveError (List ℕ)
custom_samples none buf p =
    err (unsupported_format (sample_format_name p.sample_format) p.sample_format)
custom_samples (some decode) buf p = elim (decode p (drop p.payload_offset buf)) [
  | some pcm ↦ ok pcm
  | none ↦ err decoder_error
]

abbrev pub samples : CustomDecoder → List ℕ → ParsedPacket → Result ReceiveError (List ℕ)
samples custom buf p =
    if p.sample_format == sample_format_float32
    then elim (decode_float32 buf p) [ some pcm ↦ ok pcm | none ↦ err invalid_payload ]
    else custom_samples custom buf p

abbrev pub is_fec : Option ℕ → Bool
is_fec none = false
is_fec (some packet_type) = packet_type == packet_type_fec

module _ {J : Type 0} where
  -- `new` subscribes at once.
  abbrev pub new_receiver : ℕ → ℕ → J → StreamReceiver J
  new_receiver stream_id now zero_jitter = record {
    stream_id = stream_id;
    reorder_window = new_window 32;
    fec_decoder = new_decoder 32;
    last_receive = now;
    current_format = none;
    is_connected = false;
    event_queue = [];
    total_packets_received = 0;
    total_packets_dropped = 0;
    jitter_ms = zero_jitter;
    last_transit = none;
    sent_requests = 1;
  }

  abbrev pub resubscribe : StreamReceiver J → ℕ → StreamReceiver J
  resubscribe r now = record r { last_receive = now; sent_requests = r.sent_requests + 1 }

  -- `Ok(self.event_queue.pop_front())` with the events of a queue.
  abbrev pub pop_event : StreamReceiver J → List ReceiveEvent → Polled J
  pop_event r [] = (ok none, record r { event_queue = [] })
  pop_event r (e ∷ queue) = (ok (some e), record r { event_queue = queue })

  abbrev pub recovered_into :
      StreamReceiver J → ℕ → Option (ParsedPacket × List ℕ) × FecDecoder → Polled J
  recovered_into r after (none, d) = pop_event (record r { fec_decoder = d }) r.event_queue
  recovered_into r after (some (p, pcm), d) =
      let (events, w) = push_recovered r.reorder_window after p pcm in
      pop_event (record r { fec_decoder = d; reorder_window = w }) (r.event_queue ++ events)

  abbrev pub fec_parsed : StreamReceiver J → ℕ → List ℕ → Option ParsedFecPacket → Polled J
  fec_parsed r after buf none = pop_event r r.event_queue
  fec_parsed r after buf (some fec) =
      let payload = slice buf fec.payload_offset (fec.payload_offset + fec.payload_len) in
      if fec.stream_id == r.stream_id
      then recovered_into r after (decode_fec r.fec_decoder fec payload)
      else pop_event r r.event_queue

  abbrev pub handle_fec : StreamReceiver J → ℕ → List ℕ → Polled J
  handle_fec r after buf = fec_parsed r after buf (parse_fec_packet buf)

  -- The events of a decoded packet: the change of the connection, of the format, and those of the
  -- reorder window, behind what is queued.
  abbrev pub connection_events : StreamReceiver J → List ReceiveEvent
  connection_events r = if r.is_connected then [] else reconnected ∷ []

  abbrev pub format_events : StreamReceiver J → ParsedPacket → List ReceiveEvent
  format_events r p =
      if same_format r.current_format p
      then []
      else format_changed p.channel_count p.sample_rate ∷ []

  abbrev pub accept : StreamReceiver J → ℕ → ParsedPacket → List ℕ → Polled J
  accept r after p pcm =
      let (events, w) = push r.reorder_window after p pcm in
      pop_event
        (record r {
          is_connected = true;
          last_receive = after;
          current_format = some (p.channel_count, p.sample_rate);
          reorder_window = w;
        })
        (r.event_queue ++ connection_events r ++ format_events r p ++ events)

  -- A complete Float32 payload goes into the history of the FEC decoder.
  abbrev pub remember : StreamReceiver J → List ℕ → ParsedPacket → StreamReceiver J
  remember r buf p = elim (float32_payload buf p) [
    | some payload ↦ record r {
      fec_decoder = record_received r.fec_decoder p.sequence_number payload;
    }
    | none ↦ r
  ]

  abbrev pub decoded : StreamReceiver J → ℕ → ParsedPacket → Result ReceiveError (List ℕ) → Polled J
  decoded r after p (ok pcm) = accept r after p pcm
  decoded r after p (err e) = (err e, r)

  abbrev pub audio_parsed :
      StreamReceiver J → ℕ → CustomDecoder → List ℕ → Option ParsedPacket → Polled J
  audio_parsed r after custom buf none = (ok none, r)
  audio_parsed r after custom buf (some p) =
      if p.stream_id == r.stream_id
      then decoded (remember r buf p) after p (samples custom buf p)
      else (ok none, r)

  abbrev pub handle_audio : StreamReceiver J → ℕ → CustomDecoder → List ℕ → Polled J
  handle_audio r after custom buf = audio_parsed r after custom buf (parse_packet buf)

  pub receive : StreamReceiver J → ℕ → CustomDecoder → Received → Polled J
  receive r after custom timed_out = (ok none, r)
  receive r after custom socket_failed = (err receive_error, r)
  receive r after custom (datagram buf) =
      if is_fec (peek_packet_type buf)
      then handle_fec r after buf
      else handle_audio r after custom buf

  -- After a second of silence: a receiver that was connected reports that it is not any more.
  abbrev pub after_silence : StreamReceiver J → ℕ → CustomDecoder → Received → Bool → Polled J
  after_silence silent after custom input true = (ok (some disconnected), silent)
  after_silence silent after custom input false = receive silent after custom input

  -- One second of silence disconnects and asks for the stream again.
  abbrev pub listen : StreamReceiver J → ℕ → ℕ → CustomDecoder → Received → Polled J
  listen r before after custom input =
      let silent = record (resubscribe r before) { is_connected = false } in
      if ltb 1_000_000_000 (before - r.last_receive)
      then after_silence silent after custom input r.is_connected
      else receive r after custom input

  abbrev pub poll_flushed :
      StreamReceiver J → ℕ → ℕ → CustomDecoder → Received → List ReceiveEvent → Polled J
  poll_flushed r before after custom input [] = listen r before after custom input
  poll_flushed r before after custom input (e ∷ queue) = pop_event r (e ∷ queue)

  abbrev pub poll_queue :
      StreamReceiver J → ℕ → ℕ → CustomDecoder → Received → List ReceiveEvent → Polled J
  poll_queue r before after custom input (e ∷ queue) = pop_event r (e ∷ queue)
  poll_queue r before after custom input [] =
      let (events, w) = flush_expired_gap r.reorder_window before in
      poll_flushed (record r { reorder_window = w; event_queue = events }) before after custom input
        events

  pub poll_next_event : StreamReceiver J → ℕ → ℕ → CustomDecoder → Received → Polled J
  poll_next_event r before after custom input = poll_queue r before after custom input r.event_queue

  -- `record_event`, with the update of the jitter estimate from the time between two arrivals and
  -- the time between their timestamps.
  abbrev pub transit : (J → ℕ → ℕ → J) → J → Option (ℕ × ℕ) → ℕ → ℕ → J
  transit update jitter none now timestamp = jitter
  transit update jitter (some (prev_arr, prev_ts)) now timestamp =
      update jitter (now - prev_arr) (timestamp - prev_ts)

  abbrev pub record_event : (J → ℕ → ℕ → J) → StreamReceiver J → ℕ → ReceiveEvent → StreamReceiver J
  record_event update r now (packet p pcm) =
      let timestamp = p.presentation_timestamp_ns in
      record r {
        total_packets_received = saturating_add r.total_packets_received 1;
        jitter_ms = transit update r.jitter_ms r.last_transit now timestamp;
        last_transit = some (now, timestamp);
      }
  record_event update r now (dropped count) = record r {
    total_packets_dropped = saturating_add r.total_packets_dropped count;
  }
  record_event update r now (format_changed c s) = r
  record_event update r now disconnected = r
  record_event update r now reconnected = r

  abbrev pub recorded : (J → ℕ → ℕ → J) → ℕ → Polled J → Polled J
  recorded update now (ok (some e), r) = (ok (some e), record_event update r now e)
  recorded update now (ok none, r) = (ok none, r)
  recorded update now (err e, r) = (err e, r)

  pub next_event : (J → ℕ → ℕ → J) → StreamReceiver J → ℕ → ℕ → CustomDecoder → Received → Polled J
  next_event update r before after custom input =
      recorded update after (poll_next_event r before after custom input)
