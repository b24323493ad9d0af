-- ===== src/Discovery/Tests.antt =====
-- crates/network-core/src/discovery.rs: one stream with one subscriber.
use open_audio.Common.{ℕ, ◌≡◌, refl, arith, inr, true}
use open_audio.Common.{Option, none, some, List, [], ◌∷◌}
use open_audio.Discovery.{
  Address, SubscribeRequest, SubscriberRegistry, active_subscribers, subscribe,
}
use open_audio.Common.{false, ◌==◌}
use open_audio.Discovery.Directory.{Texts, NodeAdvertisement}
use open_audio.Discovery.Directory.Entries.{IsSound, rounds, reachable-IsSound}
use open_audio.Discovery.Limits.{IsLimited}
use open_audio.Discovery.Admission.{
  Event, datagram, ask, after_each, subscribe-IsLimited, reachable-IsLimited,
}
use open_audio.Discovery.Lease.{lists, subscribe_answered}

abbrev home : Address
home = record { ip = 1; port = 7050 }

abbrev registry : SubscriberRegistry
registry = (7, record { address = home; last_seen = 5 } ∷ []) ∷ []

abbrev request : SubscribeRequest
request = record { stream_id = 7; receiver_port = 7051 }

registry-IsLimited : IsLimited registry
registry-IsLimited = record {
  sorted = (tt, tt);
  few_streams = omega arith;
  fair = ((omega arith, (tt, tt)), tt);
}

-- The first byte of a datagram says what it is, in place of JSON.
abbrev ping_byte : List ℕ → Option ℕ
ping_byte (n ∷ []) = some n
ping_byte _ = none

abbrev request_bytes : List ℕ → Option SubscribeRequest
request_bytes (a ∷ b ∷ []) = some (record { stream_id = a; receiver_port = b })
request_bytes _ = none

abbrev events : List Event
events =
    datagram 5 1 (7 ∷ 9 ∷ [])
    ∷ datagram 6 2 (7 ∷ 9 ∷ [])
    ∷ datagram 6 2 (4 ∷ [])
    ∷ ask 20_000_000_000 7
    ∷ []

reachable-IsLimited_example : IsLimited (after_each ping_byte request_bytes [] events)
reachable-IsLimited_example = reachable-IsLimited ping_byte request_bytes events

subscribe-IsLimited_example : IsLimited (subscribe registry 8 1 request)
subscribe-IsLimited_example = subscribe-IsLimited registry 8 1 request registry-IsLimited

subscribe_answered_example :
    (answer : List Address) × ((active_subscribers (subscribe registry 8 1 request) 9 7).0
      ≡ some answer)
    × (lists (record { ip = 1; port = 7051 }) answer ≡ true)
subscribe_answered_example =
    subscribe_answered registry 8 1 9 request registry-IsLimited refl refl (inr (omega arith))
      (omega arith)

-- Numbers for texts; 0 is blank.
abbrev numbers : Texts ℕ
numbers = record {
  is_blank = λ t. t == 0;
  bytes = λ t. 1;
  has_control = λ t. false;
  same = λ a b. a == b;
  channel_label = λ n. n;
}

abbrev advert : NodeAdvertisement ℕ
advert = record {
  node_id = 1;
  node_name = 2;
  stream_id = 7;
  stream_name = 3;
  control_port = 7000;
  channel_count = 2;
  channel_labels = 40 ∷ [];
  encrypted = false;
}

reachable-IsSound_example :
    IsSound (rounds numbers [] ((some (advert, 9), 5, 6) ∷ (none, 7, 4_000_000_000) ∷ []))
reachable-IsSound_example =
    reachable-IsSound numbers ((some (advert, 9), 5, 6) ∷ (none, 7, 4_000_000_000) ∷ [])
