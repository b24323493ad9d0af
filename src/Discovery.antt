-- ===== src/Discovery.antt =====
-- crates/network-core/src/discovery.rs: the registry of subscribers that the control listener keeps
-- and the sender asks, and the channel labels. Times are in nanoseconds. The JSON parser and
-- `format!` are parameters.
pub mod Limits
pub mod Admission
pub mod Lease
pub mod Labels
pub mod Directory
mod Tests
use open_audio.Common.{
  ℕ, zero, suc, ◌+◌, ◌-◌, Bool, true, false, not, ◌&&◌, ◌||◌, ltb, ◌==◌, if◌then◌else◌,
}
use open_audio.Common.{Option, none, some, List, [], ◌∷◌, ◌++◌, length, take, map}
use open_audio.Common.SortedMap.{SortedMap, lookup, insert}

abbrev pub max_subscriber_streams : ℕ
max_subscriber_streams = 1_024

abbrev pub max_subscribers_per_stream : ℕ
max_subscribers_per_stream = 64

-- 15 s
abbrev pub subscriber_lease : ℕ
subscriber_lease = 15_000_000_000

-- `SocketAddr`
pub record Address : Type 0 where
  pub ip : ℕ
  pub port : ℕ

abbrev pub same_address : Address → Address → Bool
same_address a b = a.ip == b.ip && a.port == b.port

pub record Subscriber : Type 0 where
  pub address : Address
  pub last_seen : ℕ

pub record SubscribeRequest : Type 0 where
  pub stream_id : ℕ
  pub receiver_port : ℕ

abbrev pub valid_subscription_request : SubscribeRequest → Bool
valid_subscription_request request = not (request.receiver_port == 0)

-- A `HashMap` by its entries, one for each key; nothing depends on their order.
abbrev pub SubscriberRegistry : Type 0
SubscriberRegistry = SortedMap (List Subscriber)

abbrev pub is_live : ℕ → Subscriber → Bool
is_live now s = ltb (now - s.last_seen) subscriber_lease

-- The two calls of `retain`: of the subscribers in a list, and of the lists that are left.
abbrev pub retain_live : ℕ → List Subscriber → List Subscriber
retain_live now [] = []
retain_live now (s ∷ rest) =
    let kept = retain_live now rest in if is_live now s then s ∷ kept else kept

abbrev pub retain_each : ℕ → SubscriberRegistry → SubscriberRegistry
retain_each now [] = []
retain_each now ((stream, subscribers) ∷ m) =
    (stream, retain_live now subscribers) ∷ retain_each now m

abbrev pub is_empty_list : List Subscriber → Bool
is_empty_list [] = true
is_empty_list (s ∷ rest) = false

abbrev pub retain_nonempty : SubscriberRegistry → SubscriberRegistry
retain_nonempty [] = []
retain_nonempty ((stream, subscribers) ∷ m) =
    let rest = retain_nonempty m in
    if is_empty_list subscribers then rest else (stream, subscribers) ∷ rest

abbrev pub expire : ℕ → SubscriberRegistry → SubscriberRegistry
expire now registry = retain_nonempty (retain_each now registry)

abbrev pub addresses : List Subscriber → List Address
addresses [] = []
addresses (s ∷ rest) = s.address ∷ addresses rest

abbrev pub addresses_of : Option (List Subscriber) → Option (List Address)
addresses_of none = none
addresses_of (some l) = some (addresses l)

-- The addresses of a stream at the time `now`, and the registry after the call.
unfoldable pub active_subscribers :
    SubscriberRegistry → ℕ → ℕ → Option (List Address) × SubscriberRegistry
active_subscribers registry now stream_id =
    let live = expire now registry in (addresses_of (lookup stream_id live), live)

-- `find` and the assignment to `last_seen`.
abbrev pub renew : Address → ℕ → List Subscriber → Option (List Subscriber)
renew dest now [] = none
renew dest now (s ∷ rest) =
    let later = renew dest now rest in
    if same_address s.address dest
    then some (record s { last_seen = now } ∷ rest)
    else elim later [ some l ↦ some (s ∷ l) | none ↦ none ]

-- The list of a stream after a request from `dest`: the renewed list, or a new entry if there is
-- room for one.
abbrev pub admit_new : Address → ℕ → List Subscriber → Option (List Subscriber) → List Subscriber
admit_new dest now subscribers (some renewed) = renewed
admit_new dest now subscribers none =
    if ltb (length subscribers) max_subscribers_per_stream
    then subscribers ++ record { address = dest; last_seen = now } ∷ []
    else subscribers

abbrev pub admit : Address → ℕ → List Subscriber → List Subscriber
admit dest now subscribers = admit_new dest now subscribers (renew dest now subscribers)

-- `contains_key` and `entry(..).or_default()`.
abbrev pub contains : ℕ → SubscriberRegistry → Bool
contains stream m = elim (lookup stream m) [ some l ↦ true | none ↦ false ]

abbrev pub subscribers_of : ℕ → SubscriberRegistry → List Subscriber
subscribers_of stream m = elim (lookup stream m) [ some l ↦ l | none ↦ [] ]

-- A request from the address `ip` at the time `now`.
pub subscribe : SubscriberRegistry → ℕ → ℕ → SubscribeRequest → SubscriberRegistry
subscribe registry now ip request =
    let dest : Address = record { ip = ip; port = request.receiver_port } in
    let live = expire now registry in
    let stream = request.stream_id in
    if valid_subscription_request request
    then if contains stream live || ltb (length live) max_subscriber_streams
      then insert stream (admit dest now (subscribers_of stream live)) live
      else live
    else registry

-- A datagram at the control listener: the number of the pong that it answers with, if any, and the
-- registry.
abbrev pub control :
    (List ℕ → Option ℕ)
    → (List ℕ → Option SubscribeRequest)
    → SubscriberRegistry
    → ℕ
    → ℕ
    → List ℕ
    → Option ℕ × SubscriberRegistry
control as_ping as_request registry now ip datagram = elim (as_ping datagram) [
  | some ping ↦ (some ping, registry)
  | none ↦ elim (as_request datagram) [
    | some request ↦ (none, subscribe registry now ip request)
    | none ↦ (none, registry)
  ]
]

module _ {ℓ} {T : Type ℓ} (channel_label : ℕ → T) where
  -- `channel_label n` is the text "Channel n". The labels of `n` channels from index `i` on.
  abbrev pub labels_from : ℕ → ℕ → List T
  labels_from i zero = []
  labels_from i (suc n) = channel_label (i + 1) ∷ labels_from (i + 1) n

  abbrev pub default_channel_labels : ℕ → List T
  default_channel_labels channel_count = labels_from 0 channel_count

  -- `truncate`, and the loop that pushes a label until there are enough.
  pub normalize_channel_labels : ℕ → List T → List T
  normalize_channel_labels channel_count labels =
      let kept = take channel_count labels in
      kept ++ labels_from (length kept) (channel_count - length kept)
