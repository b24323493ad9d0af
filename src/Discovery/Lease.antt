-- ===== src/Discovery/Lease.antt =====
-- What the sender is told of the subscribers: those whose lease has not ended.
use open_audio.Common.{ℕ, ◌-◌, ◌<◌, ◌≡◌, ◌⊎◌, refl, ap, ◌∙◌, arith}
use open_audio.Common.{
  Bool, true, false, ◌&&◌, ◌||◌, Bool-cases, inl, inr, ltb, ◌==◌, if◌then◌else◌,
}
use open_audio.Common.{Option, none, some, List, [], ◌∷◌, ◌++◌, length}
use open_audio.Common.SortedMap.{
  lookup, insert, IsSorted, Above, insert-IsSorted, lookup-insert, lookup-Above,
}
use open_audio.Discovery.{
  Address, same_address, Subscriber, SubscribeRequest, SubscriberRegistry, addresses, addresses_of,
  retain_live, retain_each, retain_nonempty, expire, active_subscribers, renew, admit, admit_new,
  contains, subscribers_of, subscribe, valid_subscription_request,
}
use open_audio.Discovery.Limits.{
  IsLimited, expire-IsLimited, retain_each-Above, retain_nonempty-Above,
}

-- A list, if it has an entry.
abbrev pub nonempty : List Subscriber → Option (List Subscriber)
nonempty [] = none
nonempty (s ∷ l) = some (s ∷ l)

abbrev pub live_of : ℕ → Option (List Subscriber) → Option (List Subscriber)
live_of now none = none
live_of now (some l) = nonempty (retain_live now l)

lookup-retain_nonempty :
    (k : ℕ) (l : List Subscriber) (m : SubscriberRegistry) (j : ℕ)
    → Above j m
    → lookup k (retain_nonempty ((j, l) ∷ m))
      ≡ (if j == k then nonempty l else lookup k (retain_nonempty m))
lookup-retain_nonempty k [] m j a =
    ground (arith, lookup-Above j (retain_nonempty m) (retain_nonempty-Above j m a))
lookup-retain_nonempty k (s ∷ l) m j a = refl

lookup-expire :
    (now k : ℕ) (m : SubscriberRegistry)
    → IsSorted m
    → lookup k (expire now m) ≡ live_of now (lookup k m)
lookup-expire now k [] s = refl
lookup-expire now k ((j, l) ∷ m) (a, s) =
    lookup-retain_nonempty k (retain_live now l) (retain_each now m) j (retain_each-Above now j m a)
    ∙ elim (Bool-cases (j == k)) [ inl e ↦ rw e refl | inr e ↦ rw e (lookup-expire now k m s) ]

-- The answer for a stream is the addresses of its subscribers that were seen less than a lease ago,
-- in their order, and there is none where no such subscriber is left.
pub active_subscribers_lem :
    (m : SubscriberRegistry) (now stream_id : ℕ)
    → IsSorted m
    → (active_subscribers m now stream_id).0 ≡ addresses_of (live_of now (lookup stream_id m))
unfolding active_subscribers
active_subscribers_lem m now stream_id s = ap addresses_of (lookup-expire now stream_id m s)

-- The list has an entry of the address `dest`.
abbrev pub lists : Address → List Address → Bool
lists dest [] = false
lists dest (a ∷ rest) = same_address a dest || lists dest rest

-- The list has an entry of the address `dest` that was seen at the time `now`.
abbrev seen : Address → ℕ → List Subscriber → Bool
seen dest now [] = false
seen dest now (s ∷ rest) = (same_address s.address dest && s.last_seen == now) || seen dest now rest

seen-append :
    (dest : Address) (now : ℕ) (l : List Subscriber)
    → seen dest now (l ++ record { address = dest; last_seen = now } ∷ []) ≡ true
seen-append dest now [] = ground arith
seen-append dest now (s ∷ l) = ground (arith, seen-append dest now l)

-- A live entry stays when the others go.
retain_live-seen :
    (dest : Address) (now t : ℕ) (l : List Subscriber)
    → t - now < 15_000_000_000
    → seen dest now l ≡ true
    → lists dest (addresses (retain_live t l)) ≡ true
retain_live-seen dest now t [] h e = absurd (cc)
retain_live-seen dest now t (s ∷ l) h e = ground (arith, retain_live-seen dest now t l h)

abbrev SeenIn : Address → ℕ → List Subscriber → Option (List Subscriber) → Type 0
SeenIn dest now l none = lists dest (addresses l) ≡ false
SeenIn dest now l (some l') = seen dest now l' ≡ true

seen_later :
    (dest : Address) (now : ℕ) (s : Subscriber) (l : List Subscriber) (o : Option (List Subscriber))
    → same_address s.address dest ≡ false
    → SeenIn dest now l o
    → SeenIn dest now (s ∷ l) (elim o [ some l' ↦ some (s ∷ l') | none ↦ none ])
seen_later dest now s l none e h = rw e h
seen_later dest now s l (some l') e h = rw e h

renew-SeenIn :
    (dest : Address) (now : ℕ) (l : List Subscriber) → SeenIn dest now l (renew dest now l)
renew-SeenIn dest now [] = refl
renew-SeenIn dest now (s ∷ l) = elim (Bool-cases (same_address s.address dest)) [
  | inl e ↦ rw e (ground arith)
  | inr e ↦ rw e (seen_later dest now s l _ e (renew-SeenIn dest now l))
]

admit_new-seen :
    (dest : Address) (now : ℕ) (l : List Subscriber) (o : Option (List Subscriber))
    → SeenIn dest now l o
    → (lists dest (addresses l) ≡ true) ⊎ (length l < 64)
    → seen dest now (admit_new dest now l o) ≡ true
admit_new-seen dest now l (some l') h room = h
admit_new-seen dest now l none h (inl known) = absurd (cc)
admit_new-seen dest now l none h (inr few) =
    let room : ltb (length l) 64 ≡ true = ground arith in rw room (seen-append dest now l)

listed_answer :
    (dest : Address) (l : List Subscriber)
    → lists dest (addresses l) ≡ true
    → (answer : List Address) × (addresses_of (nonempty l) ≡ some answer)
      × (lists dest answer ≡ true)
listed_answer dest [] h = absurd (cc)
listed_answer dest (s ∷ l) h = (addresses (s ∷ l), refl, h)

-- A valid request from an address that the stream lists already, or for which it has room, in a
-- registry that has the stream or room for it: for a lease from then on the address is among those
-- that are returned for the stream.
pub subscribe_answered :
    (m : SubscriberRegistry) (now ip t : ℕ) (request : SubscribeRequest)
    → IsLimited m
    → valid_subscription_request request ≡ true
    → let live = expire now m in
      let dest : Address = record { ip = ip; port = request.receiver_port } in
      let l = subscribers_of request.stream_id live in
      (contains request.stream_id live || ltb (length live) 1024) ≡ true
      → (lists dest (addresses l) ≡ true) ⊎ (length l < 64)
      → t - now < 15_000_000_000
      → (answer : List Address) × ((active_subscribers
            (subscribe m now ip request)
            t
            request.stream_id).0
          ≡ some answer)
        × (lists dest answer ≡ true)
unfolding subscribe
subscribe_answered m now ip t request limited valid allowed room lease =
    let live = expire now m in
    let dest : Address = record { ip = ip; port = request.receiver_port } in
    let stream = request.stream_id in
    let l = subscribers_of stream live in
    let admitted = admit dest now l in
    let sorted = insert-IsSorted stream admitted live (expire-IsLimited now m limited).sorted in
    let found : lookup stream (insert stream admitted live) ≡ some admitted =
      ground (arith, lookup-insert stream stream admitted live) in
    let listed =
      retain_live-seen dest now t admitted lease
        (admit_new-seen dest now l _ (renew-SeenIn dest now l) room) in
    let (answer, e, among) = listed_answer dest (retain_live t admitted) listed in
    let made : subscribe m now ip request ≡ insert stream admitted live =
      rw (valid, allowed) refl in
    (
      answer,
      rw made (
          active_subscribers_lem (insert stream admitted live) t stream sorted
          ∙ ap (λ o. addresses_of (live_of t o)) found
          ∙ e),
      among,
    )
