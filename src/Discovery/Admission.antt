-- ===== src/Discovery/Admission.antt =====
-- Requests at the control listener keep the limits of the registry.
use open_audio.Common.{ℕ, suc, ◌<◌, ◌≡◌, refl, ap, arith}
use open_audio.Common.{true, false, ◌||◌, Bool-cases, Option-cases, inl, inr, ltb, ◌==◌}
use open_audio.Common.{Option, none, some, List, [], ◌∷◌, ◌++◌, length, length-append}
use open_audio.Common.SortedMap.{
  lookup, insert, IsSorted, insert-IsSorted, length-insert, lookup-Above, Above-trans,
}
use open_audio.Discovery.{
  Address, same_address, Subscriber, SubscribeRequest, SubscriberRegistry, addresses, expire,
  active_subscribers, renew, admit_new, contains, subscribers_of, subscribe, control,
  valid_subscription_request,
}
use open_audio.Discovery.Limits.{Absent, Distinct, IsFair, AllFair, IsLimited, expire-IsLimited}

-- Renewing keeps the addresses, and fails only where the address is not in the list.
abbrev pub Renewed : Address → List Subscriber → Option (List Subscriber) → Type 0
Renewed dest l none = Absent dest (addresses l)
Renewed dest l (some l') = (length l' ≡ length l) × (addresses l' ≡ addresses l)

renew_later :
    (dest : Address) (s : Subscriber) (rest : List Subscriber) (o : Option (List Subscriber))
    → same_address s.address dest ≡ false
    → Renewed dest rest o
    → Renewed dest (s ∷ rest) (elim o [ some l ↦ some (s ∷ l) | none ↦ none ])
renew_later dest s rest none e h = (e, h)
renew_later dest s rest (some l) e (n, same) = (ap suc n, ap (λ bs. s.address ∷ bs) same)

renew-Renewed : (dest : Address) (now : ℕ) (l : List Subscriber) → Renewed dest l (renew dest now l)
renew-Renewed dest now [] = tt
renew-Renewed dest now (s ∷ rest) = elim (Bool-cases (same_address s.address dest)) [
  | inl e ↦ rw e (refl, refl)
  | inr e ↦ rw e (renew_later dest s rest _ e (renew-Renewed dest now rest))
]

same_address_comm : (a b : Address) → same_address a b ≡ false → same_address b a ≡ false
same_address_comm a b h = ground arith

Absent-append :
    (a b : Address) (bs : List Address)
    → Absent a bs
    → same_address b a ≡ false
    → Absent a (bs ++ b ∷ [])
Absent-append a b [] h e = (e, tt)
Absent-append a b (c ∷ bs) (p, h) e = (p, Absent-append a b bs h e)

Distinct-append :
    (b : Address) (bs : List Address) → Absent b bs → Distinct bs → Distinct (bs ++ b ∷ [])
Distinct-append b [] h d = (tt, tt)
Distinct-append b (a ∷ bs) (p, h) (q, d) =
    (Absent-append a b bs q (same_address_comm a b p), Distinct-append b bs h d)

addresses-append :
    (l : List Subscriber) (s : Subscriber) → addresses (l ++ s ∷ []) ≡ addresses l ++ s.address ∷ []
addresses-append [] s = refl
addresses-append (t ∷ l) s = ap (λ bs. t.address ∷ bs) (addresses-append l s)

admit_new-IsFair :
    (dest : Address) (now : ℕ) (l : List Subscriber) (o : Option (List Subscriber))
    → Renewed dest l o
    → IsFair l
    → IsFair (admit_new dest now l o)
admit_new-IsFair dest now l (some l') (n, same) (few, d) = (omega arith, rw same d)
admit_new-IsFair dest now l none absent (few, d) =
    let new : Subscriber = record { address = dest; last_seen = now } in
    elim (Bool-cases (ltb (length l) 64)) [
      | inl e ↦
          let room : length l < 64 = ground arith in
          rw e (
            omega (arith, length-append l (new ∷ [])),
            rw (addresses-append l new) (Distinct-append dest (addresses l) absent d),
          )
      | inr e ↦ rw e (few, d)
    ]

lookup-AllFair : (k : ℕ) (m : SubscriberRegistry) → AllFair m → IsFair (subscribers_of k m)
lookup-AllFair k [] h = (omega arith, tt)
lookup-AllFair k ((j, l) ∷ m) (f, h) = elim (Bool-cases (j == k)) [
  | inl e ↦ rw (e, subscribers_of) f
  | inr e ↦ rw (e, subscribers_of) (lookup-AllFair k m h)
]

insert-AllFair :
    (k : ℕ) (l : List Subscriber) (m : SubscriberRegistry)
    → IsFair l
    → AllFair m
    → AllFair (insert k l m)
insert-AllFair k l [] f h = (f, tt)
insert-AllFair k l ((j, w) ∷ m) f (g, h) = ground (arith, insert-AllFair k l m f h)

length-insert_present :
    (k : ℕ) (l v : List Subscriber) (m : SubscriberRegistry)
    → IsSorted m
    → lookup k m ≡ some v
    → length (insert k l m) ≡ length m
length-insert_present k l v [] s h = absurd (cc)
length-insert_present k l v ((j, w) ∷ m) (a, s) h = elim (Bool-cases (j == k)) [
  | inl e ↦ ground arith
  | inr e ↦ ground (arith, length-insert_present k l v m s, lookup-Above k m, Above-trans k j m)
]

insert-IsLimited :
    (k : ℕ) (l : List Subscriber) (m : SubscriberRegistry)
    → (contains k m || ltb (length m) 1024) ≡ true
    → IsFair l
    → IsLimited m
    → IsLimited (insert k l m)
insert-IsLimited k l m allowed f h = record {
  sorted = insert-IsSorted k l m h.sorted;
  few_streams = elim (Option-cases (lookup k m)) [
    | inl e ↦ let room : length m < 1024 = ground arith in omega (arith, length-insert k l m)
    | inr (v, e) ↦ omega (arith, length-insert_present k l v m h.sorted e, h.few_streams)
  ];
  fair = insert-AllFair k l m f h.fair;
}

-- A request keeps the limits, whoever sends it and whatever it asks for.
pub subscribe-IsLimited :
    (m : SubscriberRegistry) (now ip : ℕ) (request : SubscribeRequest)
    → IsLimited m
    → IsLimited (subscribe m now ip request)
unfolding subscribe
subscribe-IsLimited m now ip request h =
    let dest : Address = record { ip = ip; port = request.receiver_port } in
    let live = expire now m in
    let stream = request.stream_id in
    let limited = expire-IsLimited now m h in
    let fair =
      admit_new-IsFair dest now (subscribers_of stream live) _
        (renew-Renewed dest now (subscribers_of stream live))
        (lookup-AllFair stream live limited.fair) in
    elim (Bool-cases (valid_subscription_request request)) [
      | inr e ↦ rw e h
      | inl e ↦ rw e (elim (Bool-cases (contains stream live || ltb (length live) 1024)) [
        | inl allowed ↦ rw allowed (insert-IsLimited stream _ live allowed fair limited)
        | inr full ↦ rw full limited
      ])
    ]

-- A datagram at the control listener, with its time and the address of its sender, or a question
-- of the sender of a stream.
pub data Event : Type 0 where
  datagram : ℕ → ℕ → List ℕ → Event
  ask : ℕ → ℕ → Event

module _ (as_ping : List ℕ → Option ℕ) (as_request : List ℕ → Option SubscribeRequest) where
  -- The registry after an event, and after several.
  abbrev pub after : SubscriberRegistry → Event → SubscriberRegistry
  after m (datagram now ip bytes) = (control as_ping as_request m now ip bytes).1
  after m (ask now stream_id) = (active_subscribers m now stream_id).1

  abbrev pub after_each : SubscriberRegistry → List Event → SubscriberRegistry
  after_each m [] = m
  after_each m (e ∷ rest) = after_each (after m e) rest

  control-IsLimited :
      (m : SubscriberRegistry) (now ip : ℕ) (bytes : List ℕ)
      → IsLimited m
      → IsLimited (control as_ping as_request m now ip bytes).1
  control-IsLimited m now ip bytes h = elim (Option-cases (as_ping bytes)) [
    | inr (n, e) ↦ rw (e, control) h
    | inl e ↦
        rw (e, control)
          (elim (Option-cases (as_request bytes)) [
            | inl e' ↦ rw e' h
            | inr (request, e') ↦ rw e' (subscribe-IsLimited m now ip request h)
          ])
  ]

  after-IsLimited : (m : SubscriberRegistry) (e : Event) → IsLimited m → IsLimited (after m e)
  unfolding active_subscribers
  after-IsLimited m (datagram now ip bytes) h = control-IsLimited m now ip bytes h
  after-IsLimited m (ask now stream_id) h = expire-IsLimited now m h

  after_each-IsLimited :
      (m : SubscriberRegistry) (es : List Event) → IsLimited m → IsLimited (after_each m es)
  after_each-IsLimited m [] h = h
  after_each-IsLimited m (e ∷ rest) h =
      after_each-IsLimited (after m e) rest (after-IsLimited m e h)

  -- After any datagrams and questions, from any senders and at any times, an at first empty
  -- registry has at most 1024 streams with at most 64 subscribers each, all of one stream with
  -- different addresses.
  pub reachable-IsLimited : (events : List Event) → IsLimited (after_each [] events)
  reachable-IsLimited events =
      after_each-IsLimited [] events (record { sorted = tt; few_streams = omega arith; fair = tt })
