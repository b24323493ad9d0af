-- ===== src/Combine/Runs.antt =====
-- Captures and rounds of the combined publisher in any order.
use mathlib.Core.Path.{subst}
use open_audio.Common.{ℕ, zero, suc, ◌≡◌, refl, sym, ap, ◌∙◌, Bool, ◌==◌, arith}
use open_audio.Common.{
  Option, none, some, List, [], ◌∷◌, map, length, drop, All, Bool-cases, inl, inr, if_true,
}
use open_audio.Common.Outcome.{ok}
use open_audio.Common.Bytes.{IsU32}
use open_audio.Protocol.AudioRoundTrip.{IsSample}
use open_audio.Crypto.{Aead}
use open_audio.Discovery.{Address, SubscriberRegistry, active_subscribers}
use open_audio.Combine.{
  Source, ChannelSlot, Combiner, set_up, after_drain, available_frames, take_frames, slot_after,
  publish, round,
}
use open_audio.Combine.Slots.{slot_held, Drains, report_drops-Drains}
use open_audio.Combine.Rounds.{IsReady, held_by, frames_in, round-Takes, round_sending}
use open_audio.Combine.Ready.{set_up-IsReady}
use open_audio.Combine.Captures.{Event, captures, rounds, step, run, AreFinite, at_slot-samples}

-- What the slots of a publisher that is ready hold is finite.
abbrev pub IsRunning : ℕ → Combiner → Type 0
IsRunning rate c = IsReady rate c × All (All IsSample) (held_by c)

capture-IsRunning :
    (cipher : Option Aead) (rate : ℕ) (c : Combiner) (i : ℕ) (samples : List ℕ) (input_channels : ℕ)
    (busy : Bool) (timestamp_ns : ℕ)
    → All IsSample samples
    → IsRunning rate c
    → IsRunning rate (step cipher c (captures i samples input_channels busy timestamp_ns))
capture-IsRunning cipher rate c i samples input_channels busy timestamp_ns k (r, h) =
    let (size, finite) = at_slot-samples samples input_channels busy timestamp_ns i c.slots k h in
    (
      record {
        counted = size ∙ r.counted;
        some_channels = r.some_channels;
        few_channels = r.few_channels;
        some_frames = r.some_frames;
        few_frames = r.few_frames;
        coded = r.coded;
        known = r.known;
        stream = r.stream;
        numbered = r.numbered;
      },
      finite,
    )

Drains-held :
    (slots drained : List ChannelSlot)
    → Drains slots drained
    → (length drained ≡ length slots) × (map slot_held drained ≡ map slot_held slots)
Drains-held [] [] d = (refl, refl)
Drains-held [] (t ∷ drained) d = absurd d
Drains-held (s ∷ slots) [] d = absurd d
Drains-held (s ∷ slots) (t ∷ drained) ((e, k), d) =
    let (size, same) = Drains-held slots drained d in (ap suc size, rw (e, same) refl)

length-map : {A B : Type 0} (f : A → B) (xs : List A) → length (map f xs) ≡ length xs
length-map f [] = refl
length-map f (x ∷ xs) = ap suc (length-map f xs)

drop-IsSample : (n : ℕ) (xs : List ℕ) → All IsSample xs → All IsSample (drop n xs)
drop-IsSample zero xs h = h
drop-IsSample (suc n) [] h = tt
drop-IsSample (suc n) (x ∷ xs) (s, h) = drop-IsSample n xs h

drop_each-IsSample :
    (n : ℕ) (xss : List (List ℕ)) → All (All IsSample) xss → All (All IsSample) (map (drop n) xss)
drop_each-IsSample n [] h = tt
drop_each-IsSample n (xs ∷ xss) (p, h) = (drop-IsSample n xs p, drop_each-IsSample n xss h)

after_drain-IsRunning :
    (rate : ℕ) (c : Combiner) (now : ℕ) → IsRunning rate c → IsRunning rate (after_drain now c)
after_drain-IsRunning rate c now (r, h) =
    let (size, same) = Drains-held c.slots _ (report_drops-Drains now c.last_drop_report c.slots) in
    (
      record {
        counted = size ∙ r.counted;
        some_channels = r.some_channels;
        few_channels = r.few_channels;
        some_frames = r.some_frames;
        few_frames = r.few_frames;
        coded = r.coded;
        known = r.known;
        stream = r.stream;
        numbered = r.numbered;
      },
      subst (All (All IsSample)) (sym same) h,
    )

publish-IsReady :
    (cipher : Option Aead) (rate : ℕ) (c : Combiner) (registry : SubscriberRegistry)
    (timestamp_ns frames taken : ℕ) (samples : List ℕ) (destinations : Option (List Address))
    → IsReady rate c
    → IsReady rate
        (publish cipher
          (take_frames taken (record c { registry = registry }))
          timestamp_ns
          frames
          samples
          destinations).1
publish-IsReady cipher rate c registry timestamp_ns frames taken samples destinations r =
    published destinations
  where
    kept : IsReady rate (take_frames taken (record c { registry = registry }))
    kept = record {
      counted = length-map (slot_after taken) c.slots ∙ r.counted;
      some_channels = r.some_channels;
      few_channels = r.few_channels;
      some_frames = r.some_frames;
      few_frames = r.few_frames;
      coded = r.coded;
      known = r.known;
      stream = r.stream;
      numbered = r.numbered;
    }

    published :
        (destinations : Option (List Address))
        → IsReady rate
            (publish cipher
              (take_frames taken (record c { registry = registry }))
              timestamp_ns
              frames
              samples
              destinations).1
    published none = kept
    published (some []) = kept
    published (some (d ∷ ds)) = record {
      counted = kept.counted;
      some_channels = r.some_channels;
      few_channels = r.few_channels;
      some_frames = r.some_frames;
      few_frames = r.few_frames;
      coded = r.coded;
      known = r.known;
      stream = r.stream;
      numbered = omega arith;
    }

round-IsRunning :
    (cipher : Option Aead) (rate : ℕ) (c : Combiner) (now timestamp_ns : ℕ)
    → IsRunning rate c
    → IsRunning rate (round cipher c now timestamp_ns).1
unfolding round
round-IsRunning cipher rate c now timestamp_ns (r, h) =
    let drained = after_drain-IsRunning rate c now (r, h) in
    elim (Bool-cases (available_frames (after_drain now c).slots == 0)) [
      | inl e ↦
          rw (if_true {A = List (Address × List ℕ) × Combiner} {x = ([], after_drain now c)} _ e)
            drained
      | inr e ↦ (
        rw (round_sending cipher c now timestamp_ns e) (
            publish-IsReady cipher rate (after_drain now c) _ timestamp_ns _ _ _
              (active_subscribers c.registry now c.stream_id).0 drained.0),
        subst (All (All IsSample)) (sym (round-Takes cipher rate c now timestamp_ns r e).left)
            (drop_each-IsSample (frames_in now c) (held_by c) h),
      )
    ]

run-IsRunning :
    (cipher : Option Aead) (rate : ℕ) (events : List Event) (c : Combiner)
    → AreFinite events
    → IsRunning rate c
    → IsRunning rate (run cipher c events)
run-IsRunning cipher rate [] c f h = h
run-IsRunning cipher rate (captures i samples input_channels busy timestamp_ns ∷ events) c (k, f)
      h =
    run-IsRunning cipher rate events _ f
      (capture-IsRunning cipher rate c i samples input_channels busy timestamp_ns k h)
run-IsRunning cipher rate (rounds now timestamp_ns ∷ events) c f h =
    run-IsRunning cipher rate events _ f (round-IsRunning cipher rate c now timestamp_ns h)

-- A publisher that the setup made is ready at some rate, and holds only finite samples, after every
-- sequence of captures of finite samples at any slots and of rounds, whatever the queues drop.
pub set_up-IsRunning :
    (cipher : Option Aead) (stream_id : ℕ) (recording : Bool) (sources : List Source)
    (registry : SubscriberRegistry) (now : ℕ) (c : Combiner) (events : List Event)
    → IsU32 stream_id
    → set_up stream_id recording sources registry now ≡ ok c
    → AreFinite events
    → (rate : ℕ) × IsRunning rate (run cipher c events)
set_up-IsRunning cipher stream_id recording sources registry now c events u e f =
    let ((rate, ready), finite) = set_up-IsReady stream_id recording sources registry now c u e in
    (rate, run-IsRunning cipher rate events c f (ready, finite))
