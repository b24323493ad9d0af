-- ===== src/Discovery/Limits.antt =====
-- The limits of the subscriber registry.
use open_audio.Common.{ℕ, suc, ◌≤◌, ◌≡◌, refl, ap, arith}
use open_audio.Common.{false, Bool-cases, inl, inr}
use open_audio.Common.{List, [], ◌∷◌, length}
use open_audio.Common.SortedMap.{IsSorted, Above}
use open_audio.Discovery.{
  Address, same_address, Subscriber, SubscriberRegistry, is_live, retain_live, retain_each,
  retain_nonempty, addresses, expire,
}

-- The address `a` is not in the list.
abbrev pub Absent : Address → List Address → Type 0
Absent a [] = Unit {0}
Absent a (b ∷ rest) = (same_address b a ≡ false) × Absent a rest

abbrev pub Distinct : List Address → Type 0
Distinct [] = Unit {0}
Distinct (a ∷ rest) = Absent a rest × Distinct rest

-- A stream has at most 64 subscribers, each with its own address.
abbrev pub IsFair : List Subscriber → Type 0
IsFair l = (length l ≤ 64) × Distinct (addresses l)

abbrev pub AllFair : SubscriberRegistry → Type 0
AllFair [] = Unit {0}
AllFair ((stream, l) ∷ m) = IsFair l × AllFair m

-- The registry holds at most 1024 streams, each once, and each of them is fair.
pub record IsLimited (m : SubscriberRegistry) : Type 0 where
  pub sorted : IsSorted m
  pub few_streams : length m ≤ 1024
  pub fair : AllFair m

length-retain_live : (now : ℕ) (l : List Subscriber) → length (retain_live now l) ≤ length l
length-retain_live now [] = omega arith
length-retain_live now (s ∷ rest) = ground (arith, length-retain_live now rest)

retain_live-Absent :
    (now : ℕ) (a : Address) (l : List Subscriber)
    → Absent a (addresses l)
    → Absent a (addresses (retain_live now l))
retain_live-Absent now a [] h = tt
retain_live-Absent now a (s ∷ rest) (p, h) = elim (Bool-cases (is_live now s)) [
  | inl e ↦ rw e (p, retain_live-Absent now a rest h)
  | inr e ↦ rw e (retain_live-Absent now a rest h)
]

retain_live-Distinct :
    (now : ℕ) (l : List Subscriber)
    → Distinct (addresses l)
    → Distinct (addresses (retain_live now l))
retain_live-Distinct now [] h = tt
retain_live-Distinct now (s ∷ rest) (p, d) = elim (Bool-cases (is_live now s)) [
  | inl e ↦ rw e (retain_live-Absent now s.address rest p, retain_live-Distinct now rest d)
  | inr e ↦ rw e (retain_live-Distinct now rest d)
]

pub retain_each-Above :
    (now k : ℕ) (m : SubscriberRegistry) → Above k m → Above k (retain_each now m)
retain_each-Above now k [] a = tt
retain_each-Above now k ((j, l) ∷ m) (p, a) = (p, retain_each-Above now k m a)

pub retain_nonempty-Above :
    (k : ℕ) (m : SubscriberRegistry) → Above k m → Above k (retain_nonempty m)
retain_nonempty-Above k [] a = tt
retain_nonempty-Above k ((j, []) ∷ m) (p, a) = retain_nonempty-Above k m a
retain_nonempty-Above k ((j, s ∷ l) ∷ m) (p, a) = (p, retain_nonempty-Above k m a)

retain_each-IsLimited :
    (now : ℕ) (m : SubscriberRegistry) → IsLimited m → IsLimited (retain_each now m)
retain_each-IsLimited now [] h = h
retain_each-IsLimited now ((k, l) ∷ m) h =
    let fewer : length m ≤ 1024 = omega (arith, h.few_streams) in
    let rest =
      retain_each-IsLimited now m
        (record { sorted = h.sorted.1; few_streams = fewer; fair = h.fair.1 }) in
    record {
      sorted = (retain_each-Above now k m h.sorted.0, rest.sorted);
      few_streams = omega (arith, h.few_streams, length-retain_each now m);
      fair = (
        (
          omega (arith, length-retain_live now l, h.fair.0.0),
          retain_live-Distinct now l h.fair.0.1,
        ),
        rest.fair,
      );
    }
  where
    length-retain_each : (now : ℕ) (m : SubscriberRegistry) → length (retain_each now m) ≡ length m
    length-retain_each now [] = refl
    length-retain_each now ((k, l) ∷ m) = ap suc (length-retain_each now m)

retain_nonempty-IsLimited :
    (m : SubscriberRegistry)
    → IsLimited m
    → IsLimited (retain_nonempty m) × (length (retain_nonempty m) ≤ length m)
retain_nonempty-IsLimited [] h = (h, omega arith)
retain_nonempty-IsLimited ((k, l) ∷ m) h =
    let fewer : length m ≤ 1024 = omega (arith, h.few_streams) in
    let (rest, less) =
      retain_nonempty-IsLimited m
        (record { sorted = h.sorted.1; few_streams = fewer; fair = h.fair.1 }) in
    keep l h.fair.0 rest less
  where
    keep :
        (l : List Subscriber)
        → IsFair l
        → IsLimited (retain_nonempty m)
        → length (retain_nonempty m) ≤ length m
        → IsLimited (retain_nonempty ((k, l) ∷ m))
          × (length (retain_nonempty ((k, l) ∷ m)) ≤ length ((k, l) ∷ m))
    keep [] f rest less = (rest, omega arith)
    keep (s ∷ l') f rest less = (
      record {
        sorted = (retain_nonempty-Above k m h.sorted.0, rest.sorted);
        few_streams = omega (arith, h.few_streams);
        fair = (f, rest.fair);
      },
      omega arith,
    )

pub expire-IsLimited : (now : ℕ) (m : SubscriberRegistry) → IsLimited m → IsLimited (expire now m)
expire-IsLimited now m h =
    (retain_nonempty-IsLimited (retain_each now m) (retain_each-IsLimited now m h)).0
