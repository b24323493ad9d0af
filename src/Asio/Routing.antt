-- ===== src/Asio/Routing.antt =====
-- What the driver of crates/audio-core/src/asio_subscribe.rs gets: every output has the samples of the
-- channels that are routed to it.
use open_audio.Common.{
  ℕ, zero, suc, ◌+◌, ◌≤◌, ◌<◌, ◌≡◌, refl, ap, ◌∙◌, true, false, ltb, leb, ◌==◌, if◌then◌else◌,
  arith,
}
use open_audio.Common.{none, some, List, [], ◌∷◌, map, length, drop, get_or, if_false, if_true}
use open_audio.Common.Outcome.{ok}
use open_audio.Asio.{
  Mixer, Routes, check_routes, bump, zeros, count_routes, divisor, build_route_divisors, add_at,
  front, behind, add_routed, route_samples, scale_frame,
}

-- How many channels an output gets, and their sum for a frame at the front of a buffer, in the order
-- of the channels.
abbrev pub routes_to : ℕ → Routes → ℕ
routes_to output [] = 0
routes_to output (none ∷ routes) = routes_to output routes
routes_to output (some target ∷ routes) =
    let rest = routes_to output routes in if target == output then rest + 1 else rest

abbrev pub mixed_for : Mixer → ℕ → Routes → List ℕ → ℕ → ℕ
mixed_for mixer output [] buffer sum = sum
mixed_for mixer output (none ∷ routes) buffer sum =
    mixed_for mixer output routes (behind buffer) sum
mixed_for mixer output (some target ∷ routes) buffer sum =
    mixed_for mixer output routes (behind buffer)
      (if target == output then mixer.add sum (front buffer) else sum)

abbrev pub AreRouted : ℕ → Routes → Type 0
AreRouted output_channels [] = Unit {0}
AreRouted output_channels (none ∷ routes) = AreRouted output_channels routes
AreRouted output_channels (some target ∷ routes) =
    (target < output_channels) × AreRouted output_channels routes

pub check_routes-AreRouted :
    (routes : Routes) (i output_channels : ℕ)
    → check_routes routes i output_channels ≡ ok tt
    → AreRouted output_channels routes
check_routes-AreRouted [] i output_channels e = tt
check_routes-AreRouted (none ∷ routes) i output_channels e =
    check_routes-AreRouted routes (i + 1) output_channels e
check_routes-AreRouted (some target ∷ routes) i output_channels e =
    (ground arith, check_routes-AreRouted routes (i + 1) output_channels (ground arith))

length-add_at :
    (mixer : Mixer) (i sample : ℕ) (xs : List ℕ) → length (add_at mixer i sample xs) ≡ length xs
length-add_at mixer i sample [] = refl
length-add_at mixer zero sample (x ∷ xs) = refl
length-add_at mixer (suc i) sample (x ∷ xs) = ap suc (length-add_at mixer i sample xs)

get_or-add_at :
    (mixer : Mixer) (i sample : ℕ) (xs : List ℕ) (o : ℕ)
    → o < length xs
    → get_or (add_at mixer i sample xs) o 0
      ≡ (if i == o then mixer.add (get_or xs o 0) sample else get_or xs o 0)
get_or-add_at mixer i sample [] o h = absurd (omega arith)
get_or-add_at mixer zero sample (x ∷ xs) zero h = refl
get_or-add_at mixer zero sample (x ∷ xs) (suc o) h = ground arith
get_or-add_at mixer (suc i) sample (x ∷ xs) zero h = ground arith
get_or-add_at mixer (suc i) sample (x ∷ xs) (suc o) h =
    ground (arith, get_or-add_at mixer i sample xs o)

drop-behind : (n : ℕ) (xs : List ℕ) → drop n (behind xs) ≡ drop (suc n) xs
drop-behind zero [] = refl
drop-behind (suc n) [] = refl
drop-behind n (x ∷ xs) = refl

pub route_samples-mixed :
    (mixer : Mixer) (ic oc i : ℕ) (routes : Routes) (buffer frame : List ℕ)
    → AreRouted oc routes
    → i + length routes ≤ ic
    → length frame ≡ oc
    → let (mixed, rest) = route_samples mixer ic oc i routes buffer frame in
      (length mixed ≡ oc)
      × (rest ≡ drop (length routes) buffer)
      × ((o : ℕ) → o < oc → get_or mixed o 0 ≡ mixed_for mixer o routes buffer (get_or frame o 0))
route_samples-mixed mixer ic oc i [] buffer frame a h e = (e, refl, λ o b. refl)
route_samples-mixed mixer ic oc i (none ∷ routes) buffer frame a h e =
    let (size, rest, mixed) =
      route_samples-mixed mixer ic oc (i + 1) routes (behind buffer) frame a (omega arith) e in
    (size, rest ∙ drop-behind (length routes) buffer, mixed)
route_samples-mixed mixer ic oc i (some target ∷ routes) buffer frame (t, a) h e =
    let inside : leb ic i ≡ false = ground arith in
    let exists : leb oc target ≡ false = ground arith in
    let added = add_routed mixer ic oc i (some target) (front buffer) frame in
    let same : added ≡ add_at mixer target (front buffer) frame =
      if_false frame inside ∙ if_false frame exists in
    let (size, rest, mixed) =
      route_samples-mixed mixer ic oc (i + 1) routes (behind buffer) added a (omega arith)
        (ap length same ∙ length-add_at mixer target (front buffer) frame ∙ e) in
    (
      size,
      rest ∙ drop-behind (length routes) buffer,
      λ o b.
          mixed o b
          ∙ ap (mixed_for mixer o routes (behind buffer)) (
              ap (λ f. get_or f o 0) same
              ∙ get_or-add_at mixer target (front buffer) frame o (omega (arith, e))),
    )

pub length-scale_frame :
    (mixer : Mixer) (xs divisors : List ℕ) → length (scale_frame mixer xs divisors) ≡ length xs
length-scale_frame mixer [] divisors = refl
length-scale_frame mixer (x ∷ xs) divisors = ap suc (length-scale_frame mixer xs (behind divisors))

get_or-behind : (o : ℕ) (xs : List ℕ) → get_or (behind xs) o 0 ≡ get_or xs (suc o) 0
get_or-behind o [] = refl
get_or-behind o (x ∷ xs) = refl

get_or-front : (xs : List ℕ) → front xs ≡ get_or xs 0 0
get_or-front [] = refl
get_or-front (x ∷ xs) = refl

pub get_or-scale_frame :
    (mixer : Mixer) (xs divisors : List ℕ) (o : ℕ)
    → o < length xs
    → get_or (scale_frame mixer xs divisors) o 0
      ≡ mixer.clamp (mixer.multiply (get_or xs o 0) (get_or divisors o 0))
get_or-scale_frame mixer [] divisors o h = absurd (omega arith)
get_or-scale_frame mixer (x ∷ xs) divisors zero h =
    ap (λ d. mixer.clamp (mixer.multiply x d)) (get_or-front divisors)
get_or-scale_frame mixer (x ∷ xs) divisors (suc o) h =
    get_or-scale_frame mixer xs (behind divisors) o (omega arith)
    ∙ ap (λ d. mixer.clamp (mixer.multiply (get_or xs o 0) d)) (get_or-behind o divisors)

pub length-zeros : (n : ℕ) → length (zeros n) ≡ n
length-zeros zero = refl
length-zeros (suc n) = ap suc (length-zeros n)

pub get_or-zeros : (n o : ℕ) → get_or (zeros n) o 0 ≡ 0
get_or-zeros zero o = refl
get_or-zeros (suc n) zero = refl
get_or-zeros (suc n) (suc o) = get_or-zeros n o

-- The divisors count the routes.
length-bump : (i : ℕ) (ns : List ℕ) → length (bump i ns) ≡ length ns
length-bump i [] = refl
length-bump zero (n ∷ ns) = refl
length-bump (suc i) (n ∷ ns) = ap suc (length-bump i ns)

get_or-bump :
    (i o : ℕ) (ns : List ℕ)
    → o < length ns
    → get_or (bump i ns) o 0 ≡ (if i == o then get_or ns o 0 + 1 else get_or ns o 0)
get_or-bump i o [] h = absurd (omega arith)
get_or-bump zero zero (n ∷ ns) h = refl
get_or-bump zero (suc o) (n ∷ ns) h = ground arith
get_or-bump (suc i) zero (n ∷ ns) h = ground arith
get_or-bump (suc i) (suc o) (n ∷ ns) h = ground (arith, get_or-bump i o ns)

get_or-count_routes :
    (oc o : ℕ) (routes : Routes) (counts : List ℕ)
    → AreRouted oc routes
    → length counts ≡ oc
    → o < oc
    → get_or (count_routes routes counts) o 0 ≡ get_or counts o 0 + routes_to o routes
get_or-count_routes oc o [] counts a e h = omega arith
get_or-count_routes oc o (none ∷ routes) counts a e h = get_or-count_routes oc o routes counts a e h
get_or-count_routes oc o (some target ∷ routes) counts (t, a) e h =
    let inside : ltb target (length counts) ≡ true = ground arith in
    let later =
      get_or-count_routes oc o routes (bump target counts) a (length-bump target counts ∙ e) h in
    let bumped = get_or-bump target o counts (omega (arith, e)) in
    ap (λ cs. get_or (count_routes routes cs) o 0) (if_true counts inside)
    ∙ later
    ∙ ground (arith, bumped)

get_or-map :
    (f : ℕ → ℕ) (xs : List ℕ) (o : ℕ) → o < length xs → get_or (map f xs) o 0 ≡ f (get_or xs o 0)
get_or-map f [] o h = absurd (omega arith)
get_or-map f (x ∷ xs) zero h = refl
get_or-map f (x ∷ xs) (suc o) h = get_or-map f xs o (omega arith)

length-count_routes :
    (routes : Routes) (counts : List ℕ) → length (count_routes routes counts) ≡ length counts
length-count_routes [] counts = refl
length-count_routes (none ∷ routes) counts = length-count_routes routes counts
length-count_routes (some target ∷ routes) counts =
    length-count_routes routes _ ∙ ground (arith, length-bump target counts)

pub get_or-build_route_divisors :
    (mixer : Mixer) (oc o : ℕ) (routes : Routes)
    → AreRouted oc routes
    → o < oc
    → get_or (build_route_divisors mixer routes oc) o 0 ≡ divisor mixer (routes_to o routes)
unfolding build_route_divisors
get_or-build_route_divisors mixer oc o routes a h =
    let size = length-count_routes routes (zeros oc) in
    let zeros_size = length-zeros oc in
    get_or-map (divisor mixer) (count_routes routes (zeros oc)) o (omega (arith, size, zeros_size))
    ∙ ap (divisor mixer) (
        get_or-count_routes oc o routes (zeros oc) a zeros_size h
        ∙ omega (arith, get_or-zeros oc o))
