-- ===== src/Fec/Recovery.antt =====
-- `FecDecoder::decode_fec` gives back the one missing payload of a group.
use mathlib.Core.Path.{ap₂}
use open_audio.Common.{ℕ, zero, suc, ◌+◌, ◌*◌, ◌^◌, ◌<◌, ◌≤◌, ◌≡◌, ◌≢◌, refl, ap, ◌∙◌, arith}
use open_audio.Common.{true, false, Bool-cases, inl, inr, if◌then◌else◌, ◌==◌, ==_iff, ==_ne}
use open_audio.Common.{none, some, List, [], ◌∷◌, length, get_or, take, length-take}
use open_audio.Common.{wrapping_add, saturating_add, ltb}
use open_audio.Common.Xor.{bit_xor}
use open_audio.Common.SortedMap.{SortedMap, lookup}
use open_audio.Protocol.Parse.{ParsedPacket}
use open_audio.Protocol.FecPacket.{ParsedFecPacket}
use open_audio.Fec.{
  FecDecoder, scan_group, reconstruct, decode_fec, xor_all, record_received, recovered_packet,
  read_floats,
}
use open_audio.Fec.Parity.{
  column, get_or-xor_all, length-xor_all, list_ext, column_swap, column_cancel,
}

-- A group of payloads by their offset from the base sequence number: all from offset `i` on, `n`
-- of them, and the same without the one at offset `k`.
abbrev pub group : (ℕ → List ℕ) → ℕ → ℕ → List (List ℕ)
group payload i zero = []
group payload i (suc n) = payload i ∷ group payload (i + 1) n

abbrev pub group_without : ℕ → (ℕ → List ℕ) → ℕ → ℕ → List (List ℕ)
group_without k payload i zero = []
group_without k payload i (suc n) =
    let rest = group_without k payload (i + 1) n in if i == k then rest else payload i ∷ rest

abbrev missing_at : ℕ → ℕ → ℕ → ℕ → List ℕ
missing_at k base i zero = []
missing_at k base i (suc n) =
    let rest = missing_at k base (i + 1) n in if i == k then wrapping_add base i ∷ rest else rest

missing_none : (k base i n : ℕ) → k < i → missing_at k base i n ≡ []
missing_none k base i zero h = refl
missing_none k base i (suc n) h = ground (arith, missing_none k base (i + 1) n)

missing_one :
    (k base i n : ℕ) → i ≤ k → k < i + n → missing_at k base i n ≡ wrapping_add base k ∷ []
missing_one k base i zero lo hi = absurd (omega arith)
missing_one k base i (suc n) lo hi = elim (Bool-cases (i == k)) [
  | inl e ↦ ground (arith, missing_none k base (i + 1) n)
  | inr e ↦ ground (arith, missing_one k base (i + 1) n)
]

column-group_none :
    (k : ℕ) (payload : ℕ → List ℕ) (i n t : ℕ)
    → k < i
    → column (group payload i n) t ≡ column (group_without k payload i n) t
column-group_none k payload i zero t h = refl
column-group_none k payload i (suc n) t h = ground (arith, column-group_none k payload (i + 1) n t)

-- The column of the whole group is the missing byte with the column of the others.
column-group :
    (k : ℕ) (payload : ℕ → List ℕ) (i n t : ℕ)
    → i ≤ k
    → k < i + n
    → column (group payload i n) t
      ≡ bit_xor (get_or (payload k) t 0) (column (group_without k payload i n) t)
column-group k payload i zero t lo hi = absurd (omega arith)
column-group k payload i (suc n) t lo hi = elim (Bool-cases (i == k)) [
  | inl e ↦
      let same : i ≡ k = (==_iff i k).0 e in
      rw e (
        ap₂ (λ a b. bit_xor (get_or (payload a) t 0) b) same
          (column-group_none k payload (i + 1) n t (omega arith)))
  | inr e ↦ rw e (
      ap (λ c. bit_xor (get_or (payload i) t 0) c)
        (column-group k payload (i + 1) n t (omega (arith, ==_ne i k e)) (omega arith))
      ∙ column_swap (get_or (payload i) t 0) (get_or (payload k) t 0)
          (column (group_without k payload (i + 1) n) t))
]

-- The history holds every payload of the group but the one at offset `k`.
pub record HoldsAllBut (k : ℕ) (history : SortedMap (List ℕ)) (base n : ℕ) (payload : ℕ → List ℕ)
    : Type 0 where
  pub held : (i : ℕ) → i < n → i ≢ k → lookup (wrapping_add base i) history ≡ some (payload i)
  pub lost : lookup (wrapping_add base k) history ≡ none

scan_absent :
    (history : SortedMap (List ℕ)) (base i n : ℕ)
    → lookup (wrapping_add base i) history ≡ none
    → scan_group history base i (suc n) ≡ (
      wrapping_add base i ∷ (scan_group history base (i + 1) n).0,
      (scan_group history base (i + 1) n).1,
    )
unfolding scan_group
scan_absent history base i n h = rw (h, scan_group)

scan_held :
    (history : SortedMap (List ℕ)) (base i n : ℕ) {p : List ℕ}
    → lookup (wrapping_add base i) history ≡ some p
    → scan_group history base i (suc n)
      ≡ ((scan_group history base (i + 1) n).0, p ∷ (scan_group history base (i + 1) n).1)
unfolding scan_group
scan_held history base i n h = rw (h, scan_group)

scan_group_lem :
    (history : SortedMap (List ℕ)) (k base total : ℕ) (payload : ℕ → List ℕ) (i n : ℕ)
    → HoldsAllBut k history base total payload
    → i + n ≡ total
    → scan_group history base i n ≡ (missing_at k base i n, group_without k payload i n)
scan_group_lem history k base total payload i zero h e = unfold scan_group in refl
scan_group_lem history k base total payload i (suc n) h e =
    let ih = scan_group_lem history k base total payload (i + 1) n h (omega arith) in
    elim (Bool-cases (i == k)) [
      | inl same ↦
          let at_k : lookup (wrapping_add base i) history ≡ none =
            rw (let eq : i ≡ k = (==_iff i k).0 same in eq) h.lost in
          scan_absent history base i n at_k ∙ rw (ih, same)
      | inr other ↦
          scan_held history base i n (h.held i (omega arith) (==_ne i k other)) ∙ rw (ih, other)
    ]

get_or-take : (n i : ℕ) (xs : List ℕ) → i < n → get_or (take n xs) i 0 ≡ get_or xs i 0
get_or-take zero i xs h = absurd (omega arith)
get_or-take (suc n) i [] h = refl
get_or-take (suc n) zero (x ∷ xs) h = refl
get_or-take (suc n) (suc i) (x ∷ xs) h = get_or-take n i xs (omega arith)

-- A parity payload that has, at each of its bytes, the column of the group.
abbrev pub IsParity : List ℕ → (ℕ → List ℕ) → ℕ → Type 0
IsParity parity payload n =
    (t : ℕ) → t < length parity → get_or parity t 0 ≡ column (group payload 0 n) t

-- The parity with the others taken out of it starts with the missing payload.
take-xor_all :
    (k n : ℕ) (payload : ℕ → List ℕ) (parity : List ℕ)
    → k < n
    → IsParity parity payload n
    → length (payload k) ≤ length parity
    → take (length (payload k)) (xor_all parity (group_without k payload 0 n)) ≡ payload k
take-xor_all k n payload parity hk hp fits =
    let others = group_without k payload 0 n in
    let mixed = xor_all parity others in
    let m = length-xor_all parity others in
    let l = length-take (length (payload k)) mixed in
    list_ext (take (length (payload k)) mixed) (payload k) (omega (arith, l, m)) (λ t ht.
      let inside : t < length (payload k) = omega (arith, l) in
      get_or-take (length (payload k)) t mixed inside
      ∙ get_or-xor_all parity others t (omega arith)
      ∙ ap (λ b. bit_xor b (column others t))
          (hp t (omega arith) ∙ column-group k payload 0 n t (omega arith) (omega arith))
      ∙ column_cancel (get_or (payload k) t 0) (column others t))

reconstruct_lem :
    (d : FecDecoder) (fec : ParsedFecPacket) (sequence : ℕ) (mixed p : List ℕ)
    → length p ≡ fec.channel_count * fec.samples_per_channel * 4
    → length p < 2 ^ 64
    → length p ≤ length mixed
    → take (length p) mixed ≡ p
    → reconstruct d fec sequence mixed
      ≡ some (
        (recovered_packet fec sequence, read_floats p),
        record (record_received d sequence p) {
          recovered_count = saturating_add (record_received d sequence p).recovered_count 1;
        },
      )
unfolding reconstruct
reconstruct_lem d fec sequence mixed p e small fits cut =
    let cut' : take (fec.channel_count * fec.samples_per_channel * 4) mixed ≡ p = rw (← e) cut in
    let samples_fit : ltb (fec.channel_count * fec.samples_per_channel) (2 ^ 64) ≡ true =
      ground (arith, e, small) in
    let bytes_fit : ltb (fec.channel_count * fec.samples_per_channel * 4) (2 ^ 64) ≡ true =
      ground (arith, e, small) in
    let enough : ltb (length mixed) (fec.channel_count * fec.samples_per_channel * 4) ≡ false =
      ground (arith, e, fits) in
    rw samples_fit (rw bytes_fit (rw (enough, cut')))

decode_one :
    (d : FecDecoder) (fec : ParsedFecPacket) (parity : List ℕ) (sequence : ℕ)
    (present : List (List ℕ)) {found : ParsedPacket × List ℕ} {d' : FecDecoder}
    → scan_group d.history fec.base_sequence_number 0 fec.packet_count ≡ (sequence ∷ [], present)
    → reconstruct d fec sequence (xor_all parity present) ≡ some (found, d')
    → decode_fec d fec parity ≡ (some found, d')
unfolding decode_fec
decode_one d fec parity sequence present h r =
    rw (h, decode_fec) (rw (ap (λ (s : List ℕ × List (List ℕ)). s.1) h) (rw r))

-- If the history holds every payload of a group of `n` but the one at offset `k`, the parity
-- payload is the parity of the group, and the missing payload has the size that the FEC packet's
-- format gives and is no longer than the parity, then `decode_fec` returns the missing packet: its
-- sequence number, and the samples of its payload. The payload is recorded and counted.
pub decode_fec_recovers :
    (d : FecDecoder) (fec : ParsedFecPacket) (parity : List ℕ) (payload : ℕ → List ℕ) (k : ℕ)
    → k < fec.packet_count
    → HoldsAllBut k d.history fec.base_sequence_number fec.packet_count payload
    → IsParity parity payload fec.packet_count
    → length (payload k) ≡ fec.channel_count * fec.samples_per_channel * 4
    → length (payload k) < 2 ^ 64
    → length (payload k) ≤ length parity
    → let missing = wrapping_add fec.base_sequence_number k in
      let d' = record_received d missing (payload k) in
      decode_fec d fec parity ≡ (
        some (recovered_packet fec missing, read_floats (payload k)),
        record d' { recovered_count = saturating_add d'.recovered_count 1 },
      )
decode_fec_recovers d fec parity payload k hk h hp e small fits =
    let base = fec.base_sequence_number in
    let n = fec.packet_count in
    let others = group_without k payload 0 n in
    decode_one d fec parity (wrapping_add base k) others
      (scan_group_lem d.history k base n payload 0 n h (omega arith)
        ∙ ap (λ (m : List ℕ). (m, others)) (missing_one k base 0 n (omega arith) (omega arith)))
      (reconstruct_lem d fec (wrapping_add base k) (xor_all parity others) (payload k) e small
        (omega (arith, length-xor_all parity others)) (take-xor_all k n payload parity hk hp fits))
