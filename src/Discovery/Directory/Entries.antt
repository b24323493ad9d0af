-- ===== src/Discovery/Directory/Entries.antt =====
-- The entries of the directory of nodes.
use open_audio.Common.{ℕ, ◌+◌, ◌-◌, ◌≤◌, ◌≡◌, refl, arith, true, Bool-cases, inl, inr, ltb}
use open_audio.Common.{if◌then◌else◌, Option, none, some, List, [], ◌∷◌, length}
use open_audio.Discovery.Labels.{normalize_channel_labels_lem}
use open_audio.Discovery.Directory.{
  Texts, NodeAdvertisement, DiscoveredNode, Directory, valid_advertisement, node_of, contains_node,
  insert_node, hear, prune, listen_round,
}

module _ {T : Type 0} where
  -- A node has 1 to 64 channels with a label each.
  abbrev pub IsPlayable : DiscoveredNode T → Type 0
  IsPlayable n =
      (1 ≤ n.channel_count) × (n.channel_count ≤ 64) × (length n.channel_labels ≡ n.channel_count)

  abbrev pub AllPlayable : Directory T → Type 0
  AllPlayable [] = Unit {0}
  AllPlayable ((i, n) ∷ rest) = IsPlayable n × AllPlayable rest

  abbrev pub IsSound : Directory T → Type 0
  IsSound d = (length d ≤ 256) × AllPlayable d

module _ {T : Type 0} (texts : Texts T) where
  valid-IsPlayable :
      (advert : NodeAdvertisement T) (ip : T) (now : ℕ)
      → valid_advertisement texts advert ≡ true
      → IsPlayable (node_of texts advert ip now)
  unfolding valid_advertisement
  valid-IsPlayable advert ip now v = (
    ground arith,
    ground arith,
    (normalize_channel_labels_lem texts.channel_label advert.channel_count advert.channel_labels).0,
  )

  insert_node-AllPlayable :
      (id : T) (node : DiscoveredNode T) (d : Directory T)
      → IsPlayable node
      → AllPlayable d
      → AllPlayable (insert_node texts id node d)
  insert_node-AllPlayable id node [] p h = (p, tt)
  insert_node-AllPlayable id node ((i, n) ∷ rest) p (q, h) = elim (Bool-cases (texts.same i id)) [
    | inl e ↦ rw e (p, h)
    | inr e ↦ rw e (q, insert_node-AllPlayable id node rest p h)
  ]

  length-insert_node :
      (id : T) (node : DiscoveredNode T) (d : Directory T)
      → length (insert_node texts id node d)
        ≡ (if contains_node texts id d then length d else length d + 1)
  length-insert_node id node [] = refl
  length-insert_node id node ((i, n) ∷ rest) = ground (arith, length-insert_node id node rest)

  hear-IsSound :
      (d : Directory T) (advert : NodeAdvertisement T) (ip : T) (now : ℕ)
      → IsSound d
      → IsSound (hear texts d advert ip now)
  unfolding hear
  hear-IsSound d advert ip now (few, all) = elim (Bool-cases (valid_advertisement texts advert)) [
    | inr e ↦ rw e (few, all)
    | inl e ↦ rw e (elim (Bool-cases (contains_node texts advert.node_id d)) [
      | inl known ↦
          let same = length-insert_node advert.node_id (node_of texts advert ip now) d in
          rw known (
            ground (arith, same),
            insert_node-AllPlayable advert.node_id _ d (valid-IsPlayable advert ip now e) all,
          )
      | inr new ↦
          let more = length-insert_node advert.node_id (node_of texts advert ip now) d in
          rw new (elim (Bool-cases (ltb (length d) 256)) [
            | inl room ↦ rw room (
              ground (arith, more),
              insert_node-AllPlayable advert.node_id _ d (valid-IsPlayable advert ip now e) all,
            )
            | inr full ↦ rw full (few, all)
          ])
    ])
  ]

  length-prune : (now : ℕ) (d : Directory T) → length (prune texts now d) ≤ length d
  length-prune now [] = omega arith
  length-prune now ((i, n) ∷ rest) = ground (arith, length-prune now rest)

  prune-IsSound : (now : ℕ) (d : Directory T) → IsSound d → IsSound (prune texts now d)
  prune-IsSound now [] s = s
  prune-IsSound now ((i, n) ∷ rest) (few, (p, all)) =
      let (fewer, kept) = prune-IsSound now rest (omega arith, all) in
      elim (Bool-cases (ltb (now - n.last_seen) 3_000_000_000)) [
        | inl e ↦ rw e (omega (arith, length-prune now rest, few), (p, kept))
        | inr e ↦ rw e (fewer, kept)
      ]

  -- What was received in each round, with the times of the arrival and of the pruning.
  abbrev pub rounds : Directory T → List (Option (NodeAdvertisement T × T) × ℕ × ℕ) → Directory T
  rounds d [] = d
  rounds d ((received, now, later) ∷ rest) = rounds (listen_round texts d received now later) rest

  round-IsSound :
      (d : Directory T) (received : Option (NodeAdvertisement T × T)) (now later : ℕ)
      → IsSound d
      → IsSound (listen_round texts d received now later)
  round-IsSound d none now later s = prune-IsSound later d s
  round-IsSound d (some (advert, ip)) now later s =
      prune-IsSound later (hear texts d advert ip now) (hear-IsSound d advert ip now s)

  rounds-IsSound :
      (d : Directory T) (rs : List (Option (NodeAdvertisement T × T) × ℕ × ℕ))
      → IsSound d
      → IsSound (rounds d rs)
  rounds-IsSound d [] s = s
  rounds-IsSound d ((received, now, later) ∷ rest) s =
      rounds-IsSound (listen_round texts d received now later) rest
        (round-IsSound d received now later s)

  -- After any rounds from an empty directory, whatever was received, the directory has at most 256
  -- nodes, each with 1 to 64 channels and a label for each channel.
  pub reachable-IsSound :
      (rs : List (Option (NodeAdvertisement T × T) × ℕ × ℕ)) → IsSound (rounds [] rs)
  reachable-IsSound rs = rounds-IsSound [] rs (omega arith, tt)
