-- ===== src/Discovery/Directory.antt =====
-- crates/network-core/src/discovery.rs: the directory of nodes that `start_discovery_listener`
-- keeps. Texts are of a type with the operations of strings that the code uses as parameters.
pub mod Entries
use open_audio.Common.{ℕ, ◌-◌, Bool, true, false, not, ◌&&◌, ◌||◌, ltb, leb, ◌==◌, if◌then◌else◌}
use open_audio.Common.{Option, none, some, List, [], ◌∷◌, length}
use open_audio.Discovery.{normalize_channel_labels}

abbrev pub max_discovered_nodes : ℕ
max_discovered_nodes = 256

-- MAX_NODE_ID_BYTES and the limits of the other texts, which are the same.
abbrev pub max_text_bytes : ℕ
max_text_bytes = 128

abbrev pub max_supported_channels : ℕ
max_supported_channels = 64

-- `trim().is_empty()`, `len()`, `chars().any(char::is_control)`, `==`, and `format!("Channel {}", n)`.
pub record Texts (T : Type 0) : Type 0 where
  pub is_blank : T → Bool
  pub bytes : T → ℕ
  pub has_control : T → Bool
  pub same : T → T → Bool
  pub channel_label : ℕ → T

pub record NodeAdvertisement (T : Type 0) : Type 0 where
  pub node_id : T
  pub node_name : T
  pub stream_id : ℕ
  pub stream_name : T
  pub control_port : ℕ
  pub channel_count : ℕ
  pub channel_labels : List T
  pub encrypted : Bool

pub record DiscoveredNode (T : Type 0) : Type 0 where
  pub node_id : T
  pub node_name : T
  pub stream_id : ℕ
  pub stream_name : T
  pub ip : T
  pub control_port : ℕ
  pub channel_count : ℕ
  pub channel_labels : List T
  pub encrypted : Bool
  pub last_seen : ℕ

-- The `HashMap` from node ids by its entries, one for each id.
abbrev pub Directory : Type 0 → Type 0
Directory T = List (T × DiscoveredNode T)

module _ {T : Type 0} (texts : Texts T) where
  abbrev pub valid_text : T → ℕ → Bool
  valid_text value maximum_bytes =
      not (texts.is_blank value)
      && leb (texts.bytes value) maximum_bytes
      && not (texts.has_control value)

  abbrev pub valid_labels : List T → Bool
  valid_labels [] = true
  valid_labels (label ∷ rest) = valid_text label max_text_bytes && valid_labels rest

  pub valid_advertisement : NodeAdvertisement T → Bool
  valid_advertisement advert =
      valid_text advert.node_id max_text_bytes
      && valid_text advert.node_name max_text_bytes
      && valid_text advert.stream_name max_text_bytes
      && not (advert.control_port == 0)
      && leb 1 advert.channel_count
      && leb advert.channel_count max_supported_channels
      && leb (length advert.channel_labels) advert.channel_count
      && valid_labels advert.channel_labels

  abbrev pub node_of : NodeAdvertisement T → T → ℕ → DiscoveredNode T
  node_of advert ip now = record {
    node_id = advert.node_id;
    node_name = advert.node_name;
    stream_id = advert.stream_id;
    stream_name = advert.stream_name;
    ip = ip;
    control_port = advert.control_port;
    channel_count = advert.channel_count;
    channel_labels =
        normalize_channel_labels texts.channel_label advert.channel_count advert.channel_labels;
    encrypted = advert.encrypted;
    last_seen = now;
  }

  -- `contains_key` and `insert` of the map.
  abbrev pub contains_node : T → Directory T → Bool
  contains_node id [] = false
  contains_node id ((i, n) ∷ rest) = texts.same i id || contains_node id rest

  abbrev pub insert_node : T → DiscoveredNode T → Directory T → Directory T
  insert_node id node [] = (id, node) ∷ []
  insert_node id node ((i, n) ∷ rest) =
      let later = insert_node id node rest in
      if texts.same i id then (i, node) ∷ rest else (i, n) ∷ later

  -- The directory after an advertisement from `ip` at the time `now`.
  pub hear : Directory T → NodeAdvertisement T → T → ℕ → Directory T
  hear directory advert ip now =
      if valid_advertisement advert
      then (if contains_node advert.node_id directory || ltb (length directory) max_discovered_nodes
          then insert_node advert.node_id (node_of advert ip now) directory
          else directory)
      else directory

  -- `retain` of the nodes that were seen less than 3 s ago.
  abbrev pub prune : ℕ → Directory T → Directory T
  prune now [] = []
  prune now ((i, n) ∷ rest) =
      let kept = prune now rest in
      if ltb (now - n.last_seen) 3_000_000_000 then (i, n) ∷ kept else kept

  -- One round of the loop: what was received, as the JSON parser reads it, and the pruning at the
  -- time `later`.
  abbrev pub listen_round : Directory T → Option (NodeAdvertisement T × T) → ℕ → ℕ → Directory T
  listen_round directory none now later = prune later directory
  listen_round directory (some (advert, ip)) now later = prune later (hear directory advert ip now)
