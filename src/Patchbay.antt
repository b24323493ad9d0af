-- ===== src/Patchbay.antt =====
-- apps/sender/src/patchbay.rs: the matrix of publishers and receivers. Texts are of a type with a
-- test of equality, and the volume, which no operation changes, is left out.
pub mod Sets
mod Tests
use open_audio.Common.{ℕ, Bool, true, false, ◌&&◌, ◌||◌, not, if◌then◌else◌, List, [], ◌∷◌, ◌++◌}

pub record PatchbayNode (T : Type 0) : Type 0 where
  pub id : T
  pub name : T
  pub channels : ℕ
  pub ip_address : T
  pub is_publisher : Bool

-- The `HashSet` is the list of its elements, each once.
pub record PatchbayMatrix (T : Type 0) : Type 0 where
  pub publishers : List (PatchbayNode T)
  pub receivers : List (PatchbayNode T)
  pub active_patches : List (T × T)

-- Equality of texts.
pub record Texts (T : Type 0) : Type 0 where
  pub same : T → T → Bool

module _ {T : Type 0} where
  abbrev pub new_matrix : PatchbayMatrix T
  new_matrix = record { publishers = []; receivers = []; active_patches = [] }

  abbrev pub add_publisher : PatchbayMatrix T → T → T → ℕ → T → PatchbayMatrix T
  add_publisher m id name channels ip = record m {
    publishers =
        m.publishers
        ++ record {
          id = id;
          name = name;
          channels = channels;
          ip_address = ip;
          is_publisher = true;
        }
          ∷ [];
  }

  abbrev pub add_receiver : PatchbayMatrix T → T → T → ℕ → T → PatchbayMatrix T
  add_receiver m id name channels ip = record m {
    receivers =
        m.receivers
        ++ record {
          id = id;
          name = name;
          channels = channels;
          ip_address = ip;
          is_publisher = false;
        }
          ∷ [];
  }

  abbrev pub clear_patches : PatchbayMatrix T → PatchbayMatrix T
  clear_patches m = record m { active_patches = [] }

module _ {T : Type 0} (texts : Texts T) where
  abbrev pub same_key : T × T → T × T → Bool
  same_key (a, b) (c, d) = texts.same a c && texts.same b d

  -- `contains`, `remove` and `insert` of the set.
  abbrev pub contains_key : T × T → List (T × T) → Bool
  contains_key key [] = false
  contains_key key (k ∷ ks) = same_key k key || contains_key key ks

  abbrev pub remove_key : T × T → List (T × T) → List (T × T)
  remove_key key [] = []
  remove_key key (k ∷ ks) =
      let rest = remove_key key ks in if same_key k key then rest else k ∷ rest

  abbrev pub insert_key : T × T → List (T × T) → List (T × T)
  insert_key key ks = if contains_key key ks then ks else key ∷ ks

  pub is_patched : PatchbayMatrix T → T → T → Bool
  is_patched m pub_id rec_id = contains_key (pub_id, rec_id) m.active_patches

  pub set_patched : PatchbayMatrix T → T → T → Bool → PatchbayMatrix T
  set_patched m pub_id rec_id patched =
      let key : T × T = (pub_id, rec_id) in
      record m {
        active_patches =
            if patched then insert_key key m.active_patches else remove_key key m.active_patches;
      }

  -- What the call returns, and the matrix after it.
  pub toggle_patch : PatchbayMatrix T → T → T → Bool × PatchbayMatrix T
  toggle_patch m pub_id rec_id =
      let key : T × T = (pub_id, rec_id) in
      if contains_key key m.active_patches
      then (false, record m { active_patches = remove_key key m.active_patches })
      else (true, record m { active_patches = insert_key key m.active_patches })
