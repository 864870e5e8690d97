-- ===== src/Keymap/Stack.antt =====
-- The resolution of a sequence of keys in src/leshper/keymap.cpp. A stack is the list of its layers'
-- names, the base first.
use lesh.Base.{
  Bool, true, false, not, ◌&&◌, ◌||◌, Option, none, some, List, [], ◌∷◌, reverse, Bytes, codes,
  length, ◌==◌, if◌then◌else◌,
}
use lesh.Keymap.{Keymap, KeymapRegistry, find_map, action_for, has_longer}
use lesh.Decoder.Keys.{KeyEvent}
use lesh.Keymap.Records.{encoded_key_size, decode_key, is_self_inserting}

pub data Resolution : Type 0 where
  unbound : Resolution
  dispatch : Bytes → Resolution
  hold : Resolution

pub record Found : Type 0 where
  pub exact : Option Bytes
  pub fallback : Option Bytes
  pub prefix : Bool
  pub floored : Bool

abbrev pub nothing_found : Found
nothing_found = record { exact = none; fallback = none; prefix = false; floored = true }

abbrev pub or_some : Option Bytes → Option Bytes → Option Bytes
or_some none later = later
or_some (some x) later = some x

-- A name that is empty is not there.
abbrev pub declared : Bytes → Option Bytes
declared [] = none
declared (c ∷ cs) = some (c ∷ cs)

-- What one keymap adds.
unfoldable pub see : Keymap → Bytes → Found → Found
see map candidate seen = record {
  exact = or_some seen.exact (action_for candidate map.entries);
  fallback = or_some seen.fallback (declared map.default_action);
  prefix = seen.prefix || has_longer candidate map.entries;
  floored = seen.floored && not map.opaque;
}

-- The layers, the topmost first.
unfoldable pub walk_layers : KeymapRegistry → List Bytes → Bytes → Found → Found
unfolding find_map see
walk_layers maps [] candidate seen = seen
walk_layers maps (name ∷ layers) candidate seen = elim (find_map name maps) [
  | none ↦ walk_layers maps layers candidate seen
  | some map ↦
      let after = see map candidate seen in
      let below = walk_layers maps layers candidate after in if map.opaque then after else below
]

unfoldable pub walk_stack : KeymapRegistry → List Bytes → Bytes → Found
unfolding walk_layers
walk_stack maps stack candidate = walk_layers maps (reverse stack) candidate nothing_found

unfoldable pub settle : Found → Bytes → Bool → Resolution
settle seen candidate printable = elim seen.exact [
  | some action ↦ dispatch action
  | none ↦ if not (length candidate == encoded_key_size) then unbound else elim seen.fallback [
    | some action ↦ dispatch action
    | none ↦ if seen.floored && printable then dispatch (codes "self_insert") else unbound
  ]
]

unfoldable pub resolve_keys : KeymapRegistry → List Bytes → Bytes → Bool → Resolution
unfolding walk_stack settle
resolve_keys maps stack candidate printable =
    let seen = walk_stack maps stack candidate in
    if seen.prefix then hold else settle seen candidate printable

abbrev decoded_inserts : Option (KeyEvent × Bytes) → Bool
decoded_inserts none = false
decoded_inserts (some (key, rest)) = is_self_inserting key

unfoldable pub resolve_expired_keys : KeymapRegistry → List Bytes → Bytes → Resolution
unfolding walk_stack settle decode_key is_self_inserting
resolve_expired_keys maps stack held =
    let printable = length held == encoded_key_size && decoded_inserts (decode_key held) in
    settle (walk_stack maps stack held) held printable

abbrev or_below : Bytes → Bytes → Bytes
or_below [] below = below
or_below (c ∷ cs) below = c ∷ cs

abbrev indicator_in : KeymapRegistry → List Bytes → Bytes
indicator_in maps [] = []
indicator_in maps (name ∷ layers) =
    let below = indicator_in maps layers in
    elim (find_map name maps) [ none ↦ below | some map ↦ or_below map.indicator below ]

unfoldable pub indicator_of : KeymapRegistry → List Bytes → Bytes
unfolding find_map
indicator_of maps stack = indicator_in maps (reverse stack)
