-- ===== src/Keymap/Resolve.antt =====
-- What the stack of keymaps of src/leshper/keymap.cpp does with a sequence of keys, said of the keymaps
-- that can be seen from its top.
use lesh.Base.{
  ◌≡◌, refl, sym, ap, subst, ◌∙◌, inl, inr, Bool, true, false, not, ◌&&◌, ◌||◌, Option, none, some,
  List, [], ◌∷◌, reverse, Bytes, codes, same, All, Bool-cases, Option-cases, length, ◌==◌,
  if◌then◌else◌, arith,
}
use lesh.Keymap.{Keymap, KeymapRegistry, find_map}
use lesh.Keymap.Records.{encoded_key_size}
use lesh.Keymap.Table.{
  IsSorted, action_of, any_extends, action_for-action_of, has_longer-any_extends,
}
use lesh.Keymap.Stack.{
  unbound, dispatch, hold, Found, nothing_found, or_some, declared, see, walk_layers, walk_stack,
  settle, resolve_keys,
}

-- The keymaps from the topmost down to the first opaque one, and it; a name without a keymap is not there.
abbrev pub visible : KeymapRegistry → List Bytes → List Keymap
visible maps [] = []
visible maps (name ∷ layers) =
    let below = visible maps layers in
    elim (find_map name maps) [
      | none ↦ below
      | some map ↦ if map.opaque then map ∷ [] else map ∷ below
    ]

abbrev pub first_bound : Bytes → List Keymap → Option Bytes
first_bound candidate [] = none
first_bound candidate (map ∷ maps) =
    or_some (action_of candidate map.entries) (first_bound candidate maps)

abbrev pub first_default : List Keymap → Option Bytes
first_default [] = none
first_default (map ∷ maps) = or_some (declared map.default_action) (first_default maps)

abbrev pub longer_bound : Bytes → List Keymap → Bool
longer_bound candidate [] = false
longer_bound candidate (map ∷ maps) =
    any_extends candidate map.entries || longer_bound candidate maps

abbrev pub any_opaque : List Keymap → Bool
any_opaque [] = false
any_opaque (map ∷ maps) = map.opaque || any_opaque maps

-- Every table is sorted.
abbrev pub IsTidy : KeymapRegistry → Type 0
IsTidy maps = All (λ p. IsSorted p.1.entries) maps

abbrev map_or : Keymap → Option Keymap → Keymap
map_or other none = other
map_or other (some map) = map

find_map-IsSorted :
    (name : Bytes) (maps : KeymapRegistry) (map : Keymap)
    → IsTidy maps
    → find_map name maps ≡ some map
    → IsSorted map.entries
unfolding find_map
find_map-IsSorted name [] map t e = ground arith
find_map-IsSorted name ((key, other) ∷ maps) map t e = elim (Bool-cases (same key name)) [
  | inl s ↦ subst (λ m. IsSorted m.entries) (ap (map_or other) (rw s at e)) t.0
  | inr s ↦ find_map-IsSorted name maps map t.1 (rw s at e)
]

-- What was seen before, and what is seen in further keymaps.
abbrev combined : Bytes → Found → List Keymap → Found
combined candidate seen maps = record {
  exact = or_some seen.exact (first_bound candidate maps);
  fallback = or_some seen.fallback (first_default maps);
  prefix = seen.prefix || longer_bound candidate maps;
  floored = seen.floored && not (any_opaque maps);
}

or_some_assoc : (a b c : Option Bytes) → or_some (or_some a b) c ≡ or_some a (or_some b c)
or_some_assoc none b c = refl
or_some_assoc (some x) b c = refl

or_some-none : (a : Option Bytes) → or_some a none ≡ a
or_some-none none = refl
or_some-none (some x) = refl

or_assoc : (a b c : Bool) → ((a || b) || c) ≡ (a || (b || c))
or_assoc true b c = refl
or_assoc false b c = refl

floor_assoc : (a b c : Bool) → ((a && not b) && not c) ≡ (a && not (b || c))
floor_assoc true b c = ground arith
floor_assoc false b c = refl

-- Seeing a keymap, then others, is seeing it among them.
see-combined :
    (candidate : Bytes) (map : Keymap) (maps : List Keymap) (seen : Found)
    → IsSorted map.entries
    → combined candidate (see map candidate seen) maps ≡ combined candidate seen (map ∷ maps)
unfolding see
see-combined candidate map maps seen s =
    rw
      (action_for-action_of candidate map.entries s, has_longer-any_extends candidate map.entries s)
      (rw
        (
          or_some_assoc seen.exact (action_of candidate map.entries) (first_bound candidate maps),
          or_some_assoc seen.fallback (declared map.default_action) (first_default maps),
          or_assoc seen.prefix (any_extends candidate map.entries) (longer_bound candidate maps),
          floor_assoc seen.floored map.opaque (any_opaque maps),
        )
        refl)

combined-nil : (candidate : Bytes) (seen : Found) → combined candidate seen [] ≡ seen
combined-nil candidate seen =
    rw (or_some-none seen.exact, or_some-none seen.fallback) (nil-Found seen)
  where
    nil-Found :
        (seen : Found)
        → record seen { prefix = seen.prefix || false; floored = seen.floored && true } ≡ seen
    nil-Found seen = ground arith

one_layer :
    (map : Keymap) (candidate : Bytes) (seen : Found) (maps : List Keymap)
    → IsSorted map.entries
    → (last : Bool) → {below : Found} → below ≡ combined candidate (see map candidate seen) maps
    → (if last then see map candidate seen else below)
      ≡ combined candidate seen (if last then map ∷ [] else map ∷ maps)
one_layer map candidate seen maps s true e =
    sym (combined-nil candidate (see map candidate seen)) ∙ see-combined candidate map [] seen s
one_layer map candidate seen maps s false e = e ∙ see-combined candidate map maps seen s

walk_layers-visible :
    (maps : KeymapRegistry) (layers : List Bytes) (candidate : Bytes) (seen : Found)
    → IsTidy maps
    → walk_layers maps layers candidate seen ≡ combined candidate seen (visible maps layers)
unfolding walk_layers
walk_layers-visible maps [] candidate seen t = sym (combined-nil candidate seen)
walk_layers-visible maps (name ∷ layers) candidate seen t =
    elim (Option-cases (find_map name maps)) [
      | inl e ↦ rw (e, walk_layers, visible) (walk_layers-visible maps layers candidate seen t)
      | inr (map, e) ↦
          let s = find_map-IsSorted name maps map t e in
          rw (e, walk_layers, visible)
            (one_layer map candidate seen (visible maps layers) s map.opaque
              (walk_layers-visible maps layers candidate (see map candidate seen) t))
    ]

-- Where every table is sorted: a sequence waits where a keymap in sight binds one that extends it; else the
-- topmost keymap in sight that binds it decides; a single key that none binds goes to the topmost default
-- action in sight, and one that types itself, with no default and nothing opaque, to `self_insert`.
pub resolve_keys-visible :
    (maps : KeymapRegistry) (stack : List Bytes) (candidate : Bytes) (printable : Bool)
    → IsTidy maps
    → let seen = visible maps (reverse stack) in
      resolve_keys maps stack candidate printable ≡ (
        if longer_bound candidate seen then hold else elim (first_bound candidate seen) [
          | some action ↦ dispatch action
          | none ↦
              if not (length candidate == encoded_key_size)
              then unbound
              else elim (first_default seen) [
                | some action ↦ dispatch action
                | none ↦
                    if not (any_opaque seen) && printable
                    then dispatch (codes "self_insert")
                    else unbound
              ]
        ])
unfolding resolve_keys walk_stack settle
resolve_keys-visible maps stack candidate printable t =
    rw (walk_layers-visible maps (reverse stack) candidate nothing_found t) refl
