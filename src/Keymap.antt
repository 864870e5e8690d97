-- ===== src/Keymap.antt =====
-- The tables of src/leshper/keymap.cpp: a keymap's entries, sorted by their encoded keys, and the stack of
-- keymaps that a sequence of keys is resolved against. An iterator of `std::lower_bound` is the table
-- split at it; `_maps` is a list of pairs with one pair for a name.
use lesh.Base.{
  ℕ, ◌+◌, ◌∷◌, Bool, true, false, not, ◌&&◌, ◌||◌, Option, none, some, List, [], ◌++◌, Bytes, codes,
  same, drop, length, ltb, ◌==◌, if◌then◌else◌,
}
pub mod Records
pub mod Coding
pub mod Notation
pub mod Written
pub mod Reads
pub mod Order
pub mod Table
pub mod Stack
pub mod Resolve

-- `std::string_view`'s `<`.
abbrev pub before : Bytes → Bytes → Bool
before [] [] = false
before [] (d ∷ ds) = true
before (c ∷ cs) [] = false
before (c ∷ cs) (d ∷ ds) = ltb c d || (c == d && before cs ds)

abbrev pub starts_with : Bytes → Bytes → Bool
starts_with text [] = true
starts_with [] (c ∷ prefix) = false
starts_with (d ∷ text) (c ∷ prefix) = d == c && starts_with text prefix

pub record Entry : Type 0 where
  pub keys : Bytes
  pub action : Bytes

-- The entries that are before `wanted`, and the others.
unfoldable pub lower_bound : Bytes → List Entry → List Entry × List Entry
lower_bound wanted [] = ([], [])
lower_bound wanted (e ∷ es) =
    let (front, rest) = lower_bound wanted es in
    if before e.keys wanted then (e ∷ front, rest) else ([], e ∷ es)

-- `at != _entries.end() && at->keys == keys`
abbrev pub is_at : Bytes → List Entry → Bool
is_at wanted [] = false
is_at wanted (e ∷ es) = same e.keys wanted

abbrev assign_action : Bytes → List Entry → List Entry
assign_action action [] = []
assign_action action (e ∷ es) = record e { action = action } ∷ es

unfoldable pub bind : Bytes → Bytes → List Entry → List Entry
unfolding lower_bound
bind wanted action entries =
    let (front, rest) = lower_bound wanted entries in
    if same wanted []
    then entries
    else if is_at wanted rest
    then (if same action [] then front ++ drop 1 rest else front ++ assign_action action rest)
    else if same action []
    then entries
    else front ++ (record { keys = wanted; action = action } ∷ rest)

unfoldable pub unbind : Bytes → List Entry → Bool × List Entry
unfolding lower_bound
unbind wanted entries =
    let (front, rest) = lower_bound wanted entries in
    if is_at wanted rest then (true, front ++ drop 1 rest) else (false, entries)

abbrev first_action : List Entry → Option Bytes
first_action [] = none
first_action (e ∷ es) = some e.action

unfoldable pub action_for : Bytes → List Entry → Option Bytes
unfolding lower_bound
action_for wanted entries =
    let rest = (lower_bound wanted entries).1 in
    if is_at wanted rest then first_action rest else none

abbrev pub begins_with : Bytes → List Entry → Bool
begins_with wanted [] = false
begins_with wanted (e ∷ es) = starts_with e.keys wanted

unfoldable pub has_longer : Bytes → List Entry → Bool
unfolding lower_bound
has_longer wanted entries =
    let rest = (lower_bound wanted entries).1 in
    begins_with wanted (if is_at wanted rest then drop 1 rest else rest)

pub record Keymap : Type 0 where
  pub entries : List Entry
  pub opaque : Bool
  pub default_action : Bytes
  pub indicator : Bytes

abbrev pub empty_keymap : Keymap
empty_keymap = record { entries = []; opaque = false; default_action = []; indicator = [] }

abbrev pub KeymapRegistry : Type 0
KeymapRegistry = List (Bytes × Keymap)

unfoldable pub find_map : Bytes → KeymapRegistry → Option Keymap
find_map name [] = none
find_map name ((key, map) ∷ maps) =
    let later = find_map name maps in if same key name then some map else later

-- `insert_or_assign`
unfoldable pub place : Bytes → Keymap → KeymapRegistry → KeymapRegistry
place name map [] = (name, map) ∷ []
place name map ((key, other) ∷ maps) =
    let later = place name map maps in
    if same key name
    then (key, map) ∷ maps
    else if before name key
    then (name, map) ∷ (key, other) ∷ maps
    else (key, other) ∷ later

-- `none` where nothing is created. An absent `copy_from` is empty.
unfoldable pub create : Bytes → Bytes → KeymapRegistry → Option KeymapRegistry
unfolding find_map place
create name copy_from maps =
    if same name []
    then none
    else if same copy_from []
    then some (place name empty_keymap maps)
    else elim (find_map copy_from maps) [ none ↦ none | some map ↦ some (place name map maps) ]

unfoldable pub erase : Bytes → KeymapRegistry → Bool × KeymapRegistry
erase name [] = (false, [])
erase name ((key, map) ∷ maps) =
    let (erased, later) = erase name maps in
    if same key name then (true, maps) else (erased, (key, map) ∷ later)

abbrev pub names : KeymapRegistry → List Bytes
names [] = []
names ((key, map) ∷ maps) = key ∷ names maps
