-- ===== src/Tests/Keys.antt =====
-- Runs of src/leshper/keymap.cpp, and the theorems on it applied.
use lesh.Base.{
  ◌≡◌, refl, true, false, not, ◌&&◌, none, some, List, [], ◌∷◌, ◌++◌, reverse, Bytes, codes, same,
  length, ◌==◌, if◌then◌else◌, arith,
}
use lesh.Decoder.Keys.{up, plain, left, KeyModifiers}
use lesh.Keymap.{
  Entry, KeymapRegistry, lower_bound, bind, unbind, action_for, has_longer, empty_keymap, find_map,
  place, create, erase,
}
use lesh.Keymap.Records.{
  encoded_key_size, encode_key, decode_key, encode_utf8, encoded_keys_as_text,
  encoded_keys_are_text, modifier_bits, text_loop, are_text_loop, key_numbered, modifiers_of,
}
use lesh.Keymap.Notation.{
  parse_key_notation, render_key_notation, notation_loop, parse_angle_group, parse_body,
  strip_modifiers, body_codepoint, modified, control_of, next_scalar, render_loop, render_key,
  body_of,
}
use lesh.Keymap.Reads.{encode_presses, parse_key_notation-render_key_notation}
use lesh.Keymap.Coding.{scalar_key, symbol_key, event_of}
use lesh.Keymap.Table.{IsSorted, any_extends, bind_refines, has_longer-any_extends}
use lesh.Keymap.Stack.{unbound, dispatch, hold, resolve_keys, walk_stack, walk_layers, see, settle}
use lesh.Keymap.Resolve.{
  visible, longer_bound, first_bound, first_default, any_opaque, resolve_keys-visible,
}

abbrev table : List Entry
table =
    record { keys = codes "aaaaaa"; action = codes "one" }
    ∷ record { keys = codes "aaaaaabbbbbb"; action = codes "two" }
    ∷ []

abbrev maps : KeymapRegistry
maps = (codes "base", record empty_keymap { entries = table }) ∷ []

bind_runs :
    (action_for (codes "cccccc") (bind (codes "cccccc") (codes "three") table)
      ≡ some (codes "three"))
    × (action_for (codes "aaaaaa") (bind (codes "aaaaaa") [] table) ≡ none)
    × (has_longer (codes "aaaaaa") table ≡ true)
    × (has_longer (codes "aaaaaabbbbbb") table ≡ false)
    × ((unbind (codes "zzzzzz") table).0 ≡ false)
unfolding bind action_for has_longer unbind lower_bound
bind_runs = (refl, refl, refl, refl, refl)

registry_runs :
    (create [] [] maps ≡ none)
    × (create (codes "new") (codes "gone") maps ≡ none)
    × ((erase (codes "base") maps) ≡ (true, []))
unfolding create find_map place erase
registry_runs = (refl, refl, refl)

resolve_runs :
    (resolve_keys maps (codes "base" ∷ []) (codes "aaaaaa") false ≡ hold)
    × (resolve_keys maps (codes "base" ∷ []) (codes "aaaaaabbbbbb") false ≡ dispatch (codes "two"))
    × (resolve_keys maps (codes "base" ∷ []) (codes "dddddd") true ≡ dispatch (codes "self_insert"))
    × (resolve_keys maps (codes "base" ∷ []) (codes "dddddd") false ≡ unbound)
unfolding resolve_keys walk_stack walk_layers see settle find_map action_for has_longer lower_bound
resolve_runs = (refl, refl, refl, refl)

text_runs :
    (encoded_keys_as_text (encode_key (event_of (scalar_key 0xE9 plain))) ≡ 0xC3 ∷ 0xA9 ∷ [])
    × (encoded_keys_are_text (encode_key (event_of (symbol_key left plain))) ≡ false)
unfolding encoded_keys_as_text encoded_keys_are_text encode_key decode_key encode_utf8 modifier_bits
    text_loop are_text_loop key_numbered modifiers_of
text_runs = (refl, refl)

bind_refines_example :
    IsSorted (bind (codes "aaaaaa") (codes "new") table)
    × ((other : Bytes)
        → action_for other (bind (codes "aaaaaa") (codes "new") table) ≡ (
            if same (codes "aaaaaa") other
            then (if same (codes "new") [] then none else some (codes "new"))
            else action_for other table))
bind_refines_example =
    bind_refines (codes "aaaaaa") (codes "new") table ((refl, tt), (tt, tt))
      (λ e. ground (arith, e))

has_longer-any_extends_example :
    has_longer (codes "aaaaaa") table ≡ any_extends (codes "aaaaaa") table
has_longer-any_extends_example =
    has_longer-any_extends (codes "aaaaaa") table ((refl, tt), (tt, tt))

abbrev control : KeyModifiers
control = record { shift = false; alt = false; ctrl = true }

parse_key_notation-render_key_notation_example :
    parse_key_notation (render_key_notation (encode_presses ((left, control) ∷ (up, plain) ∷ [])))
    ≡ some (encode_presses ((left, control) ∷ (up, plain) ∷ []))
parse_key_notation-render_key_notation_example =
    parse_key_notation-render_key_notation left control ((up, plain) ∷ [])

resolve_keys-visible_example :
    let seen = visible maps (reverse (codes "base" ∷ [])) in
    resolve_keys maps (codes "base" ∷ []) (codes "dddddd") true ≡ (
      if longer_bound (codes "dddddd") seen
      then hold
      else elim (first_bound (codes "dddddd") seen) [
        | some action ↦ dispatch action
        | none ↦
            if not (length (codes "dddddd") == encoded_key_size)
            then unbound
            else elim (first_default seen) [
              | some action ↦ dispatch action
              | none ↦
                  if not (any_opaque seen) && true then dispatch (codes "self_insert") else unbound
            ]
      ])
resolve_keys-visible_example =
    resolve_keys-visible maps (codes "base" ∷ []) (codes "dddddd") true (((refl, tt), (tt, tt)), tt)

notation_runs :
    (parse_key_notation (codes "<C-w>") ≡ some (encode_key (event_of (scalar_key 0x17 plain))))
    × (parse_key_notation (codes "<c-LEFT>")
        ≡ some (encode_key (event_of (symbol_key left control))))
    × (parse_key_notation (codes "<C-1>") ≡ none)
    × (parse_key_notation (codes "a<")
        ≡ some (
            encode_key (event_of (scalar_key b'a' plain))
            ++ encode_key (event_of (scalar_key b'<' plain))))
    × (render_key_notation (encode_key (event_of (symbol_key left control))) ≡ codes "<C-Left>")
unfolding parse_key_notation render_key_notation notation_loop parse_angle_group parse_body
    strip_modifiers body_codepoint modified control_of next_scalar render_loop render_key body_of
    encode_key decode_key encode_utf8 modifier_bits key_numbered modifiers_of
notation_runs = (refl, refl, refl, refl, refl)

-- Alt and `>`, which `<A-gt>` binds, is written in a notation that is not read.
alt_greater_runs :
    let key = encode_key (event_of (scalar_key b'>' (record plain { alt = true }))) in
    (parse_key_notation (codes "<A-gt>") ≡ some key)
    × (render_key_notation key ≡ codes "<A->>")
    × (parse_key_notation (codes "<A->>") ≡ none)
unfolding parse_key_notation render_key_notation notation_loop parse_angle_group parse_body
    strip_modifiers body_codepoint modified control_of next_scalar render_loop render_key body_of
    encode_key decode_key encode_utf8 modifier_bits key_numbered modifiers_of
alt_greater_runs = (refl, refl, refl)
