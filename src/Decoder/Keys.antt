-- ===== src/Decoder/Keys.antt =====
-- The keys of src/leshper/event.h, and the tables of src/leshper/decode.cpp that name them.
use lesh.Base.{
  ℕ, ◌-◌, ◌/◌, ◌%◌, Bool, true, false, ◌||◌, Option, none, some, Bytes, ltb, ◌==◌, if◌then◌else◌,
}

pub data NamedKey : Type 0 where
  backspace left right home end up down page_up page_down insert delete_forward : NamedKey
  f1 f2 f3 f4 f5 f6 f7 f8 f9 f10 f11 f12 : NamedKey

pub record KeyModifiers : Type 0 where
  pub shift : Bool
  pub alt : Bool
  pub ctrl : Bool

abbrev pub plain : KeyModifiers
plain = record { shift = false; alt = false; ctrl = false }

pub record KeyEvent : Type 0 where
  pub codepoint : ℕ
  pub named : Bool
  pub key : NamedKey
  pub modifiers : KeyModifiers

-- The alternatives of `event` that the decoder makes.
pub data Event : Type 0 where
  key : KeyEvent → Event
  paste : Bytes → Event

-- The two functions `key_event::of`.
abbrev pub key_of : ℕ → KeyModifiers → Event
key_of c modifiers =
    key (record { codepoint = c; named = false; key = backspace; modifiers = modifiers })

abbrev pub named_of : Option NamedKey → KeyModifiers → Option Event
named_of none modifiers = none
named_of (some k) modifiers =
    some (key (record { codepoint = 0; named = true; key = k; modifiers = modifiers }))

-- Bit 0 is shift, bit 1 alt and bit 2 ctrl of one less than the parameter.
unfoldable pub modifiers_from : ℕ → KeyModifiers
modifiers_from parameter = if ltb parameter 2 then plain else record {
  shift = (parameter - 1) % 2 == 1;
  alt = (parameter - 1) / 2 % 2 == 1;
  ctrl = (parameter - 1) / 4 % 2 == 1;
}

unfoldable pub key_for_final : ℕ → Option NamedKey
key_for_final c =
    if c == 65
    then some up
    else if c == 66
    then some down
    else if c == 67
    then some right
    else if c == 68
    then some left
    else if c == 72
    then some home
    else if c == 70
    then some end
    else if c == 80
    then some f1
    else if c == 81
    then some f2
    else if c == 82
    then some f3
    else if c == 83
    then some f4
    else none

unfoldable pub key_for_tilde : ℕ → Option NamedKey
key_for_tilde n =
    if n == 1 || n == 7
    then some home
    else if n == 2
    then some insert
    else if n == 3
    then some delete_forward
    else if n == 4 || n == 8
    then some end
    else if n == 5
    then some page_up
    else if n == 6
    then some page_down
    else if n == 11
    then some f1
    else if n == 12
    then some f2
    else if n == 13
    then some f3
    else if n == 14
    then some f4
    else if n == 15
    then some f5
    else if n == 17
    then some f6
    else if n == 18
    then some f7
    else if n == 19
    then some f8
    else if n == 20
    then some f9
    else if n == 21
    then some f10
    else if n == 23
    then some f11
    else if n == 24
    then some f12
    else none
