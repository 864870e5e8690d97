-- ===== src/Decoder.antt =====
-- src/leshper/decode.cpp, the decoder: bytes from the terminal become keys and pastes. An instant is
-- a number of milliseconds, and an object's changes are what its operations return.
pub mod Keys
pub mod Csi
pub mod Drain
pub mod Waits
pub mod Stable
use lesh.Base.{
  find, ℕ, zero, suc, ◌+◌, ◌-◌, Bool, true, false, not, ◌&&◌, ◌||◌, Option, none, some, List, [],
  ◌∷◌, ◌++◌, Bytes, same, take, drop, length, ltb, leb, ◌==◌, if◌then◌else◌, min,
}
use lesh.Utf8.{scan_scalar, well_formed, escape_byte, escape_codepoint, replacement_character}
use lesh.Decoder.Keys.{
  KeyModifiers, plain, Event, key, paste, key_of, named_of, modifiers_from, key_for_final,
  key_for_tilde,
}
use lesh.Decoder.Csi.{parse_parameters}

-- ESC [ 2 0 1 ~
abbrev pub paste_end_marker : Bytes
paste_end_marker = 27 ∷ 91 ∷ 50 ∷ 48 ∷ 49 ∷ 126 ∷ []

abbrev paste_start_parameter : ℕ
paste_start_parameter = 200

abbrev paste_end_parameter : ℕ
paste_end_parameter = 201

-- What one consumer did: the bytes it took, what it pushed, and `_pasting` and `_paste` behind it.
pub record Consumed : Type 0 where
  pub taken : ℕ
  pub events : List Event
  pub pasting : Bool
  pub payload : Bytes

abbrev pub took : ℕ → List Event → Bytes → Consumed
took n events payload = record { taken = n; events = events; pasting = false; payload = payload }

unfoldable pub emit_text : Bytes → KeyModifiers → Bytes → Consumed
emit_text rest modifiers payload =
    let scan = scan_scalar rest in
    if scan.incomplete
    then took 0 [] payload
    else took scan.length
        (key_of (if scan.malformed then replacement_character else scan.codepoint) modifiers ∷ [])
        payload

-- `while (at < rest.size() && low <= rest[at] <= high) ++at;`, as the bytes passed.
unfoldable pub run_length : ℕ → ℕ → Bytes → ℕ
run_length low high [] = 0
run_length low high (c ∷ rest) =
    let more = suc (run_length low high rest) in if leb low c && leb c high then more else 0

abbrev named_events : Option Event → List Event
named_events none = []
named_events (some e) = e ∷ []

-- A final byte, behind `at` bytes.
unfoldable pub finish_csi : ℕ → ℕ → Bytes → Bytes → Consumed
finish_csi at final_byte parameter_text payload =
    let parameters = parse_parameters parameter_text in
    if ltb final_byte 64 || ltb 126 final_byte
    then took at [] payload
    else if parameters.private_use
    then took (at + 1) [] payload
    else if final_byte == 126
    then if parameters.first == paste_start_parameter
      then record { taken = at + 1; events = []; pasting = true; payload = payload }
      else if parameters.first == paste_end_parameter
      then took (at + 1) [] payload
      else took (at + 1)
          (named_events
            (named_of (key_for_tilde parameters.first) (modifiers_from parameters.second)))
          payload
    else if not parameters.has_first || parameters.first == 1
    then took (at + 1)
        (named_events (named_of (key_for_final final_byte) (modifiers_from parameters.second)))
        payload
    else took (at + 1) [] payload

abbrev pub end_csi : ℕ → Bytes → Bytes → Bytes → Consumed
end_csi at parameter_text payload [] = took 0 [] payload
end_csi at parameter_text payload (final_byte ∷ after) =
    finish_csi at final_byte parameter_text payload

-- `body` is what follows the ESC and the `[`.
unfoldable pub consume_csi : Bytes → Bytes → Consumed
consume_csi body payload =
    let parameters = run_length 48 63 body in
    let intermediates = run_length 32 47 (drop parameters body) in
    end_csi (2 + parameters + intermediates) (take parameters body) payload
      (drop intermediates (drop parameters body))

-- `body` is what follows the ESC and the `O`.
unfoldable pub consume_ss3 : Bytes → Bytes → Consumed
consume_ss3 [] payload = took 0 [] payload
consume_ss3 (final_byte ∷ after) payload =
    if ltb final_byte 64 || ltb 126 final_byte
    then took 2 [] payload
    else took 3 (named_events (named_of (key_for_final final_byte) plain)) payload

abbrev after_escape : Consumed → Consumed
after_escape c = record c { taken = if c.taken == 0 then 0 else c.taken + 1 }

-- `body` is what follows the ESC.
unfoldable pub consume_escape : Bytes → Bytes → Consumed
consume_escape [] payload = took 0 [] payload
consume_escape (next ∷ body) payload =
    if next == 91
    then consume_csi body payload
    else if next == 79
    then consume_ss3 body payload
    else if next == escape_byte
    then took 1 (key_of escape_codepoint plain ∷ []) payload
    else after_escape
        (emit_text (next ∷ body) (record { shift = false; alt = true; ctrl = false }) payload)

unfoldable pub consume_one : Bytes → Bytes → Consumed
consume_one [] payload = took 0 [] payload
consume_one (c ∷ rest) payload =
    if c == escape_byte then consume_escape rest payload else emit_text (c ∷ rest) plain payload

-- The loop that keeps back what may begin the marker.
unfoldable pub kept : Bytes → ℕ → ℕ
kept rest zero = 0
kept rest (suc keep) =
    let fewer = kept rest keep in
    if same (drop (length rest - suc keep) rest) (take (suc keep) paste_end_marker)
    then suc keep
    else fewer

abbrev pub paste_from : Bytes → Bytes → Option ℕ → Consumed
paste_from rest payload (some marker) = record {
  taken = marker + length paste_end_marker;
  events = paste (well_formed (payload ++ take marker rest)) ∷ [];
  pasting = false;
  payload = [];
}
paste_from rest payload none =
    let n = length rest - kept rest (min (length rest) (length paste_end_marker - 1)) in
    record { taken = n; events = []; pasting = true; payload = payload ++ take n rest }

unfoldable pub consume_paste : Bytes → Bytes → Consumed
consume_paste rest payload = paste_from rest payload (find paste_end_marker rest)

abbrev pub consume : Bool → Bytes → Bytes → Consumed
consume true rest payload = consume_paste rest payload
consume false rest payload = consume_one rest payload

-- What `drain` leaves: the two members on pastes, the bytes held, and what it pushed.
pub record Drained : Type 0 where
  pub held : Bytes
  pub pushed : List Event
  pub pasting : Bool
  pub payload : Bytes

-- The loop of `drain`, on fuel.
unfoldable pub drain_loop : ℕ → Bool → Bytes → Bytes → Drained
drain_loop zero pasting payload rest = record {
  held = rest;
  pushed = [];
  pasting = pasting;
  payload = payload;
}
drain_loop (suc f) pasting payload [] = record {
  held = [];
  pushed = [];
  pasting = pasting;
  payload = payload;
}
drain_loop (suc f) pasting payload (c ∷ rest) =
    let one = consume pasting (c ∷ rest) payload in
    let more = drain_loop f one.pasting one.payload (drop one.taken (c ∷ rest)) in
    if one.taken == 0
    then record { held = c ∷ rest; pushed = []; pasting = pasting; payload = payload }
    else record more { pushed = one.events ++ more.pushed }

pub record InputDecoder : Type 0 where
  pub escape_timeout : ℕ
  pub deadline : Option ℕ
  pub held : Bytes
  pub payload : Bytes
  pub pasting : Bool

unfoldable pub drain : InputDecoder → InputDecoder × List Event
drain d =
    let after = drain_loop (length d.held) d.pasting d.payload d.held in
    (record d { held = after.held; payload = after.payload; pasting = after.pasting }, after.pushed)

abbrev pub starts_with_escape : Bytes → Bool
starts_with_escape [] = false
starts_with_escape (c ∷ rest) = c == escape_byte

abbrev pub or_else : Option ℕ → ℕ → ℕ
or_else none n = n
or_else (some m) n = m

unfoldable pub arm : InputDecoder → ℕ → InputDecoder
arm d now =
    if d.pasting || not (starts_with_escape d.held)
    then record d { deadline = none }
    else record d { deadline = some (or_else d.deadline (now + d.escape_timeout)) }

unfoldable pub feed : InputDecoder → Bytes → ℕ → InputDecoder × List Event
feed d bytes now =
    let (d', pushed) = drain (record d { held = d.held ++ bytes }) in (arm d' now, pushed)

abbrev pub is_due : Option ℕ → ℕ → Bool
is_due none now = false
is_due (some deadline) now = not (ltb now deadline)

unfoldable pub expire : InputDecoder → ℕ → InputDecoder × List Event
expire d now =
    if not (is_due d.deadline now)
    then (d, [])
    else if not (starts_with_escape d.held)
    then (record d { deadline = none }, [])
    else let (d', pushed) = drain (record d { deadline = none; held = drop 1 d.held }) in
      (arm d' now, key_of escape_codepoint plain ∷ pushed)

unfoldable pub reset : InputDecoder → InputDecoder
reset d = record d { held = []; payload = []; pasting = false; deadline = none }

unfoldable pub holding : InputDecoder → Bool
holding d = not (same d.held []) || d.pasting
