-- ===== src/Text.antt =====
-- src/leshper/text.h: the text being edited and positions in it. A position is its byte offset, and
-- a buffer its bytes.
pub mod Steps
use lesh.Base.{
  ℕ, zero, suc, ◌+◌, ◌-◌, Bool, true, false, not, ◌&&◌, Option, none, some, [], ◌∷◌, ◌++◌, Bytes,
  get_elem?, take, drop, length, ltb, leb, ◌==◌, if◌then◌else◌,
}

-- `(byte & 0xC0) == 0x80`: the byte lies between 0x80 and 0xBF.
abbrev pub is_continuation : ℕ → Bool
is_continuation byte = leb 128 byte && ltb byte 192

abbrev pub clamp : Bytes → ℕ → ℕ
clamp text offset = if ltb offset (length text) then offset else length text

unfoldable pub slice : Bytes → ℕ → ℕ → Bytes
slice text from to =
    let first = clamp text from in
    let last = clamp text to in if leb last first then [] else take (last - first) (drop first text)

-- `while (at < _bytes.size() && is_continuation(_bytes[at])) ++at;`, as the bytes passed.
unfoldable pub continuations : Bytes → ℕ
continuations [] = 0
continuations (c ∷ text) =
    let more = suc (continuations text) in if is_continuation c then more else 0

unfoldable pub next_position : Bytes → ℕ → ℕ
unfolding continuations
next_position text from =
    let at = clamp text from in
    if leb (length text) at then length text else at + 1 + continuations (drop (at + 1) text)

abbrev continues_at : Option ℕ → Bool
continues_at none = false
continues_at (some c) = is_continuation c

-- `while (at > 0 && is_continuation(_bytes[at])) --at;`
unfoldable pub back_up : Bytes → ℕ → ℕ
back_up text zero = zero
back_up text (suc at) =
    let further = back_up text at in
    if continues_at (get_elem? text (suc at)) then further else suc at

unfoldable pub previous_position : Bytes → ℕ → ℕ
unfolding back_up
previous_position text from =
    let at = clamp text from in if at == 0 then 0 else back_up text (at - 1)

-- The new bytes, and where the replacement ends.
unfoldable pub replace : Bytes → ℕ → ℕ → Bytes → Bytes × ℕ
replace text from to inserted =
    let first = clamp text from in
    let last = if ltb (clamp text to) first then first else clamp text to in
    (take first text ++ (inserted ++ drop last text), first + length inserted)

unfoldable pub is_boundary : Bytes → ℕ → Bool
is_boundary text at =
    if ltb (length text) at
    then false
    else if at == length text
    then true
    else not (continues_at (get_elem? text at))

abbrev pub clamped : Bytes → ℕ → ℕ
clamped = clamp
