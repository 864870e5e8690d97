-- ===== src/Tests/Terminal.antt =====
-- Runs of src/leshper/decode.cpp, and the theorems on it applied.
use lesh.Base.{
  ◌+◌, ◌≤◌, ◌<◌, ◌≡◌, inl, refl, false, none, some, codes, [], ◌∷◌, ◌++◌, length, drop, arith,
}
use lesh.Utf8.{escape_codepoint, scan_scalar, scalar, well_formed}
use lesh.Utf8.Encode.{IsScalar, encode, WellFormed, done, char}
use lesh.Utf8.Scan.{scan_scalar-encode, scan_scalar_sound}
use lesh.Utf8.Clean.{well_formed-WellFormed, well_formed-append}
use lesh.Decoder.{
  InputDecoder, consume_one, feed, expire, starts_with_escape, or_else, paste_end_marker,
  run_length, kept, drain_loop,
}
use lesh.Decoder.Keys.{plain, key_of}
use lesh.Decoder.Drain.{feed-held}
use lesh.Decoder.Waits.{feed_all, bytes_of, expire-feed_all}
use lesh.Decoder.Stable.{consume_one-append}

-- A decoder that holds an escape since 100, with a deadline.
abbrev waiting : InputDecoder
waiting = record {
  escape_timeout = 25;
  deadline = some 125;
  held = 27 ∷ [];
  payload = [];
  pasting = false;
}

scan_scalar-encode_example :
    scan_scalar (encode 8364 ++ codes "x") ≡ scalar 8364 (length (encode 8364))
scan_scalar-encode_example = scan_scalar-encode 8364 (codes "x") (inl (omega arith))

scan_scalar_sound_example :
    let scan = scan_scalar (226 ∷ 130 ∷ 172 ∷ 33 ∷ []) in
    IsScalar scan.codepoint
    × (226 ∷ 130 ∷ 172 ∷ 33 ∷ []
        ≡ encode scan.codepoint ++ drop scan.length (226 ∷ 130 ∷ 172 ∷ 33 ∷ []))
    × (scan.length ≡ length (encode scan.codepoint))
unfolding scan_scalar
scan_scalar_sound_example = scan_scalar_sound (226 ∷ 130 ∷ 172 ∷ 33 ∷ []) refl refl

well_formed-WellFormed_example : WellFormed (well_formed (97 ∷ 192 ∷ 98 ∷ 226 ∷ []))
well_formed-WellFormed_example = well_formed-WellFormed (97 ∷ 192 ∷ 98 ∷ 226 ∷ [])

well_formed-append_example :
    well_formed (encode 8364 ++ (192 ∷ 98 ∷ [])) ≡ encode 8364 ++ well_formed (192 ∷ 98 ∷ [])
well_formed-append_example =
    well_formed-append (encode 8364) (192 ∷ 98 ∷ []) (char 8364 (inl (omega arith)) done)

consume_one-append_example : consume_one (codes "x" ++ codes "[D") [] ≡ consume_one (codes "x") []
unfolding consume_one lesh.Decoder.emit_text scan_scalar
consume_one-append_example = consume_one-append (codes "x") (codes "[D") [] (λ e. ground arith)

-- A decoder that holds nothing.
abbrev idle : InputDecoder
idle = record { escape_timeout = 25; deadline = none; held = []; payload = []; pasting = false }

expire-feed_all_example :
    let held =
      (feed idle (codes "x" ++ (27 ∷ [])) 100).0.held
      ++ bytes_of ((codes "[1", 110) ∷ (codes ";", 124) ∷ []) in
    let waits =
      feed_all
        (feed idle (codes "x" ++ (27 ∷ [])) 100).0
        ((codes "[1", 110) ∷ (codes ";", 124) ∷ []) in
    let alone = feed (record waits { deadline = none; held = [] }) (drop 1 held) 125 in
    (waits.held ≡ held)
    × (waits.deadline ≡ some (100 + 25))
    × (125 < 100 + 25 → expire waits 125 ≡ (waits, []))
    × (100 + 25 ≤ 125 → expire waits 125 ≡ (alone.0, key_of escape_codepoint plain ∷ alone.1))
unfolding feed lesh.Decoder.drain drain_loop consume_one lesh.Decoder.consume_escape
    lesh.Decoder.consume_csi run_length lesh.Decoder.emit_text scan_scalar lesh.Decoder.arm feed_all
    bytes_of
expire-feed_all_example =
    expire-feed_all idle (codes "x" ++ (27 ∷ [])) 100 125
      ((codes "[1", 110) ∷ (codes ";", 124) ∷ []) refl refl refl refl

-- The escape that the `feed` holds came at 124; the deadline is that of the one it completed.
completed_escape_deadline_run :
    ((feed waiting (codes "[A" ++ (27 ∷ [])) 124).0.deadline ≡ some 125)
    × ((feed waiting (codes "[A" ++ (27 ∷ [])) 124).0.held ≡ 27 ∷ [])
unfolding feed lesh.Decoder.drain drain_loop consume_one lesh.Decoder.consume_escape
    lesh.Decoder.consume_csi lesh.Decoder.finish_csi run_length lesh.Decoder.emit_text scan_scalar
    lesh.Decoder.arm lesh.Decoder.Csi.parse_parameters lesh.Decoder.Csi.store
    lesh.Decoder.Csi.parameter_loop
completed_escape_deadline_run = (refl, refl)

feed-held_example : length (feed waiting (codes "x" ++ (226 ∷ [])) 120).0.held ≤ 5
unfolding feed lesh.Decoder.drain drain_loop consume_one lesh.Decoder.consume_escape
    lesh.Decoder.emit_text scan_scalar lesh.Decoder.arm
feed-held_example = feed-held waiting (codes "x" ++ (226 ∷ [])) 120 refl
