-- ===== src/Lib.antt =====
-- lesh, a POSIX shell with its own line editor: a verification of the parts that read text, numbers
-- and keys, and of the editor's text and undo.
--
-- The program. src/syntax reads scripts, src/runtime expands words and runs commands, src/leshper is
-- the line editor, src/substrate the helpers of all three, src/ui the terminal loop, history and
-- prompt. What is modelled here is the code of these parts that decides something by itself; what
-- calls the system (processes, files, signals, the screen) is left out.
--
-- Which file models what (paths from the repository's root):
--   Pattern           src/runtime/pattern.cpp, whole, and `append_quoted` of src/runtime/expander.cpp,
--                     which writes the escapes that the matcher reads. Pattern/Spec is a relation
--                     between pattern and text, by rules; whether a bracket expression takes a
--                     byte is there what the code's `match_bracket` says.
--   Numeric           src/substrate/numeric.h: the table of sites, `scan_digits`, `parse_integer`.
--   Text              src/leshper/text.h: positions, slices and the one replacement of the editor.
--   Undo              src/leshper/undo.h, and `apply_edit` of src/leshper/editor.cpp, its one caller.
--                     A session is a sequence of commands: Undo/Session has the step and what is
--                     reached by steps.
--   SourceMap         src/syntax/source_map.h: lines and columns of offsets, behind a memo.
--   Utf8, Decoder     src/leshper/decode.cpp with the keys of src/leshper/event.h: bytes from the
--                     terminal to keys and pastes. Utf8 has the scalar scan and `well_formed`,
--                     Decoder the state machine; it calls `scan_digits` of Numeric. Decoder/Waits
--                     is about sequences of calls of `feed`.
--   Pager             src/leshper/pager.cpp: which completions match, which is selected, what part of
--                     the grid is shown, what Tab inserts.
--   Keymap            src/leshper/keymap.cpp: Records has the encoded keys, Notation how they are
--                     written and read, Keymap itself the sorted table and the registry, Stack the
--                     resolution of a sequence of keys.
--   KillStore         src/leshper/kill_store.cpp: registers of killed text.
--   Arithmetic        src/runtime/arithmetic.cpp, whole: the evaluator of `$(( ))`, with its variables as
--                     the interface of arithmetic.h. Words has the 64-bit operations, State the
--                     evaluator, Parser the grammar; Follows to Returns say what each part may do and
--                     that it ends; Trees has expressions with a meaning of their own, and Gives to
--                     Whole read them back.
--
-- How the code is modelled. A text is the list of its bytes, and a position in a string_view that a
-- loop moves is the text from there on, or an index. A plain char is signed, as on x86 and on
-- arm64 of Apple. A 64-bit word is a number below 2 ^ 64, its wrap-around written out; sizes and
-- offsets into a text in memory do not wrap. An operation on an object takes the object and returns
-- it changed; an output vector is a list that is returned. An instant is a number of milliseconds.
--
-- Fuel. `match_loop` takes the fuel of `loop_fuel`, a product of the lengths of pattern and text, and
-- never runs out of it. The loops of `well_formed`, of `parse_parameters` and of `drain` take the length of
-- their text: each round takes a byte at least. `step_back` takes one more than the offset that it
-- steps back from, since every line starts before the one under it. `evaluate` takes 32 for each byte of
-- its text and 27 more: between two bytes that are read the parser goes down through 27 calls at most. The
-- loops over encoded keys and over notation take the length of their text.
--
-- Not modelled: the lexer, the parser and the executor, field splitting, the screen,
-- the default key bindings, vi mode, fibers, the history store, the prompt. Grapheme segmentation and
-- display width come from generated tables and are parameters where they are used.
pub mod Base
pub mod Numeric
pub mod Pattern
pub mod Text
pub mod Undo
pub mod SourceMap
pub mod Utf8
pub mod Decoder
pub mod Pager
pub mod Keymap
pub mod KillStore
pub mod Arithmetic
pub mod Tests
