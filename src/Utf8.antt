-- ===== src/Utf8.antt =====
-- src/dfa_utf8_decode.cpp: the table automaton that decodes UTF-8, and the decoder of a buffer. A byte is
-- a number below 256. Bits that do not overlap are added; a mask of ones is a remainder.
pub mod Encoding
pub mod Automaton
pub mod Decode
pub mod Sound
pub mod Accepts
pub mod Buffer
mod Tests
use jaulib.Prelude.{
  ℕ, zero, suc, ◌+◌, ◌-◌, ◌*◌, ◌/◌, ◌%◌, ◌^◌, Bool, List, [], ◌∷◌, ◌++◌, ◌==◌, if◌then◌else◌,
  get_or, take,
}

-- `dfa_utf8d`: the classes of the bytes, then the transitions.
abbrev pub dfa_utf8d : List ℕ
dfa_utf8d =
    (0 ∷ 0 ∷ 0 ∷ 0 ∷ 0 ∷ 0 ∷ 0 ∷ 0 ∷ 0 ∷ 0 ∷ 0 ∷ 0 ∷ 0 ∷ 0 ∷ 0 ∷ 0 ∷ 0 ∷ 0 ∷ 0 ∷ 0 ∷ 0 ∷ 0 ∷ 0 ∷ 0
      ∷ 0 ∷ 0 ∷ 0 ∷ 0 ∷ 0 ∷ 0 ∷ 0 ∷ 0 ∷ [])
    ++ (0 ∷ 0 ∷ 0 ∷ 0 ∷ 0 ∷ 0 ∷ 0 ∷ 0 ∷ 0 ∷ 0 ∷ 0 ∷ 0 ∷ 0 ∷ 0 ∷ 0 ∷ 0 ∷ 0 ∷ 0 ∷ 0 ∷ 0 ∷ 0 ∷ 0 ∷ 0
        ∷ 0 ∷ 0 ∷ 0 ∷ 0 ∷ 0 ∷ 0 ∷ 0 ∷ 0 ∷ 0 ∷ [])
    ++ (0 ∷ 0 ∷ 0 ∷ 0 ∷ 0 ∷ 0 ∷ 0 ∷ 0 ∷ 0 ∷ 0 ∷ 0 ∷ 0 ∷ 0 ∷ 0 ∷ 0 ∷ 0 ∷ 0 ∷ 0 ∷ 0 ∷ 0 ∷ 0 ∷ 0 ∷ 0
        ∷ 0 ∷ 0 ∷ 0 ∷ 0 ∷ 0 ∷ 0 ∷ 0 ∷ 0 ∷ 0 ∷ [])
    ++ (0 ∷ 0 ∷ 0 ∷ 0 ∷ 0 ∷ 0 ∷ 0 ∷ 0 ∷ 0 ∷ 0 ∷ 0 ∷ 0 ∷ 0 ∷ 0 ∷ 0 ∷ 0 ∷ 0 ∷ 0 ∷ 0 ∷ 0 ∷ 0 ∷ 0 ∷ 0
        ∷ 0 ∷ 0 ∷ 0 ∷ 0 ∷ 0 ∷ 0 ∷ 0 ∷ 0 ∷ 0 ∷ [])
    ++ (1 ∷ 1 ∷ 1 ∷ 1 ∷ 1 ∷ 1 ∷ 1 ∷ 1 ∷ 1 ∷ 1 ∷ 1 ∷ 1 ∷ 1 ∷ 1 ∷ 1 ∷ 1 ∷ 9 ∷ 9 ∷ 9 ∷ 9 ∷ 9 ∷ 9 ∷ 9
        ∷ 9 ∷ 9 ∷ 9 ∷ 9 ∷ 9 ∷ 9 ∷ 9 ∷ 9 ∷ 9 ∷ [])
    ++ (7 ∷ 7 ∷ 7 ∷ 7 ∷ 7 ∷ 7 ∷ 7 ∷ 7 ∷ 7 ∷ 7 ∷ 7 ∷ 7 ∷ 7 ∷ 7 ∷ 7 ∷ 7 ∷ 7 ∷ 7 ∷ 7 ∷ 7 ∷ 7 ∷ 7 ∷ 7
        ∷ 7 ∷ 7 ∷ 7 ∷ 7 ∷ 7 ∷ 7 ∷ 7 ∷ 7 ∷ 7 ∷ [])
    ++ (8 ∷ 8 ∷ 2 ∷ 2 ∷ 2 ∷ 2 ∷ 2 ∷ 2 ∷ 2 ∷ 2 ∷ 2 ∷ 2 ∷ 2 ∷ 2 ∷ 2 ∷ 2 ∷ 2 ∷ 2 ∷ 2 ∷ 2 ∷ 2 ∷ 2 ∷ 2
        ∷ 2 ∷ 2 ∷ 2 ∷ 2 ∷ 2 ∷ 2 ∷ 2 ∷ 2 ∷ 2 ∷ [])
    ++ (10 ∷ 3 ∷ 3 ∷ 3 ∷ 3 ∷ 3 ∷ 3 ∷ 3 ∷ 3 ∷ 3 ∷ 3 ∷ 3 ∷ 3 ∷ 4 ∷ 3 ∷ 3 ∷ 11 ∷ 6 ∷ 6 ∷ 6 ∷ 5 ∷ 8 ∷ 8
        ∷ 8 ∷ 8 ∷ 8 ∷ 8 ∷ 8 ∷ 8 ∷ 8 ∷ 8 ∷ 8 ∷ [])
    ++ (0 ∷ 12 ∷ 24 ∷ 36 ∷ 60 ∷ 96 ∷ 84 ∷ 12 ∷ 12 ∷ 12 ∷ 48 ∷ 72 ∷ 12 ∷ 12 ∷ 12 ∷ 12 ∷ 12 ∷ 12 ∷ 12
        ∷ 12 ∷ 12 ∷ 12 ∷ 12 ∷ 12 ∷ [])
    ++ (12 ∷ 0 ∷ 12 ∷ 12 ∷ 12 ∷ 12 ∷ 12 ∷ 0 ∷ 12 ∷ 0 ∷ 12 ∷ 12 ∷ 12 ∷ 24 ∷ 12 ∷ 12 ∷ 12 ∷ 12 ∷ 12
        ∷ 24 ∷ 12 ∷ 24 ∷ 12 ∷ 12 ∷ [])
    ++ (12 ∷ 12 ∷ 12 ∷ 12 ∷ 12 ∷ 12 ∷ 12 ∷ 24 ∷ 12 ∷ 12 ∷ 12 ∷ 12 ∷ 12 ∷ 24 ∷ 12 ∷ 12 ∷ 12 ∷ 12 ∷ 12
        ∷ 12 ∷ 12 ∷ 24 ∷ 12 ∷ 12 ∷ [])
    ++ (12 ∷ 12 ∷ 12 ∷ 12 ∷ 12 ∷ 12 ∷ 12 ∷ 36 ∷ 12 ∷ 36 ∷ 12 ∷ 12 ∷ 12 ∷ 36 ∷ 12 ∷ 12 ∷ 12 ∷ 12 ∷ 12
        ∷ 36 ∷ 12 ∷ 36 ∷ 12 ∷ 12 ∷ [])
    ++ (12 ∷ 36 ∷ 12 ∷ 12 ∷ 12 ∷ 12 ∷ 12 ∷ 12 ∷ 12 ∷ 12 ∷ 12 ∷ 12 ∷ [])

-- `DFA_UTF8_ACCEPT` and `DFA_UTF8_REJECT`
abbrev pub accept : ℕ
accept = 0

abbrev pub reject : ℕ
reject = 12

-- The variables that `dfa_utf8_decode` of one byte changes.
pub record Decoder : Type 0 where
  pub state : ℕ
  pub codep : ℕ

-- `dfa_utf8d[byte_value]`
unfoldable pub class_of : ℕ → ℕ
class_of byte_value = get_or dfa_utf8d byte_value 0

unfoldable pub next_state : ℕ → ℕ → ℕ
next_state state byte_value = get_or dfa_utf8d (256 + state + class_of byte_value) 0

-- `dfa_utf8_decode` of one byte
unfoldable pub step : Decoder → ℕ → Decoder
step d byte_value = record {
  state = next_state d.state byte_value;
  codep =
      if d.state == accept
      then byte_value % (255 / 2 ^ class_of byte_value + 1)
      else byte_value % 64 + d.codep * 2 ^ 6 % 2 ^ 32;
}

-- The same for bytes in turn.
unfoldable pub steps : Decoder → List ℕ → Decoder
steps d [] = d
steps d (b ∷ bs) = steps (step d b) bs

-- The loop of `dfa_utf8_decode` of a buffer: the bytes counted.
unfoldable pub count_bytes : Decoder → List ℕ → ℕ → ℕ
count_bytes d [] byte_count = byte_count
count_bytes d (b ∷ bs) byte_count =
    let rest = count_bytes (step d b) bs (byte_count + 1) in
    if b == 0 then byte_count else if (step d b).state == reject then byte_count else rest

-- The code point is not set at the start.
unfoldable pub decode_buffer : ℕ → List ℕ → List ℕ
decode_buffer unset buffer =
    take (count_bytes (record { state = accept; codep = unset }) buffer 0) buffer
