-- ===== src/BasicTypes.antt =====
-- src/basic_types.cpp: hexadecimal strings of bytes, and trimming. A string is the list of its characters'
-- codes. What a read outside the bytes would give is left to 0.
pub mod Hex
pub mod Trim
mod Tests
use mathlib.Core.List.{reverse}
use jaulib.Prelude.{
  ℕ, zero, suc, ◌+◌, ◌-◌, ◌/◌, ◌%◌, Bool, List, [], ◌∷◌, ◌++◌, Option, none, some, ◌==◌,
  if◌then◌else◌, get_or,
}

-- `HEX_ARRAY_LOW` and `HEX_ARRAY_BIG`
abbrev pub hex_array_low : List ℕ
hex_array_low =
    48 ∷ 49 ∷ 50 ∷ 51 ∷ 52 ∷ 53 ∷ 54 ∷ 55 ∷ 56 ∷ 57 ∷ 97 ∷ 98 ∷ 99 ∷ 100 ∷ 101 ∷ 102 ∷ []

abbrev pub hex_array_big : List ℕ
hex_array_big = 48 ∷ 49 ∷ 50 ∷ 51 ∷ 52 ∷ 53 ∷ 54 ∷ 55 ∷ 56 ∷ 57 ∷ 65 ∷ 66 ∷ 67 ∷ 68 ∷ 69 ∷ 70 ∷ []

abbrev pub hex_array : Bool → List ℕ
hex_array lower_case = if lower_case then hex_array_low else hex_array_big

-- The two digits that one byte gives: `hex_array[v >> 4]` and `hex_array[v & 0x0F]`.
unfoldable pub byte_digits : Bool → ℕ → List ℕ
byte_digits lower_case v =
    get_or (hex_array lower_case) (v % 256 / 16) 0
    ∷ get_or (hex_array lower_case) (v % 256 % 16) 0
    ∷ []

-- The loop from the byte at `j` up, for `count` bytes.
unfoldable pub digits_up : Bool → List ℕ → ℕ → ℕ → List ℕ
digits_up lower_case bytes j zero = []
digits_up lower_case bytes j (suc count) =
    byte_digits lower_case (get_or bytes j 0) ++ digits_up lower_case bytes (j + 1) count

-- The loop down to the byte at `offset`.
unfoldable pub digits_down : Bool → List ℕ → ℕ → ℕ → List ℕ
digits_down lower_case bytes offset zero = []
digits_down lower_case bytes offset (suc j) =
    byte_digits lower_case (get_or bytes (offset + j) 0) ++ digits_down lower_case bytes offset j

-- `bytesHexString`; no bytes is the null pointer.
unfoldable pub bytes_hex_string : Option (List ℕ) → ℕ → ℕ → Bool → Bool → List ℕ
bytes_hex_string none offset length lsb_first lower_case = 110 ∷ 117 ∷ 108 ∷ 108 ∷ []
bytes_hex_string (some bytes) offset length lsb_first lower_case =
    if length == 0
    then 110 ∷ 105 ∷ 108 ∷ []
    else if lsb_first
    then digits_up lower_case bytes offset length
    else 48 ∷ 120 ∷ digits_down lower_case bytes offset length

-- `byteHexString`
unfoldable pub byte_hex_string : List ℕ → ℕ → Bool → List ℕ
byte_hex_string dest value lower_case = dest ++ byte_digits lower_case value

module _ (isspace : ℕ → Bool) where
  -- From the first character on that `find_if` finds to be no space.
  unfoldable pub drop_spaces : List ℕ → List ℕ
  drop_spaces [] = []
  drop_spaces (c ∷ s) = if isspace c then drop_spaces s else c ∷ s

  -- `trimInPlace` and `trimCopy`: the second search runs backwards.
  unfoldable pub trim : List ℕ → List ℕ
  trim s = reverse (drop_spaces (reverse (drop_spaces s)))
