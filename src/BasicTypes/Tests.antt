-- ===== src/BasicTypes/Tests.antt =====
-- Runs of the model of src/basic_types.cpp, and its theorems at concrete strings.
use mathlib.Core.List.{reverse}
use jaulib.Prelude.{ℕ, ◌≡◌, refl, true, false, Bool, List, [], ◌∷◌, some, ◌==◌, take, drop, arith}
use jaulib.ByteUtil.Bytes.{IsBytes, none_left, one_more}
use jaulib.BasicTypes.{bytes_hex_string, trim}
use jaulib.BasicTypes.Hex.{digits_of, bytes_hex_string-digits_of}
use jaulib.BasicTypes.Trim.{Trimmed, trim-Trimmed}

abbrev isspace : ℕ → Bool
isspace c = c == 32

abbrev bytes : List ℕ
bytes = 9 ∷ 26 ∷ 188 ∷ []

-- "0xbc1a"
prints : bytes_hex_string (some bytes) 1 2 false true ≡ 48 ∷ 120 ∷ 98 ∷ 99 ∷ 49 ∷ 97 ∷ []
unfolding bytes_hex_string jaulib.BasicTypes.digits_down jaulib.BasicTypes.byte_digits
prints = refl

bytes-IsBytes : IsBytes bytes
bytes-IsBytes =
    one_more 9 _ (omega arith)
      (one_more 26 _ (omega arith) (one_more 188 _ (omega arith) none_left))

bytes_hex_string-digits_of_example :
    bytes_hex_string (some bytes) 1 2 false true
    ≡ 48 ∷ 120 ∷ digits_of true (reverse (take 2 (drop 1 bytes)))
bytes_hex_string-digits_of_example =
    bytes_hex_string-digits_of bytes 1 2 false true bytes-IsBytes (omega arith) (omega arith)

trim-Trimmed_example :
    Trimmed isspace (32 ∷ 65 ∷ 32 ∷ 66 ∷ 32 ∷ []) (trim isspace (32 ∷ 65 ∷ 32 ∷ 66 ∷ 32 ∷ []))
trim-Trimmed_example = trim-Trimmed isspace (32 ∷ 65 ∷ 32 ∷ 66 ∷ 32 ∷ [])
