-- ===== src/Utf8/Encoding.antt =====
-- UTF-8 as RFC 3629 defines it, independently of src/dfa_utf8_decode.cpp.
use jaulib.Prelude.{ℕ, ◌+◌, ◌/◌, ◌%◌, ◌<◌, ◌≤◌, List, [], ◌∷◌, ◌++◌, ltb, if◌then◌else◌}

-- Unicode scalar values: code points that are no surrogates.
pub data IsScalar (c : ℕ) : Type 0 where
  below_surrogates : c < 55296 → IsScalar c
  above_surrogates : 57344 ≤ c → c < 1114112 → IsScalar c

unfoldable pub encode : ℕ → List ℕ
encode c =
    let low = 128 + c % 64 in
    let middle = 128 + c / 64 % 64 in
    let high = 128 + c / 4096 % 64 in
    let two = (192 + c / 64) ∷ low ∷ [] in
    let three = (224 + c / 4096) ∷ middle ∷ low ∷ [] in
    let four = (240 + c / 262144) ∷ high ∷ middle ∷ low ∷ [] in
    if ltb c 128 then c ∷ [] else if ltb c 2048 then two else if ltb c 65536 then three else four

-- A text, and the bytes of it.
unfoldable pub encode_text : List ℕ → List ℕ
encode_text [] = []
encode_text (c ∷ cs) = encode c ++ encode_text cs
