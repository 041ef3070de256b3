-- ===== src/Utf8/Tests.antt =====
-- Runs of the model of src/dfa_utf8_decode.cpp, and its theorems at concrete texts.
use jaulib.Prelude.{ℕ, ◌≡◌, refl, List, [], ◌∷◌, ◌++◌, take, arith}
use jaulib.Utf8.{steps, accept, decode_buffer}
use jaulib.Utf8.Encoding.{IsScalar, below_surrogates, above_surrogates, encode, encode_text}
use jaulib.Utf8.Automaton.{decoder}
use jaulib.Utf8.Decode.{Decodes, encode-Decodes}
use jaulib.Utf8.Sound.{no_more, and_byte}
use jaulib.Utf8.Accepts.{Decodes-encode}
use jaulib.Utf8.Buffer.{
  IsText, no_text, next_char, at_zero, decode_buffer-encode_text, decode_buffer_truncated,
}

-- The euro sign.
decodes_euro : steps (decoder accept 0) (226 ∷ 130 ∷ 172 ∷ []) ≡ decoder accept 8364
unfolding steps jaulib.Utf8.step jaulib.Utf8.next_state jaulib.Utf8.class_of
decodes_euro = refl

abbrev text : List ℕ
text = 65 ∷ 8364 ∷ 128512 ∷ []

text-IsText : IsText text
text-IsText = next_char 65 _ (omega arith) (below_surrogates (omega arith)) (
    next_char 8364 _ (omega arith) (below_surrogates (omega arith))
      (next_char 128512 [] (omega arith) (above_surrogates (omega arith) (omega arith)) no_text))

encode-Decodes_smile : Decodes (decoder accept 7) (encode 128512) 128512
encode-Decodes_smile = encode-Decodes 128512 7 (above_surrogates (omega arith) (omega arith))

encode-Decodes_example : Decodes (decoder accept 7) (encode 128512) 128512
encode-Decodes_example = encode-Decodes 128512 7 (above_surrogates (omega arith) (omega arith))

decode_buffer-encode_text_example :
    decode_buffer 7 (encode_text text ++ 0 ∷ 255 ∷ []) ≡ encode_text text
decode_buffer-encode_text_example =
    decode_buffer-encode_text text (0 ∷ 255 ∷ []) 7 text-IsText (at_zero (255 ∷ []))

decode_buffer_truncated_example :
    decode_buffer 7 (encode_text text ++ take 2 (encode 8364))
    ≡ encode_text text ++ take 2 (encode 8364)
unfolding encode
decode_buffer_truncated_example =
    decode_buffer_truncated text 8364 2 7 text-IsText (omega arith) (below_surrogates (omega arith))
      (omega arith)

Decodes-encode_example : IsScalar 128512 × (encode 128512 ≡ encode 128512)
unfolding encode
Decodes-encode_example =
    Decodes-encode 128512 7 (encode 128512)
      (and_byte 240 _ (omega arith) (
        and_byte 159 _ (omega arith)
          (and_byte 152 _ (omega arith) (and_byte 128 [] (omega arith) no_more))))
      encode-Decodes_smile
