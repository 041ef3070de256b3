-- ===== src/Utf8/Buffer.antt =====
-- src/dfa_utf8_decode.cpp: what `dfa_utf8_decode` of a buffer keeps of a text.
use jaulib.Prelude.{
  ℕ, zero, suc, ◌+◌, ◌<◌, ◌≡◌, ◌≢◌, ap, ◌∙◌, List, [], ◌∷◌, ◌++◌, append_assoc, length,
  length-append, take, take-append_length, take-length, length-take, ltb, ◌==◌, ne→==_false,
  Bool-cases, inl, inr, arith,
}
use jaulib.Utf8.{Decoder, step, next_state, accept, reject, count_bytes, decode_buffer}
use jaulib.Utf8.Encoding.{IsScalar, encode, encode_text}
use jaulib.Utf8.Automaton.{decoder}
use jaulib.Utf8.Decode.{Decodes, ends, goes_on, encode-Decodes}

-- Bytes none of which ends a C string.
pub data IsNonZero : List ℕ → Type 0 where
  no_bytes : IsNonZero []
  next_byte : (b : ℕ) (bs : List ℕ) → 0 < b → IsNonZero bs → IsNonZero (b ∷ bs)

-- Characters other than the null character.
pub data IsText : List ℕ → Type 0 where
  no_text : IsText []
  next_char : (c : ℕ) (cs : List ℕ) → 0 < c → IsScalar c → IsText cs → IsText (c ∷ cs)

-- What the decoder does not get past: the end, a null byte, and a byte that begins no character.
pub data Stops : List ℕ → Type 0 where
  at_end : Stops []
  at_zero : (rest : List ℕ) → Stops (0 ∷ rest)
  at_invalid : (b : ℕ) (rest : List ℕ) → next_state accept b ≡ reject → Stops (b ∷ rest)

encode-IsNonZero : (c : ℕ) → 0 < c → IsNonZero (encode c)
unfolding encode
encode-IsNonZero c h = elim (Bool-cases (ltb c 128)) [
  | inl t ↦ rw t (next_byte _ _ h no_bytes)
  | inr t ↦ elim (Bool-cases (ltb c 2048)) [
    | inl u ↦ rw (t, u) (next_byte _ _ (omega arith) (next_byte _ _ (omega arith) no_bytes))
    | inr u ↦ elim (Bool-cases (ltb c 65536)) [
      | inl w ↦
          rw (t, u, w)
            (next_byte _ _ (omega arith)
              (next_byte _ _ (omega arith) (next_byte _ _ (omega arith) no_bytes)))
      | inr w ↦
          rw (t, u, w)
            (next_byte _ _ (omega arith) (
              next_byte _ _ (omega arith)
                (next_byte _ _ (omega arith) (next_byte _ _ (omega arith) no_bytes))))
    ]
  ]
]

-- One byte of a character is counted.
count-byte :
    (d : Decoder) (b s k n : ℕ) (rest : List ℕ)
    → 0 < b
    → step d b ≡ decoder s k
    → s ≢ reject
    → count_bytes d (b ∷ rest) n ≡ count_bytes (decoder s k) rest (n + 1)
unfolding count_bytes
count-byte d b s k n rest h e r = rw (ne→==_false b 0 (λ z. omega arith), e, ne→==_false s reject r)

-- A whole character.
count-char :
    (d : Decoder) (bs rest : List ℕ) (c n : ℕ)
    → Decodes d bs c
    → IsNonZero bs
    → count_bytes d (bs ++ rest) n ≡ count_bytes (decoder accept c) rest (n + length bs)
count-char d _ rest c n (ends b _ e) (next_byte _ _ h _) =
    count-byte d b accept c n rest h e (λ z. omega arith)
count-char d _ rest c n (goes_on b s k {bs = bs} e a r more) (next_byte _ _ h later) =
    count-byte d b s k n (bs ++ rest) h e r
    ∙ count-char (decoder s k) bs rest c (n + 1) more later
    ∙ ap (count_bytes (decoder accept c) rest) (omega arith)

-- The first bytes of a character that is cut short.
count-part :
    (d : Decoder) (bs : List ℕ) (c m n : ℕ)
    → Decodes d bs c
    → IsNonZero bs
    → m < length bs
    → count_bytes d (take m bs) n ≡ n + m
unfolding count_bytes
count-part d bs c zero n decodes h l = omega arith
count-part d _ c (suc m) n (ends b _ e) h l = absurd (omega arith)
count-part d _ c (suc m) n (goes_on b s k {bs = bs} e a r more) (next_byte _ _ h later) l =
    count-byte d b s k n (take m bs) h e r
    ∙ count-part (decoder s k) bs c m (n + 1) more later (omega arith)
    ∙ omega arith

-- A text is counted, and then what follows it.
count-text :
    (cs rest : List ℕ) (extra : ℕ)
    → IsText cs
    → ((k j : ℕ) → count_bytes (decoder accept k) rest j ≡ j + extra)
    → (unset n : ℕ)
    → count_bytes (decoder accept unset) (encode_text cs ++ rest) n
      ≡ n + length (encode_text cs) + extra
unfolding encode_text
count-text [] rest extra no_text h unset n = h unset n ∙ omega arith
count-text (c ∷ cs) rest extra (next_char _ _ pos scalar text) h unset n =
    let len = length-append (encode c) (encode_text cs) in
    ap (λ l. count_bytes (decoder accept unset) l n) (append_assoc (encode c) (encode_text cs) rest)
    ∙ count-char (decoder accept unset) (encode c) (encode_text cs ++ rest) c n
        (encode-Decodes c unset scalar) (encode-IsNonZero c pos)
    ∙ count-text cs rest extra text h c (n + length (encode c))
    ∙ omega arith

count-stop :
    (rest : List ℕ) → Stops rest → (k j : ℕ) → count_bytes (decoder accept k) rest j ≡ j + 0
unfolding count_bytes step
count-stop _ at_end k j = omega arith
count-stop _ (at_zero rest) k j = omega arith
count-stop _ (at_invalid b rest e) k j = elim (Bool-cases (b == 0)) [
  | inl t ↦ rw t (omega arith)
  | inr t ↦ rw (t, e) (omega arith)
]

-- The decoder of a buffer returns exactly the bytes of a text without null characters, if the
-- buffer ends after it or goes on with a null byte or a byte that begins no character.
pub decode_buffer-encode_text :
    (cs rest : List ℕ) (unset : ℕ)
    → IsText cs
    → Stops rest
    → decode_buffer unset (encode_text cs ++ rest) ≡ encode_text cs
unfolding decode_buffer
decode_buffer-encode_text cs rest unset text stops =
    let counted = count-text cs rest 0 text (count-stop rest stops) unset 0 in
    rw counted (take-append_length (encode_text cs) rest _ (omega arith))

-- When a text without null characters is followed, at the buffer's end, by the first bytes of a
-- character that is cut short, the decoder of a buffer returns these bytes too.
pub decode_buffer_truncated :
    (cs : List ℕ) (c m unset : ℕ)
    → IsText cs
    → 0 < c
    → IsScalar c
    → m < length (encode c)
    → decode_buffer unset (encode_text cs ++ take m (encode c))
      ≡ encode_text cs ++ take m (encode c)
unfolding decode_buffer
decode_buffer_truncated cs c m unset text pos scalar l =
    let part = take m (encode c) in
    let counted =
      count-text cs part m text
        (λ k j.
          count-part (decoder accept k) (encode c) c m j (encode-Decodes c k scalar)
            (encode-IsNonZero c pos) l)
        unset 0 in
    let len = length-append (encode_text cs) part in
    let len₁ = length-take m (encode c) in
    rw counted (take-length _ (encode_text cs ++ part) (omega arith))
