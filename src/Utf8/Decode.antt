-- ===== src/Utf8/Decode.antt =====
-- src/dfa_utf8_decode.cpp: the automaton accepts the encoding of a character and yields the character.
use jaulib.Prelude.{
  ℕ, ◌+◌, ◌-◌, ◌*◌, ◌/◌, ◌%◌, ◌^◌, ◌≤◌, ◌<◌, ◌≡◌, ◌≢◌, ap, ◌⊎◌, inl, inr, ◌∙◌, List, [], ◌∷◌,
  le→ltb_false, lt→ltb, arith, dec_lt, ℕ_discrete,
}
use jaulib.Utf8.{Decoder, step, accept, reject}
use jaulib.Utf8.Encoding.{IsScalar, below_surrogates, above_surrogates, encode}
use jaulib.Utf8.Automaton.{
  decoder, ascii-step, two-step, three-step, three-step_high, four-step, last-step,
  second_last-step, third_last-step, not_overlong3-step, not_surrogate-step, not_overlong4-step,
  not_above-step, overlong3_lead, surrogate_lead, overlong4_lead, above_lead,
}

-- Reading these bytes the automaton accepts at the last one, with that code point, and before it neither
-- accepts nor rejects.
pub data Decodes : Decoder → List ℕ → ℕ → Type 0 where
  ends : {d : Decoder} (b c : ℕ) → step d b ≡ decoder accept c → Decodes d (b ∷ []) c
  goes_on :
      {d : Decoder} (b s k : ℕ) {bs : List ℕ} {c : ℕ}
      → step d b ≡ decoder s k
      → s ≢ accept
      → s ≢ reject
      → Decodes (decoder s k) bs c
      → Decodes d (b ∷ bs) c

-- The last bytes of a character.
one_left :
    (k b c : ℕ)
    → k < 2 ^ 26
    → 128 ≤ b
    → b < 192
    → b - 128 + k * 64 ≡ c
    → Decodes (decoder 24 k) (b ∷ []) c
one_left k b c l h m e = ends b c (last-step b k h m l ∙ ap (decoder accept) e)

two_left :
    (k b b' c : ℕ)
    → k < 2 ^ 20
    → 128 ≤ b
    → b < 192
    → 128 ≤ b'
    → b' < 192
    → b' - 128 + (b - 128 + k * 64) * 64 ≡ c
    → Decodes (decoder 36 k) (b ∷ b' ∷ []) c
two_left k b b' c l h m h' m' e =
    goes_on b 24 (b - 128 + k * 64) (second_last-step b k h m (omega arith)) (λ z. omega arith)
      (λ z. omega arith) (one_left (b - 128 + k * 64) b' c (omega arith) h' m' e)

module _ (c : ℕ) where
  abbrev low : ℕ
  low = 128 + c % 64

  abbrev middle : ℕ
  middle = 128 + c / 64 % 64

  abbrev high : ℕ
  high = 128 + c / 4096 % 64

  three_bytes :
      (unset : ℕ)
      → 2048 ≤ c
      → c < 55296 ⊎ ((57344 ≤ c) × (c < 65536))
      → Decodes (decoder accept unset) ((224 + c / 4096) ∷ middle ∷ low ∷ []) c
  three_bytes unset h range = elim (dec_lt c 4096) [
    | yes k ↦
        let lead : 224 + c / 4096 ≡ 224 = omega arith in
        let wide : 32 ≤ c / 64 % 64 = omega arith in
        goes_on (224 + c / 4096) 48 0 (ap (step (decoder accept unset)) lead ∙ overlong3_lead unset)
          (λ z. omega arith) (λ z. omega arith)
          (goes_on middle 24 (middle - 128 + 0 * 64)
            (not_overlong3-step middle 0 (omega arith) (omega arith) (omega arith) (omega arith))
            (λ z. omega arith) (λ z. omega arith)
            (one_left (middle - 128 + 0 * 64) low c (omega arith) (omega arith) (omega arith)
              (omega arith)))
    | no k ↦ elim (ℕ_discrete (c / 4096) 13) [
      | yes e ↦
          let lead : 224 + c / 4096 ≡ 237 = omega arith in
          let below : c < 55296 = elim range [ inl l ↦ l | inr (l, m) ↦ absurd (omega arith) ] in
          let narrow : c / 64 % 64 < 32 = omega arith in
          goes_on (224 + c / 4096) 60 13
            (ap (step (decoder accept unset)) lead ∙ surrogate_lead unset) (λ z. omega arith)
            (λ z. omega arith)
            (goes_on middle 24 (middle - 128 + 13 * 64)
              (not_surrogate-step middle 13 (omega arith) (omega arith) (omega arith) (omega arith))
              (λ z. omega arith) (λ z. omega arith)
              (one_left (middle - 128 + 13 * 64) low c (omega arith) (omega arith) (omega arith)
                (omega arith)))
      | no n ↦
          let end : c < 65536 = elim range [ inl l ↦ omega arith | inr (l, m) ↦ m ] in
          let value = 224 + c / 4096 - 224 in
          let seen : step (decoder accept unset) (224 + c / 4096) ≡ decoder 36 value =
            elim (dec_lt (c / 4096) 13) [
              | yes l ↦ three-step (224 + c / 4096) unset (omega arith) (omega arith)
              | no l ↦ three-step_high (224 + c / 4096) unset (omega arith) (omega arith)
            ] in
          goes_on (224 + c / 4096) 36 value seen (λ z. omega arith) (λ z. omega arith)
            (two_left value middle low c (omega arith) (omega arith) (omega arith) (omega arith)
              (omega arith) (omega arith))
    ]
  ]

  four_bytes :
      (unset : ℕ)
      → 65536 ≤ c
      → c < 1114112
      → Decodes (decoder accept unset) ((240 + c / 262144) ∷ high ∷ middle ∷ low ∷ []) c
  four_bytes unset h k = elim (ℕ_discrete (c / 262144) 0) [
    | yes e ↦
        let lead : 240 + c / 262144 ≡ 240 = omega arith in
        let wide : 16 ≤ c / 4096 % 64 = omega arith in
        goes_on (240 + c / 262144) 72 0
          (ap (step (decoder accept unset)) lead ∙ overlong4_lead unset) (λ z. omega arith)
          (λ z. omega arith)
          (goes_on high 36 (high - 128 + 0 * 64)
            (not_overlong4-step high 0 (omega arith) (omega arith) (omega arith) (omega arith))
            (λ z. omega arith) (λ z. omega arith)
            (two_left (high - 128 + 0 * 64) middle low c (omega arith) (omega arith) (omega arith)
              (omega arith) (omega arith) (omega arith)))
    | no n ↦ elim (ℕ_discrete (c / 262144) 4) [
      | yes e ↦
          let lead : 240 + c / 262144 ≡ 244 = omega arith in
          let narrow : c / 4096 % 64 < 16 = omega arith in
          goes_on (240 + c / 262144) 96 4 (ap (step (decoder accept unset)) lead ∙ above_lead unset)
            (λ z. omega arith) (λ z. omega arith)
            (goes_on high 36 (high - 128 + 4 * 64)
              (not_above-step high 4 (omega arith) (omega arith) (omega arith) (omega arith))
              (λ z. omega arith) (λ z. omega arith)
              (two_left (high - 128 + 4 * 64) middle low c (omega arith) (omega arith) (omega arith)
                (omega arith) (omega arith) (omega arith)))
      | no m ↦
          let value = 240 + c / 262144 - 240 in
          let most : c / 262144 < 5 = omega arith in
          goes_on (240 + c / 262144) 84 value
            (four-step (240 + c / 262144) unset (omega arith) (omega arith)) (λ z. omega arith)
            (λ z. omega arith)
            (goes_on high 36 (high - 128 + value * 64)
              (third_last-step high value (omega arith) (omega arith) (omega arith))
              (λ z. omega arith) (λ z. omega arith)
              (two_left (high - 128 + value * 64) middle low c (omega arith) (omega arith)
                (omega arith) (omega arith) (omega arith) (omega arith)))
    ]
  ]

-- Reading the UTF-8 encoding of a Unicode scalar value, the automaton neither accepts nor rejects
-- before the last byte, and accepts there with that value, whatever its code point variable held
-- before.
pub encode-Decodes : (c unset : ℕ) → IsScalar c → Decodes (decoder accept unset) (encode c) c
unfolding encode
encode-Decodes c unset scalar = elim (dec_lt c 128) [
  | yes h ↦ rw (lt→ltb c 128 h) (ends c c (ascii-step c unset h))
  | no h ↦ elim (dec_lt c 2048) [
    | yes k ↦
        rw (le→ltb_false c 128 (omega arith), lt→ltb c 2048 k)
          (goes_on (192 + c / 64) 24 (192 + c / 64 - 192)
            (two-step (192 + c / 64) unset (omega arith) (omega arith)) (λ z. omega arith)
            (λ z. omega arith)
            (one_left (192 + c / 64 - 192) (128 + c % 64) c (omega arith) (omega arith)
              (omega arith) (omega arith)))
    | no k ↦ elim (dec_lt c 65536) [
      | yes l ↦
          rw (le→ltb_false c 128 (omega arith), le→ltb_false c 2048 (omega arith), lt→ltb c 65536 l)
            (three_bytes c unset (omega arith) (in_plane scalar l))
      | no l ↦
          rw
            (
              le→ltb_false c 128 (omega arith),
              le→ltb_false c 2048 (omega arith),
              le→ltb_false c 65536 (omega arith),
            )
            (four_bytes c unset (omega arith) (below_end scalar))
    ]
  ]
]
  where
    in_plane : {c : ℕ} → IsScalar c → c < 65536 → c < 55296 ⊎ ((57344 ≤ c) × (c < 65536))
    in_plane (below_surrogates h) l = inl h
    in_plane (above_surrogates h k) l = inr (h, l)

    below_end : {c : ℕ} → IsScalar c → c < 1114112
    below_end (below_surrogates h) = omega arith
    below_end (above_surrogates h k) = k
