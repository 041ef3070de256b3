-- ===== src/Utf8/Accepts.antt =====
-- src/dfa_utf8_decode.cpp: bytes that the automaton accepts are the encoding of a character.
use mathlib.Core.Path.{subst}
use jaulib.Prelude.{
  all_from, all_from-at, ℕ, ◌+◌, ◌-◌, ◌*◌, ◌/◌, ◌%◌, ◌≤◌, ◌<◌, ◌≡◌, ◌≢◌, refl, sym, ap, ap₂, ◌∙◌,
  List, [], ◌∷◌, ltb, le→ltb_false, lt→ltb, ltb→lt, arith, dec_lt, ℕ_discrete,
}
use jaulib.Utf8.{step, next_state, class_of, accept, reject}
use jaulib.Utf8.Encoding.{IsScalar, below_surrogates, above_surrogates, encode}
use jaulib.Utf8.Automaton.{
  decoder, transition, ascii-step, two-step, three-step, three-step_high, four-step, overlong3_lead,
  surrogate_lead, overlong4_lead, above_lead,
}
use jaulib.Utf8.Decode.{Decodes, ends, goes_on}
use jaulib.Utf8.Sound.{
  AreBytes, no_more, and_byte, TwoLeft, ThreeLeft, tail24, tail36, tail48, tail60, tail84, tail72,
  tail96,
}

-- The encoding of a character.
IsEncoding : List ℕ → ℕ → Type 0
IsEncoding bs c = IsScalar c × (bs ≡ encode c)

two_bytes :
    (b b' c : ℕ)
    → 194 ≤ b
    → b < 224
    → 128 ≤ b'
    → b' < 192
    → c ≡ b' - 128 + (b - 192) * 64
    → IsEncoding (b ∷ b' ∷ []) c
unfolding encode IsEncoding
two_bytes b b' c h k h' k' e = (
  below_surrogates (omega arith),
  rw (le→ltb_false c 128 (omega arith), lt→ltb c 2048 (omega arith))
      (ap₂ (λ x y. x ∷ y ∷ []) (omega arith) (omega arith)),
)

three_bytes :
    (b x y k c : ℕ)
    → b ≡ 224 + k
    → 128 ≤ x
    → x < 192
    → 128 ≤ y
    → y < 192
    → c ≡ y - 128 + (x - 128 + k * 64) * 64
    → 2048 ≤ c
    → c < 65536
    → IsScalar c
    → IsEncoding (b ∷ x ∷ y ∷ []) c
unfolding encode IsEncoding
three_bytes b x y k c lead h m h' m' e low high scalar =
    let first : b ≡ 224 + c / 4096 = omega arith in
    let second : x ≡ 128 + c / 64 % 64 = omega arith in
    (
      scalar,
      rw (le→ltb_false c 128 (omega arith), le→ltb_false c 2048 low, lt→ltb c 65536 high)
          (ap₂ (λ u v. u ∷ v) first (ap₂ (λ u v. u ∷ v ∷ []) second (omega arith))),
    )

four_bytes :
    (b w x y k c : ℕ)
    → b ≡ 240 + k
    → 128 ≤ w
    → w < 192
    → 128 ≤ x
    → x < 192
    → 128 ≤ y
    → y < 192
    → c ≡ y - 128 + (x - 128 + (w - 128 + k * 64) * 64) * 64
    → 65536 ≤ c
    → c < 1114112
    → IsEncoding (b ∷ w ∷ x ∷ y ∷ []) c
unfolding encode IsEncoding
four_bytes b w x y k c lead g l h m h' m' e low high =
    let first : b ≡ 240 + c / 262144 = omega arith in
    let second : w ≡ 128 + c / 4096 % 64 = omega arith in
    let third : x ≡ 128 + c / 64 % 64 = omega arith in
    (
      above_surrogates (omega arith) high,
      rw
          (
            le→ltb_false c 128 (omega arith),
            le→ltb_false c 2048 (omega arith),
            le→ltb_false c 65536 low,
          )
          (ap₂ (λ u v. u ∷ v) first
            (ap₂ (λ u v. u ∷ v) second (ap₂ (λ u v. u ∷ v ∷ []) third (omega arith)))),
    )

from_three :
    (b k c : ℕ) (bs : List ℕ) (lo hi : ℕ)
    → b ≡ 224 + k
    → TwoLeft lo hi k bs c
    → 128 ≤ lo
    → hi ≤ 192
    → ((lo - 128 + k * 64) * 64 < c + 1
        → c < (hi - 128 + k * 64) * 64
        → (2048 ≤ c) × (c < 65536) × IsScalar c)
    → IsEncoding (b ∷ bs) c
from_three b k c bs lo hi lead t wide narrow range =
    let low = t.low in
    let high = t.high in
    let low' = t.low' in
    let high' = t.high' in
    let yields = t.yields in
    let (l, h, scalar) = range (omega arith) (omega arith) in
    subst (λ l. IsEncoding (b ∷ l) c) (sym t.read)
      (three_bytes b t.b t.b' k c lead (omega arith) (omega arith) low' high' yields l h scalar)

from_four :
    (b k c : ℕ) (bs : List ℕ) (lo hi : ℕ)
    → b ≡ 240 + k
    → ThreeLeft lo hi k bs c
    → 128 ≤ lo
    → hi ≤ 192
    → 65536 ≤ (lo - 128 + k * 64) * 4096
    → (hi - 128 + k * 64) * 4096 ≤ 1114112
    → IsEncoding (b ∷ bs) c
from_four b k c bs lo hi lead t wide narrow above below =
    let low = t.low in
    let high = t.high in
    let o = t.others in
    let low' = o.low in
    let high' = o.high in
    let low'' = o.low' in
    let high'' = o.high' in
    let yields = o.yields in
    subst (λ l. IsEncoding (b ∷ l) c) (sym (t.read ∙ ap (λ l. t.b ∷ l) o.read))
      (four_bytes b t.b o.b o.b' k c lead (omega arith) (omega arith) low' high' low'' high'' yields
        (omega arith) (omega arith))

module _ (unset b : ℕ) where
  state-of : (s k : ℕ) → step (decoder accept unset) b ≡ decoder s k → next_state 0 b ≡ s
  unfolding step
  state-of s k e = ap (λ d. d.state) e

  -- The byte rejects.
  rejected-low : 128 ≤ b → b < 194 → next_state 0 b ≡ reject
  unfolding all_from next_state class_of
  rejected-low h l = transition 0 128 66 12 b refl h (omega arith)

  rejected-high : 245 ≤ b → b < 256 → next_state 0 b ≡ reject
  unfolding all_from next_state class_of
  rejected-high h l = transition 0 245 11 12 b refl h (omega arith)

  no_accept : 128 ≤ b → b < 256 → 0 < next_state 0 b
  unfolding all_from next_state class_of
  no_accept h l =
      ltb→lt 0 (next_state 0 b)
        (all_from-at (λ n. ltb 0 (next_state 0 n)) 128 128 b refl h (omega arith))

  -- What was read after a first byte, from the state that it is known to lead to.
  after :
      (s k t v c : ℕ) (bs : List ℕ)
      → step (decoder accept unset) b ≡ decoder s k
      → step (decoder accept unset) b ≡ decoder t v
      → Decodes (decoder s k) bs c
      → Decodes (decoder t v) bs c
  after s k t v c bs e known more = subst (λ d. Decodes d bs c) (sym e ∙ known) more

  one_byte :
      (c : ℕ) → b < 256 → step (decoder accept unset) b ≡ decoder accept c → IsEncoding (b ∷ []) c
  unfolding IsEncoding encode
  one_byte c small e = elim (dec_lt b 128) [
    | yes h ↦
        let same : b ≡ c = ap (λ d. d.codep) (sym (ascii-step b unset h) ∙ e) in
        (below_surrogates (omega arith), rw (lt→ltb c 128 (omega arith)) (ap (λ l. l ∷ []) same))
    | no h ↦
        let unfinished = no_accept (omega arith) small in
        let finished = state-of accept c e in absurd (omega arith)
  ]

  first_of_three :
      (s k c : ℕ) (bs : List ℕ)
      → 224 ≤ b
      → b < 240
      → AreBytes bs
      → step (decoder accept unset) b ≡ decoder s k
      → Decodes (decoder s k) bs c
      → IsEncoding (b ∷ bs) c
  first_of_three s k c bs h l small e more = elim (ℕ_discrete b 224) [
    | yes i ↦
        let known = ap (step (decoder accept unset)) i ∙ overlong3_lead unset in
        from_three b 0 c bs 160 192 (omega arith)
          (tail48 0 c bs (omega arith) small (after s k 48 0 c bs e known more)) (omega arith)
          (omega arith) (λ x y. (omega arith, omega arith, below_surrogates (omega arith)))
    | no i ↦ elim (ℕ_discrete b 237) [
      | yes j ↦
          let known = ap (step (decoder accept unset)) j ∙ surrogate_lead unset in
          from_three b 13 c bs 128 160 (omega arith)
            (tail60 13 c bs (omega arith) small (after s k 60 13 c bs e known more)) (omega arith)
            (omega arith) (λ x y. (omega arith, omega arith, below_surrogates (omega arith)))
      | no j ↦ elim (dec_lt b 237) [
        | yes m ↦
            let known = three-step b unset (omega arith) m in
            from_three b (b - 224) c bs 128 192 (omega arith)
              (tail36 (b - 224) c bs (omega arith) small (after s k 36 (b - 224) c bs e known more))
              (omega arith) (omega arith)
              (λ x y. (omega arith, omega arith, below_surrogates (omega arith)))
        | no m ↦
            let known = three-step_high b unset (omega arith) (omega arith) in
            from_three b (b - 224) c bs 128 192 (omega arith)
              (tail36 (b - 224) c bs (omega arith) small (after s k 36 (b - 224) c bs e known more))
              (omega arith) (omega arith)
              (λ x y. (omega arith, omega arith, above_surrogates (omega arith) (omega arith)))
      ]
    ]
  ]

  first_of_four :
      (s k c : ℕ) (bs : List ℕ)
      → 240 ≤ b
      → b < 245
      → AreBytes bs
      → step (decoder accept unset) b ≡ decoder s k
      → Decodes (decoder s k) bs c
      → IsEncoding (b ∷ bs) c
  first_of_four s k c bs h l small e more = elim (ℕ_discrete b 240) [
    | yes i ↦
        let known = ap (step (decoder accept unset)) i ∙ overlong4_lead unset in
        from_four b 0 c bs 144 192 (omega arith)
          (tail72 0 c bs (omega arith) small (after s k 72 0 c bs e known more)) (omega arith)
          (omega arith) (omega arith) (omega arith)
    | no i ↦ elim (ℕ_discrete b 244) [
      | yes j ↦
          let known = ap (step (decoder accept unset)) j ∙ above_lead unset in
          from_four b 4 c bs 128 144 (omega arith)
            (tail96 4 c bs (omega arith) small (after s k 96 4 c bs e known more)) (omega arith)
            (omega arith) (omega arith) (omega arith)
      | no j ↦
          let known = four-step b unset (omega arith) (omega arith) in
          from_four b (b - 240) c bs 128 192 (omega arith)
            (tail84 (b - 240) c bs (omega arith) small (after s k 84 (b - 240) c bs e known more))
            (omega arith) (omega arith) (omega arith) (omega arith)
    ]
  ]

  more_bytes :
      (s k c : ℕ) (bs : List ℕ)
      → b < 256
      → AreBytes bs
      → step (decoder accept unset) b ≡ decoder s k
      → s ≢ accept
      → s ≢ reject
      → Decodes (decoder s k) bs c
      → IsEncoding (b ∷ bs) c
  more_bytes s k c bs l small e a r more =
      let here = state-of s k e in
      elim (dec_lt b 128) [
        | yes h ↦ absurd (a (sym here ∙ state-of accept b (ascii-step b unset h)))
        | no h ↦ elim (dec_lt b 194) [
          | yes i ↦ absurd (r (sym here ∙ rejected-low (omega arith) i))
          | no i ↦ elim (dec_lt b 224) [
            | yes j ↦
                let known = two-step b unset (omega arith) j in
                let (b', read, low, high, yields) =
                  tail24 (b - 192) c bs (omega arith) small
                    (after s k 24 (b - 192) c bs e known more) in
                subst (λ l. IsEncoding (b ∷ l) c) (sym read)
                  (two_bytes b b' c (omega arith) j low high yields)
            | no j ↦ elim (dec_lt b 240) [
              | yes m ↦ first_of_three s k c bs (omega arith) m small e more
              | no m ↦ elim (dec_lt b 245) [
                | yes n ↦ first_of_four s k c bs (omega arith) n small e more
                | no n ↦ absurd (r (sym here ∙ rejected-high (omega arith) l))
              ]
            ]
          ]
        ]
      ]

-- Bytes that the automaton reads without accepting or rejecting before the last one, where it
-- accepts, are the UTF-8 encoding of the code point that it yields, and that is a Unicode scalar
-- value: it accepts no overlong form, no surrogate and nothing above U+10FFFF.
pub Decodes-encode :
    (c unset : ℕ) (bs : List ℕ)
    → AreBytes bs
    → Decodes (decoder accept unset) bs c
    → IsScalar c × (bs ≡ encode c)
unfolding IsEncoding
Decodes-encode c unset _ no_more decodes = elim decodes [ ]
Decodes-encode c unset _ (and_byte _ _ small _) (ends b _ e) = one_byte unset b c small e
Decodes-encode c unset _ (and_byte _ _ small later) (goes_on b s k {bs = bs} e a r more) =
    more_bytes unset b s k c bs small later e a r more
