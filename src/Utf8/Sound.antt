-- ===== src/Utf8/Sound.antt =====
-- src/dfa_utf8_decode.cpp: the automaton accepts nothing but encodings of characters.
use mathlib.Core.Path.{subst}
use mathlib.Core.Bool.{false≢true}
use jaulib.Prelude.{
  all_from, all_from-at, and_left, and_right, ne→==_false, ℕ, ◌+◌, ◌-◌, ◌*◌, ◌^◌, ◌≤◌, ◌<◌, ◌≡◌,
  ◌≢◌, refl, sym, ap, ◌∙◌, Bool, true, false, List, [], ◌∷◌, ltb, leb, ltb→lt, leb→le, ◌==◌, ==_iff,
  ◌&&◌, ◌||◌, arith,
}
use jaulib.Utf8.{step, next_state, class_of, accept, reject}
use jaulib.Utf8.Automaton.{
  decoder, last-step, second_last-step, third_last-step, not_overlong3-step, not_surrogate-step,
  not_overlong4-step, not_above-step,
}
use jaulib.Utf8.Decode.{Decodes, ends, goes_on}

-- Every element is a byte.
pub data AreBytes : List ℕ → Type 0 where
  no_more : AreBytes []
  and_byte : (b : ℕ) (bs : List ℕ) → b < 256 → AreBytes bs → AreBytes (b ∷ bs)

-- The automaton rejects in state `s`, or the byte is of a range and the next state is `t`.
only : ℕ → ℕ → ℕ → ℕ → ℕ → Bool
only s lo hi t b = (next_state s b == reject) || (leb lo b && (ltb b hi && (next_state s b == t)))

or_right : (a b : Bool) → (a || b) ≡ true → a ≡ false → b ≡ true
or_right true b h e = absurd (false≢true (sym e))
or_right false b h e = h

inverse :
    (s lo hi t b : ℕ)
    → all_from (only s lo hi t) 0 256 ≡ true
    → b < 256
    → next_state s b ≢ reject
    → (lo ≤ b) × (b < hi) × (next_state s b ≡ t)
unfolding only
inverse s lo hi t b h k n =
    let here = all_from-at (only s lo hi t) 256 0 b h (omega arith) (omega arith) in
    let both = or_right _ _ here (ne→==_false _ _ n) in
    let rest = and_right (leb lo b) _ both in
    (
      leb→le lo b (and_left _ _ both),
      ltb→lt b hi (and_left _ _ rest),
      (==_iff _ _).0 (and_right (ltb b hi) _ rest),
    )

-- What the automaton reads from a state on where only one state may follow, and only bytes of a range.
next-step :
    (s lo hi t b k s' k' : ℕ)
    → all_from (only s lo hi t) 0 256 ≡ true
    → b < 256
    → step (decoder s k) b ≡ decoder s' k'
    → s' ≢ reject
    → (lo ≤ b) × (b < hi) × (s' ≡ t)
unfolding step
next-step s lo hi t b k s' k' h l e n =
    let same : next_state s b ≡ s' = ap (λ d. d.state) e in
    let (low, high, next) = inverse s lo hi t b h l (λ z. n (sym same ∙ z)) in
    (low, high, sym same ∙ next)

-- One byte left.
pub tail24 :
    (k c : ℕ) (bs : List ℕ)
    → k < 2 ^ 26
    → AreBytes bs
    → Decodes (decoder 24 k) bs c
    → (b : ℕ) × (bs ≡ b ∷ []) × (128 ≤ b) × (b < 192) × (c ≡ b - 128 + k * 64)
unfolding all_from only next_state class_of
tail24 k c _ l no_more decodes = elim decodes [ ]
tail24 k c _ l (and_byte _ _ small _) (ends b _ e) =
    let (low, high, next) = next-step 24 128 192 0 b k accept c refl small e (λ z. omega arith) in
    (b, refl, low, high, ap (λ d. d.codep) (sym e ∙ last-step b k low high l))
tail24 k c _ l (and_byte _ _ small _) (goes_on b s k' e a r more) =
    let (low, high, next) = next-step 24 128 192 0 b k s k' refl small e r in absurd (a next)

-- Two bytes left, the first of them of a range.
pub record TwoLeft (lo hi k : ℕ) (bs : List ℕ) (c : ℕ) : Type 0 where
  pub b : ℕ
  pub b' : ℕ
  pub read : bs ≡ b ∷ b' ∷ []
  pub low : lo ≤ b
  pub high : b < hi
  pub low' : 128 ≤ b'
  pub high' : b' < 192
  pub yields : c ≡ b' - 128 + (b - 128 + k * 64) * 64

two-left :
    (lo hi st k c b s k' : ℕ) (bs : List ℕ)
    → k < 2 ^ 20
    → lo ≤ b
    → b < hi
    → 128 ≤ lo
    → hi ≤ 192
    → step (decoder st k) b ≡ decoder s k'
    → s ≡ 24
    → step (decoder st k) b ≡ decoder 24 (b - 128 + k * 64)
    → AreBytes bs
    → Decodes (decoder s k') bs c
    → TwoLeft lo hi k (b ∷ bs) c
two-left lo hi st k c b s k' bs l low high wide narrow e next known small more =
    let there = sym e ∙ known in
    let (b', read, low', high', yields) =
      tail24 (b - 128 + k * 64) c bs (omega arith) small (subst (λ d. Decodes d bs c) there more) in
    record {
      b = b;
      b' = b';
      read = ap (λ l. b ∷ l) read;
      low = low;
      high = high;
      low' = low';
      high' = high';
      yields = yields;
    }

pub tail36 :
    (k c : ℕ) (bs : List ℕ)
    → k < 2 ^ 20
    → AreBytes bs
    → Decodes (decoder 36 k) bs c
    → TwoLeft 128 192 k bs c
unfolding all_from only next_state class_of
tail36 k c _ l no_more decodes = elim decodes [ ]
tail36 k c _ l (and_byte _ _ small _) (ends b _ e) =
    let (low, high, next) = next-step 36 128 192 24 b k accept c refl small e (λ z. omega arith) in
    absurd (omega arith)
tail36 k c _ l (and_byte _ _ small later) (goes_on b s k' e a r more) =
    let (low, high, next) = next-step 36 128 192 24 b k s k' refl small e r in
    two-left 128 192 36 k c b s k' _ l low high (omega arith) (omega arith) e next
      (second_last-step b k (omega arith) (omega arith) (omega arith)) later more

pub tail48 :
    (k c : ℕ) (bs : List ℕ)
    → k < 2 ^ 20
    → AreBytes bs
    → Decodes (decoder 48 k) bs c
    → TwoLeft 160 192 k bs c
unfolding all_from only next_state class_of
tail48 k c _ l no_more decodes = elim decodes [ ]
tail48 k c _ l (and_byte _ _ small _) (ends b _ e) =
    let (low, high, next) = next-step 48 160 192 24 b k accept c refl small e (λ z. omega arith) in
    absurd (omega arith)
tail48 k c _ l (and_byte _ _ small later) (goes_on b s k' e a r more) =
    let (low, high, next) = next-step 48 160 192 24 b k s k' refl small e r in
    two-left 160 192 48 k c b s k' _ l low high (omega arith) (omega arith) e next
      (not_overlong3-step b k (omega arith) (omega arith) (omega arith) low) later more

pub tail60 :
    (k c : ℕ) (bs : List ℕ)
    → k < 2 ^ 20
    → AreBytes bs
    → Decodes (decoder 60 k) bs c
    → TwoLeft 128 160 k bs c
unfolding all_from only next_state class_of
tail60 k c _ l no_more decodes = elim decodes [ ]
tail60 k c _ l (and_byte _ _ small _) (ends b _ e) =
    let (low, high, next) = next-step 60 128 160 24 b k accept c refl small e (λ z. omega arith) in
    absurd (omega arith)
tail60 k c _ l (and_byte _ _ small later) (goes_on b s k' e a r more) =
    let (low, high, next) = next-step 60 128 160 24 b k s k' refl small e r in
    two-left 128 160 60 k c b s k' _ l low high (omega arith) (omega arith) e next
      (not_surrogate-step b k (omega arith) (omega arith) (omega arith) high) later more

-- Three bytes left, the first of them of a range.
pub record ThreeLeft (lo hi k : ℕ) (bs : List ℕ) (c : ℕ) : Type 0 where
  pub b : ℕ
  pub rest : List ℕ
  pub read : bs ≡ b ∷ rest
  pub low : lo ≤ b
  pub high : b < hi
  pub others : TwoLeft 128 192 (b - 128 + k * 64) rest c

pub tail84 :
    (k c : ℕ) (bs : List ℕ)
    → k < 2 ^ 14
    → AreBytes bs
    → Decodes (decoder 84 k) bs c
    → ThreeLeft 128 192 k bs c
unfolding all_from only next_state class_of
tail84 k c _ l no_more decodes = elim decodes [ ]
tail84 k c _ l (and_byte _ _ small _) (ends b _ e) =
    let (low, high, next) = next-step 84 128 192 36 b k accept c refl small e (λ z. omega arith) in
    absurd (omega arith)
tail84 k c _ l (and_byte _ _ small later) (goes_on b s k' {bs = bs} e a r more) =
    let (low, high, next) = next-step 84 128 192 36 b k s k' refl small e r in
    let there = sym e ∙ third_last-step b k (omega arith) (omega arith) (omega arith) in
    record {
      b = b;
      rest = bs;
      read = refl;
      low = low;
      high = high;
      others =
          tail36 (b - 128 + k * 64) c bs (omega arith) later
            (subst (λ d. Decodes d bs c) there more);
    }

pub tail72 :
    (k c : ℕ) (bs : List ℕ)
    → k < 2 ^ 14
    → AreBytes bs
    → Decodes (decoder 72 k) bs c
    → ThreeLeft 144 192 k bs c
unfolding all_from only next_state class_of
tail72 k c _ l no_more decodes = elim decodes [ ]
tail72 k c _ l (and_byte _ _ small _) (ends b _ e) =
    let (low, high, next) = next-step 72 144 192 36 b k accept c refl small e (λ z. omega arith) in
    absurd (omega arith)
tail72 k c _ l (and_byte _ _ small later) (goes_on b s k' {bs = bs} e a r more) =
    let (low, high, next) = next-step 72 144 192 36 b k s k' refl small e r in
    let there = sym e ∙ not_overlong4-step b k (omega arith) (omega arith) (omega arith) low in
    record {
      b = b;
      rest = bs;
      read = refl;
      low = low;
      high = high;
      others =
          tail36 (b - 128 + k * 64) c bs (omega arith) later
            (subst (λ d. Decodes d bs c) there more);
    }

pub tail96 :
    (k c : ℕ) (bs : List ℕ)
    → k < 2 ^ 14
    → AreBytes bs
    → Decodes (decoder 96 k) bs c
    → ThreeLeft 128 144 k bs c
unfolding all_from only next_state class_of
tail96 k c _ l no_more decodes = elim decodes [ ]
tail96 k c _ l (and_byte _ _ small _) (ends b _ e) =
    let (low, high, next) = next-step 96 128 144 36 b k accept c refl small e (λ z. omega arith) in
    absurd (omega arith)
tail96 k c _ l (and_byte _ _ small later) (goes_on b s k' {bs = bs} e a r more) =
    let (low, high, next) = next-step 96 128 144 36 b k s k' refl small e r in
    let there = sym e ∙ not_above-step b k (omega arith) (omega arith) (omega arith) high in
    record {
      b = b;
      rest = bs;
      read = refl;
      low = low;
      high = high;
      others =
          tail36 (b - 128 + k * 64) c bs (omega arith) later
            (subst (λ d. Decodes d bs c) there more);
    }
