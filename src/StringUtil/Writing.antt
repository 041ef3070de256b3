-- ===== src/StringUtil/Writing.antt =====
-- include/jau/string_util.hpp: what the loop of `to_decstring` writes, and where it runs out of the string.
use jaulib.Prelude.{
  ℕ, zero, suc, ◌+◌, ◌-◌, ◌≡◌, refl, ap, ◌∙◌, true, false, List, ◌∷◌, ◌++◌, none, some, ltb, length,
  set, replicate, arith, length-append, length-replicate,
}
use jaulib.StringUtil.{put_back}

-- A string of `k` blanks and what was written behind them.
abbrev pub blanks : ℕ → List ℕ → List ℕ
blanks k tail = replicate k 32 ++ tail

set_last_blank : (k c : ℕ) (tail : List ℕ) → set (blanks (suc k) tail) k c ≡ blanks k (c ∷ tail)
set_last_blank zero c tail = refl
set_last_blank (suc k) c tail = ap (λ l. 32 ∷ l) (set_last_blank k c tail)

pub put_back-blanks :
    (k c : ℕ) (tail : List ℕ)
    → put_back (length tail) c (blanks (suc k) tail) ≡ some (blanks k (c ∷ tail))
unfolding put_back
put_back-blanks k c tail =
    let len : length (blanks (suc k) tail) ≡ suc k + length tail =
      length-append (replicate (suc k) 32) tail
      ∙ ap (λ n. n + length tail) (length-replicate (suc k) 32) in
    let below : ltb (length tail) (suc k + length tail) ≡ true = ground arith in
    let place : suc k + length tail - 1 - length tail ≡ k = omega arith in
    rw (len, below, place) (ap some (set_last_blank k c tail))

pub put_back_full : (c : ℕ) (tail : List ℕ) → put_back (length tail) c tail ≡ none
unfolding put_back
put_back_full c tail =
    let above : ltb (length tail) (length tail) ≡ false = ground arith in rw above
