-- ===== src/Prelude/Checks.antt =====
-- Tests of every number of a range.
use Prim.Native.Nat.{ℕ, zero, suc, ◌+◌, ◌≤◌, ◌<◌}
use mathlib.Core.Path.{◌≡◌, refl}
use mathlib.Core.Bool.{Bool, true, false, ◌&&◌, false≢true}
use mathlib.Core.Logic.{inl, inr}
use native.Mathlib.Omega.{arith}
use jaulib.Prelude.Tests.{◌==◌, ==_iff, Bool-cases}

-- A test of `count` numbers from `first` on.
unfoldable pub all_from : (ℕ → Bool) → ℕ → ℕ → Bool
all_from p first zero = true
all_from p first (suc count) = p first && all_from p (suc first) count

pub and_left : (a b : Bool) → (a && b) ≡ true → a ≡ true
and_left true b h = refl
and_left false b h = h

pub and_right : (a b : Bool) → (a && b) ≡ true → b ≡ true
and_right true b h = h
and_right false b h = absurd (false≢true h)

pub all_from-at :
    (p : ℕ → Bool) (count first n : ℕ)
    → all_from p first count ≡ true
    → first ≤ n
    → n < first + count
    → p n ≡ true
unfolding all_from
all_from-at p zero first n h k l = absurd (omega arith)
all_from-at p (suc count) first n h k l = elim (Bool-cases (n == first)) [
  | inl t ↦ let same = (==_iff n first).0 t in rw same (and_left _ _ h)
  | inr t ↦
      let differ : first < n = ground arith in
      all_from-at p count (suc first) n (and_right (p first) _ h) (omega arith) (omega arith)
]
