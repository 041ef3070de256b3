-- ===== src/Darray/Counting.antt =====
-- The `int count` of `erase_matching` in include/jau/darray.hpp, cow_darray.hpp and cow_vector.hpp, which no
-- increment may take beyond its maximum.
use jaulib.Prelude.{ℕ, ◌≡◌, ◌≤◌, ◌^◌, true, ltb, Bool-cases, inl, inr, arith}
use jaulib.Darray.{Result, fault, within}

module _ {ℓ} {S : Type ℓ} where
  within_fault : (n : ℕ) → within {S = S} n fault ≡ fault
  within_fault n = elim (Bool-cases (ltb n (2 ^ 31))) [ inl t ↦ rw t | inr t ↦ rw t ]

  -- The larger count decides.
  pub within-within : (m n : ℕ) (r : Result S) → m ≤ n → within m (within n r) ≡ within n r
  within-within m n r h = elim (Bool-cases (ltb n (2 ^ 31))) [
    | inl t ↦ let below : ltb m (2 ^ 31) ≡ true = ground arith in rw (t, below)
    | inr t ↦ rw t (within_fault m)
  ]
