-- ===== src/CowDarray/Order.antt =====
-- include/jau/cow_iterator.hpp: comparing two iterators. `address` is where a store has its first
-- element; an element takes one unit.
use jaulib.Prelude.{
  ℕ, ◌+◌, ◌≡◌, refl, Bool, true, false, Option, some, none, ltb, leb, ◌==◌, if◌then◌else◌, ◌&&◌,
  not, arith,
}
use jaulib.CowDarray.Iterators.{RoIterator}

-- `int compare(...)`: below zero, zero, above zero.
pub data Sign : Type 0 where
  minus_one nought plus_one : Sign

-- `<= 0`, `< 0`, `>= 0` and `> 0`
abbrev pub le_zero : Sign → Bool
le_zero plus_one = false
le_zero _ = true

abbrev pub lt_zero : Sign → Bool
lt_zero minus_one = true
lt_zero _ = false

abbrev pub ge_zero : Sign → Bool
ge_zero n = not (lt_zero n)

abbrev pub gt_zero : Sign → Bool
gt_zero n = not (le_zero n)

-- Two references are the same.
abbrev pub same_ref : Option ℕ → Option ℕ → Bool
same_ref (some i) (some j) = i == j
same_ref none none = true
same_ref _ _ = false

module _ (address : Option ℕ → ℕ) where
  -- `compare` of the immutable iterator `a` with an iterator of either kind.
  unfoldable pub compare_with : RoIterator → RoIterator → Sign
  compare_with a b =
      let p = address a.store_ref + a.pos in
      let q = address b.store_ref + b.pos in
      if same_ref a.store_ref b.store_ref && (p == q)
      then nought
      else if ltb p q
      then minus_one
      else plus_one

  -- The operators with an immutable iterator on the left and a mutable one on the right.
  unfoldable pub ro_le_rw : RoIterator → RoIterator → Bool
  ro_le_rw lhs rhs = le_zero (compare_with lhs rhs)

  unfoldable pub ro_lt_rw : RoIterator → RoIterator → Bool
  ro_lt_rw lhs rhs = lt_zero (compare_with lhs rhs)

  unfoldable pub ro_ge_rw : RoIterator → RoIterator → Bool
  ro_ge_rw lhs rhs = ge_zero (compare_with lhs rhs)

  unfoldable pub ro_gt_rw : RoIterator → RoIterator → Bool
  ro_gt_rw lhs rhs = gt_zero (compare_with lhs rhs)

  -- The operators with a mutable iterator on the left: they ask the right one, and turn the test
  -- round.
  unfoldable pub rw_le_ro : RoIterator → RoIterator → Bool
  rw_le_ro lhs rhs = gt_zero (compare_with rhs lhs)

  unfoldable pub rw_lt_ro : RoIterator → RoIterator → Bool
  rw_lt_ro lhs rhs = ge_zero (compare_with rhs lhs)

  unfoldable pub rw_ge_ro : RoIterator → RoIterator → Bool
  rw_ge_ro lhs rhs = lt_zero (compare_with rhs lhs)

  unfoldable pub rw_gt_ro : RoIterator → RoIterator → Bool
  rw_gt_ro lhs rhs = le_zero (compare_with rhs lhs)

  abbrev at : Option ℕ → ℕ → RoIterator
  at ref i = record { store_ref = ref; pos = i }

  same_ref_self : (ref : Option ℕ) → same_ref ref ref ≡ true
  same_ref_self none = refl
  same_ref_self (some i) = ground arith

  compare_with-same :
      (ref : Option ℕ) (i j : ℕ)
      → compare_with (at ref i) (at ref j)
        ≡ (if i == j then nought else if ltb i j then minus_one else plus_one)
  unfolding compare_with
  compare_with-same ref i j = rw (same_ref_self ref) (ground arith)

  -- With the immutable iterator on the left, iterators of one store are in the order of their
  -- positions.
  pub ro_order :
      (ref : Option ℕ) (i j : ℕ)
      → (ro_le_rw (at ref i) (at ref j) ≡ leb i j)
        × (ro_lt_rw (at ref i) (at ref j) ≡ ltb i j)
        × (ro_ge_rw (at ref i) (at ref j) ≡ leb j i)
        × (ro_gt_rw (at ref i) (at ref j) ≡ ltb j i)
  unfolding ro_le_rw ro_lt_rw ro_ge_rw ro_gt_rw
  ro_order ref i j = rw (compare_with-same ref i j) (ground arith)

  -- With the mutable iterator on the left, `<=` and `<`, and `>=` and `>`, have changed places,
  -- for two iterators of the same store.
  pub rw_order :
      (ref : Option ℕ) (i j : ℕ)
      → (rw_le_ro (at ref i) (at ref j) ≡ ltb i j)
        × (rw_lt_ro (at ref i) (at ref j) ≡ leb i j)
        × (rw_ge_ro (at ref i) (at ref j) ≡ ltb j i)
        × (rw_gt_ro (at ref i) (at ref j) ≡ leb j i)
  unfolding rw_le_ro rw_lt_ro rw_ge_ro rw_gt_ro
  rw_order ref i j = rw (compare_with-same ref j i) (ground arith)
