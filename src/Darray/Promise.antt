-- ===== src/Darray/Promise.antt =====
-- What the operations of include/jau/darray.hpp promise: they are operations on lists that know no slots
-- and no moves.
use jaulib.Prelude.{
  ℕ, suc, Bool, true, false, Option, ◌+◌, ◌-◌, List, [], ◌∷◌, ◌++◌, ltb, leb, ◌==◌, if◌then◌else◌,
  length, get_elem?, some, none, take, drop,
}
use jaulib.Darray.{
  Config, Error, dangling, diff_max, illegal_argument, out_of_memory, index_out_of_bounds, Result,
  ok, threw, ◌>>=◌,
}
use jaulib.Darray.View.{View, view, widen_if, grown, volume, spliced}

module _ {ℓ} {A : Type ℓ} (cfg : Config) where
  unfoldable pub push_back : A → View A → Result (View A)
  push_back x v = widen_if cfg (v.room == 0) (grown cfg v) v >>= λ w.
      ok (view (w.items ++ (x ∷ [])) (w.room - 1))

  unfoldable pub push_back_range : List A → View A → Result (View A)
  push_back_range ys v =
      widen_if cfg (leb v.room (length ys)) (length v.items + length ys) v >>= λ w.
      ok (view (w.items ++ ys) (w.room - length ys))

  unfoldable pub insert : ℕ → A → View A → Result (View A)
  insert pos x v =
      if leb pos (length v.items)
      then (widen_if cfg (v.room == 0) (grown cfg v) v >>= λ w. ok (spliced pos (x ∷ []) w))
      else threw index_out_of_bounds

  unfoldable pub insert_range : ℕ → List A → View A → Result (View A)
  insert_range pos ys v =
      if leb pos (length v.items)
      then (widen_if cfg (leb v.room (length ys)) (length v.items + length ys) v >>= λ w.
          ok (spliced pos ys w))
      else threw index_out_of_bounds

  unfoldable pub reserve : ℕ → View A → Result (View A)
  reserve n v = widen_if cfg (ltb (volume v) n) n v

module _ {ℓ} {A : Type ℓ} where
  unfoldable pub erase : ℕ → View A → View A
  erase pos v =
      if ltb pos (length v.items)
      then view (take pos v.items ++ drop (pos + 1) v.items) (v.room + 1)
      else v

  unfoldable pub erase_range : ℕ → ℕ → View A → View A
  erase_range first last v =
      view (take first v.items ++ drop last v.items) (v.room + (last - first))

  unfoldable pub pop_back : View A → View A
  pop_back v =
      if length v.items == 0 then v else view (take (length v.items - 1) v.items) (v.room + 1)

  unfoldable pub at : ℕ → View A → Result A
  at i v = elim (get_elem? v.items i) [ some x ↦ ok x | none ↦ threw index_out_of_bounds ]

  module _ (matches : A → A → Bool) (x : A) where
    unfoldable pub hits : List A → ℕ
    hits [] = 0
    hits (y ∷ ys) = if matches y x then suc (hits ys) else hits ys

    unfoldable pub kept : List A → List A
    kept [] = []
    kept (y ∷ ys) = if matches y x then kept ys else y ∷ kept ys

    -- The position of the last match.
    unfoldable pub last_match : List A → Option ℕ
    last_match [] = none
    last_match (y ∷ ys) = elim (last_match ys) [
      | some i ↦ some (suc i)
      | none ↦ if matches y x then some 0 else none
    ]

    unfoldable pub erase_matching : Bool → View A → ℕ × View A
    erase_matching true v = (hits v.items, view (kept v.items) (v.room + hits v.items))
    erase_matching false v = elim (last_match v.items) [ some i ↦ (1, erase i v) | none ↦ (0, v) ]

module _ {ℓ} {A : Type ℓ} (cfg : Config) where
  unfoldable pub assign : List A → View A → Result (View A)
  assign ys v =
      let lost : Error → Result (View A) = λ e. if volume v == 0 then threw e else dangling e in
      if ltb (volume v) (length ys)
      then (if ltb diff_max (length ys)
          then lost illegal_argument
          else if cfg.alloc (length ys)
          then ok (view ys 0)
          else lost out_of_memory)
      else ok (view ys (volume v - length ys))

  unfoldable pub push_back_unique : (A → A → Bool) → A → View A → Result (Bool × View A)
  push_back_unique matches x v =
      if ltb 0 (hits matches x v.items)
      then ok (false, v)
      else (push_back cfg x v >>= λ w. ok (true, w))
