-- ===== src/CowDarray/Effects.antt =====
-- What the operations of include/jau/cow_darray.hpp do to the views of the stores: they know no
-- slots.
use jaulib.Prelude.{
  ℕ, ◌-◌, Bool, true, false, List, [], ◌∷◌, ◌++◌, ltb, ◌==◌, if◌then◌else◌, length, take,
}
use jaulib.Darray.{Config, Result, ok, ◌>>=◌}
use jaulib.Darray.View.{view, volume, grown}
use jaulib.Darray.Promise
use jaulib.CowDarray.{no_throw}
use jaulib.Darray.Whole.Reads.{cloned}
use jaulib.CowDarray.Shelf.{Shelf, fetch, shelved, view_at}

module _ {ℓ} {A : Type ℓ} (cfg : Config) where
  -- The store that is replaced by a new one with the elements `xs` and the capacity `n`.
  abbrev pub replaced : ℕ → List A → Shelf A → Result (Shelf A)
  replaced n xs s = cloned cfg n xs >>= λ w. ok (shelved s.views w)

  -- The element is put in a larger copy of a full store, and in the store itself otherwise.
  unfoldable pub push_back : A → Shelf A → Result (Shelf A)
  push_back x s = fetch s.views s.store_ref >>= λ v.
      let appended = view (v.items ++ (x ∷ [])) (v.room - 1) in
      let copied = cloned cfg (grown cfg v) v.items >>= λ w.
      ok (shelved s.views (view (w.items ++ (x ∷ [])) (w.room - 1))) in
      if v.room == 0 then copied else ok (record s { views = view_at s.store_ref appended s.views })

  unfoldable pub push_back_unique : (A → A → Bool) → A → Shelf A → Result (Bool × Shelf A)
  push_back_unique matches x s = fetch s.views s.store_ref >>= λ v.
      if ltb 0 (Promise.hits matches x v.items)
      then ok (false, s)
      else (push_back x s >>= λ t. ok (true, t))

  unfoldable pub reserve : ℕ → Shelf A → Result (Shelf A)
  reserve n s =
      fetch s.views s.store_ref >>= λ v. if ltb (volume v) n then replaced n v.items s else ok s

  unfoldable pub pop_back : Shelf A → Result (Shelf A)
  pop_back s = fetch s.views s.store_ref >>= λ v.
      if length v.items == 0
      then ok s
      else no_throw (replaced (volume v) (take (length v.items - 1) v.items) s)
