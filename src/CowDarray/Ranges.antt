-- ===== src/CowDarray/Ranges.antt =====
-- include/jau/cow_darray.hpp: `push_back` of a range, and `push_back` of an element of the container
-- itself.
use jaulib.Prelude.{
  ℕ, ◌+◌, ◌≡◌, ◌≤◌, ◌<◌, ap, ◌∙◌, true, List, ◌∷◌, ◌++◌, ltb, ◌==◌, length, lt→ltb, le→ltb_false,
  le→leb, Bool-cases, inl, inr, arith, ne→==_false,
}
use jaulib.Darray.{Config, ok, diff_max, read}
use jaulib.Darray.View.{View, held, holding, view, widen, widen_if}
use jaulib.Darray.Grow.{storage-length}
use jaulib.Darray.Inserts.{at_end-held}
use jaulib.Darray.Appends
use jaulib.Darray.Ops
use jaulib.Darray.Ops.{own, outside, read_source, grow_if}
use jaulib.Darray.Promise
use jaulib.CowDarray.{load, push_back, push_back_range}
use jaulib.Darray.Whole.Reads.{cloned, copy_with-held}
use jaulib.CowDarray.Shelf.{
  Shelf, shown, fetch, shelved, view_at, load-held, store_at-held, publish-held,
}
use jaulib.CowDarray.Refines.{capacity_reached-held}

module _ {ℓ} {A : Type ℓ} (cfg : Config) where
  -- `push_back` of a range that is not empty and does not fit the store, where there is memory
  -- for it, ends with a copy of the old elements and with room for the range, which is in the old
  -- store only.
  pub push_back_range_lost :
      (y : A) (ys : List A) (s : Shelf A) (v : View A)
      → fetch s.views s.store_ref ≡ ok v
      → v.room < length (y ∷ ys)
      → length v.items + length (y ∷ ys) ≤ diff_max
      → cfg.alloc (length v.items + length (y ∷ ys)) ≡ true
      → push_back_range cfg (y ∷ ys) (shown s)
        ≡ ok (
            shown (
              shelved
                (view_at s.store_ref (view (v.items ++ (y ∷ ys)) 0) s.views)
                (view v.items (length (y ∷ ys)))))
  unfolding push_back_range Promise.push_back_range widen_if widen cloned
  push_back_range_lost y ys s v h over fits memory =
      let n = length v.items + length (y ∷ ys) in
      let loaded : load (shown s).stores s.store_ref ≡ ok (held v) =
        load-held s.views s.store_ref ∙ ap holding h in
      let more : ltb (length (held v).storage) n ≡ true =
        lt→ltb _ _ (let len = storage-length v in omega arith) in
      let copied : cloned cfg n v.items ≡ ok (view v.items (length (y ∷ ys))) =
        rw (ne→==_false n 0 (λ e. omega arith), le→ltb_false diff_max n fits, memory)
          (ap (λ k. ok (view v.items k)) (omega arith)) in
      let widened : Promise.push_back_range cfg (y ∷ ys) v ≡ ok (view (v.items ++ (y ∷ ys)) 0) =
        rw (le→leb v.room (length (y ∷ ys)) (omega arith), le→ltb_false diff_max n fits, memory)
          (ap (λ k. ok (view (v.items ++ (y ∷ ys)) k)) (omega arith)) in
      rw
        (
          loaded,
          more,
          copy_with-held cfg n v (omega arith),
          copied,
          Appends.push_back_range_refines cfg y ys v,
          widened,
          store_at-held s.store_ref (view (v.items ++ (y ∷ ys)) 0) s.views,
        )
        (ap ok (
          publish-held (view v.items (length (y ∷ ys))) (record {
            views = view_at s.store_ref (view (v.items ++ (y ∷ ys)) 0) s.views;
            store_ref = s.store_ref;
          })))

  -- `push_back` of an element of the container itself is `push_back` of its value, also where the
  -- store is full.
  pub push_back_aliased :
      (i : ℕ) (x : A) (s : Shelf A) (v : View A)
      → fetch s.views s.store_ref ≡ ok v
      → read (held v).storage i ≡ ok x
      → push_back cfg (own i) (shown s) ≡ push_back cfg (outside x) (shown s)
  unfolding push_back Ops.push_back read_source grow_if
  push_back_aliased i x s v h r =
      let loaded : load (shown s).stores s.store_ref ≡ ok (held v) =
        load-held s.views s.store_ref ∙ ap holding h in
      elim (Bool-cases (v.room == 0)) [
        | inl t ↦ rw (loaded, capacity_reached-held v, t, r)
        | inr t ↦ rw (loaded, capacity_reached-held v, t, at_end-held cfg v, t, r)
      ]
