-- ===== src/Ringbuffer/Refine/Calls.antt =====
-- Each operation of include/jau/ringbuffer.hpp against the same call of the bounded queue.
use jaulib.Prelude.{
  ℕ, suc, zero, ◌<◌, ◌≡◌, refl, sym, ap, ◌∙◌, Bool, true, false, List, [], ◌∷◌, ltb, ◌==◌, length,
  take, drop, min, get_or, arith, append-nil, take-min, drop-min, ℕ_discrete, le→leb, lt→leb_false,
  le→ltb_false, lt→ltb, ne→==_false, dec_lt,
}
use mathlib.Core.Path.{subst}
use jaulib.Ringbuffer.{Ringbuffer, next_pos, get_size, get_free_slots, is_empty, is_full}
use jaulib.Ringbuffer.Wait.{Mode, WakeUp, await}
use jaulib.Ringbuffer.Ops
use jaulib.Ringbuffer.Ops.{put_act, get_act, take_one}
use jaulib.Ringbuffer.Invariant.{is_empty_iff, is_full_iff}
use jaulib.Ringbuffer.Puts.{store_range-Stored, store_one-Stored}
use jaulib.Ringbuffer.Gets.{drop_range-Taken, take_range-Taken, take_one-Taken}
use jaulib.Ringbuffer.Simulation.{
  EndAlike, Agree, both_return, await-EndAlike, wait_loop-EndAlike, await-ready, settle-Agree,
  count_of-Agree,
}
use jaulib.Ringbuffer.Queue
use jaulib.Ringbuffer.Refine.Acts.{
  Holds, sizes, Holds-Stored, Holds-Taken, put_act-Holds, get_act-Holds, is_full-free,
  is_empty-length, few_free, few_elems,
}

module _ {ℓ} {A : Type ℓ} (cap : ℕ) (nullelem : A) (mode : Mode) where
  abbrev pub Rel : Ringbuffer A → List A → Type ℓ
  Rel = Holds cap nullelem

  -- The element that is read is the oldest.
  oldest :
      {s : Ringbuffer A} {t : List A}
      → Rel s t
      → is_empty s ≡ false
      → (take_one s).0 ≡ get_or t 0 nullelem
  oldest k f =
      let taken = take_one-Taken k.valid (ground (arith, is_empty_iff k.valid)) in
      ap (λ l. get_or l 0 nullelem) (sym taken.1 ∙ k.held)

  oldest_peeked :
      (s : Ringbuffer A) (t : List A)
      → Rel s t
      → is_empty s ≡ false
      → get_or s.array (next_pos s.capacity_plus_one s.read_pos) s.nullelem ≡ get_or t 0 nullelem
  unfolding take_one
  oldest_peeked s t k f = oldest k f

  -- A putter's wait, and a getter's.
  await_getters :
      (blocked : Ringbuffer A → Bool) (blocked' : List A → Bool)
      → ((s : Ringbuffer A) (t : List A) → Rel s t → blocked s ≡ blocked' t)
      → (wakes : List (WakeUp ℕ)) (r : Ringbuffer A) (q : List A) → Rel r q
      → EndAlike Rel blocked
          (await get_act blocked mode wakes r)
          (await (Queue.get_act cap nullelem) blocked' mode wakes q)
  await_getters blocked blocked' alike wakes r q h =
      await-EndAlike Rel get_act (Queue.get_act cap nullelem) blocked blocked'
        (get_act-Holds cap nullelem) alike mode wakes r q h

  await_putters :
      (blocked : Ringbuffer A → Bool) (blocked' : List A → Bool)
      → ((s : Ringbuffer A) (t : List A) → Rel s t → blocked s ≡ blocked' t)
      → (wakes : List (WakeUp (List A))) (r : Ringbuffer A) (q : List A) → Rel r q
      → EndAlike Rel blocked
          (await put_act blocked mode wakes r)
          (await (Queue.put_act cap nullelem) blocked' mode wakes q)
  await_putters blocked blocked' alike wakes r q h =
      await-EndAlike Rel put_act (Queue.put_act cap nullelem) blocked blocked'
        (put_act-Holds cap nullelem) alike mode wakes r q h

  pub put_refines :
      (wakes : List (WakeUp ℕ)) (e : A) (r : Ringbuffer A) (q : List A)
      → Rel r q
      → Agree Rel (Ops.put mode wakes e r) (Queue.put cap nullelem mode wakes e q)
  unfolding Ops.put Queue.put
  put_refines wakes e r q h =
      settle-Agree _ _ refl
        (λ s t k f. (
          refl,
          Holds-Stored cap nullelem k
              (store_one-Stored e k.valid (ground (arith, is_full_iff k.valid))),
        ))
        (await_getters is_full (λ q. Queue.free cap nullelem q == 0) (is_full-free cap nullelem)
          wakes r q h)

  pub put_range_refines :
      (wakes : List (WakeUp ℕ)) (elems : List A) (r : Ringbuffer A) (q : List A)
      → Rel r q
      → Agree Rel
          (Ops.put_range mode wakes elems r)
          (Queue.put_range cap nullelem mode wakes elems q)
  unfolding Ops.put_range Queue.put_range Ops.settle
  put_range_refines wakes [] r q h =
      let c = h.same_capacity in
      rw
        (
          lt→leb_false r.capacity_plus_one 0 h.valid.nonempty,
          le→ltb_false cap 0 (omega arith),
          await-ready (Queue.get_act cap nullelem) (λ q. ltb (Queue.free cap nullelem q) 0) mode
              wakes q (le→ltb_false (Queue.free cap nullelem q) 0 (omega arith)),
          append-nil,
        )
        (both_return refl h)
  put_range_refines wakes (e ∷ elems) r q h =
      let n = length (e ∷ elems) in
      let c = h.same_capacity in
      elim (dec_lt cap n) [
        | yes large ↦
            rw (le→leb r.capacity_plus_one n (omega arith), lt→ltb cap n large) (both_return refl h)
        | no fits ↦
            rw
              (
                lt→leb_false r.capacity_plus_one n (omega arith),
                le→ltb_false cap n (omega arith),
                ne→==_false n 0 (omega arith),
              )
              (settle-Agree _ _ refl
                (λ s t k f. (
                  refl,
                  Holds-Stored cap nullelem k
                      (store_range-Stored (e ∷ elems) k.valid (omega arith) (ground arith)),
                ))
                (await_getters (λ s. ltb (get_free_slots s) n)
                  (λ q. ltb (Queue.free cap nullelem q) n) (few_free cap nullelem n) wakes r q h))
      ]

  pub peek_refines :
      (wakes : List (WakeUp (List A))) (r : Ringbuffer A) (q : List A)
      → Rel r q
      → Agree Rel (Ops.peek mode wakes r) (Queue.peek cap nullelem mode wakes q)
  unfolding Ops.peek Queue.peek
  peek_refines wakes r q h =
      settle-Agree _ _ (ap (λ v. (false, v)) h.same_nullelem)
        (λ s t k f. (ap (λ v. (true, v)) (oldest_peeked s t k f), k))
        (await_putters is_empty (λ q. length q == 0) (is_empty-length cap nullelem) wakes r q h)

  pub get_refines :
      (wakes : List (WakeUp (List A))) (r : Ringbuffer A) (q : List A)
      → Rel r q
      → Agree Rel (Ops.get mode wakes r) (Queue.get cap nullelem mode wakes q)
  unfolding Ops.get Queue.get
  get_refines wakes r q h =
      settle-Agree _ _ (ap (λ v. (false, v)) h.same_nullelem)
        (λ s t k f.
          let taken = take_one-Taken k.valid (ground (arith, is_empty_iff k.valid)) in
          (ap (λ v. (true, v)) (oldest k f), Holds-Taken cap nullelem k taken.0))
        (await_putters is_empty (λ q. length q == 0) (is_empty-length cap nullelem) wakes r q h)

  -- As many as there are, up to the room that there is for them.
  taken_range :
      (dest_len : ℕ) (s : Ringbuffer A) (t : List A)
      → Rel s t
      → 0 < min dest_len (get_size s)
      → let got = Ops.take_range (min dest_len (get_size s)) s in
        (got.0 ≡ take dest_len t) × Rel got.1 (drop dest_len t)
  taken_range dest_len s t k pos =
      let m = min dest_len (get_size s) in
      let e : m ≡ min dest_len (length t) = ap (min dest_len) (sizes cap nullelem k).size in
      let got = take_range-Taken m k.valid pos (omega arith) in
      let rest = Holds-Taken cap nullelem k got.0 in
      (
        got.1 ∙ ap (take m) k.held ∙ ap (λ i. take i t) e ∙ take-min dest_len t,
        subst (Rel (Ops.take_range m s).1) (ap (λ i. drop i t) e ∙ drop-min dest_len t) rest,
      )

  pub get_range_refines :
      (wakes : List (WakeUp (List A))) (dest_len min_count : ℕ) (r : Ringbuffer A) (q : List A)
      → Rel r q
      → Agree Rel
          (Ops.get_range mode wakes dest_len min_count r)
          (Queue.get_range cap nullelem mode wakes dest_len min_count q)
  unfolding Ops.get_range Queue.get_range
  get_range_refines wakes dest_len min_count r q h =
      let n = min dest_len min_count in
      let c = h.same_capacity in
      elim (ℕ_discrete n 0) [
        | yes none_wanted ↦
            rw
              (
                none_wanted,
                lt→leb_false r.capacity_plus_one 0 h.valid.nonempty,
                le→ltb_false cap 0 (omega arith),
              )
              (both_return refl h)
        | no some_wanted ↦ elim (dec_lt cap n) [
          | yes large ↦
              rw (le→leb r.capacity_plus_one n (omega arith), lt→ltb cap n large)
                (both_return refl h)
          | no fits ↦
              rw
                (
                  lt→leb_false r.capacity_plus_one n (omega arith),
                  le→ltb_false cap n (omega arith),
                  ne→==_false n 0 some_wanted,
                )
                (settle-Agree _ _ refl (λ s t k f. taken_range dest_len s t k (ground arith))
                  (await_putters (λ s. ltb (get_size s) n) (λ q. ltb (length q) n)
                    (few_elems cap nullelem n) wakes r q h))
        ]
      ]

  pub drop_refines :
      (wakes : List (WakeUp (List A))) (count : ℕ) (r : Ringbuffer A) (q : List A)
      → Rel r q
      → Agree Rel
          (Ops.drop_elems mode wakes count r)
          (Queue.drop_elems cap nullelem mode wakes count q)
  unfolding Ops.drop_elems Queue.drop_elems Ops.settle
  drop_refines wakes zero r q h =
      let c = h.same_capacity in
      rw
        (
          lt→leb_false r.capacity_plus_one 0 h.valid.nonempty,
          le→ltb_false cap 0 (omega arith),
          await-ready (Queue.put_act cap nullelem) (λ q. ltb (length q) 0) mode wakes q
              (le→ltb_false (length q) 0 (omega arith)),
        )
        (both_return refl h)
  drop_refines wakes (suc n) r q h =
      let c = h.same_capacity in
      elim (dec_lt cap (suc n)) [
        | yes large ↦
            rw (le→leb r.capacity_plus_one (suc n) (omega arith), lt→ltb cap (suc n) large)
              (both_return refl h)
        | no fits ↦
            rw
              (
                lt→leb_false r.capacity_plus_one (suc n) (omega arith),
                le→ltb_false cap (suc n) (omega arith),
                ne→==_false (suc n) 0 (omega arith),
              )
              (settle-Agree _ _ refl
                (λ s t k f. (
                  refl,
                  Holds-Taken cap nullelem k
                      (drop_range-Taken (suc n) k.valid (omega arith) (ground arith)),
                ))
                (await_putters (λ s. ltb (get_size s) (suc n)) (λ q. ltb (length q) (suc n))
                  (few_elems cap nullelem (suc n)) wakes r q h))
      ]

  pub wait_for_elements_refines :
      (wakes : List (WakeUp (List A))) (min_count : ℕ) (r : Ringbuffer A) (q : List A)
      → Rel r q
      → Agree Rel
          (Ops.wait_for_elements mode wakes min_count r)
          (Queue.wait_for_elements cap nullelem mode wakes min_count q)
  unfolding Ops.wait_for_elements Queue.wait_for_elements
  wait_for_elements_refines wakes min_count r q h =
      count_of-Agree get_size length (λ s t k. (sizes cap nullelem k).size)
        (wait_loop-EndAlike Rel put_act (Queue.put_act cap nullelem) _ _
          (put_act-Holds cap nullelem) (few_elems cap nullelem min_count) mode wakes r q h)

  pub wait_for_free_slots_refines :
      (wakes : List (WakeUp ℕ)) (min_count : ℕ) (r : Ringbuffer A) (q : List A)
      → Rel r q
      → Agree Rel
          (Ops.wait_for_free_slots mode wakes min_count r)
          (Queue.wait_for_free_slots cap nullelem mode wakes min_count q)
  unfolding Ops.wait_for_free_slots Queue.wait_for_free_slots
  wait_for_free_slots_refines wakes min_count r q h =
      count_of-Agree get_free_slots (Queue.free cap nullelem) (λ s t k. (sizes cap nullelem k).free)
        (wait_loop-EndAlike Rel get_act (Queue.get_act cap nullelem) _ _
          (get_act-Holds cap nullelem) (few_free cap nullelem min_count) mode wakes r q h)
