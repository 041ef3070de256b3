-- ===== src/Ringbuffer/Reset/Recapacity.antt =====
-- `recapacity` of include/jau/ringbuffer.hpp.
use jaulib.Prelude.{
  ℕ, ◌+◌, ◌<◌, ◌≤◌, ◌≡◌, refl, sym, ap, ◌∙◌, ==_iff, length, size_mod, arith, lt→ltb, le→ltb_false,
  add_size, ℕ_discrete, ne→==_false, ◌++◌,
}
use jaulib.Ringbuffer.{Ringbuffer, Traits, get_size}
use jaulib.Ringbuffer.Invariant.{IsValid, contents, counts, length-contents}
use jaulib.Ringbuffer.Puts.{with_puts, with_puts-Stored}
use jaulib.Ringbuffer.Reset.{illegal_argument, Ends, ends, Arrays, new, recapacity}
use jaulib.Ringbuffer.Reset.Clear.{Filled}
use jaulib.Ringbuffer.Reset.Clone.{copy_slots-eq, new-Filled}

module _ {ℓ} {A : Type ℓ} (t : Traits) (heap : Arrays A) (new_cap : ℕ) {r : Ringbuffer A}
    (v : IsValid r) where
  -- The resized buffer is a new one with the elements put into it.
  resized-Filled :
      get_size r ≤ new_cap
      → new_cap + 1 < size_mod
      → Filled r.nullelem
          (new_cap + 1)
          (contents r)
          (with_puts (contents r) (new t heap r.nullelem new_cap))
  resized-Filled fits small =
      let f = new-Filled t heap r.nullelem new_cap small in
      let n = counts f.valid in
      let empty = sym (length-contents (new t heap r.nullelem new_cap)) ∙ ap length f.held in
      let size = length-contents r in
      let same = f.same_capacity in
      let s = with_puts-Stored (contents r) f.valid (omega arith) in
      record {
        valid = s.valid;
        held = s.held ∙ ap (λ l. l ++ contents r) f.held;
        same_capacity = f.same_capacity;
        same_nullelem = f.same_nullelem;
      }

  -- `recapacity` of a well-formed buffer keeps its elements in order and sets the new capacity,
  -- if they fit it and the new capacity plus one is below 2^64.
  pub recapacity-Filled :
      get_size r ≤ new_cap
      → new_cap + 1 < size_mod
      → Ends (Filled r.nullelem (new_cap + 1) (contents r)) (recapacity t heap new_cap r)
  unfolding recapacity new
  recapacity-Filled fits small =
      let c = add_size new_cap 1 in
      elim (ℕ_discrete r.capacity_plus_one c) [
        | yes same ↦ rw ((==_iff _ _).1 same) (
            ends (record {
              valid = v;
              held = refl;
              same_capacity = omega arith;
              same_nullelem = refl;
            }))
        | no other ↦
            rw
              (
                ne→==_false _ _ other,
                le→ltb_false new_cap (get_size r) fits,
                copy_slots-eq r.nullelem c r.capacity_plus_one r.array
                    (record { array = heap.new_array c; pos = 0 }) r.read_pos (get_size r),
              )
              (ends (resized-Filled fits small))
      ]

  -- `recapacity` of a well-formed buffer throws when the new capacity is below the size.
  pub recapacity_too_small : new_cap < get_size r → recapacity t heap new_cap r ≡ illegal_argument
  unfolding recapacity
  recapacity_too_small few =
      let n = counts v in
      let c = add_size new_cap 1 in
      let small = v.small in
      rw (ne→==_false r.capacity_plus_one c (omega arith), lt→ltb new_cap (get_size r) few)
