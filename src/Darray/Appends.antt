-- ===== src/Darray/Appends.antt =====
-- include/jau/darray.hpp: `push_back` of an element and of a range, and `reserve`, do on slots what they
-- promise of lists.
use jaulib.Prelude.{
  ℕ, ◌+◌, ◌-◌, ◌≡◌, ◌≤◌, sym, ap, ap₂, ◌∙◌, List, [], ◌∷◌, ◌++◌, map, append_assoc, Option, some,
  length, length-append, length-map, ltb, ◌==◌, ltb→lt, arith,
}
use mathlib.Core.List.{map-append}
use jaulib.Darray.{Config, ok, ◌>>=◌, raw, construct, ctor_copy_range}
use jaulib.Darray.View.{View, held, holding, view, volume, grown}
use jaulib.Darray.Memory.{construct-eq, ctor_copy_range-eq}
use jaulib.Darray.Grow.{grow_if-widen_if, grow_if-bind, storage-length, raw-split}
use jaulib.Darray.Ops.{outside, push_back, push_back_range, read_source, reserve}
use jaulib.Darray.Promise
use jaulib.Darray.Inserts.{
  at_end-held, grown_capacity-held, no_room-held, grows, fits, range_grows, range_fits,
}

module _ {ℓ} {A : Type ℓ} (cfg : Config) where
  -- Elements constructed in the first raw slots.
  append_range :
      (ys xs : List A) (room : ℕ)
      → length ys ≤ room
      → (ctor_copy_range (held (view xs room)).storage (length xs) ys >>= λ s.
          ok (record { storage = s; size = length xs + length ys }))
        ≡ ok (held (view (xs ++ ys) (room - length ys)))
  append_range ys xs room k =
      let objects : List (Option A) = map some xs in
      let rest : List (Option A) = raw (room - length ys) in
      let start =
        ap (λ l. ctor_copy_range (objects ++ l) (length xs) ys)
          (sym (raw-split (length ys) room k)) in
      let finish =
        sym (append_assoc objects (map some ys) rest)
        ∙ ap (λ l. l ++ rest) (sym (map-append some xs ys)) in
      rw (start, ctor_copy_range-eq objects ys rest (length xs) (sym (length-map xs some)))
        (ap₂ (λ s n. ok (record { storage = s; size = n })) finish (sym (length-append xs ys)))

  append_one :
      (x : A) (xs : List A) (room : ℕ)
      → 1 ≤ room
      → (construct (held (view xs room)).storage (length xs) x >>= λ s.
          ok (record { storage = s; size = length xs + 1 }))
        ≡ ok (held (view (xs ++ (x ∷ [])) (room - 1)))
  append_one x xs room k =
      let objects : List (Option A) = map some xs in
      let rest : List (Option A) = raw (room - 1) in
      let start = ap (λ l. construct (objects ++ l) (length xs) x) (sym (raw-split 1 room k)) in
      let finish =
        sym (append_assoc objects (map some (x ∷ [])) rest)
        ∙ ap (λ l. l ++ rest) (sym (map-append some xs (x ∷ []))) in
      rw (start, construct-eq objects x rest (length xs) (sym (length-map xs some)))
        (ap₂ (λ s n. ok (record { storage = s; size = n })) finish
          (sym (length-append xs (x ∷ []))))

  -- `push_back` of an element from elsewhere.
  pub push_back_refines :
      (x : A) (v : View A)
      → push_back cfg (outside x) (held v) ≡ holding (Promise.push_back cfg x v)
  unfolding push_back Promise.push_back read_source
  push_back_refines x v =
      rw (at_end-held cfg v, grown_capacity-held cfg v)
        (grow_if-bind cfg (v.room == 0) (grown cfg v) 1 v _ _ (grows cfg v) (fits cfg v)
          (λ room enough. append_one x v.items room enough))

  pub push_back_range_refines :
      (y : A) (ys : List A) (v : View A)
      → push_back_range cfg (y ∷ ys) (held v) ≡ holding (Promise.push_back_range cfg (y ∷ ys) v)
  unfolding push_back_range Promise.push_back_range
  push_back_range_refines y ys v = rw (no_room-held cfg (length (y ∷ ys)) v) (
      grow_if-bind cfg _ _ (length (y ∷ ys)) v _ _ (range_grows cfg y ys v) (range_fits cfg y ys v)
        (λ room enough. append_range (y ∷ ys) v.items room enough))

  pub reserve_refines :
      (n : ℕ) (v : View A) → reserve cfg n (held v) ≡ holding (Promise.reserve cfg n v)
  unfolding reserve Promise.reserve
  reserve_refines n v = rw (storage-length v) (
      grow_if-widen_if cfg (ltb (volume v) n) n v
        (λ e. let lt = ltb→lt (volume v) n e in (omega arith, omega arith)))
