-- ===== src/Darray/Faults.antt =====
-- include/jau/darray.hpp: calls that run into behaviour that C++ leaves undefined.
use jaulib.Prelude.{
  ℕ, suc, ◌+◌, ◌-◌, ◌≡◌, ◌≤◌, ◌<◌, ap, ◌∙◌, true, false, [], ◌∷◌, ◌++◌, map, some, length,
  length-map, length-take, take, ◌==◌, le→leb, lt→ltb, le→ltb_false, lt→leb_false, if◌then◌else◌,
  arith, Bool-cases, inl, inr, get_elem?, get_elem?-append, drop-at,
}
use jaulib.Darray.{
  Config, ok, fault, diff_max, read, construct, move_slot, move_right, move_elements,
  grow_storage_move,
}
use jaulib.Darray.View.{View, held, view, widen, widen_if, grown}
use jaulib.Darray.Grow.{grow_storage_move-widen}
use jaulib.Darray.Inserts.{at_end-held, grown_capacity-held, no_room-held, grows}
use jaulib.Darray.Ops.{own, outside, push_back, insert_range, make_room, grow_if, read_source}
use jaulib.Darray.Erases.{storage-at}
use jaulib.Darray.Matching.{read-at}

module _ {ℓ} {A : Type ℓ} (cfg : Config) where
  -- `push_back` of an element of the array itself is `push_back` of its value while there is
  -- room, and reads memory that was given back when the array is full and could grow.
  pub push_back_own :
      (i : ℕ) (x : A) (v : View A)
      → i < length v.items
      → read (held v).storage i ≡ ok x
      → grown cfg v ≤ diff_max
      → cfg.alloc (grown cfg v) ≡ true
      → push_back cfg (own i) (held v)
        ≡ (if v.room == 0 then fault else push_back cfg (outside x) (held v))
  unfolding push_back read_source widen_if widen grow_if
  push_back_own i x v h r k a = elim (Bool-cases (v.room == 0)) [
    | inl t ↦
        let (whole, nonzero, more) = grows cfg v t in
        let n = grown cfg v in
        let widened : widen cfg n v ≡ ok (view v.items (n - length v.items)) =
          rw (le→ltb_false diff_max n k, a) in
        let moved : grow_storage_move cfg n (held v)
            ≡ ok (held (view v.items (n - length v.items))) =
          grow_storage_move-widen cfg n v whole nonzero ∙ rw widened in
        rw (at_end-held cfg v, grown_capacity-held cfg v, t, moved)
    | inr t ↦ rw (at_end-held cfg v, t, r)
  ]

  -- An object that is moved onto itself is constructed where it is alive.
  move_slot_self :
      (pos : ℕ) (v : View A) → pos < length v.items → move_slot (held v).storage pos pos ≡ fault
  unfolding move_slot construct
  move_slot_self pos v h =
      let (x, e, f) = drop-at pos v.items h in
      let seen = read-at pos v x h e in
      let len = length-map (take pos v.items) some in
      let len₁ = length-take pos v.items in
      let here : get_elem? (held v).storage pos ≡ some (some x) =
        ap (λ l. get_elem? l pos) (storage-at pos v.items v.room x e)
        ∙ ap (get_elem? (map some (take pos v.items) ++ (some x ∷ _))) (omega arith)
        ∙ get_elem?-append (map some (take pos v.items)) (some x) _ in
      rw (seen, here, construct)

  -- `insert` of an empty range before an element, where elements are moved one by one and there
  -- is room, constructs an object where another one is alive.
  pub insert_range_nothing :
      (pos : ℕ) (v : View A)
      → cfg.uses_memmove ≡ false
      → pos < length v.items
      → 0 < v.room
      → insert_range cfg pos [] (held v) ≡ fault
  unfolding insert_range make_room move_elements move_right grow_if
  insert_range_nothing pos v m h k =
      let n = length v.items - (pos + 1) in
      let some_right : length v.items - pos ≡ suc n = omega arith in
      let same : pos + 0 ≡ pos = omega arith in
      rw (
        le→leb pos (length v.items) (omega arith),
        no_room-held cfg 0 v,
        lt→leb_false v.room 0 k,
        some_right,
        lt→ltb 0 (suc n) (omega arith),
        m,
        same,
        le→ltb_false pos pos (omega arith),
        move_slot_self (pos + n) v (omega arith),
      )
