-- ===== src/Darray/Inserts.antt =====
-- include/jau/darray.hpp: both kinds of `insert` do on slots what they promise of lists.
use jaulib.Prelude.{
  ℕ, suc, ◌+◌, ◌-◌, ◌≡◌, ◌≤◌, ◌<◌, refl, sym, ap, ap₂, ◌∙◌, true, false, List, [], ◌∷◌, ◌++◌, map,
  append_assoc, Option, some, length, length-append, length-map, length-drop, length-take, take,
  drop, take-append-drop, leb, ltb, ◌==◌, leb→le, Bool-cases, inl, inr, arith, ltb_false→le,
  leb_false→lt, ==-add_left, leb-add_left, nil_of_length,
}
use mathlib.Core.List.{map-append}
use jaulib.Darray.{grown_capacity, Config, ok, ◌>>=◌, raw, construct, ctor_copy_range}
use jaulib.Darray.View.{View, held, holding, view, volume, grown, spliced}
use jaulib.Darray.Memory.{construct-eq, ctor_copy_range-eq}
use jaulib.Darray.Shift.{move_elements-right}
use jaulib.Darray.Grow.{grow_if-bind, storage-length, raw-split}
use jaulib.Darray.Ops.{outside, insert, insert_range, make_room, at_end, no_room, read_source}
use jaulib.Darray.Promise

module _ {ℓ} {A : Type ℓ} where
  -- Slots of objects and raw slots.
  pub map_split :
      (pos : ℕ) (xs : List A) → map some xs ≡ map some (take pos xs) ++ map some (drop pos xs)
  map_split pos xs =
      ap (map some) (sym (take-append-drop pos xs)) ∙ map-append some (take pos xs) (drop pos xs)

module _ {ℓ} {A : Type ℓ} (cfg : Config) where
  -- Room for `g` elements is made before position `pos`.
  pub make_room-eq :
      (pos g : ℕ) (xs : List A) (room : ℕ)
      → pos ≤ length xs
      → suc g ≤ room
      → make_room cfg pos (suc g) (held (view xs room))
        ≡ ok (
            map some (take pos xs)
            ++ (raw (suc g) ++ (map some (drop pos xs) ++ raw (room - suc g))))
  unfolding make_room
  make_room-eq pos g xs room h k =
      let before : List (Option A) = map some (take pos xs) in
      let len = length-map (take pos xs) some in
      let len₁ = length-take pos xs in
      let len₂ = length-drop pos xs in
      let start : map some xs ++ raw room
          ≡ before ++ (map some (drop pos xs) ++ (raw (suc g) ++ raw (room - suc g))) =
        ap₂ (λ l r. l ++ r) (map_split pos xs) (sym (raw-split (suc g) room k))
        ∙ append_assoc before (map some (drop pos xs)) (raw (suc g) ++ raw (room - suc g)) in
      elim (Bool-cases (ltb 0 (length xs - pos))) [
        | inl t ↦
            rw (t, start, sym len₂)
              (move_elements-right cfg before g (drop pos xs) (raw (room - suc g)) (pos + suc g) pos
                (omega arith) (omega arith))
        | inr t ↦
            let none_right =
              nil_of_length (drop pos xs)
                (let none_left = ltb_false→le 0 (length xs - pos) t in omega arith) in
            rw (t, start, none_right)
      ]

  -- The elements in the room that was made.
  spliced-storage :
      (pos : ℕ) (ys xs : List A) (room : ℕ)
      → map some (take pos xs)
          ++ (map some ys ++ (map some (drop pos xs) ++ raw (room - length ys)))
        ≡ (held (spliced pos ys (view xs room))).storage
  spliced-storage pos ys xs room =
      let rest : List (Option A) = raw (room - length ys) in
      ap (λ l. map some (take pos xs) ++ l)
        (sym (append_assoc (map some ys) (map some (drop pos xs)) rest)
          ∙ ap (λ l. l ++ rest) (sym (map-append some ys (drop pos xs))))
      ∙ sym (append_assoc (map some (take pos xs)) (map some (ys ++ drop pos xs)) rest)
      ∙ ap (λ l. l ++ rest) (sym (map-append some (take pos xs) (ys ++ drop pos xs)))

  pub length-spliced :
      (pos : ℕ) (ys xs : List A)
      → pos ≤ length xs
      → length (take pos xs ++ (ys ++ drop pos xs)) ≡ length xs + length ys
  length-spliced pos ys xs h =
      let len₁ = length-take pos xs in
      let len₂ = length-drop pos xs in
      let len₃ = length-append (take pos xs) (ys ++ drop pos xs) in
      omega (arith, length-append ys (drop pos xs))

  pub at_end-held : (v : View A) → at_end cfg (held v) ≡ (v.room == 0)
  unfolding at_end
  at_end-held v = rw (storage-length v) (==-add_left (length v.items) v.room)

  pub grown_capacity-held : (v : View A) → grown_capacity cfg (held v) ≡ grown cfg v
  unfolding grown_capacity grown
  grown_capacity-held v = rw (storage-length v)

  pub no_room-held : (count : ℕ) (v : View A) → no_room cfg count (held v) ≡ leb v.room count
  unfolding no_room
  no_room-held count v = rw (storage-length v) (leb-add_left (length v.items) v.room count)

  pub grows :
      (v : View A)
      → (v.room == 0) ≡ true
      → (volume v ≤ grown cfg v) × (0 < grown cfg v) × (length v.items + 1 ≤ grown cfg v)
  unfolding grown
  grows v e = (omega arith, omega arith, omega arith)

  pub fits : (v : View A) → (v.room == 0) ≡ false → 1 ≤ v.room
  fits v e = ground arith

  pub range_grows :
      (y : A) (ys : List A) (v : View A)
      → leb v.room (length (y ∷ ys)) ≡ true
      → (volume v ≤ length v.items + length (y ∷ ys))
        × (0 < length v.items + length (y ∷ ys))
        × (length v.items + length (y ∷ ys) ≤ length v.items + length (y ∷ ys))
  range_grows y ys v e =
      let le = leb→le v.room (length (y ∷ ys)) e in (omega arith, omega arith, omega arith)

  pub range_fits :
      (y : A) (ys : List A) (v : View A)
      → leb v.room (length (y ∷ ys)) ≡ false
      → length (y ∷ ys) ≤ v.room
  range_fits y ys v e = let lt = leb_false→lt v.room (length (y ∷ ys)) e in omega arith

  -- Once there is room, both kinds of `insert` succeed.
  add_one :
      (pos : ℕ) (x : A) (xs : List A) (room : ℕ)
      → pos ≤ length xs
      → 1 ≤ room
      → (make_room cfg pos 1 (held (view xs room)) >>= λ s.
          construct s pos x >>= λ s'. ok (record { storage = s'; size = length xs + 1 }))
        ≡ ok (held (spliced pos (x ∷ []) (view xs room)))
  add_one pos x xs room h k =
      let len = length-map (take pos xs) some in
      let len₁ = length-take pos xs in
      let before : List (Option A) = map some (take pos xs) in
      let after = map some (drop pos xs) ++ raw (room - 1) in
      rw (make_room-eq pos 0 xs room h k, construct-eq before x after pos (omega arith))
        (ap₂ (λ s n. ok (record { storage = s; size = n })) (spliced-storage pos (x ∷ []) xs room)
          (sym (length-spliced pos (x ∷ []) xs h)))

  add_range :
      (pos g : ℕ) (ys xs : List A) (room : ℕ)
      → length ys ≡ suc g
      → pos ≤ length xs
      → length ys ≤ room
      → (make_room cfg pos (length ys) (held (view xs room)) >>= λ s.
          ctor_copy_range s pos ys >>= λ s'.
          ok (record { storage = s'; size = length xs + length ys }))
        ≡ ok (held (spliced pos ys (view xs room)))
  add_range pos g ys xs room e h k =
      let len = length-map (take pos xs) some in
      let len₁ = length-take pos xs in
      let before : List (Option A) = map some (take pos xs) in
      let after = map some (drop pos xs) ++ raw (room - length ys) in
      let made : make_room cfg pos (length ys) (held (view xs room))
          ≡ ok (before ++ (raw (length ys) ++ after)) =
        rw e (make_room-eq pos g xs room h (omega arith)) in
      rw (made, ctor_copy_range-eq before ys after pos (omega arith))
        (ap₂ (λ s n. ok (record { storage = s; size = n })) (spliced-storage pos ys xs room)
          (sym (length-spliced pos ys xs h)))

  -- `insert` of one element from elsewhere puts it before the position, after growing where the
  -- array is full, and throws where the position is past the end or memory is short.
  pub insert_refines :
      (pos : ℕ) (x : A) (v : View A)
      → insert cfg pos (outside x) (held v) ≡ holding (Promise.insert cfg pos x v)
  unfolding insert Promise.insert read_source
  insert_refines pos x v = elim (Bool-cases (leb pos (length v.items))) [
    | inl t ↦
        rw (t, at_end-held v, grown_capacity-held v)
          (grow_if-bind cfg (v.room == 0) (grown cfg v) 1 v _ _ (grows v) (fits v)
            (λ room enough. add_one pos x v.items room (leb→le _ _ t) enough))
    | inr t ↦ rw t
  ]

  -- `insert` of a range that is not empty puts it before the position, after growing where there
  -- is no room, and throws where the position is past the end or memory is short.
  pub insert_range_refines :
      (pos : ℕ) (y : A) (ys : List A) (v : View A)
      → insert_range cfg pos (y ∷ ys) (held v) ≡ holding (Promise.insert_range cfg pos (y ∷ ys) v)
  unfolding insert_range Promise.insert_range
  insert_range_refines pos y ys v = elim (Bool-cases (leb pos (length v.items))) [
    | inl t ↦
        rw (t, no_room-held (length (y ∷ ys)) v)
          (grow_if-bind cfg _ _ (length (y ∷ ys)) v _ _ (range_grows y ys v) (range_fits y ys v)
            (λ room enough.
              add_range pos (length ys) (y ∷ ys) v.items room refl (leb→le _ _ t) enough))
    | inr t ↦ rw t
  ]
