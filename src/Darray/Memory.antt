-- ===== src/Darray/Memory.antt =====
-- The memory operations of include/jau/darray.hpp on storage that is written out as the slots before,
-- at and after the place in question.
use jaulib.Prelude.{
  ℕ, suc, ◌+◌, ◌≡◌, refl, sym, ap, ◌∙◌, List, [], ◌∷◌, ◌++◌, map, append_assoc, Option, none, some,
  length, length-append, set-append, get_elem?-append, replicate-suc, arith, length-replicate,
}
use jaulib.Darray.{
  ok, read, construct, dtor_one, dtor_range, ctor_copy_range, move_slot, move_left, raw,
}

module _ {ℓ} {A : Type ℓ} where
  -- A slot at a position.
  pub read-eq :
      (pre : List (Option A)) (v : A) (post : List (Option A)) (pos : ℕ)
      → pos ≡ length pre
      → read (pre ++ (some v ∷ post)) pos ≡ ok v
  unfolding read
  read-eq pre v post pos e = rw (e, get_elem?-append pre (some v) post, read)

  pub construct-eq :
      (pre : List (Option A)) (v : A) (post : List (Option A)) (pos : ℕ)
      → pos ≡ length pre
      → construct (pre ++ (none ∷ post)) pos v ≡ ok (pre ++ (some v ∷ post))
  unfolding construct
  construct-eq pre v post pos e =
      ap (λ p. construct (pre ++ (none ∷ post)) p v) e
      ∙ rw (get_elem?-append pre none post, construct) (ap ok (set-append pre (some v) none post))

  pub dtor_one-eq :
      (pre : List (Option A)) (v : A) (post : List (Option A)) (pos : ℕ)
      → pos ≡ length pre
      → dtor_one (pre ++ (some v ∷ post)) pos ≡ ok (pre ++ (none ∷ post))
  unfolding dtor_one
  dtor_one-eq pre v post pos e =
      ap (λ p. dtor_one (pre ++ (some v ∷ post)) p) e
      ∙ rw (get_elem?-append pre (some v) post, dtor_one)
          (ap ok (set-append pre none (some v) post))

  -- Ranges of slots.
  pub ctor_copy_range-eq :
      (pre : List (Option A)) (xs : List A) (post : List (Option A)) (pos : ℕ)
      → pos ≡ length pre
      → ctor_copy_range (pre ++ (raw (length xs) ++ post)) pos xs
        ≡ ok (pre ++ (map some xs ++ post))
  unfolding ctor_copy_range
  ctor_copy_range-eq pre [] post pos e = refl
  ctor_copy_range-eq pre (x ∷ xs) post pos e =
      let len = length-append pre (some x ∷ []) in
      rw (
        construct-eq pre x (raw (length xs) ++ post) pos e,
        ← append_assoc pre (some x ∷ []) (raw (length xs) ++ post),
        ctor_copy_range-eq (pre ++ some x ∷ []) xs post (pos + 1) (omega arith),
        append_assoc pre (some x ∷ []) (map some xs ++ post),
      )

  pub dtor_range-eq :
      (pre : List (Option A)) (xs : List A) (post : List (Option A)) (pos : ℕ)
      → pos ≡ length pre
      → dtor_range (pre ++ (map some xs ++ post)) pos (length xs)
        ≡ ok (pre ++ (raw (length xs) ++ post))
  unfolding dtor_range
  dtor_range-eq pre [] post pos e = refl
  dtor_range-eq pre (x ∷ xs) post pos e =
      let cleared : List (Option A) = none ∷ [] in
      let len = length-append pre cleared in
      rw (
        dtor_one-eq pre x (map some xs ++ post) pos e,
        ← append_assoc pre (none ∷ []) (map some xs ++ post),
        dtor_range-eq (pre ++ none ∷ []) xs post (pos + 1) (omega arith),
        append_assoc pre (none ∷ []) (raw (length xs) ++ post),
      )

  -- An object moves over `g` raw slots, into one to its right or to its left.
  pub move_slot-right :
      (a : List (Option A)) (v : A) (g : ℕ) (b : List (Option A)) (dest first : ℕ)
      → first ≡ length a
      → dest ≡ length a + suc g
      → move_slot (a ++ (some v ∷ (raw g ++ (none ∷ b)))) dest first
        ≡ ok (a ++ (none ∷ (raw g ++ (some v ∷ b))))
  unfolding move_slot
  move_slot-right a v g b dest first e f =
      let before = a ++ (some v ∷ raw g) in
      let len = length-append a (some v ∷ raw g) in
      let gap : List (Option A) = raw g in
      let width : length gap ≡ g = length-replicate g none in
      rw
        (
          read-eq a v (raw g ++ (none ∷ b)) first e,
          ← append_assoc a (some v ∷ raw g) (none ∷ b),
          construct-eq before v b dest (omega arith),
          append_assoc a (some v ∷ raw g) (some v ∷ b),
        )
        (dtor_one-eq a v (raw g ++ (some v ∷ b)) first e)

  move_slot-left :
      (a : List (Option A)) (v : A) (g : ℕ) (b : List (Option A)) (dest first : ℕ)
      → dest ≡ length a
      → first ≡ length a + suc g
      → move_slot (a ++ (none ∷ (raw g ++ (some v ∷ b)))) dest first
        ≡ ok (a ++ (some v ∷ (raw g ++ (none ∷ b))))
  unfolding move_slot
  move_slot-left a v g b dest first e f =
      let before = a ++ (none ∷ raw g) in
      let after = a ++ (some v ∷ raw g) in
      let hole : List (Option A) = none ∷ raw g in
      let len = length-append a hole in
      let len' = length-append a (some v ∷ raw g) in
      let gap : List (Option A) = raw g in
      let width : length gap ≡ g = length-replicate g none in
      let seen =
        ap (λ l. read l first) (sym (append_assoc a (none ∷ raw g) (some v ∷ b)))
        ∙ read-eq before v b first (omega arith) in
      rw (
        seen,
        construct-eq a v (raw g ++ (some v ∷ b)) dest e,
        ← append_assoc a (some v ∷ raw g) (some v ∷ b),
        dtor_one-eq after v b first (omega arith),
        append_assoc a (some v ∷ raw g) (none ∷ b),
      )

  -- The loop to the left closes a gap of `g + 1` raw slots.
  pub move_left-eq :
      (pre : List (Option A)) (g : ℕ) (xs : List A) (post : List (Option A)) (dest first : ℕ)
      → dest ≡ length pre
      → first ≡ length pre + suc g
      → move_left (pre ++ (raw (suc g) ++ (map some xs ++ post))) dest first (length xs)
        ≡ ok (pre ++ (map some xs ++ (raw (suc g) ++ post)))
  unfolding move_left
  move_left-eq pre g [] post dest first e f = refl
  move_left-eq pre g (x ∷ xs) post dest first e f =
      let len = length-append pre (some x ∷ []) in
      rw
        (
          move_slot-left pre x g (map some xs ++ post) dest first e f,
          replicate-suc g none (map some xs ++ post),
          ← append_assoc pre (some x ∷ []) (none ∷ (raw g ++ (map some xs ++ post))),
        )
        (move_left-eq (pre ++ some x ∷ []) g xs post (dest + 1) (first + 1) (omega arith)
            (omega arith)
          ∙ ap ok (append_assoc pre (some x ∷ []) (map some xs ++ (raw (suc g) ++ post))))
