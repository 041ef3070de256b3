-- ===== src/Darray/Shift.antt =====
-- include/jau/darray.hpp: `move_elements` shifts a block of objects over raw slots, to the right or to the
-- left, and does so whether it moves one object after the other or all bytes at once.
use jaulib.Prelude.{
  ℕ, zero, suc, ◌+◌, ◌≡◌, ◌≤◌, refl, sym, ap, ap₂, ◌∙◌, List, [], ◌∷◌, ◌++◌, map, append_assoc,
  Option, none, some, length, length-append, replicate-suc, replicate-add, replicate,
  length-replicate, length-map, take-append_length, drop-append_length, take-append_add,
  drop-append_add, take, drop, le→leb, lt→ltb, le→ltb_false, Bool-cases, inl, inr, arith,
}
use mathlib.Core.List.{map-append}
use jaulib.Darray.{Config, ok, move_right, move_block, move_elements, raw}
use jaulib.Darray.Memory.{move_slot-right, move_left-eq}

module _ {ℓ} {A : Type ℓ} where
  -- A list with a last element.
  pub last-split :
      (xs : List A) (n : ℕ)
      → length xs ≡ suc n
      → (ys : List A) × (x : A) × (xs ≡ ys ++ (x ∷ [])) × (length ys ≡ n)
  last-split [] n h = absurd (omega arith)
  last-split (x ∷ []) n h = ([], x, refl, omega arith)
  last-split (x ∷ y ∷ xs) zero h = absurd (omega arith)
  last-split (x ∷ y ∷ xs) (suc n) h =
      let (ys, z, e, k) = last-split (y ∷ xs) n (omega arith) in
      (x ∷ ys, z, ap (λ l. x ∷ l) e, ap suc k)

  objects : List A → List (Option A)
  objects xs = map some xs

  -- The loop to the right closes a gap of `g + 1` raw slots.
  pub move_right-eq :
      (n : ℕ) (pre : List (Option A)) (g : ℕ) (xs : List A) (post : List (Option A))
      (dest first : ℕ)
      → length xs ≡ n
      → first ≡ length pre
      → dest ≡ length pre + suc g
      → move_right (pre ++ (map some xs ++ (raw (suc g) ++ post))) dest first n
        ≡ ok (pre ++ (raw (suc g) ++ (map some xs ++ post)))
  unfolding move_right
  move_right-eq zero pre g [] post dest first h e f = refl
  move_right-eq zero pre g (x ∷ xs) post dest first h e f = absurd (omega arith)
  move_right-eq (suc n) pre g xs post dest first h e f =
      let (ys, x, split, k) = last-split xs n h in
      let before = pre ++ map some ys in
      let len = length-append pre (map some ys) in
      let width = length-map ys some in
      let last : List (Option A) = some x ∷ [] in
      let snoc = ap (map some) split ∙ map-append some ys (x ∷ []) in
      let whole : (rest : List (Option A)) → map some xs ++ rest ≡ map some ys ++ (some x ∷ rest) =
        λ rest. ap (λ l. l ++ rest) snoc ∙ append_assoc (map some ys) last rest in
      let raws : List (Option A) = raw g in
      let start =
        ap (λ l. pre ++ l) (whole (raw (suc g) ++ post))
        ∙ sym (append_assoc pre (map some ys) (some x ∷ (raw (suc g) ++ post)))
        ∙ ap (λ l. before ++ (some x ∷ l)) (sym (replicate-suc g none post)) in
      let finish = ap (λ l. pre ++ (raw (suc g) ++ l)) (sym (whole post)) in
      ap (λ s. move_right s dest first (suc n)) start
      ∙ rw (move_slot-right before x g post (dest + n) (first + n) (omega arith) (omega arith)) (
          ap (λ s. move_right s dest first n)
            (append_assoc pre (map some ys) (raw (suc g) ++ (some x ∷ post)))
          ∙ move_right-eq n pre g ys (some x ∷ post) dest first k e f
          ∙ ap ok finish)

  -- `memmove` in terms of the block, of the storage without it, and of what stands around its new place.
  block-eq :
      (storage : List (Option A)) (dest first count : ℕ)
      (block cleared before after : List (Option A))
      → first + count ≤ length storage
      → dest + count ≤ length storage
      → take count (drop first storage) ≡ block
      → take first storage ++ (raw count ++ drop (first + count) storage) ≡ cleared
      → take dest cleared ≡ before
      → drop (dest + count) cleared ≡ after
      → move_block storage dest first count ≡ ok (before ++ (block ++ after))
  unfolding move_block
  block-eq storage dest first count block cleared before after h k e f b a =
      rw (le→leb _ _ h, le→leb _ _ k, f, e, b, a)

  block-right :
      (pre : List (Option A)) (g : ℕ) (xs : List A) (post : List (Option A)) (dest first : ℕ)
      → first ≡ length pre
      → dest ≡ length pre + suc g
      → move_block (pre ++ (map some xs ++ (raw (suc g) ++ post))) dest first (length xs)
        ≡ ok (pre ++ (raw (suc g) ++ (map some xs ++ post)))
  block-right pre g xs post dest first e f =
      let n = length xs in
      let hole : List (Option A) = raw (suc g) in
      let holes : List (Option A) = raw n in
      let objects = map some xs in
      let width = length-map xs some in
      let width_hole : length hole ≡ suc g = length-replicate (suc g) none in
      let width_holes : length holes ≡ n = length-replicate n none in
      let len = length-append pre (objects ++ (hole ++ post)) in
      let len₁ = length-append objects (hole ++ post) in
      let len₂ = length-append hole post in
      let len₃ = length-append pre hole in
      let storage = pre ++ (objects ++ (hole ++ post)) in
      let swap : holes ++ (hole ++ post) ≡ hole ++ (holes ++ post) =
        sym (append_assoc holes hole post)
        ∙ ap (λ l. l ++ post)
            (replicate-add n (suc g) none
              ∙ ap (λ i. replicate i none) (omega arith)
              ∙ sym (replicate-add (suc g) n none))
        ∙ append_assoc hole holes post in
      let after_block =
        drop-append_add pre (objects ++ (hole ++ post)) n (first + n) (omega arith)
        ∙ drop-append_length objects (hole ++ post) n width in
      let cleared =
        ap₂ (λ l r. l ++ (holes ++ r)) (take-append_length pre _ first (omega arith)) after_block
        ∙ ap (λ l. pre ++ l) swap in
      block-eq storage dest first n objects (pre ++ (hole ++ (holes ++ post))) (pre ++ hole) post
        (omega arith) (omega arith)
        (ap (take n) (drop-append_length pre _ first (omega arith))
          ∙ take-append_length objects _ n width)
        cleared
        (take-append_add pre _ (suc g) dest f
          ∙ ap (λ l. pre ++ l) (take-append_length hole _ (suc g) width_hole))
        (drop-append_add pre _ (suc g + n) (dest + n) (omega arith)
          ∙ drop-append_add hole _ n (suc g + n) (omega arith)
          ∙ drop-append_length holes post n width_holes)
      ∙ ap ok (append_assoc pre hole (objects ++ post))

  block-left :
      (pre : List (Option A)) (g : ℕ) (xs : List A) (post : List (Option A)) (dest first : ℕ)
      → dest ≡ length pre
      → first ≡ length pre + suc g
      → move_block (pre ++ (raw (suc g) ++ (map some xs ++ post))) dest first (length xs)
        ≡ ok (pre ++ (map some xs ++ (raw (suc g) ++ post)))
  block-left pre g xs post dest first e f =
      let n = length xs in
      let hole : List (Option A) = raw (suc g) in
      let holes : List (Option A) = raw n in
      let objects = map some xs in
      let width = length-map xs some in
      let width_hole : length hole ≡ suc g = length-replicate (suc g) none in
      let width_holes : length holes ≡ n = length-replicate n none in
      let len = length-append pre (hole ++ (objects ++ post)) in
      let len₁ = length-append objects post in
      let len₂ = length-append hole (objects ++ post) in
      let storage = pre ++ (hole ++ (objects ++ post)) in
      let swap : hole ++ (holes ++ post) ≡ holes ++ (hole ++ post) =
        sym (append_assoc hole holes post)
        ∙ ap (λ l. l ++ post)
            (replicate-add (suc g) n none
              ∙ ap (λ i. replicate i none) (omega arith)
              ∙ sym (replicate-add n (suc g) none))
        ∙ append_assoc holes hole post in
      let before_block =
        take-append_add pre (hole ++ (objects ++ post)) (suc g) first f
        ∙ ap (λ l. pre ++ l) (take-append_length hole _ (suc g) width_hole) in
      let at_block =
        drop-append_add pre (hole ++ (objects ++ post)) (suc g) first f
        ∙ drop-append_length hole _ (suc g) width_hole in
      let after_block =
        drop-append_add pre (hole ++ (objects ++ post)) (suc g + n) (first + n) (omega arith)
        ∙ drop-append_add hole _ n (suc g + n) (omega arith)
        ∙ drop-append_length objects post n width in
      let cleared =
        ap₂ (λ l r. l ++ (holes ++ r)) before_block after_block
        ∙ append_assoc pre hole (holes ++ post)
        ∙ ap (λ l. pre ++ l) swap in
      block-eq storage dest first n objects (pre ++ (holes ++ (hole ++ post))) pre (hole ++ post)
        (omega arith) (omega arith) (ap (take n) at_block ∙ take-append_length objects _ n width)
        cleared (take-append_length pre _ dest (omega arith))
        (drop-append_add pre _ n (dest + n) (omega arith)
          ∙ drop-append_length holes _ n width_holes)

module _ {ℓ} {A : Type ℓ} (cfg : Config) where
  -- `move_elements` to the right, over raw slots next to the block, has the same effect with
  -- `memmove` as with the loop that moves one object after the other: the block stands behind the
  -- raw slots. Its positions are those of the block and of its new place.
  pub move_elements-right :
      (pre : List (Option A)) (g : ℕ) (xs : List A) (post : List (Option A)) (dest first : ℕ)
      → first ≡ length pre
      → dest ≡ length pre + suc g
      → move_elements cfg (pre ++ (map some xs ++ (raw (suc g) ++ post))) dest first (length xs)
        ≡ ok (pre ++ (raw (suc g) ++ (map some xs ++ post)))
  unfolding move_elements
  move_elements-right pre g xs post dest first e f = elim (Bool-cases cfg.uses_memmove) [
    | inl t ↦ rw (t, block-right pre g xs post dest first e f)
    | inr t ↦ rw (
      t,
      le→ltb_false dest first (omega arith),
      move_right-eq (length xs) pre g xs post dest first refl e f,
    )
  ]

  -- `move_elements` to the left, over raw slots next to the block, has the same effect with
  -- `memmove` as with the loop: the raw slots stand behind the block. Its positions are those of
  -- the block and of its new place.
  pub move_elements-left :
      (pre : List (Option A)) (g : ℕ) (xs : List A) (post : List (Option A)) (dest first : ℕ)
      → dest ≡ length pre
      → first ≡ length pre + suc g
      → move_elements cfg (pre ++ (raw (suc g) ++ (map some xs ++ post))) dest first (length xs)
        ≡ ok (pre ++ (map some xs ++ (raw (suc g) ++ post)))
  unfolding move_elements
  move_elements-left pre g xs post dest first e f = elim (Bool-cases cfg.uses_memmove) [
    | inl t ↦ rw (t, block-left pre g xs post dest first e f)
    | inr t ↦ rw (t, lt→ltb dest first (omega arith), move_left-eq pre g xs post dest first e f)
  ]
