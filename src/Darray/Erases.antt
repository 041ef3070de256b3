-- ===== src/Darray/Erases.antt =====
-- include/jau/darray.hpp: the operations that remove elements do on slots what they promise of lists.
use jaulib.Prelude.{
  ℕ, suc, ◌+◌, ◌-◌, ◌≡◌, ◌≤◌, ◌<◌, refl, sym, ap, ap₂, ◌∙◌, List, [], ◌∷◌, ◌++◌, map, append_assoc,
  Option, none, some, length, length-append, replicate, replicate-add, length-map, length-drop,
  length-take, take, drop, take-append-drop, drop-drop, drop-at, get_elem?-past, ltb, ◌==◌, ltb→lt,
  ltb_false→le, nil_of_length, Bool-cases, inl, inr, if◌then◌else◌, arith,
}
use mathlib.Core.List.{map-append}
use jaulib.Darray.{Config, ok, raw, dtor_range, move_elements}
use jaulib.Darray.View.{View, held, view}
use jaulib.Darray.Memory.{read-eq, dtor_one-eq, dtor_range-eq}
use jaulib.Darray.Shift.{move_elements-left}
use jaulib.Darray.Inserts.{map_split}
use jaulib.Darray.Ops.{erase, erase_range, pop_back, clear, at}
use jaulib.Darray.Promise

module _ {ℓ} {A : Type ℓ} where
  -- The element at `pos`, and the elements on both sides of it.
  pub storage-at :
      (pos : ℕ) (xs : List A) (room : ℕ) (x : A)
      → drop pos xs ≡ x ∷ drop (pos + 1) xs
      → map some xs ++ raw room
        ≡ map some (take pos xs) ++ (some x ∷ (map some (drop (pos + 1) xs) ++ raw room))
  storage-at pos xs room x e =
      ap (λ l. l ++ raw room) (map_split pos xs ∙ ap (λ l. map some (take pos xs) ++ map some l) e)
      ∙ append_assoc (map some (take pos xs)) (some x ∷ map some (drop (pos + 1) xs)) (raw room)

  -- Three parts: the elements before `first`, those from there to `last`, and the rest.
  range-split :
      (first last : ℕ) (xs : List A) (room : ℕ)
      → first ≤ last
      → map some xs ++ raw room
        ≡ map some (take first xs)
          ++ (map some (take (last - first) (drop first xs))
              ++ (map some (drop last xs) ++ raw room))
  range-split first last xs room h =
      let k = last - first in
      let right = drop first xs in
      let tail : drop k right ≡ drop last xs =
        drop-drop k first xs ∙ ap (λ n. drop n xs) (omega arith) in
      let middle =
        ap (map some) (sym (take-append-drop k right) ∙ ap (λ l. take k right ++ l) tail)
        ∙ map-append some (take k right) (drop last xs) in
      ap (λ l. l ++ raw room) (map_split first xs ∙ ap (λ l. map some (take first xs) ++ l) middle)
      ∙ append_assoc (map some (take first xs)) (map some (take k right) ++ map some (drop last xs))
          (raw room)
      ∙ ap (λ l. map some (take first xs) ++ l)
          (append_assoc (map some (take k right)) (map some (drop last xs)) (raw room))

  pub pop_back_refines : (v : View A) → pop_back (held v) ≡ ok (held (Promise.pop_back v))
  unfolding pop_back Promise.pop_back
  pop_back_refines v = elim (Bool-cases (length v.items == 0)) [
    | inl t ↦ rw t
    | inr t ↦
        let some_left : 0 < length v.items = ground arith in
        let last = length v.items - 1 in
        let (x, e, f) = drop-at last v.items (omega arith) in
        let before : List (Option A) = map some (take last v.items) in
        let len = length-map (take last v.items) some in
        let len₁ = length-take last v.items in
        let len₂ = length-drop (last + 1) v.items in
        let none_after = nil_of_length (drop (last + 1) v.items) (omega arith) in
        let gap = ap (λ i. raw {A = A} i) (let e₂ : suc v.room ≡ v.room + 1 = omega arith in e₂) in
        rw
          (
            t,
            storage-at last v.items v.room x e,
            none_after,
            dtor_one-eq before x (raw v.room) last (omega arith),
          )
          (ap₂ (λ l n. ok (record { storage = before ++ l; size = n })) gap (omega arith))
  ]

  pub clear_refines : (v : View A) → clear (held v) ≡ ok (held (view [] 0))
  unfolding clear
  clear_refines v = rw (dtor_range-eq [] v.items (raw v.room) 0 refl)

  -- `at` gives the element at the index, and throws at and past the size, even where there is
  -- room.
  pub at_refines : (i : ℕ) (v : View A) → at i (held v) ≡ Promise.at i v
  unfolding at Promise.at
  at_refines i v = elim (Bool-cases (ltb i (length v.items))) [
    | inl t ↦
        let (x, e, f) = drop-at i v.items (ltb→lt _ _ t) in
        let len = length-map (take i v.items) some in
        let len₁ = length-take i v.items in
        let inside = ltb→lt _ _ t in
        let promised : Promise.at i v ≡ ok x = rw (f, Promise.at) in
        rw (t, storage-at i v.items v.room x e, promised) (read-eq _ x _ i (omega arith))
    | inr t ↦ rw (t, get_elem?-past i v.items (ltb_false→le _ _ t), Promise.at)
  ]

module _ {ℓ} {A : Type ℓ} (cfg : Config) where
  -- The elements after the gap go to the left, when there are any.
  closed :
      (a b : List A) (g room dest first count : ℕ)
      → dest ≡ length a
      → first ≡ length a + suc g
      → count ≡ length b
      → (if ltb 0 count
          then move_elements cfg
              (map some a ++ (raw (suc g) ++ (map some b ++ raw room)))
              dest
              first
              count
          else ok (map some a ++ (raw (suc g) ++ (map some b ++ raw room))))
        ≡ ok (held (view (a ++ b) (room + suc g))).storage
  closed a b g room dest first count e f c =
      let before : List (Option A) = map some a in
      let len = length-map a some in
      let gap : raw (suc g) ++ raw room ≡ raw {A = A} (room + suc g) =
        replicate-add (suc g) room none ∙ ap (λ i. replicate i none) (omega arith) in
      let finish : before ++ (map some b ++ (raw (suc g) ++ raw room))
          ≡ (held (view (a ++ b) (room + suc g))).storage =
        ap (λ l. before ++ (map some b ++ l)) gap
        ∙ sym (append_assoc before (map some b) (raw (room + suc g)))
        ∙ ap (λ l. l ++ raw (room + suc g)) (sym (map-append some a b)) in
      elim (Bool-cases (ltb 0 count)) [
        | inl t ↦
            rw (t, c)
              (move_elements-left cfg before g b (raw room) dest first (omega arith) (omega arith)
                ∙ ap ok finish)
        | inr t ↦
            let nothing = nil_of_length b (let none_left = ltb_false→le 0 count t in omega arith) in
            rw t (
              ap (λ l. ok (before ++ (raw (suc g) ++ (map some l ++ raw room)))) nothing
              ∙ ap (λ l. ok (before ++ (map some l ++ (raw (suc g) ++ raw room)))) (sym nothing)
              ∙ ap ok finish)
      ]

  pub erase_refines :
      (pos : ℕ) (v : View A) → erase cfg pos (held v) ≡ ok (held (Promise.erase pos v))
  unfolding erase Promise.erase
  erase_refines pos v = elim (Bool-cases (ltb pos (length v.items))) [
    | inl t ↦
        let inside = ltb→lt _ _ t in
        let (x, e, f) = drop-at pos v.items inside in
        let before : List (Option A) = map some (take pos v.items) in
        let after = map some (drop (pos + 1) v.items) ++ raw v.room in
        let len = length-map (take pos v.items) some in
        let len₁ = length-take pos v.items in
        let len₂ = length-drop (pos + 1) v.items in
        let len₃ = length-append (take pos v.items) (drop (pos + 1) v.items) in
        rw
          (
            t,
            storage-at pos v.items v.room x e,
            dtor_one-eq before x after pos (omega arith),
            closed (take pos v.items) (drop (pos + 1) v.items) 0 v.room pos (pos + 1)
                (length v.items - (pos + 1)) (omega arith) (omega arith) (omega arith),
          )
          (ap
            (λ n. ok (record {
              storage =
                  (held (view (take pos v.items ++ drop (pos + 1) v.items) (v.room + 1))).storage;
              size = n;
            }))
            (omega arith))
    | inr t ↦ rw t
  ]

  -- `erase` of a range of positions that are in order and within the array removes just these
  -- elements and leaves their slots as room.
  pub erase_range_refines :
      (first last : ℕ) (v : View A)
      → first ≤ last
      → last ≤ length v.items
      → erase_range cfg first last (held v) ≡ ok (held (Promise.erase_range first last v))
  unfolding erase_range Promise.erase_range dtor_range
  erase_range_refines first last v h k =
      let count = last - first in
      let a = take first v.items in
      let m = take count (drop first v.items) in
      let b = drop last v.items in
      let before : List (Option A) = map some a in
      let after = map some b ++ raw v.room in
      let len = length-map a some in
      let len₁ = length-take first v.items in
      let len₂ = length-drop last v.items in
      let len₃ = length-append a b in
      let len₄ = length-take count (drop first v.items) in
      let len₅ = length-drop first v.items in
      let width : length m ≡ count = omega arith in
      let gone =
        ap (λ n. dtor_range (before ++ (map some m ++ after)) first n) (sym width)
        ∙ dtor_range-eq before m after first (omega arith)
        ∙ ap (λ n. ok (before ++ (raw n ++ after))) width in
      elim (Bool-cases (ltb 0 count)) [
        | inl t ↦
            let some_gap = ltb→lt 0 count t in
            let g = count - 1 in
            let e : count ≡ suc g = omega arith in
            let closing =
              ap
                (λ n.
                  if ltb 0 (length v.items - last)
                  then move_elements cfg (before ++ (raw n ++ after)) first last
                      (length v.items - last)
                  else ok (before ++ (raw n ++ after)))
                e
              ∙ closed a b g v.room first last (length v.items - last) (omega arith) (omega arith)
                  (omega arith)
              ∙ ap (λ n. ok (held (view (a ++ b) (v.room + n))).storage) (sym e) in
            rw (range-split first last v.items v.room h, gone, t, closing)
              (ap
                (λ n.
                  ok (record {
                    storage = (held (view (a ++ b) (v.room + count))).storage;
                    size = n;
                  }))
                (omega arith))
        | inr t ↦
            let nothing : count ≡ 0 = let none_left = ltb_false→le 0 count t in omega arith in
            let same : last ≡ first = omega arith in
            rw (nothing, same, take-append-drop first v.items)
              (ap (λ n. ok (held (view v.items n))) (omega arith))
      ]
