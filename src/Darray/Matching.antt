-- ===== src/Darray/Matching.antt =====
-- include/jau/darray.hpp: `erase_matching` does on slots what it promises of
-- lists.
use jaulib.Prelude.{
  ℕ, zero, suc, ◌+◌, ◌≡◌, ◌≤◌, ◌<◌, refl, sym, ap, ap₂, ◌∙◌, Bool, true, false, List, [], ◌∷◌, ◌++◌,
  append_assoc, append-nil, none, some, length, length-append, length-map, length-take, take, drop,
  take-append_length, drop-append_length, take-length, drop-length, Option-cases, drop-at, take-at,
  ne→==_false, lt→ltb, Bool-cases, inl, inr, if◌then◌else◌, arith,
}
use jaulib.Darray.{Darray, Config, Result, ok, within, read}
use jaulib.Darray.Counting.{within-within}
use jaulib.Darray.View.{View, held, view, volume}
use jaulib.Darray.Memory.{read-eq}
use jaulib.Darray.Grow.{storage-length}
use jaulib.Darray.Erases.{storage-at, erase_refines}
use jaulib.Darray.Ops.{erase_down, erase_matching}
use jaulib.Darray.Promise

module _ {ℓ} {A : Type ℓ} where
  pub read-at :
      (pos : ℕ) (v : View A) (y : A)
      → pos < length v.items
      → drop pos v.items ≡ y ∷ drop (pos + 1) v.items
      → read (held v).storage pos ≡ ok y
  read-at pos v y h e =
      let len = length-map (take pos v.items) some in
      let len₁ = length-take pos v.items in
      ap (λ l. read l pos) (storage-at pos v.items v.room y e) ∙ read-eq _ y _ pos (omega arith)

module _ {ℓ} {A : Type ℓ} (cfg : Config) (matches : A → A → Bool) (x : A) where
  hits-snoc :
      (xs : List A) (y : A)
      → Promise.hits matches x (xs ++ (y ∷ []))
        ≡ (if matches y x then suc (Promise.hits matches x xs) else Promise.hits matches x xs)
  unfolding Promise.hits
  hits-snoc [] y = refl
  hits-snoc (z ∷ xs) y = elim (Bool-cases (matches z x)) [
    | inl t ↦
        rw (t, hits-snoc xs y) (elim (Bool-cases (matches y x)) [ inl u ↦ rw u | inr u ↦ rw u ])
    | inr t ↦ rw t (hits-snoc xs y)
  ]

  kept-append :
      (xs ys : List A)
      → Promise.kept matches x (xs ++ ys) ≡ Promise.kept matches x xs ++ Promise.kept matches x ys
  unfolding Promise.kept
  kept-append [] ys = refl
  kept-append (z ∷ xs) ys = elim (Bool-cases (matches z x)) [
    | inl t ↦ rw t (kept-append xs ys)
    | inr t ↦ rw t (ap (λ l. z ∷ l) (kept-append xs ys))
  ]

  last_match-snoc :
      (xs : List A) (y : A)
      → Promise.last_match matches x (xs ++ (y ∷ []))
        ≡ (if matches y x then some (length xs) else Promise.last_match matches x xs)
  unfolding Promise.last_match
  last_match-snoc [] y = refl
  last_match-snoc (z ∷ xs) y =
      rw (last_match-snoc xs y) (elim (Bool-cases (matches y x)) [ inl u ↦ rw u | inr u ↦ rw u ])

  unfoldable all_result : ℕ → ℕ → List A → List A → Result (ℕ × Darray A)
  all_result count room left right = within (count + Promise.hits matches x left) (
      ok (
        count + Promise.hits matches x left,
        held (view (Promise.kept matches x left ++ right) (room + Promise.hits matches x left)),
      ))

  within_result :
      (count room : ℕ) (left right : List A)
      → within count (all_result count room left right) ≡ all_result count room left right
  unfolding all_result
  within_result count room left right =
      within-within count (count + Promise.hits matches x left) _ (omega arith)

  all_result-hit :
      (count room : ℕ) (left right : List A) (y : A)
      → matches y x ≡ true
      → within count (within (count + 1) (all_result (count + 1) (room + 1) left right))
        ≡ all_result count room (left ++ (y ∷ [])) right
  unfolding all_result Promise.kept
  all_result-hit count room left right y t =
      let last : Promise.kept matches x (y ∷ []) ≡ [] = rw t in
      rw
        (
          hits-snoc left y,
          t,
          kept-append left (y ∷ []),
          last,
          append-nil (Promise.kept matches x left),
        )
        (ap (within count)
            (within-within (count + 1) (count + 1 + Promise.hits matches x left) _ (omega arith))
          ∙ within-within count (count + 1 + Promise.hits matches x left) _ (omega arith)
          ∙ ap₂ (λ c r. within c (ok (c, held (view (Promise.kept matches x left ++ right) r))))
              (omega arith) (omega arith))

  all_result-miss :
      (count room : ℕ) (left right : List A) (y : A)
      → matches y x ≡ false
      → all_result count room left (y ∷ right) ≡ all_result count room (left ++ (y ∷ [])) right
  unfolding all_result Promise.kept
  all_result-miss count room left right y t =
      let last : Promise.kept matches x (y ∷ []) ≡ y ∷ [] = rw t in
      rw (
        hits-snoc left y,
        t,
        kept-append left (y ∷ []),
        last,
        append_assoc (Promise.kept matches x left) (y ∷ []) right,
      )

  erase-inside :
      (pos : ℕ) (v : View A)
      → pos < length v.items
      → Promise.erase pos v ≡ view (take pos v.items ++ drop (pos + 1) v.items) (v.room + 1)
  unfolding Promise.erase
  erase-inside pos v h = rw (lt→ltb pos (length v.items) h)

  -- The loop that erases every match among the first `pos` elements.
  all_down :
      (pos count : ℕ) (v : View A)
      → pos ≤ length v.items
      → within count (erase_down cfg matches x true pos count (held v))
        ≡ all_result count v.room (take pos v.items) (drop pos v.items)
  unfolding erase_down Promise.hits Promise.kept all_result
  all_down zero count v h =
      ap₂ (λ c r. within c (ok (c, held (view v.items r)))) (omega arith) (omega arith)
  all_down (suc pos) count v h =
      let (y, e, f) = drop-at pos v.items (omega arith) in
      let seen = read-at pos v y h e in
      let left = take pos v.items in
      let right = drop (pos + 1) v.items in
      let next = ap (λ n. drop n v.items) (let e₁ : suc pos ≡ pos + 1 = omega arith in e₁) in
      let goal = ap₂ (all_result count v.room) (take-at pos v.items y h f) next in
      let len = length-take pos v.items in
      let here : length left ≡ pos = omega arith in
      let joined = length-append left right in
      let w = view (left ++ right) (v.room + 1) in
      let again =
        all_down pos (count + 1) w (omega arith)
        ∙ ap₂ (all_result (count + 1) (v.room + 1)) (take-append_length left right pos here)
            (drop-append_length left right pos here) in
      let again' : within (count + 1) (erase_down cfg matches x true pos (count + 1) (held w))
          ≡ within (count + 1) (all_result (count + 1) (v.room + 1) left right) =
        again ∙ sym (within_result (count + 1) (v.room + 1) left right) in
      elim (Bool-cases (matches y x)) [
        | inl t ↦
            rw (seen, t, erase_refines cfg pos v, erase-inside pos v h)
              (ap (λ r. within count r) again'
                ∙ all_result-hit count v.room left right y t
                ∙ sym goal)
        | inr t ↦
            rw (seen, t)
              (all_down pos count v (omega arith)
                ∙ ap (all_result count v.room left) e
                ∙ all_result-miss count v.room left right y t
                ∙ sym goal)
      ]

  -- The loop that stops at the first match from the end.
  last_down :
      (pos count : ℕ) (v : View A)
      → pos ≤ length v.items
      → erase_down cfg matches x false pos count (held v)
        ≡ elim (Promise.last_match matches x (take pos v.items)) [
          | some i ↦ within (count + 1) (ok (count + 1, held (Promise.erase i v)))
          | none ↦ ok (count, held v)
        ]
  unfolding erase_down Promise.last_match
  last_down zero count v h = refl
  last_down (suc pos) count v h =
      let (y, e, f) = drop-at pos v.items (omega arith) in
      let seen = read-at pos v y h e in
      let len = length-take pos v.items in
      let here : length (take pos v.items) ≡ pos = omega arith in
      elim (Bool-cases (matches y x)) [
        | inl t ↦ rw (
          seen,
          t,
          erase_refines cfg pos v,
          take-at pos v.items y h f,
          last_match-snoc (take pos v.items) y,
          t,
          here,
        )
        | inr t ↦
            rw (seen, t, take-at pos v.items y h f, last_match-snoc (take pos v.items) y, t)
              (last_down pos count v (omega arith))
      ]

  -- `erase_matching` on an array with storage removes every match, or the last one only, and
  -- returns how many it removed.
  pub erase_matching_refines :
      (all_matching : Bool) (v : View A)
      → 0 < volume v
      → erase_matching cfg matches x all_matching (held v)
        ≡ within (Promise.erase_matching matches x all_matching v).0 (
            ok (
              (Promise.erase_matching matches x all_matching v).0,
              held (Promise.erase_matching matches x all_matching v).1,
            ))
  unfolding erase_matching Promise.erase_matching all_result
  erase_matching_refines true v h =
      let whole : all_result 0 v.room (take (length v.items) v.items)
            (drop (length v.items) v.items)
          ≡ all_result 0 v.room v.items [] =
        ap₂ (all_result 0 v.room) (take-length (length v.items) v.items refl)
          (drop-length v.items) in
      rw (storage-length v, ne→==_false (volume v) 0 (λ e. omega arith))
        (all_down (length v.items) 0 v (omega arith)
          ∙ whole
          ∙ ap₂ (λ l c. within c (ok (c, held (view l (v.room + Promise.hits matches x v.items)))))
              (append-nil (Promise.kept matches x v.items)) (omega arith))
  erase_matching_refines false v h =
      rw
        (
          storage-length v,
          ne→==_false (volume v) 0 (λ e. omega arith),
          last_down (length v.items) 0 v (omega arith),
          take-length (length v.items) v.items refl,
        )
        (elim (Option-cases (Promise.last_match matches x v.items)) [
          | inl e ↦
              let promised : Promise.erase_matching matches x false v ≡ (0, v) =
                rw (e, Promise.erase_matching) in
              rw (e, promised)
          | inr (i, e) ↦
              let promised : Promise.erase_matching matches x false v ≡ (1, Promise.erase i v) =
                rw (e, Promise.erase_matching) in
              rw (e, promised)
        ])
