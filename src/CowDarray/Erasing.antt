-- ===== src/CowDarray/Erasing.antt =====
-- include/jau/cow_darray.hpp: `erase_matching` erases in a copy, from the first element on, and
-- replaces the store only if it erased something.
use jaulib.Prelude.{
  ℕ, zero, suc, ◌+◌, ◌^◌, ◌≡◌, ◌≤◌, ◌<◌, refl, sym, ap, ap₂, ◌∙◌, Bool, true, false, List, [], ◌∷◌,
  ◌++◌, Option, some, none, ltb, ◌==◌, if◌then◌else◌, length, take, drop, append_assoc, append-nil,
  take-append_length, drop-append_length, take-length, drop-length, drop-at, take-at, lt→ltb,
  Bool-cases, Option-cases, inl, inr, length-append, length-take, length-drop, arith, ==_iff,
}
use jaulib.Darray.{Config, Result, ok, threw, dangling, fault, within, ◌>>=◌}
use jaulib.Darray.Counting.{within-within}
use jaulib.Darray.View.{View, view}
use jaulib.Darray.Matching.{read-at}
use jaulib.Darray.Erases.{erase_refines}
use jaulib.Darray.Promise
use jaulib.CowDarray.{set_store}
use jaulib.Darray.Whole.Reads.{cloned}
use jaulib.CowDarray.Shelf.{Shelf, shown, fetch, shelved}
use jaulib.CowDarray.Sessions.{working, storage-working, edited-working, begin-working}
use jaulib.CowDarray.Iterators.{
  RwIterator, write_back, erase, erase_loop, erase_in, erase_matching, is_end, read_rw, advance,
}

module _ {ℓ} {A : Type ℓ} (cfg : Config) (matches : A → A → Bool) (x : A) where
  hits : List A → ℕ
  hits = Promise.hits matches x

  kept : List A → List A
  kept = Promise.kept matches x

  is_end-working :
      (s : Shelf A) (v : View A) (pos : ℕ) → is_end (working s v pos) ≡ ok (pos == length v.items)
  unfolding is_end
  is_end-working s v pos = rw (storage-working s v pos)

  read_rw-working :
      (s : Shelf A) (v : View A) (pos : ℕ) (y : A)
      → pos < length v.items
      → drop pos v.items ≡ y ∷ drop (pos + 1) v.items
      → read_rw (working s v pos) ≡ ok y
  unfolding read_rw
  read_rw-working s v pos y h e = rw (storage-working s v pos) (read-at pos v y h e)

  abbrev pub erased : ℕ → View A → View A
  erased pos v = view (take pos v.items ++ drop (pos + 1) v.items) (v.room + 1)

  erase-working :
      (s : Shelf A) (v : View A) (pos : ℕ)
      → pos < length v.items
      → erase cfg (working s v pos) ≡ ok (working s (erased pos v) pos)
  unfolding erase Promise.erase
  erase-working s v pos h =
      let len = length-take pos v.items in
      let len₁ = length-append (take pos v.items) (drop (pos + 1) v.items) in
      rw (storage-working s v pos, erase_refines cfg pos v, lt→ltb pos (length v.items) h)
        (ap ok
          (edited-working s v (erased pos v) pos _ ∙ ap (working s (erased pos v)) (omega arith)))

  -- What the loop leaves when it erases every match.
  unfoldable all_result : Shelf A → ℕ → ℕ → List A → List A → Result (ℕ × RwIterator A)
  all_result s count room left right = within (count + Promise.hits matches x right) (
      ok (
        count + Promise.hits matches x right,
        working s
            (view (left ++ Promise.kept matches x right) (room + Promise.hits matches x right))
            (length (left ++ Promise.kept matches x right)),
      ))

  within_result :
      (s : Shelf A) (count room : ℕ) (left right : List A)
      → within count (all_result s count room left right) ≡ all_result s count room left right
  unfolding all_result
  within_result s count room left right =
      within-within count (count + Promise.hits matches x right) _ (omega arith)

  all_result-hit :
      (s : Shelf A) (count room : ℕ) (left right : List A) (y : A)
      → matches y x ≡ true
      → within count (within (count + 1) (all_result s (count + 1) (room + 1) left right))
        ≡ all_result s count room left (y ∷ right)
  unfolding all_result Promise.hits Promise.kept
  all_result-hit s count room left right y t = rw t (
      ap (within count)
        (within-within (count + 1) (count + 1 + Promise.hits matches x right) _ (omega arith))
      ∙ within-within count (count + 1 + Promise.hits matches x right) _ (omega arith)
      ∙ ap₂
          (λ c r. within c (
            ok (
              c,
              working s (view (left ++ Promise.kept matches x right) r)
                  (length (left ++ Promise.kept matches x right)),
            )))
          (omega arith) (omega arith))

  all_result-miss :
      (s : Shelf A) (count room : ℕ) (left right : List A) (y : A)
      → matches y x ≡ false
      → all_result s count room (left ++ (y ∷ [])) right ≡ all_result s count room left (y ∷ right)
  unfolding all_result Promise.hits Promise.kept
  all_result-miss s count room left right y t =
      rw (t, append_assoc left (y ∷ []) (Promise.kept matches x right))

  all_result-end :
      (s : Shelf A) (count pos : ℕ) (v : View A)
      → (pos == length v.items) ≡ true
      → within count (ok (count, working s v pos))
        ≡ all_result s count v.room (take pos v.items) (drop pos v.items)
  unfolding all_result Promise.hits Promise.kept
  all_result-end s count pos v t =
      let here : pos ≡ length v.items = (==_iff _ _).0 t in
      let goal =
        ap₂ (all_result s count v.room) (take-length pos v.items (sym here))
          (ap (λ n. drop n v.items) here ∙ drop-length v.items) in
      let whole : within count (ok (count, working s v pos))
          ≡ all_result s count v.room v.items [] =
        rw (append-nil v.items, here)
          (ap₂ (λ c r. within c (ok (c, working s (view v.items r) (length v.items)))) (omega arith)
            (omega arith)) in
      whole ∙ sym goal

  -- The loop that erases every match.
  all_loop :
      (fuel count : ℕ) (s : Shelf A) (v : View A) (pos : ℕ)
      → pos ≤ length v.items
      → length v.items < pos + fuel
      → within count (erase_loop cfg matches x true fuel count (working s v pos))
        ≡ all_result s count v.room (take pos v.items) (drop pos v.items)
  unfolding erase_loop advance
  all_loop zero count s v pos h k = absurd (omega arith)
  all_loop (suc fuel) count s v pos h k = elim (Bool-cases (pos == length v.items)) [
    | inl t ↦ rw (is_end-working s v pos, t) (all_result-end s count pos v t)
    | inr t ↦
        let inside : pos < length v.items = ground arith in
        let (y, e, f) = drop-at pos v.items inside in
        let left = take pos v.items in
        let right = drop (pos + 1) v.items in
        let len = length-take pos v.items in
        let len₁ = length-drop (pos + 1) v.items in
        let joined = length-append left right in
        let here : length left ≡ pos = omega arith in
        let goal = ap (all_result s count v.room left) (sym e) in
        let next : suc pos ≡ pos + 1 = omega arith in
        let again =
          all_loop fuel (count + 1) s (erased pos v) pos (omega arith) (omega arith)
          ∙ ap₂ (all_result s (count + 1) (v.room + 1)) (take-append_length left right pos here)
              (drop-append_length left right pos here) in
        let again' = again ∙ sym (within_result s (count + 1) (v.room + 1) left right) in
        let later =
          all_loop fuel count s v (pos + 1) (omega arith) (omega arith)
          ∙ ap (λ l. all_result s count v.room l right)
              (ap (λ n. take n v.items) (sym next) ∙ take-at pos v.items y inside f) in
        rw (is_end-working s v pos, t, read_rw-working s v pos y inside e)
          (elim (Bool-cases (matches y x)) [
            | inl u ↦
                rw (u, erase-working s v pos inside)
                  (ap (within count) again' ∙ all_result-hit s count v.room left right y u ∙ goal)
            | inr u ↦ rw u (later ∙ all_result-miss s count v.room left right y u ∙ goal)
          ])
  ]

  -- The position of the first match.
  unfoldable pub first_match : List A → Option ℕ
  first_match [] = none
  first_match (y ∷ ys) =
      if matches y x then some 0 else elim (first_match ys) [ some i ↦ some (suc i) | none ↦ none ]

  -- What the loop leaves when it stops at the first match.
  unfoldable one_result : Shelf A → ℕ → View A → Option ℕ → ℕ → Result (ℕ × RwIterator A)
  one_result s count v (some i) pos =
      within (count + 1) (ok (count + 1, working s (erased (pos + i) v) (pos + i)))
  one_result s count v none pos = ok (count, working s v (length v.items))

  one_result-next :
      (s : Shelf A) (count : ℕ) (v : View A) (o : Option ℕ) (pos : ℕ)
      → one_result s count v o (pos + 1)
        ≡ one_result s count v (elim o [ some i ↦ some (suc i) | none ↦ none ]) pos
  unfolding one_result
  one_result-next s count v (some i) pos =
      let e : pos + 1 + i ≡ pos + suc i = omega arith in
      ap (λ n. within (count + 1) (ok (count + 1, working s (erased n v) n))) e
  one_result-next s count v none pos = refl

  one_loop :
      (fuel count : ℕ) (s : Shelf A) (v : View A) (pos : ℕ)
      → pos ≤ length v.items
      → length v.items < pos + fuel
      → erase_loop cfg matches x false fuel count (working s v pos)
        ≡ one_result s count v (first_match (drop pos v.items)) pos
  unfolding erase_loop advance first_match one_result
  one_loop zero count s v pos h k = absurd (omega arith)
  one_loop (suc fuel) count s v pos h k = elim (Bool-cases (pos == length v.items)) [
    | inl t ↦
        let here : pos ≡ length v.items = (==_iff _ _).0 t in
        let gone : drop pos v.items ≡ [] = ap (λ n. drop n v.items) here ∙ drop-length v.items in
        rw (is_end-working s v pos, t, gone) (ap (λ n. ok (count, working s v n)) here)
    | inr t ↦
        let inside : pos < length v.items = ground arith in
        let (y, e, f) = drop-at pos v.items inside in
        let later = one_loop fuel count s v (pos + 1) (omega arith) (omega arith) in
        rw (is_end-working s v pos, t, read_rw-working s v pos y inside e, e)
          (elim (Bool-cases (matches y x)) [
            | inl u ↦
                let e : pos ≡ pos + 0 = omega arith in
                rw (u, erase-working s v pos inside)
                  (ap (λ n. within (count + 1) (ok (count + 1, working s (erased n v) n))) e)
            | inr u ↦
                rw u (later ∙ one_result-next s count v (first_match (drop (pos + 1) v.items)) pos)
          ])
  ]

  -- The number of elements that went, and the views of the stores: the copy is published if
  -- something went, and thrown away otherwise. More than an `int` can count is undefined.
  unfoldable pub promise_erased : Bool → Shelf A → View A → Result (ℕ × Shelf A)
  promise_erased true s w =
      let count = Promise.hits matches x w.items in
      let rest = view (Promise.kept matches x w.items) (w.room + count) in
      within count (
        ok (
          count,
          if ltb 0 count then shelved s.views rest else record s { views = s.views ++ (rest ∷ []) },
        ))
  promise_erased false s w = elim (first_match w.items) [
    | some i ↦ ok (1, shelved s.views (erased i w))
    | none ↦ ok (0, record s { views = s.views ++ (w ∷ []) })
  ]

  unfoldable pub promise_erase : Bool → Shelf A → Result (ℕ × Shelf A)
  promise_erase all_matching s = fetch s.views s.store_ref >>= λ v.
      cloned cfg (length v.items) v.items >>= λ w. promise_erased all_matching s w

  erase_in-working :
      (all_matching : Bool) (s : Shelf A) (w : View A)
      → erase_in cfg matches x all_matching (working s w 0)
        ≡ (promise_erased all_matching s w >>= λ p. ok (p.0, shown p.1))
  unfolding all_result erase_in one_result write_back set_store promise_erased
  erase_in-working true s w =
      let e : 0 + Promise.hits matches x w.items ≡ Promise.hits matches x w.items = omega arith in
      rw
        (
          storage-working s w 0,
          all_loop (length w.items + 1) 0 s w 0 (omega arith) (omega arith),
          e,
        )
        (elim (Bool-cases (ltb (Promise.hits matches x w.items) (2 ^ 31))) [
          | inl u ↦ rw u (elim (Bool-cases (ltb 0 (Promise.hits matches x w.items))) [
            | inl t ↦ rw t
            | inr t ↦ rw t
          ])
          | inr u ↦ rw u
        ])
  erase_in-working false s w =
      rw (storage-working s w 0, one_loop (length w.items + 1) 0 s w 0 (omega arith) (omega arith))
        (elim (Option-cases (first_match w.items)) [
          | inl e ↦ rw (e, promise_erased)
          | inr (i, e) ↦
              let same : 0 + i ≡ i = omega arith in
              rw (e, promise_erased) (ap (λ n. ok (1, shown (shelved s.views (erased n w)))) same)
        ])

  erase_from :
      (all_matching : Bool) (s : Shelf A) (r : Result (View A))
      → ((r >>= λ w. ok (working s w 0)) >>= λ it. erase_in cfg matches x all_matching it)
        ≡ ◌>>=◌ {S = ℕ × Shelf A}
            (r >>= λ w. promise_erased all_matching s w)
            (λ p. ok (p.0, shown p.1))
  erase_from all_matching s (ok w) = erase_in-working all_matching s w
  erase_from all_matching s (threw e) = refl
  erase_from all_matching s (dangling e) = refl
  erase_from all_matching s fault = refl

  -- `erase_matching` of a container that has a store erases every match, or the first one only,
  -- in a copy that replaces the store if it erased something, and says how many it erased, if an
  -- `int` of 32 bits can count them; with more the behaviour is undefined.
  pub erase_matching_refines :
      (all_matching : Bool) (s : Shelf A) (v : View A)
      → fetch s.views s.store_ref ≡ ok v
      → erase_matching cfg matches x all_matching (shown s)
        ≡ (promise_erase all_matching s >>= λ p. ok (p.0, shown p.1))
  unfolding erase_matching promise_erase
  erase_matching_refines all_matching s v h =
      rw (begin-working cfg s v h, h) (erase_from all_matching s (cloned cfg _ v.items))
