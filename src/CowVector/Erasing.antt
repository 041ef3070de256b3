-- ===== src/CowVector/Erasing.antt =====
-- include/jau/cow_vector.hpp: the loop of `erase_matching`, against the list of elements that are to
-- stay.
use jaulib.Prelude.{
  ℕ, zero, suc, ◌+◌, ◌^◌, ◌≡◌, ◌≤◌, ◌<◌, refl, sym, ap, ap₂, ◌∙◌, Bool, true, false, List, [], ◌∷◌,
  ◌++◌, ltb, if◌then◌else◌, length, take, drop, append_assoc, append-nil, take-append_length,
  drop-append_length, take_whole, nil_of_length, drop-at, take-at, get_elem?-past, ltb→lt,
  ltb_false→le, length-take, length-drop, length-append, Bool-cases, inl, inr, arith,
}
use jaulib.Darray.{Result, ok, within}
use jaulib.Darray.Counting.{within-within}
use jaulib.CowVector.{Vector, VectorConfig, vector, vector_erase, erase_loop}

module _ {ℓ} {A : Type ℓ} (matches : A → A → Bool) (x : A) (all_matching : Bool) where
  -- The elements that stay when all matches go, or the first one.
  unfoldable pub removed : List A → List A
  removed [] = []
  removed (y ∷ ys) =
      let rest = removed ys in if matches y x then (if all_matching then rest else ys) else y ∷ rest

  -- The number of those that go.
  unfoldable pub gone : List A → ℕ
  gone [] = 0
  gone (y ∷ ys) =
      let rest = gone ys in if matches y x then (if all_matching then suc rest else 1) else rest

  some_gone : (y : A) (ys : List A) → matches y x ≡ true → ¬ (gone (y ∷ ys) ≡ 0)
  unfolding gone
  some_gone y ys t h =
      let e : gone (y ∷ ys) ≡ (if all_matching then suc (gone ys) else 1) = rw t in
      let chosen = λ (b : Bool). if b then suc (gone ys) else 1 in
      elim (Bool-cases all_matching) [
        | inl a ↦ absurd (let z : suc (gone ys) ≡ 0 = sym (e ∙ ap chosen a) ∙ h in omega arith)
        | inr a ↦ absurd (let z : 1 ≡ 0 = sym (e ∙ ap chosen a) ∙ h in omega arith)
      ]

  pub removed-same : (xs : List A) → gone xs ≡ 0 → removed xs ≡ xs
  unfolding removed gone
  removed-same [] h = refl
  removed-same (y ∷ ys) h = elim (Bool-cases (matches y x)) [
    | inl t ↦ absurd (some_gone y ys t h)
    | inr t ↦
        let none_gone : gone ys ≡ 0 = sym (let e : gone (y ∷ ys) ≡ gone ys = rw t in e) ∙ h in
        rw t (ap (λ l. y ∷ l) (removed-same ys none_gone))
  ]

module _ {ℓ} {A : Type ℓ} (cfg : VectorConfig) (matches : A → A → Bool) (x : A) where
  -- What the loop leaves, where an `int` can count those that go.
  unfoldable pub swept : Bool → ℕ → List A → List A → ℕ → Result (ℕ × Vector A)
  swept all_matching count left right n = within (count + gone matches x all_matching right) (
      ok (
        count + gone matches x all_matching right,
        vector (left ++ removed matches x all_matching right) n,
      ))

  within-swept :
      (all_matching : Bool) (count n : ℕ) (left right : List A)
      → within count (swept all_matching count left right n) ≡ swept all_matching count left right n
  unfolding swept
  within-swept all_matching count n left right =
      within-within count (count + gone matches x all_matching right) _ (omega arith)

  swept-end :
      (all_matching : Bool) (count n : ℕ) (xs : List A)
      → within count (ok (count, vector xs n)) ≡ swept all_matching count xs [] n
  unfolding swept removed gone
  swept-end all_matching count n xs =
      rw (append-nil xs) (ap (λ c. within c (ok (c, vector xs n))) (omega arith))

  swept-hit :
      (all_matching : Bool) (count n : ℕ) (left right : List A) (y : A)
      → matches y x ≡ true
      → within count (
          within (count + 1) (
            if all_matching
            then swept all_matching (count + 1) left right n
            else ok (count + 1, vector (left ++ right) n)))
        ≡ swept all_matching count left (y ∷ right) n
  unfolding swept removed gone
  swept-hit true count n left right y t = rw t (
      ap (within count) (within-swept true (count + 1) n left right)
      ∙ within-within count (count + 1 + gone matches x true right) _ (omega arith)
      ∙ ap (λ c. within c (ok (c, vector (left ++ removed matches x true right) n))) (omega arith))
  swept-hit false count n left right y t = rw t (within-within count (count + 1) _ (omega arith))

  swept-miss :
      (all_matching : Bool) (count n : ℕ) (left right : List A) (y : A)
      → matches y x ≡ false
      → swept all_matching count (left ++ (y ∷ [])) right n
        ≡ swept all_matching count left (y ∷ right) n
  unfolding swept removed gone
  swept-miss all_matching count n left right y t =
      rw (t, append_assoc left (y ∷ []) (removed matches x all_matching right))

  counted_more :
      (b : Bool) (n : ℕ) (r r' q : Result (ℕ × Vector A))
      → within n r ≡ within n r'
      → within n (if b then r else q) ≡ within n (if b then r' else q)
  counted_more true n r r' q e = e
  counted_more false n r r' q e = refl

  within-erase_loop :
      (all_matching : Bool) (fuel i count : ℕ) (v : Vector A)
      → i ≤ length v.items
      → length v.items < i + fuel
      → within count (erase_loop cfg matches x all_matching fuel i count v)
        ≡ swept all_matching count (take i v.items) (drop i v.items) v.capacity
  unfolding erase_loop vector_erase
  within-erase_loop all_matching zero i count v h k = absurd (omega arith)
  within-erase_loop all_matching (suc fuel) i count v h k =
      elim (Bool-cases (ltb i (length v.items))) [
        | inl t ↦
            let inside = ltb→lt _ _ t in
            let (y, e, f) = drop-at i v.items inside in
            let left = take i v.items in
            let right = drop (i + 1) v.items in
            let n = v.capacity in
            let len = length-take i v.items in
            let len₁ = length-drop (i + 1) v.items in
            let joined = length-append left right in
            let here : length left ≡ i = omega arith in
            let goal = ap (λ l. swept all_matching count left l n) (sym e) in
            let next : i + 1 ≡ suc i = omega arith in
            let again =
              within-erase_loop all_matching fuel i (count + 1) (vector (left ++ right) n)
                (omega arith) (omega arith)
              ∙ ap₂ (λ a b. swept all_matching (count + 1) a b n)
                  (take-append_length left right i here) (drop-append_length left right i here) in
            let again' = again ∙ sym (within-swept all_matching (count + 1) n left right) in
            let later =
              within-erase_loop all_matching fuel (i + 1) count v (omega arith) (omega arith)
              ∙ ap (λ l. swept all_matching count l right n)
                  (ap (λ m. take m v.items) next ∙ take-at i v.items y inside f) in
            elim (Bool-cases (matches y x)) [
              | inl u ↦
                  rw (erase_loop, f, u)
                    (ap (within count) (
                        counted_more all_matching (count + 1) _ _
                          (ok (count + 1, vector (left ++ right) n)) again')
                      ∙ swept-hit all_matching count n left right y u
                      ∙ goal)
              | inr u ↦
                  rw (erase_loop, f, u)
                    (later ∙ swept-miss all_matching count n left right y u ∙ goal)
            ]
        | inr t ↦
            let outside = ltb_false→le _ _ t in
            let len = length-drop i v.items in
            let past = nil_of_length (drop i v.items) (omega arith) in
            rw (erase_loop, get_elem?-past i v.items outside, past, take_whole i v.items outside)
              (swept-end all_matching count v.capacity v.items)
      ]

  -- The loop of `erase_matching` from a position within the vector comes to an end, whatever fuel
  -- above the number of elements from there on it is given, with the matches from there on gone,
  -- or the first one only, and their number added to the count, if the count was below 2^31 and
  -- its sum is, too; with a greater sum the behaviour is undefined.
  pub erase_loop-swept :
      (all_matching : Bool) (fuel i count : ℕ) (v : Vector A)
      → count < 2 ^ 31
      → i ≤ length v.items
      → length v.items < i + fuel
      → erase_loop cfg matches x all_matching fuel i count v
        ≡ swept all_matching count (take i v.items) (drop i v.items) v.capacity
  erase_loop-swept all_matching fuel i count v small h k =
      let counted : ltb count (2 ^ 31) ≡ true = ground arith in
      let opened : erase_loop cfg matches x all_matching fuel i count v
          ≡ within count (erase_loop cfg matches x all_matching fuel i count v) =
        rw counted in
      opened ∙ within-erase_loop all_matching fuel i count v h k
