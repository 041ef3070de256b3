-- ===== src/Darray/Whole/Refines.antt =====
-- include/jau/darray.hpp: copies, moves and swaps of whole arrays do on slots what they promise of lists.
use jaulib.Prelude.{
  ℕ, ◌==◌, ◌≡◌, refl, ap, ◌∙◌, List, [], ◌∷◌, ◌++◌, map, some, none, Option-cases, inl, inr,
  Bool-cases, if◌then◌else◌, length, get_elem?, set,
}
use jaulib.Darray.{Config, Darray, Result, ok, threw, dangling, fault, ◌>>=◌}
use jaulib.Darray.View.{View, held, holding, view}
use jaulib.Darray.Promise
use jaulib.Darray.Assign.{assign_refines}
use jaulib.Darray.Erases.{clear_refines}
use jaulib.Darray.Whole.{
  array, swap, move_assign, move_new, copy_new, copy_assign, Act, act_copy_assign, act_move_assign,
  act_swap, act_copy_new, act_move_new, perform, run,
}
use jaulib.Darray.Whole.Reads.{
  get_elem?-map, set-map, stores-held, cloned, copy_of-held, read_all-held,
}

module _ {ℓ} {A : Type ℓ} where
  unfoldable pub view_of : ℕ → List (View A) → Result (View A)
  view_of i views = elim (get_elem? views i) [ some v ↦ ok v | none ↦ fault ]

  abbrev pub nothing_held : View A
  nothing_held = view [] 0

  abbrev pub all_held : Result (List (View A)) → Result (List (Darray A))
  all_held r = r >>= λ views. ok (map held views)

module _ {ℓ} {A : Type ℓ} (cfg : Config) where
  -- What each act promises of the arrays: a copy leaves the other array as it is, a move leaves it
  -- empty, and an array that is assigned to itself stays.
  unfoldable pub promise_act : Act → List (View A) → Result (List (View A))
  promise_act (act_copy_assign i j) views =
      let copied = (do
        v ← view_of i views
        w ← view_of j views
        v' ← Promise.assign cfg w.items v
        ok (set views i v')) in
      if i == j then ok views else copied
  promise_act (act_move_assign i j) views =
      let moved = (do
        v ← view_of i views
        w ← view_of j views
        ok (set (set views i w) j nothing_held)) in
      if i == j then ok views else moved
  promise_act (act_swap i j) views = do
    v ← view_of i views
    w ← view_of j views
    ok (set (set views i w) j v)
  promise_act (act_copy_new j) views = do
    w ← view_of j views
    v ← cloned cfg (length w.items) w.items
    ok (views ++ (v ∷ []))
  promise_act (act_move_new j) views = do
    w ← view_of j views
    ok (set views j nothing_held ++ (w ∷ []))

  unfoldable pub promise_run : List Act → List (View A) → Result (List (View A))
  promise_run [] views = ok views
  promise_run (act ∷ acts) views = promise_act act views >>= promise_run acts

module _ {ℓ} {A : Type ℓ} where
  -- Finding an array among those that are held.
  array_held :
      (i : ℕ) (views : List (View A)) (v : View A)
      → get_elem? views i ≡ some v
      → array i (map held views) ≡ ok (held v)
  unfolding array
  array_held i views v e = rw (array, get_elem?-map held views i, e)

  array_missing :
      (i : ℕ) (views : List (View A)) → get_elem? views i ≡ none → array i (map held views) ≡ fault
  unfolding array
  array_missing i views e = rw (array, get_elem?-map held views i, e)

  -- Two arrays are found, or there is a fault on both sides.
  with_two :
      (i j : ℕ) (views : List (View A)) (f : Darray A → Darray A → Result (List (Darray A)))
      (g : View A → View A → Result (List (View A)))
      → ((v w : View A) → f (held v) (held w) ≡ all_held (g v w))
      → (array i (map held views) >>= λ d. array j (map held views) >>= λ x. f d x)
        ≡ all_held (view_of i views >>= λ v. view_of j views >>= λ w. g v w)
  unfolding view_of
  with_two i j views f g same = elim (Option-cases (get_elem? views i)) [
    | inl e ↦ rw (array_missing i views e, view_of, e)
    | inr (v, e) ↦ elim (Option-cases (get_elem? views j)) [
      | inl e' ↦ rw (array_held i views v e, view_of, e, array_missing j views e', e')
      | inr (w, e') ↦
          rw (array_held i views v e, view_of, e, array_held j views w e', e') (same v w)
    ]
  ]

  with_one :
      (j : ℕ) (views : List (View A)) (f : Darray A → Result (List (Darray A)))
      (g : View A → Result (List (View A)))
      → ((w : View A) → f (held w) ≡ all_held (g w))
      → (array j (map held views) >>= λ x. f x) ≡ all_held (view_of j views >>= λ w. g w)
  unfolding view_of
  with_one j views f g same = elim (Option-cases (get_elem? views j)) [
    | inl e ↦ rw (array_missing j views e, view_of, e)
    | inr (w, e) ↦ rw (array_held j views w e, view_of, e) (same w)
  ]

  bind_held :
      (r : Result (View A)) (k : Darray A → List (Darray A)) (k' : View A → List (View A))
      → ((v : View A) → k (held v) ≡ map held (k' v))
      → (holding r >>= λ d. ok (k d)) ≡ all_held (r >>= λ v. ok (k' v))
  bind_held (ok v) k k' same = ap ok (same v)
  bind_held (threw e) k k' same = refl
  bind_held (dangling e) k k' same = refl
  bind_held fault k k' same = refl

  bind_all :
      (r : Result (List (View A))) (f : List (Darray A) → Result (List (Darray A)))
      (g : List (View A) → Result (List (View A)))
      → ((views : List (View A)) → f (map held views) ≡ all_held (g views))
      → (all_held r >>= f) ≡ all_held (r >>= g)
  bind_all (ok views) f g same = same views
  bind_all (threw e) f g same = refl
  bind_all (dangling e) f g same = refl
  bind_all fault f g same = refl

  set_two :
      (views : List (View A)) (i j : ℕ) (v w : View A)
      → set (set (map held views) i (held w)) j (held v) ≡ map held (set (set views i w) j v)
  set_two views i j v w =
      ap (λ l. set l j (held v)) (set-map held views i w) ∙ set-map held (set views i w) j v

module _ {ℓ} {A : Type ℓ} (cfg : Config) where
  pub perform_refines :
      (act : Act) (views : List (View A))
      → perform cfg act (map held views) ≡ all_held (promise_act cfg act views)
  unfolding perform promise_act swap move_assign move_new copy_new copy_assign
  perform_refines (act_copy_assign i j) views = elim (Bool-cases (i == j)) [
    | inl t ↦ rw t
    | inr t ↦ rw t (
        with_two i j views _ _ (λ v w.
          rw (read_all-held w, assign_refines cfg w.items v)
            (bind_held (Promise.assign cfg w.items v) _ _ (λ v'. set-map held views i v'))))
  ]
  perform_refines (act_move_assign i j) views = elim (Bool-cases (i == j)) [
    | inl t ↦ rw t
    | inr t ↦ rw t (
        with_two i j views _ _
          (λ v w. rw (clear_refines v) (ap ok (set_two views i j nothing_held w))))
  ]
  perform_refines (act_swap i j) views =
      with_two i j views _ _ (λ v w. ap ok (set_two views i j v w))
  perform_refines (act_copy_new j) views = with_one j views _ _ (λ w.
      rw (copy_of-held cfg w)
        (bind_held (cloned cfg (length w.items) w.items) _ _ (λ v. stores-held views v)))
  perform_refines (act_move_new j) views = with_one j views _ _ (λ w. ap ok (
      ap (λ l. l ++ (held w ∷ [])) (set-map held views j nothing_held)
      ∙ stores-held (set views j nothing_held) w))

  -- Copies, moves and swaps of whole arrays, in any sequence and of an array with itself, do what
  -- they promise of the lists of elements and their room, exceptions included.
  pub run_whole_refines :
      (acts : List Act) (views : List (View A))
      → run cfg acts (map held views) ≡ all_held (promise_run cfg acts views)
  unfolding run promise_run
  run_whole_refines [] views = refl
  run_whole_refines (act ∷ acts) views =
      ap (λ r. r >>= run cfg acts) (perform_refines act views)
      ∙ bind_all (promise_act cfg act views) (run cfg acts) (promise_run cfg acts)
          (run_whole_refines acts)
