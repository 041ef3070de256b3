-- ===== src/CowDarray/Refines.antt =====
-- include/jau/cow_darray.hpp: the operations do on the slots of the stores what they do to the views.
use jaulib.Prelude.{
  ℕ, ◌+◌, ◌-◌, ◌≡◌, ◌≤◌, ◌<◌, refl, ap, ◌∙◌, Bool, true, false, List, [], ◌∷◌, ◌++◌, ltb, ◌==◌,
  length, take, length-take, Bool-cases, inl, inr, ltb→lt, arith, le→ltb_false, ne→==_false,
}
use jaulib.Darray.{Darray, Config, Result, ok, threw, dangling, fault, ◌>>=◌, diff_max}
use jaulib.Darray.View.{View, held, holding, view, volume, grown, widen_if}
use jaulib.Darray.Grow.{storage-length}
use jaulib.Darray.Inserts.{grown_capacity-held}
use jaulib.Darray.Appends
use jaulib.Darray.Unique.{any-hits}
use jaulib.Darray.Ops.{outside, read_source, clone_range_check}
use jaulib.Darray.Promise
use jaulib.CowDarray.{
  Cow, load, capacity_reached, publish, no_throw, push_back, push_back_unique, reserve, pop_back,
}
use jaulib.Darray.Whole.Reads.{cloned, clone_range-cloned, copy_with-held, read_range-held}
use jaulib.CowDarray.Shelf.{Shelf, shown, showing, fetch, load-held, store_at-held, publish-held}
use jaulib.CowDarray.Effects

module _ {ℓ} {A : Type ℓ} where
  pub capacity_reached-held : (v : View A) → capacity_reached (held v) ≡ (v.room == 0)
  unfolding capacity_reached
  capacity_reached-held v = let len = storage-length v in ground (arith, len)

  -- Two continuations that agree on every view.
  pub bind-held {κ μ} :
      {S : Type κ} {T : Type μ} (f : S → T) (r : Result (View A)) (F : Darray A → Result T)
      (G : View A → Result S)
      → ((v : View A) → F (held v) ≡ (G v >>= λ t. ok (f t)))
      → (holding r >>= F) ≡ ((r >>= G) >>= λ t. ok (f t))
  bind-held f (ok v) F G agree = agree v
  bind-held f (threw e) F G agree = refl
  bind-held f (dangling e) F G agree = refl
  bind-held f fault F G agree = refl

  pub fetch-bind {κ μ} :
      {S : Type κ} {T : Type μ} (f : S → T) (s : Shelf A) (F : Darray A → Result T)
      (G : View A → Result S)
      → ((v : View A) → F (held v) ≡ (G v >>= λ t. ok (f t)))
      → (load (shown s).stores s.store_ref >>= F)
        ≡ ((fetch s.views s.store_ref >>= G) >>= λ t. ok (f t))
  fetch-bind f s F G agree =
      ap (λ r. r >>= F) (load-held s.views s.store_ref)
      ∙ bind-held f (fetch s.views s.store_ref) F G agree

module _ {ℓ} {A : Type ℓ} (cfg : Config) where
  pub push_back_roomy :
      (x : A) (v : View A)
      → (v.room == 0) ≡ false
      → Promise.push_back cfg x v ≡ ok (view (v.items ++ (x ∷ [])) (v.room - 1))
  unfolding Promise.push_back widen_if
  push_back_roomy x v h = rw h

  -- New storage for `n` elements, where it is to be had, has room for the rest.
  pub cloned-held {κ μ} :
      {S : Type κ} {T : Type μ} (f : S → T) (n : ℕ) (xs : List A) (F : Darray A → Result T)
      (G : View A → Result S)
      → 0 < n
      → F (held (view xs (n - length xs))) ≡ (G (view xs (n - length xs)) >>= λ t. ok (f t))
      → (holding (cloned cfg n xs) >>= F) ≡ ((cloned cfg n xs >>= G) >>= λ t. ok (f t))
  unfolding cloned
  cloned-held f n xs F G h agree =
      let nonzero = ne→==_false n 0 (λ e. omega arith) in
      elim (Bool-cases (ltb diff_max n)) [
        | inl t ↦ rw (nonzero, t)
        | inr t ↦ elim (Bool-cases (cfg.alloc n)) [
          | inl a ↦ rw (nonzero, t, a) agree
          | inr a ↦ rw (nonzero, t, a)
        ]
      ]

  grown_more : (v : View A) → volume v + 1 ≤ grown cfg v
  unfolding grown
  grown_more v = omega arith

  -- `push_back` of an element from elsewhere: into a larger copy when the store is full, and behind
  -- the elements of the store itself otherwise.
  pub push_back_refines :
      (x : A) (s : Shelf A)
      → push_back cfg (outside x) (shown s) ≡ showing (Effects.push_back cfg x s)
  unfolding push_back Effects.push_back read_source grown
  push_back_refines x s = fetch-bind shown s _ _ λ v.
      let more = grown_more v in
      let n = grown cfg v in
      let room : (n - length v.items == 0) ≡ false = ne→==_false _ 0 (λ e. omega arith) in
      let pushed = Appends.push_back_refines cfg x (view v.items (n - length v.items)) in
      elim (Bool-cases (v.room == 0)) [
        | inl t ↦
            rw
              (
                capacity_reached-held v,
                t,
                grown_capacity-held cfg v,
                copy_with-held cfg n v (omega arith),
              )
              (cloned-held shown n v.items _ _ (omega arith) (
                rw (pushed, push_back_roomy x (view v.items (n - length v.items)) room)
                  (ap ok (publish-held _ s))))
        | inr t ↦
            rw
              (capacity_reached-held v, t, Appends.push_back_refines cfg x v, push_back_roomy x v t)
              (ap (λ l. ok (record { stores = l; store_ref = s.store_ref }))
                (store_at-held s.store_ref _ s.views))
      ]

  unique-showing :
      (r : Result (Shelf A))
      → (showing r >>= λ c. ok (true, c))
        ≡ ◌>>=◌ {S = Bool × Shelf A} {T = Bool × Cow A}
            (r >>= λ s. ok (true, s))
            (λ p. ok (p.0, shown p.1))
  unique-showing (ok s) = refl
  unique-showing (threw e) = refl
  unique-showing (dangling e) = refl
  unique-showing fault = refl

  -- `push_back_unique` pushes exactly an element that none matches.
  pub push_back_unique_refines :
      (matches : A → A → Bool) (x : A) (s : Shelf A)
      → push_back_unique cfg matches x (shown s)
        ≡ (Effects.push_back_unique cfg matches x s >>= λ p. ok (p.0, shown p.1))
  unfolding push_back_unique Effects.push_back_unique
  push_back_unique_refines matches x s = fetch-bind _ s _ _ λ v.
      rw (any-hits cfg matches x (length v.items) 0 v (omega arith))
        (elim (Bool-cases (ltb 0 (Promise.hits matches x v.items))) [
          | inl t ↦ rw t
          | inr t ↦ rw (t, push_back_refines x s) (unique-showing (Effects.push_back cfg x s))
        ])

  replaced-showing :
      (n : ℕ) (xs : List A) (s : Shelf A)
      → (holding (cloned cfg n xs) >>= λ d. ok (publish d (shown s)))
        ≡ showing (Effects.replaced cfg n xs s)
  replaced-showing n xs s = bind-held shown (cloned cfg n xs) _ _ (λ w. ap ok (publish-held w s))

  -- `reserve` makes a larger copy where the capacity is below the one asked for.
  pub reserve_refines :
      (n : ℕ) (s : Shelf A) → reserve cfg n (shown s) ≡ showing (Effects.reserve cfg n s)
  unfolding reserve Effects.reserve
  reserve_refines n s = fetch-bind shown s _ _ λ v. elim (Bool-cases (ltb (volume v) n)) [
    | inl t ↦
        let more = ltb→lt (volume v) n t in
        rw (storage-length v, t, copy_with-held cfg n v (omega arith))
          (replaced-showing n v.items s)
    | inr t ↦ rw (storage-length v, t)
  ]

  pop-no_throw : (r : Result (Shelf A)) → no_throw (showing r) ≡ showing (no_throw r)
  unfolding no_throw
  pop-no_throw (ok s) = refl
  pop-no_throw (threw e) = refl
  pop-no_throw (dangling e) = refl
  pop-no_throw fault = refl

  -- `pop_back` makes a copy without the last element and of the same capacity.
  pub pop_back_refines : (s : Shelf A) → pop_back cfg (shown s) ≡ showing (Effects.pop_back cfg s)
  unfolding pop_back Effects.pop_back clone_range_check
  pop_back_refines s = fetch-bind shown s _ _ λ v.
      let n = length v.items - 1 in
      let len = length-take n v.items in
      elim (Bool-cases (length v.items == 0)) [
        | inl t ↦ rw t
        | inr t ↦
            rw
              (
                t,
                read_range-held n v (omega arith),
                storage-length v,
                le→ltb_false (volume v) (length (take n v.items)) (omega arith),
                clone_range-cloned cfg (volume v) (take n v.items) (omega arith),
                replaced-showing (volume v) (take n v.items) s,
              )
              (pop-no_throw (Effects.replaced cfg (volume v) (take n v.items) s))
      ]
