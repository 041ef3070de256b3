-- ===== src/CowVector/Run.antt =====
-- include/jau/cow_vector.hpp: a sequence of calls of a container does to its elements what it promises of
-- one vector, and changes no store that was there.
use jaulib.Prelude.{
  ℕ, ◌+◌, ◌-◌, ◌^◌, ◌≡◌, refl, Bool, true, false, List, [], ◌∷◌, ◌++◌, ltb, if◌then◌else◌, length,
  take, max, length-append, nil_of_length, Bool-cases, inl, inr, arith, ltb→lt,
}
use jaulib.Darray.{Result, ok, threw, dangling, fault, within, ◌>>=◌}
use jaulib.Darray.Run.{resume}
use jaulib.CowDarray.{no_throw}
use jaulib.CowVector.{
  Vector, VectorConfig, CowVector, vector, load, publish, copy_of, vector_push_back,
  vector_pop_back, vector_reserve, clear, reserve, pop_back, push_back, push_back_unique, included,
  erase_loop, erase_matching,
}
use jaulib.CowVector.Erasing.{removed, gone, erase_loop-swept, swept}
use jaulib.CowVector.Isolation.{
  obtained, allocate-obtained, allocate-obtained_one, obtained-cases, Agrees, same-Agrees,
  publish-Agrees, rebind, no_throw-Agrees, Agrees-after,
}

-- The calls that change a container.
pub data Call {ℓ} (A : Type ℓ) : Type ℓ where
  call_push_back : A → Call A
  call_push_back_unique : A → Call A
  call_reserve : ℕ → Call A
  call_pop_back : Call A
  call_clear : Call A
  call_erase_matching : A → Bool → Call A

module _ {ℓ} {A : Type ℓ} (cfg : VectorConfig) (matches : A → A → Bool) where
  unfoldable pub perform : Call A → CowVector A → Result (CowVector A)
  perform (call_push_back x) c = push_back cfg x c
  perform (call_push_back_unique x) c = push_back_unique cfg matches x c >>= λ p. ok p.1
  perform (call_reserve n) c = reserve cfg n c
  perform call_pop_back c = pop_back cfg c
  perform call_clear c = ok (clear c)
  perform (call_erase_matching x all_matching) c =
      erase_matching cfg matches x all_matching c >>= λ p. ok p.1

  -- A copy that fits the elements, and one that has grown by one.
  unfoldable pub pushed : A → Vector A → Result (Vector A)
  pushed x v =
      let more = max (length v.items + 1) (cfg.grown (length v.items)) in
      obtained cfg (length v.items ∷ more ∷ []) (vector (v.items ++ (x ∷ [])) more)

  -- What a call makes of the container's vector, with the memory that it asks for.
  unfoldable pub promised : Call A → Vector A → Result (Vector A)
  promised (call_push_back x) v = pushed x v
  promised (call_push_back_unique x) v = if included cfg matches x v.items then ok v else pushed x v
  promised (call_reserve n) v =
      let len = length v.items in
      let copied =
        if ltb len n
        then obtained cfg (len ∷ n ∷ []) (vector v.items n)
        else obtained cfg (len ∷ []) (vector v.items len) in
      if ltb v.capacity n then copied else ok v
  promised call_pop_back v =
      let len = length v.items in
      if ltb 0 len
      then no_throw (obtained cfg (len ∷ []) (vector (take (len - 1) v.items) len))
      else ok v
  promised call_clear v = ok (vector [] 0)
  promised (call_erase_matching x all_matching) v =
      let count = gone matches x all_matching v.items in
      obtained cfg (length v.items ∷ []) (vector v.items (length v.items)) >>= λ w.
      within count
        (ok (if ltb 0 count then vector (removed matches x all_matching w.items) w.capacity else v))

  copied_then :
      (v : Vector A) (sizes : List ℕ) (w : Vector A) (F : Vector A → Result (Vector A))
      → F (vector v.items (length v.items)) ≡ obtained cfg sizes w
      → (copy_of cfg v >>= F) ≡ obtained cfg (length v.items ∷ sizes) w
  unfolding copy_of
  copied_then v sizes w F next =
      allocate-obtained cfg (length v.items) v.items sizes w F (nil_of_length v.items) next

  second-Agrees {κ} :
      {S : Type κ} (s : S) (c : CowVector A) (r : Result (CowVector A)) (q : Result (Vector A))
      → Agrees c r q
      → Agrees c (◌>>=◌ {S = S × CowVector A} (r >>= λ d. ok (s, d)) (λ p. ok p.1)) q
  unfolding Agrees
  second-Agrees s c (ok d) q h = h
  second-Agrees s c (threw e) q h = h
  second-Agrees s c (dangling e) q h = h
  second-Agrees s c fault q h = h

  push_back-Agrees :
      (x : A) (c : CowVector A) (v : Vector A)
      → load c.stores c.store_ref ≡ ok v
      → Agrees c (push_back cfg x c) (pushed x v)
  unfolding push_back pushed vector_push_back
  push_back-Agrees x c v h =
      let len = length-append v.items (x ∷ []) in
      let full : ltb (length v.items) (length v.items) ≡ false = ground arith in
      let more = max (length v.items + 1) (cfg.grown (length v.items)) in
      let grown : vector_push_back cfg x (vector v.items (length v.items))
          ≡ obtained cfg (more ∷ []) (vector (v.items ++ (x ∷ [])) more) =
        rw (full, len)
          (allocate-obtained_one cfg more (v.items ++ (x ∷ [])) (λ z. absurd (omega arith))) in
      rw (h, rebind c (copy_of cfg v) (vector_push_back cfg x))
        (publish-Agrees c _ _ (copied_then v (more ∷ []) _ (vector_push_back cfg x) grown))

  unique-Agrees :
      (x : A) (c : CowVector A) (v : Vector A)
      → load c.stores c.store_ref ≡ ok v
      → Agrees c (perform (call_push_back_unique x) c) (promised (call_push_back_unique x) v)
  unfolding perform promised push_back_unique
  unique-Agrees x c v h = elim (Bool-cases (included cfg matches x v.items)) [
    | inl t ↦ rw (h, t) (same-Agrees c v h)
    | inr t ↦ rw (h, t) (second-Agrees true c (push_back cfg x c) _ (push_back-Agrees x c v h))
  ]

  reserve-Agrees :
      (n : ℕ) (c : CowVector A) (v : Vector A)
      → load c.stores c.store_ref ≡ ok v
      → Agrees c (reserve cfg n c) (promised (call_reserve n) v)
  unfolding reserve promised vector_reserve obtained
  reserve-Agrees n c v h = elim (Bool-cases (ltb v.capacity n)) [
    | inl t ↦
        rw (h, t, rebind c (copy_of cfg v) (vector_reserve cfg n))
          (publish-Agrees c _ _ (elim (Bool-cases (ltb (length v.items) n)) [
            | inl u ↦ rw u (
                copied_then v (n ∷ []) (vector v.items n) (vector_reserve cfg n) (
                  rw u (
                    allocate-obtained_one cfg n v.items
                      (λ z. absurd (let less = ltb→lt (length v.items) n u in omega arith)))))
            | inr u ↦ rw u (
                copied_then v [] (vector v.items (length v.items)) (vector_reserve cfg n)
                  (rw u refl))
          ]))
    | inr t ↦ rw (h, t) (same-Agrees c v h)
  ]

  pop_back-Agrees :
      (c : CowVector A) (v : Vector A)
      → load c.stores c.store_ref ≡ ok v
      → Agrees c (pop_back cfg c) (promised call_pop_back v)
  unfolding pop_back promised vector_pop_back obtained
  pop_back-Agrees c v h = elim (Bool-cases (ltb 0 (length v.items))) [
    | inl t ↦
        let popped : (copy_of cfg v >>= λ w. ok (publish (vector_pop_back cfg w) c))
            ≡ ((copy_of cfg v >>= λ w. ok (vector_pop_back cfg w)) >>= λ u. ok (publish u c)) =
          rebind c (copy_of cfg v) (λ w. ok (vector_pop_back cfg w)) in
        rw (h, t, popped)
          (no_throw-Agrees c _ _
            (publish-Agrees c _ _ (copied_then v [] _ (λ w. ok (vector_pop_back cfg w)) refl)))
    | inr t ↦ rw (h, t) (same-Agrees c v h)
  ]

  -- The loop over a copy, and what is published of it.
  swept-Agrees :
      (x : A) (all_matching : Bool) (c : CowVector A) (v : Vector A)
      → load c.stores c.store_ref ≡ ok v
      → (let count = gone matches x all_matching v.items in
          let w = vector v.items (length v.items) in
          Agrees c
            (◌>>=◌ {S = ℕ × CowVector A}
              (erase_loop cfg matches x all_matching (length v.items + 1) 0 0 w >>= λ (count, w').
                ok (count, if ltb 0 count then publish w' c else c))
              (λ p. ok p.1))
            (within count (
              ok (
                if ltb 0 count
                then vector (removed matches x all_matching v.items) (length v.items)
                else v))))
  unfolding swept Agrees
  swept-Agrees x all_matching c v h =
      let count = gone matches x all_matching v.items in
      let rest = vector (removed matches x all_matching v.items) (length v.items) in
      let e : 0 + count ≡ count = omega arith in
      rw
        (
          erase_loop-swept cfg matches x all_matching (length v.items + 1) 0 0
              (vector v.items (length v.items)) (omega arith) (omega arith) (omega arith),
          e,
        )
        (elim (Bool-cases (ltb count (2 ^ 31))) [
          | inl u ↦ elim (Bool-cases (ltb 0 count)) [
            | inl t ↦ rw (u, t) (publish-Agrees c (ok rest) (ok rest) refl)
            | inr t ↦ rw (u, t) (same-Agrees c v h)
          ]
          | inr u ↦ rw u refl
        ])

  erase-Agrees :
      (x : A) (all_matching : Bool) (c : CowVector A) (v : Vector A)
      → load c.stores c.store_ref ≡ ok v
      → Agrees c
          (perform (call_erase_matching x all_matching) c)
          (promised (call_erase_matching x all_matching) v)
  unfolding perform promised erase_matching copy_of Agrees
  erase-Agrees x all_matching c v h =
      let copied = allocate-obtained_one cfg (length v.items) v.items (nil_of_length v.items) in
      elim (obtained-cases cfg (length v.items ∷ []) (vector v.items (length v.items))) [
        | inl e ↦ rw (h, copied, e) (swept-Agrees x all_matching c v h)
        | inr (error, e) ↦ rw (h, copied, e) refl
      ]

  pub perform-Agrees :
      (call : Call A) (c : CowVector A) (v : Vector A)
      → load c.stores c.store_ref ≡ ok v
      → Agrees c (perform call c) (promised call v)
  unfolding perform promised clear
  perform-Agrees (call_push_back x) c v h = push_back-Agrees x c v h
  perform-Agrees (call_push_back_unique x) c v h = unique-Agrees x c v h
  perform-Agrees (call_reserve n) c v h = reserve-Agrees n c v h
  perform-Agrees call_pop_back c v h = pop_back-Agrees c v h
  perform-Agrees call_clear c v h = publish-Agrees c (ok (vector [] 0)) (ok (vector [] 0)) refl
  perform-Agrees (call_erase_matching x all_matching) c v h = erase-Agrees x all_matching c v h

  unfoldable pub run : List (Call A) → CowVector A → Result (CowVector A)
  run [] c = ok c
  run (call ∷ calls) c = resume c (perform call c) >>= λ d. run calls d

  unfoldable pub run_promise : List (Call A) → Vector A → Result (Vector A)
  run_promise [] v = ok v
  run_promise (call ∷ calls) v = resume v (promised call v) >>= λ w. run_promise calls w

  run_step :
      (calls : List (Call A)) (c : CowVector A) (v : Vector A) (r : Result (CowVector A))
      (q : Result (Vector A))
      → load c.stores c.store_ref ≡ ok v
      → Agrees c r q
      → ((d : CowVector A) (w : Vector A)
          → load d.stores d.store_ref ≡ ok w
          → Agrees d (run calls d) (run_promise calls w))
      → Agrees c (resume c r >>= λ d. run calls d) (resume v q >>= λ w. run_promise calls w)
  unfolding Agrees resume
  run_step calls c v (ok d) q h (w, e, (new, kept), there) rest =
      rw e (Agrees-after c d new (run calls d) (run_promise calls w) kept (rest d w there))
  run_step calls c v (threw e) q h k rest = rw k (rest c v h)
  run_step calls c v (dangling e) q h k rest = rw k refl
  run_step calls c v fault q h k rest = rw k refl

  -- A sequence of the calls `push_back` of an element, `push_back_unique`, `reserve`, `pop_back`,
  -- `clear` and `erase_matching` of a container that has a store, resumed after exceptions,
  -- leaves it with the vector that the calls promise of one vector, each with the memory that it
  -- asks for, and leaves all stores that were there unchanged and at their places; it is
  -- undefined or terminates just where that is promised.
  pub run_keeps_stores :
      (calls : List (Call A)) (c : CowVector A) (v : Vector A)
      → load c.stores c.store_ref ≡ ok v
      → Agrees c (run calls c) (run_promise calls v)
  unfolding run run_promise
  run_keeps_stores [] c v h = same-Agrees c v h
  run_keeps_stores (call ∷ calls) c v h =
      run_step calls c v (perform call c) (promised call v) h (perform-Agrees call c v h)
        (λ d w there. run_keeps_stores calls d w there)
