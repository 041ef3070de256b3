-- ===== src/CowVector/Isolation.antt =====
-- include/jau/cow_vector.hpp: what memory a call asks for, and what it leaves of the stores that others
-- hold.
use jaulib.Prelude.{
  ℕ, ◌≡◌, refl, sym, ap, ap₂, ◌∙◌, ◌⊎◌, List, [], ◌∷◌, ◌++◌, ltb, ◌==◌, if◌then◌else◌, append-nil,
  append_assoc, get_elem?-append, Bool-cases, inl, inr, ==_iff,
}
use jaulib.Darray.{Result, ok, threw, dangling, fault, ◌>>=◌, Error, out_of_memory, length_error}
use jaulib.CowDarray.{no_throw}
use jaulib.CowVector.{Vector, VectorConfig, CowVector, vector, load, publish, allocate}

module _ {ℓ} {A : Type ℓ} (cfg : VectorConfig) where
  -- Memory for so many elements, one request after the other, and then this vector; or the error of the
  -- first request that fails.
  unfoldable pub obtained : List ℕ → Vector A → Result (Vector A)
  obtained [] w = ok w
  obtained (n ∷ sizes) w =
      let rest = obtained sizes w in
      if n == 0
      then rest
      else if ltb cfg.max_size n
      then threw length_error
      else if cfg.alloc n
      then rest
      else threw out_of_memory

  -- A vector is made for what follows.
  pub allocate-obtained :
      (n : ℕ) (xs : List A) (sizes : List ℕ) (w : Vector A) (F : Vector A → Result (Vector A))
      → (n ≡ 0 → xs ≡ [])
      → F (vector xs n) ≡ obtained sizes w
      → (allocate cfg n xs >>= F) ≡ obtained (n ∷ sizes) w
  unfolding allocate obtained
  allocate-obtained n xs sizes w F empty next = elim (Bool-cases (n == 0)) [
    | inl z ↦
        let zero_size = (==_iff n 0).0 z in
        let same : vector [] 0 ≡ vector xs n = ap₂ vector (sym (empty zero_size)) (sym zero_size) in
        rw z (ap F same ∙ next)
    | inr z ↦ elim (Bool-cases (ltb cfg.max_size n)) [
      | inl t ↦ rw (z, t)
      | inr t ↦ elim (Bool-cases (cfg.alloc n)) [ inl a ↦ rw (z, t, a) next | inr a ↦ rw (z, t, a) ]
    ]
  ]

  bind_ok : (r : Result (Vector A)) → (r >>= ok) ≡ r
  bind_ok (ok w) = refl
  bind_ok (threw e) = refl
  bind_ok (dangling e) = refl
  bind_ok fault = refl

  pub allocate-obtained_one :
      (n : ℕ) (xs : List A)
      → (n ≡ 0 → xs ≡ [])
      → allocate cfg n xs ≡ obtained (n ∷ []) (vector xs n)
  unfolding obtained
  allocate-obtained_one n xs empty =
      sym (bind_ok (allocate cfg n xs)) ∙ allocate-obtained n xs [] (vector xs n) ok empty refl

  pub obtained-cases :
      (sizes : List ℕ) (w : Vector A)
      → (obtained sizes w ≡ ok w) ⊎ ((e : Error) × (obtained sizes w ≡ threw e))
  unfolding obtained
  obtained-cases [] w = inl refl
  obtained-cases (n ∷ sizes) w = elim (Bool-cases (n == 0)) [
    | inl z ↦ rw z (obtained-cases sizes w)
    | inr z ↦ elim (Bool-cases (ltb cfg.max_size n)) [
      | inl t ↦ rw (z, t) (inr (length_error, refl))
      | inr t ↦ elim (Bool-cases (cfg.alloc n)) [
        | inl a ↦ rw (z, t, a) (obtained-cases sizes w)
        | inr a ↦ rw (z, t, a) (inr (out_of_memory, refl))
      ]
    ]
  ]

module _ {ℓ} {A : Type ℓ} where
  -- The container has the vector that is promised, behind the stores that were there, which are as they
  -- were; or it is left by the promised exception.
  unfoldable pub Agrees : CowVector A → Result (CowVector A) → Result (Vector A) → Type ℓ
  Agrees c (ok d) q =
      (w : Vector A) × (q ≡ ok w)
      × ((new : List (Vector A)) × (d.stores ≡ c.stores ++ new))
      × (load d.stores d.store_ref ≡ ok w)
  Agrees c (threw e) q = q ≡ threw e
  Agrees c (dangling e) q = q ≡ dangling e
  Agrees c fault q = q ≡ fault

  pub same-Agrees :
      (c : CowVector A) (v : Vector A) → load c.stores c.store_ref ≡ ok v → Agrees c (ok c) (ok v)
  unfolding Agrees
  same-Agrees c v h = (v, refl, ([], sym (append-nil c.stores)), h)

  publish-ok : (c : CowVector A) (r : Result (Vector A)) → Agrees c (r >>= λ w. ok (publish w c)) r
  unfolding Agrees publish load
  publish-ok c (ok w) = (w, refl, (w ∷ [], refl), rw (load, get_elem?-append c.stores w []))
  publish-ok c (threw e) = refl
  publish-ok c (dangling e) = refl
  publish-ok c fault = refl

  -- A vector that is promised is published.
  pub publish-Agrees :
      (c : CowVector A) (r q : Result (Vector A)) → r ≡ q → Agrees c (r >>= λ w. ok (publish w c)) q
  publish-Agrees c r q e = rw (← e) (publish-ok c r)

  pub rebind :
      (c : CowVector A) (r : Result (Vector A)) (F : Vector A → Result (Vector A))
      → (r >>= λ w. F w >>= λ u. ok (publish u c)) ≡ ((r >>= F) >>= λ u. ok (publish u c))
  rebind c (ok w) F = refl
  rebind c (threw e) F = refl
  rebind c (dangling e) F = refl
  rebind c fault F = refl

  pub no_throw-Agrees :
      (c : CowVector A) (r : Result (CowVector A)) (q : Result (Vector A))
      → Agrees c r q
      → Agrees c (no_throw r) (no_throw q)
  unfolding Agrees no_throw
  no_throw-Agrees c (ok d) q (w, e, kept, there) = (w, ap no_throw e, kept, there)
  no_throw-Agrees c (threw e) q h = ap no_throw h
  no_throw-Agrees c (dangling e) q h = ap no_throw h
  no_throw-Agrees c fault q h = ap no_throw h

  -- Stores that a later container keeps were kept before.
  pub Agrees-after :
      (c d : CowVector A) (new : List (Vector A)) (r : Result (CowVector A)) (q : Result (Vector A))
      → d.stores ≡ c.stores ++ new
      → Agrees d r q
      → Agrees c r q
  unfolding Agrees
  Agrees-after c d new (ok u) q kept (w, e, (new', kept'), there) = (
    w,
    e,
    (new ++ new', kept' ∙ ap (λ l. l ++ new') kept ∙ append_assoc c.stores new new'),
    there,
  )
  Agrees-after c d new (threw e) q kept h = h
  Agrees-after c d new (dangling e) q kept h = h
  Agrees-after c d new fault q kept h = h
