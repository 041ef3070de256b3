-- ===== src/Darray/Unique.antt =====
-- include/jau/darray.hpp: `push_back_unique` does on slots what it promises of lists.
use jaulib.Prelude.{
  ℕ, zero, suc, ◌+◌, ◌≡◌, refl, Bool, true, [], length, length-drop, drop, drop-at, ltb, lt→ltb,
  nil_of_length, Bool-cases, inl, inr, arith,
}
use jaulib.Darray.Appends.{push_back_refines}
use jaulib.Darray.{Darray, Config, Result, ok, threw, dangling, fault, ◌>>=◌}
use jaulib.Darray.View.{View, held, holding}
use jaulib.Darray.Ops.{any_from, push_back_unique}
use jaulib.Darray.Promise
use jaulib.Darray.Matching.{read-at}

module _ {ℓ} {A : Type ℓ} (cfg : Config) (matches : A → A → Bool) (x : A) where
  -- The loop of `push_back_unique` finds an element when there is a match at or after `pos`.
  pub any-hits :
      (n pos : ℕ) (v : View A)
      → pos + n ≡ length v.items
      → any_from matches x (held v) pos n ≡ ok (ltb 0 (Promise.hits matches x (drop pos v.items)))
  unfolding any_from Promise.hits
  any-hits zero pos v h =
      let none_left : drop pos v.items ≡ [] =
        nil_of_length _ (let len = length-drop pos v.items in omega arith) in
      rw (none_left, Promise.hits)
  any-hits (suc n) pos v h =
      let (y, e, f) = drop-at pos v.items (omega arith) in
      let seen = read-at pos v y (omega arith) e in
      elim (Bool-cases (matches y x)) [
        | inl t ↦ rw (
          seen,
          t,
          e,
          t,
          lt→ltb 0 (suc (Promise.hits matches x (drop (pos + 1) v.items))) (omega arith),
        )
        | inr t ↦ rw (seen, t, e, t) (any-hits n (pos + 1) v (omega arith))
      ]

  pushed :
      (r : Result (View A))
      → ◌>>=◌ {T = Bool × Darray A} (holding r) (λ d. ok (true, d))
        ≡ ◌>>=◌ {S = Bool × View A} {T = Bool × Darray A}
            (r >>= λ w. ok (true, w))
            (λ (found, w). ok (found, held w))
  pushed (ok w) = refl
  pushed (threw e) = refl
  pushed (dangling e) = refl
  pushed fault = refl

  -- `push_back_unique` of an element from elsewhere adds it exactly when no element matches it,
  -- and says whether it did.
  pub push_back_unique_refines :
      (v : View A)
      → push_back_unique cfg matches x (held v)
        ≡ ◌>>=◌ {T = Bool × Darray A}
            (Promise.push_back_unique cfg matches x v)
            (λ (found, w). ok (found, held w))
  unfolding push_back_unique Promise.push_back_unique
  push_back_unique_refines v =
      rw (any-hits (length v.items) 0 v (omega arith), push_back_refines cfg x v)
        (elim (Bool-cases (ltb 0 (Promise.hits matches x v.items))) [
          | inl t ↦ rw (t, Promise.push_back_unique)
          | inr t ↦ rw (t, Promise.push_back_unique) (pushed (Promise.push_back cfg x v))
        ])
