-- ===== src/Darray/Assign.antt =====
-- include/jau/darray.hpp: `assign` does on slots what it promises of lists.
use jaulib.Prelude.{
  ℕ, ◌-◌, ◌≡◌, ◌≤◌, refl, sym, ap, ◌∙◌, List, [], Option, none, length, replicate-add, ltb,
  ne→==_false, if◌then◌else◌, ◌==◌, ltb→lt, ltb_false→le, Bool-cases, inl, inr, arith,
}
use jaulib.Darray.{
  Error, threw, dangling, illegal_argument, out_of_memory, Config, alloc_store, ctor_copy_range,
  diff_max, ok, raw,
}
use jaulib.Darray.View.{View, held, holding, view, volume}
use jaulib.Darray.Memory.{dtor_range-eq, ctor_copy_range-eq}
use jaulib.Darray.Grow.{storage-length, raw-split}
use jaulib.Darray.Ops.{assign, clone_range, freed}
use jaulib.Darray.Promise

module _ {ℓ} {A : Type ℓ} (cfg : Config) where
  pub filled :
      (n : ℕ) (ys : List A)
      → length ys ≤ n
      → ctor_copy_range (raw n) 0 ys ≡ ok (held (view ys (n - length ys))).storage
  filled n ys h =
      ap (λ l. ctor_copy_range l 0 ys) (sym (raw-split (length ys) n h))
      ∙ ctor_copy_range-eq [] ys (raw (n - length ys)) 0 refl

  lost-eq :
      (v : View A) (e : Error)
      → freed {A = A} (volume v) (threw e) ≡ holding (if volume v == 0 then threw e else dangling e)
  unfolding freed
  lost-eq v e = elim (Bool-cases (volume v == 0)) [ inl t ↦ rw t | inr t ↦ rw t ]

  -- `assign` replaces the elements, in the old storage where they fit it; otherwise, when no new
  -- storage is to be had, its exception leaves an array that points to freed memory, if it had
  -- storage, and an array without storage as it was.
  pub assign_refines :
      (ys : List A) (v : View A) → assign cfg ys (held v) ≡ holding (Promise.assign cfg ys v)
  unfolding assign Promise.assign clone_range alloc_store freed
  assign_refines ys v = elim (Bool-cases (ltb (volume v) (length ys))) [
    | inl t ↦
        let nonzero = ne→==_false (length ys) 0 (λ e. let more = ltb→lt _ _ t in omega arith) in
        rw (storage-length v, dtor_range-eq [] v.items (raw v.room) 0 refl, t, nonzero)
          (elim (Bool-cases (ltb diff_max (length ys))) [
            | inl u ↦ rw u (lost-eq v illegal_argument)
            | inr u ↦ elim (Bool-cases (cfg.alloc (length ys))) [
              | inl a ↦
                  rw (u, a, filled (length ys) ys (omega arith))
                    (ap (λ n. ok (held (view ys n)))
                      (let e : length ys - length ys ≡ 0 = omega arith in e))
              | inr a ↦ rw (u, a) (lost-eq v out_of_memory)
            ]
          ])
    | inr t ↦
        let enough = ltb_false→le _ _ t in
        rw (
          storage-length v,
          dtor_range-eq [] v.items (raw v.room) 0 refl,
          t,
          replicate-add {A = Option A} (length v.items) v.room none,
          filled (volume v) ys enough,
        )
  ]
