-- ===== src/CowDarray/Shelf.antt =====
-- A view of the memory of include/jau/cow_darray.hpp: every store holds its elements first and raw
-- slots behind them. What loading, copying and publishing a store does to the views.
use jaulib.Prelude.{
  ap₂, ℕ, ◌≡◌, refl, List, [], ◌∷◌, ◌++◌, map, Option, none, some, length, get_elem?, set,
  length-map, Option-cases, inl, inr,
}
use jaulib.Darray.{Result, ok, fault, ◌>>=◌}
use jaulib.Darray.View.{View, held, holding}
use jaulib.Darray.Whole.Reads.{get_elem?-map, set-map, stores-held}
use jaulib.CowDarray.{Cow, load, store_at, publish}

pub record Shelf {ℓ} (A : Type ℓ) : Type ℓ where
  pub views : List (View A)
  pub store_ref : Option ℕ

module _ {ℓ} {A : Type ℓ} where
  -- The container that the shelf is a view of.
  abbrev pub shown : Shelf A → Cow A
  shown s = record { stores = map held s.views; store_ref = s.store_ref }

  abbrev pub showing : Result (Shelf A) → Result (Cow A)
  showing r = r >>= λ s. ok (shown s)

  unfoldable pub fetch : List (View A) → Option ℕ → Result (View A)
  fetch views none = fault
  fetch views (some i) = elim (get_elem? views i) [ some v ↦ ok v | none ↦ fault ]

  abbrev pub shelved : List (View A) → View A → Shelf A
  shelved views v = record { views = views ++ (v ∷ []); store_ref = some (length views) }

  unfoldable pub view_at : Option ℕ → View A → List (View A) → List (View A)
  view_at none v views = views
  view_at (some i) v views = set views i v

  -- Reading through a reference.
  pub load-held :
      (views : List (View A)) (ref : Option ℕ)
      → load (map held views) ref ≡ holding (fetch views ref)
  unfolding load fetch
  load-held views none = refl
  load-held views (some i) =
      rw (load, get_elem?-map held views i)
        (elim (Option-cases (get_elem? views i)) [
          | inl e ↦ rw (e, fetch)
          | inr (v, e) ↦ rw (e, fetch)
        ])

  pub store_at-held :
      (ref : Option ℕ) (v : View A) (views : List (View A))
      → store_at ref (held v) (map held views) ≡ map held (view_at ref v views)
  unfolding store_at view_at
  store_at-held none v views = refl
  store_at-held (some i) v views = set-map held views i v

  pub publish-held :
      (v : View A) (s : Shelf A) → publish (held v) (shown s) ≡ shown (shelved s.views v)
  unfolding publish
  publish-held v s =
      ap₂ (λ l n. record { stores = l; store_ref = some n }) (stores-held s.views v)
        (length-map s.views held)
