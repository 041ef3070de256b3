-- ===== src/CowDarray/Isolation.antt =====
-- include/jau/cow_darray.hpp: what a call may do to the stores that snapshots and iterators hold.
use mathlib.Core.Option.{some-injective, none-ne-some}
use jaulib.Prelude.{
  ℕ, zero, suc, ◌≡◌, ◌<◌, refl, sym, ap, ◌∙◌, Bool, true, false, List, [], ◌∷◌, ◌++◌, map, Option,
  some, none, length, get_elem?, set, append_assoc, append-nil, arith, Option-cases, inl, inr,
}
use mathlib.Core.Bool.{false≢true}
use jaulib.Darray.{raw, Result, ok, threw, dangling, fault, ◌>>=◌, read}
use jaulib.Darray.View.{View, held, volume}
use jaulib.CowDarray.Shelf.{fetch, load-held}
use jaulib.CowDarray.Iterators.{RoIterator, read_ro}

-- The results of `Result` are told apart.
ok_of {ℓ} : {S : Type ℓ} → S → Result S → S
ok_of s (ok t) = t
ok_of s (threw e) = s
ok_of s (dangling e) = s
ok_of s fault = s

pub ok-injective {ℓ} : {S : Type ℓ} {s t : S} → ok s ≡ ok t → s ≡ t
unfolding ok_of
ok-injective {s = s} h = ap (ok_of s) h

unfoldable pub is_ok {ℓ} : {S : Type ℓ} → Result S → Bool
is_ok (ok s) = true
is_ok r = false

pub not_ok {ℓ} : {S : Type ℓ} {s : S} {r : Result S} → is_ok r ≡ false → ¬ (r ≡ ok s)
unfolding is_ok
not_ok e h = false≢true (sym e ∙ ap is_ok h)

fault_not_ok {ℓ} : {S : Type ℓ} {s : S} → ¬ (fault ≡ ok s)
unfolding is_ok
fault_not_ok h = not_ok refl h

module _ {ℓ} {A : Type ℓ} where
  pub get_elem?-inside : (xs : List A) (i : ℕ) (x : A) → get_elem? xs i ≡ some x → i < length xs
  get_elem?-inside [] i x h = absurd (none-ne-some x h)
  get_elem?-inside (y ∷ xs) zero x h = omega arith
  get_elem?-inside (y ∷ xs) (suc i) x h = let inside = get_elem?-inside xs i x h in omega arith

  pub get_elem?-more :
      (xs more : List A) (i : ℕ) (x : A)
      → get_elem? xs i ≡ some x
      → get_elem? (xs ++ more) i ≡ some x
  get_elem?-more [] more i x h = absurd (none-ne-some x h)
  get_elem?-more (y ∷ xs) more zero x h = h
  get_elem?-more (y ∷ xs) more (suc i) x h = get_elem?-more xs more i x h

module _ {ℓ} {A : Type ℓ} where
  -- Elements may be added behind the old ones, in the old room.
  unfoldable pub IsPrefix : View A → View A → Type ℓ
  IsPrefix v w = (more : List A) × (w.items ≡ v.items ++ more) × (volume w ≡ volume v)

  IsPrefix-refl : (v : View A) → IsPrefix v v
  unfolding IsPrefix
  IsPrefix-refl v = ([], sym (append-nil v.items), refl)

  -- Every store is still there, at its place.
  unfoldable pub Keeps : List (View A) → List (View A) → Type ℓ
  Keeps views views' =
      (i : ℕ) (v : View A)
      → get_elem? views i ≡ some v
      → (w : View A) × (get_elem? views' i ≡ some w) × IsPrefix v w

  pub Keeps-refl : (views : List (View A)) → Keeps views views
  unfolding Keeps IsPrefix
  Keeps-refl views i v h = (v, h, IsPrefix-refl v)

  pub Keeps-trans :
      (views views' views″ : List (View A))
      → Keeps views views'
      → Keeps views' views″
      → Keeps views views″
  unfolding Keeps IsPrefix
  Keeps-trans views views' views″ h k i v e =
      let (w, f, (more, p, q)) = h i v e in
      let (u, g, (more', p', q')) = k i w f in
      (u, g, (more ++ more', p' ∙ ap (λ l. l ++ more') p ∙ append_assoc v.items more more', q' ∙ q))

  set-IsPrefix :
      (views : List (View A)) (i j : ℕ) (v u w : View A)
      → get_elem? views i ≡ some v
      → get_elem? views j ≡ some u
      → IsPrefix v w
      → (x : View A) × (get_elem? (set views i w) j ≡ some x) × IsPrefix u x
  set-IsPrefix [] i j v u w e f p = absurd (none-ne-some v e)
  set-IsPrefix (y ∷ ys) zero zero v u w e f p =
      let same : v ≡ u = some-injective v u (sym e ∙ f) in (w, refl, rw (← same) p)
  set-IsPrefix (y ∷ ys) zero (suc j) v u w e f p = (u, f, IsPrefix-refl u)
  set-IsPrefix (y ∷ ys) (suc i) zero v u w e f p = (u, f, IsPrefix-refl u)
  set-IsPrefix (y ∷ ys) (suc i) (suc j) v u w e f p = set-IsPrefix ys i j v u w e f p

  pub Keeps-set :
      (views : List (View A)) (i : ℕ) (v w : View A)
      → get_elem? views i ≡ some v
      → IsPrefix v w
      → Keeps views (set views i w)
  unfolding Keeps
  Keeps-set views i v w e p j u f = set-IsPrefix views i j v u w e f p

  append-IsPrefix :
      (views : List (View A)) (i : ℕ) (u v : View A)
      → get_elem? views i ≡ some v
      → (w : View A) × (get_elem? (views ++ (u ∷ [])) i ≡ some w) × IsPrefix v w
  append-IsPrefix [] i u v e = absurd (none-ne-some v e)
  append-IsPrefix (y ∷ ys) zero u v e = (v, e, IsPrefix-refl v)
  append-IsPrefix (y ∷ ys) (suc i) u v e = append-IsPrefix ys i u v e

  pub Keeps-append : (views : List (View A)) (u : View A) → Keeps views (views ++ (u ∷ []))
  unfolding Keeps
  Keeps-append views u i v h = append-IsPrefix views i u v h

  -- A reference to a store that is there.
  pub fetch-some :
      (views : List (View A)) (ref : Option ℕ) (v : View A)
      → fetch views ref ≡ ok v
      → (i : ℕ) × (ref ≡ some i) × (get_elem? views i ≡ some v)
  unfolding fetch
  fetch-some views none v h = absurd (fault_not_ok h)
  fetch-some views (some i) v h = elim (Option-cases (get_elem? views i)) [
    | inl e ↦
        let nothing : fetch views (some i) ≡ fault = rw (fetch, e) in
        absurd (fault_not_ok (sym nothing ∙ h))
    | inr (w, e) ↦
        let there : fetch views (some i) ≡ ok w = rw (fetch, e) in
        (i, refl, e ∙ ap some (ok-injective (sym there ∙ h)))
  ]

  pub some-fetch :
      (views : List (View A)) (i : ℕ) (v : View A)
      → get_elem? views i ≡ some v
      → fetch views (some i) ≡ ok v
  unfolding fetch
  some-fetch views i v e = rw (fetch, e)

  unfoldable found : Option A → Result A
  found none = fault
  found (some x) = ok x

  read-raw : (n i : ℕ) → read {A = A} (raw n) i ≡ fault
  unfolding read
  read-raw zero i = refl
  read-raw (suc n) zero = refl
  read-raw (suc n) (suc i) = read-raw n i

  read-found : (xs : List A) (n i : ℕ) → read (map some xs ++ raw n) i ≡ found (get_elem? xs i)
  unfolding read found
  read-found [] n i = read-raw n i
  read-found (x ∷ xs) n zero = refl
  read-found (x ∷ xs) n (suc i) = read-found xs n i

  found-ok : (o : Option A) (x : A) → found o ≡ ok x → o ≡ some x
  unfolding found
  found-ok none x h = absurd (fault_not_ok h)
  found-ok (some y) x h = ap some (ok-injective h)

  unfoldable element : ℕ → View A → Result A
  element pos v = found (get_elem? v.items pos)

  read_ro-element :
      (views : List (View A)) (it : RoIterator)
      → read_ro (map held views) it ≡ (fetch views it.store_ref >>= element it.pos)
  unfolding read_ro element
  read_ro-element views it = rw (load-held views it.store_ref) (loaded (fetch views it.store_ref))
    where
      loaded :
          (r : Result (View A))
          → ((r >>= λ v. ok (held v)) >>= λ d. read d.storage it.pos) ≡ (r >>= element it.pos)
      loaded (ok v) = read-found v.items v.room it.pos
      loaded (threw e) = refl
      loaded (dangling e) = refl
      loaded fault = refl

  element-Keeps :
      (views views' : List (View A)) (ref : Option ℕ) (pos : ℕ) (x : A)
      → Keeps views views'
      → (fetch views ref >>= element pos) ≡ ok x
      → (fetch views' ref >>= element pos) ≡ ok x
  unfolding fetch element Keeps IsPrefix found
  element-Keeps views views' none pos x h r = absurd (fault_not_ok r)
  element-Keeps views views' (some i) pos x h r = elim (Option-cases (get_elem? views i)) [
    | inl e ↦
        let nothing : (fetch views (some i) >>= element pos) ≡ fault = rw (fetch, e) in
        absurd (fault_not_ok (sym nothing ∙ r))
    | inr (v, e) ↦
        let (w, f, (more, p, q)) = h i v e in
        let old : (fetch views (some i) >>= element pos) ≡ element pos v = rw (fetch, e) in
        let new : (fetch views' (some i) >>= element pos) ≡ element pos w = rw (fetch, f) in
        let there = found-ok (get_elem? v.items pos) x (sym old ∙ r) in
        new ∙ ap found (ap (λ l. get_elem? l pos) p ∙ get_elem?-more v.items more pos x there)
  ]

  -- What an immutable iterator reads, it reads after any such change.
  pub read_ro-Keeps :
      (views views' : List (View A)) (it : RoIterator) (x : A)
      → Keeps views views'
      → read_ro (map held views) it ≡ ok x
      → read_ro (map held views') it ≡ ok x
  read_ro-Keeps views views' it x h r =
      read_ro-element views' it
      ∙ element-Keeps views views' it.store_ref it.pos x h (sym (read_ro-element views it) ∙ r)
