-- ===== src/Darray/Whole/Reads.antt =====
-- include/jau/darray.hpp: what copying reads of an array whose elements stand first.
use jaulib.Prelude.{
  ap₂, drop, take-append-drop, ℕ, zero, suc, ◌+◌, ◌≡◌, ◌≤◌, refl, sym, ap, ◌∙◌, List, [], ◌∷◌, ◌++◌,
  map, Option, none, some, length, get_elem?, set, take, append_assoc, length-append, length-take,
  arith, take-length, ltb, ◌==◌, ◌-◌, if◌then◌else◌, nil_of_length, ==_iff, Bool-cases, inl, inr,
}
use mathlib.Core.List.{map-append}
use jaulib.Darray.{
  Config, Result, ok, threw, raw, diff_max, illegal_argument, out_of_memory, alloc_store,
  ctor_copy_range,
}
use jaulib.Darray.View.{View, held, holding, view}
use jaulib.Darray.Memory.{read-eq}
use jaulib.Darray.Assign.{filled}
use jaulib.Darray.Ops.{clone_range}
use jaulib.Darray.Whole.{read_range, copy_with, copy_of}

module _ {ℓ} {A : Type ℓ} where
  pub get_elem?-map {κ} :
      {B : Type κ} (f : A → B) (xs : List A) (i : ℕ)
      → get_elem? (map f xs) i ≡ elim (get_elem? xs i) [ some x ↦ some (f x) | none ↦ none ]
  get_elem?-map f [] i = refl
  get_elem?-map f (x ∷ xs) zero = refl
  get_elem?-map f (x ∷ xs) (suc i) = get_elem?-map f xs i

  pub set-map {κ} :
      {B : Type κ} (f : A → B) (xs : List A) (i : ℕ) (x : A)
      → set (map f xs) i (f x) ≡ map f (set xs i x)
  set-map f [] i x = refl
  set-map f (y ∷ xs) zero x = refl
  set-map f (y ∷ xs) (suc i) x = ap (λ l. f y ∷ l) (set-map f xs i x)

module _ {ℓ} {A : Type ℓ} where
  -- Reading the objects of consecutive slots.
  read_range-eq :
      (pre : List (Option A)) (xs : List A) (post : List (Option A)) (pos : ℕ)
      → pos ≡ length pre
      → read_range (pre ++ (map some xs ++ post)) pos (length xs) ≡ ok xs
  unfolding read_range
  read_range-eq pre [] post pos e = refl
  read_range-eq pre (x ∷ xs) post pos e =
      let one : List (Option A) = some x ∷ [] in
      let len = length-append pre one in
      let rest =
        ap (λ l. read_range l (pos + 1) (length xs))
          (sym (append_assoc pre one (map some xs ++ post)))
        ∙ read_range-eq (pre ++ one) xs post (pos + 1) (omega arith) in
      rw (read-eq pre x (map some xs ++ post) pos e, rest)

  pub read_range-held :
      (n : ℕ) (v : View A)
      → n ≤ length v.items
      → read_range (held v).storage 0 n ≡ ok (take n v.items)
  read_range-held n v h =
      let split =
        sym (map-append some (take n v.items) (drop n v.items))
        ∙ ap (map some) (take-append-drop n v.items) in
      let len = length-take n v.items in
      let rest : List (Option A) = map some (drop n v.items) in
      let objects : List (Option A) = map some (take n v.items) in
      ap₂ (λ l k. read_range (l ++ raw v.room) 0 k) (sym split) (omega arith)
      ∙ ap (λ l. read_range l 0 (length (take n v.items))) (append_assoc objects rest (raw v.room))
      ∙ read_range-eq [] (take n v.items) (rest ++ raw v.room) 0 refl

  pub stores-held :
      (views : List (View A)) (v : View A)
      → map held views ++ (held v ∷ []) ≡ map held (views ++ (v ∷ []))
  stores-held views v = sym (map-append held views (v ∷ []))

  pub read_all-held : (v : View A) → read_range (held v).storage 0 (length v.items) ≡ ok v.items
  read_all-held v =
      read_range-held (length v.items) v (omega arith)
      ∙ ap ok (take-length (length v.items) v.items refl)

module _ {ℓ} {A : Type ℓ} (cfg : Config) where
  -- Elements in new storage of a capacity that fits them.
  unfoldable pub cloned : ℕ → List A → Result (View A)
  cloned n xs =
      if n == 0
      then ok (view [] 0)
      else if ltb diff_max n
      then threw illegal_argument
      else if cfg.alloc n
      then ok (view xs (n - length xs))
      else threw out_of_memory

  pub clone_range-cloned :
      (n : ℕ) (xs : List A) → length xs ≤ n → clone_range cfg n xs ≡ holding (cloned n xs)
  unfolding clone_range cloned alloc_store ctor_copy_range
  clone_range-cloned n xs h = elim (Bool-cases (n == 0)) [
    | inl z ↦
        let zero_eq = (==_iff n 0).0 z in
        let nothing = nil_of_length xs (omega arith) in rw (z, nothing)
    | inr z ↦ elim (Bool-cases (ltb diff_max n)) [
      | inl t ↦ rw (z, t)
      | inr t ↦ elim (Bool-cases (cfg.alloc n)) [
        | inl a ↦ rw (z, t, a, filled cfg n xs h)
        | inr a ↦ rw (z, t, a)
      ]
    ]
  ]

  pub copy_with-held :
      (n : ℕ) (v : View A)
      → length v.items ≤ n
      → copy_with cfg n (held v) ≡ holding (cloned n v.items)
  unfolding copy_with
  copy_with-held n v h = rw (read_all-held v) (clone_range-cloned n v.items h)

  pub copy_of-held : (v : View A) → copy_of cfg (held v) ≡ holding (cloned (length v.items) v.items)
  unfolding copy_of
  copy_of-held v = copy_with-held (length v.items) v (omega arith)
