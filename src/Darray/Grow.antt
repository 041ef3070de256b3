-- ===== src/Darray/Grow.antt =====
-- include/jau/darray.hpp: `grow_storage_move` keeps the elements, whichever of its three ways it takes, and
-- fails in the ways that `widen` lists.
use jaulib.Prelude.{
  ℕ, ◌+◌, ◌-◌, ◌≡◌, ◌≤◌, ◌<◌, refl, sym, ap, ap₂, ◌∙◌, Bool, true, false, List, [], ◌∷◌, ◌++◌, map,
  append_assoc, Option, none, some, length, length-append, replicate-add, replicate,
  length-replicate, length-map, take-append_length, drop-append_length, take, drop, take_whole, ltb,
  ne→==_false, le→leb, Bool-cases, inl, inr, ◌&&◌, arith, if◌then◌else◌, ◌==◌,
}
use mathlib.Core.Bool.{false≢true}
use jaulib.Darray.{
  Darray, Config, Result, ok, threw, dangling, out_of_memory, ◌>>=◌, diff_max, raw, move_over,
  alloc_store, realloc_store, copy_block, grow_storage_move,
}
use jaulib.Darray.View.{View, held, holding, view, widen, widen_if, volume}
use jaulib.Darray.Memory.{read-eq, construct-eq, dtor_one-eq}
use jaulib.Darray.Ops.{grow_if}

module _ {ℓ} {A : Type ℓ} where
  move_over-eq :
      (xs : List A) (pre pre' post post' : List (Option A)) (pos : ℕ)
      → pos ≡ length pre
      → pos ≡ length pre'
      → move_over
          (pre ++ (map some xs ++ post))
          (pre' ++ (raw (length xs) ++ post'))
          pos
          (length xs)
        ≡ ok (pre' ++ (map some xs ++ post'))
  unfolding move_over
  move_over-eq [] pre pre' post post' pos e f = refl
  move_over-eq (x ∷ xs) pre pre' post post' pos e f =
      let cleared : List (Option A) = none ∷ [] in
      let filled : List (Option A) = some x ∷ [] in
      let len = length-append pre cleared in
      let len' = length-append pre' filled in
      rw
        (
          read-eq pre x (map some xs ++ post) pos e,
          construct-eq pre' x (raw (length xs) ++ post') pos f,
          dtor_one-eq pre x (map some xs ++ post) pos e,
        )
        (ap₂ (λ old new. move_over old new (pos + 1) (length xs))
            (sym (append_assoc pre cleared (map some xs ++ post)))
            (sym (append_assoc pre' filled (raw (length xs) ++ post')))
          ∙ move_over-eq xs (pre ++ cleared) (pre' ++ filled) post post' (pos + 1) (omega arith)
              (omega arith)
          ∙ ap ok (append_assoc pre' filled (map some xs ++ post')))

  pub storage-length : (v : View A) → length (held v).storage ≡ volume v
  storage-length v =
      let raws : List (Option A) = raw v.room in
      let len : length raws ≡ v.room = length-replicate v.room none in
      omega (arith, length-append (map some v.items) raws, length-map v.items some)

  pub raw-split : (m n : ℕ) → m ≤ n → raw m ++ raw (n - m) ≡ raw {A = A} n
  raw-split m n h = replicate-add m (n - m) none ∙ ap (λ i. replicate i none) (omega arith)

  -- Each way, once there is memory.
  over-ok :
      (n : ℕ) (v : View A)
      → length v.items ≤ n
      → move_over (held v).storage (raw n) 0 (length v.items)
        ≡ ok (map some v.items ++ raw (n - length v.items))
  over-ok n v h =
      ap (λ new. move_over (held v).storage new 0 (length v.items))
        (sym (raw-split (length v.items) n h))
      ∙ move_over-eq v.items [] [] (raw v.room) (raw (n - length v.items)) 0 refl refl

  realloc-ok :
      (n : ℕ) (v : View A)
      → volume v ≤ n
      → take n (held v).storage ++ raw (n - length (held v).storage)
        ≡ map some v.items ++ raw (n - length v.items)
  realloc-ok n v h =
      let len = storage-length v in
      let raws : List (Option A) = raw v.room in
      let used = length-map v.items some in
      let none_room : List (Option A) = raw (n - volume v) in
      rw (take_whole n (held v).storage (omega arith), len)
        (append_assoc (map some v.items) raws none_room
          ∙ ap (λ l. map some v.items ++ l)
              (replicate-add v.room (n - volume v) none ∙ ap (λ i. replicate i none) (omega arith)))

  copy-ok :
      (n : ℕ) (v : View A)
      → length v.items ≤ n
      → copy_block (held v) (raw n) ≡ ok (map some v.items ++ raw (n - length v.items))
  unfolding copy_block
  copy-ok n v h =
      let raws : List (Option A) = raw n in
      let len : length raws ≡ n = length-replicate n none in
      let len' = length-map v.items some in
      let firsts = take-append_length (map some v.items) (raw v.room) (length v.items) len' in
      let rest : drop (length v.items) raws ≡ raw (n - length v.items) =
        ap (drop (length v.items)) (sym (raw-split (length v.items) n h))
        ∙ drop-append_length _ (raw (n - length v.items)) (length v.items)
            (length-replicate (length v.items) none) in
      rw (le→leb (length v.items) (length raws) (omega arith), firsts, rest)

  abbrev lost : Bool → Result (List (Option A))
  lost nothing = if nothing then threw out_of_memory else dangling out_of_memory

  -- What a failing `realloc` loses.
  realloc-lost :
      (v : View A)
      → (lost (length (held v).storage == 0) >>= λ s.
          ok (record { storage = s; size = length v.items }))
        ≡ holding (if ltb 0 (volume v) then dangling out_of_memory else threw out_of_memory)
  realloc-lost v = rw (storage-length v) (elim (Bool-cases (ltb 0 (volume v))) [
    | inl t ↦ let some_room : (volume v == 0) ≡ false = ground arith in rw (t, some_room)
    | inr t ↦ let no_room : (volume v == 0) ≡ true = ground arith in rw (t, no_room)
  ])

module _ {ℓ} {A : Type ℓ} (cfg : Config) where
  -- `grow_storage_move` to a capacity that is not 0 nor below the old one keeps the elements,
  -- whether it moves objects, copies bytes or reallocates, and its exceptions are those of too
  -- large a size and of no memory.
  pub grow_storage_move-widen :
      (n : ℕ) (v : View A)
      → volume v ≤ n
      → 0 < n
      → grow_storage_move cfg n (held v) ≡ holding (widen cfg n v)
  unfolding grow_storage_move widen alloc_store realloc_store
  grow_storage_move-widen n v h p =
      let nonzero = ne→==_false n 0 (λ e. omega arith) in
      let over = over-ok n v (omega arith) in
      let bytes = realloc-ok n v h in
      let copied = copy-ok n v (omega arith) in
      elim (Bool-cases cfg.uses_memmove) [
        | inl m ↦ elim (Bool-cases cfg.uses_realloc) [
          | inl r ↦ elim (Bool-cases (ltb diff_max n)) [
            | inl t ↦ rw (m, r, t)
            | inr t ↦ elim (Bool-cases (cfg.alloc n)) [
              | inl a ↦ rw (m, r, t, a, bytes)
              | inr a ↦ rw (m, r, t, a) (realloc-lost v)
            ]
          ]
          | inr r ↦ elim (Bool-cases (ltb diff_max n)) [
            | inl t ↦ rw (m, r, nonzero, t)
            | inr t ↦ elim (Bool-cases (cfg.alloc n)) [
              | inl a ↦ rw (m, r, nonzero, t, a, copied)
              | inr a ↦ rw (m, r, nonzero, t, a)
            ]
          ]
        ]
        | inr m ↦ elim (Bool-cases (ltb diff_max n)) [
          | inl t ↦ rw (m, nonzero, t)
          | inr t ↦ elim (Bool-cases (cfg.alloc n)) [
            | inl a ↦ rw (m, nonzero, t, a, over)
            | inr a ↦ rw (m, nonzero, t, a)
          ]
        ]
      ]

  pub grow_if-widen_if :
      (needed : Bool) (n : ℕ) (v : View A)
      → (needed ≡ true → (volume v ≤ n) × (0 < n))
      → grow_if cfg needed n (held v) ≡ holding (widen_if cfg needed n v)
  unfolding grow_if widen_if
  grow_if-widen_if true n v h =
      let (fits, nonzero) = h refl in grow_storage_move-widen n v fits nonzero
  grow_if-widen_if false n v h = refl

  -- Two continuations that agree wherever there is room for `k` elements agree after growing.
  pub grow_if-bind :
      (needed : Bool) (n k : ℕ) (v : View A) (F : Darray A → Result (Darray A))
      (G : View A → Result (View A))
      → (needed ≡ true → (volume v ≤ n) × (0 < n) × (length v.items + k ≤ n))
      → (needed ≡ false → k ≤ v.room)
      → ((room : ℕ) → k ≤ room → F (held (view v.items room)) ≡ holding (G (view v.items room)))
      → (grow_if cfg needed n (held v) >>= F) ≡ holding (widen_if cfg needed n v >>= G)
  unfolding widen_if widen
  grow_if-bind true n k v F G grows fits agree =
      let (whole, nonzero, more) = grows refl in
      rw (grow_if-widen_if true n v (λ e. (whole, nonzero))) (elim (Bool-cases (ltb diff_max n)) [
        | inl t ↦ rw t
        | inr t ↦ elim (Bool-cases (cfg.alloc n)) [
          | inl a ↦ rw (t, a) (agree (n - length v.items) (omega arith))
          | inr a ↦ elim (Bool-cases (cfg.uses_memmove && (cfg.uses_realloc && ltb 0 (volume v)))) [
            | inl m ↦ rw (t, a, m)
            | inr m ↦ rw (t, a, m)
          ]
        ]
      ])
  grow_if-bind false n k v F G grows fits agree =
      rw (grow_if-widen_if false n v (λ e. absurd (false≢true e))) (agree v.room (fits refl))
