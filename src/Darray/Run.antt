-- ===== src/Darray/Run.antt =====
-- include/jau/darray.hpp: a sequence of calls of one array, and what it promises.
use jaulib.Prelude.{
  ℕ, ◌≡◌, ◌≤◌, ◌<◌, refl, Bool, List, [], ◌∷◌, length, ltb, ◌^◌, Bool-cases, inl, inr,
}
use jaulib.Darray.{Darray, Config, Result, ok, threw, dangling, fault, within, ◌>>=◌}
use jaulib.Darray.View.{View, held, holding, view, volume}
use jaulib.Darray.Ops.{
  outside, push_back, push_back_range, push_back_unique, insert, insert_range, pop_back, erase,
  erase_range, erase_matching, reserve, clear, assign,
}
use jaulib.Darray.Inserts.{insert_refines, insert_range_refines}
use jaulib.Darray.Appends.{push_back_refines, push_back_range_refines, reserve_refines}
use jaulib.Darray.Erases.{erase_refines, erase_range_refines, pop_back_refines, clear_refines}
use jaulib.Darray.Matching.{erase_matching_refines}
use jaulib.Darray.Unique.{push_back_unique_refines}
use jaulib.Darray.Assign.{assign_refines}
use jaulib.Darray.Promise

-- The calls that change an array, with arguments from elsewhere. A range to put in is not empty.
pub data Call {ℓ} (A : Type ℓ) : Type ℓ where
  call_push_back : A → Call A
  call_push_back_range : A → List A → Call A
  call_push_back_unique : A → Call A
  call_insert : ℕ → A → Call A
  call_insert_range : ℕ → A → List A → Call A
  call_pop_back : Call A
  call_erase : ℕ → Call A
  call_erase_range : ℕ → ℕ → Call A
  call_erase_matching : A → Bool → Call A
  call_reserve : ℕ → Call A
  call_clear : Call A
  call_assign : List A → Call A

-- The caller goes on with the array after an exception that leaves it as it was.
unfoldable pub resume {κ} : {S : Type κ} → S → Result S → Result S
resume s (threw e) = ok s
resume s r = r

-- What holds of the view, where there is one.
unfoldable pub IsOkThen {κ} : {S : Type κ} → (S → Type 0) → Result S → Type 0
IsOkThen P (ok w) = P w
IsOkThen P (threw e) = Unit
IsOkThen P (dangling e) = Unit
IsOkThen P fault = Unit

module _ {ℓ} {A : Type ℓ} (cfg : Config) (matches : A → A → Bool) where
  unfoldable pub perform : Call A → Darray A → Result (Darray A)
  perform (call_push_back x) d = push_back cfg (outside x) d
  perform (call_push_back_range y ys) d = push_back_range cfg (y ∷ ys) d
  perform (call_push_back_unique x) d = push_back_unique cfg matches x d >>= λ (found, d'). ok d'
  perform (call_insert pos x) d = insert cfg pos (outside x) d
  perform (call_insert_range pos y ys) d = insert_range cfg pos (y ∷ ys) d
  perform call_pop_back d = pop_back d
  perform (call_erase pos) d = erase cfg pos d
  perform (call_erase_range first last) d = erase_range cfg first last d
  perform (call_erase_matching x all_matching) d =
      erase_matching cfg matches x all_matching d >>= λ (count, d'). ok d'
  perform (call_reserve n) d = reserve cfg n d
  perform call_clear d = clear d
  perform (call_assign ys) d = assign cfg ys d

  unfoldable pub promise : Call A → View A → Result (View A)
  promise (call_push_back x) v = Promise.push_back cfg x v
  promise (call_push_back_range y ys) v = Promise.push_back_range cfg (y ∷ ys) v
  promise (call_push_back_unique x) v =
      Promise.push_back_unique cfg matches x v >>= λ (found, w). ok w
  promise (call_insert pos x) v = Promise.insert cfg pos x v
  promise (call_insert_range pos y ys) v = Promise.insert_range cfg pos (y ∷ ys) v
  promise call_pop_back v = ok (Promise.pop_back v)
  promise (call_erase pos) v = ok (Promise.erase pos v)
  promise (call_erase_range first last) v = ok (Promise.erase_range first last v)
  promise (call_erase_matching x all_matching) v =
      let (count, w) = Promise.erase_matching matches x all_matching v in within count (ok w)
  promise (call_reserve n) v = Promise.reserve cfg n v
  promise call_clear v = ok (view [] 0)
  promise (call_assign ys) v = Promise.assign cfg ys v

  -- What the caller answers for: iterators of the array, and storage before `erase_matching`.
  unfoldable pub IsLegal : Call A → View A → Type 0
  IsLegal (call_erase_range first last) v = (first ≤ last) × (last ≤ length v.items)
  IsLegal (call_erase_matching x all_matching) v = 0 < volume v
  IsLegal call v = Unit

  unique-eq :
      (r : Result (Bool × View A))
      → (◌>>=◌ {T = Bool × Darray A} r (λ (found, w). ok (found, held w)) >>= λ (found, d'). ok d')
        ≡ holding (r >>= λ (found, w). ok w)
  unique-eq (ok p) = refl
  unique-eq (threw e) = refl
  unique-eq (dangling e) = refl
  unique-eq fault = refl

  counted-eq :
      (n : ℕ) (w : View A)
      → (◌>>=◌ {S = ℕ × Darray A} (within n (ok (n, held w))) (λ (count, d'). ok d'))
        ≡ holding (within n (ok w))
  counted-eq n w = elim (Bool-cases (ltb n (2 ^ 31))) [ inl t ↦ rw t | inr t ↦ rw t ]

  -- Each call does on the slots what it promises of the list of elements, exceptions included, if
  -- its iterators are the array's and the array has storage when `erase_matching` is called.
  pub perform_keeps_promise :
      (call : Call A) (v : View A)
      → IsLegal call v
      → perform call (held v) ≡ holding (promise call v)
  unfolding perform promise IsLegal
  perform_keeps_promise (call_push_back x) v h = push_back_refines cfg x v
  perform_keeps_promise (call_push_back_range y ys) v h = push_back_range_refines cfg y ys v
  perform_keeps_promise (call_push_back_unique x) v h =
      rw (push_back_unique_refines cfg matches x v)
        (unique-eq (Promise.push_back_unique cfg matches x v))
  perform_keeps_promise (call_insert pos x) v h = insert_refines cfg pos x v
  perform_keeps_promise (call_insert_range pos y ys) v h = insert_range_refines cfg pos y ys v
  perform_keeps_promise call_pop_back v h = pop_back_refines v
  perform_keeps_promise (call_erase pos) v h = erase_refines cfg pos v
  perform_keeps_promise (call_erase_range first last) v (h, k) =
      erase_range_refines cfg first last v h k
  perform_keeps_promise (call_erase_matching x all_matching) v h =
      rw (erase_matching_refines cfg matches x all_matching v h) (
        counted-eq (Promise.erase_matching matches x all_matching v).0
          (Promise.erase_matching matches x all_matching v).1)
  perform_keeps_promise (call_reserve n) v h = reserve_refines cfg n v
  perform_keeps_promise call_clear v h = clear_refines v
  perform_keeps_promise (call_assign ys) v h = assign_refines cfg ys v

  unfoldable pub run : List (Call A) → Darray A → Result (Darray A)
  run [] d = ok d
  run (call ∷ calls) d = resume d (perform call d) >>= λ d'. run calls d'

  unfoldable pub run_promise : List (Call A) → View A → Result (View A)
  run_promise [] v = ok v
  run_promise (call ∷ calls) v = resume v (promise call v) >>= λ w. run_promise calls w

  -- Every call is legal where the sequence gets to.
  unfoldable pub AreLegal : List (Call A) → View A → Type 0
  AreLegal [] v = Unit
  AreLegal (call ∷ calls) v = IsLegal call v × IsOkThen (AreLegal calls) (resume v (promise call v))

  run-step :
      (calls : List (Call A)) (v : View A) (r : Result (View A))
      → IsOkThen (AreLegal calls) (resume v r)
      → ((w : View A) → AreLegal calls w → run calls (held w) ≡ holding (run_promise calls w))
      → (resume (held v) (holding r) >>= λ d. run calls d)
        ≡ holding (resume v r >>= λ w. run_promise calls w)
  unfolding resume IsOkThen
  run-step calls v (ok w) later rest = rest w later
  run-step calls v (threw e) later rest = rest v later
  run-step calls v (dangling e) later rest = refl
  run-step calls v fault later rest = refl

  -- A sequence of calls does on the slots what it promises of the list of elements, its
  -- exceptions and counts beyond an `int` included and in each of the modes of moving and
  -- allocating, if the caller's iterators are the array's and `erase_matching` is called only on
  -- an array with storage. The calls put in elements from elsewhere, and ranges that are not
  -- empty.
  pub run_keeps_promise :
      (calls : List (Call A)) (v : View A)
      → AreLegal calls v
      → run calls (held v) ≡ holding (run_promise calls v)
  unfolding run run_promise AreLegal
  run_keeps_promise [] v h = refl
  run_keeps_promise (call ∷ calls) v (legal, later) =
      rw (perform_keeps_promise call v legal)
        (run-step calls v (promise call v) later (λ w legal'. run_keeps_promise calls w legal'))
