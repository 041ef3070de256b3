-- ===== src/Ringbuffer/Simulation.antt =====
-- Two systems that wait alike: if their tests and the acts of the other side agree along a relation,
-- so do the outcomes of the waits of include/jau/ringbuffer.hpp.
use jaulib.Prelude.{ℕ, ◌≡◌, sym, ◌∙◌, Bool, false, ◌&&◌, List, [], ◌∷◌, Bool-cases, inl, inr, ap}
use jaulib.Ringbuffer.Wait.{
  Mode, nonblocking, forever, timed, WakeUp, Waited, ready, failed, waiting, acts_on, wait_loop,
  await, is_timeout,
}
use jaulib.Ringbuffer.Ops.{Reply, returned, parked, settle, count_of}

-- The replies are equal, and the states after them are related.
pub data Agree {ℓ κ μ ν} {S : Type ℓ} {T : Type κ} {V : Type μ} (Rel : S → T → Type ν)
    : Reply V S → Reply V T → Type (ℓ ⊔ κ ⊔ μ ⊔ ν) where
  both_return :
      {v w : V} {s : S} {t : T} → v ≡ w → Rel s t → Agree Rel (returned v s) (returned w t)
  both_park : {s : S} {t : T} → Rel s t → Agree Rel (parked s) (parked t)

-- The waits end alike; after a success the test is false.
pub data EndAlike {ℓ κ ν} {S : Type ℓ} {T : Type κ} (Rel : S → T → Type ν) (blocked : S → Bool)
    : Waited S → Waited T → Type (ℓ ⊔ κ ⊔ ν) where
  both_ready :
      {s : S} {t : T} → Rel s t → blocked s ≡ false → EndAlike Rel blocked (ready s) (ready t)
  both_failed : {s : S} {t : T} → Rel s t → EndAlike Rel blocked (failed s) (failed t)
  both_waiting : {s : S} {t : T} → Rel s t → EndAlike Rel blocked (waiting s) (waiting t)

module _ {ℓ κ ν α} {S : Type ℓ} {T : Type κ} {Act : Type α} (Rel : S → T → Type ν)
    (act : Act → S → S) (act' : Act → T → T) (blocked : S → Bool) (blocked' : T → Bool)
    (acts_alike : (a : Act) (s : S) (t : T) → Rel s t → Rel (act a s) (act' a t))
    (tests_alike : (s : S) (t : T) → Rel s t → blocked s ≡ blocked' t) where
  acts_on-Rel :
      (acts : List Act) (s : S) (t : T)
      → Rel s t
      → Rel (acts_on act blocked acts s) (acts_on act' blocked' acts t)
  unfolding acts_on
  acts_on-Rel [] s t h = h
  acts_on-Rel (a ∷ acts) s t h = acts_on-Rel acts (act a s) (act' a t) (acts_alike a s t h)

  pub wait_loop-EndAlike :
      (mode : Mode) (wakes : List (WakeUp Act)) (s : S) (t : T)
      → Rel s t
      → EndAlike Rel blocked
          (wait_loop act blocked mode wakes s)
          (wait_loop act' blocked' mode wakes t)
  unfolding wait_loop
  wait_loop-EndAlike mode [] s t h = elim (Bool-cases (blocked s)) [
    | inl e ↦ rw (e, sym (tests_alike s t h) ∙ e) (both_waiting h)
    | inr e ↦ rw (e, sym (tests_alike s t h) ∙ e) (both_ready h e)
  ]
  wait_loop-EndAlike mode (w ∷ wakes) s t h =
      let s' = acts_on act blocked w.acts s in
      let t' = acts_on act' blocked' w.acts t in
      let h' = acts_on-Rel w.acts s t h in
      let rest = wait_loop-EndAlike mode wakes s' t' h' in
      elim (Bool-cases (blocked s)) [
        | inl e ↦ elim (Bool-cases (is_timeout mode w.status && blocked s')) [
          | inl over ↦
              let over' =
                ap (λ b. is_timeout mode w.status && b) (sym (tests_alike s' t' h')) ∙ over in
              rw (e, sym (tests_alike s t h) ∙ e, over, over') (both_failed h')
          | inr on ↦
              let on' = ap (λ b. is_timeout mode w.status && b) (sym (tests_alike s' t' h')) ∙ on in
              rw (e, sym (tests_alike s t h) ∙ e, on, on') rest
        ]
        | inr e ↦ rw (e, sym (tests_alike s t h) ∙ e) (both_ready h e)
      ]

  pub await-EndAlike :
      (mode : Mode) (wakes : List (WakeUp Act)) (s : S) (t : T)
      → Rel s t
      → EndAlike Rel blocked (await act blocked mode wakes s) (await act' blocked' mode wakes t)
  unfolding await
  await-EndAlike nonblocking wakes s t h = elim (Bool-cases (blocked s)) [
    | inl e ↦ rw (e, sym (tests_alike s t h) ∙ e) (both_failed h)
    | inr e ↦ rw (e, sym (tests_alike s t h) ∙ e) (both_ready h e)
  ]
  await-EndAlike forever wakes s t h = wait_loop-EndAlike forever wakes s t h
  await-EndAlike timed wakes s t h = wait_loop-EndAlike timed wakes s t h

-- A wait whose test is false is over.
pub await-ready {ℓ κ} :
    {S : Type ℓ} {Act : Type κ} (act : Act → S → S) (blocked : S → Bool) (mode : Mode)
    (wakes : List (WakeUp Act)) (s : S)
    → blocked s ≡ false
    → await act blocked mode wakes s ≡ ready s
unfolding await wait_loop
await-ready act blocked nonblocking wakes s e = rw e
await-ready act blocked forever [] s e = rw e
await-ready act blocked forever (w ∷ wakes) s e = rw e
await-ready act blocked timed [] s e = rw e
await-ready act blocked timed (w ∷ wakes) s e = rw e

module _ {ℓ κ ν} {S : Type ℓ} {T : Type κ} {Rel : S → T → Type ν} {blocked : S → Bool} where
  -- What follows the waits agrees if it agrees from related states where the test is false.
  pub settle-Agree {μ} :
      {V : Type μ} {v w : V} (go : S → V × S) (go' : T → V × T)
      → v ≡ w
      → ((s : S) (t : T)
          → Rel s t
          → blocked s ≡ false
          → ((go s).0 ≡ (go' t).0) × Rel (go s).1 (go' t).1)
      → {m : Waited S} {n : Waited T} → EndAlike Rel blocked m n
      → Agree Rel (settle v go m) (settle w go' n)
  unfolding settle
  settle-Agree go go' e next (both_ready {s} {t} h f) =
      let both = next s t h f in both_return both.0 both.1
  settle-Agree go go' e next (both_failed h) = both_return e h
  settle-Agree go go' e next (both_waiting h) = both_park h

  pub count_of-Agree :
      (size : S → ℕ) (size' : T → ℕ)
      → ((s : S) (t : T) → Rel s t → size s ≡ size' t)
      → {m : Waited S} {n : Waited T} → EndAlike Rel blocked m n
      → Agree Rel (count_of size m) (count_of size' n)
  unfolding count_of
  count_of-Agree size size' e (both_ready {s} {t} h f) = both_return (e s t h) h
  count_of-Agree size size' e (both_failed {s} {t} h) = both_return (e s t h) h
  count_of-Agree size size' e (both_waiting h) = both_park h
