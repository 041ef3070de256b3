-- ===== src/Ringbuffer/Refine/Run.antt =====
-- A client of include/jau/ringbuffer.hpp, as a list of calls: it cannot tell the buffer from the
-- bounded queue.
use jaulib.Prelude.{ℕ, ◌≡◌, refl, ap, ap₂, Bool, List, [], ◌∷◌, Option, none, some}
use jaulib.Ringbuffer.{Ringbuffer}
use jaulib.Ringbuffer.Wait.{Mode, WakeUp}
use jaulib.Ringbuffer.Ops
use jaulib.Ringbuffer.Ops.{Reply, returned, parked}
use jaulib.Ringbuffer.Simulation.{Agree, both_return, both_park}
use jaulib.Ringbuffer.Queue
use jaulib.Ringbuffer.Refine.Acts.{Holds}
use jaulib.Ringbuffer.Refine.Calls.{
  put_refines, put_range_refines, peek_refines, get_refines, get_range_refines, drop_refines,
  wait_for_elements_refines, wait_for_free_slots_refines,
}

-- The calls, without the mode and the wake-ups.
pub data Call {ℓ} (A : Type ℓ) : Type ℓ where
  put : Mode → List (WakeUp ℕ) → A → Call A
  put_range : Mode → List (WakeUp ℕ) → List A → Call A
  peek : Mode → List (WakeUp (List A)) → Call A
  get : Mode → List (WakeUp (List A)) → Call A
  get_range : Mode → List (WakeUp (List A)) → ℕ → ℕ → Call A
  drop : Mode → List (WakeUp (List A)) → ℕ → Call A
  wait_for_elements : Mode → List (WakeUp (List A)) → ℕ → Call A
  wait_for_free_slots : Mode → List (WakeUp ℕ) → ℕ → Call A

-- What a call returns.
pub data Answer {ℓ} (A : Type ℓ) : Type ℓ where
  success : Bool → Answer A
  value : Bool × A → Answer A
  elems : List A → Answer A
  count : ℕ → Answer A

abbrev pub answer {ℓ κ μ} : {R : Type ℓ} {S : Type κ} {T : Type μ} → (R → T) → Reply R S → Reply T S
answer f (returned v s) = returned (f v) s
answer f (parked s) = parked s

module _ {ℓ} {A : Type ℓ} where
  abbrev follow {κ} :
      {S : Type κ} → (S → List (Option (Answer A))) → Reply (Answer A) S → List (Option (Answer A))
  follow rest (returned v s) = some v ∷ rest s
  follow rest (parked s) = none ∷ []

  -- The answers to the calls, up to one that waits still: that is the `none`.
  unfoldable pub run {κ} :
      {S : Type κ}
      → (Call A → S → Reply (Answer A) S)
      → List (Call A)
      → S
      → List (Option (Answer A))
  run step [] s = []
  run step (c ∷ cs) s = follow (run step cs) (step c s)

  unfoldable pub perform : Call A → Ringbuffer A → Reply (Answer A) (Ringbuffer A)
  perform (put m w e) r = answer success (Ops.put m w e r)
  perform (put_range m w xs) r = answer success (Ops.put_range m w xs r)
  perform (peek m w) r = answer value (Ops.peek m w r)
  perform (get m w) r = answer value (Ops.get m w r)
  perform (get_range m w len min) r = answer elems (Ops.get_range m w len min r)
  perform (drop m w n) r = answer success (Ops.drop_elems m w n r)
  perform (wait_for_elements m w n) r = answer count (Ops.wait_for_elements m w n r)
  perform (wait_for_free_slots m w n) r = answer count (Ops.wait_for_free_slots m w n r)

  module _ (cap : ℕ) (nullelem : A) where
    unfoldable pub perform_queue : Call A → List A → Reply (Answer A) (List A)
    perform_queue (put m w e) q = answer success (Queue.put cap nullelem m w e q)
    perform_queue (put_range m w xs) q = answer success (Queue.put_range cap nullelem m w xs q)
    perform_queue (peek m w) q = answer value (Queue.peek cap nullelem m w q)
    perform_queue (get m w) q = answer value (Queue.get cap nullelem m w q)
    perform_queue (get_range m w len min) q =
        answer elems (Queue.get_range cap nullelem m w len min q)
    perform_queue (drop m w n) q = answer success (Queue.drop_elems cap nullelem m w n q)
    perform_queue (wait_for_elements m w n) q =
        answer count (Queue.wait_for_elements cap nullelem m w n q)
    perform_queue (wait_for_free_slots m w n) q =
        answer count (Queue.wait_for_free_slots cap nullelem m w n q)

    answer-Agree {μ} :
        {V : Type μ} (f : V → Answer A) {x : Reply V (Ringbuffer A)} {y : Reply V (List A)}
        → Agree (Holds cap nullelem) x y
        → Agree (Holds cap nullelem) (answer f x) (answer f y)
    answer-Agree f (both_return e h) = both_return (ap f e) h
    answer-Agree f (both_park h) = both_park h

    follow-Agree :
        (f : Ringbuffer A → List (Option (Answer A))) (g : List A → List (Option (Answer A)))
        → ((s : Ringbuffer A) (t : List A) → Holds cap nullelem s t → f s ≡ g t)
        → {x : Reply (Answer A) (Ringbuffer A)} {y : Reply (Answer A) (List A)}
        → Agree (Holds cap nullelem) x y
        → follow f x ≡ follow g y
    follow-Agree f g same (both_return {s} {t} e h) = ap₂ (λ v l. some v ∷ l) e (same s t h)
    follow-Agree f g same (both_park h) = refl

    -- One call gives the answer that the bounded FIFO queue gives and leaves the buffer holding
    -- the queue that it leaves, if the buffer held the queue before.
    pub perform_refines :
        (c : Call A) (r : Ringbuffer A) (q : List A)
        → Holds cap nullelem r q
        → Agree (Holds cap nullelem) (perform c r) (perform_queue c q)
    unfolding perform perform_queue
    perform_refines (put m w e) r q h = answer-Agree success (put_refines cap nullelem m w e r q h)
    perform_refines (put_range m w xs) r q h =
        answer-Agree success (put_range_refines cap nullelem m w xs r q h)
    perform_refines (peek m w) r q h = answer-Agree value (peek_refines cap nullelem m w r q h)
    perform_refines (get m w) r q h = answer-Agree value (get_refines cap nullelem m w r q h)
    perform_refines (get_range m w len min) r q h =
        answer-Agree elems (get_range_refines cap nullelem m w len min r q h)
    perform_refines (drop m w n) r q h =
        answer-Agree success (drop_refines cap nullelem m w n r q h)
    perform_refines (wait_for_elements m w n) r q h =
        answer-Agree count (wait_for_elements_refines cap nullelem m w n r q h)
    perform_refines (wait_for_free_slots m w n) r q h =
        answer-Agree count (wait_for_free_slots_refines cap nullelem m w n r q h)

    -- A sequence of put, get, peek, drop and wait calls, blocking or not, with any acts of the
    -- other side at their wake-ups, gives the answers that the bounded FIFO queue gives, if the
    -- buffer holds that queue at the start.
    pub run_refines :
        (cs : List (Call A)) (r : Ringbuffer A) (q : List A)
        → Holds cap nullelem r q
        → run perform cs r ≡ run perform_queue cs q
    unfolding run
    run_refines [] r q h = refl
    run_refines (c ∷ cs) r q h =
        follow-Agree (run perform cs) (run perform_queue cs) (λ s t k. run_refines cs s t k)
          (perform_refines c r q h)
