-- ===== src/Ringbuffer/Wait.antt =====
-- The waiting loops of the blocking operations in include/jau/ringbuffer.hpp. A thread that waits
-- holds the mutex of its own side, so only the other side acts meanwhile: what it does before each
-- wake-up is an input of the model.
use jaulib.Prelude.{Bool, true, false, List, [], ◌∷◌, ◌&&◌, if◌then◌else◌}

-- `std::cv_status`
pub data CvStatus : Type 0 where
  no_timeout timeout : CvStatus

-- The arguments `blocking` and `timeoutMS`; `forever` is the blocking call with `timeoutMS` 0.
pub data Mode : Type 0 where
  nonblocking forever timed : Mode

abbrev pub is_timeout : Mode → CvStatus → Bool
is_timeout timed timeout = true
is_timeout _ _ = false

-- A return of `cvWrite.wait` or `cvRead.wait_until`, with the acts of the other side before it.
pub record WakeUp {ℓ} (Act : Type ℓ) : Type ℓ where
  pub status : CvStatus
  pub acts : List Act

-- How a wait ends: it goes on, it gives up, or the wake-ups are used up and it waits still.
pub data Waited {ℓ} (S : Type ℓ) : Type ℓ where
  ready : S → Waited S
  failed : S → Waited S
  waiting : S → Waited S

module _ {ℓ κ} {S : Type ℓ} {Act : Type κ} (act : Act → S → S) (blocked : S → Bool) where
  unfoldable pub acts_on : List Act → S → S
  acts_on [] s = s
  acts_on (a ∷ acts) s = acts_on acts (act a s)

  -- `while( blocked ) { wait; if( timeout && blocked ) return; }`
  unfoldable pub wait_loop : Mode → List (WakeUp Act) → S → Waited S
  wait_loop mode [] s = if blocked s then waiting s else ready s
  wait_loop mode (w ∷ wakes) s =
      let s' = acts_on w.acts s in
      let rest = wait_loop mode wakes s' in
      if blocked s
      then (if is_timeout mode w.status && blocked s' then failed s' else rest)
      else ready s

  -- The test before the loop, which a call that does not block leaves with a failure.
  unfoldable pub await : Mode → List (WakeUp Act) → S → Waited S
  await nonblocking wakes s = if blocked s then failed s else ready s
  await mode wakes s = wait_loop mode wakes s
