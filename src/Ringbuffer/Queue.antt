-- ===== src/Ringbuffer/Queue.antt =====
-- The specification of include/jau/ringbuffer.hpp: a FIFO of at most `cap` elements, oldest first,
-- with the calls that a client makes of either.
use jaulib.Prelude.{
  ℕ, ◌-◌, Bool, true, false, List, [], ◌∷◌, ◌++◌, ltb, leb, ◌==◌, if◌then◌else◌, length, take, drop,
  get_or, min, ◌||◌,
}
use jaulib.Ringbuffer.Wait.{Mode, WakeUp, wait_loop, await}
use jaulib.Ringbuffer.Ops.{Reply, returned, settle, count_of}

module _ {ℓ} {A : Type ℓ} (cap : ℕ) (nullelem : A) where
  unfoldable pub free : List A → ℕ
  free q = cap - length q

  unfoldable pub put_act : List A → List A → List A
  put_act elems q = if leb (length elems) (free q) then q ++ elems else q

  unfoldable pub get_act : ℕ → List A → List A
  get_act count q = if leb count (length q) then drop count q else q

  module _ (mode : Mode) where
    unfoldable pub put : List (WakeUp ℕ) → A → List A → Reply Bool (List A)
    put wakes e q =
        settle false (λ q. (true, q ++ e ∷ [])) (await get_act (λ q. free q == 0) mode wakes q)

    unfoldable pub put_range : List (WakeUp ℕ) → List A → List A → Reply Bool (List A)
    put_range wakes elems q =
        if ltb cap (length elems)
        then returned false q
        else settle false (λ q. (true, q ++ elems))
            (await get_act (λ q. ltb (free q) (length elems)) mode wakes q)

    unfoldable pub peek : List (WakeUp (List A)) → List A → Reply (Bool × A) (List A)
    peek wakes q =
        settle (false, nullelem) (λ q. ((true, get_or q 0 nullelem), q))
          (await put_act (λ q. length q == 0) mode wakes q)

    unfoldable pub get : List (WakeUp (List A)) → List A → Reply (Bool × A) (List A)
    get wakes q =
        settle (false, nullelem) (λ q. ((true, get_or q 0 nullelem), drop 1 q))
          (await put_act (λ q. length q == 0) mode wakes q)

    -- At least `min_count`, at most `dest_len` elements.
    unfoldable pub get_range : List (WakeUp (List A)) → ℕ → ℕ → List A → Reply (List A) (List A)
    get_range wakes dest_len min_count_ q =
        let min_count = min dest_len min_count_ in
        if ltb cap min_count || min_count == 0
        then returned [] q
        else settle [] (λ q. (take dest_len q, drop dest_len q))
            (await put_act (λ q. ltb (length q) min_count) mode wakes q)

    unfoldable pub drop_elems : List (WakeUp (List A)) → ℕ → List A → Reply Bool (List A)
    drop_elems wakes count q =
        if ltb cap count
        then returned false q
        else settle false (λ q. (true, drop count q))
            (await put_act (λ q. ltb (length q) count) mode wakes q)

    unfoldable pub wait_for_elements : List (WakeUp (List A)) → ℕ → List A → Reply ℕ (List A)
    wait_for_elements wakes min_count q =
        count_of length (wait_loop put_act (λ q. ltb (length q) min_count) mode wakes q)

    unfoldable pub wait_for_free_slots : List (WakeUp ℕ) → ℕ → List A → Reply ℕ (List A)
    wait_for_free_slots wakes min_count q =
        count_of free (wait_loop get_act (λ q. ltb (free q) min_count) mode wakes q)
