-- ===== src/CowDarray/Run.antt =====
-- include/jau/cow_darray.hpp: a sequence of calls of a container. For the caller it is a value that
-- the calls change, and every store that somebody may hold keeps its elements.
use jaulib.Prelude.{
  ◌^◌, ℕ, ◌+◌, ◌-◌, ◌≡◌, refl, sym, ap, ◌∙◌, Bool, true, false, List, [], ◌∷◌, ◌++◌, some, none,
  ltb, ◌==◌, if◌then◌else◌, length, take, Bool-cases, Option-cases, inl, inr, arith, set,
  get_elem?-set_self, length-append,
}
use jaulib.Darray.{Config, Result, ok, threw, dangling, fault, within, ◌>>=◌}
use jaulib.Darray.View.{View, view, volume, grown}
use jaulib.Darray.Run.{resume}
use jaulib.Darray.Promise
use jaulib.Darray.Ops.{outside}
use jaulib.CowDarray.{Cow, no_throw, push_back, push_back_unique, reserve, pop_back, clear}
use jaulib.Darray.Whole.Reads.{cloned}
use jaulib.CowDarray.Shelf.{Shelf, shown, showing, fetch, shelved, view_at, publish-held}
use jaulib.CowDarray.Effects
use jaulib.CowDarray.Refines.{
  pop_back_refines, reserve_refines, push_back_refines, push_back_unique_refines,
}
use jaulib.CowDarray.Sessions.{fetch-last}
use jaulib.CowDarray.Erasing.{
  promise_erase, promise_erased, first_match, erased, erase_matching_refines,
}
use jaulib.CowDarray.Iterators.{erase_matching, RoIterator, read_ro}
use jaulib.CowDarray.Isolation.{
  IsPrefix, Keeps, Keeps-refl, Keeps-trans, Keeps-set, Keeps-append, fetch-some, some-fetch,
  get_elem?-more, get_elem?-inside, ok-injective, is_ok, not_ok, read_ro-Keeps,
}

-- Calls that change a container, with arguments from elsewhere. `push_back` of a range is not one of
-- them: it changes stores that snapshots hold.
pub data Call {ℓ} (A : Type ℓ) : Type ℓ where
  call_push_back : A → Call A
  call_push_back_unique : A → Call A
  call_reserve : ℕ → Call A
  call_pop_back : Call A
  call_clear : Call A
  call_erase_matching : A → Bool → Call A

module _ {ℓ} {A : Type ℓ} (cfg : Config) (matches : A → A → Bool) where
  unfoldable pub perform : Call A → Cow A → Result (Cow A)
  perform (call_push_back x) c = push_back cfg (outside x) c
  perform (call_push_back_unique x) c = push_back_unique cfg matches x c >>= λ p. ok p.1
  perform (call_reserve n) c = reserve cfg n c
  perform call_pop_back c = pop_back cfg c
  perform call_clear c = ok (clear c)
  perform (call_erase_matching x all_matching) c =
      erase_matching cfg matches x all_matching c >>= λ p. ok p.1

  unfoldable pub effect : Call A → Shelf A → Result (Shelf A)
  effect (call_push_back x) s = Effects.push_back cfg x s
  effect (call_push_back_unique x) s = Effects.push_back_unique cfg matches x s >>= λ p. ok p.1
  effect (call_reserve n) s = Effects.reserve cfg n s
  effect call_pop_back s = Effects.pop_back cfg s
  effect call_clear s = ok (shelved s.views (view [] 0))
  effect (call_erase_matching x all_matching) s =
      promise_erase cfg matches x all_matching s >>= λ p. ok p.1

  second-eq {κ} :
      {S : Type κ} (r : Result (S × Shelf A))
      → (◌>>=◌ {T = S × Cow A} r (λ p. ok (p.0, shown p.1)) >>= λ p. ok p.1)
        ≡ showing (r >>= λ p. ok p.1)
  second-eq (ok p) = refl
  second-eq (threw e) = refl
  second-eq (dangling e) = refl
  second-eq fault = refl

  pub perform_refines :
      (call : Call A) (s : Shelf A) (v : View A)
      → fetch s.views s.store_ref ≡ ok v
      → perform call (shown s) ≡ showing (effect call s)
  unfolding perform effect clear
  perform_refines (call_push_back x) s v h = push_back_refines cfg x s
  perform_refines (call_push_back_unique x) s v h =
      rw (push_back_unique_refines cfg matches x s)
        (second-eq (Effects.push_back_unique cfg matches x s))
  perform_refines (call_reserve n) s v h = reserve_refines cfg n s
  perform_refines call_pop_back s v h = pop_back_refines cfg s
  perform_refines call_clear s v h = ap ok (publish-held (view [] 0) s)
  perform_refines (call_erase_matching x all_matching) s v h =
      rw (erase_matching_refines cfg matches x all_matching s v h)
        (second-eq (promise_erase cfg matches x all_matching s))

  -- What a call does to the container's own elements and room, with no other store in sight.
  unfoldable pub alone_push_back : A → View A → Result (View A)
  alone_push_back x v =
      if v.room == 0
      then (cloned cfg (grown cfg v) v.items >>= λ w. ok (view (w.items ++ (x ∷ [])) (w.room - 1)))
      else ok (view (v.items ++ (x ∷ [])) (v.room - 1))

  unfoldable pub alone_erased : A → Bool → View A → View A → Result (View A)
  alone_erased x true v w =
      let count = Promise.hits matches x w.items in
      within count
        (ok (if ltb 0 count then view (Promise.kept matches x w.items) (w.room + count) else v))
  alone_erased x false v w = elim (first_match cfg matches x w.items) [
    | some i ↦ ok (erased cfg matches x i w)
    | none ↦ ok v
  ]

  unfoldable pub alone : Call A → View A → Result (View A)
  alone (call_push_back x) v = alone_push_back x v
  alone (call_push_back_unique x) v =
      if ltb 0 (Promise.hits matches x v.items) then ok v else alone_push_back x v
  alone (call_reserve n) v = if ltb (volume v) n then cloned cfg n v.items else ok v
  alone call_pop_back v =
      if length v.items == 0
      then ok v
      else no_throw (cloned cfg (volume v) (take (length v.items - 1) v.items))
  alone call_clear v = ok (view [] 0)
  alone (call_erase_matching x all_matching) v =
      cloned cfg (length v.items) v.items >>= λ w. alone_erased x all_matching v w

  -- Each store is kept, and the container has the elements that it would have alone, or the same
  -- exception left it.
  unfoldable pub Agrees : Shelf A → Result (Shelf A) → Result (View A) → Type ℓ
  Agrees s (ok t) r =
      (w : View A) × (r ≡ ok w) × Keeps s.views t.views × (fetch t.views t.store_ref ≡ ok w)
  Agrees s (threw e) r = r ≡ threw e
  Agrees s (dangling e) r = r ≡ dangling e
  Agrees s fault r = r ≡ fault

  Agrees-shelved :
      (s : Shelf A) (r : Result (View A)) (f : View A → View A)
      → Agrees s (r >>= λ w. ok (shelved s.views (f w))) (r >>= λ w. ok (f w))
  unfolding Agrees
  Agrees-shelved s (ok w) f = (f w, refl, Keeps-append s.views (f w), fetch-last s.views (f w))
  Agrees-shelved s (threw e) f = refl
  Agrees-shelved s (dangling e) f = refl
  Agrees-shelved s fault f = refl

  Agrees-replaced :
      (s : Shelf A) (r : Result (View A)) → Agrees s (r >>= λ w. ok (shelved s.views w)) r
  unfolding Agrees
  Agrees-replaced s (ok w) = (w, refl, Keeps-append s.views w, fetch-last s.views w)
  Agrees-replaced s (threw e) = refl
  Agrees-replaced s (dangling e) = refl
  Agrees-replaced s fault = refl

  Agrees-same :
      (s : Shelf A) (v : View A) → fetch s.views s.store_ref ≡ ok v → Agrees s (ok s) (ok v)
  unfolding Agrees
  Agrees-same s v h = (v, refl, Keeps-refl s.views, h)

  -- A copy that is thrown away.
  Agrees-wasted :
      (s : Shelf A) (v u : View A)
      → fetch s.views s.store_ref ≡ ok v
      → Agrees s (ok (record s { views = s.views ++ (u ∷ []) })) (ok v)
  unfolding Agrees
  Agrees-wasted s v u h =
      let (i, r, e) = fetch-some s.views s.store_ref v h in
      let there = some-fetch (s.views ++ (u ∷ [])) i v (get_elem?-more s.views (u ∷ []) i v e) in
      (v, refl, Keeps-append s.views u, ap (fetch (s.views ++ (u ∷ []))) r ∙ there)

  -- An element behind the others, in the store itself.
  Agrees-appended :
      (s : Shelf A) (v : View A) (x : A)
      → (v.room == 0) ≡ false
      → fetch s.views s.store_ref ≡ ok v
      → (let w = view (v.items ++ (x ∷ [])) (v.room - 1) in
          Agrees s (ok (record s { views = view_at s.store_ref w s.views })) (ok w))
  unfolding Agrees view_at IsPrefix
  Agrees-appended s v x t h =
      let (i, r, e) = fetch-some s.views s.store_ref v h in
      let w = view (v.items ++ (x ∷ [])) (v.room - 1) in
      let len = length-append v.items (x ∷ []) in
      let room : volume w ≡ volume v = ground (arith, len) in
      let inside = get_elem?-inside s.views i v e in
      let there = some-fetch (set s.views i w) i w (get_elem?-set_self s.views i w inside) in
      rw (view_at, r) (w, refl, Keeps-set s.views i v w e ((x ∷ []), refl, room), there)

  push_back-Agrees :
      (x : A) (s : Shelf A) (v : View A)
      → fetch s.views s.store_ref ≡ ok v
      → Agrees s (Effects.push_back cfg x s) (alone_push_back x v)
  unfolding Effects.push_back alone_push_back
  push_back-Agrees x s v h = elim (Bool-cases (v.room == 0)) [
    | inl t ↦ rw (h, t) (Agrees-shelved s (cloned cfg (grown cfg v) v.items) _)
    | inr t ↦ rw (h, t) (Agrees-appended s v x t h)
  ]

  unique-Agrees :
      (s : Shelf A) (r : Result (Shelf A)) (q : Result (View A))
      → Agrees s r q
      → Agrees s (◌>>=◌ {S = Bool × Shelf A} (r >>= λ t. ok (true, t)) (λ p. ok p.1)) q
  unfolding Agrees
  unique-Agrees s (ok t) q h = h
  unique-Agrees s (threw e) q h = h
  unique-Agrees s (dangling e) q h = h
  unique-Agrees s fault q h = h

  no_throw-Agrees :
      (s : Shelf A) (r : Result (View A))
      → Agrees s (no_throw (r >>= λ w. ok (shelved s.views w))) (no_throw r)
  unfolding Agrees no_throw
  no_throw-Agrees s (ok w) = (w, refl, Keeps-append s.views w, fetch-last s.views w)
  no_throw-Agrees s (threw e) = refl
  no_throw-Agrees s (dangling e) = refl
  no_throw-Agrees s fault = refl

  erased-Agrees :
      (x : A) (all_matching : Bool) (s : Shelf A) (v : View A) (r : Result (View A))
      → fetch s.views s.store_ref ≡ ok v
      → Agrees s
          (◌>>=◌ {S = ℕ × Shelf A}
            (r >>= λ w. promise_erased cfg matches x all_matching s w)
            (λ p. ok p.1))
          (r >>= λ w. alone_erased x all_matching v w)
  unfolding promise_erased alone_erased Agrees
  erased-Agrees x true s v (ok w) h =
      let count = Promise.hits matches x w.items in
      let rest = view (Promise.kept matches x w.items) (w.room + count) in
      elim (Bool-cases (ltb count (2 ^ 31))) [
        | inl u ↦ elim (Bool-cases (ltb 0 count)) [
          | inl t ↦ rw (u, t) (Agrees-replaced s (ok rest))
          | inr t ↦ rw (u, t) (Agrees-wasted s v rest h)
        ]
        | inr u ↦ rw u refl
      ]
  erased-Agrees x false s v (ok w) h = elim (Option-cases (first_match cfg matches x w.items)) [
    | inl e ↦ rw (e, promise_erased, alone_erased) (Agrees-wasted s v w h)
    | inr (i, e) ↦
        rw (e, promise_erased, alone_erased) (Agrees-replaced s (ok (erased cfg matches x i w)))
  ]
  erased-Agrees x all_matching s v (threw e) h = refl
  erased-Agrees x all_matching s v (dangling e) h = refl
  erased-Agrees x all_matching s v fault h = refl

  pub effect-Agrees :
      (call : Call A) (s : Shelf A) (v : View A)
      → fetch s.views s.store_ref ≡ ok v
      → Agrees s (effect call s) (alone call v)
  unfolding effect alone Effects.push_back_unique Agrees Effects.reserve Effects.pop_back
      promise_erase
  effect-Agrees (call_push_back x) s v h = push_back-Agrees x s v h
  effect-Agrees (call_push_back_unique x) s v h =
      elim (Bool-cases (ltb 0 (Promise.hits matches x v.items))) [
        | inl t ↦ rw (Effects.push_back_unique, h, t) (Agrees-same s v h)
        | inr t ↦
            rw (Effects.push_back_unique, h, t)
              (unique-Agrees s (Effects.push_back cfg x s) (alone_push_back x v)
                (push_back-Agrees x s v h))
      ]
  effect-Agrees (call_reserve n) s v h = elim (Bool-cases (ltb (volume v) n)) [
    | inl t ↦ rw (Effects.reserve, h, t) (Agrees-replaced s (cloned cfg n v.items))
    | inr t ↦ rw (Effects.reserve, h, t) (Agrees-same s v h)
  ]
  effect-Agrees call_pop_back s v h = elim (Bool-cases (length v.items == 0)) [
    | inl t ↦ rw (Effects.pop_back, h, t) (Agrees-same s v h)
    | inr t ↦
        rw (Effects.pop_back, h, t)
          (no_throw-Agrees s (cloned cfg _ (take (length v.items - 1) v.items)))
  ]
  effect-Agrees call_clear s v h = Agrees-replaced s (ok (view [] 0))
  effect-Agrees (call_erase_matching x all_matching) s v h =
      rw (promise_erase, h)
        (erased-Agrees x all_matching s v (cloned cfg (length v.items) v.items) h)

  unfoldable pub run : List (Call A) → Cow A → Result (Cow A)
  run [] c = ok c
  run (call ∷ calls) c = resume c (perform call c) >>= λ d. run calls d

  unfoldable pub run_alone : List (Call A) → View A → Result (View A)
  run_alone [] v = ok v
  run_alone (call ∷ calls) v = resume v (alone call v) >>= λ w. run_alone calls w

  -- A result of the calls, next to what they do to the elements alone.
  abbrev Runs : List (Call A) → Shelf A → View A → Type ℓ
  Runs calls s v =
      (r : Result (Shelf A)) × (run calls (shown s) ≡ showing r) × Agrees s r (run_alone calls v)

  Agrees-after :
      (s t : Shelf A) (r : Result (Shelf A)) (q : Result (View A))
      → Keeps s.views t.views
      → Agrees t r q
      → Agrees s r q
  unfolding Agrees
  Agrees-after s t (ok u) q h (w, e, k, f) = (w, e, Keeps-trans _ _ _ h k, f)
  Agrees-after s t (threw e) q h k = k
  Agrees-after s t (dangling e) q h k = k
  Agrees-after s t fault q h k = k

  run_step :
      (calls : List (Call A)) (s : Shelf A) (v : View A) (r : Result (Shelf A))
      (q : Result (View A))
      → fetch s.views s.store_ref ≡ ok v
      → Agrees s r q
      → ((t : Shelf A) (w : View A) → fetch t.views t.store_ref ≡ ok w → Runs calls t w)
      → (x : Result (Shelf A)) × ((resume (shown s) (showing r) >>= λ c. run calls c) ≡ showing x)
        × Agrees s x (resume v q >>= λ w. run_alone calls w)
  unfolding Agrees resume
  run_step calls s v (ok t) q h (w, e, keeps, f) rest =
      let (x, p, agrees) = rest t w f in (x, p, rw e (Agrees-after s t x _ keeps agrees))
  run_step calls s v (threw e) q h k rest = let (x, p, agrees) = rest s v h in (x, p, rw k agrees)
  run_step calls s v (dangling e) q h k rest = (dangling e, refl, rw k refl)
  run_step calls s v fault q h k rest = (fault, refl, rw k refl)

  -- A sequence of the calls `push_back` of one element from elsewhere, `push_back_unique`,
  -- `reserve`, `pop_back`, `clear` and `erase_matching`, and of no other, of a container that has
  -- a store, resumed after exceptions, leaves it with the elements that a value of its own would
  -- have, and leaves every store that a snapshot may hold at its place and of the same capacity,
  -- with its elements and perhaps more behind them. Where a value of its own meets undefined
  -- behaviour, as in a count beyond an `int`, so does the container.
  pub run_isolated :
      (calls : List (Call A)) (s : Shelf A) (v : View A)
      → fetch s.views s.store_ref ≡ ok v
      → (r : Result (Shelf A)) × (run calls (shown s) ≡ showing r) × Agrees s r (run_alone calls v)
  unfolding run run_alone Agrees
  run_isolated [] s v h = (ok s, refl, (v, refl, Keeps-refl s.views, h))
  run_isolated (call ∷ calls) s v h =
      let (x, p, agrees) =
        run_step calls s v (effect call s) (alone call v) h (effect-Agrees call s v h)
          (λ t w f. run_isolated calls t w f) in
      (x, rw (perform_refines call s v h) p, agrees)

  read_after :
      (s : Shelf A) (c : Cow A) (r : Result (Shelf A)) (q : Result (View A)) (it : RoIterator)
      (x : A)
      → Agrees s r q
      → showing r ≡ ok c
      → read_ro (shown s).stores it ≡ ok x
      → read_ro c.stores it ≡ ok x
  unfolding Agrees is_ok
  read_after s c (ok t) q it x (w, e, keeps, f) h seen =
      ap (λ d. read_ro d.stores it) (sym (ok-injective h))
      ∙ read_ro-Keeps s.views t.views it x keeps seen
  read_after s c (threw e) q it x k h seen = absurd (not_ok refl h)
  read_after s c (dangling e) q it x k h seen = absurd (not_ok refl h)
  read_after s c fault q it x k h seen = absurd (not_ok refl h)

  -- An immutable iterator reads the same element after the calls as before them, if they come to
  -- an end, the container had a store, and the calls are `push_back` of one element from
  -- elsewhere, `push_back_unique`, `reserve`, `pop_back`, `clear` and `erase_matching`;
  -- `push_back` of a range is not among them.
  pub read_ro-run :
      (calls : List (Call A)) (s : Shelf A) (v : View A) (c : Cow A) (it : RoIterator) (x : A)
      → fetch s.views s.store_ref ≡ ok v
      → run calls (shown s) ≡ ok c
      → read_ro (shown s).stores it ≡ ok x
      → read_ro c.stores it ≡ ok x
  read_ro-run calls s v c it x h e seen =
      let (r, p, agrees) = run_isolated calls s v h in
      read_after s c r (run_alone calls v) it x agrees (sym p ∙ e) seen
