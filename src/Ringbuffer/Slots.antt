-- ===== src/Ringbuffer/Slots.antt =====
-- The slots round the array of include/jau/ringbuffer.hpp: the elements that stand behind a
-- position, and what writing the next slots does to them.
use jaulib.Prelude.{
  ℕ, zero, suc, ◌+◌, ◌-◌, ◌≤◌, ◌<◌, ◌≡◌, refl, ap, ap₂, ◌∙◌, ◌⊎◌, dec_lt, append-nil, append_assoc,
  List, [], ◌∷◌, ◌++◌, length, get_or, set, length-set, get_or-set_self, get_or-set_ne, size_mod,
  add_size, ◌%◌, arith,
}
use native.Mathlib.Nat.{mod-eq_of_lt, mod-eq-sub-mod}
use jaulib.Ringbuffer.{next_pos, Cursor, put_slot, put_slots, null_slots}

-- `q` is the position `k` slots on from `p`.
abbrev pub IsAhead : ℕ → ℕ → ℕ → ℕ → Type 0
IsAhead c p k q = (p + k ≡ q) ⊎ (p + k ≡ q + c)

-- The next position is one slot on, and inside the array.
pub next_pos_cases :
    (c p : ℕ) → c < size_mod → p < c → (next_pos c p < c) × IsAhead c p 1 (next_pos c p)
unfolding next_pos
next_pos_cases c p small h =
    let fits : add_size p 1 ≡ suc p = omega arith in
    elim (dec_lt (suc p) c) [
      | yes inner ↦ rw (fits, mod-eq_of_lt {n = suc p} {m = c} inner) (omega arith)
      | no last ↦
          let wraps : suc p % c ≡ 0 =
            grind (arith, mod-eq-sub-mod {n = suc p} {m = c} (omega arith)) in
          rw (fits, wraps) (omega arith)
    ]

module _ {ℓ} {A : Type ℓ} (nullelem : A) (c : ℕ) where
  -- The `n` elements behind position `p`, oldest first.
  unfoldable pub window : List A → ℕ → ℕ → List A
  window array p zero = []
  window array p (suc n) = get_or array (next_pos c p) nullelem ∷ window array (next_pos c p) n

  pub length-window : (array : List A) (p n : ℕ) → length (window array p n) ≡ n
  unfolding window
  length-window array p zero = refl
  length-window array p (suc n) = ap suc (length-window array (next_pos c p) n)

  module _ (small : c < size_mod) where
    -- A write beyond a window leaves it alone.
    pub window-set_ne :
        (array : List A) (v : A) (n p k i : ℕ)
        → p < c
        → i < c
        → n < k
        → k ≤ c
        → IsAhead c p k i
        → window (set array i v) p n ≡ window array p n
    unfolding window
    window-set_ne array v zero p k i hp hi hn hk a = refl
    window-set_ne array v (suc n) p k i hp hi hn hk a =
        let near = next_pos_cases c p small hp in
        ap₂ ◌∷◌ (get_or-set_ne array i (next_pos c p) v nullelem (omega arith)) (
          window-set_ne array v n (next_pos c p) (k - 1) i near.0 hi (omega arith) (omega arith)
            (omega arith))

    -- A write to the slot just past a window extends it.
    pub window-set :
        (array : List A) (v : A) (n p q : ℕ)
        → length array ≡ c
        → p < c
        → q < c
        → suc n < c
        → IsAhead c p n q
        → window (set array (next_pos c q) v) p (suc n) ≡ window array p n ++ v ∷ []
    unfolding window
    window-set array v zero p q len hp hq hn a =
        let e : p ≡ q = omega arith in
        let near = next_pos_cases c q small hq in
        rw e (ap (λ x. x ∷ []) (get_or-set_self array (next_pos c q) v nullelem (omega arith)))
    window-set array v (suc n) p q len hp hq hn a =
        let near = next_pos_cases c p small hp in
        let far = next_pos_cases c q small hq in
        ap₂ ◌∷◌ (get_or-set_ne array (next_pos c q) (next_pos c p) v nullelem (omega arith))
          (window-set array v n (next_pos c p) q len near.0 hq (omega arith) (omega arith))

    -- Putting elements in the slots past a window appends them to it.
    pub window-put_slots :
        (elems : List A) (s : Cursor A) (n p : ℕ)
        → length s.array ≡ c
        → p < c
        → s.pos < c
        → n + length elems < c
        → IsAhead c p n s.pos
        → window (put_slots c s elems).array p (n + length elems) ≡ window s.array p n ++ elems
    unfolding put_slots
    window-put_slots [] s n p len hp hq hn a = let e : n + 0 ≡ n = omega arith in rw (e, append-nil)
    window-put_slots (e ∷ elems) s n p len hp hq hn a =
        let far = next_pos_cases c s.pos small hq in
        let e' : n + suc (length elems) ≡ suc n + length elems = omega arith in
        let s' = put_slot c s e in
        let rest =
          window-put_slots elems s' (suc n) p (length-set s.array (next_pos c s.pos) e ∙ len) hp
            far.0 (omega arith) (omega arith) in
        let first = window-set s.array e n p s.pos len hp hq (omega arith) a in
        rw e' (rest ∙ ap (λ l. l ++ elems) first ∙ append_assoc (window s.array p n) (e ∷ []) elems)

-- The position `n` slots on.
unfoldable pub advance : ℕ → ℕ → ℕ → ℕ
advance c p zero = p
advance c p (suc n) = advance c (next_pos c p) n

module _ (c : ℕ) (small : c < size_mod) where
  pub advance-lt : (p n : ℕ) → p < c → advance c p n < c
  unfolding advance
  advance-lt p zero h = h
  advance-lt p (suc n) h = advance-lt (next_pos c p) n (next_pos_cases c p small h).0

  pub advance-IsAhead : (p n : ℕ) → p < c → n ≤ c → IsAhead c p n (advance c p n)
  unfolding advance
  advance-IsAhead p zero h k = omega arith
  advance-IsAhead p (suc n) h k =
      let near = next_pos_cases c p small h in
      let rest = advance-IsAhead (next_pos c p) n near.0 (omega arith) in
      let last = advance-lt (next_pos c p) n near.0 in omega arith

-- A position is settled by how far it is ahead.
pub IsAhead-unique : (c p k q q' : ℕ) → q < c → q' < c → IsAhead c p k q → IsAhead c p k q' → q ≡ q'
IsAhead-unique c p k q q' h h' a a' = omega arith

module _ {ℓ} {A : Type ℓ} (c : ℕ) where
  pub pos-put_slots :
      (s : Cursor A) (elems : List A) → (put_slots c s elems).pos ≡ advance c s.pos (length elems)
  unfolding put_slots advance
  pos-put_slots s [] = refl
  pos-put_slots s (e ∷ elems) = pos-put_slots (put_slot c s e) elems

  pub length-put_slots :
      (s : Cursor A) (elems : List A) → length (put_slots c s elems).array ≡ length s.array
  unfolding put_slots
  length-put_slots s [] = refl
  length-put_slots s (e ∷ elems) =
      length-put_slots (put_slot c s e) elems ∙ length-set s.array (next_pos c s.pos) e

  pub put_slots-append :
      (s : Cursor A) (xs ys : List A) → put_slots c s (xs ++ ys) ≡ put_slots c (put_slots c s xs) ys
  unfolding put_slots
  put_slots-append s [] ys = refl
  put_slots-append s (x ∷ xs) ys = put_slots-append (put_slot c s x) xs ys

  module _ (nullelem : A) where
    pub pos-null_slots :
        (s : Cursor A) (n : ℕ) → (null_slots c nullelem s n).pos ≡ advance c s.pos n
    unfolding null_slots advance
    pos-null_slots s zero = refl
    pos-null_slots s (suc n) = pos-null_slots (put_slot c s nullelem) n

    pub length-null_slots :
        (s : Cursor A) (n : ℕ) → length (null_slots c nullelem s n).array ≡ length s.array
    unfolding null_slots
    length-null_slots s zero = refl
    length-null_slots s (suc n) =
        length-null_slots (put_slot c s nullelem) n ∙ length-set s.array (next_pos c s.pos) nullelem

    pub null_slots-add :
        (s : Cursor A) (m n : ℕ)
        → null_slots c nullelem s (m + n) ≡ null_slots c nullelem (null_slots c nullelem s m) n
    unfolding null_slots
    null_slots-add s zero n = let e : 0 + n ≡ n = omega arith in rw e
    null_slots-add s (suc m) n =
        let e : suc m + n ≡ suc (m + n) = omega arith in
        rw e (null_slots-add (put_slot c s nullelem) m n)

    -- A window splits at any slot.
    pub window-add :
        (array : List A) (p m n : ℕ)
        → window nullelem c array p (m + n)
          ≡ window nullelem c array p m ++ window nullelem c array (advance c p m) n
    unfolding window advance
    window-add array p zero n = let e : 0 + n ≡ n = omega arith in rw e
    window-add array p (suc m) n =
        let e : suc m + n ≡ suc (m + n) = omega arith in
        rw e
          (ap (λ l. get_or array (next_pos c p) nullelem ∷ l) (window-add array (next_pos c p) m n))

    -- Clearing the slots that were read leaves those behind them alone.
    pub window-null_slots :
        (s : Cursor A) (n m : ℕ)
        → c < size_mod
        → s.pos < c
        → n + m < c
        → window nullelem c (null_slots c nullelem s n).array (advance c s.pos n) m
          ≡ window nullelem c s.array (advance c s.pos n) m
    unfolding null_slots advance
    window-null_slots s zero m small hp hn = refl
    window-null_slots s (suc n) m small hp hn =
        let i = next_pos c s.pos in
        let near = next_pos_cases c s.pos small hp in
        let s' = put_slot c s nullelem in
        let q = advance c i n in
        let inside = advance-lt c small i n near.0 in
        let there = advance-IsAhead c small i n near.0 (omega arith) in
        window-null_slots s' n m small near.0 (omega arith)
        ∙ window-set_ne nullelem c small s.array nullelem m q (c - n) i inside near.0 (omega arith)
            (omega arith) (omega arith)
