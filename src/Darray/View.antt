-- ===== src/Darray/View.antt =====
-- A view of the `darray` of include/jau/darray.hpp: a list of elements and room for some more.
use jaulib.Prelude.{
  ℕ, ◌+◌, ◌-◌, Bool, List, ◌++◌, map, some, ltb, ◌&&◌, if◌then◌else◌, length, take, drop, max,
}
use jaulib.Darray.{
  Darray, Config, illegal_argument, out_of_memory, Result, ok, threw, dangling, ◌>>=◌, diff_max,
  raw,
}

pub record View {ℓ} (A : Type ℓ) : Type ℓ where
  pub items : List A
  pub room : ℕ

module _ {ℓ} {A : Type ℓ} where
  -- The array that the view is one of: the elements first, then raw slots.
  abbrev pub held : View A → Darray A
  held v = record { storage = map some v.items ++ raw v.room; size = length v.items }

  abbrev pub holding : Result (View A) → Result (Darray A)
  holding r = r >>= λ v. ok (held v)

  abbrev pub volume : View A → ℕ
  volume v = length v.items + v.room

  abbrev pub view : List A → ℕ → View A
  view xs n = record { items = xs; room = n }

  -- `ys` put before position `pos`.
  abbrev pub spliced : ℕ → List A → View A → View A
  spliced pos ys v = view (take pos v.items ++ (ys ++ drop pos v.items)) (v.room - length ys)

module _ {ℓ} {A : Type ℓ} (cfg : Config) where
  open cfg use {uses_memmove, uses_realloc, alloc, scaled}

  -- Storage for `n` elements in all. Only `realloc` loses the old storage, if there is any, when it fails.
  unfoldable pub widen : ℕ → View A → Result (View A)
  widen n v =
      if ltb diff_max n
      then threw illegal_argument
      else if alloc n
      then ok (view v.items (n - length v.items))
      else if uses_memmove && (uses_realloc && ltb 0 (volume v))
      then dangling out_of_memory
      else threw out_of_memory

  unfoldable pub widen_if : Bool → ℕ → View A → Result (View A)
  widen_if needed n v = if needed then widen n v else ok v

  unfoldable pub grown : View A → ℕ
  grown v = max (max 10 (volume v + 1)) (scaled (volume v))
