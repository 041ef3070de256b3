-- ===== src/Environment/Exploding.antt =====
-- src/environment.cpp: a list of properties explodes into one property for each of its elements, once.
use mathlib.Core.Path.{subst}
use mathlib.Core.Option.{none-ne-some, some-injective}
use mathlib.Core.Option
use jaulib.Prelude.{
  ℕ, zero, suc, ◌+◌, ◌-◌, ◌≡◌, ◌≤◌, ◌<◌, refl, sym, ap, ◌∙◌, true, false, List, [], ◌∷◌, none, some,
  ltb, ◌==◌, if◌then◌else◌, length, take, drop, arith, drop-drop, length-drop, take_whole,
  nil_of_length, Option-cases, Bool-cases, inl, inr, ltb_false→le,
}
use jaulib.BasicTypes.{drop_spaces, trim}
use jaulib.Environment.Numbers.{get_property-found}
use jaulib.Environment.Settings.{IsName, getenv-setenv}
use jaulib.Environment.{
  getenv, Text, same_text, s_true, s_false, Environment, setenv, index_of, find, substr, env_set,
  explode_loop, env_explode_properties, get_property_or, get_exploding_properties,
}

-- A list cut at each comma.
unfoldable pub elements : Text → List Text
elements [] = [] ∷ []
elements (c ∷ s) = elim (elements s) [
  | [] ↦ [] ∷ []
  | e ∷ rest ↦ if c == 44 then [] ∷ (e ∷ rest) else (c ∷ e) ∷ rest
]

-- All of these are set, in their order.
unfoldable pub set_all : Text → List Text → Environment → Environment
set_all prefix_domain [] env = env
set_all prefix_domain (e ∷ rest) env = set_all prefix_domain rest (env_set prefix_domain e env)

elements_cons : (s : Text) → (e : Text) × (rest : List Text) × (elements s ≡ e ∷ rest)
unfolding elements
elements_cons [] = ([], [], refl)
elements_cons (c ∷ s) =
    let (e, rest, h) = elements_cons s in
    elim (Bool-cases (c == 44)) [
      | inl t ↦ ([], e ∷ rest, rw (h, t))
      | inr t ↦ (c ∷ e, rest, rw (h, t))
    ]

-- The search for the first comma, one character on.
index_of_hit : (c : ℕ) (s : Text) → (c == 44) ≡ true → index_of 44 (c ∷ s) ≡ some 0
unfolding index_of
index_of_hit c s t = rw t

index_of_miss :
    (c : ℕ) (s : Text) → (c == 44) ≡ false → index_of 44 (c ∷ s) ≡ Option.map suc (index_of 44 s)
unfolding index_of
index_of_miss c s t = rw t

elements-none : (s : Text) → index_of 44 s ≡ none → elements s ≡ s ∷ []
unfolding elements
elements-none [] h = refl
elements-none (c ∷ s) h = elim (Bool-cases (c == 44)) [
  | inl t ↦ absurd (none-ne-some 0 (sym h ∙ index_of_hit c s t))
  | inr t ↦ elim (Option-cases (index_of 44 s)) [
    | inl n ↦ rw (elements-none s n, t)
    | inr (j, e) ↦
        absurd (none-ne-some (suc j) (sym h ∙ index_of_miss c s t ∙ ap (Option.map suc) e))
  ]
]

-- The first element ends at `i`.
IsCut : ℕ → Text → Type 0
IsCut i s = (elements s ≡ take i s ∷ elements (drop (i + 1) s)) × (i < length s)

elements_hit : (c : ℕ) (s : Text) → (c == 44) ≡ true → IsCut 0 (c ∷ s)
unfolding elements IsCut
elements_hit c s t = let (e, rest, q) = elements_cons s in (rw (q, t), omega arith)

elements_miss : (c : ℕ) (s : Text) (i : ℕ) → (c == 44) ≡ false → IsCut i s → IsCut (suc i) (c ∷ s)
unfolding elements IsCut
elements_miss c s i t (e, h) =
    let next : suc i + 1 ≡ suc (i + 1) = omega arith in (rw (e, t, next), omega arith)

elements-some : (s : Text) (i : ℕ) → index_of 44 s ≡ some i → IsCut i s
unfolding index_of
elements-some [] i h = absurd (none-ne-some i h)
elements-some (c ∷ s) i h = elim (Bool-cases (c == 44)) [
  | inl t ↦
      let at : 0 ≡ i = some-injective 0 i (sym (index_of_hit c s t) ∙ h) in
      subst (λ i. IsCut i (c ∷ s)) at (elements_hit c s t)
  | inr t ↦ elim (Option-cases (index_of 44 s)) [
    | inl n ↦ absurd (none-ne-some i (sym (sym h ∙ index_of_miss c s t ∙ ap (Option.map suc) n)))
    | inr (j, e) ↦
        let at : suc j ≡ i =
          some-injective (suc j) i (sym (index_of_miss c s t ∙ ap (Option.map suc) e) ∙ h) in
        subst (λ i. IsCut i (c ∷ s)) at (elements_miss c s j t (elements-some s j e))
  ]
]

find-none :
    (start : ℕ) (list : Text) → index_of 44 (drop start list) ≡ none → find 44 start list ≡ none
unfolding find
find-none start list n = ap (Option.map (λ i. start + i)) n

find-some :
    (start : ℕ) (list : Text) (i : ℕ)
    → index_of 44 (drop start list) ≡ some i
    → find 44 start list ≡ some (start + i)
unfolding find
find-some start list i e = ap (Option.map (λ i. start + i)) e

-- What is left after the last comma.
last_element :
    (start : ℕ) (prefix_domain list : Text) (env : Environment)
    → (if ltb 0 (length list - start)
        then env_set prefix_domain (substr start (length list - start) list) env
        else env)
      ≡ env_set prefix_domain (drop start list) env
unfolding env_set trim drop_spaces
last_element start prefix_domain list env = elim (Bool-cases (ltb 0 (length list - start))) [
  | inl t ↦
      let long : length (drop start list) ≤ length list - start =
        omega (arith, length-drop start list) in
      rw t (ap (λ l. env_set prefix_domain l env) (take_whole _ (drop start list) long))
  | inr t ↦
      let nil : drop start list ≡ [] =
        nil_of_length _
          (omega (arith, length-drop start list, ltb_false→le 0 (length list - start) t)) in
      rw t (ap (λ l. env_set prefix_domain l env) (sym nil))
]

-- With enough fuel the loop sets what is left of the list.
explode_loop-elements :
    (fuel start : ℕ) (prefix_domain list : Text) (env : Environment)
    → length list < fuel + start
    → start ≤ length list
    → explode_loop fuel start prefix_domain list env
      ≡ set_all prefix_domain (elements (drop start list)) env
unfolding explode_loop set_all IsCut
explode_loop-elements zero start prefix_domain list env h k = absurd (omega arith)
explode_loop-elements (suc fuel) start prefix_domain list env h k =
    elim (Option-cases (index_of 44 (drop start list))) [
      | inl n ↦
          rw (find-none start list n, explode_loop, elements-none (drop start list) n)
            (last_element start prefix_domain list env)
      | inr (i, e) ↦
          let (cut, below) = elements-some (drop start list) i e in
          let within : start + i + 1 ≤ length list = omega (arith, length-drop start list) in
          let more =
            explode_loop-elements fuel (start + i + 1) prefix_domain list
              (env_set prefix_domain (take i (drop start list)) env) (omega arith) within in
          let same_len : start + i - start ≡ i = omega arith in
          let same_start : start + i + 1 ≡ start + (i + 1) = omega arith in
          let rest : drop (start + i + 1) list ≡ drop (i + 1) (drop start list) =
            ap (λ n. drop n list) same_start ∙ sym (drop-drop (i + 1) start list) in
          rw (find-some start list i e, explode_loop, same_len, cut)
            (more
              ∙ ap
                  (λ l.
                    set_all prefix_domain (elements l)
                      (env_set prefix_domain (take i (drop start list)) env))
                  rest)
    ]

-- The search loop of `envExplodeProperties` sets each of the elements that the list's commas part,
-- in their order, and then the prefix itself to true; its fuel is enough for every list.
pub env_explode_properties-elements :
    (prefix_domain list : Text) (env : Environment)
    → env_explode_properties prefix_domain list env
      ≡ setenv prefix_domain s_true (set_all prefix_domain (elements list) env)
unfolding env_explode_properties
env_explode_properties-elements prefix_domain list env =
    ap (setenv prefix_domain s_true)
      (explode_loop-elements (length list + 1) 0 prefix_domain list env (omega arith) (omega arith))

get_property_or-found :
    (name value default_value : Text) (env : Environment)
    → getenv name env ≡ some value
    → (length value == 0) ≡ false
    → get_property_or name default_value env ≡ value
unfolding get_property_or
get_property_or-found name value default_value env h k = rw (get_property-found name value env h, k)

-- The three outcomes of a call.
answers_false :
    (prefix_domain : Text) (env : Environment)
    → same_text s_false (get_property_or prefix_domain s_false env) ≡ true
    → get_exploding_properties prefix_domain env ≡ (false, env)
unfolding get_exploding_properties
answers_false prefix_domain env t = rw t

answers_true :
    (prefix_domain : Text) (env : Environment)
    → same_text s_false (get_property_or prefix_domain s_false env) ≡ false
    → same_text s_true (get_property_or prefix_domain s_false env) ≡ true
    → get_exploding_properties prefix_domain env ≡ (true, env)
unfolding get_exploding_properties
answers_true prefix_domain env t t' = rw (t, t')

explodes :
    (prefix_domain : Text) (env : Environment)
    → same_text s_false (get_property_or prefix_domain s_false env) ≡ false
    → same_text s_true (get_property_or prefix_domain s_false env) ≡ false
    → get_exploding_properties prefix_domain env
      ≡ (true, env_explode_properties prefix_domain (get_property_or prefix_domain s_false env) env)
unfolding get_exploding_properties
explodes prefix_domain env t t' = rw (t, t')

-- Once it is exploded, the prefix is "true".
exploded :
    (prefix_domain list : Text) (env : Environment)
    → IsName prefix_domain
    → get_property_or prefix_domain s_false (env_explode_properties prefix_domain list env) ≡ s_true
unfolding env_explode_properties
exploded prefix_domain list env name =
    get_property_or-found prefix_domain s_true s_false _ (getenv-setenv prefix_domain s_true _ name)
      refl

-- A second call of `getExplodingPropertiesImpl` right after a first one returns the same and leaves
-- the environment as it is, if the prefix is a name that setenv takes: what exploded is not
-- exploded again.
pub get_exploding_properties-again :
    (prefix_domain : Text) (env : Environment)
    → IsName prefix_domain
    → get_exploding_properties prefix_domain (get_exploding_properties prefix_domain env).1
      ≡ get_exploding_properties prefix_domain env
get_exploding_properties-again prefix_domain env name =
    let value = get_property_or prefix_domain s_false env in
    let call = get_exploding_properties prefix_domain in
    elim (Bool-cases (same_text s_false value)) [
      | inl t ↦ ap (λ r. call r.1) (answers_false prefix_domain env t)
      | inr t ↦ elim (Bool-cases (same_text s_true value)) [
        | inl t' ↦ ap (λ r. call r.1) (answers_true prefix_domain env t t')
        | inr t' ↦
            let once = explodes prefix_domain env t t' in
            let is_true = exploded prefix_domain value env name in
            ap (λ r. call r.1) once
            ∙ answers_true prefix_domain (env_explode_properties prefix_domain value env)
                (ap (same_text s_false) is_true) (ap (same_text s_true) is_true)
            ∙ sym once
      ]
    ]
