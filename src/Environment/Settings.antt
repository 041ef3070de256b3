-- ===== src/Environment/Settings.antt =====
-- src/environment.cpp: what `envSet` sets, and what is found of it later.
use mathlib.Core.Path.{subst}
use mathlib.Core.Bool.{true≢false}
use mathlib.Core.List.{reverse, reverse-append, reverse-reverse}
use jaulib.Prelude.{
  ℕ, ◌+◌, ◌≡◌, refl, sym, ap, ◌∙◌, true, false, ◌||◌, [], ◌∷◌, ◌++◌, append_assoc, append-nil, some,
  ltb, ◌==◌, length, take, drop, arith, take-append_length, drop-append_add, nil_of_length, ==_iff,
  Bool-cases, inl, inr,
}
use jaulib.BasicTypes.{drop_spaces, trim}
use jaulib.BasicTypes.Trim.{
  AreSpaces, StartsClean, no_space, and_space, nothing, no_space_first, AreSpaces-reverse,
}
use jaulib.Environment.Numbers.{get_property-found}
use jaulib.Environment.{
  Text, same_text, Environment, getenv, contains, setenv, isspace, get_property, index_of, find,
  substr, dotted, env_set_named, env_set,
}

-- A name that `setenv` takes.
unfoldable pub IsName : Text → Type 0
IsName name = ((length name == 0) ≡ false) × (contains 61 name ≡ false)

pub same_text_refl : (s : Text) → same_text s s ≡ true
same_text_refl [] = refl
same_text_refl (c ∷ s) = let e : (c == c) ≡ true = ground arith in rw (e, same_text_refl s)

pub getenv-setenv :
    (name value : Text) (env : Environment)
    → IsName name
    → getenv name (setenv name value env) ≡ some value
unfolding getenv setenv IsName
getenv-setenv name value env (h, k) = rw (h, k, same_text_refl name)

pub getenv-setenv_other :
    (name other value : Text) (env : Environment)
    → same_text name other ≡ false
    → getenv other (setenv name value env) ≡ getenv other env
unfolding getenv setenv
getenv-setenv_other name other value env h =
    elim (Bool-cases ((length name == 0) || contains 61 name)) [ inl t ↦ rw t | inr t ↦ rw (t, h) ]

-- Text that neither begins nor ends with a space.
unfoldable pub IsClean : Text → Type 0
IsClean t = StartsClean isspace t × StartsClean isspace (reverse t)

drop_spaces-spaces :
    (s t : Text) → AreSpaces isspace s → StartsClean isspace t → drop_spaces isspace (s ++ t) ≡ t
unfolding drop_spaces
drop_spaces-spaces [] [] no_space nothing = refl
drop_spaces-spaces [] (c ∷ t) no_space (no_space_first _ _ h) = rw h
drop_spaces-spaces (c ∷ s) t (and_space _ _ h rest) clean = rw h (drop_spaces-spaces s t rest clean)

-- Spaces around are trimmed off, and no more.
trim-spaces :
    (s t s' : Text)
    → AreSpaces isspace s
    → AreSpaces isspace s'
    → StartsClean isspace (t ++ s')
    → IsClean t
    → trim isspace (s ++ (t ++ s')) ≡ t
unfolding trim IsClean
trim-spaces s t s' are are' start (clean, clean') =
    ap (λ l. reverse (drop_spaces isspace (reverse l))) (drop_spaces-spaces s (t ++ s') are start)
    ∙ ap (λ l. reverse (drop_spaces isspace l)) (reverse-append t s')
    ∙ ap reverse
        (drop_spaces-spaces (reverse s') (reverse t) (AreSpaces-reverse isspace s' are') clean')
    ∙ reverse-reverse t

contains-append : (c : ℕ) (s t : Text) → contains c (s ++ t) ≡ (contains c s || contains c t)
contains-append c [] t = refl
contains-append c (d ∷ s) t = elim (Bool-cases (d == c)) [
  | inl t' ↦ rw t'
  | inr t' ↦ rw t' (contains-append c s t)
]

-- The first place of a character.
index_of-append :
    (c : ℕ) (s t : Text) → contains c s ≡ false → index_of c (s ++ (c ∷ t)) ≡ some (length s)
unfolding index_of
index_of-append c [] t h = let e : (c == c) ≡ true = ground arith in rw e
index_of-append c (d ∷ s) t h = elim (Bool-cases (d == c)) [
  | inl t' ↦ absurd (true≢false (sym (ap (λ b. b || contains c s) t') ∙ h))
  | inr t' ↦
      let later : contains c s ≡ false = sym (ap (λ b. b || contains c s) t') ∙ h in
      rw (t', index_of-append c s t later)
]

spaces_no_equals : (s : Text) → AreSpaces isspace s → contains 61 s ≡ false
unfolding isspace
spaces_no_equals [] no_space = refl
spaces_no_equals (c ∷ s) (and_space _ _ h rest) =
    let e : (c == 61) ≡ false = ground arith in rw (e, spaces_no_equals s rest)

-- A text that is clean and not empty.
unfoldable pub IsWord : Text → Type 0
IsWord t = IsClean t × ((length t == 0) ≡ false)

StartsClean-append :
    (t s : Text) → StartsClean isspace t → (length t == 0) ≡ false → StartsClean isspace (t ++ s)
StartsClean-append [] s clean h = absurd (true≢false h)
StartsClean-append (c ∷ t) s (no_space_first _ _ h') h = no_space_first c (t ++ s) h'

length-reverse_zero : (t : Text) → (length t == 0) ≡ false → (length (reverse t) == 0) ≡ false
length-reverse_zero t h = elim (Bool-cases (length (reverse t) == 0)) [
  | inl e ↦
      let none_there : reverse t ≡ [] = nil_of_length (reverse t) ((==_iff _ 0).0 e) in
      let none_here : t ≡ [] = sym (reverse-reverse t) ∙ ap reverse none_there in
      absurd (true≢false (sym (ap (λ l. length l == 0) none_here) ∙ h))
  | inr e ↦ e
]

-- Whatever stands between two words.
IsClean-between : (t m t' : Text) → IsWord t → IsWord t' → IsClean (t ++ (m ++ t'))
unfolding IsWord IsClean
IsClean-between t m t' ((clean, _), h) ((_, clean'), h') = (
  StartsClean-append t (m ++ t') clean h,
  subst (StartsClean isspace)
      (sym (ap reverse (sym (append_assoc t m t')) ∙ reverse-append (t ++ m) t'))
      (StartsClean-append (reverse t') (reverse (t ++ m)) clean' (length-reverse_zero t' h')),
)

-- `key=value` as `envSet` finds it, with spaces around the key and the value.
unfoldable pub spaced : Text → Text → Text → Text → Text → Text → Text
spaced before key after before' value after' =
    before ++ ((key ++ ((after ++ (61 ∷ before')) ++ value)) ++ after')

length-append_word : (t s : Text) → (length t == 0) ≡ false → ltb 0 (length (t ++ s)) ≡ true
length-append_word [] s h = absurd (true≢false h)
length-append_word (c ∷ t) s h = ground arith

length-append_zero : (t s : Text) → (length t == 0) ≡ false → (length (t ++ s) == 0) ≡ false
length-append_zero [] s h = absurd (true≢false h)
length-append_zero (c ∷ t) s h = ground arith

module _ (before key after before' value after' : Text) (before_spaces : AreSpaces isspace before)
    (after_spaces : AreSpaces isspace after) (before_spaces' : AreSpaces isspace before')
    (after_spaces' : AreSpaces isspace after') (key_word : IsWord key) (value_word : IsWord value)
    (key_plain : contains 61 key ≡ false) where
  pair : Text
  pair = key ++ ((after ++ (61 ∷ before')) ++ value)

  trim-spaced : trim isspace (spaced before key after before' value after') ≡ pair
  unfolding IsWord IsClean spaced pair
  trim-spaced =
      trim-spaces before pair after' before_spaces after_spaces'
        (subst (StartsClean isspace)
          (sym (append_assoc key ((after ++ (61 ∷ before')) ++ value) after'))
          (StartsClean-append key (((after ++ (61 ∷ before')) ++ value) ++ after') key_word.0.0
            key_word.1))
        (IsClean-between key (after ++ (61 ∷ before')) value key_word value_word)

  some_pair : ltb 0 (length pair) ≡ true
  unfolding pair IsWord
  some_pair = length-append_word key ((after ++ (61 ∷ before')) ++ value) key_word.1

  -- The pair is cut at its first '='.
  pair-cut : pair ≡ (key ++ after) ++ (61 ∷ (before' ++ value))
  unfolding pair
  pair-cut =
      ap (λ l. key ++ l) (append_assoc after (61 ∷ before') value)
      ∙ sym (append_assoc key after (61 ∷ (before' ++ value)))

  find-pair : find 61 0 pair ≡ some (length (key ++ after))
  unfolding find
  find-pair =
      let no_equals : contains 61 (key ++ after) ≡ false =
        contains-append 61 key after
        ∙ ap (λ b. b || contains 61 after) key_plain
        ∙ spaces_no_equals after after_spaces in
      let at : index_of 61 pair ≡ some (length (key ++ after)) =
        ap (index_of 61) pair-cut
        ∙ index_of-append 61 (key ++ after) (before' ++ value) no_equals in
      let zero_left : 0 + length (key ++ after) ≡ length (key ++ after) = omega arith in
      rw (at, zero_left)

  trim-value : trim isspace (drop (length (key ++ after) + 1) pair) ≡ value
  unfolding IsWord IsClean
  trim-value =
      let rest : drop (length (key ++ after) + 1) pair ≡ before' ++ (value ++ []) =
        ap (drop (length (key ++ after) + 1)) pair-cut
        ∙ drop-append_add (key ++ after) (61 ∷ (before' ++ value)) 1 _ refl
        ∙ ap (λ l. before' ++ l) (sym (append-nil value)) in
      ap (trim isspace) rest
      ∙ trim-spaces before' value [] before_spaces' no_space
          (StartsClean-append value [] value_word.0.0 value_word.1) value_word.0

  module _ (prefix_domain : Text) (prefix_word : IsWord prefix_domain) where
    trim-name :
        trim isspace (dotted prefix_domain (substr 0 (length (key ++ after)) pair))
        ≡ dotted prefix_domain key
    unfolding IsWord IsClean
    trim-name =
        let front : substr 0 (length (key ++ after)) pair ≡ key ++ after =
          ap (take (length (key ++ after))) pair-cut
          ∙ take-append_length (key ++ after) (61 ∷ (before' ++ value)) _ refl in
        let clean : IsClean (dotted prefix_domain key) =
          IsClean-between prefix_domain (46 ∷ []) key prefix_word key_word in
        let start : StartsClean isspace (dotted prefix_domain key ++ after) =
          subst (StartsClean isspace) (sym (append_assoc prefix_domain (46 ∷ key) after)) (
            StartsClean-append prefix_domain ((46 ∷ key) ++ after) prefix_word.0.0 prefix_word.1) in
        ap (λ l. trim isspace (dotted prefix_domain l)) front
        ∙ ap (trim isspace) (sym (append_assoc prefix_domain (46 ∷ key) after))
        ∙ trim-spaces [] (dotted prefix_domain key) after no_space after_spaces start clean

    env_set_named-pair :
        (env : Environment)
        → env_set_named prefix_domain pair (length (key ++ after)) env
          ≡ setenv (dotted prefix_domain key) value env
    unfolding env_set_named IsWord
    env_set_named-pair env =
        let named : ltb 0 (length (dotted prefix_domain key)) ≡ true =
          length-append_word prefix_domain (46 ∷ key) prefix_word.1 in
        let valued : ltb 0 (length value) ≡ true =
          ap (λ l. ltb 0 (length l)) (sym (append-nil value))
          ∙ length-append_word value [] value_word.1 in
        rw (trim-name, trim-value, named, valued)

    env_set-spaced :
        (env : Environment)
        → env_set prefix_domain (spaced before key after before' value after') env
          ≡ setenv (dotted prefix_domain key) value env
    unfolding env_set
    env_set-spaced env =
        rw (trim-spaced, some_pair, trim-spaced, find-pair, trim-spaced, env_set)
          (env_set_named-pair env)

    -- `key=value`, with any spaces around key and value, sets the property `prefix.key`, which
    -- is found with that value from then on, and changes no other variable, if key, value and
    -- prefix are neither empty nor begin or end with a space, and neither key nor prefix has a
    -- '='.
    pub get_property-env_set :
        (env : Environment)
        → IsName prefix_domain
        → (get_property
              (dotted prefix_domain key)
              (env_set prefix_domain (spaced before key after before' value after') env)
            ≡ value)
          × ((other : Text)
              → same_text (dotted prefix_domain key) other ≡ false
              → getenv other
                  (env_set prefix_domain (spaced before key after before' value after') env)
                ≡ getenv other env)
    unfolding IsName
    get_property-env_set env (h, k) =
        let named : (length (dotted prefix_domain key) == 0) ≡ false =
          length-append_zero prefix_domain (46 ∷ key) h in
        let plain : contains 61 (dotted prefix_domain key) ≡ false =
          contains-append 61 prefix_domain (46 ∷ key)
          ∙ ap (λ b. b || contains 61 key) k
          ∙ key_plain in
        let found : getenv (dotted prefix_domain key) (setenv (dotted prefix_domain key) value env)
            ≡ some value =
          getenv-setenv (dotted prefix_domain key) value env (named, plain) in
        (
          ap (get_property (dotted prefix_domain key)) (env_set-spaced env)
              ∙ get_property-found (dotted prefix_domain key) value _ found,
          λ (other : Text) (differ : same_text (dotted prefix_domain key) other ≡ false).
              ap (getenv other) (env_set-spaced env)
              ∙ getenv-setenv_other (dotted prefix_domain key) other value env differ,
        )
