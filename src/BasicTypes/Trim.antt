-- ===== src/BasicTypes/Trim.antt =====
-- src/basic_types.cpp: `trimInPlace` takes spaces, all of them, and nothing else off both ends.
use mathlib.Core.Path.{subst}
use mathlib.Core.List.{reverse, reverse-append, reverse-reverse, reverse-cons}
use jaulib.Prelude.{
  ℕ, ◌≡◌, refl, sym, ap, ◌∙◌, Bool, true, false, List, [], ◌∷◌, ◌++◌, Bool-cases, inl, inr,
}
use jaulib.BasicTypes.{drop_spaces, trim}

module _ (isspace : ℕ → Bool) where
  pub data AreSpaces : List ℕ → Type 0 where
    no_space : AreSpaces []
    and_space : (c : ℕ) (s : List ℕ) → isspace c ≡ true → AreSpaces s → AreSpaces (c ∷ s)

  -- It does not begin with a space.
  pub data StartsClean : List ℕ → Type 0 where
    nothing : StartsClean []
    no_space_first : (c : ℕ) (s : List ℕ) → isspace c ≡ false → StartsClean (c ∷ s)

  drop_spaces-split :
      (s : List ℕ)
      → (spaces : List ℕ) × AreSpaces spaces
        × (s ≡ spaces ++ drop_spaces isspace s)
        × StartsClean (drop_spaces isspace s)
  unfolding drop_spaces
  drop_spaces-split [] = ([], no_space, refl, nothing)
  drop_spaces-split (c ∷ s) = elim (Bool-cases (isspace c)) [
    | inl t ↦
        let (spaces, are, e, clean) = drop_spaces-split s in
        (c ∷ spaces, and_space c spaces t are, rw t (ap (λ l. c ∷ l) e), rw t clean)
    | inr t ↦ ([], no_space, rw t, rw t (no_space_first c s t))
  ]

  AreSpaces-append : (s s' : List ℕ) → AreSpaces s → AreSpaces s' → AreSpaces (s ++ s')
  AreSpaces-append [] s' no_space h = h
  AreSpaces-append (c ∷ s) s' (and_space _ _ t rest) h =
      and_space c _ t (AreSpaces-append s s' rest h)

  pub AreSpaces-reverse : (s : List ℕ) → AreSpaces s → AreSpaces (reverse s)
  AreSpaces-reverse [] no_space = no_space
  AreSpaces-reverse (c ∷ s) (and_space _ _ t rest) =
      rw (reverse-cons c s) (
        AreSpaces-append (reverse s) (c ∷ []) (AreSpaces-reverse s rest)
          (and_space c [] t no_space))

  -- A list that begins clean does so without its last characters.
  StartsClean-front : (s s' : List ℕ) → StartsClean (s ++ s') → StartsClean s
  StartsClean-front [] s' clean = nothing
  StartsClean-front (c ∷ s) s' (no_space_first _ _ t) = no_space_first c s t

  -- What `trim` gives is the string without spaces at both ends.
  pub record Trimmed (s t : List ℕ) : Type 0 where
    pub before : List ℕ
    pub after : List ℕ
    pub before_spaces : AreSpaces before
    pub after_spaces : AreSpaces after
    pub whole : s ≡ before ++ (t ++ after)
    pub clean_start : StartsClean t
    pub clean_end : StartsClean (reverse t)

  -- `trimInPlace` takes characters off both ends of a string, only spaces, and leaves one that
  -- neither begins nor ends with a space, whatever counts as a space.
  pub trim-Trimmed : (s : List ℕ) → Trimmed s (trim isspace s)
  unfolding trim
  trim-Trimmed s =
      let d = drop_spaces isspace s in
      let r = drop_spaces isspace (reverse d) in
      let (before, are, e, clean) = drop_spaces-split s in
      let (spaces, are', e', clean') = drop_spaces-split (reverse d) in
      let inner : d ≡ reverse r ++ reverse spaces =
        sym (reverse-reverse d) ∙ ap reverse e' ∙ reverse-append spaces r in
      record {
        before = before;
        after = reverse spaces;
        before_spaces = are;
        after_spaces = AreSpaces-reverse spaces are';
        whole = e ∙ ap (λ l. before ++ l) inner;
        clean_start =
            StartsClean-front (reverse r) (reverse spaces) (subst StartsClean inner clean);
        clean_end = subst StartsClean (sym (reverse-reverse r)) clean';
      }
