-- ===== src/Environment.antt =====
-- src/environment.cpp: properties of the process environment, their numbers, and lists of properties that
-- explode into properties of their own. A string is the list of its characters' codes, none of them 0.
pub mod Numbers
pub mod Settings
pub mod Exploding
mod Tests
use mathlib.Core.Option
use jaulib.Prelude.{
  ℕ, zero, suc, ◌+◌, ◌-◌, ◌*◌, ◌^◌, ◌%◌, Bool, true, false, List, [], ◌∷◌, ◌++◌, map, Option, none,
  some, ltb, leb, ◌==◌, ◌&&◌, ◌||◌, not, if◌then◌else◌, length, take, drop, ℤ, pos, negsuc, leℤ,
  signed,
}
use jaulib.BasicTypes.{drop_spaces, trim}

abbrev pub Text : Type 0
Text = List ℕ

abbrev pub same_text : Text → Text → Bool
same_text [] [] = true
same_text [] (d ∷ t) = false
same_text (c ∷ s) [] = false
same_text (c ∷ s) (d ∷ t) = (c == d) && same_text s t

-- "true" and "false"
abbrev pub s_true : Text
s_true = 116 ∷ 114 ∷ 117 ∷ 101 ∷ []

abbrev pub s_false : Text
s_false = 102 ∷ 97 ∷ 108 ∷ 115 ∷ 101 ∷ []

-- The process environment, the last setting of a name first.
abbrev pub Environment : Type 0
Environment = List (Text × Text)

unfoldable pub getenv : Text → Environment → Option Text
getenv name [] = none
getenv name ((key, value) ∷ env) =
    let rest = getenv name env in if same_text key name then some value else rest

abbrev pub contains : ℕ → Text → Bool
contains c [] = false
contains c (d ∷ s) = (d == c) || contains c s

-- `setenv` refuses a name that is empty or has a '=' in it.
unfoldable pub setenv : Text → Text → Environment → Environment
setenv name value env = if (length name == 0) || contains 61 name then env else (name, value) ∷ env

-- `isspace` in the C locale
unfoldable pub isspace : ℕ → Bool
isspace c = (c == 32) || (leb 9 c && leb c 13)

-- `std::replace( begin, end, '.', '_')`
unfoldable pub dots_replaced : Text → Text
dots_replaced s = map (λ c. if c == 46 then 95 else c) s

-- `getProperty`
unfoldable pub get_property : Text → Environment → Text
get_property name env = elim (getenv name env) [
  | some value ↦ value
  | none ↦ if contains 46 name then Option.get_or (getenv (dots_replaced name) env) [] else []
]

-- `getProperty` with a default value
unfoldable pub get_property_or : Text → Text → Environment → Text
get_property_or name default_value env =
    let value = get_property name env in if length value == 0 then default_value else value

unfoldable pub get_boolean_property : Text → Bool → Environment → Bool
get_boolean_property name default_value env =
    let value = get_property name env in
    if length value == 0 then default_value else same_text s_true value

-- The digits at the beginning: their value after `n`, and the rest of the text.
unfoldable pub read_digits : ℕ → Text → ℕ × Text
read_digits n [] = (n, [])
read_digits n (c ∷ s) =
    let more = read_digits (n * 10 + (c - 48)) s in
    if leb 48 c && leb c 57 then more else (n, c ∷ s)

abbrev pub starts_with_digit : Text → Bool
starts_with_digit [] = false
starts_with_digit (c ∷ s) = leb 48 c && leb c 57

-- A sign in front, and the text after it.
unfoldable pub read_sign : Text → Bool × Text
read_sign [] = (false, [])
read_sign (c ∷ s) = if c == 45 then (true, s) else if c == 43 then (false, s) else (false, c ∷ s)

-- What `strtol` and `strtoul` of base 10 read: the sign, the number without bound and the text at
-- `endptr`, which is the whole text where there is no number.
unfoldable pub read_number : Text → (Bool × ℕ) × Text
read_number s =
    let (negative, digits) = read_sign (drop_spaces isspace s) in
    let (n, rest) = read_digits 0 digits in
    if starts_with_digit digits then ((negative, n), rest) else ((false, 0), s)

-- `strtol`: a `long` of 64 bits, and beyond it the nearest one.
unfoldable pub strtol : Text → ℤ × Text
strtol s =
    let ((negative, n), rest) = read_number s in
    (
      if negative
          then (if ltb (2 ^ 63) n then negsuc (2 ^ 63 - 1) else signed true n)
          else (if ltb n (2 ^ 63) then pos n else pos (2 ^ 63 - 1)),
      rest,
    )

-- `strtoul`: a number that does not fit is the largest one, and a minus sign negates modulo 2^64.
unfoldable pub strtoul : Text → ℕ × Text
strtoul s =
    let ((negative, n), rest) = read_number s in
    (if leb (2 ^ 64) n then 2 ^ 64 - 1 else if negative then (2 ^ 64 - n) % 2 ^ 64 else n, rest)

abbrev pub int32_min : ℤ
int32_min = negsuc (2 ^ 31 - 1)

abbrev pub int32_max : ℤ
int32_max = pos (2 ^ 31 - 1)

-- `getInt32Property`: the name, the default, and the bounds that are allowed.
unfoldable pub get_int32_property : Text → ℤ → ℤ → ℤ → Environment → ℤ
get_int32_property name default_value min_allowed max_allowed env =
    let value = get_property name env in
    let (res0, rest) = strtol value in
    if length value == 0
    then default_value
    else if length rest == 0
    then (if leℤ int32_min res0 && leℤ res0 int32_max
        then (if leℤ min_allowed res0 && leℤ res0 max_allowed then res0 else default_value)
        else default_value)
    else default_value

-- `getUint32Property`
unfoldable pub get_uint32_property : Text → ℕ → ℕ → ℕ → Environment → ℕ
get_uint32_property name default_value min_allowed max_allowed env =
    let value = get_property name env in
    let (res0, rest) = strtoul value in
    if length value == 0
    then default_value
    else if length rest == 0
    then (if leb res0 (2 ^ 32 - 1)
        then (if leb min_allowed res0 && leb res0 max_allowed then res0 else default_value)
        else default_value)
    else default_value

-- `find( c, start )`
unfoldable pub index_of : ℕ → Text → Option ℕ
index_of c [] = none
index_of c (d ∷ s) = let rest = Option.map suc (index_of c s) in if d == c then some 0 else rest

unfoldable pub find : ℕ → ℕ → Text → Option ℕ
find c start s = Option.map (λ i. start + i) (index_of c (drop start s))

-- `substr( start, len )`
abbrev pub substr : ℕ → ℕ → Text → Text
substr start len s = take len (drop start s)

-- `prefix_domain+"."+name`
abbrev pub dotted : Text → Text → Text
dotted prefix_domain name = prefix_domain ++ (46 ∷ name)

-- The branch of `envSet` with a '=' at `at`.
unfoldable pub env_set_named : Text → Text → ℕ → Environment → Environment
env_set_named prefix_domain pair at env =
    let name = trim isspace (dotted prefix_domain (substr 0 at pair)) in
    let value = trim isspace (drop (at + 1) pair) in
    if ltb 0 (length name)
    then setenv name (if ltb 0 (length value) then value else s_true) env
    else env

-- The branch without a '='.
unfoldable pub env_set_plain : Text → Text → Environment → Environment
env_set_plain prefix_domain pair env = setenv (dotted prefix_domain pair) s_true env

-- `envSet`
unfoldable pub env_set : Text → Text → Environment → Environment
env_set prefix_domain basepair env = elim (ltb 0 (length (trim isspace basepair))) [
  | true ↦ elim (find 61 0 (trim isspace basepair)) [
    | some at ↦ env_set_named prefix_domain (trim isspace basepair) at env
    | none ↦ env_set_plain prefix_domain (trim isspace basepair) env
  ]
  | false ↦ env
]

-- The loop of `envExplodeProperties`; `fuel` is more than the characters from `start` on.
unfoldable pub explode_loop : ℕ → ℕ → Text → Text → Environment → Environment
explode_loop zero start prefix_domain list env = env
explode_loop (suc fuel) start prefix_domain list env = elim (find 44 start list) [
  | some i ↦
      explode_loop fuel (i + 1) prefix_domain list
        (env_set prefix_domain (substr start (i - start) list) env)
  | none ↦
      let elem_len = length list - start in
      if ltb 0 elem_len then env_set prefix_domain (substr start elem_len list) env else env
]

-- `envExplodeProperties`
unfoldable pub env_explode_properties : Text → Text → Environment → Environment
env_explode_properties prefix_domain list env =
    setenv prefix_domain s_true (explode_loop (length list + 1) 0 prefix_domain list env)

-- `getExplodingPropertiesImpl`, less its switch for debug messages
unfoldable pub get_exploding_properties : Text → Environment → Bool × Environment
get_exploding_properties prefix_domain env =
    let value = get_property_or prefix_domain s_false env in
    if same_text s_false value
    then (false, env)
    else if same_text s_true value
    then (true, env)
    else (true, env_explode_properties prefix_domain value env)

-- What the constructor of `environment` reads.
pub record Flags : Type 0 where
  pub debug : Bool
  pub debug_jni : Bool
  pub verbose : Bool

-- ".debug", ".debug.jni" and ".verbose" behind the root prefix
abbrev pub s_debug : Text
s_debug = 46 ∷ 100 ∷ 101 ∷ 98 ∷ 117 ∷ 103 ∷ []

abbrev pub s_debug_jni : Text
s_debug_jni = s_debug ++ (46 ∷ 106 ∷ 110 ∷ 105 ∷ [])

abbrev pub s_verbose : Text
s_verbose = 46 ∷ 118 ∷ 101 ∷ 114 ∷ 98 ∷ 111 ∷ 115 ∷ 101 ∷ []

-- The constructor `environment`
unfoldable pub new_environment : Text → Environment → Flags × Environment
new_environment root_prefix_domain env =
    let (debug, env1) = get_exploding_properties (root_prefix_domain ++ s_debug) env in
    let debug_jni = get_boolean_property (root_prefix_domain ++ s_debug_jni) false env1 in
    let (verbose, env2) = get_exploding_properties (root_prefix_domain ++ s_verbose) env1 in
    (record { debug = debug; debug_jni = debug_jni; verbose = verbose || debug }, env2)
