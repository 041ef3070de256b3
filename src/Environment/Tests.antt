-- ===== src/Environment/Tests.antt =====
-- src/environment.cpp on small environments.
use jaulib.Prelude.{◌≡◌, refl, true, false, [], ◌∷◌, pos, negsuc, ◌-◌, ◌^◌, arith}
use jaulib.BasicTypes.Trim.{no_space, and_space, no_space_first}
use jaulib.BasicTypes.{drop_spaces, trim}
use jaulib.Environment.{
  Text, same_text, Environment, s_true, getenv, setenv, isspace, get_property, get_int32_property,
  get_uint32_property, int32_min, int32_max, env_set, env_explode_properties,
  get_exploding_properties, Flags, new_environment,
}
use jaulib.Environment.Numbers.{
  IsBetween, Int32Allowed, digits, decimal, get_int32_property-decimal, get_uint32_property-decimal,
  get_int32_property-Int32Allowed,
}
use jaulib.Environment.Settings.{IsName, IsClean, IsWord, spaced, get_property-env_set}
use jaulib.Environment.Exploding.{
  elements, env_explode_properties-elements, set_all, get_exploding_properties-again,
}

-- "n" and "a", "b" and the digits of -12
abbrev name_n : Text
name_n = 110 ∷ []

abbrev minus_twelve : Text
minus_twelve = 45 ∷ 49 ∷ 50 ∷ []

abbrev env_n : Environment
env_n = (name_n, minus_twelve) ∷ []

get_int32_property-decimal_example :
    get_int32_property name_n (pos 7) (negsuc 99) (pos 99) env_n ≡ negsuc 11
unfolding decimal digits getenv IsBetween
get_int32_property-decimal_example =
    get_int32_property-decimal name_n (pos 7) (negsuc 99) (pos 99) (negsuc 11) env_n refl
      (refl, refl)

get_int32_property-Int32Allowed_example :
    Int32Allowed (pos 7) (pos 0) (pos 99) (get_int32_property name_n (pos 7) (pos 0) (pos 99) env_n)
unfolding IsBetween
get_int32_property-Int32Allowed_example =
    get_int32_property-Int32Allowed name_n (pos 7) (pos 0) (pos 99) env_n (refl, refl)

-- A negative number passes for the small positive one that it is congruent to: "-18446744073709551615"
-- is 1.
get_uint32_property-decimal_example :
    get_uint32_property name_n 7 0 9 ((name_n, decimal (negsuc (2 ^ 64 - 2))) ∷ []) ≡ 1
unfolding getenv
get_uint32_property-decimal_example =
    get_uint32_property-decimal name_n 7 0 9 (negsuc (2 ^ 64 - 2))
      ((name_n, decimal (negsuc (2 ^ 64 - 2))) ∷ []) refl (omega arith)

-- " a = b " under the prefix "n"
get_property-env_set_example :
    (get_property
        (110 ∷ 46 ∷ 97 ∷ [])
        (env_set name_n (32 ∷ 97 ∷ 32 ∷ 61 ∷ 32 ∷ 98 ∷ 32 ∷ []) env_n)
      ≡ 98 ∷ [])
    × ((other : Text)
        → same_text (110 ∷ 46 ∷ 97 ∷ []) other ≡ false
        → getenv other (env_set name_n (32 ∷ 97 ∷ 32 ∷ 61 ∷ 32 ∷ 98 ∷ 32 ∷ []) env_n)
          ≡ getenv other env_n)
unfolding spaced isspace IsWord IsClean IsName
get_property-env_set_example =
    get_property-env_set (32 ∷ []) (97 ∷ []) (32 ∷ []) (32 ∷ []) (98 ∷ []) (32 ∷ [])
      (and_space 32 [] refl no_space) (and_space 32 [] refl no_space)
      (and_space 32 [] refl no_space) (and_space 32 [] refl no_space)
      ((no_space_first 97 [] refl, no_space_first 97 [] refl), refl)
      ((no_space_first 98 [] refl, no_space_first 98 [] refl), refl) refl name_n
      ((no_space_first 110 [] refl, no_space_first 110 [] refl), refl) env_n (refl, refl)

env_explode_properties-elements_example :
    env_explode_properties name_n (97 ∷ 44 ∷ 44 ∷ 98 ∷ []) env_n
    ≡ setenv name_n s_true (set_all name_n ((97 ∷ []) ∷ [] ∷ (98 ∷ []) ∷ []) env_n)
unfolding elements
env_explode_properties-elements_example =
    env_explode_properties-elements name_n (97 ∷ 44 ∷ 44 ∷ 98 ∷ []) env_n

get_exploding_properties-again_example :
    get_exploding_properties name_n (get_exploding_properties name_n env_n).1
    ≡ get_exploding_properties name_n env_n
unfolding IsName
get_exploding_properties-again_example = get_exploding_properties-again name_n env_n (refl, refl)

-- A list of debug properties turns on all three flags.
new_environment_flags :
    (new_environment name_n
      ((110 ∷ 46 ∷ 100 ∷ 101 ∷ 98 ∷ 117 ∷ 103 ∷ [], 106 ∷ 110 ∷ 105 ∷ 44 ∷ 120 ∷ []) ∷ [])).0
    ≡ record { debug = true; debug_jni = true; verbose = true }
unfolding new_environment get_exploding_properties jaulib.Environment.get_boolean_property
    jaulib.Environment.get_property_or get_property getenv env_explode_properties setenv
    jaulib.Environment.explode_loop jaulib.Environment.find jaulib.Environment.index_of env_set trim
    drop_spaces isspace jaulib.Environment.env_set_plain jaulib.Environment.dots_replaced
new_environment_flags = refl
