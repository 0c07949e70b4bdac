-- ===== src/Config/Examples.antt =====
-- Configurations as in source/main.cpp.
use juggernaut_server.Base.{
  Bool, [], All, ℕ, ◌≡◌, ◌↔◌, refl, sym, ap, ◌∙◌, ◌||◌, ◌==◌, true, false, Option, none, some,
  codes,
}
use juggernaut_server.Config.{
  Text, ConfigJson, global_config, Json, null, boolean, number, text, array, object, Fields, end,
  field, type_name, find, compare_keys, is_object, is_empty_json, compare_json, report, load_parsed,
  load_file, members,
}
use juggernaut_server.Config.Shape.{Fits, IsUnique, compare_keys-iff-Fits}
use juggernaut_server.Config.Typed.{IsByType, is_some}
use juggernaut_server.Config.Defaults.{
  Conversion, Returns, boolean_keys, number_keys, text_keys, get_config-Returns,
}

-- The conversion to an integer; a Boolean is one.
abbrev get_number : Json → Option ℕ
get_number (number n) = some n
get_number (boolean true) = some 1
get_number (boolean false) = some 0
get_number value = none

get_number-by_type : (a : Json) → is_some (get_number a) ≡ (type_name a == 1 || type_name a == 2)
unfolding type_name
get_number-by_type null = refl
get_number-by_type (boolean true) = refl
get_number-by_type (boolean false) = refl
get_number-by_type (number n) = refl
get_number-by_type (text s) = refl
get_number-by_type (array items) = refl
get_number-by_type (object fields) = refl

get_number-IsByType : IsByType get_number
get_number-IsByType a b e =
    get_number-by_type a ∙ ap (λ n. n == 1 || n == 2) e ∙ sym (get_number-by_type b)

abbrev defaults : Fields
defaults =
    field (codes "ip") (text (codes "127.0.0.1")) (field (codes "loginPort") (number 7171) end)

abbrev good_file : Fields
good_file = field (codes "loginPort") (number 7172) end

abbrev bad_file : Fields
bad_file = field (codes "loginPort") (text (codes "7172")) end

compare_keys-iff-Fits_example :
    (compare_keys good_file defaults ≡ true) ↔ Fits (object good_file) (object defaults)
unfolding find IsUnique
compare_keys-iff-Fits_example = compare_keys-iff-Fits good_file defaults (refl, tt, tt)

abbrev get_boolean : Json → Option Bool
get_boolean (boolean b) = some b
get_boolean value = none

get_boolean-by_type : (a : Json) → is_some (get_boolean a) ≡ (type_name a == 1)
unfolding type_name
get_boolean-by_type null = refl
get_boolean-by_type (boolean b) = refl
get_boolean-by_type (number n) = refl
get_boolean-by_type (text s) = refl
get_boolean-by_type (array items) = refl
get_boolean-by_type (object fields) = refl

abbrev get_text : Json → Option Text
get_text (text s) = some s
get_text value = none

get_text-by_type : (a : Json) → is_some (get_text a) ≡ (type_name a == 3)
unfolding type_name
get_text-by_type null = refl
get_text-by_type (boolean b) = refl
get_text-by_type (number n) = refl
get_text-by_type (text s) = refl
get_text-by_type (array items) = refl
get_text-by_type (object fields) = refl

abbrev to_boolean : Conversion Bool
to_boolean = record {
  get = get_boolean;
  zero_value = false;
  by_type = λ a b e. get_boolean-by_type a ∙ ap (λ n. n == 1) e ∙ sym (get_boolean-by_type b);
}

abbrev to_number : Conversion ℕ
to_number = record { get = get_number; zero_value = 0; by_type = get_number-IsByType }

abbrev to_text : Conversion Text
to_text = record {
  get = get_text;
  zero_value = [];
  by_type = λ a b e. get_text-by_type a ∙ ap (λ n. n == 3) e ∙ sym (get_text-by_type b);
}

abbrev loaded : ConfigJson
loaded = record { values = object good_file; default_config = global_config.values }

get_config-Returns_example :
    All (Returns to_boolean loaded) boolean_keys
    × All (Returns to_number loaded) number_keys
    × All (Returns to_text loaded) text_keys
unfolding find load_file load_parsed report compare_json compare_keys is_object is_empty_json
    members type_name
get_config-Returns_example =
    get_config-Returns to_boolean to_number to_text good_file loaded (λ b. refl) (λ n. refl)
      (λ s. refl) refl
