-- ===== src/Config/Defaults.antt =====
-- The configuration of source/main.cpp, and the keys that the program asks for.
use juggernaut_server.Base.{◌≡◌, Bool, true, false, List, [], ◌∷◌, Option, some, codes, All, ℕ}
use juggernaut_server.Config.{
  Text, Json, null, boolean, number, text, object, Fields, field, find, ConfigJson, parsed,
  answered, load_file, get_default, get_config, local_host, further_values, global_config,
}
use juggernaut_server.Config.Typed.{is_some, IsByType, get_config-typed}

-- The keys of the calls of `getConfig`, by their types.
abbrev pub boolean_keys : List Text
boolean_keys =
    codes "rsa" ∷ codes "bindOnlyGlobalAddress" ∷ codes "startupDatabaseOptimization" ∷ []

abbrev pub number_keys : List Text
number_keys = codes "loginPort" ∷ codes "mysqlPort" ∷ codes "maxPacketsPerSecond" ∷ []

abbrev pub text_keys : List Text
text_keys =
    codes "ip"
    ∷ codes "mysqlHost"
    ∷ codes "mysqlUser"
    ∷ codes "mysqlPass"
    ∷ codes "mysqlDatabase"
    ∷ codes "mysqlSock"
    ∷ []

-- A conversion to a type, with the value of the type that stands for a missing key.
pub record Conversion (T : Type 0) : Type 0 where
  pub get : Json → Option T
  pub zero_value : T
  pub by_type : IsByType get

abbrev pub Returns : {T : Type 0} → Conversion T → ConfigJson → Text → Type 0
Returns {T} conversion c key =
    (v : T) × (get_config conversion.get conversion.zero_value key c ≡ some v)

module _ {B N T : Type 0} (to_boolean : Conversion B) (to_number : Conversion N)
    (to_text : Conversion T) where
  -- Once a file with an object was loaded over the program's defaults and no key of it was reported,
  -- every call of `getConfig` in the program returns a value, and none throws, whichever keys the file
  -- has; the conversions throw by the type of the value, and not for values of their own type.
  pub get_config-Returns :
      (fields : Fields) (c : ConfigJson)
      → ((b : Bool) → is_some (to_boolean.get (boolean b)) ≡ true)
      → ((n : ℕ) → is_some (to_number.get (number n)) ≡ true)
      → ((s : Text) → is_some (to_text.get (text s)) ≡ true)
      → load_file (parsed (object fields)) global_config ≡ answered true false c
      → All (Returns to_boolean c) boolean_keys
        × All (Returns to_number c) number_keys
        × All (Returns to_text c) text_keys
  unfolding find get_default
  get_config-Returns fields c booleans numbers texts loaded = (
    (
      of to_boolean (codes "rsa") (booleans true),
      (
        of to_boolean (codes "bindOnlyGlobalAddress") (booleans true),
        (of to_boolean (codes "startupDatabaseOptimization") (booleans true), tt),
      ),
    ),
    (
      of to_number (codes "loginPort") (numbers 7171),
      (
        of to_number (codes "mysqlPort") (numbers 3306),
        (of to_number (codes "maxPacketsPerSecond") (numbers 250), tt),
      ),
    ),
    (
      of to_text (codes "ip") (texts (codes "127.0.0.1")),
      (
        of to_text (codes "mysqlHost") (texts (codes "127.0.0.1")),
        (
          of to_text (codes "mysqlUser") (texts (codes "root")),
          (
            of to_text (codes "mysqlPass") (texts []),
            (
              of to_text (codes "mysqlDatabase") (texts (codes "database")),
              (of to_text (codes "mysqlSock") (texts []), tt),
            ),
          ),
        ),
      ),
    ),
  )
    where
      of :
          {A : Type 0} (conversion : Conversion A) (key : Text)
          → is_some (
              get_default conversion.get conversion.zero_value
                (find key (field (codes "ip") local_host further_values)))
            ≡ true
          → Returns conversion c key
      of conversion key known =
          get_config-typed conversion.get conversion.zero_value key (codes "ip") local_host fields
            further_values null c conversion.by_type loaded known
