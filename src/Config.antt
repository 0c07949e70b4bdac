-- ===== src/Config.antt =====
-- `ConfigJson` of source/configjson.h and source/configjson.cpp. The JSON library is not part of the
-- repository: a value is what its interface shows, an object its keys in their order, and the
-- conversion `get<T>` a parameter, none where it throws.
use juggernaut_server.Base.{
  ℕ, zero, suc, Bool, true, false, not, ◌&&◌, List, [], ◌∷◌, Option, none, some, text_eq, ◌==◌,
  get_elem?, codes, if◌then◌else◌,
}
pub mod Shape
pub mod Typed
pub mod Defaults
mod Examples

abbrev pub Text : Type 0
Text = List ℕ

mutual
  pub data Json : Type 0 where
    null : Json
    boolean : Bool → Json
    number : ℕ → Json
    text : Text → Json
    array : Items → Json
    object : Fields → Json

  pub data Items : Type 0 where
    nil : Items
    cons : Json → Items → Items

  pub data Fields : Type 0 where
    end : Fields
    field : Text → Json → Fields → Fields

-- `type_name`, which does not tell integers from other numbers. It returns one of six literals, whose
-- addresses the program compares: they are numbered here.
unfoldable pub type_name : Json → ℕ
type_name null = 0
type_name (boolean b) = 1
type_name (number n) = 2
type_name (text s) = 3
type_name (array items) = 4
type_name (object fields) = 5

-- `find` on an object, and the inner loop of `jsonCompareKey`.
unfoldable pub find : Text → Fields → Option Json
find key end = none
find key (field k v fields) = let rest = find key fields in if text_eq k key then some v else rest

-- What the loops run over: the members of an object.
unfoldable pub members : Json → Fields
members (object fields) = fields
members value = end

-- `jsonCompareKey`: the outer loop, and the call for the members of a value.
unfoldable mutual
  unfolding find members type_name

  pub compare_keys : Fields → Fields → Bool
  compare_keys end defaults = true
  compare_keys (field key value fields) defaults = elim (find key defaults) [
    | none ↦ false
    | some default ↦
        (type_name value == type_name default)
        && (compare_members value default && compare_keys fields defaults)
  ]

  pub compare_members : Json → Json → Bool
  compare_members (object fields) default = compare_keys fields (members default)
  compare_members value default = true

pub record ConfigJson : Type 0 where
  pub values : Json
  pub default_config : Json

-- The file: missing, refused by the parser, or a value.
pub data ConfigFile : Type 0 where
  missing malformed : ConfigFile
  parsed : Json → ConfigFile

-- How `loadFile` ends: it answers, having reported the keys or not, or throws.
pub data Loaded : Type 0 where
  answered : Bool → Bool → ConfigJson → Loaded
  parse_error invalid_iterator : Loaded

unfoldable pub is_object : Json → Bool
is_object (object fields) = true
is_object value = false

-- `empty`.
unfoldable pub is_empty_json : Json → Bool
is_empty_json null = true
is_empty_json (array nil) = true
is_empty_json (object end) = true
is_empty_json value = false

-- `jsonCompareKey(this, &m_defaultConfig)`; the iterators of what is not an object have no keys.
unfoldable pub compare_json : Fields → Json → Option Bool
unfolding compare_keys
compare_json end default = some true
compare_json fields (object defaults) = some (compare_keys fields defaults)
compare_json fields default = none

unfoldable pub report : Option Bool → ConfigJson → Loaded
report none c = invalid_iterator
report (some same) c = answered true (not same) c

-- The tests behind the parser. A key that does not fit is reported only.
unfoldable pub load_parsed : Json → ConfigJson → Loaded
unfolding is_object is_empty_json compare_json report
load_parsed value c =
    let c' : ConfigJson = record { values = value; default_config = c.values } in
    if not (is_object value)
    then answered false false c'
    else (if is_empty_json c.values
        then answered true false c'
        else report (compare_json (members value) c.values) c')

unfoldable pub load_file : ConfigFile → ConfigJson → Loaded
unfolding load_parsed
load_file missing c = answered false false c
load_file malformed c = parse_error
load_file (parsed value) c = load_parsed value c

-- `getConfig<T>`, with the value of `T()`; `none` where `get<T>` throws.
module _ {T : Type 0} (get : Json → Option T) (zero_value : T) where
  unfoldable pub get_default : Option Json → Option T
  get_default none = some zero_value
  get_default (some value) = get value

  unfoldable pub get_found : Option Json → Option Json → Option T
  unfolding get_default
  get_found none default = get_default default
  get_found (some value) default = get value

  unfoldable pub get_config : Text → ConfigJson → Option T
  unfolding get_found find members
  get_config key c = get_found (find key (members c.values)) (find key (members c.default_config))

  unfoldable pub get_element : Json → Option T
  get_element null = some zero_value
  get_element value = get value

-- `getTable`: the value of a key as a configuration of its own, without defaults.
unfoldable pub get_table : Text → ConfigJson → Option ConfigJson
unfolding get_config
get_table key c = elim (get_config some null key c) [
  | none ↦ none
  | some value ↦ some (record { values = value; default_config = null })
]

-- `at(key)` of an array, and `getValue<T>`; `none` is a key out of range.
unfoldable pub element : ℕ → Items → Option Json
element i nil = none
element zero (cons value items) = some value
element (suc i) (cons value items) = element i items

-- `g_json` of source/main.cpp, before the file is loaded.
abbrev pub local_host : Json
local_host = text (codes "127.0.0.1")

abbrev pub further_values : Fields
further_values = field (codes "rsa") (boolean true) (
    field (codes "loginPort") (number 7171) (
      field (codes "gamePort") (number 7172) (
        field (codes "mysqlPort") (number 3306) (
          field (codes "mysqlHost") local_host (
            field (codes "mysqlUser") (text (codes "root")) (
              field (codes "mysqlPass") (text []) (
                field (codes "mysqlDatabase") (text (codes "database")) (
                  field (codes "mysqlSock") (text []) (
                    field (codes "statusPort") (number 7171) (
                      field (codes "bindOnlyGlobalAddress") (boolean true) (
                        field (codes "startupDatabaseOptimization") (boolean true)
                          (field (codes "maxPacketsPerSecond") (number 250) end))))))))))))

abbrev pub global_config : ConfigJson
global_config = record {
  values = object (field (codes "ip") local_host further_values);
  default_config = null;
}
