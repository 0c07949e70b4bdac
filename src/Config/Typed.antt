-- ===== src/Config/Typed.antt =====
-- The values that `getConfig` of source/configjson.h returns behind `loadFile` of
-- source/configjson.cpp.
use juggernaut_server.Base.{
  ◌≡◌, ◌≢◌, refl, sym, ap, ◌∙◌, Bool, true, false, not, Option, none, some,
}
use juggernaut_server.Config.{
  Text, Json, object, Fields, end, field, type_name, find, members, compare_keys, ConfigJson,
  parsed, answered, is_object, is_empty_json, compare_json, report, load_parsed, load_file,
  get_default, get_found, get_config,
}
use juggernaut_server.Config.Shape.{compared}

abbrev pub is_some {ℓ} : {A : Type ℓ} → Option A → Bool
is_some none = false
is_some (some a) = true

-- Whether `get<T>` throws depends on the type of the value alone.
abbrev pub IsByType : {T : Type 0} → (Json → Option T) → Type 0
IsByType get = (a b : Json) → type_name a ≡ type_name b → is_some (get a) ≡ is_some (get b)

-- The configuration before a file is loaded.
abbrev pub with_defaults : Fields → Json → ConfigJson
with_defaults defaults old = record { values = object defaults; default_config = old }

abbrev pub with_file : Fields → Fields → ConfigJson
with_file fields defaults = record { values = object fields; default_config = object defaults }

-- What `loadFile` makes of an object, over defaults.
load_file-object :
    (fields : Fields) (k : Text) (d : Json) (defaults : Fields) (old : Json)
    → load_file (parsed (object fields)) (with_defaults (field k d defaults) old)
      ≡ answered true
          (not (compare_keys fields (field k d defaults)))
          (with_file fields (field k d defaults))
unfolding load_file load_parsed report compare_json is_object is_empty_json members compare_keys
load_file-object end k d defaults old = refl
load_file-object (field key value fields) k d defaults old = refl

is_some-eq : {T : Type 0} (o : Option T) → is_some o ≡ true → (v : T) × (o ≡ some v)
is_some-eq none h = absurd (cc)
is_some-eq (some v) h = (v, refl)

-- The parts of an answer.
answered_parts :
    (b : Bool) (c c' : ConfigJson)
    → answered true (not b) c ≡ answered true false c'
    → (b ≡ true) × (c ≡ c')
answered_parts true c c' h = (refl, cc)
answered_parts false c c' h = absurd (cc)

get_config-with_file :
    {T : Type 0} (get : Json → Option T) (zero_value : T) (key : Text) (fields defaults : Fields)
    → IsByType get
    → compare_keys fields defaults ≡ true
    → is_some (get_default get zero_value (find key defaults)) ≡ true
    → is_some (get_config get zero_value key (with_file fields defaults)) ≡ true
unfolding get_config get_found get_default members
get_config-with_file {T} get zero_value key fields defaults typed same known =
    with_found (find key fields) refl
  where
    unfolded :
        (o : Option Json) (default : Json)
        → o ≡ some default
        → is_some (get_default get zero_value o) ≡ is_some (get default)
    unfolded o default e = ap (λ x. is_some (get_default get zero_value x)) e

    with_found :
        (o : Option Json)
        → find key fields ≡ o
        → is_some (get_found get zero_value o (find key defaults)) ≡ true
    with_found none e = known
    with_found (some value) e =
        let (default, f, types, below) = compared key fields defaults value same e in
        typed value default types ∙ sym (unfolded (find key defaults) default f) ∙ known

-- Behind a file of an object that was loaded over defaults with keys and not reported, `getConfig`
-- does not throw at any key at which it does not throw for the defaults, whichever of the two it takes
-- the value from; `get<T>` throws by the type of the value.
pub get_config-typed :
    {T : Type 0} (get : Json → Option T) (zero_value : T) (key k : Text) (d : Json)
    (fields defaults : Fields) (old : Json) (c : ConfigJson)
    → IsByType get
    → load_file (parsed (object fields)) (with_defaults (field k d defaults) old)
      ≡ answered true false c
    → is_some (get_default get zero_value (find key (field k d defaults))) ≡ true
    → (v : T) × (get_config get zero_value key c ≡ some v)
get_config-typed get zero_value key k d fields defaults old c typed loaded known =
    let all = field k d defaults in
    let (same, config) =
      answered_parts (compare_keys fields all) (with_file fields all) c
        (sym (load_file-object fields k d defaults old) ∙ loaded) in
    is_some-eq (get_config get zero_value key c) (
      ap (λ x. is_some (get_config get zero_value key x)) (sym config)
      ∙ get_config-with_file get zero_value key fields all typed same known)

-- A key whose value has another type than its default is reported and accepted all the same: `loadFile`
-- answers true for the object, and `getConfig` throws at the key if `get<T>` throws for the value.
load_file-misfit :
    {T : Type 0} (get : Json → Option T) (zero_value : T) (key k : Text) (d : Json)
    (fields defaults : Fields) (old value default : Json)
    → find key fields ≡ some value
    → find key (field k d defaults) ≡ some default
    → type_name value ≢ type_name default
    → get value ≡ none
    → (load_file (parsed (object fields)) (with_defaults (field k d defaults) old)
        ≡ answered true true (with_file fields (field k d defaults)))
      × (get_config get zero_value key (with_file fields (field k d defaults)) ≡ none)
unfolding get_config get_found members
load_file-misfit get zero_value key k d fields defaults old value default is_value is_default differ
      throws =
    (
      load_file-object fields k d defaults old
          ∙ ap (λ b. answered true (not b) (with_file fields all))
              (refused (compare_keys fields all) refl),
      ap (λ o. get_found get zero_value o (find key all)) is_value ∙ throws,
    )
  where
    all : Fields
    all = field k d defaults

    refused : (b : Bool) → compare_keys fields all ≡ b → b ≡ false
    refused false e = refl
    refused true e =
        let (other, f, types, below) = compared key fields all value e is_value in
        let same_default : other ≡ default = cc in
        absurd (differ (types ∙ ap type_name same_default))
