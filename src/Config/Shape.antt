-- ===== src/Config/Shape.antt =====
-- What `jsonCompareKey` of source/configjson.cpp decides, described by paths: a path is the keys from
-- an object down to a value.
use juggernaut_server.Base.{
  ℕ, ◌==◌, ==_iff, ◌≡◌, ◌↔◌, ◌⊎◌, inl, inr, refl, sym, ap, subst, ◌∙◌, Bool, true, false, ◌&&◌,
  List, [], ◌∷◌, Option, none, some, text_eq, text_eq_iff, text_eq_refl, if◌then◌else◌,
}
use juggernaut_server.Config.{
  Text, Json, null, boolean, number, text, array, object, Fields, end, field, type_name, find,
  members, compare_keys, compare_members,
}

-- The type of the value at a path, if there is one.
unfoldable pub type_at : List Text → Json → Option ℕ
unfolding type_name find members
type_at [] value = some (type_name value)
type_at (key ∷ keys) value = elim (find key (members value)) [
  | none ↦ none
  | some inner ↦ type_at keys inner
]

-- Every path of the first object leads to a value of the same type in the second.
abbrev pub Fits : Json → Json → Type 0
Fits value default =
    (path : List Text) → (type_at path value ≡ none) ⊎ (type_at path value ≡ type_at path default)

-- No object has a key twice.
unfoldable mutual
  pub IsUnique : Json → Type 0
  IsUnique null = Unit
  IsUnique (boolean b) = Unit
  IsUnique (number n) = Unit
  IsUnique (text s) = Unit
  IsUnique (array items) = Unit
  IsUnique (object fields) = AreUnique fields

  pub AreUnique : Fields → Type 0
  AreUnique end = Unit
  AreUnique (field key value fields) = (find key fields ≡ none) × IsUnique value × AreUnique fields

both : (a b : Bool) → (a && b) ≡ true → (a ≡ true) × (b ≡ true)
both true b h = (refl, h)
both false b h = absurd (cc)

all_true : {a b c : Bool} → a ≡ true → b ≡ true → c ≡ true → (a && (b && c)) ≡ true
all_true h h' h'' = rw (h, h', h'') refl

-- The value found by a key was compared.
pub compared :
    (key : Text) (fields defaults : Fields) (value : Json)
    → compare_keys fields defaults ≡ true
    → find key fields ≡ some value
    → (default : Json) × (find key defaults ≡ some default)
      × (type_name value ≡ type_name default)
      × (compare_members value default ≡ true)
unfolding compare_keys find
compared key end defaults value same e = absurd (cc)
compared key (field k v fields) defaults value same e =
    with_found (text_eq k key) (find k defaults) refl refl same e
      (λ rest e'. compared key fields defaults value rest e')
  where
    Compared : Type 0
    Compared =
        (default : Json) × (find key defaults ≡ some default)
        × (type_name value ≡ type_name default)
        × (compare_members value default ≡ true)

    with_found :
        (b : Bool) (o : Option Json)
        → text_eq k key ≡ b
        → find k defaults ≡ o
        → (elim o [
          | none ↦ false
          | some default ↦
              (type_name v == type_name default)
              && (compare_members v default && compare_keys fields defaults)
        ])
          ≡ true
        → (if b then some v else find key fields) ≡ some value
        → (compare_keys fields defaults ≡ true → find key fields ≡ some value → Compared)
        → Compared
    with_found b none t f same e rest = absurd (cc)
    with_found true (some default) t f same e rest =
        let (named, below) = both (type_name v == type_name default) _ same in
        let same_value : v ≡ value = cc in
        (
          default,
          ap (λ k'. find k' defaults) (sym ((text_eq_iff k key).0 t)) ∙ f,
          ap type_name (sym same_value) ∙ (==_iff (type_name v) (type_name default)).0 named,
          ap (λ w. compare_members w default) (sym same_value)
              ∙ (both (compare_members v default) _ below).0,
        )
    with_found false (some default) t f same e rest =
        let below = (both (type_name v == type_name default) _ same).1 in
        rest ((both (compare_members v default) _ below).1) e

-- What lies at a path below compared values.
below-Fits :
    (path : List Text) (value default : Json)
    → type_name value ≡ type_name default
    → compare_members value default ≡ true
    → (type_at path value ≡ none) ⊎ (type_at path value ≡ type_at path default)
unfolding type_at compare_keys
below-Fits [] value default e same = inr (ap some e)
below-Fits (key ∷ keys) (object fields) default e same =
    found (find key fields) refl
      (λ inner h. compared key fields (members default) inner (compared_members same) h)
      (λ inner d. below-Fits keys inner d)
  where
    compared_members :
        compare_members (object fields) default ≡ true
        → compare_keys fields (members default) ≡ true
    compared_members h = h

    at : Option Json → Option ℕ
    at o = elim o [ none ↦ none | some inner ↦ type_at keys inner ]

    found :
        (o : Option Json)
        → find key fields ≡ o
        → ((inner : Json)
            → find key fields ≡ some inner
            → (d : Json) × (find key (members default) ≡ some d)
              × (type_name inner ≡ type_name d)
              × (compare_members inner d ≡ true))
        → ((inner d : Json)
            → type_name inner ≡ type_name d
            → compare_members inner d ≡ true
            → (type_at keys inner ≡ none) ⊎ (type_at keys inner ≡ type_at keys d))
        → (at o ≡ none) ⊎ (at o ≡ at (find key (members default)))
    found none h get rec = inl refl
    found (some inner) h get rec =
        let (d, is_d, types, below) = get inner h in
        elim (rec inner d types below) [
          | inl no_value ↦ inl no_value
          | inr same_type ↦ inr (same_type ∙ ap at (sym is_d))
        ]
below-Fits (key ∷ keys) null default e same = inl refl
below-Fits (key ∷ keys) (boolean b) default e same = inl refl
below-Fits (key ∷ keys) (number n) default e same = inl refl
below-Fits (key ∷ keys) (text s) default e same = inl refl
below-Fits (key ∷ keys) (array items) default e same = inl refl

abbrev type_below : List Text → Option Json → Option ℕ
type_below keys o = elim o [ none ↦ none | some inner ↦ type_at keys inner ]

-- What is known of the paths through a key, and of the others.
first_key :
    (key : Text) (value : Json) (fields defaults : Fields) (keys : List Text)
    → (type_at (key ∷ keys) (object (field key value fields)) ≡ none)
      ⊎ (type_at (key ∷ keys) (object (field key value fields))
          ≡ type_at (key ∷ keys) (object defaults))
    → (type_at keys value ≡ none) ⊎ (type_at keys value ≡ type_at (key ∷ keys) (object defaults))
unfolding type_at find members
first_key key value fields defaults keys h =
    subst
      (λ b.
        (type_below keys (if b then some value else find key fields) ≡ none)
        ⊎ (type_below keys (if b then some value else find key fields)
            ≡ type_below keys (find key defaults)))
      (text_eq_refl key) h

other_keys :
    (key k : Text) (value : Json) (fields defaults : Fields) (keys : List Text)
    → find key fields ≡ none
    → (type_at (k ∷ keys) (object (field key value fields)) ≡ none)
      ⊎ (type_at (k ∷ keys) (object (field key value fields))
          ≡ type_at (k ∷ keys) (object defaults))
    → (type_at (k ∷ keys) (object fields) ≡ none)
      ⊎ (type_at (k ∷ keys) (object fields) ≡ type_at (k ∷ keys) (object defaults))
unfolding type_at find members
other_keys key k value fields defaults keys unique h = with_test (text_eq key k) refl h
  where
    at : Option Json → Option ℕ
    at o = elim o [ none ↦ none | some inner ↦ type_at keys inner ]

    with_test :
        (b : Bool)
        → text_eq key k ≡ b
        → (at (if b then some value else find k fields) ≡ none)
          ⊎ (at (if b then some value else find k fields) ≡ at (find k defaults))
        → (at (find k fields) ≡ none) ⊎ (at (find k fields) ≡ at (find k defaults))
    with_test true e h =
        inl (ap at (ap (λ j. find j fields) (sym ((text_eq_iff key k).0 e)) ∙ unique))
    with_test false e h = h

-- A value at the key itself.
has_default :
    (key : Text) (value : Json) (defaults : Fields)
    → (type_at [] value ≡ none) ⊎ (type_at [] value ≡ type_at (key ∷ []) (object defaults))
    → (default : Json) × (find key defaults ≡ some default) × (type_name value ≡ type_name default)
unfolding type_at members
has_default key value defaults (inl h) = absurd (cc)
has_default key value defaults (inr h) = with_found (find key defaults) refl h
  where
    with_found :
        (o : Option Json)
        → find key defaults ≡ o
        → some (type_name value) ≡ (elim o [ none ↦ none | some inner ↦ some (type_name inner) ])
        → (default : Json) × (find key defaults ≡ some default)
          × (type_name value ≡ type_name default)
    with_found none e h = absurd (cc)
    with_found (some default) e h = (default, e, cc)

at_default :
    (key : Text) (defaults : Fields) (default : Json) (keys : List Text)
    → find key defaults ≡ some default
    → type_at (key ∷ keys) (object defaults) ≡ type_at keys default
unfolding type_at members
at_default key defaults default keys e =
    ap (λ (o : Option Json). elim o [ none ↦ none | some inner ↦ type_at keys inner ]) e

-- The comparison of a key whose default was found.
compare_keys-found :
    (key : Text) (value default : Json) (fields defaults : Fields)
    → find key defaults ≡ some default
    → type_name value ≡ type_name default
    → compare_members value default ≡ true
    → compare_keys fields defaults ≡ true
    → compare_keys (field key value fields) defaults ≡ true
unfolding compare_keys
compare_keys-found key value default fields defaults f types below rest =
    ap
      (λ (o : Option Json). elim o [
        | none ↦ false
        | some d ↦
            (type_name value == type_name d)
            && (compare_members value d && compare_keys fields defaults)
      ])
      f
    ∙ all_true ((==_iff (type_name value) (type_name default)).1 types) below rest

mutual
  unfolding type_at members compare_keys AreUnique

  Fits-compare_keys :
      (fields defaults : Fields)
      → AreUnique fields
      → ((key : Text) (keys : List Text)
          → (type_at (key ∷ keys) (object fields) ≡ none)
            ⊎ (type_at (key ∷ keys) (object fields) ≡ type_at (key ∷ keys) (object defaults)))
      → compare_keys fields defaults ≡ true
  Fits-compare_keys end defaults unique fits = refl
  Fits-compare_keys (field key value fields) defaults (new, inner, others) fits =
      let through =
        λ (keys : List Text). first_key key value fields defaults keys (fits key keys) in
      let (default, f, types) = has_default key value defaults (through []) in
      compare_keys-found key value default fields defaults f types
        (Fits-compare_members value default inner (λ keys. elim (through keys) [
          | inl no_value ↦ inl no_value
          | inr same_type ↦ inr (same_type ∙ at_default key defaults default keys f)
        ]))
        (Fits-compare_keys fields defaults others
          (λ k keys. other_keys key k value fields defaults keys new (fits k keys)))

  Fits-compare_members :
      (value default : Json)
      → IsUnique value
      → ((keys : List Text)
          → (type_at keys value ≡ none) ⊎ (type_at keys value ≡ type_at keys default))
      → compare_members value default ≡ true
  Fits-compare_members (object fields) default unique fits =
      Fits-compare_keys fields (members default) unique (λ key keys. fits (key ∷ keys))
  Fits-compare_members null default unique fits = refl
  Fits-compare_members (boolean b) default unique fits = refl
  Fits-compare_members (number n) default unique fits = refl
  Fits-compare_members (text s) default unique fits = refl
  Fits-compare_members (array items) default unique fits = refl

-- `jsonCompareKey` accepts an object without double keys against another exactly when every path of
-- keys that leads to a value in the first leads to a value of the same type in the second.
pub compare_keys-iff-Fits :
    (fields defaults : Fields)
    → AreUnique fields
    → (compare_keys fields defaults ≡ true) ↔ Fits (object fields) (object defaults)
unfolding compare_keys members type_name
compare_keys-iff-Fits fields defaults unique = (
  (λ same path. below-Fits path (object fields) (object defaults) refl same),
  (λ fits. Fits-compare_keys fields defaults unique (λ key keys. fits (key ∷ keys))),
)
