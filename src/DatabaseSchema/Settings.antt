-- ===== src/DatabaseSchema/Settings.antt =====
-- What the queries of source/databasemanager.cpp for the table `server_config` rely on, and the
-- settings that `getDatabaseConfig` and `registerDatabaseConfig` read and write. The names of settings
-- are compared by the collation of the table, and `literal` is the quoted text.
use juggernaut_server.Base.{
  ◌^◌, ◌<◌, ◌≤◌, ◌≡◌, refl, Bool, true, false, List, [], ◌∷◌, Option, none, some, length, codes,
  if◌then◌else◌, arith,
}
use juggernaut_server.Database.{Text, Row, number_value}
use juggernaut_server.Database.Interface.{DatabaseOps, found}
use juggernaut_server.DatabaseSchema.{
  IsInt32, ℤ, pos, show_number, exists_query, create_query, first_version_query, select_config,
  insert_config, update_config,
}

abbrev pub Settings : Type 0
Settings = List (Text × Text)

-- The table, if it exists: the settings and their values.
abbrev pub SettingsTable : Type 0
SettingsTable = Option Settings

module _ (same : Text → Text → Bool) where
  unfoldable pub setting : Text → Settings → Option Text
  setting config [] = none
  setting config ((name, value) ∷ settings) =
      let rest = setting config settings in if same name config then some value else rest

  unfoldable pub set_setting : Text → Text → Settings → Settings
  set_setting config value [] = []
  set_setting config value ((name, old) ∷ settings) =
      let rest = set_setting config value settings in
      if same name config then (name, value) ∷ settings else (name, old) ∷ rest

-- The rows of a query for the value.
abbrev pub value_rows : Option Text → List Row
value_rows none = []
value_rows (some value) = (some value ∷ []) ∷ []

module _ {W : Type 0} (db : DatabaseOps W) (database : Text) (lexical_cast : Text → Option ℤ)
    (same : Text → Text → Bool) (literal : Text → Text) (table : W → SettingsTable) where
  -- Queries that read the table, and ones that change it.
  abbrev pub Reads : Text → Text → List Row → W → Type 0
  Reads query field rows w =
      (w' : W) × (db.store_query query w ≡ some (found field rows, w')) × (table w' ≡ table w)

  abbrev pub Writes : Text → SettingsTable → W → Type 0
  Writes query after w =
      (w' : W) × (db.execute_query query w ≡ some (true, w')) × (table w' ≡ after)

  pub record IsSettingsTable : Type 0 where
    pub escapes : (s : Text) → length s < 2 ^ 31 → db.escape_string s ≡ some (literal s)
    pub same_refl : (s : Text) → same s s ≡ true
    pub same_trans : (a b c : Text) → same a b ≡ true → same a c ≡ true → same b c ≡ true
    pub casts : (v : ℤ) → IsInt32 v → lexical_cast (show_number v) ≡ some v
    pub shows_missing :
        (w : W)
        → table w ≡ none
        → Reads
            (exists_query (literal database) (literal (codes "server_config")))
            (codes "TABLE_NAME")
            []
            w
    pub shows_table :
        (w : W) (settings : Settings)
        → table w ≡ some settings
        → Reads
            (exists_query (literal database) (literal (codes "server_config")))
            (codes "TABLE_NAME")
            ((some (codes "server_config") ∷ []) ∷ [])
            w
    pub creates : (w : W) → table w ≡ none → Writes create_query (some []) w
    pub first_version :
        (w : W)
        → table w ≡ some []
        → Writes first_version_query (some ((codes "db_version", codes "0") ∷ [])) w
    pub selects :
        (config : Text) (w : W) (settings : Settings)
        → table w ≡ some settings
        → Reads
            (select_config (literal config))
            (codes "value")
            (value_rows (setting same config settings))
            w
    pub inserts :
        (config : Text) (v : ℤ) (w : W) (settings : Settings)
        → length config ≤ 50
        → table w ≡ some settings
        → setting same config settings ≡ none
        → Writes
            (insert_config (literal config) (show_number v))
            (some ((config, show_number v) ∷ settings))
            w
    pub updates :
        (config : Text) (v : ℤ) (w : W) (settings : Settings)
        → table w ≡ some settings
        → Writes
            (update_config (literal config) (show_number v))
            (some (set_setting same config (show_number v) settings))
            w

-- What a stored value is read as.
abbrev pub value_of : (Text → Option ℤ) → Option Text → Option ℤ
value_of lexical_cast none = none
value_of lexical_cast (some value) = some (number_value (pos 0) lexical_cast (some value))

module _ (same : Text → Text → Bool) where
  pub setting-set_setting :
      (config value old : Text) (settings : Settings)
      → setting same config settings ≡ some old
      → setting same config (set_setting same config value settings) ≡ some value
  unfolding setting set_setting
  setting-set_setting config value old [] h = absurd (cc)
  setting-set_setting config value old ((name, v) ∷ settings) h =
      ground (arith, setting-set_setting config value old settings)

  pub setting-other :
      (config other value : Text) (settings : Settings)
      → ((a : Text) → same a config ≡ true → same a other ≡ true → same config other ≡ true)
      → same config other ≡ false
      → setting same other (set_setting same config value settings) ≡ setting same other settings
  unfolding setting set_setting
  setting-other config other value [] trans h = refl
  setting-other config other value ((name, v) ∷ settings) trans h =
      ground (arith, trans name, setting-other config other value settings trans h)
