-- ===== src/DatabaseSchema/Versions.antt =====
-- `getDatabaseVersion` of source/databasemanager.cpp, over a table of settings (see Settings).
use juggernaut_server.Base.{
  ◌^◌, ◌<◌, ◌≡◌, refl, ap, ◌∙◌, Bool, [], ◌∷◌, Option, none, some, length, codes, decimal,
  if◌then◌else◌, arith,
}
use juggernaut_server.Database.{Text, DbResult}
use juggernaut_server.Database.Interface.{DatabaseOps, Action, ◌>>=◌, pure, lift}
use juggernaut_server.DatabaseSchema.{
  ℤ, pos, show_number, table_exists, version_or, read_version, get_database_version, has_result,
  exists_query, first_version_query,
}
use juggernaut_server.DatabaseSchema.Settings.{
  Settings, SettingsTable, setting, IsSettingsTable, value_of,
}
use juggernaut_server.DatabaseSchema.Registering.{get_database_config-value, shown_value}

module _ {W : Type 0} (db : DatabaseOps W) (database : Text) (lexical_cast : Text → Option ℤ)
    (same : Text → Text → Bool) (literal : Text → Text) (table : W → SettingsTable)
    (t : IsSettingsTable db database lexical_cast same literal table) where
  -- The version that a table has: 0 without a table, and -1 without the setting.
  abbrev pub version_of : SettingsTable → ℤ
  version_of none = pos 0
  version_of (some settings) =
      version_or (value_of lexical_cast (setting same (codes "db_version") settings))

  abbrev exists_first : (Bool → Action W ℤ) → Option (Option DbResult × W) → Option (ℤ × W)
  exists_first next r = elim r [ none ↦ none | some (result, w') ↦ next (has_result result) w' ]

  table_exists-first :
      (w : W)
      → length database < 2 ^ 31
      → get_database_version db lexical_cast database w
        ≡ exists_first
            (read_version db lexical_cast)
            (db.store_query (exists_query (literal database) (literal (codes "server_config"))) w)
  unfolding get_database_version table_exists
  table_exists-first w short =
      let ask : Text → Text → Action W Bool = λ (schema name : Text).
        db.store_query (exists_query schema name) >>= λ result. pure (has_result result) in
      let next : Option (Bool × W) → Option (ℤ × W) = λ (x : Option (Bool × W)). elim x [
        | none ↦ none
        | some (b, w') ↦ read_version db lexical_cast b w'
      ] in
      ap
        (λ (o : Option Text).
          next (
            (lift o >>= λ schema. lift (db.escape_string (codes "server_config")) >>= ask schema)
              w))
        (t.escapes database short)
      ∙ ap (λ (o : Option Text). next ((lift o >>= ask (literal database)) w))
          (t.escapes (codes "server_config") (omega arith))
      ∙ asked (db.store_query (exists_query (literal database) (literal (codes "server_config"))) w)
    where
      asked :
          (r : Option (Option DbResult × W))
          → ◌≡◌ {A = Option (ℤ × W)}
              (elim (elim r as (λ x. Option (Bool × W)) [
                | none ↦ none
                | some (result, w') ↦ some (has_result result, w')
              ]) [ none ↦ none | some (b, w') ↦ read_version db lexical_cast b w' ])
              (exists_first (read_version db lexical_cast) r)
      asked none = refl
      asked (some (result, w')) = refl

  first_setting : version_of (some ((codes "db_version", codes "0") ∷ [])) ≡ pos 0
  unfolding setting version_or show_number decimal
  first_setting =
      ap (λ b. version_or (value_of lexical_cast (if b then some (codes "0") else none)))
        (t.same_refl (codes "db_version"))
      ∙ ap version_or (shown_value lexical_cast (pos 0) (t.casts (pos 0) (omega arith)))

  -- Where MySQL answers the queries and does the CREATE and the INSERT, over a table of settings
  -- that may not exist, and for a database's name of less than 2 ^ 31 characters:
  -- `getDatabaseVersion` returns the version that the table has, and leaves a table with the same
  -- version: without a table it makes one with the version 0, and -1 is the version of a table
  -- without the setting. A CREATE that fails, which the code ignores, is not covered.
  pub get_database_version-version :
      (w : W)
      → length database < 2 ^ 31
      → (w' : W) × (settings : Settings) × (get_database_version db lexical_cast database w
          ≡ some (version_of (table w), w'))
        × (table w' ≡ some settings)
        × (version_of (some settings) ≡ version_of (table w))
  unfolding read_version
  get_database_version-version w short = with_table (table w) refl
    where
      fresh : Settings
      fresh = (codes "db_version", codes "0") ∷ []

      run : Option (Option DbResult × W) → Option (ℤ × W)
      run = exists_first (read_version db lexical_cast)

      with_table :
          (o : SettingsTable)
          → table w ≡ o
          → (w' : W) × (settings : Settings) × (get_database_version db lexical_cast database w
              ≡ some (version_of o, w'))
            × (table w' ≡ some settings)
            × (version_of (some settings) ≡ version_of o)
      with_table none e =
          let (u, r, kept) = t.shows_missing w e in
          let (u', made, has) = t.creates u (kept ∙ e) in
          let (u'', written, has') = t.first_version u' has in
          (
            u'',
            fresh,
            table_exists-first w short
                ∙ ap run r
                ∙ ap
                    (λ (x : Option (Bool × W)). elim x [
                      | none ↦ none
                      | some (b, w'') ↦ elim (db.execute_query first_version_query w'') [
                        | none ↦ none
                        | some (c, w3) ↦ some (pos 0, w3)
                      ]
                    ])
                    made
                ∙ ap
                    (λ (x : Option (Bool × W)). elim x [
                      | none ↦ none
                      | some (c, w3) ↦ some (pos 0, w3)
                    ])
                    written,
            has',
            first_setting,
          )
      with_table (some settings) e =
          let (u, r, kept) = t.shows_table w settings e in
          let (u', value, kept') =
            get_database_config-value db database lexical_cast same literal table t
              (codes "db_version") u settings (omega arith) (kept ∙ e) in
          (
            u',
            settings,
            table_exists-first w short
                ∙ ap run r
                ∙ ap
                    (λ (x : Option (Option ℤ × W)). elim x [
                      | none ↦ none
                      | some (version, w'') ↦ some (version_or version, w'')
                    ])
                    value,
            kept' ∙ kept ∙ e,
            refl,
          )
