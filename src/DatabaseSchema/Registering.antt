-- ===== src/DatabaseSchema/Registering.antt =====
-- `getDatabaseConfig` and `registerDatabaseConfig` of source/databasemanager.cpp, over a table of
-- settings (see Settings).
use juggernaut_server.Base.{
  ◌^◌, ◌<◌, ◌≤◌, ◌≡◌, refl, ap, ◌∙◌, Bool, true, false, [], ◌∷◌, Option, none, some, length, codes,
  if◌then◌else◌, arith,
}
use juggernaut_server.Database.{Text, DbResult, number_value, get_number}
use juggernaut_server.Database.Columns.{column-new_result, until_zero-text}
use juggernaut_server.Database.Interface.{DatabaseOps, found, Action, ◌>>=◌, pure, lift}
use juggernaut_server.DatabaseSchema.{
  IsInt32, ℤ, pos, show_number, select_config, config_value, get_database_config, write_query,
  register_database_config,
}
use juggernaut_server.DatabaseSchema.Decimals.{show_number-avoids}
use juggernaut_server.DatabaseSchema.Settings.{
  Settings, SettingsTable, setting, set_setting, value_rows, IsSettingsTable, value_of,
  setting-set_setting, setting-other,
}

-- What is made of the rows of a value.
config_value-rows :
    (lexical_cast : Text → Option ℤ) (o : Option Text)
    → config_value lexical_cast (found (codes "value") (value_rows o))
      ≡ some (value_of lexical_cast o)
unfolding config_value get_number
config_value-rows lexical_cast none = refl
config_value-rows lexical_cast (some value) =
    let number : Option (Option Text) → Option ℤ = λ (o : Option (Option Text)). elim o [
      | none ↦ none
      | some v ↦ some (number_value (pos 0) lexical_cast v)
    ] in
    let answer : Option (Option Text) → Option (Option ℤ) =
      λ (o : Option (Option Text)). elim (number o) [ none ↦ none | some v ↦ some (some v) ] in
    ap answer (column-new_result (codes "value") [] [] (some value ∷ []) [] (some value) tt refl)

pub shown_value :
    (lexical_cast : Text → Option ℤ) (v : ℤ)
    → lexical_cast (show_number v) ≡ some v
    → value_of lexical_cast (some (show_number v)) ≡ some v
unfolding number_value
shown_value lexical_cast v casts =
    let read : Option ℤ → Option ℤ =
      λ (o : Option ℤ). some (elim o [ none ↦ pos 0 | some n ↦ n ]) in
    ap (λ t. read (lexical_cast t))
      (until_zero-text (show_number v) (show_number-avoids 0 v (omega arith)))
    ∙ ap read casts

module _ {W : Type 0} (db : DatabaseOps W) (database : Text) (lexical_cast : Text → Option ℤ)
    (same : Text → Text → Bool) (literal : Text → Text) (table : W → SettingsTable)
    (t : IsSettingsTable db database lexical_cast same literal table) where
  -- A lookup returns what the table has.
  pub get_database_config-value :
      (config : Text) (w : W) (settings : Settings)
      → length config < 2 ^ 31
      → table w ≡ some settings
      → (w' : W) × (get_database_config db lexical_cast config w
          ≡ some (value_of lexical_cast (setting same config settings), w'))
        × (table w' ≡ table w)
  unfolding get_database_config
  get_database_config-value config w settings short h =
      let (w', r, kept) = t.selects config w settings h in
      let body : Text → Action W (Option ℤ) = λ (name : Text).
        db.store_query (select_config name) >>= λ result. lift (config_value lexical_cast result) in
      (
        w',
        ap (λ (o : Option Text). (lift o >>= body) w) (t.escapes config short)
            ∙ ap
                (λ (o : Option (Option DbResult × W)). elim o [
                  | none ↦ none
                  | some (result, u) ↦ lift (config_value lexical_cast result) u
                ])
                r
            ∙ ap (λ (o : Option (Option ℤ)). lift o w')
                (config_value-rows lexical_cast (setting same config settings)),
        kept,
      )

  -- The query that is sent, and the table behind it.
  write-Writes :
      (config : Text) (v : ℤ) (w : W) (settings : Settings) (o : Option Text)
      → length config ≤ 50
      → table w ≡ some settings
      → setting same config settings ≡ o
      → (w' : W) × (after : Settings) × (db.execute_query
            (write_query (value_of lexical_cast o) (literal config) v)
            w
          ≡ some (true, w'))
        × (table w' ≡ some after)
        × (setting same config after ≡ some (show_number v))
        × ((other : Text)
            → same config other ≡ false
            → setting same other after ≡ setting same other settings)
  unfolding write_query setting
  write-Writes config v w settings none short h e =
      let (w', r, after) = t.inserts config v w settings short h e in
      (
        w',
        (config, show_number v) ∷ settings,
        r,
        after,
        new_setting,
        λ other differ. other_setting other differ,
      )
    where
      new_setting : setting same config ((config, show_number v) ∷ settings) ≡ some (show_number v)
      new_setting =
          ap (λ b. if b then some (show_number v) else setting same config settings)
            (t.same_refl config)

      other_setting :
          (other : Text)
          → same config other ≡ false
          → setting same other ((config, show_number v) ∷ settings) ≡ setting same other settings
      other_setting other differ =
          ap (λ b. if b then some (show_number v) else setting same other settings) differ
  write-Writes config v w settings (some old) short h e =
      let (w', r, after) = t.updates config v w settings h in
      (
        w',
        set_setting same config (show_number v) settings,
        r,
        after,
        setting-set_setting same config (show_number v) old settings e,
        λ other differ.
            setting-other same config other (show_number v) settings
              (λ a. t.same_trans a config other) differ,
      )

  -- Registering, with what was read before.
  register-Writes :
      (config : Text) (v : ℤ) (w : W) (settings : Settings)
      → length config ≤ 50
      → table w ≡ some settings
      → (w' : W) × (after : Settings) × (register_database_config db lexical_cast config v w
          ≡ some (tt, w'))
        × (table w' ≡ some after)
        × (setting same config after ≡ some (show_number v))
        × ((other : Text)
            → same config other ≡ false
            → setting same other after ≡ setting same other settings)
  unfolding register_database_config
  register-Writes config v w settings short h =
      let (u, r, kept) = get_database_config-value config w settings (omega (arith, short)) h in
      let old = value_of lexical_cast (setting same config settings) in
      let (w', after, done, now, mine, others) =
        write-Writes config v u settings (setting same config settings) short (kept ∙ h) refl in
      let send : Option ℤ → Text → Action W (Unit {0}) = λ (o : Option ℤ) (name : Text).
        db.execute_query (write_query o name v) >>= λ written. pure tt in
      (
        w',
        after,
        ap
              (λ (x : Option (Option ℤ × W)). elim x [
                | none ↦ none
                | some (o, w'') ↦ (lift (db.escape_string config) >>= send o) w''
              ])
              r
            ∙ ap (λ (o : Option Text). (lift o >>= send old) u)
                (t.escapes config (omega (arith, short)))
            ∙ ap
                (λ (x : Option (Bool × W)). elim x [ none ↦ none | some (b, w'') ↦ some (tt, w'') ])
                done,
        now,
        mine,
        others,
      )

  -- Over a table of settings that exists, where MySQL does the INSERT and the UPDATE, for the name of a
  -- setting that fits its column of 50 characters, and for an integer of 32 bits: the integer that is
  -- registered under the name is the one that is looked up, whether the setting was there before or
  -- not, and a setting with another name keeps its value.
  pub register-get :
      (config other : Text) (v : ℤ) (w : W) (settings : Settings)
      → length config ≤ 50
      → IsInt32 v
      → table w ≡ some settings
      → same config other ≡ false
      → (w' : W) × (w'' : W) × (after : Settings) × (register_database_config db lexical_cast config
            v w
          ≡ some (tt, w'))
        × (get_database_config db lexical_cast config w' ≡ some (some v, w''))
        × (table w'' ≡ some after)
        × (setting same other after ≡ setting same other settings)
  register-get config other v w settings short small h differ =
      let (w', after, done, now, mine, others) = register-Writes config v w settings short h in
      let (w'', r, kept) = get_database_config-value config w' after (omega (arith, short)) now in
      (
        w',
        w'',
        after,
        done,
        r
            ∙ ap (λ (o : Option ℤ). some (o, w''))
                (ap (value_of lexical_cast) mine ∙ shown_value lexical_cast v (t.casts v small)),
        kept ∙ now,
        others other differ,
      )
