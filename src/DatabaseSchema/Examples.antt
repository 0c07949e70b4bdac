-- ===== src/DatabaseSchema/Examples.antt =====
-- The settings of a table that is a list: the queries are parsed, and a literal is the text behind 1000
-- and its length.
use juggernaut_server.Base.{
  ◌≡◌, ◌≢◌, refl, ap, ap₂, ◌∙◌, true, false, List, [], ◌∷◌, ◌++◌, Option, none, some, length, codes,
  text_eq, text_eq_refl, text_eq→eq, ◌==◌, if◌then◌else◌, arith, take, drop, get_or, take_all,
  take-append, drop-append, All,
}
use juggernaut_server.Database.{Text, DbResult}
use juggernaut_server.Database.Interface.{DatabaseOps, found}
use juggernaut_server.DatabaseSchema.{
  ℤ, pos, negsuc, show_number, fragmented_query, optimize_query, exists_query, create_query,
  first_version_query, select_config, insert_config, update_config, optimize_tables,
  get_database_config, register_database_config, get_database_version,
}
use juggernaut_server.DatabaseSchema.Decimals.{
  lexical_cast, lexical_cast-show_number, show_number-avoids,
}
use juggernaut_server.DatabaseSchema.Optimizing.{optimize_tables-each, run_each}
use juggernaut_server.DatabaseSchema.Settings.{
  Settings, SettingsTable, setting, set_setting, value_rows, IsSettingsTable,
}
use juggernaut_server.DatabaseSchema.Registering.{register-get}
use juggernaut_server.DatabaseSchema.Versions.{get_database_version-version, version_of}

abbrev literal : Text → Text
literal s = 1000 ∷ length s ∷ s

-- The text of the first literal.
unfoldable cut : Text → Text
cut [] = []
cut (c ∷ []) = []
cut (c ∷ n ∷ s) = take n s

unfoldable behind : Text → Text
behind [] = []
behind (c ∷ []) = []
behind (c ∷ n ∷ s) = drop n s

cut-literal : (s rest : Text) → cut (literal s ++ rest) ≡ s
unfolding cut
cut-literal s rest = take-append s rest (length s) refl

behind-literal : (s rest : Text) → behind (literal s ++ rest) ≡ rest
unfolding behind
behind-literal s rest = drop-append s rest (length s) refl

cut_last : (s : Text) → cut (literal s) ≡ s
unfolding cut
cut_last s = take_all s (length s) (omega arith)

-- The text before a quote, and behind it.
unfoldable until_quote : Text → Text
until_quote [] = []
until_quote (c ∷ s) = let rest = until_quote s in if c == 39 then [] else c ∷ rest

unfoldable after_quote : Text → Text
after_quote [] = []
after_quote (c ∷ s) = let rest = after_quote s in if c == 39 then s else rest

until_quote-text : (s rest : Text) → All (λ c. c ≢ 39) s → until_quote (s ++ 39 ∷ rest) ≡ s
unfolding until_quote
until_quote-text [] rest clean = refl
until_quote-text (c ∷ s) rest (differs, clean) =
    ground (arith, differs, until_quote-text s rest clean)

after_quote-text : (s rest : Text) → All (λ c. c ≢ 39) s → after_quote (s ++ 39 ∷ rest) ≡ rest
unfolding after_quote
after_quote-text [] rest clean = refl
after_quote-text (c ∷ s) rest (differs, clean) =
    ground (arith, differs, after_quote-text s rest clean)

abbrev answer : Text → SettingsTable → Option DbResult
answer query none = none
answer query (some settings) =
    if get_or query 8 0 == b'T'
    then found (codes "TABLE_NAME") ((some (codes "server_config") ∷ []) ∷ [])
    else found (codes "value") (value_rows (setting text_eq (cut (drop 53 query)) settings))

abbrev update : Text → Settings → Settings
update query settings =
    let value = drop 38 query in
    set_setting text_eq (cut (drop 18 (after_quote value))) (until_quote value) settings

abbrev insert : Text → Settings → Settings
insert query settings =
    let name = drop 36 query in
    if get_or name 0 0 == 39
    then (codes "db_version", codes "0") ∷ settings
    else (cut name, until_quote (drop 3 (behind name))) ∷ settings

abbrev change : Text → SettingsTable → SettingsTable
change query none = some []
change query (some settings) =
    some (if get_or query 0 0 == b'U' then update query settings else insert query settings)

abbrev config_table : DatabaseOps SettingsTable
config_table = record {
  store_query = λ query w. some (answer query w, w);
  execute_query = λ query w. some (true, change query w);
  escape_string = λ s. some (literal s);
}

insert-config :
    (config : Text) (v : ℤ) (settings : Settings)
    → change (insert_config (literal config) (show_number v)) (some settings)
      ≡ some ((config, show_number v) ∷ settings)
unfolding insert_config
insert-config config v settings =
    let rest = codes ", '" ++ (show_number v ++ codes "')") in
    ap₂ (λ (name value : Text). some ((name, value) ∷ settings)) (cut-literal config rest)
      (ap (λ s. until_quote (drop 3 s)) (behind-literal config rest)
        ∙ until_quote-text (show_number v) (codes ")") (show_number-avoids 39 v (omega arith)))

update-config :
    (config : Text) (v : ℤ) (settings : Settings)
    → change (update_config (literal config) (show_number v)) (some settings)
      ≡ some (set_setting text_eq config (show_number v) settings)
unfolding update_config
update-config config v settings =
    let rest = codes " WHERE `config` = " ++ literal config in
    let clean = show_number-avoids 39 v (omega arith) in
    ap₂ (λ (name value : Text). some (set_setting text_eq name value settings))
      (ap (λ s. cut (drop 18 s)) (after_quote-text (show_number v) rest clean) ∙ cut_last config)
      (until_quote-text (show_number v) rest clean)

config_table-IsSettingsTable :
    IsSettingsTable config_table (codes "game") lexical_cast text_eq literal (λ w. w)
unfolding exists_query first_version_query create_query select_config
config_table-IsSettingsTable = record {
  escapes = λ s h. refl;
  same_refl = text_eq_refl;
  same_trans = λ a b c ab ac. cc (text_eq→eq a b ab);
  casts = lexical_cast-show_number;
  shows_missing = λ w h. (
    w,
    ap
        (λ (o : SettingsTable).
          some
            (answer (exists_query (literal (codes "game")) (literal (codes "server_config"))) o, w))
        h,
    refl,
  );
  shows_table = λ w settings h. (
    w,
    ap
        (λ (o : SettingsTable).
          some
            (answer (exists_query (literal (codes "game")) (literal (codes "server_config"))) o, w))
        h,
    refl,
  );
  creates = λ w h. (change create_query w, refl, ap (change create_query) h);
  first_version = λ w h. (change first_version_query w, refl, ap (change first_version_query) h);
  selects = λ config w settings h. (
    w,
    ap (λ (o : SettingsTable). some (answer (select_config (literal config)) o, w)) h
        ∙ ap
            (λ (name : Text).
              some (found (codes "value") (value_rows (setting text_eq name settings)), w))
            (cut_last config),
    refl,
  );
  inserts = λ config v w settings short h missing. (
    change (insert_config (literal config) (show_number v)) w,
    refl,
    ap (change (insert_config (literal config) (show_number v))) h
        ∙ insert-config config v settings,
  );
  updates = λ config v w settings h. (
    change (update_config (literal config) (show_number v)) w,
    refl,
    ap (change (update_config (literal config) (show_number v))) h
        ∙ update-config config v settings,
  );
}

abbrev old_settings : Settings
old_settings = (codes "motd", codes "7") ∷ (codes "db_version", codes "12") ∷ []

abbrev two_tables : DatabaseOps (List Text)
two_tables = record {
  store_query = λ query sent. some (
    found (codes "TABLE_NAME") ((some (codes "a") ∷ []) ∷ (some (codes "b") ∷ []) ∷ []),
    query ∷ sent,
  );
  execute_query = λ query sent. some (false, query ∷ sent);
  escape_string = λ s. some (literal s);
}

abbrev asked : List Text
asked = fragmented_query (literal (codes "game")) ∷ []

optimize_tables-each_example :
    optimize_tables two_tables (codes "game") []
    ≡ some (true, optimize_query (codes "b") ∷ optimize_query (codes "a") ∷ asked)
unfolding run_each
optimize_tables-each_example =
    optimize_tables-each two_tables (codes "game") (literal (codes "game"))
      (codes "a" ∷ codes "b" ∷ []) [] asked
      (((λ e. omega (arith, e)), tt), (((λ e. omega (arith, e)), tt), tt)) refl refl

register-get_example :
    (w' : SettingsTable) × (w'' : SettingsTable) × (after : Settings) × (register_database_config
        config_table lexical_cast
        (codes "db_version")
        (negsuc 4)
        (some old_settings)
      ≡ some (tt, w'))
    × (get_database_config config_table lexical_cast (codes "db_version") w'
        ≡ some (some (negsuc 4), w''))
    × (w'' ≡ some after)
    × (setting text_eq (codes "motd") after ≡ setting text_eq (codes "motd") old_settings)
register-get_example =
    register-get config_table (codes "game") lexical_cast text_eq literal (λ w. w)
      config_table-IsSettingsTable (codes "db_version") (codes "motd") (negsuc 4)
      (some old_settings) old_settings (omega arith) (omega arith) refl refl

get_database_version-version_example :
    (w' : SettingsTable) × (settings : Settings) × (get_database_version config_table lexical_cast
        (codes "game")
        none
      ≡ some (pos 0, w'))
    × (w' ≡ some settings)
    × (version_of config_table
          (codes "game")
          lexical_cast
          text_eq
          literal
          (λ w. w)
          config_table-IsSettingsTable
          (some settings)
        ≡ pos 0)
get_database_version-version_example =
    get_database_version-version config_table (codes "game") lexical_cast text_eq literal (λ w. w)
      config_table-IsSettingsTable none (omega arith)
