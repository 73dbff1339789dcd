-- ===== src/Settings/Databases.antt =====
-- pkg/db/mysql.go, and pkg/options/mysql_options.go and mongo_options.go. A duration is an integer of
-- nanoseconds. gorm, the drivers and the loggers are parameters.
use Prim.Native.String
use public_pkg.Common.{
  String, List, [], ◌∷◌, ◌++◌, Option, none, some, Result, ok, err, str_eq, if◌then◌else◌, ◌≡◌,
  refl,
}
use public_pkg.Common.Int.{ℤ, pos, eqb_ℤ}
use public_pkg.Settings.Tls.{TlsOptions, new_tls_options, validate}

abbrev ten_seconds : ℤ
ten_seconds = pos 10_000_000_000

-- The options of the package db.
record DbOptions (L : Type 0) : Type 0 where
  addr : String
  username : String
  password : String
  database : String
  max_idle_connections : ℤ
  max_open_connections : ℤ
  max_connection_life_time : ℤ
  logger : Option L

abbrev concat : List String → String
concat [] = ""
concat (s ∷ ss) = String.◌++◌ s (concat ss)

abbrev or_default : ℤ → ℤ → ℤ
or_default n default = if eqb_ℤ n (pos 0) then default else n

-- A pool of connections, by what was set.
record Pool (H : Type 0) : Type 0 where
  handle : H
  max_open : ℤ
  max_life : ℤ
  max_idle : ℤ

module _ {L F H : Type 0} (default_logger : L) (open_db : String → Option L → Result F H)
    (raw : H → Option F) where
  -- `DSN`
  unfoldable dsn : DbOptions L → String
  dsn o = concat (
      o.username ∷ ":" ∷ o.password ∷ "@tcp(" ∷ o.addr ∷ ")/" ∷ o.database
      ∷ "?charset=utf8&parseTime=" ∷ "true" ∷ "&loc=" ∷ "Local" ∷ [])

  -- `setMySQLDefaults`
  unfoldable set_mysql_defaults : DbOptions L → DbOptions L
  set_mysql_defaults o = record o {
    addr = if str_eq o.addr "" then "127.0.0.1:3306" else o.addr;
    max_idle_connections = or_default o.max_idle_connections (pos 100);
    max_open_connections = or_default o.max_open_connections (pos 100);
    max_connection_life_time = or_default o.max_connection_life_time ten_seconds;
    logger = elim o.logger [ none ↦ some default_logger | some l ↦ some l ];
  }

  abbrev pooled : DbOptions L → H → Option F → Result F (Pool H)
  pooled o db (some e) = err e
  pooled o db none = ok (record {
    handle = db;
    max_open = o.max_open_connections;
    max_life = o.max_connection_life_time;
    max_idle = o.max_idle_connections;
  })

  abbrev opened : DbOptions L → Result F H → Result F (Pool H)
  opened o (err e) = err e
  opened o (ok db) = pooled o db (raw db)

  -- `NewMySQL`, with the options as it leaves them; `raw` is the error of `db.DB()`.
  unfoldable new_mysql : DbOptions L → Result F (Pool H) × DbOptions L
  unfolding dsn set_mysql_defaults
  new_mysql opts = let o = set_mysql_defaults opts in (opened o (open_db (dsn o) o.logger), o)

record MysqlOptions : Type 0 where
  addr : String
  username : String
  password : String
  database : String
  max_idle_connections : ℤ
  max_open_connections : ℤ
  max_connection_life_time : ℤ
  log_level : ℤ

abbrev new_mysql_options : MysqlOptions
new_mysql_options = record {
  addr = "127.0.0.1:3306";
  username = "onex";
  password = "onex(#)666";
  database = "onex";
  max_idle_connections = pos 100;
  max_open_connections = pos 100;
  max_connection_life_time = ten_seconds;
  log_level = pos 1;
}

-- `NewDB` up to the call of `NewMySQL`; `log_mode` is the logger for a level.
unfoldable db_options : {L : Type 0} → (ℤ → L) → MysqlOptions → DbOptions L
db_options log_mode o = record {
  addr = o.addr;
  username = o.username;
  password = o.password;
  database = o.database;
  max_idle_connections = o.max_idle_connections;
  max_open_connections = o.max_open_connections;
  max_connection_life_time = o.max_connection_life_time;
  logger = some (log_mode o.log_level);
}

unfoldable new_db :
    {L F H : Type 0}
    → L
    → (String → Option L → Result F H)
    → (H → Option F)
    → (ℤ → L)
    → MysqlOptions
    → Result F (Pool H)
unfolding new_mysql db_options
new_db default_logger open_db raw log_mode o =
    (new_mysql default_logger open_db raw (db_options log_mode o)).0

-- The default options are complete: `NewMySQL` leaves them.
defaults_complete :
    {L F H : Type 0} (l : L) (open_db : String → Option L → Result F H) (raw : H → Option F)
    (log_mode : ℤ → L)
    → (new_mysql l open_db raw (db_options log_mode new_mysql_options)).1
      ≡ db_options log_mode new_mysql_options
unfolding new_mysql db_options
defaults_complete l open_db raw log_mode = refl

record MongoOptions : Type 0 where
  url : String
  database : String
  collection : String
  username : String
  password : String
  timeout : ℤ
  tls_options : Option TlsOptions

abbrev new_mongo_options : MongoOptions
new_mongo_options = record {
  url = "";
  database = "";
  collection = "";
  username = "";
  password = "";
  timeout = pos 30_000_000_000;
  tls_options = some new_tls_options;
}

data MongoError (F : Type 0) : Type 0 where
  bad_url : F → MongoError F
  no_database no_collection : MongoError F
  tls : String → MongoError F

abbrev url_error : {F : Type 0} → Option F → List (MongoError F)
url_error none = []
url_error (some e) = bad_url e ∷ []

abbrev tls_errors : {F : Type 0} → List String → List (MongoError F)
tls_errors [] = []
tls_errors (e ∷ es) = tls e ∷ tls_errors es

-- `Validate`; `parse_url` is the error of `url.Parse`.
unfoldable validate_mongo : {F : Type 0} → (String → Option F) → MongoOptions → List (MongoError F)
unfolding validate
validate_mongo parse_url o =
    url_error (parse_url o.url)
    ++ (if str_eq o.database "" then no_database ∷ [] else [])
    ++ (if str_eq o.collection "" then no_collection ∷ [] else [])
    ++ (elim o.tls_options [ none ↦ [] | some t ↦ tls_errors (validate t) ])
