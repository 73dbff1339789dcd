-- ===== src/Settings/Postgres.antt =====
-- pkg/db/postgresql.go and pkg/options/postgresql_options.go. A duration is an integer of nanoseconds. gorm, the
-- drivers and the loggers are parameters.
use public_pkg.Common.{
  List, [], ◌∷◌, ◌++◌, Option, none, some, Result, ok, err, if◌then◌else◌, ◌≡◌, refl,
}
use public_pkg.Common.Int.{ℤ, pos, eqb_ℤ}
use public_pkg.Text.{Bytes, codes, is_empty}
use public_pkg.Text.Split.{split, split_first, split_last, Lacks}

abbrev ten_seconds : ℤ
ten_seconds = pos 10_000_000_000

record DbOptions (L : Type 0) : Type 0 where
  addr : Bytes
  username : Bytes
  password : Bytes
  database : Bytes
  max_idle_connections : ℤ
  max_open_connections : ℤ
  max_connection_life_time : ℤ
  logger : Option L

-- The host and the port of the parts of an address; `Split` returns at least one part.
abbrev host_port : List Bytes → Bytes × Bytes
host_port [] = ([], codes "5432")
host_port (host ∷ []) = (host, codes "5432")
host_port (host ∷ port ∷ more) = (host, port)

abbrev or_default : ℤ → ℤ → ℤ
or_default n default = if eqb_ℤ n (pos 0) then default else n

-- A pool of connections, by what was set.
record Pool (H : Type 0) : Type 0 where
  handle : H
  max_open : ℤ
  max_life : ℤ
  max_idle : ℤ

module _ {L F H : Type 0} (default_logger : L) (open_db : Bytes → Option L → Result F H)
    (raw : H → Option F) where
  -- `DSN`
  unfoldable dsn : DbOptions L → Bytes
  unfolding split
  dsn o =
      let (host, port) = host_port (split b':' o.addr) in
      codes "user="
      ++ o.username
      ++ codes " password="
      ++ o.password
      ++ codes " host="
      ++ host
      ++ codes " port="
      ++ port
      ++ codes " dbname="
      ++ o.database
      ++ codes " sslmode=disable TimeZone=Asia/Shanghai"

  -- `setPostgreSQLDefaults`
  unfoldable set_postgresql_defaults : DbOptions L → DbOptions L
  set_postgresql_defaults o = record o {
    addr = if is_empty o.addr then codes "127.0.0.1:5432" else o.addr;
    max_idle_connections = or_default o.max_idle_connections (pos 100);
    max_open_connections = or_default o.max_open_connections (pos 100);
    max_connection_life_time = or_default o.max_connection_life_time ten_seconds;
    logger = elim o.logger [ none ↦ some default_logger | some l ↦ some l ];
  }

  abbrev pooled : DbOptions L → H → Option F → Result F (Pool H)
  pooled o db (some e) = err e
  pooled o db none = ok (record {
    handle = db;
    max_open = o.max_open_connections;
    max_life = o.max_connection_life_time;
    max_idle = o.max_idle_connections;
  })

  abbrev opened : DbOptions L → Result F H → Result F (Pool H)
  opened o (err e) = err e
  opened o (ok db) = pooled o db (raw db)

  -- `NewPostgreSQL`, with the options as it leaves them; `raw` is the error of `db.DB()`.
  unfoldable new_postgresql : DbOptions L → Result F (Pool H) × DbOptions L
  unfolding dsn set_postgresql_defaults
  new_postgresql opts =
      let o = set_postgresql_defaults opts in (opened o (open_db (dsn o) o.logger), o)

record PostgresqlOptions : Type 0 where
  addr : Bytes
  username : Bytes
  password : Bytes
  database : Bytes
  max_idle_connections : ℤ
  max_open_connections : ℤ
  max_connection_life_time : ℤ
  log_level : ℤ

abbrev new_postgresql_options : PostgresqlOptions
new_postgresql_options = record {
  addr = codes "127.0.0.1:5432";
  username = codes "onex";
  password = codes "onex(#)666";
  database = codes "onex";
  max_idle_connections = pos 100;
  max_open_connections = pos 100;
  max_connection_life_time = ten_seconds;
  log_level = pos 1;
}

-- `NewDB` up to the call of `NewPostgreSQL`; `log_mode` is the logger for a level.
unfoldable db_options : {L : Type 0} → (ℤ → L) → PostgresqlOptions → DbOptions L
db_options log_mode o = record {
  addr = o.addr;
  username = o.username;
  password = o.password;
  database = o.database;
  max_idle_connections = o.max_idle_connections;
  max_open_connections = o.max_open_connections;
  max_connection_life_time = o.max_connection_life_time;
  logger = some (log_mode o.log_level);
}

unfoldable new_db :
    {L F H : Type 0}
    → L
    → (Bytes → Option L → Result F H)
    → (H → Option F)
    → (ℤ → L)
    → PostgresqlOptions
    → Result F (Pool H)
unfolding new_postgresql db_options
new_db default_logger open_db raw log_mode o =
    (new_postgresql default_logger open_db raw (db_options log_mode o)).0

-- A host without colons keeps its port, and has the default one where it has none.
host_port-split :
    (host port : Bytes)
    → Lacks b':' host
    → Lacks b':' port
    → (host_port (split b':' (host ++ b':' ∷ port)) ≡ (host, port))
      × (host_port (split b':' host) ≡ (host, codes "5432"))
host_port-split host port h p = (
  rw (split_first b':' host port h, split_last b':' port p) refl,
  rw (split_last b':' host h) refl,
)

-- The address of an IPv6 host is cut at its first colon.
ipv6_cut : host_port (split b':' (codes "[::1]:5432")) ≡ (codes "[", [])
unfolding split
ipv6_cut = refl
