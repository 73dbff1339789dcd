-- ===== src/Lib.antt =====
-- A model of the pure and of the stateful core of the packages under pkg/, with the theorems that
-- describe it. Every module opens with a comment that names its source.
--
-- Parts
--   Version    pkg/util/version/version.go. Version/Parse reads a version (parse, ParseGeneric,
--              ParseSemantic, MajorMinor), Version/Print prints it (String), Version/Compare orders it
--              (compareInternal, AtLeast, LessThan, Compare), Version/Access holds the accessors, the
--              With functions and HighestSupportedVersion. Text holds what these use of the packages
--              strings, strconv and fmt on strings as lists of bytes.
--   Distlock   pkg/distlock. One module for each of the lockers Redis, Gorm, Memcached, Mongo, Etcd,
--              Consul and Zookeeper, and Distlock/Renewal for what the calls and the renewal goroutine of
--              a locker do to the ticker they share. Distlock itself has the options and the noop locker.
--   Watch      pkg/watch/manager: Watch/Manager is the job map with its mutex over a cron scheduler.
--              Watch/Registry is pkg/watch/registry and addWatchers of pkg/watch/watch.go, which hands
--              the registered watchers to the job manager and skips the disabled ones. Watch/Runner is
--              Start and Stop of the same file: the retry loop over the GORM locker.
--   Id         pkg/id/code.go with its options, Id/Sonyflake for pkg/id/sonyflake.go, and Id/Resource
--              for pkg/rid.
--   Where      pkg/store/where/where.go, the options of a query.
--   Store      pkg/store/store.go, the statements under such options, and pkg/store/registry.
--   Authn      pkg/authn/jwt: the options, Sign, ParseClaims, Destroy; Authn/Redis is its Redis storage.
--   Token      pkg/token/token.go, the package that signs and parses the tokens of one configuration.
--   Core       pkg/core/core.go: a request is bound, validated, handled and answered.
--   Validation pkg/validation/validation.go: the methods of a validator, and required fields;
--              Validation/Rules is validator.go, the rules for fields.
--   App        pkg/app: App builds the command of an application (NewApp, buildCommand), App/Config finds
--              the configuration file, and App/Run runs the command (runCommand, initializeLogger).
--   Log        pkg/log: Log is log.go and options.go, Log/Gorm is gorm.go.
--   BuildVersion  pkg/version: the version flag, the version of the build, and the dynamic one.
--   I18n       pkg/i18n: the bundle of messages, and I18n/Tree for the walk over an embedded file system.
--   Errors     pkg/errorsx/errorsx.go, and Errors/Codes for code.go.
--   Settings   pkg/options: defaults and validation of the Redis and JWT options; Settings/Tls,
--              Settings/Kafka, Settings/Serving and Settings/Databases for tls_options.go, for
--              kafka_options.go, whose dialers use the former, for secure_serving.go, and for
--              mysql_options.go and mongo_options.go with pkg/db/mysql.go. Settings/Postgres is
--              postgresql_options.go with pkg/db/postgresql.go.
--   Authz      pkg/authz: the authorizer and its options.
--   Util       pkg/util/strings on slices of strings, pkg/ptr, Util/File for pkg/util/file, Util/Reflect for
--              pkg/util/reflect, and Util/Address for addresses with ports: pkg/util/controller, pkg/util/ip,
--              and ValidateAddress of pkg/options with the options that call it.
--   Common     what the parts share: the library's names, Boolean tests, lists, maps, integers.
-- The runner of pkg/watch uses a job manager, StringIn of pkg/util/strings and the GORM locker of
-- pkg/distlock, pkg/rid uses NewCode of pkg/id, pkg/core the errors of pkg/errorsx, pkg/store the
-- options of pkg/store/where, and pkg/options StringIn and pkg/db. pkg/app takes the
-- version flag from pkg/version and sets up the global logger of pkg/log, and pkg/version parses with
-- pkg/util/version. The other parts do not call each other. App/Config and Settings/Serving take the
-- joining of paths from Util/File.
--
-- Correspondence
--   A function of the source has its name here in lower case with underscores (NewCode is new_code).
--   A struct is a record, a pointer that may be nil an Option, and a result with an error a data type
--   of errors beside the value. A uint64 keeps its wrap-around as `% 2 ^ 64`.
--   Servers, drivers and other packages are parameters of the definitions that call them: the Redis,
--   memcached and Mongo servers as functions on a state, the cron scheduler, the clock as an argument
--   of each call, the salt of pkg/rid, the tenant function of the query options, and the database of
--   the GORM locker, whose transaction keeps what its body did or leaves the data as they were.
--   The jwt library, gin's binders and handlers, gorm's statements, what reflection says of a type, the
--   file system, the TLS packages, the flag sets of pflag, viper, zap, go-i18n, casbin and the
--   generator of sonyflake are parameters too. Durations are nanoseconds, but milliseconds
--   in Authn and seconds in Token.
--   A call that may panic on a nil pointer has a result type with a case for it.
--   A goroutine is a sequence of steps, and an interleaving is a trace of them.
--
-- Fuel
--   Text.Decimal prints a number by fuel, one more than the number, which division by ten reaches zero
--   within. The loops of NewCode and GetIntraDir count the rounds that they make. The loop of TLSConfig
--   has its rounds as fuel, and so have the dialer and the writer of Kafka that call it; the theorem
--   about it says when one round is enough and when no fuel is. The loop of Id in Id/Sonyflake has
--   its rounds as fuel; where it does not return at once, no fuel is enough. readFS in I18n/Tree, and what
--   calls it in I18n, has the depth of its calls as fuel, for which more than the number of files and
--   directories is enough. The retry loop of Watch/Runner goes through a list of rounds. The parsers,
--   the comparisons and the search recurse on their lists. No other definition has fuel.
--
-- Not modelled
--   The other files of pkg/options and the rest of pkg/util are not modelled. The packages
--   pkg/cli and pkg/server, and the other files of pkg/db, are glue over third-party
--   frameworks. pkg/util/lint is copied from CockroachDB. What the other packages log, and the localized
--   texts of their messages, are left out.
pub mod App
pub mod Authn
pub mod Authz
pub mod BuildVersion
pub mod Common
pub mod Core
pub mod Distlock
pub mod Errors
pub mod I18n
pub mod Id
pub mod Log
pub mod Settings
pub mod Store
pub mod Text
pub mod Token
pub mod Util
pub mod Validation
pub mod Version
pub mod Watch
pub mod Where
