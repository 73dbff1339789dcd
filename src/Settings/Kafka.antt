-- ===== src/Settings/Kafka.antt =====
-- pkg/options/kafka_options.go: defaults, validation and what a dialer and a writer are made of. A
-- duration is an integer of nanoseconds. The package scram and strings.ToLower are parameters.
use public_pkg.Common.{
  ℕ, ◌*◌, Bool, true, false, not, ◌&&◌, ◌||◌, String, List, [], ◌∷◌, ◌++◌, Option, none, some,
  Result, ok, err, str_eq, if◌then◌else◌, ◌≡◌, refl, ap,
}
use public_pkg.Common.Int.{ℤ, pos, leb_ℤ, eqb_ℤ}
use public_pkg.Util.Strings.{string_in}
use public_pkg.Settings.Tls.Ending.{HasCaCertificate, never_returns}
use public_pkg.Settings.Tls.{
  TlsOptions, TlsLibrary, TlsError, TlsConfig, new_tls_options, validate, tls_config,
}

record WriterOptions : Type 0 where
  max_attempts : ℤ
  required_acks : ℤ
  async : Bool
  batch_size : ℤ
  batch_timeout : ℤ
  batch_bytes : ℤ

record ReaderOptions : Type 0 where
  group_id : String
  partition : ℤ
  queue_capacity : ℤ
  min_bytes : ℤ
  max_bytes : ℤ
  max_wait : ℤ
  read_batch_timeout : ℤ
  heartbeat_interval : ℤ
  commit_interval : ℤ
  rebalance_timeout : ℤ
  start_offset : ℤ
  max_attempts : ℤ

record KafkaOptions : Type 0 where
  brokers : List String
  topic : String
  client_id : String
  timeout : ℤ
  tls_options : TlsOptions
  sasl_mechanism : String
  username : String
  password : String
  algorithm : String
  compressed : Bool
  writer_options : WriterOptions
  reader_options : ReaderOptions

abbrev seconds : ℕ → ℤ
seconds n = pos (n * 1_000_000_000)

abbrev mib : ℤ
mib = pos 1_048_576

-- `NewKafkaOptions`; `first_offset` is `kafka.FirstOffset`.
unfoldable new_kafka_options : ℤ → KafkaOptions
new_kafka_options first_offset = record {
  brokers = [];
  topic = "";
  client_id = "";
  timeout = seconds 3;
  tls_options = new_tls_options;
  sasl_mechanism = "";
  username = "";
  password = "";
  algorithm = "";
  compressed = false;
  writer_options = record {
    max_attempts = pos 10;
    required_acks = pos 1;
    async = true;
    batch_size = pos 100;
    batch_timeout = seconds 1;
    batch_bytes = mib;
  };
  reader_options = record {
    group_id = "";
    partition = pos 0;
    queue_capacity = pos 100;
    min_bytes = pos 1;
    max_bytes = mib;
    max_wait = seconds 10;
    read_batch_timeout = seconds 10;
    heartbeat_interval = seconds 3;
    commit_interval = seconds 0;
    rebalance_timeout = seconds 30;
    start_offset = first_offset;
    max_attempts = pos 3;
  };
}

data KafkaError : Type 0 where
  no_broker sasl_without_tls bad_timeout partition_and_group bad_batch_timeout : KafkaError
  unsupported_mechanism : String → KafkaError
  tls : String → KafkaError

abbrev is_nil : List String → Bool
is_nil [] = true
is_nil (s ∷ ss) = false

-- `errs = append(errs, e)` under a test.
abbrev when : Bool → KafkaError → List KafkaError
when b e = if b then e ∷ [] else []

abbrev tls_errors : List String → List KafkaError
tls_errors [] = []
tls_errors (e ∷ es) = tls e ∷ tls_errors es

-- `Validate`; `to_lower` is `strings.ToLower`.
unfoldable validate_kafka : (String → String) → KafkaOptions → List KafkaError
unfolding validate string_in
validate_kafka to_lower o =
    let known = string_in (to_lower o.sasl_mechanism) ("plain" ∷ "scram" ∷ "" ∷ []) in
    let both =
      not (str_eq o.reader_options.group_id "") && not (eqb_ℤ o.reader_options.partition (pos 0)) in
    when (is_nil o.brokers) no_broker
    ++ when (not o.tls_options.use_tls && not (str_eq o.sasl_mechanism "")) sasl_without_tls
    ++ when (not known) (unsupported_mechanism o.sasl_mechanism)
    ++ when (leb_ℤ o.timeout (pos 0)) bad_timeout
    ++ when both partition_and_group
    ++ when (leb_ℤ o.writer_options.batch_timeout (pos 0)) bad_batch_timeout
    ++ tls_errors (validate o.tls_options)

data Algorithm : Type 0 where
  sha256 sha512 : Algorithm

-- The mechanisms of the package sasl: a plain one, or what `scram.Mechanism` made.
data Mechanism (M : Type 0) : Type 0 where
  plain : String → String → Mechanism M
  scram : M → Mechanism M

module _ (t : TlsLibrary) {M : Type 0}
    (new_scram : Algorithm → String → String → Result t.Fault M) where
  open t use {Fault, Certificate}

  -- A fault of the libraries, or of the TLS options.
  data DialError : Type 0 where
    mechanism_failed : Fault → DialError
    tls_failed : TlsError Fault → DialError

  abbrev made : Result Fault M → Result DialError (Option (Mechanism M))
  made (ok m) = ok (some (scram m))
  made (err e) = err (mechanism_failed e)

  -- `GetMechanism`; a nil mechanism is `none`.
  unfoldable get_mechanism : KafkaOptions → Result DialError (Option (Mechanism M))
  get_mechanism o =
      let is = str_eq o.sasl_mechanism in
      let algorithm =
        if str_eq o.algorithm "sha-512" || str_eq o.algorithm "SHA-512" then sha512 else sha256 in
      if is ""
      then ok none
      else if is "PLAIN" || is "plain"
      then ok (some (plain o.username o.password))
      else if is "SCRAM" || is "scram"
      then made (new_scram algorithm o.username o.password)
      else ok none

  record Dialer : Type 0 where
    timeout : ℤ
    client_id : String
    tls_settings : Option (TlsConfig Certificate)
    mechanism : Option (Mechanism M)

  abbrev dialer_of :
      KafkaOptions
      → Option (TlsConfig Certificate)
      → Result DialError (Option (Mechanism M))
      → Result DialError Dialer
  dialer_of o config (err e) = err e
  dialer_of o config (ok m) = ok (record {
    timeout = o.timeout;
    client_id = o.client_id;
    tls_settings = config;
    mechanism = m;
  })

  abbrev after_tls :
      KafkaOptions
      → Option (Result (TlsError Fault) (Option (TlsConfig Certificate)))
      → Option (Result DialError Dialer)
  after_tls o none = none
  after_tls o (some (err e)) = some (err (tls_failed e))
  after_tls o (some (ok config)) = some (dialer_of o config (get_mechanism o))

  -- `Dialer`, for at most so many rounds of the loop of `TLSConfig`.
  unfoldable dialer : ℕ → KafkaOptions → Option (Result DialError Dialer)
  unfolding get_mechanism tls_config
  dialer rounds o = after_tls o (tls_config t rounds o.tls_options)

  -- `kafka.WriterConfig` without the balancer and the loggers.
  record WriterConfig : Type 0 where
    brokers : List String
    topic : String
    dial : Dialer
    write_timeout : ℤ
    read_timeout : ℤ
    async : Bool
    batch_size : ℤ
    batch_bytes : ℤ
    batch_timeout : ℤ
    max_attempts : ℤ
    snappy : Bool

  abbrev configured : KafkaOptions → Dialer → WriterConfig
  configured o d = record {
    brokers = o.brokers;
    topic = o.topic;
    dial = d;
    write_timeout = o.timeout;
    read_timeout = o.timeout;
    async = o.writer_options.async;
    batch_size = o.writer_options.batch_size;
    batch_bytes = o.writer_options.batch_bytes;
    batch_timeout = o.writer_options.batch_timeout;
    max_attempts = o.writer_options.max_attempts;
    snappy = o.compressed;
  }

  -- `Writer`, as the configuration of the writer that it makes.
  unfoldable writer : ℕ → KafkaOptions → Option (Result DialError WriterConfig)
  unfolding dialer
  writer rounds o = elim (dialer rounds o) [
    | none ↦ none
    | some r ↦ elim r [ err e ↦ some (err e) | ok d ↦ some (ok (configured o d)) ]
  ]

  -- No dialer and no writer is made where the TLS options name a CA file that starts with a certificate
  -- and what comes before the loop over its blocks succeeds.
  writer_hangs :
      (o : KafkaOptions)
      → HasCaCertificate t o.tls_options
      → (n : ℕ) → (dialer n o ≡ none) × (writer n o ≡ none)
  unfolding dialer writer
  writer_hangs o h n =
      let stuck = never_returns t o.tls_options h n in
      (ap (after_tls o) stuck, rw (writer, stuck) refl)
