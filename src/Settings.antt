-- ===== src/Settings.antt =====
-- pkg/options/redis_options.go and jwt_options.go: defaults and validation. A duration is a number of
-- nanoseconds. The validation of the Redis options changes the options and returns no error.
mod Databases
mod Kafka
mod Postgres
mod Serving
pub mod Tls
use public_pkg.Common.{
  ℕ, ◌+◌, ◌*◌, Bool, false, String, List, [], ◌∷◌, ◌≡◌, refl, ◌==◌, if◌then◌else◌,
}

abbrev second : ℕ
second = 1_000_000_000

record RedisOptions : Type 0 where
  addr : String
  username : String
  password : String
  database : ℕ
  max_retries : ℕ
  min_idle_conns : ℕ
  dial_timeout : ℕ
  read_timeout : ℕ
  write_timeout : ℕ
  pool_timeout : ℕ
  pool_size : ℕ
  enable_trace : Bool

abbrev new_redis_options : RedisOptions
new_redis_options = record {
  addr = "127.0.0.1:6379";
  username = "";
  password = "";
  database = 0;
  max_retries = 3;
  min_idle_conns = 0;
  dial_timeout = 5 * second;
  read_timeout = 3 * second;
  write_timeout = 3 * second;
  pool_timeout = 0;
  pool_size = 10;
  enable_trace = false;
}

-- `Validate` of the Redis options, as the options it leaves.
unfoldable validate_redis : RedisOptions → RedisOptions
validate_redis o = record o {
  write_timeout = if o.write_timeout == 0 then o.read_timeout else o.write_timeout;
  pool_timeout = if o.pool_timeout == 0 then o.read_timeout + second else o.pool_timeout;
}

default_pool_timeout : (validate_redis new_redis_options).pool_timeout ≡ 4 * second
unfolding validate_redis
default_pool_timeout = refl

record JwtOptions : Type 0 where
  key : String
  expired : ℕ
  max_refresh : ℕ
  signing_method : String

abbrev new_jwt_options : JwtOptions
new_jwt_options = record {
  key = "onex(#)666";
  expired = 7200 * second;
  max_refresh = 7200 * second;
  signing_method = "HS512";
}

-- `Validate` of the JWT options, as its error messages; `string_length` is `govalidator.StringLength`.
unfoldable validate_jwt : (String → String → String → Bool) → JwtOptions → List String
validate_jwt string_length s =
    if string_length s.key "6" "32"
    then []
    else "--jwt.key must larger than 5 and little than 33" ∷ []
