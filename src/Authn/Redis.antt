-- ===== src/Authn/Redis.antt =====
-- pkg/authn/jwt/store/redis/redis.go: the token storage in Redis. The server is the parameter
-- `TokenServer`; a key is there for ever, or up to a time.
use Prim.Native.String
use text.Mathlib.TextLemmas.{append_cancel_left}
use public_pkg.Common.{
  ℕ, Bool, ◌≡◌, refl, String, Option, none, Result, ok, err, ltb, if◌then◌else◌, str_eq, eq_iff,
  arith,
}
use public_pkg.Common.Int.{ℤ}
use public_pkg.Authn.{Storer}
use public_pkg.Authn.Storage.{StorerLaws, lasts}

-- SET with an expiry, DEL, EXISTS and the end of the connection. `there` says whether a key is there
-- at a time.
pub record TokenServer : Type 1 where
  pub Server : Type 0
  pub Fault : Type 0
  pub set : Server → ℕ → String → String → ℤ → Option Fault × Server
  pub del : Server → ℕ → String → Result Fault ℕ × Server
  pub exists : Server → ℕ → String → Result Fault ℕ × Server
  pub close : Server → Option Fault × Server
  pub there : Server → String → ℕ → Bool

pub record TokenServerLaws (r : TokenServer) : Type 0 where
  pub was_set :
      (s s' : r.Server) (now t : ℕ) (k v j : String) (ttl : ℤ)
      → r.set s now k v ttl ≡ (none, s')
      → r.there s' j t ≡ (if str_eq k j then lasts now ttl t else r.there s j t)
  pub existed :
      (s s' : r.Server) (now n t : ℕ) (k j : String)
      → r.exists s now k ≡ (ok n, s')
      → (ltb 0 n ≡ r.there s k now) × (r.there s' j t ≡ r.there s j t)

module _ (r : TokenServer) (prefix : String) where
  open r use {Server, Fault}

  -- `wrapperKey`
  abbrev pub wrapper_key : String → String
  wrapper_key key = String.◌++◌ prefix key

  abbrev positive : Result Fault ℕ × Server → Result Fault Bool × Server
  positive (ok n, s) = (ok (ltb 0 n), s)
  positive (err f, s) = (err f, s)

  -- `Set`
  unfoldable pub set : Server → ℕ → String → ℤ → Option Fault × Server
  set s now access_token expiration = r.set s now (wrapper_key access_token) "1" expiration

  -- `Delete`
  unfoldable pub delete : Server → ℕ → String → Result Fault Bool × Server
  delete s now access_token = positive (r.del s now (wrapper_key access_token))

  -- `Check`
  unfoldable pub check : Server → ℕ → String → Result Fault Bool × Server
  check s now access_token = positive (r.exists s now (wrapper_key access_token))

  abbrev pub redis_storer : Storer
  redis_storer = record {
    State = Server;
    Fault = Fault;
    set = set;
    delete = delete;
    check = check;
    close = r.close;
  }

module _ (r : TokenServer) (law : TokenServerLaws r) (prefix : String) where
  same_key : (a b : String) → str_eq (wrapper_key r prefix a) (wrapper_key r prefix b) ≡ str_eq a b
  same_key a b = ground (
    arith,
    eq_iff a b,
    eq_iff (wrapper_key r prefix a) (wrapper_key r prefix b),
    append_cancel_left prefix a b,
  )

  positive_case :
      (s s' : r.Server) (now t : ℕ) (k j : String) (b : Bool) (x : Result r.Fault ℕ × r.Server)
      → r.exists s now k ≡ x
      → positive r prefix x ≡ (ok b, s')
      → (b ≡ r.there s k now) × (r.there s' j t ≡ r.there s j t)
  positive_case s s' now t k j b (ok n, s1) e h = ground (arith, law.existed s s1 now n t k j e)
  positive_case s s' now t k j b (err f, s1) e h = cc

  was_checked :
      (s s' : r.Server) (now t : ℕ) (token j : String) (b : Bool)
      → check r prefix s now token ≡ (ok b, s')
      → (b ≡ r.there s (wrapper_key r prefix token) now)
        × (r.there s' (wrapper_key r prefix j) t ≡ r.there s (wrapper_key r prefix j) t)
  unfolding check
  was_checked s s' now t token j b h =
      positive_case s s' now t (wrapper_key r prefix token) (wrapper_key r prefix j) b _ refl h

  -- The Redis storage keeps the promise, whatever the prefix.
  pub redis_storer-Laws : StorerLaws (redis_storer r prefix)
  unfolding set
  redis_storer-Laws = record {
    listed = λ s token t. r.there s (wrapper_key r prefix token) t;
    was_set =
        λ s s' now t token j ttl h. rw (← same_key token j) (law.was_set s s' now t _ "1" _ ttl h);
    was_checked = was_checked;
  }
