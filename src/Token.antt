-- ===== src/Token.antt =====
-- pkg/token/token.go: tokens under a configuration that is set once for the whole process. The library
-- is the parameter `MapJwt`; a time is a number of seconds, and each call of the clock is an argument.
pub mod RoundTrip
mod Examples
use public_pkg.Common.{
  ℕ, ◌+◌, Bool, true, false, ◌&&◌, String, List, [], Option, none, some, Result, ok, err, lookup,
  insert, ◌==◌, if◌then◌else◌, str_eq,
}

pub record Config : Type 0 where
  pub key : String
  pub identity_key : String
  pub expiration : ℕ

-- The variables of the package; `done` is what `once` remembers.
pub record Package : Type 0 where
  pub config : Config
  pub done : Bool

abbrev pub initial : Package
initial = record {
  config = record {
    key = "Rtg8BPKNEf2mB4mgvKONGPZZQSaJWNLijxR42qRgq0iBb5";
    identity_key = "identityKey";
    expiration = 7200;
  };
  done = false;
}

abbrev pub filled : String → String → String
filled value old = if str_eq value "" then old else value

-- `Init`
unfoldable pub init : String → String → ℕ → Package → Package
init key identity_key expiration p = if p.done then p else record {
  config = record {
    key = filled key p.config.key;
    identity_key = filled identity_key p.config.identity_key;
    expiration = if expiration == 0 then p.config.expiration else expiration;
  };
  done = true;
}

-- A value of a claim.
pub data Value : Type 0 where
  text : String → Value
  number : ℕ → Value

abbrev pub MapClaims : Type 0
MapClaims = List (String × Value)

-- `jwt.Token`; the claims are `none` where they are not a map.
pub record Token : Type 0 where
  pub claims : Option MapClaims
  pub valid : Bool

-- `sign` is HS256; `parse` has the key that the key function gives for an HMAC, and nothing else for it
-- to decide.
pub record MapJwt : Type 1 where
  pub Fault : Type 0
  pub sign : MapClaims → String → Result Fault String
  pub parse : ℕ → String → String → Result Fault Token

-- The errors: the library's, and those of the package.
pub data TokenError (F : Type 0) : Type 0 where
  library : F → TokenError F
  signature_invalid invalid_key no_header invalid_auth_token : TokenError F

module _ (j : MapJwt) where
  open j use {Fault}

  abbrev pub identity_in : Option Value → String
  identity_in none = ""
  identity_in (some (number n)) = ""
  identity_in (some (text identity)) = identity

  abbrev pub identity_of : String → Token → String
  identity_of identity_key t = elim t.claims [
    | none ↦ ""
    | some claims ↦ if t.valid then identity_in (lookup identity_key claims) else ""
  ]

  abbrev pub read_token : String → Result Fault Token → Result (TokenError Fault) String
  read_token identity_key (err e) = err (library e)
  read_token identity_key (ok t) =
      let identity = identity_of identity_key t in
      if str_eq identity "" then err signature_invalid else ok identity

  -- `Parse`
  unfoldable pub parse : Package → ℕ → String → String → Result (TokenError Fault) String
  parse p now token key = read_token p.config.identity_key (j.parse now token key)

  -- The map literal of `Sign`, whose keys are set in this order.
  abbrev pub claims_of : Config → ℕ → ℕ → ℕ → String → MapClaims
  claims_of c now before issued identity = insert "exp" (number (now + c.expiration)) (
      insert "iat" (number issued)
        (insert "nbf" (number before) (insert c.identity_key (text identity) [])))

  abbrev pub signed : ℕ → Result Fault String → Result (TokenError Fault) (String × ℕ)
  signed expires (err e) = err (library e)
  signed expires (ok token) = ok (token, expires)

  -- `Sign`
  unfoldable pub sign : Package → ℕ → ℕ → ℕ → String → Result (TokenError Fault) (String × ℕ)
  sign p now before issued identity =
      let claims = claims_of p.config now before issued identity in
      if str_eq p.config.key ""
      then err invalid_key
      else signed (now + p.config.expiration) (j.sign claims p.config.key)

  -- Where a request has its token: in gin's header `Authorization`, or in gRPC's metadata, which
  -- `auth.AuthFromMD` reads.
  pub data Context : Type 0 where
    gin : String → Context
    grpc : Option String → Context

  -- `ParseRequest`; `sscanf` is what `fmt.Sscanf` finds behind "Bearer ".
  unfoldable pub parse_request :
      (String → String) → Package → ℕ → Context → Result (TokenError Fault) String
  unfolding parse
  parse_request sscanf p now (gin header) =
      if str_eq header "" then err no_header else parse p now (sscanf header) p.config.key
  parse_request sscanf p now (grpc none) = err invalid_auth_token
  parse_request sscanf p now (grpc (some token)) = parse p now token p.config.key
