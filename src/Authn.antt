-- ===== src/Authn.antt =====
-- pkg/authn/jwt/jwt.go, token.go and store.go: signed tokens that can be destroyed before they expire.
-- github.com/golang-jwt/jwt is the parameter `Jwt`, the token storage the interface `Storer`. A time is
-- a number of milliseconds. A message is what it is about; its localisation is left out.
pub mod Redis
pub mod Storage
pub mod Laws
pub mod Reading
pub mod Destroyed
pub mod Signed
mod Examples
use public_pkg.Common.{
  ℕ, ◌+◌, ◌/◌, Bool, not, ◌||◌, String, List, [], ◌∷◌, Option, none, some, Result, ok, err,
  if◌then◌else◌, str_eq,
}
use public_pkg.Common.Int.{ℤ, pos, ◌-ℤ◌}

-- `jwt.RegisteredClaims`, as far as the package reads and writes it.
pub record Claims : Type 0 where
  pub issuer : String
  pub issued_at : Option ℕ
  pub expires_at : Option ℕ
  pub not_before : Option ℕ
  pub subject : String

-- The bits of a `jwt.ValidationError` that the package tests.
pub record Faults : Type 0 where
  pub malformed : Bool
  pub expired : Bool
  pub not_valid_yet : Bool

-- An error of `jwt.ParseWithClaims`.
pub data ParseFault : Type 0 where
  validation : Faults → ParseFault
  no_validation : String → ParseFault

-- `jwt.Token`; a header is a list of names and values.
pub record Token (Method Value : Type 0) : Type 0 where
  pub method : Method
  pub header : List (String × Value)
  pub claims : Claims
  pub valid : Bool

pub record Jwt : Type 1 where
  pub Method : Type 0
  pub Key : Type 0
  pub Value : Type 0
  pub same_method : Method → Method → Bool
  -- The type assertion to `*SigningMethodHMAC`.
  pub is_hmac : Method → Bool
  -- `NewWithClaims` and `SignedString`, with what is set in the header.
  pub sign : Method → List (String × Value) → Claims → Key → Option String
  -- `ParseWithClaims` at a time, with a key function.
  pub parse :
      ℕ → String → (Token Method Value → Option Key) → Result ParseFault (Token Method Value)
  -- `NewNumericDate`
  pub numeric_date : ℕ → ℕ

-- The package's errors: the localised ones, one of the library's with its text, and the storage's.
pub data JwtError (F : Type 0) : Type 0 where
  token_invalid token_expired token_parse_fail unsupported_signing_method sign_token_failed :
      JwtError F
  other : String → JwtError F
  stored : F → JwtError F

-- `Storer` at a time: what is set is kept for a duration.
pub record Storer : Type 1 where
  pub State : Type 0
  pub Fault : Type 0
  pub set : State → ℕ → String → ℤ → Option Fault × State
  pub delete : State → ℕ → String → Result Fault Bool × State
  pub check : State → ℕ → String → Result Fault Bool × State
  pub close : State → Option Fault × State

pub record Options (j : Jwt) : Type 0 where
  pub signing_method : j.Method
  pub signing_key : j.Key
  pub keyfunc : Token j.Method j.Value → Option j.Key
  pub issuer : String
  pub expired : ℕ
  pub token_type : String
  pub token_header : List (String × j.Value)

pub data JwtOption (j : Jwt) : Type 0 where
  with_signing_method : j.Method → JwtOption j
  with_issuer : String → JwtOption j
  with_signing_key : j.Key → JwtOption j
  with_keyfunc : (Token j.Method j.Value → Option j.Key) → JwtOption j
  with_expired : ℕ → JwtOption j
  with_token_header : List (String × j.Value) → JwtOption j

-- `tokenInfo`
pub record TokenInfo : Type 0 where
  pub token : String
  pub type : String
  pub expires_at : ℕ

-- What `Destroy` ends in: an error, nil, or a panic where the claims have no expiry.
pub data Ended (F : Type 0) : Type 0 where
  returned : Option (JwtError F) → Ended F
  panicked : Ended F

module _ (j : Jwt) where
  open j use {Method, Key, Value}

  -- `defaultOptions`, for HS256 and the default key.
  unfoldable pub default_options : Method → Key → Options j
  default_options hs256 default_key = record {
    signing_method = hs256;
    signing_key = default_key;
    keyfunc = λ t. if j.is_hmac t.method then some default_key else none;
    issuer = "";
    expired = 7200000;
    token_type = "Bearer";
    token_header = [];
  }

  unfoldable pub apply_option : JwtOption j → Options j → Options j
  apply_option (with_signing_method method) o = record o { signing_method = method }
  apply_option (with_issuer issuer) o = record o { issuer = issuer }
  apply_option (with_signing_key key) o = record o { signing_key = key }
  apply_option (with_keyfunc keyfunc) o = record o { keyfunc = keyfunc }
  apply_option (with_expired expired) o = record o { expired = expired }
  apply_option (with_token_header header) o = record o { token_header = header }

  -- `New`, the options of the instance.
  unfoldable pub new : List (JwtOption j) → Options j → Options j
  new [] o = o
  new (opt ∷ opts) o = new opts (apply_option opt o)

  abbrev pub claims_of : Options j → ℕ → String → Claims
  claims_of o now user_id = record {
    issuer = o.issuer;
    issued_at = some (j.numeric_date now);
    expires_at = some (j.numeric_date (now + o.expired));
    not_before = some (j.numeric_date now);
    subject = user_id;
  }

  abbrev pub info_of : Options j → ℕ → String → TokenInfo
  info_of o now token = record {
    token = token;
    type = o.token_type;
    expires_at = (now + o.expired) / 1000;
  }

  abbrev pub signed : {F : Type 0} → Options j → ℕ → Option String → Result (JwtError F) TokenInfo
  signed o now none = err sign_token_failed
  signed o now (some token) = ok (info_of o now token)

  -- `Sign`
  unfoldable pub sign : {F : Type 0} → Options j → ℕ → String → Result (JwtError F) TokenInfo
  sign o now user_id =
      signed o now (j.sign o.signing_method o.token_header (claims_of o now user_id) o.signing_key)

  abbrev pub read_token :
      {F : Type 0} → Options j → Result ParseFault (Token Method Value) → Result (JwtError F) Claims
  read_token o (err (no_validation text)) = err (other text)
  read_token o (err (validation v)) =
      if v.malformed
      then err token_invalid
      else if v.expired || v.not_valid_yet
      then err token_expired
      else err token_parse_fail
  read_token o (ok t) =
      if not t.valid
      then err token_invalid
      else if not (j.same_method t.method o.signing_method)
      then err unsupported_signing_method
      else ok t.claims

  -- `parseToken`
  unfoldable pub parse_token : {F : Type 0} → Options j → ℕ → String → Result (JwtError F) Claims
  parse_token o now token = read_token o (j.parse now token o.keyfunc)

  -- The methods of an instance whose storage may be nil, `none`. A call that reads the clock or calls
  -- the storage after parsing does so at a time of its own, `later`.
  module _ (st : Storer) where
    open st use {State, Fault}

    abbrev pub as_error : Option Fault → Option (JwtError Fault)
    as_error none = none
    as_error (some f) = some (stored f)

    abbrev pub set_until : ℕ → String → Option ℕ → Option State → Ended Fault × Option State
    set_until later token expires none = (returned none, none)
    set_until later token none (some s) = (panicked, some s)
    set_until later token (some expires) (some s) =
        let x = st.set s later token (pos expires -ℤ pos later) in
        (returned (as_error x.0), some x.1)

    abbrev pub destroy_parsed :
        ℕ → String → Option State → Result (JwtError Fault) Claims → Ended Fault × Option State
    destroy_parsed later token s (err e) = (returned (some e), s)
    destroy_parsed later token s (ok claims) = set_until later token claims.expires_at s

    -- `Destroy`
    unfoldable pub destroy : Options j → ℕ → ℕ → String → Option State → Ended Fault × Option State
    unfolding parse_token
    destroy o now later token s = destroy_parsed later token s (parse_token o now token)

    abbrev pub checked :
        Claims → Result Fault Bool × State → Result (JwtError Fault) Claims × Option State
    checked claims (err f, s) = (err (stored f), some s)
    checked claims (ok exists, s) =
        if exists then (err token_invalid, some s) else (ok claims, some s)

    abbrev pub check_parsed :
        ℕ
        → String
        → Option State
        → Result (JwtError Fault) Claims
        → Result (JwtError Fault) Claims × Option State
    check_parsed later token s (err e) = (err e, s)
    check_parsed later token none (ok claims) = (ok claims, none)
    check_parsed later token (some s) (ok claims) = checked claims (st.check s later token)

    -- `ParseClaims`
    unfoldable pub parse_claims :
        Options j → ℕ → ℕ → String → Option State → Result (JwtError Fault) Claims × Option State
    unfolding parse_token
    parse_claims o now later token s =
        if str_eq token ""
        then (err token_invalid, s)
        else check_parsed later token s (parse_token o now token)

    -- `Release`
    unfoldable pub release : Option State → Option (JwtError Fault) × Option State
    release none = (none, none)
    release (some s) = let x = st.close s in (as_error x.0, some x.1)
