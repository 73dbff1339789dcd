-- ===== src/Token/Examples.antt =====
-- The theorems about the tokens of the package, over a library that knows one set of claims.
use public_pkg.Common.{
  ℕ, ◌<◌, ◌≤◌, Bool, true, false, ◌≡◌, refl, String, [], ◌∷◌, some, Result, ok, err, lookup, insert,
  delete, str_eq, eq_iff, if◌then◌else◌, arith, ltb, ◌&&◌, ◌==◌,
}
use public_pkg.Token.{initial, Value, text, number, MapClaims, Token, MapJwt, sign, parse}
use public_pkg.Token.RoundTrip.{MapJwtLaws, sign-parse}

-- The claims of "ann" between 10 and 7210, in the order of the map.
abbrev ann : MapClaims
ann =
    ("exp", number 7210)
    ∷ ("iat", number 10)
    ∷ ("nbf", number 10)
    ∷ ("identityKey", text "ann")
    ∷ []

abbrev is_text : Value → String → Bool
is_text (text s) t = str_eq s t
is_text (number n) t = false

abbrev is_number : Value → ℕ → Bool
is_number (text s) m = false
is_number (number n) m = n == m

-- The values of the claims are those of `ann`.
abbrev is_ann : MapClaims → Bool
is_ann ((a, v) ∷ (b, w) ∷ (c, x) ∷ (d, y) ∷ []) =
    str_eq a "exp"
    && (is_number v 7210
        && (str_eq b "iat"
            && (is_number w 10
                && (str_eq c "nbf"
                    && (is_number x 10 && (str_eq d "identityKey" && is_text y "ann"))))))
is_ann claims = false

abbrev read : ℕ → Result (Unit {0}) Token
read now = if ltb now 7210 then ok (record { claims = some ann; valid = true }) else err tt

abbrev jwt : MapJwt
jwt = record {
  Fault = Unit {0};
  sign = λ claims key. if is_ann claims then ok key else err tt;
  parse = λ now s key. if str_eq s key then read now else err tt;
}

is_text_ok : (v : Value) (t : String) → is_text v t ≡ true → v ≡ text t
is_text_ok (text s) t h = ground (arith, eq_iff s t)
is_text_ok (number n) t h = cc

is_number_ok : (v : Value) (m : ℕ) → is_number v m ≡ true → v ≡ number m
is_number_ok (text s) m h = cc
is_number_ok (number n) m h = ground arith

is_ann_ok : (claims : MapClaims) → is_ann claims ≡ true → claims ≡ ann
is_ann_ok [] h = cc
is_ann_ok (a ∷ []) h = cc
is_ann_ok (a ∷ b ∷ []) h = cc
is_ann_ok (a ∷ b ∷ c ∷ []) h = cc
is_ann_ok ((a, v) ∷ (b, w) ∷ (c, x) ∷ (d, y) ∷ []) h = ground (
  arith,
  eq_iff a "exp",
  is_number_ok v 7210,
  eq_iff b "iat",
  is_number_ok w 10,
  eq_iff c "nbf",
  is_number_ok x 10,
  eq_iff d "identityKey",
  is_text_ok y "ann",
)
is_ann_ok (a ∷ b ∷ c ∷ d ∷ e ∷ r) h = cc

made_case :
    (b : Bool) (key s : String)
    → ◌≡◌ {A = Result (Unit {0}) String} (if b then ok key else err tt) (ok s)
    → (b ≡ true) × (key ≡ s)
made_case b key s h = ground arith

read_ann :
    (key s : String) (now e : ℕ)
    → key ≡ s
    → lookup "exp" ann ≡ some (number e)
    → now < e
    → jwt.parse now s key ≡ ok (record { claims = some ann; valid = true })
unfolding lookup
read_ann key s now e same exp live = ground (arith, eq_iff s key)

accepted_ann :
    (claims : MapClaims) (key s : String) (now b i e : ℕ)
    → jwt.sign claims key ≡ ok s
    → lookup "nbf" claims ≡ some (number b)
    → lookup "iat" claims ≡ some (number i)
    → lookup "exp" claims ≡ some (number e)
    → b ≤ now
    → i ≤ now
    → now < e
    → jwt.parse now s key ≡ ok (record { claims = some claims; valid = true })
accepted_ann claims key s now b i e made nbf iat exp started issued live =
    let (is, same) = made_case (is_ann claims) key s made in
    let all = is_ann_ok claims is in rw all (read_ann key s now e same (rw all at exp) live)

jwt-Laws : MapJwtLaws jwt
jwt-Laws = record { accepted = accepted_ann }

signed_ann : sign jwt initial 10 10 10 "ann" ≡ ok (initial.config.key, 7210)
unfolding sign insert delete
signed_ann = refl

sign-parse_example : parse jwt initial 20 initial.config.key initial.config.key ≡ ok "ann"
sign-parse_example =
    sign-parse jwt jwt-Laws initial 10 10 10 20 "ann" initial.config.key 7210 signed_ann
      (λ e. ground (arith, eq_iff "ann" "")) (λ e. ground (arith, eq_iff "identityKey" "nbf"))
      (λ e. ground (arith, eq_iff "identityKey" "iat"))
      (λ e. ground (arith, eq_iff "identityKey" "exp")) (omega arith) (omega arith) (omega arith)
