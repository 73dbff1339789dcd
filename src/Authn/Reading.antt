-- ===== src/Authn/Reading.antt =====
-- `parseToken` and `Sign` taken apart: what the result says of the call of the library.
use public_pkg.Common.{
  ℕ, Bool, true, false, ◌≡◌, refl, String, Option, none, some, Result, ok, err, if◌then◌else◌,
  arith,
}
use public_pkg.Authn.{
  Jwt, Token, Claims, Options, JwtError, TokenInfo, ParseFault, validation, no_validation, signed,
  other, token_expired, token_parse_fail, parse_token, read_token, token_invalid,
}

-- Some error is chosen.
chosen :
    {E A : Type 0} (b c : Bool) (x y z : E)
    → (e : E) × (◌≡◌ {A = Result E A} (if b then err x else if c then err y else err z) (err e))
chosen true c x y z = (x, refl)
chosen false true x y z = (y, refl)
chosen false false x y z = (z, refl)

module _ (j : Jwt) {F : Type 0} (o : Options j) where
  pub fault_case : (f : ParseFault) → (e : JwtError F) × (read_token j {F = F} o (err f) ≡ err e)
  fault_case (no_validation text) = (other text, refl)
  fault_case (validation v) = chosen v.malformed _ token_invalid token_expired token_parse_fail

  read_case :
      (r : Result ParseFault (Token j.Method j.Value)) (cl : Claims)
      → read_token j {F = F} o r ≡ ok cl
      → (t : Token j.Method j.Value) × (r ≡ ok t) × (t.claims ≡ cl)
  read_case (err (no_validation text)) cl h = cc
  read_case (err (validation v)) cl h = absurd (ground arith)
  read_case (ok t) cl h = (t, refl, ground arith)

  pub parsed_claims :
      (now : ℕ) (token : String) (cl : Claims)
      → parse_token j {F = F} o now token ≡ ok cl
      → (t : Token j.Method j.Value) × (j.parse now token o.keyfunc ≡ ok t) × (t.claims ≡ cl)
  unfolding parse_token
  parsed_claims now token cl h = read_case (j.parse now token o.keyfunc) cl h

  pub signed_case :
      (now : ℕ) (x : Option String) (info : TokenInfo)
      → signed j {F = F} o now x ≡ ok info
      → x ≡ some info.token
  signed_case now none info h = cc
  signed_case now (some token) info h = ground arith
