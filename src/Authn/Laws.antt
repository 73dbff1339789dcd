-- ===== src/Authn/Laws.antt =====
-- What github.com/golang-jwt/jwt documents of signing and parsing.
use public_pkg.Common.{ℕ, ◌<◌, ◌≤◌, true, ◌≡◌, ◌≢◌, String, List, Option, none, some, ok, lookup}
use public_pkg.Authn.{Jwt, Token, Claims}

-- What the library documents of tokens whose algorithm is not replaced in the header. `SameKey` relates the keys
-- that an HMAC does not tell apart: equal ones, those that are equal when they are filled up by zeros, and a long
-- one and its hash.
pub record JwtLaws (j : Jwt) (SameKey : j.Key → j.Key → Type 0) : Type 0 where
  pub method_refl : (m : j.Method) → j.same_method m m ≡ true
  -- A token that has expired is refused.
  pub unexpired :
      (now e : ℕ) (s : String) (kf : Token j.Method j.Value → Option j.Key)
      (t : Token j.Method j.Value)
      → j.parse now s kf ≡ ok t
      → t.claims.expires_at ≡ some e
      → now < e
  -- The claims are in the text of the token.
  pub same_claims :
      (now now' : ℕ) (s : String) (kf kf' : Token j.Method j.Value → Option j.Key)
      (t t' : Token j.Method j.Value)
      → j.parse now s kf ≡ ok t
      → j.parse now' s kf' ≡ ok t'
      → t.claims ≡ t'.claims
  -- A token is accepted with the key that an HMAC was made with, while it is valid.
  pub accepted :
      (m : j.Method) (h : List (String × j.Value)) (cl : Claims) (k : j.Key) (s : String)
      (now b i e : ℕ) (kf : Token j.Method j.Value → Option j.Key)
      → j.sign m h cl k ≡ some s
      → j.is_hmac m ≡ true
      → lookup "alg" h ≡ none
      → cl.not_before ≡ some b
      → cl.issued_at ≡ some i
      → cl.expires_at ≡ some e
      → b ≤ now
      → i ≤ now
      → now < e
      → ((t : Token j.Method j.Value) → t.method ≡ m → kf t ≡ some k)
      → (t : Token j.Method j.Value) × (j.parse now s kf ≡ ok t)
        × (t.valid ≡ true)
        × (t.method ≡ m)
        × (t.claims ≡ cl)
  -- It is accepted with no key but the one it was made with and those that the HMAC does not tell from it.
  pub verified :
      (m : j.Method) (h : List (String × j.Value)) (cl : Claims) (k : j.Key) (s : String) (now : ℕ)
      (kf : Token j.Method j.Value → Option j.Key) (t : Token j.Method j.Value)
      → j.sign m h cl k ≡ some s
      → j.is_hmac m ≡ true
      → lookup "alg" h ≡ none
      → j.parse now s kf ≡ ok t
      → (t.method ≡ m) × (k' : j.Key) × (kf t ≡ some k') × SameKey k k'
  pub no_empty :
      (m : j.Method) (h : List (String × j.Value)) (cl : Claims) (k : j.Key) (s : String)
      → j.sign m h cl k ≡ some s
      → s ≢ ""
  pub rounded : (t : ℕ) → j.numeric_date t ≤ t
