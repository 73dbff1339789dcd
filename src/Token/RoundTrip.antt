-- ===== src/Token/RoundTrip.antt =====
-- A token comes back as the identity that it was signed for; the configuration is set once.
use public_pkg.Common.{
  ℕ, ◌+◌, ◌<◌, ◌≤◌, true, ◌≡◌, ◌≢◌, String, [], some, Result, ok, err, lookup, insert,
  lookup-insert, str_eq, eq_iff, if◌then◌else◌, arith, Bool-cases, inl, inr,
}
use public_pkg.Token.{
  Config, Package, init, text, number, MapClaims, MapJwt, TokenError, signature_invalid, claims_of,
  signed, parse, sign,
}

-- A token is accepted with the key that it was signed with from the time in "nbf" and in "iat" to the
-- one in "exp".
pub record MapJwtLaws (j : MapJwt) : Type 0 where
  pub accepted :
      (claims : MapClaims) (key s : String) (now b i e : ℕ)
      → j.sign claims key ≡ ok s
      → lookup "nbf" claims ≡ some (number b)
      → lookup "iat" claims ≡ some (number i)
      → lookup "exp" claims ≡ some (number e)
      → b ≤ now
      → i ≤ now
      → now < e
      → j.parse now s key ≡ ok (record { claims = some claims; valid = true })

-- The three times stand in the claims, and the identity where its key is another.
claims_lookup :
    (j : MapJwt) (c : Config) (now before issued : ℕ) (identity : String)
    → c.identity_key ≢ "nbf"
    → c.identity_key ≢ "iat"
    → c.identity_key ≢ "exp"
    → (lookup "exp" (claims_of j c now before issued identity) ≡ some (number (now + c.expiration)))
      × (lookup "iat" (claims_of j c now before issued identity) ≡ some (number issued))
      × (lookup "nbf" (claims_of j c now before issued identity) ≡ some (number before))
      × (lookup c.identity_key (claims_of j c now before issued identity) ≡ some (text identity))
claims_lookup j c now before issued identity nb ia ex = (
  simp (lookup-insert),
  simp (lookup-insert),
  simp (lookup-insert),
  ground (
    arith,
    lookup-insert "exp" c.identity_key (number (now + c.expiration)) (
        insert "iat" (number issued)
          (insert "nbf" (number before) (insert c.identity_key (text identity) []))),
    lookup-insert "iat" c.identity_key (number issued)
        (insert "nbf" (number before) (insert c.identity_key (text identity) [])),
    lookup-insert "nbf" c.identity_key (number before) (insert c.identity_key (text identity) []),
    lookup-insert c.identity_key c.identity_key (text identity) [],
    eq_iff "exp" c.identity_key,
    eq_iff "iat" c.identity_key,
    eq_iff "nbf" c.identity_key,
    eq_iff c.identity_key c.identity_key,
  ),
)

module _ (j : MapJwt) (law : MapJwtLaws j) where
  if_filled :
      (identity : String)
      → identity ≢ ""
      → ◌≡◌ {A = Result (TokenError j.Fault) String}
          (if str_eq identity "" then err signature_invalid else ok identity)
          (ok identity)
  if_filled identity h = ground (arith, eq_iff identity "")

  library_case :
      (at expires : ℕ) (token : String) (x : Result j.Fault String)
      → signed j at x ≡ ok (token, expires)
      → (x ≡ ok token) × (expires ≡ at)
  library_case at expires token (err e) h = cc
  library_case at expires token (ok s) h = ground arith

  signed_case :
      (p : Package) (now before issued : ℕ) (identity token : String) (expires : ℕ)
      → sign j p now before issued identity ≡ ok (token, expires)
      → (j.sign (claims_of j p.config now before issued identity) p.config.key ≡ ok token)
        × (expires ≡ now + p.config.expiration)
  unfolding sign
  signed_case p now before issued identity token expires h =
      elim (Bool-cases (str_eq p.config.key "")) [
        | inl e ↦ absurd (ground arith)
        | inr e ↦ library_case _ expires token _ (rw e at h)
      ]

  -- What `Sign` returned for an identity that is not empty, `Parse` reads as that identity with the
  -- package's key, until the token expires; the identity's key is none of the three times' keys.
  pub sign-parse :
      (p : Package) (now before issued t : ℕ) (identity token : String) (expires : ℕ)
      → sign j p now before issued identity ≡ ok (token, expires)
      → identity ≢ ""
      → p.config.identity_key ≢ "nbf"
      → p.config.identity_key ≢ "iat"
      → p.config.identity_key ≢ "exp"
      → before ≤ t
      → issued ≤ t
      → t < expires
      → parse j p t token p.config.key ≡ ok identity
  unfolding parse
  sign-parse p now before issued t identity token expires h full nb ia ex started got live =
      let (made, until) = signed_case p now before issued identity token expires h in
      let (exp, iat, nbf, id) = claims_lookup j p.config now before issued identity nb ia ex in
      let read =
        law.accepted _ p.config.key token t before issued (now + p.config.expiration) made nbf iat
          exp started got (omega arith) in
      rw (read, id) (if_filled identity full)

-- `Init` takes effect once: whatever the later calls are given, the configuration is that of the first
-- one, in which each empty argument left the default.
init_once :
    (k k' i i' : String) (e e' : ℕ) (p : Package) → init k' i' e' (init k i e p) ≡ init k i e p
unfolding init
init_once k k' i i' e e' p = ground arith
