-- ===== src/Authn/Signed.antt =====
-- A token that was signed and comes back.
use public_pkg.Common.{
  ℕ, ◌+◌, ◌<◌, ◌≤◌, true, false, ◌≡◌, ◌≢◌, refl, sym, subst, ap, ◌∙◌, String, [], ◌∷◌, Option, none,
  some, ok, err, str_eq, eq_iff, arith, lookup, Result-cases, Bool-cases, inl, inr,
}
use public_pkg.Authn.{
  Jwt, Token, Claims, Options, Storer, JwtError, TokenInfo, sign, parse_token, parse_claims,
  claims_of, read_token, new, default_options, with_signing_key, apply_option, check_parsed,
}
use public_pkg.Authn.Laws.{JwtLaws}
use public_pkg.Authn.Reading.{fault_case, signed_case}

module _ (j : Jwt) (SameKey : j.Key → j.Key → Type 0) (law : JwtLaws j SameKey) (st : Storer)
    (o : Options j) where
  open st use {State, Fault}

  -- The storage, if there is one, answers that the token is not in it.
  abbrev pub IsAbsent : ℕ → String → Option State → Type 0
  IsAbsent later token none = Unit
  IsAbsent later token (some s) = (s' : State) × (st.check s later token ≡ (ok false, s'))

  accept_case :
      (t : Token j.Method j.Value)
      → t.valid ≡ true
      → t.method ≡ o.signing_method
      → read_token j {F = Fault} o (ok t) ≡ ok t.claims
  accept_case t valid same = rw (valid, same, law.method_refl o.signing_method)

  absent_case :
      (later : ℕ) (token : String) (s : Option State) (cl : Claims)
      → IsAbsent later token s
      → (check_parsed j st later token s (ok cl)).0 ≡ ok cl
  absent_case later token none cl h = refl
  absent_case later token (some s) cl (s', e) = rw e

  claims_case :
      (t later : ℕ) (token : String) (s : Option State) (cl : Claims)
      → token ≢ ""
      → parse_token j {F = Fault} o t token ≡ ok cl
      → IsAbsent later token s
      → (parse_claims j st o t later token s).0 ≡ ok cl
  unfolding parse_claims
  claims_case t later token s cl filled parsed absent = elim (Bool-cases (str_eq token "")) [
    | inl e ↦ absurd (filled ((eq_iff token "").0 e))
    | inr e ↦ rw (e, parsed) (absent_case later token s cl absent)
  ]

  -- A token that `Sign` returned is accepted by the same instance until it expires, unless it is in the
  -- storage, and gives the user and the times that it was signed with: where the method is an HMAC,
  -- the key function gives the signing key for it, and the header does not replace the algorithm.
  pub sign-parse_claims :
      (now t later : ℕ) (user_id : String) (info : TokenInfo) (s : Option State)
      → sign j {F = Fault} o now user_id ≡ ok info
      → j.is_hmac o.signing_method ≡ true
      → lookup "alg" o.token_header ≡ none
      → ((tok : Token j.Method j.Value)
          → tok.method ≡ o.signing_method
          → o.keyfunc tok ≡ some o.signing_key)
      → now ≤ t
      → t < j.numeric_date (now + o.expired)
      → IsAbsent later info.token s
      → (parse_claims j st o t later info.token s).0 ≡ ok (claims_of j o now user_id)
  unfolding sign parse_token
  sign-parse_claims now t later user_id info s h hmac alg key started live absent =
      let made : j.sign o.signing_method o.token_header (claims_of j o now user_id) o.signing_key
          ≡ some info.token =
        signed_case j {F = Fault} o now _ info h in
      let early : j.numeric_date now ≤ t = omega (arith, law.rounded now) in
      let (tok, read, valid, same, claims) =
        law.accepted _ _ _ _ info.token t _ _ _ o.keyfunc made hmac alg refl refl refl early early
          live key in
      claims_case t later info.token s _ (law.no_empty _ _ _ _ info.token made)
        (rw read (accept_case tok valid same ∙ ap (λ (c : Claims). ok c) claims)) absent

module _ (j : Jwt) (SameKey : j.Key → j.Key → Type 0) (law : JwtLaws j SameKey) (hs256 : j.Method)
    (default_key key : j.Key) where
  -- The options of an instance that `New` makes with `WithSigningKey` alone.
  abbrev pub own_key : Options j
  own_key = new j (with_signing_key key ∷ []) (default_options j hs256 default_key)

  -- Such an instance, where its method is an HMAC that tells its key from the default one, refuses each token that
  -- it signs, at any time: the default key function gives the default key.
  pub own_token_refused :
      {F : Type 0} (now t : ℕ) (user_id : String) (info : TokenInfo)
      → j.is_hmac hs256 ≡ true
      → ¬ SameKey key default_key
      → sign j {F = F} own_key now user_id ≡ ok info
      → (e : JwtError F) × (parse_token j {F = F} own_key t info.token ≡ err e)
  unfolding parse_token sign new apply_option default_options lookup
  own_token_refused {F} now t user_id info hmac differs h =
      elim (Result-cases (j.parse t info.token own_key.keyfunc)) [
        | inr (f, e) ↦ rw e (fault_case j own_key f)
        | inl (tok, e) ↦
            let (same, k, key_is, alike) =
              law.verified _ _ _ _ info.token t own_key.keyfunc tok
                (signed_case j {F = F} own_key now _ info h) hmac refl e in
            let is_default : default_key ≡ k = ground arith in
            absurd (differs (subst (λ x. SameKey key x) (sym is_default) alike))
      ]
