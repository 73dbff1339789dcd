-- ===== src/Authn/Destroyed.antt =====
-- A token that was destroyed.
use public_pkg.Common.{
  ℕ, zero, suc, ◌+◌, ◌<◌, ◌≤◌, Bool, true, false, ◌≡◌, refl, ap, ◌∙◌, String, Option, none, some,
  Result, ok, err, if◌then◌else◌, eq_iff, arith, Bool-cases, Result-cases, ltb, ◌⊎◌, inl, inr,
}
use public_pkg.Common.Int.{ℤ, pos, negsuc, ◌-ℤ◌}
use public_pkg.Authn.{
  Jwt, Claims, Options, Storer, JwtError, Ended, returned, destroy, parse_claims, parse_token,
  token_invalid, stored, as_error, set_until, destroy_parsed, check_parsed, checked,
}
use public_pkg.Authn.Storage.{StorerLaws, lasts}
use public_pkg.Authn.Laws.{JwtLaws}
use public_pkg.Authn.Reading.{parsed_claims}

-- What is set until a time is there before that time.
lasts_cases :
    (later t : ℕ) (ttl : ℤ) → lasts later ttl t ≡ false → (n : ℕ) × (ttl ≡ pos n) × (later + n ≤ t)
lasts_cases later t (pos zero) h = cc
lasts_cases later t (pos (suc n)) h = (suc n, refl, ground arith)
lasts_cases later t (negsuc n) h = cc

lasts_until : (later t e : ℕ) → t < e → lasts later (pos e -ℤ pos later) t ≡ true
unfolding ◌-ℤ◌
lasts_until later t e h = elim (Bool-cases (lasts later (pos e -ℤ pos later) t)) [
  | inl y ↦ y
  | inr n ↦ absurd (ground (arith, lasts_cases later t (pos e -ℤ pos later) n))
]

module _ (j : Jwt) (SameKey : j.Key → j.Key → Type 0) (law : JwtLaws j SameKey) (st : Storer)
    (kept : StorerLaws st) (o : Options j) where
  open st use {State, Fault}

  -- The claims are not returned, but an error.
  abbrev pub IsRefused : Result (JwtError Fault) Claims × Option State → Type 0
  IsRefused x = (e : JwtError Fault) × (x.0 ≡ err e)

  -- The claims of the token expire between two times.
  abbrev pub ExpiresBetween : ℕ → String → ℕ → ℕ → Type 0
  ExpiresBetween now token t checked_at =
      (cl : Claims) × (e : ℕ) × (parse_token j {F = Fault} o now token ≡ ok cl)
      × (cl.expires_at ≡ some e)
      × (t < e)
      × (e ≤ checked_at)

  check_case :
      (cl : Claims) (s : State) (t : ℕ) (token : String) (x : Result Fault Bool × State)
      → st.check s t token ≡ x
      → kept.listed s token t ≡ true
      → IsRefused (checked j st cl x)
  check_case cl s t token (err f, s1) e h = (stored f, refl)
  check_case cl s t token (ok true, s1) e h = (token_invalid, refl)
  check_case cl s t token (ok false, s1) e h =
      cc (h, (kept.was_checked s s1 t t token token false e).0)

  stored_case :
      (x : Option Fault × State) (s' : State)
      → ◌≡◌ {A = Ended Fault × Option State}
          (returned (as_error j st x.0), some x.1)
          (returned none, some s')
      → x ≡ (none, s')
  stored_case (none, s1) s' h = cc
  stored_case (some f, s1) s' h = cc

  expiry_case :
      (s s' : State) (later : ℕ) (token : String) (x : Option ℕ)
      → set_until j st later token x (some s) ≡ (returned none, some s')
      → (e : ℕ) × (x ≡ some e) × (st.set s later token (pos e -ℤ pos later) ≡ (none, s'))
  expiry_case s s' later token none h = cc
  expiry_case s s' later token (some e) h = (e, refl, stored_case _ s' h)

  destroy_case :
      (s s' : State) (later : ℕ) (token : String) (r : Result (JwtError Fault) Claims)
      → destroy_parsed j st later token (some s) r ≡ (returned none, some s')
      → (cl : Claims) × (e : ℕ) × (r ≡ ok cl)
        × (cl.expires_at ≡ some e)
        × (st.set s later token (pos e -ℤ pos later) ≡ (none, s'))
  destroy_case s s' later token (err e) h = cc
  destroy_case s s' later token (ok cl) h =
      let (e, expiry, was_set) = expiry_case s s' later token cl.expires_at h in
      (cl, e, refl, expiry, was_set)

  parsed_case :
      (s : State) (t : ℕ) (token : String) (r : Result (JwtError Fault) Claims)
      → ((cl : Claims) → r ≡ ok cl → kept.listed s token t ≡ true)
      → IsRefused (check_parsed j st t token (some s) r)
  parsed_case s t token (err e) h = (e, refl)
  parsed_case s t token (ok cl) h = check_case cl s t token _ refl (h cl refl)

  empty_case :
      (b : Bool) (s : Option State) (x : Result (JwtError Fault) Claims × Option State)
      → IsRefused x
      → IsRefused (if b then (err token_invalid, s) else x)
  empty_case true s x h = (token_invalid, refl)
  empty_case false s x h = h

  -- A token for which `Destroy` returned nil is refused from then on, whenever it is parsed and whenever the storage
  -- is asked for it, if nobody removed it there, unless the token expires between the two: before it expires the
  -- storage has it, and later the library refuses it.
  pub destroyed-IsRefused :
      (now later t checked_at : ℕ) (token : String) (s s' s'' : State)
      → destroy j st o now later token (some s) ≡ (returned none, some s')
      → kept.listed s'' token checked_at ≡ kept.listed s' token checked_at
      → IsRefused (parse_claims j st o t checked_at token (some s''))
        ⊎ ExpiresBetween now token t checked_at
  unfolding destroy parse_claims
  destroyed-IsRefused now later t checked_at token s s' s'' h still =
      let (cl, e, parsed, expiry, was_set) = destroy_case s s' later token _ h in
      let (tok, read, same) = parsed_claims j o now token cl parsed in
      elim (Result-cases (parse_token j {F = Fault} o t token)) [
        | inr (f, bad) ↦ inl (
            empty_case _ (some s'')
              (check_parsed j st checked_at token (some s'') (parse_token j {F = Fault} o t token))
              (parsed_case s'' checked_at token _ λ cl'' good. cc (bad, good)))
        | inl (cl', parsed') ↦
            let (tok', read', same') = parsed_claims j o t token cl' parsed' in
            let early : t < e = law.unexpired t e token o.keyfunc tok' read' (
              ap (λ (c : Claims). c.expires_at)
                (law.same_claims t now token o.keyfunc o.keyfunc tok' tok read' read ∙ same)
              ∙ expiry) in
            elim (Bool-cases (ltb checked_at e)) [
              | inr over ↦ inr (cl, e, parsed, expiry, early, ground arith)
              | inl in_time ↦ inl (
                  empty_case _ (some s'') _ (
                    parsed_case s'' checked_at token _ λ cl'' _. ground (
                      arith,
                      kept.was_set s s' later checked_at token token (pos e -ℤ pos later) was_set,
                      eq_iff token token,
                      lasts_until later checked_at e (ground arith),
                    )))
            ]
      ]
