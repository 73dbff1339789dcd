-- ===== src/Core/Requests.antt =====
-- What is answered to a request, alone and beside other requests.
use public_pkg.Common.{
  List, [], ◌∷◌, Option, none, some, ◌≡◌, refl, inl, inr, pair_of, Result, ok, err, Option-cases,
}
use public_pkg.Errors.{ErrorX, Chain, with_message, from_error}
use public_pkg.Core.{
  Failure, Validator, Endpoint, Response, failed, answered, run_validators, defaulted, read_request,
  write_response, handle_request, handled, respond, after_bind, as_failure,
}

-- The validators in order, each on what the one before left: all accept, or one refuses and no later
-- one runs.
pub data Validated (c : Chain) {Rq : Type 0}
    : List (Option (Validator c Rq)) → Rq → Option c.Err → Rq → Type 0 where
  accepted : (rq : Rq) → Validated c [] rq none rq
  absent :
      {vs : List (Option (Validator c Rq))} {rq rq' : Rq} {r : Option c.Err}
      → Validated c vs rq r rq'
      → Validated c (none ∷ vs) rq r rq'
  refused :
      (v : Validator c Rq) (vs : List (Option (Validator c Rq))) (rq rq' : Rq) (e : c.Err)
      → v rq ≡ (some e, rq')
      → Validated c (some v ∷ vs) rq (some e) rq'
  passed :
      (v : Validator c Rq) {vs : List (Option (Validator c Rq))} (rq : Rq) {rq' rq'' : Rq}
      {r : Option c.Err}
      → v rq ≡ (none, rq')
      → Validated c vs rq' r rq''
      → Validated c (some v ∷ vs) rq r rq''

-- An answer that carries an error.
abbrev pub refusal : {R : Type 0} → ErrorX → Response R
refusal x = record {
  status = x.code;
  body = failed (record { reason = x.reason; message = x.message; metadata = x.metadata });
}

-- What becomes of a bound request: its own defaults are set where its type has the method.
pub data Defaulted {Rq : Type 0} : Option (Rq → Rq) → Rq → Rq → Type 0 where
  without_method : (rq : Rq) → Defaulted none rq rq
  by_method : (set : Rq → Rq) (rq : Rq) → Defaulted (some set) rq (set rq)

-- How a request is answered: the binder refuses it, a validator does, the handler does, or it is
-- handled. Only a request that was bound, defaulted and accepted by every validator is handled.
pub data Answer (c : Chain) {Rq R : Type 0} (e : Endpoint c Rq R) (rq : Rq) (shared : ErrorX)
    : Response R → Type 0 where
  unbound :
      (error : c.Err) (rq' : Rq)
      → e.binder rq ≡ (some error, rq')
      → Answer c e rq shared (refusal (record shared { message = e.sprintf (c.text error) }))
  invalid :
      (error : c.Err) (bound ready left : Rq)
      → e.binder rq ≡ (none, bound)
      → Defaulted e.set_default bound ready
      → Validated c e.validators ready (some error) left
      → Answer c e rq shared (refusal (from_error c error))
  unhandled :
      (error : c.Err) (bound ready left : Rq)
      → e.binder rq ≡ (none, bound)
      → Defaulted e.set_default bound ready
      → Validated c e.validators ready none left
      → e.handler left ≡ err error
      → Answer c e rq shared (refusal (from_error c error))
  handles :
      (response : R) (bound ready left : Rq)
      → e.binder rq ≡ (none, bound)
      → Defaulted e.set_default bound ready
      → Validated c e.validators ready none left
      → e.handler left ≡ ok response
      → Answer c e rq shared (record { status = 200; body = answered response })

module _ (c : Chain) {Rq : Type 0} where
  validator_case :
      (v : Validator c Rq) (vs : List (Option (Validator c Rq))) (rq : Rq)
      → Validated c vs (v rq).1 (run_validators c vs (v rq).1).0 (run_validators c vs (v rq).1).1
      → Validated c
          (some v ∷ vs)
          rq
          (run_validators c (some v ∷ vs) rq).0
          (run_validators c (some v ∷ vs) rq).1
  unfolding run_validators
  validator_case v vs rq rest = elim (Option-cases (v rq).0) [
    | inl e ↦ rw (e, run_validators) (passed v rq (pair_of (v rq) e) rest)
    | inr (x, e) ↦ rw (e, run_validators) (refused v vs rq (v rq).1 x (pair_of (v rq) e))
  ]

  run_validators-Validated :
      (vs : List (Option (Validator c Rq))) (rq : Rq)
      → Validated c vs rq (run_validators c vs rq).0 (run_validators c vs rq).1
  unfolding run_validators
  run_validators-Validated [] rq = accepted rq
  run_validators-Validated (none ∷ vs) rq = absent (run_validators-Validated vs rq)
  run_validators-Validated (some v ∷ vs) rq =
      validator_case v vs rq (run_validators-Validated vs (v rq).1)

module _ (c : Chain) {Rq R : Type 0} (e : Endpoint c Rq R) (rq : Rq) (shared : ErrorX) where
  -- The answer of a request that no other request interferes with.
  abbrev alone : Option (Failure c) × Rq × ErrorX → Response R
  alone x = (respond c e (λ now. now) x).0

  is_defaulted : (set : Option (Rq → Rq)) (bound : Rq) → Defaulted set bound (defaulted set bound)
  is_defaulted none bound = without_method bound
  is_defaulted (some set) bound = by_method set bound

  handler_case :
      (bound left : Rq) (r : Result c.Err R)
      → e.binder rq ≡ (none, bound)
      → Validated c e.validators (defaulted e.set_default bound) none left
      → e.handler left ≡ r
      → Answer c e rq shared (write_response c shared (handled c r))
  unfolding write_response
  handler_case bound left (ok response) b v h =
      handles response bound _ left b (is_defaulted e.set_default bound) v h
  handler_case bound left (err error) b v h =
      unhandled error bound _ left b (is_defaulted e.set_default bound) v h

  checked_case :
      (bound left : Rq) (r : Option c.Err)
      → e.binder rq ≡ (none, bound)
      → Validated c e.validators (defaulted e.set_default bound) r left
      → Answer c e rq shared (alone (as_failure c r, left, shared))
  unfolding write_response
  checked_case bound left none b v = handler_case bound left (e.handler left) b v refl
  checked_case bound left (some error) b v =
      invalid error bound _ left b (is_defaulted e.set_default bound) v

  bound_case :
      (x : Option c.Err × Rq)
      → e.binder rq ≡ x
      → Answer c e rq shared (alone (after_bind c e shared x))
  unfolding write_response with_message
  bound_case (some error, rq') b = unbound error rq' b
  bound_case (none, bound) b =
      checked_case bound _ _ b
        (run_validators-Validated c e.validators (defaulted e.set_default bound))

  -- With no other request beside it, a request is answered as `Answer` says: 200 with the handler's
  -- response if it was bound, defaulted, accepted by all validators in turn and handled; else by the
  -- first error, and what comes after that error is not run.
  pub handle_request-Answer : Answer c e rq shared (handle_request c e (λ now. now) rq shared).0
  unfolding handle_request
  handle_request-Answer = bound_case (e.binder rq) refl

-- Two requests that both fail to bind, the second between the first one's failure and its response:
-- the first client is answered with the message about the second client's request.
pub bind_message_leaks :
    (c : Chain) {Rq R : Type 0} (e : Endpoint c Rq R) (mine theirs mine' theirs' : Rq)
    (shared : ErrorX) (error error' : c.Err)
    → e.binder mine ≡ (some error, mine')
    → e.binder theirs ≡ (some error', theirs')
    → (handle_request c e (λ now. (read_request c e theirs now).2) mine shared).0
      ≡ refusal (record shared { message = e.sprintf (c.text error') })
unfolding handle_request with_message
bind_message_leaks c e mine theirs mine' theirs' shared error error' h h' = rw (h, h')
