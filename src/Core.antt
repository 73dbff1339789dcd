-- ===== src/Core.antt =====
-- pkg/core/core.go: a request is bound, validated and handled, and answered. gin's context, its binders
-- and the handlers are the parameter `Endpoint`. `errorsx.ErrBind` is one shared object, to which every
-- failure to bind points: its record is state, an argument and a part of each result.
pub mod Requests
mod Examples
use public_pkg.Common.{ℕ, String, List, [], ◌∷◌, Option, none, some, Result, ok, err}
use public_pkg.Errors.{ErrorX, Chain, with_message, from_error}

-- An error value that `ReadRequest` returns: the pointer to the shared error, or another error.
pub data Failure (c : Chain) : Type 0 where
  err_bind : Failure c
  other : c.Err → Failure c

-- A validator gets a pointer to the request, so it may change it.
abbrev pub Validator : Chain → Type 0 → Type 0
Validator c Rq = Rq → Option c.Err × Rq

-- `set_default` is the method of an interface which the request type may have; a validator may be nil.
-- `sprintf` is `fmt.Sprintf` without arguments.
pub record Endpoint (c : Chain) (Rq R : Type 0) : Type 0 where
  pub binder : Rq → Option c.Err × Rq
  pub set_default : Option (Rq → Rq)
  pub validators : List (Option (Validator c Rq))
  pub handler : Rq → Result c.Err R
  pub sprintf : String → String

pub record ErrorResponse : Type 0 where
  pub reason : String
  pub message : String
  pub metadata : List (String × String)

pub data Body (R : Type 0) : Type 0 where
  failed : ErrorResponse → Body R
  answered : R → Body R

-- What is written to the client.
pub record Response (R : Type 0) : Type 0 where
  pub status : ℕ
  pub body : Body R

abbrev pub defaulted : {Rq : Type 0} → Option (Rq → Rq) → Rq → Rq
defaulted none rq = rq
defaulted (some set) rq = set rq

module _ (c : Chain) where
  -- The loop over the validators.
  unfoldable pub run_validators :
      {Rq : Type 0} → List (Option (Validator c Rq)) → Rq → Option c.Err × Rq
  run_validators [] rq = (none, rq)
  run_validators (none ∷ validators) rq = run_validators validators rq
  run_validators (some validate ∷ validators) rq =
      let rest = run_validators validators (validate rq).1 in
      elim (validate rq).0 [ none ↦ rest | some e ↦ (some e, (validate rq).1) ]

  abbrev pub as_failure : Option c.Err → Option (Failure c)
  as_failure none = none
  as_failure (some e) = some (other e)

  abbrev pub after_bind :
      {Rq R : Type 0}
      → Endpoint c Rq R
      → ErrorX
      → Option c.Err × Rq
      → Option (Failure c) × Rq × ErrorX
  after_bind e shared (some error, rq) =
      (some err_bind, rq, with_message (e.sprintf (c.text error)) shared)
  after_bind e shared (none, rq) =
      let checked = run_validators e.validators (defaulted e.set_default rq) in
      (as_failure checked.0, checked.1, shared)

  -- `ReadRequest`: the error, the request and the shared error.
  unfoldable pub read_request :
      {Rq R : Type 0} → Endpoint c Rq R → Rq → ErrorX → Option (Failure c) × Rq × ErrorX
  unfolding run_validators
  read_request e rq shared = after_bind e shared (e.binder rq)

  -- `errorsx.FromError`: a pointer to an ErrorX is that object, as it is now.
  abbrev pub resolve : ErrorX → Failure c → ErrorX
  resolve shared err_bind = shared
  resolve shared (other e) = from_error c e

  -- `WriteResponse`
  unfoldable pub write_response : {R : Type 0} → ErrorX → Result (Failure c) R → Response R
  write_response shared (ok response) = record { status = 200; body = answered response }
  write_response shared (err f) =
      let x = resolve shared f in
      record {
        status = x.code;
        body = failed (record { reason = x.reason; message = x.message; metadata = x.metadata });
      }

  abbrev pub handled : {R : Type 0} → Result c.Err R → Result (Failure c) R
  handled (ok response) = ok response
  handled (err e) = err (other e)

  -- `between` is what other requests make of the shared error before the response is written.
  abbrev pub respond :
      {Rq R : Type 0}
      → Endpoint c Rq R
      → (ErrorX → ErrorX)
      → Option (Failure c) × Rq × ErrorX
      → Response R × ErrorX
  respond e between (some f, rq, shared) = (write_response (between shared) (err f), between shared)
  respond e between (none, rq, shared) =
      (write_response (between shared) (handled (e.handler rq)), between shared)

  -- `HandleRequest`
  unfoldable pub handle_request :
      {Rq R : Type 0} → Endpoint c Rq R → (ErrorX → ErrorX) → Rq → ErrorX → Response R × ErrorX
  unfolding read_request write_response
  handle_request e between rq shared = respond e between (read_request e rq shared)
