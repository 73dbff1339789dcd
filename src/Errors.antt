-- ===== src/Errors.antt =====
-- pkg/errorsx/errorsx.go: errors with a code, a reason and metadata. A method that changes the error
-- it is called on returns the new record; nil metadata are empty. Error chains and gRPC statuses are
-- the parameter `Chain`.
mod Codes
use public_pkg.Common.{
  ℕ, Bool, false, String, List, [], ◌∷◌, Option, none, some, ◌≡◌, refl, ◌==◌, ◌&&◌, str_eq, insert,
  delete,
}

pub record ErrorX : Type 0 where
  pub code : ℕ
  pub reason : String
  pub message : String
  pub metadata : List (String × String)

-- `New` and `WithMessage` for a message that is formatted already.
unfoldable pub new_error : ℕ → String → String → ErrorX
new_error code reason message = record {
  code = code;
  reason = reason;
  message = message;
  metadata = [];
}

unfoldable pub with_message : String → ErrorX → ErrorX
with_message message e = record e { message = message }

unfoldable with_metadata : List (String × String) → ErrorX → ErrorX
with_metadata md e = record e { metadata = md }

-- The loop of `KV`, which drops a key without a value.
unfoldable put_pairs : List String → List (String × String) → List (String × String)
put_pairs [] m = m
put_pairs (k ∷ []) m = m
put_pairs (k ∷ v ∷ kvs) m = put_pairs kvs (insert k v m)

unfoldable kv : List String → ErrorX → ErrorX
unfolding put_pairs
kv kvs e = record e { metadata = put_pairs kvs e.metadata }

unfoldable with_request_id : String → ErrorX → ErrorX
unfolding kv
with_request_id request_id e = kv ("X-Request-ID" ∷ request_id ∷ []) e

abbrev err_internal : ErrorX
err_internal = record {
  code = 500;
  reason = "InternalError";
  message = "Internal server error.";
  metadata = [];
}

-- A gRPC status: a detail that is no ErrorInfo is `none`.
pub record Status : Type 0 where
  pub grpc_code : ℕ
  pub status_message : String
  pub details : List (Option (String × List (String × String)))

-- `errors.As` for *ErrorX, `status.FromError`, `Error` and `FromGRPCCode` of other packages.
pub record Chain : Type 1 where
  pub Err : Type 0
  pub as_error_x : Err → Option ErrorX
  pub from_status : Err → Option Status
  pub text : Err → String
  pub from_grpc_code : ℕ → ℕ

-- The loop over the details: the first ErrorInfo.
unfoldable add_info : List (Option (String × List (String × String))) → ErrorX → ErrorX
unfolding with_metadata
add_info [] ret = ret
add_info (none ∷ details) ret = add_info details ret
add_info (some (reason, md) ∷ details) ret = with_metadata md (record ret { reason = reason })

module _ (c : Chain) where
  -- `FromError` of an error that is not nil.
  unfoldable pub from_error : c.Err → ErrorX
  unfolding new_error add_info
  from_error e = elim (c.as_error_x e) [
    | some x ↦ x
    | none ↦ elim (c.from_status e) [
      | none ↦ new_error 500 err_internal.reason (c.text e)
      | some gs ↦
          add_info gs.details
            (new_error (c.from_grpc_code gs.grpc_code) err_internal.reason gs.status_message)
    ]
  ]

  -- The method `Is`.
  unfoldable is : ErrorX → c.Err → Bool
  is x target = elim (c.as_error_x target) [
    | some y ↦ y.code == x.code && str_eq y.reason x.reason
    | none ↦ false
  ]

  -- `Code` and `Reason`; a nil error is `none`.
  unfoldable code_of : Option c.Err → ℕ
  unfolding from_error
  code_of none = 200
  code_of (some e) = (from_error e).code

  unfoldable reason_of : Option c.Err → String
  unfolding from_error
  reason_of none = err_internal.reason
  reason_of (some e) = (from_error e).reason

sample_id : (with_request_id "r1" err_internal).metadata ≡ ("X-Request-ID", "r1") ∷ []
unfolding with_request_id kv put_pairs insert delete
sample_id = refl
