-- ===== src/Core/Examples.antt =====
-- The theorems about requests at an endpoint that takes numbers.
use public_pkg.Common.{
  ℕ, ◌+◌, String, [], ◌∷◌, Option, none, some, ok, ◌≡◌, refl, ◌==◌, if◌then◌else◌,
}
use public_pkg.Errors.{ErrorX, Chain}
use public_pkg.Core.{Endpoint, answered, handle_request, read_request, run_validators}
use public_pkg.Core.Requests.{Answer, refusal, handle_request-Answer, bind_message_leaks}

abbrev chain : Chain
chain = record {
  Err = String;
  as_error_x = λ e. none;
  from_status = λ e. none;
  text = λ e. e;
  from_grpc_code = λ n. n;
}

abbrev bind : ℕ → Option String × ℕ
bind n =
    if n == 0 then (some "no number", n) else if n == 1 then (some "too small", n) else (none, n)

abbrev check : ℕ → Option String × ℕ
check n = if n == 7 then (some "seven", n) else (none, n + 1)

abbrev endpoint : Endpoint chain ℕ ℕ
endpoint = record {
  binder = bind;
  set_default = some (λ n. n + 1);
  validators = some check ∷ none ∷ [];
  handler = λ n. ok n;
  sprintf = λ s. s;
}

abbrev shared : ErrorX
shared = record { code = 400; reason = "BindError"; message = ""; metadata = [] }

answered_five :
    (handle_request chain endpoint (λ now. now) 3 shared).0
    ≡ record { status = 200; body = answered 5 }
unfolding handle_request run_validators
answered_five = refl

handle_request-Answer_example :
    Answer chain endpoint 3 shared (handle_request chain endpoint (λ now. now) 3 shared).0
handle_request-Answer_example = handle_request-Answer chain endpoint 3 shared

bind_message_leaks_example :
    (handle_request chain endpoint (λ now. (read_request chain endpoint 1 now).2) 0 shared).0
    ≡ refusal (record shared { message = "too small" })
bind_message_leaks_example =
    bind_message_leaks chain endpoint 0 1 0 1 shared "no number" "too small" refl refl
