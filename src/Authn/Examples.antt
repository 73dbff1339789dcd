-- ===== src/Authn/Examples.antt =====
-- The theorems about tokens: one user whose claims are known beforehand, two keys, and a Redis that is
-- a function from keys and times.
use public_pkg.Common.{
  ℕ, ◌<◌, ◌≤◌, Bool, true, false, ◌≡◌, ◌≢◌, refl, sym, ap, ◌∙◌, String, List, [], Option, none,
  some, Result, ok, err, ltb, ◌==◌, ◌&&◌, ◌⊎◌, if◌then◌else◌, str_eq, eq_iff, arith, lookup,
}
use public_pkg.Common.Int.{pos, ◌-ℤ◌}
use public_pkg.Authn.{
  Jwt, Token, Claims, Options, JwtError, TokenInfo, returned, validation, ParseFault, sign,
  parse_token, destroy, parse_claims, new, default_options, apply_option,
}
use public_pkg.Authn.Storage.{lasts}
use public_pkg.Authn.Laws.{JwtLaws}
use public_pkg.Authn.Redis.{
  TokenServer, TokenServerLaws, redis_storer, redis_storer-Laws, set, check,
}
use public_pkg.Authn.Destroyed.{IsRefused, ExpiresBetween, destroyed-IsRefused}
use public_pkg.Authn.Signed.{sign-parse_claims, own_key, own_token_refused}

abbrev ann : Claims
ann = record {
  issuer = "";
  issued_at = some 1000;
  expires_at = some 7_201_000;
  not_before = some 1000;
  subject = "ann";
}

abbrev is_time : Option ℕ → ℕ → Bool
is_time none t = false
is_time (some n) t = n == t

abbrev is_ann : Claims → Bool
is_ann c =
    str_eq c.issuer ""
    && (is_time c.issued_at 1000
        && (is_time c.expires_at 7_201_000
            && (is_time c.not_before 1000 && str_eq c.subject "ann")))

abbrev text_of : Bool → String
text_of true = "t1"
text_of false = "t2"

-- An HMAC is `true`.
abbrev sign_ann : Bool → Claims → Bool → Option String
sign_ann m c k = if m && is_ann c then some (text_of k) else none

abbrev token : Token Bool String
token = record { method = true; header = []; claims = ann; valid = true }

abbrev refusal : Bool → Bool → Result ParseFault (Token Bool String)
refusal late early =
    err (validation (record { malformed = false; expired = late; not_valid_yet = early }))

abbrev with_key : ℕ → Bool → Option Bool → Result ParseFault (Token Bool String)
with_key now k none = refusal false false
with_key now true (some false) = refusal false false
with_key now false (some true) = refusal false false
with_key now true (some true) =
    if ltb now 7_201_000
    then (if ltb now 1000 then refusal false true else ok token)
    else refusal true false
with_key now false (some false) =
    if ltb now 7_201_000
    then (if ltb now 1000 then refusal false true else ok token)
    else refusal true false

abbrev parse_ann :
    ℕ → String → (Token Bool String → Option Bool) → Result ParseFault (Token Bool String)
parse_ann now s kf =
    if str_eq s "t1"
    then with_key now true (kf token)
    else if str_eq s "t2"
    then with_key now false (kf token)
    else err (validation (record { malformed = true; expired = false; not_valid_yet = false }))

abbrev jwt : Jwt
jwt = record {
  Method = Bool;
  Key = Bool;
  Value = String;
  same_method = λ a b. if a then b else if b then false else true;
  is_hmac = λ m. m;
  sign = λ m h c k. sign_ann m c k;
  parse = parse_ann;
  numeric_date = λ t. t;
}

with_key_ok :
    (now : ℕ) (k : Bool) (x : Option Bool) (t : Token Bool String)
    → with_key now k x ≡ ok t
    → (t ≡ token) × (now < 7_201_000) × (x ≡ some k)
with_key_ok now k none t h = cc
with_key_ok now true (some false) t h = cc
with_key_ok now false (some true) t h = cc
with_key_ok now true (some true) t h = ground arith
with_key_ok now false (some false) t h = ground arith

parse_ann_ok :
    (now : ℕ) (s : String) (kf : Token Bool String → Option Bool) (t : Token Bool String)
    → parse_ann now s kf ≡ ok t
    → (t ≡ token) × (now < 7_201_000)
parse_ann_ok now s kf t h =
    ground (arith, with_key_ok now true (kf token) t, with_key_ok now false (kf token) t)

sign_ann_ok :
    (m : Bool) (c : Claims) (k : Bool) (s : String)
    → sign_ann m c k ≡ some s
    → (m ≡ true) × (c ≡ ann) × (s ≡ text_of k)
sign_ann_ok m c k s h = ground (
  arith,
  eq_iff c.issuer "",
  eq_iff c.subject "ann",
  is_time_ok c.issued_at 1000,
  is_time_ok c.expires_at 7_201_000,
  is_time_ok c.not_before 1000,
)
  where
    is_time_ok : (o : Option ℕ) (t : ℕ) → is_time o t ≡ true → o ≡ some t
    is_time_ok none t h = cc
    is_time_ok (some n) t h = ground arith

parse_text :
    (now : ℕ) (k : Bool) (kf : Token Bool String → Option Bool)
    → parse_ann now (text_of k) kf ≡ with_key now k (kf token)
parse_text now true kf = refl
parse_text now false kf = refl

live_key : (now : ℕ) (k : Bool) → 1000 ≤ now → now < 7_201_000 → with_key now k (some k) ≡ ok token
live_key now true h h' = ground arith
live_key now false h h' = ground arith

accepted_ann :
    (m : Bool) (h : List (String × String)) (cl : Claims) (k : Bool) (s : String) (now b i e : ℕ)
    (kf : Token Bool String → Option Bool)
    → sign_ann m cl k ≡ some s
    → m ≡ true
    → lookup "alg" h ≡ none
    → cl.not_before ≡ some b
    → cl.issued_at ≡ some i
    → cl.expires_at ≡ some e
    → b ≤ now
    → i ≤ now
    → now < e
    → ((t : Token Bool String) → t.method ≡ m → kf t ≡ some k)
    → (t : Token Bool String) × (parse_ann now s kf ≡ ok t)
      × (t.valid ≡ true)
      × (t.method ≡ m)
      × (t.claims ≡ cl)
accepted_ann m h cl k s now b i e kf made hmac alg nbf iat exp started issued live key =
    let (method, claims, text) = sign_ann_ok m cl k s made in
    let found : kf token ≡ some k = key token (sym method) in
    (
      token,
      rw text (parse_text now k kf ∙ rw found (live_key now k (ground arith) (ground arith))),
      refl,
      sym method,
      sym claims,
    )

verified_ann :
    (m : Bool) (h : List (String × String)) (cl : Claims) (k : Bool) (s : String) (now : ℕ)
    (kf : Token Bool String → Option Bool) (t : Token Bool String)
    → sign_ann m cl k ≡ some s
    → m ≡ true
    → lookup "alg" h ≡ none
    → parse_ann now s kf ≡ ok t
    → (t.method ≡ m) × (k' : Bool) × (kf t ≡ some k') × (k ≡ k')
verified_ann m h cl k s now kf t made hmac alg read =
    let (method, claims, text) = sign_ann_ok m cl k s made in
    let (same, live, key) =
      with_key_ok now k (kf token) t (sym (parse_text now k kf) ∙ rw (← text) read) in
    (ground arith, k, rw same key, refl)

text_filled : (k : Bool) → ◌≢◌ {A = String} (text_of k) ""
text_filled true e = ground (arith, eq_iff "t1" "")
text_filled false e = ground (arith, eq_iff "t2" "")

-- The two keys are told apart.
abbrev SameKey : Bool → Bool → Type 0
SameKey a b = a ≡ b

jwt-Laws : JwtLaws jwt SameKey
jwt-Laws = record {
  method_refl = λ m. ground arith;
  unexpired = λ now e s kf t h x. ground (arith, parse_ann_ok now s kf t h);
  same_claims = λ now now' s kf kf' t t' h h'.
      ground (arith, parse_ann_ok now s kf t h, parse_ann_ok now' s kf' t' h');
  accepted = accepted_ann;
  verified = verified_ann;
  no_empty = λ m h cl k s made empty. text_filled k (sym (sign_ann_ok m cl k s made).2 ∙ empty);
  rounded = λ t. omega arith;
}

abbrev redis : TokenServer
redis = record {
  Server = String → ℕ → Bool;
  Fault = Unit {0};
  set = λ s now k v ttl. (none, λ j t. if str_eq k j then lasts now ttl t else s j t);
  del = λ s now k. (ok (if s k now then 1 else 0), λ j t. if str_eq k j then false else s j t);
  exists = λ s now k. (ok (if s k now then 1 else 0), s);
  close = λ s. (none, s);
  there = λ s k t. s k t;
}

existed_case :
    (there : Bool) (s s' : String → ℕ → Bool) (n : ℕ) (j : String) (t : ℕ)
    → ◌≡◌ {A = Result (Unit {0}) ℕ × (String → ℕ → Bool)}
        (ok (if there then 1 else 0), s)
        (ok n, s')
    → (ltb 0 n ≡ there) × (s' j t ≡ s j t)
existed_case there s s' n j t h =
    (ground arith, sym (ap (λ (x : Result (Unit {0}) ℕ × (String → ℕ → Bool)). x.1 j t) h))

redis-Laws : TokenServerLaws redis
redis-Laws = record {
  was_set = λ s s' now t k v j ttl h.
      sym (ap (λ (x : Option (Unit {0}) × (String → ℕ → Bool)). x.1 j t) h);
  existed = λ s s' now n t k j h. existed_case (s k now) s s' n j t h;
}

abbrev options : Options jwt
options = default_options jwt true true

abbrev storage : String → ℕ → Bool
storage = λ j t. false

abbrev info : TokenInfo
info = record { token = "t1"; type = "Bearer"; expires_at = 7201 }

abbrev holding : String → ℕ → Bool
holding = λ j t. if str_eq ".t1" j then lasts 3000 (pos 7_198_000) t else false

signed_ann : sign jwt {F = Unit {0}} options 1000 "ann" ≡ ok info
unfolding sign default_options
signed_ann = refl

destroyed_ann :
    destroy jwt (redis_storer redis ".") options 2000 3000 "t1" (some storage)
    ≡ (returned none, some holding)
unfolding destroy default_options set ◌-ℤ◌
destroyed_ann = refl

destroyed-IsRefused_example :
    IsRefused jwt SameKey jwt-Laws
      (redis_storer redis ".")
      (redis_storer-Laws redis redis-Laws ".")
      options
      (parse_claims jwt (redis_storer redis ".") options 4000 4001 "t1" (some holding))
    ⊎ ExpiresBetween jwt SameKey jwt-Laws
        (redis_storer redis ".")
        (redis_storer-Laws redis redis-Laws ".")
        options
        2000
        "t1"
        4000
        4001
destroyed-IsRefused_example =
    destroyed-IsRefused jwt SameKey jwt-Laws (redis_storer redis ".")
      (redis_storer-Laws redis redis-Laws ".") options 2000 3000 4000 4001 "t1" storage holding
      holding destroyed_ann refl

sign-parse_claims_example :
    (parse_claims jwt (redis_storer redis ".") options 4000 4001 "t1" (some storage)).0 ≡ ok ann
unfolding default_options check lookup
sign-parse_claims_example =
    sign-parse_claims jwt SameKey jwt-Laws (redis_storer redis ".") options 1000 4000 4001 "ann"
      info (some storage) signed_ann refl refl (λ t e. rw e refl) (omega arith) (omega arith)
      (storage, refl)

own_key_signed :
    sign jwt {F = Unit {0}} (own_key jwt SameKey jwt-Laws true true false) 1000 "ann"
    ≡ ok (record info { token = "t2" })
unfolding sign default_options new apply_option
own_key_signed = refl

own_token_refused_example :
    (e : JwtError (Unit {0})) × (parse_token jwt {F = Unit {0}}
        (own_key jwt SameKey jwt-Laws true true false)
        4000
        "t2"
      ≡ err e)
own_token_refused_example =
    own_token_refused jwt SameKey jwt-Laws true true false 1000 4000 "ann"
      (record info { token = "t2" }) refl (λ e. cc) own_key_signed
