-- ===== src/Authz.antt =====
-- pkg/authz/authz.go: the authorizer and its options. casbin and its adapter for gorm are the parameter `Casbin`.
use public_pkg.Common.{ℕ, ◌*◌, Bool, String, List, [], ◌∷◌, Option, Result, ok, err, ◌≡◌, refl}

-- `defaultAclModel`, by its lines.
abbrev default_acl_model : List String
default_acl_model =
    "[request_definition]" ∷ "r = sub, obj, act" ∷ "" ∷ "[policy_definition]"
    ∷ "p = sub, obj, act, eft" ∷ "" ∷ "[role_definition]" ∷ "g = _, _" ∷ "" ∷ "[policy_effect]"
    ∷ "e = !some(where (p.eft == deny))" ∷ "" ∷ "[matchers]"
    ∷ "m = g(r.sub, p.sub) && keyMatch(r.obj, p.obj) && r.act == p.act" ∷ []

-- `authzConfig`; an interval is a number of nanoseconds.
record AuthzConfig : Type 0 where
  acl_model : List String
  auto_load_policy_time : ℕ

abbrev AuthzOption : Type 0
AuthzOption = AuthzConfig → AuthzConfig

abbrev default_authz_config : AuthzConfig
default_authz_config = record {
  acl_model = default_acl_model;
  auto_load_policy_time = 5 * 1_000_000_000;
}

abbrev with_acl_model : List String → AuthzOption
with_acl_model model cfg = record cfg { acl_model = model }

abbrev with_auto_load_policy_time : ℕ → AuthzOption
with_auto_load_policy_time interval cfg = record cfg { auto_load_policy_time = interval }

abbrev default_options : List AuthzOption
default_options =
    with_acl_model default_acl_model ∷ with_auto_load_policy_time (10 * 1_000_000_000) ∷ []

abbrev apply_all : List AuthzOption → AuthzConfig → AuthzConfig
apply_all [] cfg = cfg
apply_all (opt ∷ opts) cfg = apply_all opts (opt cfg)

-- `model` is `NewModelFromString`, nil where it has an error; what fails returns its error.
record Casbin : Type 1 where
  Fault : Type 0
  Db : Type 0
  Adapter : Type 0
  Model : Type 0
  Enforcer : Type 0
  new_adapter : Db → Result Fault Adapter
  model : List String → Option Model
  new_enforcer : Option Model → Adapter → Result Fault Enforcer
  load_policy : Enforcer → Result Fault Enforcer
  start_auto_load : Enforcer → ℕ → Enforcer
  enforce : Enforcer → String → String → String → Result Fault Bool

module _ (c : Casbin) where
  open c use {Fault, Db, Enforcer}

  infixl 5 ◌>>=◌
  abbrev ◌>>=◌ : {A B : Type 0} → Result Fault A → (A → Result Fault B) → Result Fault B
  ok a >>= f = f a
  err e >>= f = err e

  -- `NewAuthz`: the policies are loaded before the timer that loads them again is started.
  unfoldable new_authz : Db → List AuthzOption → Result Fault Enforcer
  new_authz db opts = do
    adapter ← c.new_adapter db
    enforcer ← c.new_enforcer (c.model (apply_all opts default_authz_config).acl_model) adapter
    loaded ← c.load_policy enforcer
    ok (c.start_auto_load loaded (apply_all opts default_authz_config).auto_load_policy_time)

  -- `Authorize`
  unfoldable authorize : Enforcer → String → String → String → Result Fault Bool
  authorize a sub obj act = c.enforce a sub obj act

  -- The default options replace the interval of the default configuration: policies are loaded every ten seconds.
  default_interval :
      (apply_all default_options default_authz_config).auto_load_policy_time ≡ 10_000_000_000
  default_interval = refl
