-- ===== src/Authn/Storage.antt =====
-- pkg/authn/jwt/store.go: what the token storage promises to the instance that uses it.
use public_pkg.Common.{
  ℕ, zero, suc, ◌+◌, Bool, true, String, none, ok, ◌≡◌, ltb, if◌then◌else◌, str_eq,
}
use public_pkg.Common.Int.{ℤ, pos, negsuc}
use public_pkg.Authn.{Storer}

-- What is set at `now` with a duration is there at `t`; without a positive one it stays.
abbrev pub lasts : ℕ → ℤ → ℕ → Bool
lasts now (pos zero) t = true
lasts now (pos (suc n)) t = ltb t (now + suc n)
lasts now (negsuc n) t = true

-- What a client of the storage relies on: `listed` says whether a token is in it at a time.
pub record StorerLaws (st : Storer) : Type 0 where
  pub listed : st.State → String → ℕ → Bool
  pub was_set :
      (s s' : st.State) (now t : ℕ) (token j : String) (ttl : ℤ)
      → st.set s now token ttl ≡ (none, s')
      → listed s' j t ≡ (if str_eq token j then lasts now ttl t else listed s j t)
  pub was_checked :
      (s s' : st.State) (now t : ℕ) (token j : String) (b : Bool)
      → st.check s now token ≡ (ok b, s')
      → (b ≡ listed s token now) × (listed s' j t ≡ listed s j t)
