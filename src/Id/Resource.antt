-- ===== src/Id/Resource.antt =====
-- pkg/rid/rid.go: resource identifiers, a prefix and a code. The salt is an argument: rid/salt.go
-- takes it from a hash of the machine's id.
use public_pkg.Common.{
  ℕ, zero, suc, ◌+◌, ◌*◌, ◌%◌, ◌^◌, ◌≤◌, ◌<◌, List, [], ◌∷◌, ◌++◌, Option, none, some, ◌≡◌, refl,
  ap, arith, inl, inr, ltb, if◌then◌else◌, ◌∙◌, ◌≢◌, sym,
}
use public_pkg.Text.{Bytes, codes}
use public_pkg.Id.{
  CodeOptions, CodeOption, with_code_chars, with_code_l, with_code_salt, default_options, new_code,
  encode, enlarge, apply_options, apply_option,
}
use public_pkg.Id.Code.{power}
use public_pkg.Id.Unique.{IsSound, encode-injective, encode-some}

abbrev pub default_charset : Bytes
default_charset = codes "abcdefghijklmnopqrstuvwxyz1234567890"

abbrev pub code_options : ℕ → List CodeOption
code_options salt = with_code_chars default_charset ∷ with_code_l 6 ∷ with_code_salt salt ∷ []

abbrev prefixed : Bytes → Option (List ℕ) → Option Bytes
prefixed rid none = none
prefixed rid (some unique) = some (rid ++ codes "-" ++ unique)

-- `ResourceID.New`
unfoldable pub new : Bytes → ℕ → ℕ → Option Bytes
new rid salt counter = prefixed rid (new_code counter (code_options salt))

-- A salt of 0 is not taken over.
abbrev used_salt : ℕ → ℕ
used_salt salt = if ltb 0 salt then salt else default_options.salt

abbrev resource_options : ℕ → CodeOptions
resource_options salt = record default_options {
  chars = default_charset;
  l = 6;
  salt = used_salt salt;
}

new_code-resource :
    (salt counter : ℕ)
    → new_code counter (code_options salt) ≡ encode (resource_options salt) counter
unfolding new_code
new_code-resource salt counter = unfold apply_options apply_option in ground arith

six_places : (j : ℕ) → j < 6 → (i : ℕ) × (i < 6) × (i % 256 * (5 % 256) % 256 % (6 % 256) ≡ j)
six_places zero h = (0, omega arith, refl)
six_places (suc zero) h = (5, omega arith, refl)
six_places (suc (suc zero)) h = (4, omega arith, refl)
six_places (suc (suc (suc zero))) h = (3, omega arith, refl)
six_places (suc (suc (suc (suc zero)))) h = (2, omega arith, refl)
six_places (suc (suc (suc (suc (suc zero))))) h = (1, omega arith, refl)
six_places (suc (suc (suc (suc (suc (suc j)))))) h = absurd (omega arith)

resource-IsSound : (salt : ℕ) → IsSound (resource_options salt)
resource-IsSound salt = record {
  some_chars = omega arith;
  few_chars = omega arith;
  distinct = omega arith;
  some_length = omega arith;
  short = omega arith;
  room = omega arith;
  reaches = six_places;
}

append-injective : (p x y : Bytes) → p ++ x ≡ p ++ y → x ≡ y
append-injective [] x y e = e
append-injective (c ∷ p) x y e = append-injective p x y (cc)

new-code :
    (rid : Bytes) (salt counter : ℕ)
    → (unique : List ℕ) × (new_code counter (code_options salt) ≡ some unique)
      × (new rid salt counter ≡ some (rid ++ codes "-" ++ unique))
unfolding new
new-code rid salt counter =
    let e =
      new_code-resource salt counter
      ∙ encode-some (resource_options salt) counter (resource-IsSound salt) in
    (_, e, rw e)

unique_code :
    (salt a b : ℕ)
    → used_salt salt + 17 * 36 ^ 6 ≤ 2 ^ 64
    → a < 36 ^ 6
    → b < 36 ^ 6
    → encode (resource_options salt) a ≡ encode (resource_options salt) b
    → a ≡ b
unfolding enlarge power
unique_code salt a b room ha hb e =
    elim (encode-injective (resource_options salt) a b (resource-IsSound salt) e) [
      | inl (k, q) ↦ omega arith
      | inr (k, q) ↦ omega arith
    ]

-- `New` always returns an identifier, and with the same prefix and salt two counters below 36 ^ 6 have
-- the same one only if they are equal, if adding the salt to the enlarged counters does not overflow
-- 64 bits.
pub resource_id_unique :
    (rid : Bytes) (salt a b : ℕ)
    → salt + 17 * 36 ^ 6 ≤ 2 ^ 64
    → a < 36 ^ 6
    → b < 36 ^ 6
    → new rid salt a ≡ new rid salt b
    → (new rid salt a ≢ none) × (a ≡ b)
resource_id_unique rid salt a b room ha hb e =
    let (x, cx, nx) = new-code rid salt a in
    let (y, cy, ny) = new-code rid salt b in
    let same : x ≡ y = append-injective (rid ++ codes "-") x y (cc) in
    (
      (λ n. cc),
      unique_code salt a b (ground arith) ha hb
          (sym (new_code-resource salt a) ∙ cx ∙ ap some same ∙ sym cy ∙ new_code-resource salt b),
    )
