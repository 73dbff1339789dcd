-- ===== src/Id/Unique.antt =====
-- What keeps two codes apart.
use public_pkg.Common.{
  ℕ, zero, suc, ◌*◌, ◌%◌, ◌^◌, ◌≤◌, ◌<◌, [], some, ◌≡◌, refl, arith, length, inl, inr,
}
use public_pkg.Id.{CodeOptions, default_options, indices, confuse, enlarge, encode, new_code}
use public_pkg.Id.Code.{Apart, power, indices-injective}
use public_pkg.Id.Places.{IsDistinct, Reaches, confuse-injective}

-- One to 255 characters that differ, a length of 1 to 255, no overflow of a byte in the first loop, and
-- places that reach every index in the second.
pub record IsSound (o : CodeOptions) : Type 0 where
  pub some_chars : 0 < length o.chars
  pub few_chars : length o.chars ≤ 255
  pub distinct : IsDistinct o.chars
  pub some_length : 0 < o.l
  pub short : o.l ≤ 255
  pub room : length o.chars * o.l ≤ 256
  pub reaches : Reaches o

pub encode-some :
    (o : CodeOptions) (a : ℕ)
    → IsSound o
    → encode o a ≡ some (confuse o (indices (length o.chars) o.l (enlarge o a)) 0 o.l)
unfolding encode
encode-some o a v = ground arith

-- Under such options two ids with the same code were enlarged to numbers that differ by a multiple of
-- the number of codes.
pub encode-injective :
    (o : CodeOptions) (a b : ℕ)
    → IsSound o
    → encode o a ≡ encode o b
    → Apart (power (length o.chars) o.l) (enlarge o a) (enlarge o b)
encode-injective o a b v e =
    indices-injective (length o.chars) o.l (enlarge o a) (enlarge o b) v.some_chars v.few_chars
      v.some_length v.room
      (confuse-injective o (enlarge o a) (enlarge o b) v.some_chars v.few_chars v.distinct v.reaches
        (cc (encode-some o a v, encode-some o b v)))

-- The places of eight rounds with the step 5.
eight_places : (j : ℕ) → j < 8 → (i : ℕ) × (i < 8) × (i % 256 * (5 % 256) % 256 % (8 % 256) ≡ j)
eight_places zero h = (0, omega arith, refl)
eight_places (suc zero) h = (5, omega arith, refl)
eight_places (suc (suc zero)) h = (2, omega arith, refl)
eight_places (suc (suc (suc zero))) h = (7, omega arith, refl)
eight_places (suc (suc (suc (suc zero)))) h = (4, omega arith, refl)
eight_places (suc (suc (suc (suc (suc zero))))) h = (1, omega arith, refl)
eight_places (suc (suc (suc (suc (suc (suc zero)))))) h = (6, omega arith, refl)
eight_places (suc (suc (suc (suc (suc (suc (suc zero))))))) h = (3, omega arith, refl)
eight_places (suc (suc (suc (suc (suc (suc (suc (suc j)))))))) h = absurd (omega arith)

pub default-IsSound : IsSound default_options
default-IsSound = record {
  some_chars = omega arith;
  few_chars = omega arith;
  distinct = omega arith;
  some_length = omega arith;
  short = omega arith;
  room = omega arith;
  reaches = eight_places;
}

-- With the default options no two ids below 30 ^ 8 have the same code.
pub new_code_unique : (a b : ℕ) → a < 30 ^ 8 → b < 30 ^ 8 → new_code a [] ≡ new_code b [] → a ≡ b
unfolding new_code
new_code_unique a b ha hb e = elim (encode-injective default_options a b default-IsSound e) [
  | inl (k, q) ↦ unfold enlarge power in omega arith
  | inr (k, q) ↦ unfold enlarge power in omega arith
]
