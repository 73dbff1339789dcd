-- ===== src/Text/Order.antt =====
-- The order of Go strings, `s < t`: by the first byte that differs, a prefix first.
use public_pkg.Common.{
  Bool, true, false, [], ◌∷◌, ◌≡◌, refl, ◌==◌, ltb, if◌then◌else◌, arith, Bool-cases, inl, inr,
}
use public_pkg.Text.{Bytes, bytes_eq}

unfoldable pub bytes_lt : Bytes → Bytes → Bool
bytes_lt s [] = false
bytes_lt [] (d ∷ t) = true
bytes_lt (c ∷ s) (d ∷ t) =
    let rest = bytes_lt s t in if ltb c d then true else if c == d then rest else false

-- At most one of two texts is before the other.
pub bytes_lt_asym : (s t : Bytes) → bytes_lt s t ≡ true → bytes_lt t s ≡ false
unfolding bytes_lt
bytes_lt_asym [] [] h = cc
bytes_lt_asym (c ∷ s) [] h = cc
bytes_lt_asym [] (d ∷ t) h = refl
bytes_lt_asym (c ∷ s) (d ∷ t) h = ground (arith, bytes_lt_asym s t)

pub bytes_lt_irrefl : (s : Bytes) → bytes_lt s s ≡ false
unfolding bytes_lt
bytes_lt_irrefl [] = refl
bytes_lt_irrefl (c ∷ s) = ground (arith, bytes_lt_irrefl s)

-- Two texts of which neither is before the other are equal.
pub bytes_lt_total : (s t : Bytes) → bytes_lt s t ≡ false → bytes_lt t s ≡ false → s ≡ t
unfolding bytes_lt
bytes_lt_total [] [] h k = refl
bytes_lt_total (c ∷ s) [] h k = cc
bytes_lt_total [] (d ∷ t) h k = cc
bytes_lt_total (c ∷ s) (d ∷ t) h k = ground (arith, bytes_lt_total s t)

pub bytes_eq_sym : (s t : Bytes) → bytes_eq s t ≡ bytes_eq t s
bytes_eq_sym [] [] = refl
bytes_eq_sym (c ∷ s) [] = refl
bytes_eq_sym [] (d ∷ t) = refl
bytes_eq_sym (c ∷ s) (d ∷ t) = ground (arith, bytes_eq_sym s t)

pub bytes_eq_sound : (s t : Bytes) → bytes_eq s t ≡ true → s ≡ t
bytes_eq_sound [] [] h = refl
bytes_eq_sound (c ∷ s) [] h = cc
bytes_eq_sound [] (d ∷ t) h = cc
bytes_eq_sound (c ∷ s) (d ∷ t) h = ground (arith, bytes_eq_sound s t)

pub bytes_lt-ne : (s t : Bytes) → bytes_lt s t ≡ true → bytes_eq s t ≡ false
bytes_lt-ne s t h = elim (Bool-cases (bytes_eq s t)) [
  | inl e ↦ cc (bytes_eq_sound s t e, bytes_lt_irrefl t)
  | inr e ↦ e
]
