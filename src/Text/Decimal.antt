-- ===== src/Text/Decimal.antt =====
-- `strconv.ParseUint(s, 10, 0)` where a uint has 64 bits, and the verb `%d` on a uint.
use public_pkg.Common.{
  ℕ, zero, suc, ◌+◌, ◌-◌, ◌*◌, ◌/◌, ◌%◌, ◌^◌, ◌<◌, ◌≤◌, true, false, [], ◌∷◌, Option, none, some,
  ◌≡◌, ◌≢◌, refl, ◌∙◌, not, ltb, ◌&&◌, if◌then◌else◌, arith, All,
}
use public_pkg.Text.{Bytes, bytes_eq, is_digit, has_zero_prefix, codes}

abbrev pub max_uint : ℕ
max_uint = 2 ^ 64 - 1

-- The digits read so far stand for `n`; `none` is any error.
read_digits : Bytes → ℕ → Option ℕ
read_digits [] n = some n
read_digits (c ∷ s) n =
    let m = n * 10 + (c - b'0') in
    if is_digit c then (if ltb max_uint m then none else read_digits s m) else none

unfoldable pub parse_uint : Bytes → Option ℕ
unfolding read_digits
parse_uint [] = none
parse_uint (c ∷ s) = read_digits (c ∷ s) 0

-- The digits of `n` before `out`, with fuel; `n + 1` rounds are enough.
write_digits : ℕ → ℕ → Bytes → Bytes
write_digits zero n out = out
write_digits (suc f) n out =
    let rest = write_digits f (n / 10) ((b'0' + n % 10) ∷ out) in
    if ltb n 10 then (b'0' + n) ∷ out else rest

unfoldable pub format_uint : ℕ → Bytes
unfolding write_digits
format_uint n = write_digits (suc n) n []

hundred : format_uint 1203 ≡ codes "1203"
unfolding format_uint
hundred = refl

write_read :
    (f n : ℕ) (out : Bytes)
    → n < f
    → n ≤ max_uint
    → read_digits (write_digits f n out) 0 ≡ read_digits out n
unfolding write_digits read_digits
write_read zero n out h fits = absurd (omega arith)
write_read (suc f) n out h fits = ground (arith, write_read f (n / 10) ((b'0' + n % 10) ∷ out))

write-ne-nil : (f n : ℕ) (out : Bytes) → n < f → write_digits f n out ≢ []
unfolding write_digits
write-ne-nil zero n out h = absurd (omega arith)
write-ne-nil (suc zero) n out h = ground arith
write-ne-nil (suc (suc f)) n out h =
    ground (arith, write-ne-nil (suc f) (n / 10) ((b'0' + n % 10) ∷ out))

parse-read : (s : Bytes) → s ≢ [] → parse_uint s ≡ read_digits s 0
unfolding parse_uint
parse-read [] h = absurd (h refl)
parse-read (c ∷ s) h = refl

-- What `%d` prints is read back, and nothing wrapped around.
pub parse_uint-format_uint : (n : ℕ) → n ≤ max_uint → parse_uint (format_uint n) ≡ some n
unfolding format_uint read_digits
parse_uint-format_uint n fits =
    parse-read (write_digits (suc n) n []) (write-ne-nil (suc n) n [] (omega arith))
    ∙ write_read (suc n) n [] (omega arith) fits

abbrev pub IsDigit : ℕ → Type 0
IsDigit c = is_digit c ≡ true

write-digits : (f n : ℕ) (out : Bytes) → All IsDigit out → All IsDigit (write_digits f n out)
unfolding write_digits
write-digits zero n out h = h
write-digits (suc f) n out h = ground (arith, write-digits f (n / 10) ((b'0' + n % 10) ∷ out))

-- A print is digits only.
pub format_uint-digits : (n : ℕ) → All IsDigit (format_uint n)
unfolding format_uint
format_uint-digits n = write-digits (suc n) n [] tt

write_no_zero :
    (f n : ℕ) (out : Bytes) → n < f → 0 < n → has_zero_prefix (write_digits f n out) ≡ false
unfolding write_digits
write_no_zero zero n out h p = absurd (omega arith)
write_no_zero (suc f) n out h p = ground (arith, write_no_zero f (n / 10) ((b'0' + n % 10) ∷ out))

pub format_uint-ne-nil : (n : ℕ) → format_uint n ≢ []
unfolding format_uint
format_uint-ne-nil n = write-ne-nil (suc n) n [] (omega arith)

-- Only zero is printed with a zero in front, and that as one digit.
pub format_uint_no_zero_prefix :
    (n : ℕ)
    → (has_zero_prefix (format_uint n) && not (bytes_eq (format_uint n) (codes "0"))) ≡ false
unfolding format_uint write_digits
format_uint_no_zero_prefix zero = refl
format_uint_no_zero_prefix (suc n) =
    rw (write_no_zero (suc (suc n)) (suc n) [] (omega arith) (omega arith))

read_digits-le : (s : Bytes) (n m : ℕ) → n ≤ max_uint → read_digits s n ≡ some m → m ≤ max_uint
unfolding read_digits
read_digits-le [] n m h e = ground arith
read_digits-le (c ∷ s) n m h e = ground (arith, read_digits-le s (n * 10 + (c - b'0')) m)

-- What is read fits a uint.
pub parse_uint-le : (s : Bytes) (m : ℕ) → parse_uint s ≡ some m → m ≤ max_uint
unfolding parse_uint
parse_uint-le [] m e = cc
parse_uint-le (c ∷ s) m e = read_digits-le (c ∷ s) 0 m (omega arith) e
