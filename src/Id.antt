-- ===== src/Id.antt =====
-- pkg/id and pkg/rid: short codes from numbers.
-- id/options.go and id/code.go. A rune is a number; an int option is its 64-bit pattern.
pub mod Code
pub mod Places
pub mod Unique
pub mod Resource
pub mod Sonyflake
mod Examples
use public_pkg.Common.{
  ℕ, zero, suc, ◌+◌, ◌*◌, ◌/◌, ◌%◌, ◌^◌, Bool, true, false, List, [], ◌∷◌, Option, none, some, ◌==◌,
  ltb, ◌&&◌, ◌||◌, if◌then◌else◌, length, get_or, String,
}
use public_pkg.Text.{codes}

pub record CodeOptions : Type 0 where
  pub chars : List ℕ
  pub n1 : ℕ
  pub n2 : ℕ
  pub l : ℕ
  pub salt : ℕ

-- The functions that change the options.
pub data CodeOption : Type 0 where
  with_code_chars : List ℕ → CodeOption
  with_code_n1 with_code_n2 with_code_l with_code_salt : ℕ → CodeOption

-- `getCodeOptionsOrSetDefault(nil)`
abbrev pub default_options : CodeOptions
default_options = record {
  chars = codes "23456789ABCDEFGHJKLMNPQRSTVWXY";
  n1 = 17;
  n2 = 5;
  l = 8;
  salt = 123567369;
}

-- An int above 0: the sign bit is clear.
abbrev pub is_positive : ℕ → Bool
is_positive n = ltb 0 n && ltb n (2 ^ 63)

unfoldable pub apply_option : CodeOption → CodeOptions → CodeOptions
apply_option (with_code_chars arr) o = if ltb 0 (length arr) then record o { chars = arr } else o
apply_option (with_code_n1 n) o = record o { n1 = n }
apply_option (with_code_n2 n) o = record o { n2 = n }
apply_option (with_code_l l) o = if is_positive l then record o { l = l } else o
apply_option (with_code_salt salt) o = if ltb 0 salt then record o { salt = salt } else o

unfoldable pub apply_options : List CodeOption → CodeOptions → CodeOptions
apply_options [] o = o
apply_options (f ∷ fs) o = apply_options fs (apply_option f o)

-- `id*uint64(ops.n1) + ops.salt`
unfoldable pub enlarge : CodeOptions → ℕ → ℕ
enlarge o id = (id * o.n1 + o.salt) % 2 ^ 64

-- A byte of `slIdx`: the digit of `id`, and the units digit `first` i times, in bytes.
abbrev pub slot : ℕ → ℕ → ℕ → ℕ → ℕ
slot c first i id = (id % c % 256 + i % 256 * first % 256) % 256 % (c % 256)

-- The rounds of the first loop from `i` on, with `c` characters.
unfoldable pub diffuse : ℕ → ℕ → ℕ → ℕ → ℕ → List ℕ
diffuse c first i zero id = []
diffuse c first i (suc n) id = slot c first i id ∷ diffuse c first (suc i) n (id / c)

-- In round 0 the units digit is added zero times.
unfoldable pub indices : ℕ → ℕ → ℕ → List ℕ
unfolding diffuse
indices c l id = diffuse c (slot c 0 0 id) 0 l id

-- `(byte(i) * byte(ops.n2)) % byte(ops.l)`
abbrev pub place : CodeOptions → ℕ → ℕ
place o i = i % 256 * (o.n2 % 256) % 256 % (o.l % 256)

-- The rounds of the second loop. Neither index is out of range: a place is below `l`, and an element
-- of `slIdx` is below the number of characters.
unfoldable pub confuse : CodeOptions → List ℕ → ℕ → ℕ → List ℕ
confuse o sl i zero = []
confuse o sl i (suc n) = get_or o.chars (get_or sl (place o i) 0) 0 ∷ confuse o sl (suc i) n

-- `NewCode` under options that are applied already; `none` is the panic of a division by a byte that
-- is 0.
unfoldable pub encode : CodeOptions → ℕ → Option (List ℕ)
unfolding enlarge indices confuse
encode o id =
    if length o.chars % 256 == 0 || o.l % 256 == 0
    then none
    else some (confuse o (indices (length o.chars) o.l (enlarge o id)) 0 o.l)

-- `NewCode`
unfoldable pub new_code : ℕ → List CodeOption → Option (List ℕ)
unfolding apply_options apply_option
new_code id options = encode (apply_options options default_options) id
