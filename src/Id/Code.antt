-- ===== src/Id/Code.antt =====
-- Different numbers get different codes: the two loops of `NewCode` can be undone.
use native.Mathlib.Nat.{mod-add-div, mod-lt, mod-eq_of_lt}
use public_pkg.Common.{
  ℕ, zero, suc, ◌+◌, ◌-◌, ◌*◌, ◌/◌, ◌%◌, ◌≤◌, ◌<◌, ◌≡◌, sym, ◌∙◌, ap, ◌⊎◌, inl, inr, arith,
}
use public_pkg.Id.{slot, diffuse, indices}

-- The first `n` digits to the base `c` are the same.
abbrev SameDigits : ℕ → ℕ → ℕ → ℕ → Type 0
SameDigits c zero x y = Unit {0}
SameDigits c (suc n) x y = (x % c ≡ y % c) × SameDigits c n (x / c) (y / c)

le_total : (x y : ℕ) → (x ≤ y) ⊎ (y ≤ x)
le_total x y = omega arith

lt_cases : (x y : ℕ) → (x < y) ⊎ ((y < x) ⊎ (x ≡ y))
lt_cases x y = omega arith

-- The numbers differ by a multiple of `m`.
abbrev pub Apart : ℕ → ℕ → ℕ → Type 0
Apart m x y = ((k : ℕ) × (y ≡ x + m * k)) ⊎ ((k : ℕ) × (x ≡ y + m * k))

apart_step : (c m x y k : ℕ) → x % c ≡ y % c → y / c ≡ x / c + m * k → y ≡ x + c * m * k
apart_step c m x y k e h = grind (arith, mod-add-div x c, mod-add-div y c, ap (λ (t : ℕ). c * t) h)

unfoldable pub power : ℕ → ℕ → ℕ
power c zero = 1
power c (suc n) = c * power c n

SameDigits-Apart : (c n x y : ℕ) → SameDigits c n x y → Apart (power c n) x y
unfolding power
SameDigits-Apart c zero x y h = elim (le_total x y) [
  | inl le ↦ inl (y - x, omega arith)
  | inr le ↦ inr (x - y, omega arith)
]
SameDigits-Apart c (suc n) x y (e, h) = elim (SameDigits-Apart c n (x / c) (y / c) h) [
  | inl (k, q) ↦ inl (k, apart_step c (power c n) x y k e q)
  | inr (k, q) ↦ inr (k, apart_step c (power c n) y x k (sym e) q)
]

gap : (c q q' : ℕ) → q < q' → c * q + c ≤ c * q'
gap c q q' h = grind arith

cancel_mod : (a b t c : ℕ) → a < c → b < c → (a + t) % c ≡ (b + t) % c → a ≡ b
cancel_mod a b t c ha hb e =
    let qa = (a + t) / c in
    let qb = (b + t) / c in
    let da = mod-add-div (a + t) c in
    let db = mod-add-div (b + t) c in
    elim (lt_cases qa qb) [
      | inl less ↦ absurd (omega (arith, gap c qa qb less, da, db))
      | inr (inl more) ↦ absurd (omega (arith, gap c qb qa more, da, db))
      | inr (inr same) ↦ omega (arith, ap (λ (q : ℕ). c * q) same, da, db)
    ]

-- In bytes nothing wraps around, as long as the sum fits.
slot_exact :
    (c first i x : ℕ)
    → c ≤ 255
    → first < c
    → c * suc i ≤ 256
    → slot c first i x ≡ (x % c + i * first) % c
slot_exact c first i x small below room =
    let digit : x % c < c = mod-lt x (omega arith) in
    let times : i * first ≤ i * c = grind arith in
    let sum : x % c + i * first < 256 = omega arith in
    let few : i < 256 = grind arith in
    let digit_byte : x % c % 256 ≡ x % c = mod-eq_of_lt (omega arith) in
    let round_byte : i % 256 ≡ i = mod-eq_of_lt few in
    let times_byte : i * first % 256 ≡ i * first = mod-eq_of_lt (omega arith) in
    let base_byte : c % 256 ≡ c = mod-eq_of_lt (omega arith) in
    rw (digit_byte, round_byte, times_byte, mod-eq_of_lt sum, base_byte)

-- Adding the same multiple of the units digit can be undone: no byte overflows.
slot-injective :
    (c first i x y : ℕ)
    → c ≤ 255
    → first < c
    → c * suc i ≤ 256
    → slot c first i x ≡ slot c first i y
    → x % c ≡ y % c
slot-injective c first i x y small below room e =
    cancel_mod (x % c) (y % c) (i * first) c (mod-lt x (omega arith)) (mod-lt y (omega arith))
      (sym (slot_exact c first i x small below room) ∙ e ∙ slot_exact c first i y small below room)

-- The first loop can be undone up to the digits that it reads.
diffuse-injective :
    (c first l i n x y : ℕ)
    → c ≤ 255
    → first < c
    → c * l ≤ 256
    → i + n ≤ l
    → diffuse c first i n x ≡ diffuse c first i n y
    → SameDigits c n x y
unfolding diffuse
diffuse-injective c first l i zero x y small below room fit e = tt
diffuse-injective c first l i (suc n) x y small below room fit e = (
  slot-injective c first i x y small below (grind arith) (cc),
  diffuse-injective c first l (suc i) n (x / c) (y / c) small below room (omega arith) (cc),
)

units : (c x : ℕ) → 0 < c → c ≤ 255 → slot c 0 0 x < c
units c x pos small = rw (slot_exact c 0 0 x small pos (omega arith)) (mod-lt (x % c + 0 * 0) pos)

same_units :
    (c first first' x y : ℕ)
    → c ≤ 255
    → first < c
    → first' < c
    → slot c first 0 x ≡ slot c first' 0 y
    → slot c 0 0 x ≡ slot c 0 0 y
same_units c first first' x y small below below' e =
    rw
      (
        slot_exact c 0 0 x small (omega arith) (omega arith),
        slot_exact c 0 0 y small (omega arith) (omega arith),
      )
      (zero_times c first x
        ∙ sym (slot_exact c first 0 x small below (omega arith))
        ∙ e
        ∙ slot_exact c first' 0 y small below' (omega arith)
        ∙ sym (zero_times c first' y))
  where
    zero_times : (c f x : ℕ) → (x % c + 0 * 0) % c ≡ (x % c + 0 * f) % c
    zero_times c f x = ap (λ (t : ℕ). (x % c + t) % c) (omega arith)

pub indices-injective :
    (c l x y : ℕ)
    → 0 < c
    → c ≤ 255
    → 0 < l
    → c * l ≤ 256
    → indices c l x ≡ indices c l y
    → Apart (power c l) x y
unfolding indices
indices-injective c zero x y pos small some_l room e = absurd (omega arith)
indices-injective c (suc l) x y pos small some_l room e =
    let same : slot c 0 0 x ≡ slot c 0 0 y =
      same_units c (slot c 0 0 x) (slot c 0 0 y) x y small (units c x pos small)
        (units c y pos small) (cc) in
    SameDigits-Apart c (suc l) x y (
      diffuse-injective c (slot c 0 0 x) (suc l) 0 (suc l) x y small (units c x pos small) room
        (omega arith) (e ∙ ap (λ f. diffuse c f 0 (suc l) y) (sym same)))
