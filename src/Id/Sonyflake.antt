-- ===== src/Id/Sonyflake.antt =====
-- pkg/id/sonyflake.go and its options in pkg/id/options.go. The generator of the package sonyflake and the package
-- time are the parameter `Flake`.
pub mod Ends
mod Examples
use public_pkg.Common.{
  ℕ, zero, suc, ◌*◌, ◌%◌, ◌^◌, Bool, true, false, List, [], ◌∷◌, Option, none, some, ltb,
  if◌then◌else◌,
}
use public_pkg.Common.Int.{ℤ, pos, int64}

-- `make` is `sonyflake.NewSonyflake`, which may fail; without a machine's number it finds one itself.
pub record Flake : Type 1 where
  pub Time : Type 0
  pub Gen : Type 0
  pub first_time : Time
  pub is_zero : Time → Bool
  pub make : Option ℕ → Time → Option Gen
  pub next_id : Gen → Option ℕ × Gen

-- `SonyflakeOptions`; the number of the machine is a uint16.
pub record SonyflakeOptions (k : Flake) : Type 0 where
  pub machine_id : ℕ
  pub start_time : k.Time

pub data SonyflakeError : Type 0 where
  invalid_start_time : SonyflakeError

-- `Sonyflake`
pub record Sonyflake (k : Flake) : Type 0 where
  pub ops : SonyflakeOptions k
  pub sf : k.Gen
  pub error : Option SonyflakeError

module _ (k : Flake) where
  open k use {Time, Gen, next_id}

  -- `getSonyflakeOptionsOrSetDefault`
  abbrev or_default : Option (SonyflakeOptions k) → SonyflakeOptions k
  or_default none = record { machine_id = 1; start_time = k.first_time }
  or_default (some options) = options

  unfoldable with_machine_id : ℕ → SonyflakeOptions k → SonyflakeOptions k
  with_machine_id id options = if ltb 0 id then record options { machine_id = id } else options

  unfoldable with_start_time : Time → SonyflakeOptions k → SonyflakeOptions k
  with_start_time start options =
      if k.is_zero start then options else record options { start_time = start }

  abbrev apply_all :
      List (SonyflakeOptions k → SonyflakeOptions k) → SonyflakeOptions k → SonyflakeOptions k
  apply_all [] ops = ops
  apply_all (f ∷ options) ops = apply_all options (f ops)

  -- The generator after its first number was drawn.
  abbrev tried : SonyflakeOptions k → Option ℕ × Gen → Sonyflake k
  tried ops (none, sf) = record { ops = ops; sf = sf; error = some invalid_start_time }
  tried ops (some first, sf) = record { ops = ops; sf = sf; error = none }

  -- `NewSonyflake`. Where the generator is not made, its first number is drawn all the same, from a nil
  -- pointer: a panic, `none`.
  unfoldable pub new_sonyflake :
      List (SonyflakeOptions k → SonyflakeOptions k) → Option (Sonyflake k)
  new_sonyflake options =
      let ops = apply_all options (or_default none) in
      let machine = if ltb 0 ops.machine_id then some ops.machine_id else none in
      elim (k.make machine ops.start_time) [
        | none ↦ none
        | some ins ↦ some (tried ops (next_id ins))
      ]

  -- What `Sleep` is given for some milliseconds, an int of 64 bits: nanoseconds, which may wrap around.
  abbrev pub duration : ℕ → ℤ
  duration sleep = int64 (pos (sleep * 1000000))

  abbrev pub slept_before : ℤ → Option (ℕ × Gen × List ℤ) → Option (ℕ × Gen × List ℤ)
  slept_before wait none = none
  slept_before wait (some (id, sf, waits)) = some (id, sf, wait ∷ waits)

  -- The loop of `Id` on fuel: the number, the generator and the durations that were slept.
  unfoldable pub retry : ℕ → ℕ → Gen → Option (ℕ × Gen × List ℤ)
  unfolding int64
  retry zero sleep sf = none
  retry (suc fuel) sleep sf =
      let (drawn, sf) = next_id sf in
      elim drawn [
        | some n ↦ some (n, sf, duration sleep ∷ [])
        | none ↦ slept_before (duration sleep) (retry fuel (sleep * 2 % 2 ^ 64) sf)
      ]

  -- `Id`
  unfoldable pub id : ℕ → Sonyflake k → Option (ℕ × Gen × List ℤ)
  unfolding retry
  id fuel s = elim s.error [
    | some e ↦ some (0, s.sf, [])
    | none ↦
        let (drawn, sf) = next_id s.sf in
        elim drawn [ some n ↦ some (n, sf, []) | none ↦ retry fuel 1 sf ]
  ]
