-- ===== src/Id/Sonyflake/Examples.antt =====
-- A generator that can draw some more numbers before its time is over.
use public_pkg.Common.{ℕ, zero, suc, [], Option, none, some, ◌≡◌, refl, ◌⊎◌, false}
use public_pkg.Id.Sonyflake.{Flake, Sonyflake, SonyflakeError, id}
use public_pkg.Id.Sonyflake.Ends.{IsPermanent, id_ends}

abbrev draw : ℕ → Option ℕ × ℕ
draw zero = (none, zero)
draw (suc n) = (some 7, n)

abbrev countdown : Flake
countdown = record {
  Time = ℕ;
  Gen = ℕ;
  first_time = 0;
  is_zero = λ t. false;
  make = λ m t. some 3;
  next_id = draw;
}

countdown-IsPermanent : IsPermanent countdown
countdown-IsPermanent zero h = refl
countdown-IsPermanent (suc n) h = cc

abbrev started : Sonyflake countdown
started = record { ops = record { machine_id = 1; start_time = 0 }; sf = 0; error = none }

id_ends_example :
    ((e : SonyflakeError) × (started.error ≡ some e)
      × ((fuel : ℕ) → id countdown fuel started ≡ some (0, 0, [])))
    ⊎ ((drawn : ℕ) × (started.error ≡ none)
        × ((draw 0).0 ≡ some drawn)
        × ((fuel : ℕ) → id countdown fuel started ≡ some (drawn, 0, [])))
    ⊎ ((started.error ≡ none)
        × ((draw 0).0 ≡ none)
        × ((fuel : ℕ) → id countdown fuel started ≡ none))
id_ends_example = id_ends countdown countdown-IsPermanent started
