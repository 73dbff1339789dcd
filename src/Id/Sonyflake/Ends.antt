-- ===== src/Id/Sonyflake/Ends.antt =====
-- When Id of pkg/id/sonyflake.go returns.
use public_pkg.Common.{
  ℕ, zero, suc, ◌*◌, ◌%◌, ◌^◌, [], none, some, ◌≡◌, refl, ◌⊎◌, inl, inr, Option-cases,
}
use public_pkg.Id.Sonyflake.{Flake, Sonyflake, SonyflakeError, retry, id}

module _ (k : Flake) where
  open k use {Gen, next_id}

  -- What sonyflake documents of an error of `NextID`: the time is over the limit, and so it stays.
  abbrev pub IsPermanent : Type 0
  IsPermanent = (sf : Gen) → (next_id sf).0 ≡ none → (next_id (next_id sf).1).0 ≡ none

  retry_fails :
      (permanent : IsPermanent) (fuel sleep : ℕ) (sf : Gen)
      → (next_id sf).0 ≡ none
      → retry k fuel sleep sf ≡ none
  unfolding retry
  retry_fails permanent zero sleep sf h = refl
  retry_fails permanent (suc fuel) sleep sf h =
      rw (retry, h, retry_fails permanent fuel (sleep * 2 % 2 ^ 64) (next_id sf).1 (permanent sf h))
        refl

  -- How `Id` ends: an instance with an error gives 0 at once; one that can draw a number gives that number, without
  -- a sleep; and one that cannot draw its number never returns, whatever fuel its loop has.
  pub id_ends :
      (permanent : IsPermanent) (s : Sonyflake k)
      → ((e : SonyflakeError) × (s.error ≡ some e)
          × ((fuel : ℕ) → id k fuel s ≡ some (0, s.sf, [])))
        ⊎ ((drawn : ℕ) × (s.error ≡ none)
            × ((next_id s.sf).0 ≡ some drawn)
            × ((fuel : ℕ) → id k fuel s ≡ some (drawn, (next_id s.sf).1, [])))
        ⊎ ((s.error ≡ none) × ((next_id s.sf).0 ≡ none) × ((fuel : ℕ) → id k fuel s ≡ none))
  unfolding id
  id_ends permanent s = elim (Option-cases s.error) [
    | inr (e, failed) ↦ inl (e, failed, λ fuel. rw (id, failed) refl)
    | inl fine ↦ elim (Option-cases (next_id s.sf).0) [
      | inr (drawn, h) ↦ inr (inl (drawn, fine, h, λ fuel. rw (id, fine, h) refl))
      | inl h ↦ inr (
          inr (
            fine,
            h,
            λ fuel.
                rw (id, fine, h) (retry_fails permanent fuel 1 (next_id s.sf).1 (permanent s.sf h)),
          ))
    ]
  ]
