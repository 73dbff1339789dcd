-- ===== src/Log/Gorm/Traces.antt =====
-- Which statements Trace of pkg/log/gorm.go reports.
use public_pkg.Common.{
  ℕ, ◌<◌, ◌≤◌, String, Option, none, some, ◌≡◌, ◌≢◌, refl, ap, ◌⊎◌, ◌↔◌, inl, inr, arith, str_eq,
  eq_iff, Bool-cases,
}
use public_pkg.Log.Gorm.{Done, level_m, slow_threshold, trace, trace_at}

-- What a level's name asks for.
abbrev pub Wanted : {F : Type 0} → String → ℕ → Option F → Type 0
Wanted level elapsed e =
    (level ≡ "info")
    ⊎ ((level ≡ "warn") × ((e ≢ none) ⊎ (slow_threshold < elapsed)))
    ⊎ ((level ≡ "error") × (e ≢ none))

-- The levels by their names.
level_cases :
    (level : String)
    → ((level ≡ "info") × (level_m level ≡ 4))
      ⊎ ((level ≡ "warn") × (level_m level ≡ 3))
      ⊎ ((level ≡ "error") × (level_m level ≡ 2))
      ⊎ ((level_m level ≤ 1) × (level ≢ "info") × (level ≢ "warn") × (level ≢ "error"))
level_cases level = elim (Bool-cases (str_eq level "info")) [
  | inl i ↦ let e = (eq_iff level "info").0 i in inl (e, ap level_m e)
  | inr i ↦ elim (Bool-cases (str_eq level "warn")) [
    | inl w ↦ let e = (eq_iff level "warn").0 w in inr (inl (e, ap level_m e))
    | inr w ↦ elim (Bool-cases (str_eq level "error")) [
      | inl r ↦ let e = (eq_iff level "error").0 r in inr (inr (inl (e, ap level_m e)))
      | inr r ↦ inr (
          inr (
            inr (
              rw (i, w, r) (ground arith),
              ground (arith, eq_iff level "info"),
              ground (arith, eq_iff level "warn"),
              ground (arith, eq_iff level "error"),
            )))
    ]
  ]
]

module _ {F : Type 0} (elapsed : ℕ) where
  at_info : (e : Option F) (d : Done) → trace_at 4 elapsed e d ≢ none
  at_info none d = ground arith
  at_info (some e) d = λ h. cc

  at_warn :
      (e : Option F) (d : Done)
      → (trace_at 3 elapsed e d ≢ none) ↔ ((e ≢ none) ⊎ (slow_threshold < elapsed))
  at_warn none d =
      (λ h. inr (ground arith), λ h. elim h [ inl x ↦ absurd (x refl) | inr x ↦ ground arith ])
  at_warn (some e) d = (λ h. inl (λ n. cc), λ h n. cc)

  at_error : (e : Option F) (d : Done) → (trace_at 2 elapsed e d ≢ none) ↔ (e ≢ none)
  at_error none d = (λ h. absurd (ground arith), λ h. absurd (h refl))
  at_error (some e) d = (λ h n. cc, λ h n. cc)

  at_silent : (m : ℕ) (e : Option F) (d : Done) → m ≤ 1 → trace_at m elapsed e d ≡ none
  at_silent m e d h = ground arith

  -- `Trace` reports a statement at level info always, at warn if it failed or took longer than the
  -- threshold, at error if it failed, and at every other level, such as debug, never.
  pub trace_reports :
      (level : String) (e : Option F) (d : Done)
      → (trace level elapsed e d ≢ none) ↔ Wanted level elapsed e
  unfolding trace
  trace_reports level e d = elim (level_cases level) [
    | inl (i, m) ↦ (λ h. inl i, λ h. rw m (at_info e d))
    | inr (inl (i, m)) ↦ (
      λ h. inr (inl (i, (at_warn e d).0 (rw m at h))),
      λ h. rw m (
          (at_warn e d).1 (elim h [
            | inl x ↦ let other : level_m level ≡ 4 = ap level_m x in absurd (omega arith)
            | inr (inl (x, y)) ↦ y
            | inr (inr (x, y)) ↦
                let other : level_m level ≡ 2 = ap level_m x in absurd (omega arith)
          ])),
    )
    | inr (inr (inl (i, m))) ↦ (
      λ h. inr (inr (i, (at_error e d).0 (rw m at h))),
      λ h. rw m (
          (at_error e d).1 (elim h [
            | inl x ↦ let other : level_m level ≡ 4 = ap level_m x in absurd (omega arith)
            | inr (inl (x, y)) ↦
                let other : level_m level ≡ 3 = ap level_m x in absurd (omega arith)
            | inr (inr (x, y)) ↦ y
          ])),
    )
    | inr (inr (inr (m, i, w, r))) ↦ (
      λ h. absurd (h (at_silent (level_m level) e d m)),
      λ h. elim h [
        | inl x ↦ absurd (i x)
        | inr (inl (x, y)) ↦ absurd (w x)
        | inr (inr (x, y)) ↦ absurd (r x)
      ],
    )
  ]
