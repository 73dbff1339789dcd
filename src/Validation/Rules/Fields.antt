-- ===== src/Validation/Rules/Fields.antt =====
-- Which fields ValidateAllFields accepts.
use public_pkg.Common.{
  Bool, true, arith, String, List, [], ◌∷◌, ◌++◌, Option, none, some, ◌≡◌, refl, sym, ap, subst,
  ◌⊎◌, inl, inr, All, lookup, Bool-cases, Option-cases, if◌then◌else◌,
}
use public_pkg.Validation.Rules.{
  Field, Rules, Content, check_content, nil_pointer, pointer_to, value, apply_rule, Validated,
  valid, invalid, struct, pointer_to_struct, field_error, check_selected, exported_names,
  validate_all_fields,
}

module _ {V E : Type 0} (rules : Rules V E) where
  -- What the rules say of a field.
  abbrev pub verdict : String × Field V → Option E
  verdict x = field_error rules x.0 (some x.1)

  -- All fields are accepted and there is no error, or the first one that is not gives the error.
  abbrev Outcome : List (String × Field V) → Validated E → Type 0
  Outcome fields result =
      ((result ≡ valid) × All (λ x. verdict x ≡ none) fields)
      ⊎ ((before : List (String × Field V)) × (x : String × Field V) × (after : List
            (String × Field V))
          × (e : E) × (fields ≡ before ++ x ∷ after)
          × All (λ y. verdict y ≡ none) before
          × (verdict x ≡ some e)
          × (result ≡ invalid e))

  accepted :
      (x : String × Field V) (fields : List (String × Field V)) (result : Validated E)
      → verdict x ≡ none
      → Outcome fields result
      → Outcome (x ∷ fields) result
  accepted x fields result h (inl (fine, rest)) = inl (fine, (h, rest))
  accepted x fields result h (inr (before, y, after, e, split, ok, bad, is)) =
      inr (
        x ∷ before,
        y,
        after,
        e,
        ap (λ (l : List (String × Field V)). x ∷ l) split,
        (h, ok),
        bad,
        is,
      )

  skip :
      (all : List (String × Field V)) (x : String × Field V) (fields : List String)
      → lookup x.0 all ≡ some x.1
      → verdict x ≡ none
      → check_selected rules all (x.0 ∷ fields) ≡ check_selected rules all fields
  unfolding check_selected
  skip all x fields there fine = rw (check_selected, there, fine) refl

  stop :
      (all : List (String × Field V)) (x : String × Field V) (fields : List String) (e : E)
      → lookup x.0 all ≡ some x.1
      → verdict x ≡ some e
      → check_selected rules all (x.0 ∷ fields) ≡ invalid e
  unfolding check_selected
  stop all x fields e there bad = rw (check_selected, there, bad) refl

  names_of :
      {b : Bool} (name : String) (f : Field V) (fields : List (String × Field V))
      → f.is_exported ≡ b
      → exported_names ((name, f) ∷ fields)
        ≡ (if b then name ∷ exported_names fields else exported_names fields)
  unfolding exported_names
  names_of name f fields h = rw h refl

  judged :
      (all fields : List (String × Field V))
      → All (λ x. lookup x.0 all ≡ some x.1) fields
      → Outcome fields (check_selected rules all (exported_names fields))
  unfolding check_selected exported_names
  judged all [] h = inl (refl, tt)
  judged all ((name, f) ∷ fields) (there, h) =
      let rest = exported_names fields in
      let is_judged =
        λ (names : List String). Outcome ((name, f) ∷ fields) (check_selected rules all names) in
      elim (Bool-cases f.is_exported) [
        | inr hidden ↦
            subst is_judged (sym (names_of name f fields hidden))
              (accepted (name, f) fields _ (rw hidden refl) (judged all fields h))
        | inl exported ↦
            subst is_judged (sym (names_of name f fields exported))
              (elim (Option-cases (verdict (name, f))) [
                | inl fine ↦
                    accepted (name, f) fields _ fine
                      (subst (Outcome fields) (sym (skip all (name, f) rest there fine))
                        (judged all fields h))
                | inr (e, bad) ↦
                    inr
                      ([], (name, f), fields, e, refl, tt, bad, stop all (name, f) rest e there bad)
              ])
      ]

  -- What the content of a field with the name breaks a rule with.
  abbrev pub Offends : String → Content V → E → Type 0
  Offends name c e =
      (v : V) × (rule : V → Option E) × ((c ≡ value v) ⊎ (c ≡ pointer_to v))
      × (rules name ≡ some rule)
      × (rule v ≡ some e)

  -- A field breaks a rule: it is exported, there is a rule for its name, and the rule has an error for its value or
  -- for what its pointer points to.
  abbrev pub Breaks : String × Field V → E → Type 0
  Breaks x e = (x.1.is_exported ≡ true) × Offends x.0 x.1.content e

  -- All fields break no rule and there is no error, or the first one that does gives the error.
  abbrev pub Judged : List (String × Field V) → Validated E → Type 0
  Judged fields result =
      ((result ≡ valid) × All (λ x. (e : E) → ¬ Breaks x e) fields)
      ⊎ ((before : List (String × Field V)) × (x : String × Field V) × (after : List
            (String × Field V))
          × (e : E) × (fields ≡ before ++ x ∷ after)
          × All (λ y. (f : E) → ¬ Breaks y f) before
          × Breaks x e
          × (result ≡ invalid e))

  apply_rule_error :
      (name : String) (v : V) (e : E)
      → apply_rule rules name v ≡ some e
      → (rule : V → Option E) × (rules name ≡ some rule) × (rule v ≡ some e)
  apply_rule_error name v e h = elim (Option-cases (rules name)) [
    | inl n ↦ absurd (ground (arith, n))
    | inr (rule, r) ↦ (rule, r, rw (apply_rule, r) at h)
  ]

  apply_rule-is :
      (name : String) (v : V) (e : E) (rule : V → Option E)
      → rules name ≡ some rule
      → rule v ≡ some e
      → apply_rule rules name v ≡ some e
  apply_rule-is name v e rule r b = rw (apply_rule, r) b

  content-Offends :
      (name : String) (c : Content V) (e : E)
      → check_content rules name c ≡ some e
      → Offends name c e
  content-Offends name nil_pointer e h = cc
  content-Offends name (value v) e h =
      let (rule, r, b) = apply_rule_error name v e h in (v, rule, inl refl, r, b)
  content-Offends name (pointer_to v) e h =
      let (rule, r, b) = apply_rule_error name v e h in (v, rule, inr refl, r, b)

  Offends-content :
      (name : String) (c : Content V) (e : E)
      → Offends name c e
      → check_content rules name c ≡ some e
  Offends-content name c e (v, rule, inl is, r, b) = rw is (apply_rule-is name v e rule r b)
  Offends-content name c e (v, rule, inr is, r, b) = rw is (apply_rule-is name v e rule r b)

  verdict-Breaks : (x : String × Field V) (e : E) → verdict x ≡ some e → Breaks x e
  verdict-Breaks (name, f) e h = elim (Bool-cases f.is_exported) [
    | inl b ↦ (b, content-Offends name f.content e (rw (verdict, field_error, b) at h))
    | inr b ↦ absurd (ground (arith, b))
  ]

  Breaks-verdict : (x : String × Field V) (e : E) → Breaks x e → verdict x ≡ some e
  Breaks-verdict (name, f) e (b, o) =
      rw (verdict, field_error, b) (Offends-content name f.content e o)

  unbroken :
      (fields : List (String × Field V))
      → All (λ x. verdict x ≡ none) fields
      → All (λ x. (e : E) → ¬ Breaks x e) fields
  unbroken [] h = tt
  unbroken (x ∷ fields) (fine, h) = ((λ e b. cc (Breaks-verdict x e b)), unbroken fields h)

  outcome-Judged :
      (fields : List (String × Field V)) (result : Validated E)
      → Outcome fields result
      → Judged fields result
  outcome-Judged fields result (inl (fine, h)) = inl (fine, unbroken fields h)
  outcome-Judged fields result (inr (before, x, after, e, split, h, bad, is)) =
      inr (before, x, after, e, split, unbroken before h, verdict-Breaks x e bad, is)

  -- `ValidateAllFields` of a struct, or of a pointer to one, whose fields have different names: no error, if no
  -- exported field breaks the rule for its name, by its value or by what its pointer points to; else the error about
  -- the first one that does.
  pub validate_all_fields-Judged :
      (all : List (String × Field V))
      → All (λ x. lookup x.0 all ≡ some x.1) all
      → Judged all (validate_all_fields (struct all) rules)
        × Judged all (validate_all_fields (pointer_to_struct all) rules)
  unfolding validate_all_fields
  validate_all_fields-Judged all h =
      (outcome-Judged all _ (judged all all h), outcome-Judged all _ (judged all all h))
