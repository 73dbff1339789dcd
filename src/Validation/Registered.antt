-- ===== src/Validation/Registered.antt =====
-- Which methods are called, and when the required fields are there.
use Prim.Native.String
use public_pkg.Common.{
  Bool, true, false, not, String, List, [], ◌∷◌, ◌++◌, Option, none, some, ◌≡◌, ◌↔◌, refl, sym,
  subst, ◌∙◌, ap, lookup, insert, lookup-insert, if◌then◌else◌, str_eq, eq_iff, arith, ◌||◌, ◌⊎◌,
  inl, inr, All, Option-cases, Bool-cases,
}
use text.Mathlib.Text.{starts_with}
use text.Mathlib.TextLemmas.{prefix-append}
use text.Mathlib.TextEquality.{starts_with_iff}
use public_pkg.Validation.{
  GoType, context_type, error_type, other_type, pointer_to, Method, request_type, returns_error,
  validates, extract, new_validator, FieldValue, Checked, all_there, unknown_field, missing_field,
  panics, check_field, check_fields,
}

-- A method for requests of a type of this name, in whichever package: its name says the type, and it takes a context
-- and a pointer to the type and returns an error.
pub record IsFor {Rq E : Type 0} (requested : String) (m : Method Rq E) : Type 0 where
  pub callable : m.is_valid ≡ true
  pub named : m.name ≡ String.◌++◌ "Validate" requested
  pub pkg : String
  pub takes : m.ins ≡ context_type ∷ pointer_to pkg requested ∷ []
  pub gives : m.outs ≡ error_type ∷ []

type_case :
    (ins outs : List GoType) (requested : String)
    → request_type ins outs ≡ some requested
    → returns_error outs ≡ true
    → (pkg : String) × (ins ≡ context_type ∷ pointer_to pkg requested ∷ [])
      × (outs ≡ error_type ∷ [])
type_case (context_type ∷ pointer_to pkg name ∷ []) (error_type ∷ []) requested h e =
    (pkg, ground arith, refl)
type_case (context_type ∷ pointer_to pkg name ∷ []) (context_type ∷ []) requested h e = cc
type_case (context_type ∷ pointer_to pkg name ∷ []) (other_type ∷ []) requested h e = cc
type_case (context_type ∷ pointer_to pkg name ∷ []) (pointer_to p t ∷ []) requested h e = cc
type_case ins outs requested h e = cc

-- The tests of one round, by their outcomes.
test_case :
    (refused errs : Bool) (o : Option String) (name requested : String)
    → (if refused then none else elim o [
      | none ↦ none
      | some r ↦
          if str_eq name (String.◌++◌ "Validate" r) then (if errs then some r else none) else none
    ])
      ≡ some requested
    → (refused ≡ false)
      × (o ≡ some requested)
      × (name ≡ String.◌++◌ "Validate" requested)
      × (errs ≡ true)
test_case true errs o name requested h = cc
test_case false errs none name requested h = cc
test_case false errs (some r) name requested h =
    ground (arith, eq_iff name (String.◌++◌ "Validate" r))

module _ {Rq E : Type 0} where
  -- The tests of the loop let exactly such methods through.
  validates_sound :
      (m : Method Rq E) (requested : String) → validates m ≡ some requested → IsFor requested m
  validates_sound m requested h =
      let refused = not m.is_valid || not (starts_with m.name "Validate") in
      let (open_, typed, named, errs) =
        test_case refused (returns_error m.outs) (request_type m.ins m.outs) m.name requested h in
      let (pkg, takes, gives) = type_case m.ins m.outs requested typed errs in
      record { callable = ground arith; named = named; pkg = pkg; takes = takes; gives = gives }

  validates_complete :
      (m : Method Rq E) (requested : String) → IsFor requested m → validates m ≡ some requested
  validates_complete m requested v =
      rw (v.callable, v.named, v.takes, v.gives)
        (ground (
          arith,
          eq_iff (String.◌++◌ "Validate" requested) (String.◌++◌ "Validate" requested),
          (starts_with_iff (String.◌++◌ "Validate" requested) "Validate").1
              (prefix-append "Validate" requested),
        ))

  -- The method is one of the list.
  abbrev pub IsOneOf : Method Rq E → List (Method Rq E) → Type 0
  IsOneOf m [] = ⊥
  IsOneOf m (x ∷ xs) = (m ≡ x) ⊎ IsOneOf m xs

  -- One round: the method takes its request type's place, and no other changes.
  round_case :
      (m : Method Rq E) (funcs : List (String × Method Rq E)) (t : String)
      → (lookup t (elim (validates m) [ none ↦ funcs | some requested ↦ insert requested m funcs ])
          ≡ (elim (validates m) [
            | none ↦ lookup t funcs
            | some requested ↦ if str_eq requested t then some m else lookup t funcs
          ]))
  round_case m funcs t = elim (Option-cases (validates m)) [
    | inl e ↦ rw e refl
    | inr (r, e) ↦ rw e (lookup-insert r t m funcs)
  ]

  found-IsFor :
      (x : Method Rq E) (r t : String) → validates x ≡ some r → str_eq r t ≡ true → IsFor t x
  found-IsFor x r t e same = subst (λ n. IsFor n x) ((eq_iff r t).0 same) (validates_sound x r e)

  extract_sound :
      (ms : List (Method Rq E)) (funcs : List (String × Method Rq E)) (t : String) (m : Method Rq E)
      → lookup t (extract ms funcs) ≡ some m
      → (lookup t funcs ≡ some m) ⊎ (IsOneOf m ms × IsFor t m)
  unfolding extract
  extract_sound [] funcs t m h = inl h
  extract_sound (x ∷ ms) funcs t m h = elim (extract_sound ms _ t m h) [
    | inr (one, v) ↦ inr (inr one, v)
    | inl found ↦ elim (Option-cases (validates x)) [
      | inl e ↦ inl (ground (arith, round_case x funcs t))
      | inr (r, e) ↦ elim (Bool-cases (str_eq r t)) [
        | inr other ↦ inl (ground (arith, round_case x funcs t))
        | inl same ↦
            let is : m ≡ x = ground (arith, round_case x funcs t) in
            inr (inl is, subst (λ y. IsFor t y) (sym is) (found-IsFor x r t e same))
      ]
    ]
  ]

  extract_keeps :
      (ms : List (Method Rq E)) (funcs : List (String × Method Rq E)) (t : String) (m : Method Rq E)
      → lookup t funcs ≡ some m
      → ((m' : Method Rq E) → IsOneOf m' ms → IsFor t m' → m' ≡ m)
      → lookup t (extract ms funcs) ≡ some m
  unfolding extract
  extract_keeps [] funcs t m h only = h
  extract_keeps (x ∷ ms) funcs t m h only =
      extract_keeps ms _ t m
        (elim (Option-cases (validates x)) [
          | inl e ↦ ground (arith, round_case x funcs t)
          | inr (r, e) ↦ elim (Bool-cases (str_eq r t)) [
            | inr other ↦ ground (arith, round_case x funcs t)
            | inl same ↦
                let is : x ≡ m = only x (inl refl) (found-IsFor x r t e same) in
                ground (arith, round_case x funcs t)
          ]
        ])
        (λ m' one. only m' (inr one))

  extract_complete :
      (ms : List (Method Rq E)) (funcs : List (String × Method Rq E)) (t : String) (m : Method Rq E)
      → IsOneOf m ms
      → IsFor t m
      → ((m' : Method Rq E) → IsOneOf m' ms → IsFor t m' → m' ≡ m)
      → lookup t (extract ms funcs) ≡ some m
  unfolding extract
  extract_complete [] funcs t m one v only = absurd one
  extract_complete (x ∷ ms) funcs t m (inr one) v only =
      extract_complete ms _ t m one v (λ m' one'. only m' (inr one'))
  extract_complete (x ∷ ms) funcs t m (inl is) v only =
      let made : validates x ≡ some t =
        subst (λ y. validates y ≡ some t) is (validates_complete m t v) in
      extract_keeps ms _ t m (ground (arith, round_case x funcs t, eq_iff t t))
        (λ m' one. only m' (inr one))

  -- Where method names are not repeated, the validator has a method for a request type exactly if it is
  -- one of the custom validator's, is named after the type, takes a context and a pointer to a type of that name
  -- and returns an error.
  pub new_validator_registers :
      (ms : List (Method Rq E)) (t : String) (m : Method Rq E)
      → ((m' : Method Rq E) → IsOneOf m' ms → m'.name ≡ String.◌++◌ "Validate" t → m' ≡ m)
      → (lookup t (new_validator ms) ≡ some m) ↔ (IsOneOf m ms × IsFor t m)
  unfolding new_validator lookup
  new_validator_registers ms t m only = (
    λ h. elim (extract_sound ms [] t m h) [ inl nothing ↦ cc | inr found ↦ found ],
    λ x. extract_complete ms [] t m x.0 x.1 (λ m' one v. only m' one v.named),
  )

-- A field that is there and is not nil, of a kind that can be nil.
abbrev pub IsPresent : List (String × FieldValue) → String → Type 0
IsPresent fields n =
    (v : FieldValue) × (lookup n fields ≡ some v) × (v.nilable ≡ true) × (v.is_nil ≡ false)

-- What a field that is not present makes of the check: an error, or a panic where its kind cannot be nil.
abbrev pub Breaks : List (String × FieldValue) → String → Checked → Type 0
Breaks fields n c =
    ((lookup n fields ≡ none) × (c ≡ unknown_field n))
    ⊎ (((v : FieldValue) × (lookup n fields ≡ some v)
          × (v.nilable ≡ true)
          × (v.is_nil ≡ true)
          × (c ≡ missing_field n))
        ⊎ ((v : FieldValue) × (lookup n fields ≡ some v) × (v.nilable ≡ false) × (c ≡ panics n)))

-- The first required field that is not present decides.
abbrev pub FirstBreaks : List (String × FieldValue) → List String → Checked → Type 0
FirstBreaks fields required c =
    (before : List String) × (n : String) × (after : List String) × (required ≡ before ++ n ∷ after)
    × All (IsPresent fields) before
    × Breaks fields n c

field_case :
    (fields : List (String × FieldValue)) (n : String) (rest : Checked) (o : Option FieldValue)
    → lookup n fields ≡ o
    → (IsPresent fields n × (check_field n o rest ≡ rest)) ⊎ Breaks fields n (check_field n o rest)
field_case fields n rest none h = inr (inl (h, refl))
field_case fields n rest (some v) h = elim (Bool-cases v.nilable) [
  | inr e ↦ inr (inr (inr (v, h, e, ground arith)))
  | inl e ↦ elim (Bool-cases v.is_nil) [
    | inl e' ↦ inr (inr (inl (v, h, e, e', ground arith)))
    | inr e' ↦ inl ((v, h, e, e'), ground arith)
  ]
]

-- `ValidRequired` returns nil exactly where every required field is there, of a kind that can be nil,
-- and not nil. Else the first field that is not decides: it does not exist, it is nil, or its kind
-- cannot be nil, and then the function panics.
check_fields_first :
    (fields : List (String × FieldValue)) (required : List String)
    → ((check_fields fields required ≡ all_there) × All (IsPresent fields) required)
      ⊎ FirstBreaks fields required (check_fields fields required)
unfolding check_fields
check_fields_first fields [] = inl (refl, tt)
check_fields_first fields (n ∷ required) =
    elim (field_case fields n (check_fields fields required) (lookup n fields) refl) [
      | inr b ↦ inr ([], n, required, refl, tt, b)
      | inl (here, e) ↦ elim (check_fields_first fields required) [
        | inl (fine, rest) ↦ inl (e ∙ fine, (here, rest))
        | inr (before, m, after, split, ok, b) ↦ inr (
          n ∷ before,
          m,
          after,
          ap (λ (l : List String). n ∷ l) split,
          (here, ok),
          subst (λ c. Breaks fields m c) (sym e) b,
        )
      ]
    ]
