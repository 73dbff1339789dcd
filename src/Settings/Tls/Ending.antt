-- ===== src/Settings/Tls/Ending.antt =====
-- When TLSConfig of pkg/options/tls_options.go returns.
use public_pkg.Common.{
  ℕ, zero, suc, true, false, List, [], ◌∷◌, ◌++◌, Option, none, some, Result, ok, err, Result-cases,
  Bool-cases, Option-cases, ◌≡◌, refl, ap, ◌∙◌, ◌⊎◌, inl, inr, str_eq,
}
use public_pkg.Settings.Tls.{
  TlsOptions, TlsLibrary, TlsError, TlsConfig, fault, key_pair, load_pool, with_pool, read_pool,
  after_keys, Outcome, tls_config,
}

module _ (t : TlsLibrary) where
  open t use {Fault, Certificate, Text}

  -- The file starts with a block that is a certificate.
  abbrev pub StartsWithCertificate : Text → Type 0
  StartsWithCertificate text =
      (block : t.Block) × (cert : Certificate) × ((t.decode text).0 ≡ some block)
      × (t.parse_certificate block ≡ ok cert)

  -- The options ask for TLS with a CA file that starts with a certificate, and what comes before the
  -- loop succeeds.
  abbrev pub HasCaCertificate : TlsOptions → Type 0
  HasCaCertificate o =
      (o.use_tls ≡ true)
      × ((certs : List Certificate) × (key_pair t o ≡ ok certs))
      × (str_eq o.ca_cert "" ≡ false)
      × ((text : Text) × (t.read_file o.ca_cert ≡ ok text) × StartsWithCertificate text)

  -- A call returns within one round.
  abbrev pub Returns : (ℕ → Outcome t) → Type 0
  Returns run =
      (r : Result (TlsError Fault) (Option (TlsConfig Certificate))) × ((n : ℕ)
        → run (suc n) ≡ some r)

  loops :
      (text : Text)
      → StartsWithCertificate text
      → (n : ℕ) (pool : List Certificate) → load_pool t n text pool ≡ none
  unfolding load_pool
  loops text h zero pool = refl
  loops text (block, cert, first, parsed) (suc n) pool =
      rw (load_pool, first, parsed) (loops text (block, cert, first, parsed) n (pool ++ cert ∷ []))

  pool_case :
      (text : Text)
      → StartsWithCertificate text
        ⊎ ((r : Result (TlsError Fault) (List Certificate)) × ((n : ℕ)
              → load_pool t (suc n) text [] ≡ some r))
  unfolding load_pool
  pool_case text = elim (Option-cases (t.decode text).0) [
    | inl empty ↦ inr (ok [], λ n. rw (load_pool, empty) refl)
    | inr (block, first) ↦ elim (Result-cases (t.parse_certificate block)) [
      | inl (cert, parsed) ↦ inl (block, cert, first, parsed)
      | inr (e, bad) ↦ inr (err (fault e), λ n. rw (load_pool, first, bad) refl)
    ]
  ]

  pooled :
      (o : TlsOptions) (certs : List Certificate) (r : Result (TlsError Fault) (List Certificate))
      → (x : Result (TlsError Fault) (Option (TlsConfig Certificate))) × (with_pool t o certs
            (some r)
          ≡ some x)
  pooled o certs (err e) = (err e, refl)
  pooled o certs (ok pool) = (_, refl)

  into_loop :
      (o : TlsOptions) (certs : List Certificate) (text : Text) (n : ℕ)
      → o.use_tls ≡ true
      → key_pair t o ≡ ok certs
      → str_eq o.ca_cert "" ≡ false
      → t.read_file o.ca_cert ≡ ok text
      → tls_config t n o ≡ with_pool t o certs (load_pool t n text [])
  unfolding tls_config
  into_loop o certs text n u k c r =
      rw u (ap (after_keys t n o) k ∙ rw c (ap (read_pool t n o certs) r))

  Ends : TlsOptions → Type 0
  Ends o =
      (HasCaCertificate o × ((n : ℕ) → tls_config t n o ≡ none)) ⊎ Returns (λ n. tls_config t n o)

  pub never_returns : (o : TlsOptions) → HasCaCertificate o → (n : ℕ) → tls_config t n o ≡ none
  never_returns o (u, (certs, k), c, (text, r, h)) n =
      into_loop o certs text n u k c r ∙ ap (with_pool t o certs) (loops text h n [])

  loop_case :
      (o : TlsOptions) (certs : List Certificate) (text : Text)
      → o.use_tls ≡ true
      → key_pair t o ≡ ok certs
      → str_eq o.ca_cert "" ≡ false
      → t.read_file o.ca_cert ≡ ok text
      → Ends o
  unfolding Ends
  loop_case o certs text u k c r = elim (pool_case text) [
    | inl h ↦
        let stuck : HasCaCertificate o = (u, (certs, k), c, (text, r, h)) in
        inl (stuck, never_returns o stuck)
    | inr (x, h) ↦
        let (y, done) = pooled o certs x in
        inr (y, λ n. into_loop o certs text (suc n) u k c r ∙ ap (with_pool t o certs) (h n) ∙ done)
  ]

  file_case :
      (o : TlsOptions) (certs : List Certificate)
      → o.use_tls ≡ true
      → key_pair t o ≡ ok certs
      → Ends o
  unfolding Ends tls_config
  file_case o certs u k = elim (Bool-cases (str_eq o.ca_cert "")) [
    | inl c ↦ inr (
      ok (
          some (record {
            skip_verify = o.insecure_skip_verify;
            certificates = certs;
            root_cas = none;
          })),
      λ n. rw u (ap (after_keys t (suc n) o) k ∙ rw c refl),
    )
    | inr c ↦ elim (Result-cases (t.read_file o.ca_cert)) [
      | inl (text, r) ↦ loop_case o certs text u k c r
      | inr (e, r) ↦ inr (
        err (fault e),
        λ n. rw u (ap (after_keys t (suc n) o) k ∙ rw c (ap (read_pool t (suc n) o certs) r)),
      )
    ]
  ]

  -- `TLSConfig` never returns where the CA file starts with a certificate and what comes before its
  -- loop succeeds; in all other cases it returns within one round of the loop.
  pub tls_config_ends :
      (o : TlsOptions)
      → (HasCaCertificate o × ((n : ℕ) → tls_config t n o ≡ none)) ⊎ Returns (λ n. tls_config t n o)
  unfolding Ends tls_config
  tls_config_ends o = elim (Bool-cases o.use_tls) [
    | inr u ↦ inr (ok none, λ n. rw u refl)
    | inl u ↦ elim (Result-cases (key_pair t o)) [
      | inl (certs, k) ↦ file_case o certs u k
      | inr (e, k) ↦ inr (err e, λ n. rw u (ap (after_keys t (suc n) o) k))
    ]
  ]
