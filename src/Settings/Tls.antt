-- ===== src/Settings/Tls.antt =====
-- pkg/options/tls_options.go: the TLS options and the configuration that they give. The packages tls, pem,
-- x509 and os are the parameter `TlsLibrary`.
pub mod Ending
mod Examples
use public_pkg.Common.{
  ℕ, zero, suc, Bool, true, false, not, ◌&&◌, ◌||◌, String, List, [], ◌∷◌, ◌++◌, Option, none, some,
  Result, ok, err, str_eq, if◌then◌else◌,
}

pub record TlsOptions : Type 0 where
  pub use_tls : Bool
  pub insecure_skip_verify : Bool
  pub ca_cert : String
  pub cert : String
  pub key : String

abbrev pub new_tls_options : TlsOptions
new_tls_options = record {
  use_tls = false;
  insecure_skip_verify = false;
  ca_cert = "";
  cert = "";
  key = "";
}

-- `Validate`, as its error messages.
unfoldable pub validate : TlsOptions → List String
validate o =
    let cert = not (str_eq o.cert "") in
    let key = not (str_eq o.key "") in
    if not o.use_tls
    then []
    else if (cert && not key) || (not cert && key)
    then "only one of cert and key configuration option is setted, you should set both to enable tls"
      ∷ []
    else []

-- `Scheme`
unfoldable pub scheme : TlsOptions → String
scheme o = if o.use_tls then "https" else "http"

-- `decode` gives the first block of a text and the rest behind it.
pub record TlsLibrary : Type 1 where
  pub Fault : Type 0
  pub Certificate : Type 0
  pub Text : Type 0
  pub Block : Type 0
  pub load_key_pair : String → String → Result Fault Certificate
  pub read_file : String → Result Fault Text
  pub decode : Text → Option Block × Text
  pub parse_certificate : Block → Result Fault Certificate

pub data TlsError (F : Type 0) : Type 0 where
  not_loaded fault : F → TlsError F

-- `tls.Config`
pub record TlsConfig (C : Type 0) : Type 0 where
  pub skip_verify : Bool
  pub certificates : List C
  pub root_cas : Option (List C)

module _ (t : TlsLibrary) where
  open t use {Fault, Certificate, Text}

  abbrev pub loaded : Result Fault Certificate → Result (TlsError Fault) (List Certificate)
  loaded (ok cert) = ok (cert ∷ [])
  loaded (err e) = err (not_loaded e)

  abbrev pub key_pair : TlsOptions → Result (TlsError Fault) (List Certificate)
  key_pair o =
      if not (str_eq o.cert "") && not (str_eq o.key "")
      then loaded (t.load_key_pair o.cert o.key)
      else ok []

  -- The loop over the blocks of the CA file, `none` while it runs after so many rounds. Each round decodes
  -- the whole text again, because the rest is dropped.
  unfoldable pub load_pool :
      ℕ → Text → List Certificate → Option (Result (TlsError Fault) (List Certificate))
  load_pool zero text pool = none
  load_pool (suc rounds) text pool = elim (t.decode text).0 [
    | none ↦ some (ok pool)
    | some block ↦ elim (t.parse_certificate block) [
      | err e ↦ some (err (fault e))
      | ok cert ↦ load_pool rounds text (pool ++ cert ∷ [])
    ]
  ]

  abbrev pub Outcome : Type 0
  Outcome = Option (Result (TlsError Fault) (Option (TlsConfig Certificate)))

  abbrev pub with_pool :
      TlsOptions → List Certificate → Option (Result (TlsError Fault) (List Certificate)) → Outcome
  with_pool o certs none = none
  with_pool o certs (some (err e)) = some (err e)
  with_pool o certs (some (ok pool)) = some (
      ok (
        some (record {
          skip_verify = o.insecure_skip_verify;
          certificates = certs;
          root_cas = some pool;
        })))

  abbrev pub read_pool : ℕ → TlsOptions → List Certificate → Result Fault Text → Outcome
  read_pool rounds o certs (err e) = some (err (fault e))
  read_pool rounds o certs (ok text) = with_pool o certs (load_pool rounds text [])

  abbrev pub after_keys : ℕ → TlsOptions → Result (TlsError Fault) (List Certificate) → Outcome
  after_keys rounds o (err e) = some (err e)
  after_keys rounds o (ok certs) =
      if str_eq o.ca_cert ""
      then some (
          ok (
            some (record {
              skip_verify = o.insecure_skip_verify;
              certificates = certs;
              root_cas = none;
            })))
      else read_pool rounds o certs (t.read_file o.ca_cert)

  -- `TLSConfig` for at most so many rounds of its loop; a nil configuration is the inner `none`.
  unfoldable pub tls_config : ℕ → TlsOptions → Outcome
  unfolding load_pool
  tls_config rounds o = if o.use_tls then after_keys rounds o (key_pair o) else some (ok none)

  -- `MustTLSConfig`; `empty` is the configuration without any setting.
  abbrev pub must :
      TlsConfig Certificate
      → Result (TlsError Fault) (Option (TlsConfig Certificate))
      → Option (TlsConfig Certificate)
  must empty (ok config) = config
  must empty (err e) = some empty

  unfoldable pub must_tls_config : ℕ → TlsOptions → Option (Option (TlsConfig Certificate))
  unfolding tls_config
  must_tls_config rounds o = elim (tls_config rounds o) [
    | none ↦ none
    | some r ↦ some (must (record { skip_verify = false; certificates = []; root_cas = none }) r)
  ]
