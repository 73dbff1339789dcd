-- ===== src/Settings/Tls/Examples.antt =====
-- A CA file with one certificate.
use public_pkg.Common.{ℕ, true, false, String, none, some, ok, ◌≡◌, refl, ◌⊎◌}
use public_pkg.Settings.Tls.{TlsOptions, TlsLibrary, tls_config}
use public_pkg.Settings.Tls.Ending.{HasCaCertificate, Returns, tls_config_ends}

-- A file is one block, which is one certificate.
abbrev one_block : TlsLibrary
one_block = record {
  Fault = String;
  Certificate = String;
  Text = String;
  Block = String;
  load_key_pair = λ cert key. ok cert;
  read_file = λ path. ok "CERTIFICATE";
  decode = λ text. (some text, "");
  parse_certificate = λ block. ok block;
}

abbrev with_ca : TlsOptions
with_ca = record {
  use_tls = true;
  insecure_skip_verify = false;
  ca_cert = "/etc/ca.pem";
  cert = "";
  key = "";
}

tls_config_ends_example :
    (HasCaCertificate one_block with_ca × ((n : ℕ) → tls_config one_block n with_ca ≡ none))
    ⊎ Returns one_block (λ n. tls_config one_block n with_ca)
tls_config_ends_example = tls_config_ends one_block with_ca

hundred_rounds : tls_config one_block 100 with_ca ≡ none
unfolding tls_config
hundred_rounds = refl
