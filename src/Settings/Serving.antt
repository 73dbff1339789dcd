-- ===== src/Settings/Serving.antt =====
-- pkg/options/secure_serving.go: the options of the HTTPS server. Names of files are lists of bytes.
use public_pkg.Common.{
  Bool, true, false, not, ◌&&◌, ◌||◌, List, [], ◌∷◌, ◌++◌, Option, none, some, if◌then◌else◌, ◌≡◌,
  refl, ◌↔◌, arith,
}
use public_pkg.Common.Int.{ℤ, pos, negsuc, ltb_ℤ, eqb_ℤ, ◌≤ℤ◌}
use public_pkg.Text.{Bytes, codes, is_empty}
use public_pkg.Util.File.Path.{path_join}

record CertKey : Type 0 where
  cert_file : Bytes
  key_file : Bytes

record GeneratableKeyCert : Type 0 where
  cert_key : CertKey
  cert_directory : Bytes
  pair_name : Bytes

record SecureServingOptions : Type 0 where
  bind_address : Bytes
  bind_port : ℤ
  required : Bool
  server_cert : GeneratableKeyCert

abbrev new_secure_serving_options : SecureServingOptions
new_secure_serving_options = record {
  bind_address = codes "0.0.0.0";
  bind_port = pos 8443;
  required = true;
  server_cert = record {
    cert_key = record { cert_file = []; key_file = [] };
    cert_directory = codes "/var/run/onex";
    pair_name = codes "onex";
  };
}

data PortError : Type 0 where
  not_a_port not_a_port_or_0 : ℤ → PortError

-- The outcome of `Validate` for a port.
abbrev port_errors : Bool → ℤ → List PortError
port_errors required port =
    if (required && ltb_ℤ port (pos 1)) || ltb_ℤ (pos 65535) port
    then not_a_port port ∷ []
    else if ltb_ℤ port (pos 0) || ltb_ℤ (pos 65535) port
    then not_a_port_or_0 port ∷ []
    else []

-- `Validate` of options that are not nil; nil options have no error.
unfoldable validate_serving : SecureServingOptions → List PortError
validate_serving s = port_errors s.required s.bind_port

-- `Complete`: `none` is the error about the missing name of the pair.
unfoldable complete : SecureServingOptions → Option SecureServingOptions
unfolding path_join
complete s =
    let cert = s.server_cert in
    let file = λ (suffix : Bytes). path_join cert.cert_directory (cert.pair_name ++ suffix) in
    if eqb_ℤ s.bind_port (pos 0)
    then some s
    else if not (is_empty cert.cert_key.cert_file) || not (is_empty cert.cert_key.key_file)
    then some s
    else if is_empty cert.cert_directory
    then some s
    else if is_empty cert.pair_name
    then none
    else some (record s {
      server_cert = record cert {
        cert_key = record { cert_file = file (codes ".crt"); key_file = file (codes ".key") };
      };
    })

port_case :
    (required : Bool) (port : ℤ)
    → (port_errors required port ≡ [])
      ↔ (((if required then pos 1 else pos 0) ≤ℤ port) × (port ≤ℤ pos 65535))
port_case true (pos n) = (λ h. ground arith, λ h. ground arith)
port_case true (negsuc n) = (λ h. ground arith, λ h. ground arith)
port_case false (pos n) = (λ h. ground arith, λ h. ground arith)
port_case false (negsuc n) = (λ h. ground arith, λ h. ground arith)

-- `Validate` accepts the ports up to 65535, from 1 on where a port is required, else from 0 on.
accepts_ports :
    (s : SecureServingOptions)
    → (validate_serving s ≡ [])
      ↔ (((if s.required then pos 1 else pos 0) ≤ℤ s.bind_port) × (s.bind_port ≤ℤ pos 65535))
unfolding validate_serving
accepts_ports s = port_case s.required s.bind_port

default_files :
    complete new_secure_serving_options
    ≡ some (record new_secure_serving_options {
      server_cert = record {
        cert_key = record {
          cert_file = codes "/var/run/onex/onex.crt";
          key_file = codes "/var/run/onex/onex.key";
        };
        cert_directory = codes "/var/run/onex";
        pair_name = codes "onex";
      };
    })
unfolding complete
default_files = refl
