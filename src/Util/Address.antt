-- ===== src/Util/Address.antt =====
-- Addresses with ports: pkg/util/controller/controller.go, ValidateAddress of pkg/options/helper.go with the options
-- of HTTP and gRPC servers that call it, and pkg/util/ip/ip.go.
pub mod Ports
mod Examples
use public_pkg.Common.{
  ℕ, suc, ◌*◌, Bool, true, false, not, ◌&&◌, ◌||◌, ◌==◌, String, List, [], ◌∷◌, ◌++◌, Option, none,
  some, Result, ok, err, ◌≡◌, if◌then◌else◌,
}
use public_pkg.Common.Int.{ℤ, pos, negsuc}
use public_pkg.Text.{Bytes, codes, is_empty, bytes_eq}
use public_pkg.Text.Decimal.{format_uint}

-- The text before and behind the last colon, if there is one.
unfoldable pub last_colon : Bytes → Option (Bytes × Bytes)
last_colon [] = none
last_colon (c ∷ s) = elim (last_colon s) [
  | some (before, behind) ↦ some (c ∷ before, behind)
  | none ↦ if c == b':' then some ([], s) else none
]

unfoldable pub has_byte : ℕ → Bytes → Bool
has_byte b [] = false
has_byte b (c ∷ s) = c == b || has_byte b s

-- The text before and behind the first closing bracket, if there is one.
unfoldable pub first_bracket : Bytes → Option (Bytes × Bytes)
first_bracket [] = none
first_bracket (c ∷ s) =
    if c == b']'
    then some ([], s)
    else elim (first_bracket s) [ none ↦ none | some (inside, behind) ↦ some (c ∷ inside, behind) ]

-- Neither kind of bracket.
abbrev pub unbracketed : Bytes → Bool
unbracketed s = not (has_byte b'[' s) && not (has_byte b']' s)

-- The host before the last colon, without its brackets if it has some; the closing one must be its last byte.
abbrev pub host_of : Bytes → Option Bytes
unfolding first_bracket has_byte
host_of [] = some []
host_of (c ∷ s) =
    if c == b'['
    then elim (first_bracket s) [
      | none ↦ none
      | some (inside, behind) ↦ if is_empty behind && unbracketed inside then some inside else none
    ]
    else if has_byte b':' (c ∷ s) || not (unbracketed (c ∷ s))
    then none
    else some (c ∷ s)

abbrev pub with_port : Bytes → Option Bytes → Option (Bytes × Bytes)
unfolding has_byte
with_port port none = none
with_port port (some host) = if unbracketed port then some (host, port) else none

-- `net.SplitHostPort`: the host and the port; an error is `none`.
unfoldable pub split_host_port : Bytes → Option (Bytes × Bytes)
unfolding last_colon host_of with_port
split_host_port hostport = elim (last_colon hostport) [
  | none ↦ none
  | some (before, port) ↦ with_port port (host_of before)
]

-- What `To4` tells of an address.
pub data Family : Type 0 where
  v4 v6 : Family

-- `%d`
abbrev pub format_int : ℤ → Bytes
format_int (pos n) = format_uint n
format_int (negsuc n) = b'-' ∷ format_uint (suc n)

-- The package `k8s.io/utils/net`: `ParseIPSloppy` with the family of the address, and `ParsePort`.
module _ (parse_ip : Bytes → Option Family) (is_port : Bytes → Bool) where
  -- The address with a port.
  abbrev pub joined : Family → Bytes → ℤ → Bytes
  joined v4 addr port = addr ++ b':' ∷ format_int port
  joined v6 addr port = b'[' ∷ addr ++ b']' ∷ b':' ∷ format_int port

  -- `AppendPortIfNeeded`
  unfoldable pub append_port_if_needed : Bytes → ℤ → Bytes
  unfolding split_host_port
  append_port_if_needed addr port = elim (split_host_port addr) [
    | some x ↦ addr
    | none ↦ elim (parse_ip addr) [ none ↦ addr | some family ↦ joined family addr port ]
  ]

  pub data AddressError : Type 0 where
    bad_format bad_host bad_port : Bytes → AddressError

  abbrev pub known_ip : Bytes → Bool
  known_ip host = elim (parse_ip host) [ none ↦ false | some family ↦ true ]

  -- `ValidateAddress`: its error.
  unfoldable pub validate_address : Bytes → Option AddressError
  unfolding split_host_port
  validate_address addr = elim (split_host_port addr) [
    | none ↦ some (bad_format addr)
    | some (host, port) ↦
        if not (is_empty host) && not (known_ip host)
        then some (bad_host host)
        else if is_port port
        then none
        else some (bad_port port)
  ]

  -- `HTTPOptions` and `GRPCOptions`
  pub record ServerOptions : Type 0 where
    network : Bytes
    addr : Bytes
    timeout : ℕ

  abbrev new_http_options : ServerOptions
  new_http_options = record {
    network = codes "tcp";
    addr = codes "0.0.0.0:38443";
    timeout = 30 * 1_000_000_000;
  }

  abbrev new_grpc_options : ServerOptions
  new_grpc_options = record {
    network = codes "tcp";
    addr = codes "0.0.0.0:39090";
    timeout = 30 * 1_000_000_000;
  }

  abbrev error_list : Option AddressError → List AddressError
  error_list none = []
  error_list (some e) = e ∷ []

  -- `Validate` of the HTTP options, which may be nil, and of those of gRPC.
  unfoldable validate_http : Option ServerOptions → List AddressError
  unfolding validate_address
  validate_http none = []
  validate_http (some o) = error_list (validate_address o.addr)

  unfoldable validate_grpc : ServerOptions → List AddressError
  unfolding validate_address
  validate_grpc o = error_list (validate_address o.addr)

-- `RemoteIP` of a request with its address and its headers; what `SplitHostPort` cannot split has no host.
unfoldable pub remote_ip : Bytes → (String → Bytes) → Bytes
unfolding split_host_port
remote_ip remote_addr header =
    let client = header "x-client-ip" in
    let real = header "X-Real-IP" in
    let forwarded = header "X-Forwarded-For" in
    let ip =
      if not (is_empty client)
      then client
      else if not (is_empty real)
      then real
      else if not (is_empty forwarded)
      then forwarded
      else elim (split_host_port remote_addr) [ none ↦ [] | some (host, port) ↦ host ] in
    if bytes_eq ip (codes "::1") then codes "127.0.0.1" else ip

-- `GetLocalIP` of the addresses of the interfaces, which may not be found: for each a network's address, whether it
-- is a loopback, and whether it has four bytes.
unfoldable get_local_ip : Option (List (Option (Bytes × Bool × Bool))) → Bytes
get_local_ip none = codes "127.0.0.1"
get_local_ip (some []) = codes "127.0.0.1"
get_local_ip (some (none ∷ addrs)) = get_local_ip (some addrs)
get_local_ip (some (some (ip, is_loopback, has_four) ∷ addrs)) =
    let rest = get_local_ip (some addrs) in if not is_loopback && has_four then ip else rest
