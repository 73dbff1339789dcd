-- ===== src/Util/Address/Examples.antt =====
-- Three addresses, of which the last is an IPv4 address in IPv6 form.
use public_pkg.Common.{
  leb, Bool, false, ◌||◌, [], Option, none, some, ◌≡◌, ◌↔◌, refl, if◌then◌else◌,
}
use public_pkg.Common.Int.{pos}
use public_pkg.Text.{Bytes, codes, bytes_eq}
use public_pkg.Text.Decimal.{parse_uint, format_uint}
use public_pkg.Util.Address.{
  Family, v4, v6, append_port_if_needed, validate_address, split_host_port, last_colon, host_of,
  has_byte, first_bracket, with_port, remote_ip,
}
use public_pkg.Util.Address.Ports.{validate_address-append_port_if_needed}

abbrev ip : Bytes → Option Family
ip s =
    if bytes_eq s (codes "10.0.0.1") || bytes_eq s (codes "::ffff:1.2.3.4")
    then some v4
    else if bytes_eq s (codes "::1")
    then some v6
    else none

abbrev port : Bytes → Bool
unfolding parse_uint
port s = elim (parse_uint s) [ none ↦ false | some n ↦ leb n 65535 ]

mapped : append_port_if_needed ip port (codes "::ffff:1.2.3.4") (pos 80) ≡ codes "::ffff:1.2.3.4:80"
unfolding append_port_if_needed split_host_port last_colon host_of has_byte with_port format_uint
mapped = refl

validate_address-append_port_if_needed_example :
    (validate_address ip port (append_port_if_needed ip port (codes "::ffff:1.2.3.4") (pos 80))
      ≡ none)
    ↔ ((v4 ≡ v4) → has_byte b':' (codes "::ffff:1.2.3.4") ≡ false)
unfolding split_host_port last_colon host_of has_byte with_port port parse_uint format_uint
validate_address-append_port_if_needed_example =
    validate_address-append_port_if_needed ip port (codes "::ffff:1.2.3.4") v4 80 refl refl refl
      refl

from_client : remote_ip (codes "[::1]:4000") (λ name. []) ≡ codes "127.0.0.1"
unfolding remote_ip split_host_port last_colon host_of has_byte first_bracket with_port
from_client = refl
