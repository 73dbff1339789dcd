-- ===== src/Util/Address/Ports.antt =====
-- Whether ValidateAddress of pkg/options accepts the addresses that AppendPortIfNeeded of pkg/util/controller makes.
use public_pkg.Common.{
  ℕ, ◌+◌, ◌≤◌, Bool, true, false, [], ◌∷◌, ◌++◌, Option, none, some, ◌≡◌, ◌≢◌, refl, sym, ◌∙◌, ap,
  ◌↔◌, arith, All, Bool-cases, inl, inr, append_assoc, if◌then◌else◌,
}
use public_pkg.Common.Int.{pos}
use public_pkg.Text.{Bytes}
use public_pkg.Text.Decimal.{format_uint, format_uint-digits, IsDigit}
use public_pkg.Util.Address.{
  last_colon, has_byte, first_bracket, unbracketed, host_of, with_port, split_host_port, Family, v4,
  v6, joined, append_port_if_needed, validate_address, known_ip,
}

-- A number's text has digits only.
has_byte-digits : (b : ℕ) (s : Bytes) → All IsDigit s → b'9' + 1 ≤ b → has_byte b s ≡ false
unfolding has_byte
has_byte-digits b [] d h = refl
has_byte-digits b (c ∷ s) d h = ground (arith, has_byte-digits b s d.1 h)

last_colon-none : (s : Bytes) → has_byte b':' s ≡ false → last_colon s ≡ none
unfolding last_colon has_byte
last_colon-none [] h = refl
last_colon-none (c ∷ s) h = ground (arith, last_colon-none s)

last_colon-append :
    (before port : Bytes)
    → has_byte b':' port ≡ false
    → last_colon (before ++ b':' ∷ port) ≡ some (before, port)
unfolding last_colon
last_colon-append [] port h = rw (last_colon-none port h) refl
last_colon-append (c ∷ before) port h = rw (last_colon-append before port h) refl

first_bracket-append :
    (inside : Bytes)
    → has_byte b']' inside ≡ false
    → first_bracket (inside ++ b']' ∷ []) ≡ some (inside, [])
unfolding first_bracket has_byte
first_bracket-append [] h = refl
first_bracket-append (c ∷ inside) h = ground (arith, first_bracket-append inside)

-- A host without brackets is kept where it has no colon, and is refused where it has one.
host_of-plain :
    (host : Bytes)
    → unbracketed host ≡ true
    → host_of host ≡ (if has_byte b':' host then none else some host)
unfolding has_byte host_of
host_of-plain [] u = refl
host_of-plain (c ∷ s) u = ground (arith, has_byte b':' s, has_byte b'[' s, has_byte b']' s)

host_of-bracketed :
    (host : Bytes) → unbracketed host ≡ true → host_of (b'[' ∷ host ++ b']' ∷ []) ≡ some host
unfolding first_bracket has_byte host_of
host_of-bracketed host u = rw (first_bracket-append host (ground arith), u) refl

split_host_port-append :
    (before port : Bytes)
    → All IsDigit port
    → split_host_port (before ++ b':' ∷ port) ≡ with_port port (host_of before)
unfolding split_host_port
split_host_port-append before port d =
    rw (split_host_port, last_colon-append before port (has_byte-digits b':' port d (ground arith)))
      refl

digits_unbracketed : (n : ℕ) → unbracketed (format_uint n) ≡ true
digits_unbracketed n =
    rw
      (
        has_byte-digits b'[' (format_uint n) (format_uint-digits n) (ground arith),
        has_byte-digits b']' (format_uint n) (format_uint-digits n) (ground arith),
      )
      refl

module _ (parse_ip : Bytes → Option Family) (is_port : Bytes → Bool) where
  accepted :
      (addr host port : Bytes)
      → split_host_port addr ≡ some (host, port)
      → known_ip parse_ip is_port host ≡ true
      → is_port port ≡ true
      → validate_address parse_ip is_port addr ≡ none
  unfolding validate_address
  accepted addr [] port s k p = rw (validate_address, s, p) refl
  accepted addr (c ∷ host) port s k p = rw (validate_address, s, k, p) refl

  unsplit_refused :
      (addr : Bytes) → split_host_port addr ≡ none → validate_address parse_ip is_port addr ≢ none
  unfolding validate_address
  unsplit_refused addr s h = cc (rw (validate_address, s) at h)

  -- The address with brackets is split at its last colon.
  split-bracketed :
      (addr : Bytes) (n : ℕ)
      → unbracketed addr ≡ true
      → split_host_port (joined parse_ip is_port v6 addr (pos n)) ≡ some (addr, format_uint n)
  unfolding with_port format_uint
  split-bracketed addr n u =
      ap split_host_port
        (ap (λ s. b'[' ∷ s) (sym (append_assoc addr (b']' ∷ []) (b':' ∷ format_uint n))))
      ∙ split_host_port-append (b'[' ∷ addr ++ b']' ∷ []) (format_uint n) (format_uint-digits n)
      ∙ rw (host_of-bracketed addr u, digits_unbracketed n) refl

  split-plain :
      (addr : Bytes) (n : ℕ)
      → unbracketed addr ≡ true
      → split_host_port (joined parse_ip is_port v4 addr (pos n))
        ≡ (if has_byte b':' addr then none else some (addr, format_uint n))
  unfolding with_port
  split-plain addr n u =
      split_host_port-append addr (format_uint n) (format_uint-digits n)
      ∙ elim (Bool-cases (has_byte b':' addr)) [
        | inl b ↦ rw (host_of-plain addr u, b) refl
        | inr b ↦ rw (host_of-plain addr u, b, digits_unbracketed n) refl
      ]

  -- `AppendPortIfNeeded` gives an address without a port the port, and for the text of an IP address, which has no
  -- brackets, and a port that `ParsePort` takes, `ValidateAddress` accepts the result exactly if the address is an
  -- IPv6 one or has no colon: the port of an IPv4 address in IPv6 form, such as `::ffff:1.2.3.4`, is appended
  -- without brackets, and the result is refused.
  pub validate_address-append_port_if_needed :
      (addr : Bytes) (family : Family) (n : ℕ)
      → split_host_port addr ≡ none
      → unbracketed addr ≡ true
      → parse_ip addr ≡ some family
      → is_port (format_uint n) ≡ true
      → (validate_address parse_ip is_port (append_port_if_needed parse_ip is_port addr (pos n))
          ≡ none)
        ↔ ((family ≡ v4) → has_byte b':' addr ≡ false)
  unfolding append_port_if_needed
  validate_address-append_port_if_needed addr v4 n s u p q =
      elim (Bool-cases (has_byte b':' addr)) [
        | inl b ↦ (
          λ h. absurd (
              unsplit_refused (joined parse_ip is_port v4 addr (pos n))
                (split-plain addr n u ∙ rw b refl) (rw (append_port_if_needed, s, p) at h)),
          λ h. cc (h refl),
        )
        | inr b ↦ (
          λ h e. b,
          λ h.
              rw (append_port_if_needed, s, p)
                (accepted (joined parse_ip is_port v4 addr (pos n)) addr (format_uint n)
                  (split-plain addr n u ∙ rw b refl) (rw (known_ip, p) refl) q),
        )
      ]
  validate_address-append_port_if_needed addr v6 n s u p q = (
    λ h e. cc,
    λ h.
        rw (append_port_if_needed, s, p)
          (accepted (joined parse_ip is_port v6 addr (pos n)) addr (format_uint n)
            (split-bracketed addr n u) (rw (known_ip, p) refl) q),
  )
