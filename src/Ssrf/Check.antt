-- ===== src/Ssrf/Check.antt =====
-- `extract_host_port` and `check_ssrf_url` of crates/adaclaw-security/src/ssrf.rs.
-- Texts are lists of code points. The parser of addresses and the resolver are parameters: a host is
-- an address or not, and a name resolves to a list of addresses or fails.
use ada_claw.Prelude.{
  ℕ, ◌+◌, ◌*◌, ◌-◌, ◌≡◌, refl, Bool, true, false, not, ◌&&◌, ◌||◌, Option, none, some, List, [],
  ◌∷◌, ◌++◌, Result, ok, err, leb, ltb, ◌==◌, if◌then◌else◌, Codes, codes, strip_prefix, any, is_ok,
  arith,
}
use mathlib.Core.Option.{get_or}
use ada_claw.Ssrf.Address.{IpAddr, is_blocked_ip}

-- Where the authority ends.
abbrev pub ends_authority : ℕ → Bool
ends_authority c = c == b'/' || c == b'?' || c == b'#'

-- The part before the first such character.
unfoldable pub authority_of : Codes → Codes
authority_of [] = []
authority_of (c ∷ rest) = if ends_authority c then [] else c ∷ authority_of rest

abbrev add_front : ℕ → Option (Codes × Codes) → Option (Codes × Codes)
add_front c none = none
add_front c (some (front, back)) = some (c ∷ front, back)

-- The parts around the first such character.
unfoldable pub split_first : ℕ → Codes → Option (Codes × Codes)
split_first sep [] = none
split_first sep (c ∷ rest) =
    let later = split_first sep rest in if c == sep then some ([], rest) else add_front c later

abbrev or_here : ℕ → ℕ → Codes → Option (Codes × Codes) → Option (Codes × Codes)
or_here sep c rest (some parts) = add_front c (some parts)
or_here sep c rest none = if c == sep then some ([], rest) else none

-- The parts around the last such character.
unfoldable pub split_last : ℕ → Codes → Option (Codes × Codes)
split_last sep [] = none
split_last sep (c ∷ rest) = or_here sep c rest (split_last sep rest)

abbrev digits_value : ℕ → Codes → Option ℕ
digits_value acc [] = some acc
digits_value acc (c ∷ rest) =
    let value = digits_value (acc * 10 + (c - b'0')) rest in
    if leb b'0' c && leb c b'9' then value else none

abbrev in_u16 : Option ℕ → Option ℕ
in_u16 none = none
in_u16 (some n) = if leb n 65_535 then some n else none

abbrev parse_digits : Codes → Option ℕ
parse_digits [] = none
parse_digits (c ∷ rest) = in_u16 (digits_value 0 (c ∷ rest))

-- `parse::<u16>`, which takes a sign `+`.
unfoldable pub parse_u16 : Codes → Option ℕ
parse_u16 [] = none
parse_u16 (c ∷ rest) = if c == b'+' then parse_digits rest else parse_digits (c ∷ rest)

-- After the bracket: one byte is skipped, and a place inside a character gives nothing.
abbrev port_after_bracket : ℕ → Codes → ℕ
port_after_bracket default_port [] = default_port
port_after_bracket default_port (c ∷ port) =
    if ltb c 128 then get_or (parse_u16 port) default_port else default_port

abbrev bracketed : ℕ → Option (Codes × Codes) → Option (Codes × ℕ)
bracketed default_port none = none
bracketed default_port (some (host, after)) = some (host, port_after_bracket default_port after)

abbrev plain_host : ℕ → Codes → Option (Codes × Codes) → Codes × ℕ
plain_host default_port authority none = (authority, default_port)
plain_host default_port authority (some (host, port)) = (host, get_or (parse_u16 port) default_port)

unfoldable pub host_port : ℕ → Codes → Option (Codes × ℕ)
unfolding parse_u16
host_port default_port [] = some (plain_host default_port [] none)
host_port default_port (c ∷ rest) =
    if c == b'['
    then bracketed default_port (split_first b']' rest)
    else some (plain_host default_port (c ∷ rest) (split_last b':' (c ∷ rest)))

abbrev of_http : Option Codes → Option (Codes × ℕ)
of_http none = none
of_http (some rest) = host_port 80 (authority_of rest)

abbrev of_https : Codes → Option Codes → Option (Codes × ℕ)
of_https url none = of_http (strip_prefix (codes "http://") url)
of_https url (some rest) = host_port 443 (authority_of rest)

unfoldable pub extract_host_port : Codes → Option (Codes × ℕ)
unfolding host_port authority_of
extract_host_port url = of_https url (strip_prefix (codes "https://") url)

pub data SsrfError : Type 0 where
  cannot_parse : Codes → SsrfError
  private_address : IpAddr → SsrfError
  resolves_to_private : Codes → IpAddr → SsrfError

abbrev pub Checked : Type 0
Checked = Result SsrfError (Unit {0})

unfoldable pub check_addresses : Codes → List IpAddr → Checked
check_addresses host [] = ok tt
check_addresses host (ip ∷ rest) =
    let later = check_addresses host rest in
    if is_blocked_ip ip then err (resolves_to_private host ip) else later

module _ {E : Type 0} (parse_ip : Codes → Option IpAddr)
    (lookup_host : Codes × ℕ → Result E (List IpAddr)) where
  unfoldable pub check_resolved : Codes → Result E (List IpAddr) → Checked
  check_resolved host (ok addresses) = check_addresses host addresses
  check_resolved host (err e) = ok tt

  unfoldable pub check_host : Codes × ℕ → Option IpAddr → Checked
  unfolding check_resolved
  check_host (host, port) (some ip) = if is_blocked_ip ip then err (private_address ip) else ok tt
  check_host (host, port) none = check_resolved host (lookup_host (host, port))

  unfoldable pub check_parsed : Codes → Option (Codes × ℕ) → Checked
  unfolding check_host
  check_parsed url none = err (cannot_parse url)
  check_parsed url (some (host, port)) = check_host (host, port) (parse_ip host)

  unfoldable pub check_ssrf_url : Codes → Checked
  unfolding check_parsed extract_host_port
  check_ssrf_url url = check_parsed url (extract_host_port url)

-- A host as a text before the path: neither a bracket, nor a colon, nor the end of the authority.
abbrev pub PlainHost : Codes → Type 0
PlainHost [] = Unit
PlainHost (c ∷ host) = ((ends_authority c || c == b':' || c == b'[') ≡ false) × PlainHost host

abbrev pub starts_path : Codes → Bool
starts_path [] = true
starts_path (c ∷ path) = ends_authority c

authority_of_plain :
    (host path : Codes)
    → PlainHost host
    → starts_path path ≡ true
    → authority_of (host ++ path) ≡ host
unfolding authority_of
authority_of_plain [] [] plain begins = refl
authority_of_plain [] (c ∷ path) plain begins = rw begins refl
authority_of_plain (c ∷ host) path plain begins =
    ground (arith, authority_of_plain host path plain.1 begins)

split_last_plain : (host : Codes) → PlainHost host → split_last b':' host ≡ none
unfolding split_last
split_last_plain [] plain = refl
split_last_plain (c ∷ host) plain = rw (split_last_plain host plain.1) (ground arith)

host_port_plain :
    (port : ℕ) (host : Codes) → PlainHost host → host_port port host ≡ some (host, port)
unfolding host_port
host_port_plain port [] plain = refl
host_port_plain port (c ∷ host) plain = rw (split_last_plain (c ∷ host) plain) (ground arith)

check_addresses_lem :
    (host : Codes) (addresses : List IpAddr)
    → is_ok (check_addresses host addresses) ≡ not (any is_blocked_ip addresses)
unfolding check_addresses
check_addresses_lem host [] = refl
check_addresses_lem host (ip ∷ rest) = ground (arith, check_addresses_lem host rest)

module _ {E : Type 0} (parse_ip : Codes → Option IpAddr)
    (lookup_host : Codes × ℕ → Result E (List IpAddr)) where
  -- What the address of the host, or those that its name has, allow.
  abbrev pub allowed : Option IpAddr → Result E (List IpAddr) → Bool
  allowed (some ip) resolved = not (is_blocked_ip ip)
  allowed none (ok addresses) = not (any is_blocked_ip addresses)
  allowed none (err e) = true

  check_resolved_lem :
      (host : Codes) (resolved : Result E (List IpAddr))
      → is_ok (check_resolved parse_ip lookup_host host resolved) ≡ allowed none resolved
  unfolding check_resolved
  check_resolved_lem host (ok addresses) = check_addresses_lem host addresses
  check_resolved_lem host (err e) = refl

  check_host_lem :
      (host : Codes) (port : ℕ) (ip : Option IpAddr)
      → is_ok (check_host parse_ip lookup_host (host, port) ip)
        ≡ allowed ip (lookup_host (host, port))
  unfolding check_host
  check_host_lem host port (some ip) = ground arith
  check_host_lem host port none = check_resolved_lem host (lookup_host (host, port))

  -- A URL without a port or brackets passes exactly if its host is an address that is not blocked, or
  -- a name none of whose addresses is blocked, or a text that does not resolve. The host ends at the
  -- path, the query or the fragment, and the name is resolved with the port of the scheme.
  pub check_ssrf_url_iff :
      (host path : Codes)
      → PlainHost host
      → starts_path path ≡ true
      → (is_ok (check_ssrf_url parse_ip lookup_host (codes "http://" ++ (host ++ path)))
          ≡ allowed (parse_ip host) (lookup_host (host, 80)))
        × (is_ok (check_ssrf_url parse_ip lookup_host (codes "https://" ++ (host ++ path)))
            ≡ allowed (parse_ip host) (lookup_host (host, 443)))
  unfolding check_ssrf_url extract_host_port strip_prefix check_parsed
  check_ssrf_url_iff host path plain begins =
      rw
        (
          authority_of_plain host path plain begins,
          host_port_plain 80 host plain,
          host_port_plain 443 host plain,
        )
        (check_host_lem host 80 (parse_ip host), check_host_lem host 443 (parse_ip host))
