-- ===== src/Ssrf/Examples.antt =====
-- Runs of the check, and the theorems about it at concrete inputs.
use ada_claw.Prelude.{
  ℕ, ◌≡◌, refl, false, Option, none, some, List, [], ◌∷◌, ◌++◌, Result, ok, is_ok, any, ◌||◌, ◌/◌,
  ◌==◌, arith, codes, Codes, codes_eq, strip_prefix, if◌then◌else◌,
}
use ada_claw.Ssrf.Address.{
  Ipv4, IpAddr, v4, v6, is_blocked_ip, is_blocked_ip-networks, number, in_network, blocked_networks,
  mapped, is_blocked_ip-v6, Ipv6, only_last,
}
use ada_claw.Ssrf.Check.{
  check_ssrf_url, check_ssrf_url_iff, extract_host_port, allowed, split_first, split_last,
}

abbrev loopback : Ipv4
loopback = record { a = 127; b = 0; c = 0; d = 1 }

-- Knows one address.
abbrev parse_ip : Codes → Option IpAddr
parse_ip host = if codes_eq host (codes "127.0.0.1") then some (v4 loopback) else none

-- Every name is an alias of this machine.
abbrev lookup_host : Codes × ℕ → Result (Unit {0}) (List IpAddr)
lookup_host asked = ok (v4 loopback ∷ [])

hosts :
    (extract_host_port (codes "https://example.com:8443/a:b") ≡ some (codes "example.com", 8_443))
    × (extract_host_port (codes "http://[::1]:80/") ≡ some (codes "::1", 80))
    × (extract_host_port (codes "http://a.b:99999") ≡ some (codes "a.b", 80))
    × (extract_host_port (codes "ftp://a.b") ≡ none)
unfolding extract_host_port strip_prefix split_last split_first
hosts = (refl, refl, refl, refl)

is_blocked_ip-networks_example :
    is_blocked_ip (v4 loopback) ≡ any (in_network (number loopback)) blocked_networks
is_blocked_ip-networks_example = is_blocked_ip-networks loopback (record {
  a_byte = omega arith;
  b_byte = omega arith;
  c_byte = omega arith;
  d_byte = omega arith;
})

abbrev link_local : Ipv6
link_local = record { s0 = 0xfe80; s1 = 0; s2 = 0; s3 = 0; s4 = 0; s5 = 0; s6 = 0; s7 = 1 }

abbrev unique_local : Ipv6
unique_local = record { s0 = 0xfd00; s1 = 0; s2 = 0; s3 = 0; s4 = 0; s5 = 0; s6 = 0; s7 = 1 }

is_blocked_ip-v6_example :
    (is_blocked_ip (v6 link_local)
      ≡ (only_last 1 link_local || only_last 0 link_local || link_local.s0 / 64 == 0x3fa))
    × (is_blocked_ip (v6 unique_local) ≡ false)
    × (is_blocked_ip (v6 (mapped loopback)) ≡ false)
is_blocked_ip-v6_example = is_blocked_ip-v6 link_local unique_local loopback (omega arith) refl

check_ssrf_url_iff_example :
    (is_ok
        (check_ssrf_url parse_ip lookup_host (codes "http://" ++ (codes "127.0.0.1" ++ codes "/x")))
      ≡ allowed parse_ip lookup_host
          (parse_ip (codes "127.0.0.1"))
          (lookup_host (codes "127.0.0.1", 80)))
    × (is_ok (
          check_ssrf_url parse_ip lookup_host
            (codes "https://" ++ (codes "127.0.0.1" ++ codes "/x")))
        ≡ allowed parse_ip lookup_host
            (parse_ip (codes "127.0.0.1"))
            (lookup_host (codes "127.0.0.1", 443)))
check_ssrf_url_iff_example =
    check_ssrf_url_iff parse_ip lookup_host (codes "127.0.0.1") (codes "/x")
      (refl, (refl, (refl, (refl, (refl, (refl, (refl, (refl, (refl, tt))))))))) refl
