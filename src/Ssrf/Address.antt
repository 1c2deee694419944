-- ===== src/Ssrf/Address.antt =====
-- `is_blocked_ip` of crates/adaclaw-security/src/ssrf.rs, with the methods of the standard library's
-- addresses that it calls. An IPv4 address is its octets, an IPv6 address its segments.
use Prim.Native.Nat.{bit_and}
use ada_claw.Prelude.{
  ℕ, ◌+◌, ◌*◌, ◌/◌, ◌^◌, ◌-◌, ◌<◌, ◌≡◌, refl, Bool, true, false, ◌&&◌, ◌||◌, List, [], ◌∷◌, any,
  leb, below_passes, below_passes_lem, bool_eq, ◌==◌, arith,
}

pub record Ipv4 : Type 0 where
  pub a : ℕ
  pub b : ℕ
  pub c : ℕ
  pub d : ℕ

pub record Ipv6 : Type 0 where
  pub s0 : ℕ
  pub s1 : ℕ
  pub s2 : ℕ
  pub s3 : ℕ
  pub s4 : ℕ
  pub s5 : ℕ
  pub s6 : ℕ
  pub s7 : ℕ

pub data IpAddr : Type 0 where
  v4 : Ipv4 → IpAddr
  v6 : Ipv6 → IpAddr

abbrev pub is_loopback_v4 : Ipv4 → Bool
is_loopback_v4 ip = ip.a == 127

abbrev pub is_private : Ipv4 → Bool
is_private ip =
    ip.a == 10 || ip.a == 172 && leb 16 ip.b && leb ip.b 31 || ip.a == 192 && ip.b == 168

abbrev pub is_link_local : Ipv4 → Bool
is_link_local ip = ip.a == 169 && ip.b == 254

abbrev pub all_octets : ℕ → Ipv4 → Bool
all_octets n ip = ip.a == n && ip.b == n && ip.c == n && ip.d == n

unfoldable pub is_cgnat_v4 : Ipv4 → Bool
is_cgnat_v4 ip = ip.a == 100 && (leb 64 ip.b && leb ip.b 127)

-- All segments but the last are 0, and the last is this one.
abbrev pub only_last : ℕ → Ipv6 → Bool
only_last n ip =
    ip.s0 == 0
    && ip.s1 == 0
    && ip.s2 == 0
    && ip.s3 == 0
    && ip.s4 == 0
    && ip.s5 == 0
    && ip.s6 == 0
    && ip.s7 == n

unfoldable pub is_blocked_ip : IpAddr → Bool
unfolding is_cgnat_v4
is_blocked_ip (v4 ip) =
    is_loopback_v4 ip
    || is_private ip
    || is_link_local ip
    || is_cgnat_v4 ip
    || all_octets 0 ip
    || all_octets 255 ip
is_blocked_ip (v6 ip) = only_last 1 ip || only_last 0 ip || bit_and ip.s0 0xffc0 == 0xfe80

-- An address as a number, and whether it lies in the network of that number and prefix length.
abbrev pub number : Ipv4 → ℕ
number ip = ((ip.a * 256 + ip.b) * 256 + ip.c) * 256 + ip.d

abbrev pub in_network : ℕ → ℕ × ℕ → Bool
in_network address (network, bits) = address / 2 ^ (32 - bits) == network / 2 ^ (32 - bits)

-- The networks of the module's table, and the broadcast address.
abbrev pub blocked_networks : List (ℕ × ℕ)
blocked_networks =
    (0x7f000000, 8)
    ∷ (0x0a000000, 8)
    ∷ (0xac100000, 12)
    ∷ (0xc0a80000, 16)
    ∷ (0xa9fe0000, 16)
    ∷ (0x64400000, 10)
    ∷ (0, 32)
    ∷ (0xffffffff, 32)
    ∷ []

pub record IsAddress (ip : Ipv4) : Type 0 where
  pub a_byte : ip.a < 256
  pub b_byte : ip.b < 256
  pub c_byte : ip.c < 256
  pub d_byte : ip.d < 256

regroup :
    (x p q r l c z o : Bool)
    → (x || (p || q || r) || l || c || z || o)
      ≡ (x || (p || (q || (r || (l || (c || (z || (o || false))))))))
regroup true p q r l c z o = refl
regroup false true q r l c z o = refl
regroup false false true r l c z o = refl
regroup false false false true l c z o = refl
regroup false false false false true c z o = refl
regroup false false false false false true z o = refl
regroup false false false false false false true o = refl
regroup false false false false false false false true = refl
regroup false false false false false false false false = refl

-- An IPv4 address is blocked exactly if it lies in one of the blocked networks: 127.0.0.0/8,
-- 10.0.0.0/8, 172.16.0.0/12, 192.168.0.0/16, 169.254.0.0/16, 100.64.0.0/10, 0.0.0.0/32 and
-- 255.255.255.255/32.
pub is_blocked_ip-networks :
    (ip : Ipv4)
    → IsAddress ip
    → is_blocked_ip (v4 ip) ≡ any (in_network (number ip)) blocked_networks
unfolding is_blocked_ip
is_blocked_ip-networks ip valid =
    let p = valid.a_byte in
    let q = valid.b_byte in
    let r = valid.c_byte in
    let t = valid.d_byte in
    let by_8 : number ip / 16_777_216 ≡ ip.a = omega arith in
    let by_16 : number ip / 65_536 ≡ ip.a * 256 + ip.b = omega arith in
    let by_12 : number ip / 1_048_576 ≡ ip.a * 16 + ip.b / 16 = omega arith in
    let by_10 : number ip / 4_194_304 ≡ ip.a * 4 + ip.b / 64 = omega arith in
    let by_32 : number ip / 1 ≡ number ip = omega arith in
    let private_12 : (number ip / 1_048_576 == 2_753)
        ≡ (ip.a == 172 && leb 16 ip.b && leb ip.b 31) =
      ground arith in
    let private_16 : (number ip / 65_536 == 49_320) ≡ (ip.a == 192 && ip.b == 168) = ground arith in
    let local : (number ip / 65_536 == 43_518) ≡ is_link_local ip = ground arith in
    let cgnat : (number ip / 4_194_304 == 401) ≡ (ip.a == 100 && (leb 64 ip.b && leb ip.b 127)) =
      ground arith in
    let zero : (number ip / 1 == 0) ≡ all_octets 0 ip = ground arith in
    let ones : (number ip / 1 == 4_294_967_295) ≡ all_octets 255 ip = ground arith in
    rw (by_8, private_12, private_16, local, cgnat, zero, ones)
      (regroup (ip.a == 127) (ip.a == 10) (ip.a == 172 && leb 16 ip.b && leb ip.b 31)
        (ip.a == 192 && ip.b == 168) (is_link_local ip) (is_cgnat_v4 ip) (all_octets 0 ip)
        (all_octets 255 ip))

-- The IPv6 address that stands for an IPv4 address, `::ffff:a.b.c.d`.
abbrev pub mapped : Ipv4 → Ipv6
mapped ip = record {
  s0 = 0;
  s1 = 0;
  s2 = 0;
  s3 = 0;
  s4 = 0;
  s5 = 0xffff;
  s6 = ip.a * 256 + ip.b;
  s7 = ip.c * 256 + ip.d;
}

link_local_table :
    below_passes (λ s. bool_eq (bit_and s 0xffc0 == 0xfe80) (s / 64 == 0x3fa)) 65_536 ≡ true
unfolding below_passes
link_local_table = refl

link_local_lem : (s : ℕ) → s < 65_536 → (bit_and s 0xffc0 == 0xfe80) ≡ (s / 64 == 0x3fa)
link_local_lem s small =
    let cell =
      below_passes_lem (λ s. bool_eq (bit_and s 0xffc0 == 0xfe80) (s / 64 == 0x3fa)) 65_536 s
        link_local_table small in
    ground arith

-- An IPv6 address is blocked exactly if it is ::1 or :: or lies in fe80::/10. So no unique local
-- address (fc00::/7) is blocked, and no IPv4 address in its mapped form, whichever network it is of.
pub is_blocked_ip-v6 :
    (ip local : Ipv6) (mapped_ip : Ipv4)
    → ip.s0 < 65_536
    → local.s0 / 512 ≡ 0x7e
    → (is_blocked_ip (v6 ip) ≡ (only_last 1 ip || only_last 0 ip || ip.s0 / 64 == 0x3fa))
      × (is_blocked_ip (v6 local) ≡ false)
      × (is_blocked_ip (v6 (mapped mapped_ip)) ≡ false)
unfolding is_blocked_ip
is_blocked_ip-v6 ip local mapped_ip small unique = (
  rw (link_local_lem ip.s0 small) refl,
  rw (link_local_lem local.s0 (omega arith)) (ground arith),
  refl,
)
