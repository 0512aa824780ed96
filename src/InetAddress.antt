-- ===== src/InetAddress.antt =====
-- net/INetAddress.h and net/INetAddress.cpp: an IPv4 address with its port.
mod Tests
use mathlib.Core.Option
use cpp_practise.Base.{
  ℕ, ◌+◌, ◌^◌, ◌≤◌, ◌<◌, Bool, true, false, ◌&&◌, List, [], ◌∷◌, ◌++◌, Option, none, some, ◌≡◌,
  refl, ap, sym, ◌∙◌, ◌==◌, ==_iff, if◌then◌else◌, length, take, take_of_ge, arith, ◌↔◌,
}

-- What the constructors and accessors call of the system: the byte order of the network, the text of an address,
-- and "%u" for a port.
pub record Network : Type 0 where
  pub htons : ℕ → ℕ
  pub ntohs : ℕ → ℕ
  pub inet_pton : List ℕ → Option ℕ
  pub inet_ntop : ℕ → List ℕ
  pub print_unsigned : ℕ → List ℕ
  pub ntohs-htons : (p : ℕ) → p < 2 ^ 16 → ntohs (htons p) ≡ p
  pub htons-ntohs : (p : ℕ) → p < 2 ^ 16 → htons (ntohs p) ≡ p
  pub inet_pton-inet_ntop : (a : ℕ) → a < 2 ^ 32 → inet_pton (inet_ntop a) ≡ some a
  pub length-inet_ntop : (a : ℕ) → a < 2 ^ 32 → length (inet_ntop a) ≤ 15
  pub length-print_unsigned : (p : ℕ) → p < 2 ^ 16 → length (print_unsigned p) ≤ 5

-- `AF_INET`
abbrev pub af_inet : ℕ
af_inet = 2

-- `sockaddr_in`: port and address are in the byte order of the network.
pub record InetAddress : Type 0 where
  pub family : ℕ
  pub port_field : ℕ
  pub addr : ℕ

module _ (net : Network) where
  -- The constructors. `none`: `inet_pton` does not read the text, and the assertion fails.
  unfoldable pub of_ip : List ℕ → ℕ → Option InetAddress
  of_ip ip port =
      Option.map (λ a. record { family = af_inet; port_field = net.htons port; addr = a })
        (net.inet_pton ip)

  unfoldable pub of_port : ℕ → InetAddress
  of_port port = record { family = af_inet; port_field = net.htons port; addr = 0 }

  -- `ip`, `port` and `ipPort`; `snprintf` writes at most 15 bytes and a NUL.
  abbrev pub ip : InetAddress → List ℕ
  ip a = take 63 (net.inet_ntop a.addr)

  abbrev pub port : InetAddress → ℕ
  port a = net.ntohs a.port_field

  unfoldable pub ip_port : InetAddress → List ℕ
  ip_port a = ip a ++ take 15 (b':' ∷ net.print_unsigned (port a))

-- `operator==`
unfoldable pub equals : InetAddress → InetAddress → Bool
equals a b =
    if (a.family == b.family) && (a.family == af_inet)
    then (a.port_field == b.port_field) && (a.addr == b.addr)
    else false

-- The fields hold numbers of their widths.
pub record IsValid (a : InetAddress) : Type 0 where
  pub family : a.family ≡ af_inet
  pub port_field : a.port_field < 2 ^ 16
  pub addr : a.addr < 2 ^ 32

-- `==` on IPv4 addresses tells whether all fields agree.
pub equals_iff : (a b : InetAddress) → IsValid a → IsValid b → (equals a b ≡ true) ↔ (a ≡ b)
unfolding equals
equals_iff a b v w = ground arith

module _ (net : Network) where
  -- A valid address whose port is in range in either byte order: the text of its address and its port make an
  -- address that `==` takes for the same, and `ipPort` is that text, a colon and the port's digits, nothing cut off.
  pub of_ip_lem :
      (a : InetAddress)
      → IsValid a
      → port net a < 2 ^ 16
      → (b : InetAddress) × (of_ip net (ip net a) (port net a) ≡ some b)
        × (equals b a ≡ true)
        × (ip_port net a ≡ ip net a ++ b':' ∷ net.print_unsigned (port net a))
  unfolding of_ip ip_port
  of_ip_lem a v h =
      let short = net.length-inet_ntop a.addr v.addr in
      let whole : ip net a ≡ net.inet_ntop a.addr =
        take_of_ge 63 (net.inet_ntop a.addr) (omega (arith, short)) in
      (
        a,
        rw (whole, net.inet_pton-inet_ntop a.addr v.addr, net.htons-ntohs a.port_field v.port_field)
            (ap (λ f. some (record a { family = f })) (sym v.family)),
        (equals_iff a a v v).1 refl,
        ap (λ t. ip net a ++ t)
            (take_of_ge 15 (b':' ∷ net.print_unsigned (port net a))
              (omega (arith, net.length-print_unsigned (port net a) h))),
      )
