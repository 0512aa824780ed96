-- ===== src/InetAddress/Tests.antt =====
-- A network whose texts are the numbers themselves, most significant part first.
use cpp_practise.Base.{
  ℕ, ◌+◌, ◌*◌, ◌/◌, ◌%◌, ◌^◌, ◌≤◌, ◌<◌, List, [], ◌∷◌, ◌++◌, Option, some, none, ◌≡◌, refl, arith,
  length, true,
}
use cpp_practise.InetAddress.{
  Network, InetAddress, IsValid, af_inet, of_ip, equals, ip, port, ip_port, of_ip_lem,
}

abbrev swap_bytes : ℕ → ℕ
swap_bytes p = p % 256 * 256 + p / 256

swap_twice : (p : ℕ) → p < 2 ^ 16 → swap_bytes (swap_bytes p) ≡ p
swap_twice p h = omega arith

abbrev read_address : List ℕ → Option ℕ
read_address (a ∷ []) = some a
read_address _ = none

one_character : (a : ℕ) → a < 2 ^ 32 → length (a ∷ []) ≤ 15
one_character a h = omega arith

one_digit : (p : ℕ) → p < 2 ^ 16 → length (p ∷ []) ≤ 5
one_digit p h = omega arith

read_back : (a : ℕ) → a < 2 ^ 32 → read_address (a ∷ []) ≡ some a
read_back a h = refl

abbrev network : Network
network = record {
  htons = swap_bytes;
  ntohs = swap_bytes;
  inet_pton = read_address;
  inet_ntop = λ a. a ∷ [];
  print_unsigned = λ p. p ∷ [];
  ntohs-htons = swap_twice;
  htons-ntohs = swap_twice;
  inet_pton-inet_ntop = read_back;
  length-inet_ntop = one_character;
  length-print_unsigned = one_digit;
}

abbrev local : InetAddress
local = record { family = af_inet; port_field = 0x5000; addr = 0x0100007F }

local-IsValid : IsValid local
local-IsValid = record { family = refl; port_field = omega arith; addr = omega arith }

of_ip_lem_example :
    (b : InetAddress) × (of_ip network (ip network local) (port network local) ≡ some b)
    × (equals b local ≡ true)
    × (ip_port network local ≡ ip network local ++ b':' ∷ network.print_unsigned 80)
of_ip_lem_example = of_ip_lem network local local-IsValid (omega arith)
