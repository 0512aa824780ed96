-- ===== src/Sockets/Tests.antt =====
-- A socket with descriptor 5.
use cpp_practise.Base.{
  codes, ℕ, ◌≤◌, ◌<◌, ◌==◌, if◌then◌else◌, Bool, true, List, [], ◌∷◌, length, none, some, ◌≡◌, refl,
}
use cpp_practise.Logging.{info}
use cpp_practise.Sockets.{Sockets, destroy, move, aborts}
use cpp_practise.Sockets.TcpInfo.{TcpInfo, pieces, digits, printed, get_tcp_info, get_tcp_info_lem}

abbrev socket : Sockets
socket = record { fd = some 5 }

abbrev all_close : ℕ → Bool
all_close fd = true

moved_ends : destroy info all_close (move socket).1 ≡ aborts
unfolding destroy
moved_ends = refl

-- Numbers of one digit each, but for a threshold of ten digits.
abbrev print : ℕ → List ℕ
print n = if n == 0 then b'0' ∷ [] else codes "2147483647"

abbrev info_now : TcpInfo
info_now = record {
  retransmits = 0;
  rto = 0;
  ato = 0;
  snd_mss = 0;
  rcv_mss = 0;
  lost = 0;
  retrans = 0;
  rtt = 0;
  rttvar = 0;
  snd_ssthresh = 2147483647;
  snd_cwnd = 0;
  total_retrans = 0;
}

get_tcp_info_lem_example :
    (digits print (pieces info_now) ≤ 17
      → get_tcp_info print (some info_now) ≡ printed print (pieces info_now))
    × (17 < digits print (pieces info_now)
        → (length (get_tcp_info print (some info_now)) ≡ 127)
          × (127 < length (printed print (pieces info_now))))
    × (length (get_tcp_info print (some info_now)) ≤ 127)
    × (get_tcp_info print none ≡ [])
get_tcp_info_lem_example = get_tcp_info_lem print info_now
