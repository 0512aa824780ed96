-- ===== src/Sockets/TcpInfo.antt =====
-- `getTcpInfo` of net/Sockets.cpp, which prints twelve numbers into 128 bytes.
use cpp_practise.Base.{
  codes, ℕ, ◌+◌, ◌≤◌, ◌<◌, List, [], ◌∷◌, ◌++◌, Option, none, some, ◌≡◌, refl, arith, length,
  length-append, take, length-take, take_of_ge,
}

-- The fields of `tcp_info` that are printed, in order.
pub record TcpInfo : Type 0 where
  pub retransmits : ℕ
  pub rto : ℕ
  pub ato : ℕ
  pub snd_mss : ℕ
  pub rcv_mss : ℕ
  pub lost : ℕ
  pub retrans : ℕ
  pub rtt : ℕ
  pub rttvar : ℕ
  pub snd_ssthresh : ℕ
  pub snd_cwnd : ℕ
  pub total_retrans : ℕ

-- The pieces of the format, each with the number that "%u" prints behind it.
abbrev pub pieces : TcpInfo → List (List ℕ × ℕ)
pieces t =
    (codes "unrecovered=", t.retransmits)
    ∷ (codes ", rto=", t.rto)
    ∷ (codes ", ato=", t.ato)
    ∷ (codes ", snd_mss=", t.snd_mss)
    ∷ (codes ", rcv_mss=", t.rcv_mss)
    ∷ (codes ", lost=", t.lost)
    ∷ (codes ", retans=", t.retrans)
    ∷ (codes ", rtt=", t.rtt)
    ∷ (codes ", rttvar=", t.rttvar)
    ∷ (codes ", sshthresh=", t.snd_ssthresh)
    ∷ (codes ", cwnd=", t.snd_cwnd)
    ∷ (codes ", total_retrans=", t.total_retrans)
    ∷ []

-- The bytes of the names.
abbrev names : List (List ℕ × ℕ) → ℕ
names [] = 0
names ((name, n) ∷ ps) = length name + names ps

-- `print_unsigned` is the "%u" of `snprintf`.
module _ (print_unsigned : ℕ → List ℕ) where
  unfoldable pub printed : List (List ℕ × ℕ) → List ℕ
  printed [] = []
  printed ((name, n) ∷ ps) = name ++ (print_unsigned n ++ printed ps)

  -- `getTcpInfo`: `none` stands for a failure of `getsockopt`.
  unfoldable pub get_tcp_info : Option TcpInfo → List ℕ
  unfolding printed
  get_tcp_info none = []
  get_tcp_info (some t) = take 127 (printed (pieces t))

  -- The digits of the numbers.
  abbrev pub digits : List (List ℕ × ℕ) → ℕ
  digits [] = 0
  digits ((name, n) ∷ ps) = length (print_unsigned n) + digits ps

  length-printed : (ps : List (List ℕ × ℕ)) → length (printed ps) ≡ names ps + digits ps
  unfolding printed
  length-printed [] = refl
  length-printed ((name, n) ∷ ps) = omega (
    arith,
    length-append name (print_unsigned n ++ printed ps),
    length-append (print_unsigned n) (printed ps),
    length-printed ps,
  )

  -- The names take 110 bytes, so that all is printed if the numbers have 17 digits together at most. With
  -- more the result is its first 127 bytes, and its end is lost; nothing is returned if the call fails.
  pub get_tcp_info_lem :
      (t : TcpInfo)
      → (digits (pieces t) ≤ 17 → get_tcp_info (some t) ≡ printed (pieces t))
        × (17 < digits (pieces t)
            → (length (get_tcp_info (some t)) ≡ 127) × (127 < length (printed (pieces t))))
        × (length (get_tcp_info (some t)) ≤ 127)
        × (get_tcp_info none ≡ [])
  unfolding get_tcp_info
  get_tcp_info_lem t =
      let size = length-printed (pieces t) in
      let cut = length-take 127 (printed (pieces t)) in
      (
        λ few. take_of_ge 127 (printed (pieces t)) (omega (arith, size)),
        λ many. (omega (arith, size, cut), omega (arith, size)),
        omega (arith, cut),
        refl,
      )
