-- ===== src/ConnTracker/TcpInfo.antt =====
-- unix.TCPInfo, as far as conntracker/conntracker.go reads it, and addTcpInfo.
use deliverator.Base.{ℕ, ◌+◌, ◌%◌, ◌^◌}

-- The counters are uint32 but for the four of bytes, which are uint64. `others` stands for the
-- fields that the program never names.
pub record TcpInfo : Type 0 where
  pub bytes_acked : ℕ
  pub bytes_received : ℕ
  pub bytes_retrans : ℕ
  pub bytes_sent : ℕ
  pub dsack_dups : ℕ
  pub fackets : ℕ
  pub lost : ℕ
  pub rcv_ooopack : ℕ
  pub reord_seen : ℕ
  pub retrans : ℕ
  pub sacked : ℕ
  pub total_retrans : ℕ
  pub rtt : ℕ
  pub others : ℕ

-- &unix.TCPInfo{}
abbrev pub empty : TcpInfo
empty = record {
  bytes_acked = 0;
  bytes_received = 0;
  bytes_retrans = 0;
  bytes_sent = 0;
  dsack_dups = 0;
  fackets = 0;
  lost = 0;
  rcv_ooopack = 0;
  reord_seen = 0;
  retrans = 0;
  sacked = 0;
  total_retrans = 0;
  rtt = 0;
  others = 0;
}

-- addTcpInfo: a copy of a with b's counters added.
unfoldable pub add_tcp_info : TcpInfo → TcpInfo → TcpInfo
add_tcp_info a b = record a {
  bytes_acked = (a.bytes_acked + b.bytes_acked) % 2 ^ 64;
  bytes_received = (a.bytes_received + b.bytes_received) % 2 ^ 64;
  bytes_retrans = (a.bytes_retrans + b.bytes_retrans) % 2 ^ 64;
  bytes_sent = (a.bytes_sent + b.bytes_sent) % 2 ^ 64;
  dsack_dups = (a.dsack_dups + b.dsack_dups) % 2 ^ 32;
  fackets = (a.fackets + b.fackets) % 2 ^ 32;
  lost = (a.lost + b.lost) % 2 ^ 32;
  rcv_ooopack = (a.rcv_ooopack + b.rcv_ooopack) % 2 ^ 32;
  reord_seen = (a.reord_seen + b.reord_seen) % 2 ^ 32;
  retrans = (a.retrans + b.retrans) % 2 ^ 32;
  sacked = (a.sacked + b.sacked) % 2 ^ 32;
  total_retrans = (a.total_retrans + b.total_retrans) % 2 ^ 32;
}
