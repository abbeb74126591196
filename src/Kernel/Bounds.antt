-- ===== src/Kernel/Bounds.antt =====
-- Where `cal_hash` points, and which socket `onTCPPocket` therefore chooses.
use tju_tcp.Common.{ℕ, ◌+◌, ◌%◌, ◌^◌, ◌<◌, ◌≡◌, ◌≢◌, some, arith, Memory, ℤ, pos, negsuc}
use tju_tcp.Packet.{get_src, get_dst}
use tju_tcp.Kernel.{
  max_sock, server_ip, client_ip, cal_hash, put_at, Tables, handled_by, on_tcp_pocket,
}

-- The index of a cell of the table.
abbrev pub InTable : ℤ → Type 0
InTable (pos k) = k < max_sock
InTable (negsuc k) = ⊥

-- A negative index that is no more than a table's size below the first cell.
abbrev pub IsBelow : ℤ → Type 0
IsBelow (pos k) = ⊥
IsBelow (negsuc k) = k < max_sock

-- The hash of a connection between the two hosts is an index of the table for all ports, and both
-- ends compute the same one.
pub cal_hash-InTable :
    (p q : ℕ)
    → p < 2 ^ 16
    → q < 2 ^ 16
    → InTable (cal_hash server_ip p client_ip q)
      × (cal_hash client_ip q server_ip p ≡ cal_hash server_ip p client_ip q)
unfolding cal_hash
cal_hash-InTable p q hp hq = ground arith

-- The index under which the server listens is negative, an access below the first cell of the table, for every
-- port but those with (port + 3) % 32 = 0.
pub cal_hash-IsBelow :
    (port : ℕ) → port < 2 ^ 16 → (port + 3) % 32 ≢ 0 → IsBelow (cal_hash server_ip port 0 0)
unfolding cal_hash
cal_hash-IsBelow port h ne = ground arith

-- A registered connection gets the packets of every connection whose ports have the same sum modulo
-- 32, whether they are its own or not; the tables are not asked whose they are.
pub on_tcp_pocket-handled_by :
    (t : Tables) (p q sock : ℕ) (pkt : Memory)
    → p < 2 ^ 16
    → q < 2 ^ 16
    → get_dst pkt < 2 ^ 16
    → get_src pkt < 2 ^ 16
    → (get_dst pkt + get_src pkt) % 32 ≡ (p + q) % 32
    → on_tcp_pocket
        (record t {
          established_socks =
              put_at t.established_socks (cal_hash server_ip p client_ip q) (some sock);
        })
        server_ip
        client_ip
        pkt
      ≡ handled_by sock
unfolding cal_hash on_tcp_pocket
on_tcp_pocket-handled_by t p q sock pkt hp hq hd hs e = ground arith
