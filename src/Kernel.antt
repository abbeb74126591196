-- ===== src/Kernel.antt =====
-- kernel.c: the datagrams below, the hash of a connection, and the dispatch of a packet.
pub mod Bounds
pub mod Delivery
pub mod Start
mod Tests
use tju_tcp.Common.{
  ℕ, zero, suc, ◌+◌, ◌-◌, ◌^◌, Bool, Option, none, some, List, [], ◌∷◌, ◌++◌, Memory, length, take,
  slice, of_list, ℤ, eq_ℤ, rem32, u32, ltb, leb, if◌then◌else◌,
}
use tju_tcp.Global.{max_len}
use tju_tcp.Packet.{default_header_len, get_src, get_dst, get_plen}

abbrev pub max_sock : ℕ
max_sock = 32

-- `inet_network(SERVER_IP)` and `inet_network(CLIENT_IP)`: 172.17.0.3 and 172.17.0.2.
abbrev pub server_ip : ℕ
server_ip = 0xac11_0003

abbrev pub client_ip : ℕ
client_ip = 0xac11_0002

-- What `gethostname` gives.
pub data Host : Type 0 where
  server client other : Host

pub record Datagram : Type 0 where
  pub target : ℕ
  pub bytes : List ℕ

-- The datagrams that `sendto` is given; `none` is exit(-1).
unfoldable pub send_to_layer3 : Host → Memory → ℕ → Option (List Datagram)
send_to_layer3 host packet_buf packet_len = if ltb max_len packet_len then some [] else (elim host [
  | server ↦ some (record { target = client_ip; bytes = slice packet_buf 0 packet_len } ∷ [])
  | client ↦ some (record { target = server_ip; bytes = slice packet_buf 0 packet_len } ∷ [])
  | other ↦ none
])

-- The sum of four `int`s, which wraps on overflow as the compiler of the Makefile has it.
unfoldable pub cal_hash : ℕ → ℕ → ℕ → ℕ → ℤ
cal_hash local_ip local_port remote_ip remote_port =
    rem32 (u32 (local_ip + local_port + remote_ip + remote_port)) max_sock

-- The two tables of pointers to sockets. An index is the `int` that `cal_hash` gives; the arrays
-- have the cells from 0 to 31, and any other stands for the memory that such an index reaches.
pub record Tables : Type 0 where
  pub listen_socks : ℤ → Option ℕ
  pub established_socks : ℤ → Option ℕ

abbrev pub put_at : {A : Type 0} → (ℤ → A) → ℤ → A → ℤ → A
put_at f i a j = if eq_ℤ i j then a else f j

unfoldable pub empty_tables : Tables
empty_tables = record { listen_socks = λ _. none; established_socks = λ _. none }

-- The addresses that `onTCPPocket` derives from the host name; `none`: they stay uninitialised.
abbrev pub local_and_remote : Host → Option (ℕ × ℕ)
local_and_remote server = some (server_ip, client_ip)
local_and_remote client = some (client_ip, server_ip)
local_and_remote other = none

-- What `onTCPPocket` does with a packet.
pub data Dispatch : Type 0 where
  handled_by : ℕ → Dispatch
  discarded : Dispatch

abbrev dispatch_listen : Option ℕ → Dispatch
dispatch_listen (some sock) = handled_by sock
dispatch_listen none = discarded

abbrev dispatch_with : Option ℕ → Option ℕ → Dispatch
dispatch_with (some sock) _ = handled_by sock
dispatch_with none l = dispatch_listen l

unfoldable pub on_tcp_pocket : Tables → ℕ → ℕ → Memory → Dispatch
on_tcp_pocket t local_ip remote_ip pkt =
    let remote_port = get_src pkt in
    let local_port = get_dst pkt in
    dispatch_with (t.established_socks (cal_hash local_ip local_port remote_ip remote_port))
      (t.listen_socks (cal_hash local_ip local_port 0 0))

-- The inner loop of `receive_thread`: datagrams are taken until `plen` bytes are there, the rest of
-- the last one is lost. `none`: `recvfrom` blocks for want of a datagram.
unfoldable pub receive_bytes : ℕ → List ℕ → List (List ℕ) → Option (List ℕ × List (List ℕ))
receive_bytes plen got [] = if ltb (length got) plen then none else some (got, [])
receive_bytes plen got (d ∷ q) =
    let more = receive_bytes plen (got ++ take (plen - length got) d) q in
    if ltb (length got) plen then more else some (got, d ∷ q)

abbrev deliver : Option (List ℕ × List (List ℕ)) → Option (Option (List ℕ) × List (List ℕ))
deliver none = none
deliver (some (pkt, q)) = some (some pkt, q)

-- One round of `receive_thread`: the packet that goes to `onTCPPocket`, if there is one, and the
-- datagrams left. `MSG_PEEK` leaves the first datagram in place.
unfoldable pub receive_round : Memory → List (List ℕ) → Option (Option (List ℕ) × List (List ℕ))
unfolding receive_bytes
receive_round heap [] = none
receive_round heap (d ∷ q) =
    if leb default_header_len (length d)
    then deliver (receive_bytes (get_plen (of_list d heap)) [] (d ∷ q))
    else some (none, d ∷ q)

-- The packets that `receive_thread` hands on in its first `n` rounds.
unfoldable pub receive_thread : ℕ → Memory → List (List ℕ) → List (List ℕ)
receive_thread zero heap q = []
receive_thread (suc n) heap q = elim (receive_round heap q) [
  | none ↦ []
  | some (none, q') ↦ receive_thread n heap q'
  | some (some pkt, q') ↦ pkt ∷ receive_thread n heap q'
]
