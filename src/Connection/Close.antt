-- ===== src/Connection/Close.antt =====
-- `tju_close` of tju_tcp.c, and `tju_close_thread` of timer.c, which calls it.
-- The call is cut where it waits, like `tju_connect`. `free(sock)` and `close_log` at its end are not
-- modelled.
pub mod FourWay
use tju_tcp.Common.{
  ℕ, ◌-◌, Bool, true, false, Option, none, some, List, [], ◌∷◌, Memory, leb, if◌then◌else◌,
}
use tju_tcp.Global.{State, closed, established, fin_wait_1, last_ack, fin_seq, Sock}
use tju_tcp.Packet.{fin_flag_mask}
use tju_tcp.Kernel.{put_at}
use tju_tcp.Syn.{hash_of}
use tju_tcp.Handle.{control_packet}
use tju_tcp.Connection.{Process, put_sock}

abbrev pub first_fin : Memory → Sock → Memory
first_fin heap s =
    control_packet heap s.established_local_addr.port s.established_remote_addr.port fin_seq 0
      fin_flag_mask 1

-- The socket after the FIN of the side that closes first.
abbrev pub closing_sock : Memory → Sock → Sock
closing_sock heap s = record s { packet_fin = some (first_fin heap s); state = fin_wait_1 }

abbrev pub close_from : State → Memory → Process → ℕ → Option (Process × List Memory)
close_from established heap p i =
    some (put_sock p i (closing_sock heap (p.socks i)), first_fin heap (p.socks i) ∷ [])
close_from last_ack heap p i = some (p, [])
close_from _ heap p i = none

-- `tju_close` before it waits, with what it sends; `none`: the program exits.
unfoldable pub close_begin : Memory → Process → ℕ → Option (Process × List Memory)
close_begin heap p i = close_from (p.socks i).state heap p i

abbrev pub is_closed : State → Bool
is_closed closed = true
is_closed _ = false

-- A round of its waiting loop. `none`: the loop is over; otherwise the new `time_point`, and the pointer
-- to the FIN that is sent again.
unfoldable pub close_wait_round : Process → ℕ → ℕ → ℕ → Option (ℕ × List (Option Memory))
close_wait_round p i clock time_point =
    if is_closed (p.socks i).state
    then none
    else (if leb 8000000 (clock - time_point)
        then some (clock, (p.socks i).packet_fin ∷ [])
        else some (time_point, []))

-- `tju_close` behind the loop.
unfoldable pub close_end : Process → ℕ → Process
close_end p i =
    let s = p.socks i in
    record p {
      tables = record p.tables {
        established_socks =
            put_at p.tables.established_socks
              (hash_of s.established_local_addr s.established_remote_addr) none;
      };
    }
