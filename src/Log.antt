-- ===== src/Log.antt =====
-- The event log: log.c, and the macros of log.h that print an event.
-- A format string is the list of its pieces, a number for each `%d` and `%ld`. What one `fprintf`
-- writes is one text; a file is the list of the texts written to it. The line of `_RTTS_LOG_`, which
-- prints `float`s, is left out.

pub mod Print
pub mod Lines
pub mod Files
pub mod Emits
pub mod Windows
pub mod Told
pub mod Run
mod Tests
use Prim.Native.Char.{code}
use Prim.Native.String.{String}
use tju_tcp.Common.{
  ℕ, zero, suc, ◌+◌, ◌-◌, ◌*◌, ◌/◌, ◌%◌, ◌^◌, Bool, true, false, Option, none, some, List, [], ◌∷◌,
  ◌++◌, Memory, ℤ, pos, negsuc, neg, ltb, leb, ◌==◌, if◌then◌else◌,
}
use tju_tcp.Global.{
  WindowStatus, slow_start, congestion_avoidance, fast_recovery, timeout, Timeval, Sender,
}
use tju_tcp.Packet.{get_seq, get_ack, get_flags, get_hlen, get_plen}
use tju_tcp.Kernel.{Host, server, client, other}

abbrev pub Text : Type 0
Text = List ℕ

-- The bytes of a string literal.
abbrev pub codes : String → Text
codes String.[] = []
codes (String.◌∷◌ c s) = code c ∷ codes s

unfoldable pub get_current_time : Timeval → ℕ
get_current_time tv = tv.tv_sec * 1000000 + tv.tv_usec

-- An `unsigned int` that `%d` prints is read as an `int`.
unfoldable pub as_int : ℕ → ℤ
as_int w = if ltb w (2 ^ 31) then pos w else negsuc (2 ^ 32 - 1 - w)

pub data Piece : Type 0 where
  literal : Text → Piece
  number : Piece

-- The decimal digits of `n`, in front of a text; a number is greater than its tenth, so `n` and one
-- is fuel enough.
pub digits : ℕ → ℕ → Text → Text
digits zero n out = out
digits (suc fuel) n out =
    let longer = digits fuel (n / 10) ((b'0' + n % 10) ∷ out) in if n == 0 then out else longer

unfoldable pub print_nat : ℕ → Text → Text
print_nat n out = if n == 0 then b'0' ∷ out else digits (suc n) n out

unfoldable pub print_int : ℤ → Text → Text
unfolding print_nat
print_int (pos n) out = print_nat n out
print_int (negsuc n) out = b'-' ∷ print_nat (suc n) out

-- `fprintf`: the numbers stand where the format has `%d` or `%ld`.
unfoldable pub fprintf : List Piece → List ℤ → Text
unfolding print_int
fprintf [] args = []
fprintf (literal s ∷ format) args = s ++ fprintf format args
fprintf (number ∷ format) [] = fprintf format []
fprintf (number ∷ format) (a ∷ args) = print_int a (fprintf format args)

-- The events, with the numbers that they print.
pub data LogEvent : Type 0 where
  send : (seq ack flag len : ℤ) → LogEvent
  recv : (seq ack flag len : ℤ) → LogEvent
  cwnd : (type size : ℤ) → LogEvent
  rwnd : (size : ℤ) → LogEvent
  swnd : (size : ℤ) → LogEvent
  delv : (seq size : ℤ) → LogEvent

-- The macros `_SEND_LOG_` and `_RECV_LOG_`: the difference of two `uint16_t` is an `int`.
unfoldable pub packet_len : Memory → ℤ
packet_len pkt =
    if leb (get_hlen pkt) (get_plen pkt)
    then pos (get_plen pkt - get_hlen pkt)
    else neg (get_hlen pkt - get_plen pkt)

unfoldable pub send_log : Memory → LogEvent
send_log pkt =
    send (as_int (get_seq pkt)) (as_int (get_ack pkt)) (pos (get_flags pkt)) (packet_len pkt)

unfoldable pub recv_log : Memory → LogEvent
recv_log pkt =
    recv (as_int (get_seq pkt)) (as_int (get_ack pkt)) (pos (get_flags pkt)) (packet_len pkt)

abbrev pub status_number : WindowStatus → ℕ
status_number slow_start = 0
status_number congestion_avoidance = 1
status_number fast_recovery = 2
status_number timeout = 3

unfoldable pub cwnd_log : Sender → WindowStatus → LogEvent
cwnd_log s type = cwnd (pos (status_number type)) (as_int s.cwnd)

unfoldable pub rwnd_log : Sender → LogEvent
rwnd_log s = rwnd (as_int s.rwnd)

unfoldable pub swnd_log : Sender → LogEvent
swnd_log s = swnd (as_int s.window_size)

unfoldable pub delv_log : ℕ → ℕ → LogEvent
delv_log seq len = delv (as_int seq) (as_int len)

-- The format of each macro.
abbrev pub packet_format : List Piece
packet_format =
    number
    ∷ literal (codes " ack:")
    ∷ number
    ∷ literal (codes " flag:")
    ∷ number
    ∷ literal (codes " length:")
    ∷ number
    ∷ literal (codes "]\n")
    ∷ []

abbrev pub size_format : List Piece
size_format = number ∷ literal (codes "]\n") ∷ []

abbrev pub two_format : List Piece
two_format = number ∷ literal (codes " size:") ∷ size_format

-- Behind the time.
unfoldable pub event_format : LogEvent → List Piece
event_format (send _ _ _ _) = literal (codes "] [SEND] [seq:") ∷ packet_format
event_format (recv _ _ _ _) = literal (codes "] [RECV] [seq:") ∷ packet_format
event_format (cwnd _ _) = literal (codes "] [CWND] [type:") ∷ two_format
event_format (rwnd _) = literal (codes "] [RWND] [size:") ∷ size_format
event_format (swnd _) = literal (codes "] [SWND] [size:") ∷ size_format
event_format (delv _ _) = literal (codes "] [DELV] [seq:") ∷ two_format

abbrev pub event_args : LogEvent → List ℤ
event_args (send seq ack flag len) = seq ∷ ack ∷ flag ∷ len ∷ []
event_args (recv seq ack flag len) = seq ∷ ack ∷ flag ∷ len ∷ []
event_args (cwnd type size) = type ∷ size ∷ []
event_args (rwnd size) = size ∷ []
event_args (swnd size) = size ∷ []
event_args (delv seq size) = seq ∷ size ∷ []

-- The line of an event.
unfoldable pub event_line : Timeval → LogEvent → Text
event_line now e =
    fprintf (literal (codes "[") ∷ number ∷ event_format e)
      (pos (get_current_time now) ∷ event_args e)

-- The two files; `open` says that `init_log` has run and `close_log` has not.
pub record Logs : Type 0 where
  pub server_event_log : List Text
  pub client_event_log : List Text
  pub opened : Bool

-- `fopen` with "w" empties a file.
unfoldable pub init_log : Logs → Logs
init_log l = record { server_event_log = []; client_event_log = []; opened = true }

unfoldable pub close_log : Logs → Logs
close_log l = record l { opened = false }

-- An `fprintf` to `getEventlog()`; `none` is its exit(-1), or a write to a closed file.
unfoldable pub log_event : Host → Timeval → LogEvent → Logs → Option Logs
log_event host now e l =
    if l.opened
    then (elim host [
      | server ↦ some (record l { server_event_log = l.server_event_log ++ event_line now e ∷ [] })
      | client ↦ some (record l { client_event_log = l.client_event_log ++ event_line now e ∷ [] })
      | other ↦ none
    ])
    else none
