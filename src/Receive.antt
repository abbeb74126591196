-- ===== src/Receive.antt =====
-- The receiving half of tju_tcp.c: the data branch of `tju_handle_packet` in ESTABLISHED, with
-- `get_wnd_free_len`, and `tju_recv`.
-- `heap` is what fresh memory of `malloc` holds. `none` is an access outside a buffer, which C
-- leaves undefined, or a call that blocks, as each function says.
pub mod Scan
pub mod Window
pub mod Delivery
pub mod Progress
mod Tests
use tju_tcp.Common.{
  ℕ, zero, suc, ◌+◌, ◌-◌, ◌^◌, Option, none, some, List, Memory, memcpy, memset, slice, u16, u32,
  ltb, leb, ◌==◌, ◌&&◌, if◌then◌else◌, Bool,
}
use tju_tcp.Global.{max_rwindow_size, max_sock_buf_size, Receiver, ReceiverWindow}
use tju_tcp.Packet.{get_seq, get_hlen, get_plen}
use mathlib.Core.Option

-- The loop of `get_wnd_free_len` from `ans` on, with `left` cells of `mark` left: `none` is a read
-- past the end of `mark`. It stops within 44000 rounds, so `ans`, a `uint16_t`, does not wrap.
scan : Memory → ℕ → ℕ → Option ℕ
scan mark zero ans = none
scan mark (suc left) ans =
    let more = scan mark left (ans + 1) in if mark ans == 0 then some ans else more

unfoldable pub get_wnd_free_len : Memory → Option ℕ
unfolding scan
get_wnd_free_len mark = scan mark max_rwindow_size 0

-- `uint16_t dlen = get_plen(pkt) - get_hlen(pkt)`
unfoldable pub data_len : Memory → ℕ
data_len pkt = u16 (get_plen pkt + 2 ^ 16 - get_hlen pkt)

-- The test that the receive window can hold the packet, in `uint32_t` arithmetic.
unfoldable pub window_fits : Receiver → Memory → Bool
window_fits r pkt = ltb (u32 (get_seq pkt + data_len pkt)) (u32 (r.expect_seq + max_rwindow_size))

-- The bytes of the packet go to their place in the window and are marked.
abbrev pub buffered : Receiver → Memory → Receiver
buffered r pkt = record r {
  wnd_recv = record r.wnd_recv {
    recv_buf = memcpy r.recv_buf (get_seq pkt - r.expect_seq) pkt (get_hlen pkt) (data_len pkt);
    mark = memset r.mark (get_seq pkt - r.expect_seq) 1 (data_len pkt);
  };
}

-- `none` if they are read past the end of the packet or written past the end of the window.
unfoldable pub buffer_data : Receiver → Memory → Option Receiver
buffer_data r pkt =
    if leb (get_hlen pkt + data_len pkt) (get_plen pkt)
      && leb (get_seq pkt - r.expect_seq + data_len pkt) max_rwindow_size
    then some (buffered r pkt)
    else none

-- The `free_len` bytes at the start of the window go to the receive buffer, and the window moves
-- over them.
abbrev pub moved : Memory → Receiver → ℕ → Receiver
moved heap r free_len = record {
  wnd_recv = record {
    remain_size = max_rwindow_size;
    recv_buf = memcpy heap 0 r.recv_buf free_len (max_rwindow_size - free_len);
    mark =
        memcpy (memset heap 0 0 max_rwindow_size) 0 r.mark free_len (max_rwindow_size - free_len);
    expect_seq = u32 (r.expect_seq + free_len);
  };
  received_buf = memcpy r.received_buf r.received_len r.recv_buf 0 free_len;
  received_len = r.received_len + free_len;
}

-- If the receive buffer has no room for them, they stay in the window, and what is left of it is
-- noted. The test of the code, `MAX_SOCK_BUF_SIZE-received_len<free_len`, is of `int`s.
unfoldable pub move_window : Memory → Receiver → ℕ → Receiver
move_window heap r free_len =
    if ltb max_sock_buf_size (r.received_len + free_len)
    then record r { wnd_recv = record r.wnd_recv { remain_size = max_rwindow_size - free_len } }
    else moved heap r free_len

-- `if (mark[0]!=0)`
unfoldable pub slide : Memory → Receiver → Option Receiver
slide heap r =
    if r.mark 0 == 0 then some r else Option.map (move_window heap r) (get_wnd_free_len r.mark)

-- A data packet changes the receiver so; whatever the branch, an ACK with `expect_seq` and
-- `remain_size` of the new receiver goes out (`Handle.ack_packet`).
unfoldable pub handle_data : Memory → Receiver → Memory → Option Receiver
handle_data heap r pkt =
    if leb r.expect_seq (get_seq pkt)
    then (if window_fits r pkt then Option.bind (buffer_data r pkt) (slide heap) else slide heap r)
    else some r

-- What stays when `tju_recv` has read `read_len` bytes.
unfoldable pub after_read : Memory → Receiver → ℕ → Receiver
after_read heap r read_len =
    if ltb read_len r.received_len
    then record r {
      received_len = r.received_len - read_len;
      received_buf = memcpy heap 0 r.received_buf read_len (r.received_len - read_len);
    }
    else record r { received_len = 0 }

-- What `tju_recv` copies out, as many bytes as it returns: `len`, or as many as there are. `none`: it
-- blocks until something is received. `len` is not negative.
unfoldable pub tju_recv : Memory → Receiver → ℕ → Option (List ℕ × Receiver)
tju_recv heap r len =
    let read_len = if leb len r.received_len then len else r.received_len in
    if r.received_len == 0
    then none
    else some (slice r.received_buf 0 read_len, after_read heap r read_len)
