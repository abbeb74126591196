-- ===== src/Receive/Progress.antt =====
-- When the window moves, and the packets that break it.
use mathlib.Core.Option
use tju_tcp.Common.{ℕ, ◌+◌, ◌-◌, ◌^◌, ◌≤◌, ◌<◌, ◌≡◌, ◌≢◌, some, none, arith, Memory}
use tju_tcp.Global.{max_rwindow_size, max_sock_buf_size, Receiver}
use tju_tcp.Packet.{get_seq}
use tju_tcp.Receive.{
  get_wnd_free_len, data_len, window_fits, buffered, buffer_data, moved, move_window, slide,
  handle_data,
}
use tju_tcp.Receive.Scan.{IsFirstFree, get_wnd_free_len-IsFirstFree}
use tju_tcp.Receive.Window.{Holds, Carries, NoWrap}

-- Moving over the first `k` cells, all marked, with room for them.
slide-moved :
    (heap : Memory) (r : Receiver) (k : ℕ)
    → r.mark 0 ≢ 0
    → get_wnd_free_len r.mark ≡ some k
    → r.received_len + k ≤ max_sock_buf_size
    → slide heap r ≡ some (moved heap r k)
unfolding slide move_window
slide-moved heap r k m e room = ground arith

-- A receiver that holds the stream, whose numbers do not wrap, gets the next packet of it, not
-- empty and shorter than the window, and its buffer has room for a whole window. Then `expect_seq`
-- moves behind the last byte of the packet at least, and the first byte of the new window is
-- missing.
pub handle_data-forward :
    (stream : ℕ → ℕ) (limit : ℕ) (heap : Memory) (r : Receiver) (pkt : Memory)
    → NoWrap limit
    → Holds stream limit r
    → Carries stream limit pkt
    → get_seq pkt ≡ r.expect_seq
    → 0 < data_len pkt
    → data_len pkt < max_rwindow_size
    → r.received_len + max_rwindow_size ≤ max_sock_buf_size
    → (r' : Receiver) × (handle_data heap r pkt ≡ some r')
      × (r.expect_seq + data_len pkt ≤ r'.expect_seq)
      × (r'.mark 0 ≡ 0)
unfolding handle_data Option.bind window_fits buffer_data
handle_data-forward stream limit heap r pkt small h c next more less room = step (
    get_wnd_free_len-IsFirstFree marks (max_rwindow_size - 1) (omega arith)
      (ground (arith, h.last)))
  where
    marks : Memory
    marks = (buffered r pkt).mark

    reach : r.expect_seq + data_len pkt ≤ limit
    reach = omega (arith, c.end)

    step :
        (k : ℕ) × (get_wnd_free_len marks ≡ some k)
          × (k ≤ max_rwindow_size - 1)
          × IsFirstFree marks 0 k
        → (r' : Receiver) × (handle_data heap r pkt ≡ some r')
          × (r.expect_seq + data_len pkt ≤ r'.expect_seq)
          × (r'.mark 0 ≡ 0)
    step (k, e, le, first) = (
      moved heap (buffered r pkt) k,
      ground (
        arith,
        c.whole,
        reach,
        slide-moved heap (buffered r pkt) k (ground arith) e (omega arith),
      ),
      ground (arith, reach, first.free),
      ground (arith, first.free),
    )

-- A packet whose end wraps round 2 ^ 32 passes the test of the window although it lies far outside
-- it, and its bytes are written past the end of the window.
pub handle_data-overrun :
    (heap : Memory) (r : Receiver) (pkt : Memory)
    → r.expect_seq + max_rwindow_size < 2 ^ 32
    → get_seq pkt < 2 ^ 32
    → 2 ^ 32 ≤ get_seq pkt + data_len pkt
    → get_seq pkt + data_len pkt < 2 ^ 32 + r.expect_seq + max_rwindow_size
    → r.expect_seq ≤ get_seq pkt
    → handle_data heap r pkt ≡ none
unfolding handle_data Option.bind window_fits buffer_data
handle_data-overrun heap r pkt small fits wraps low le = ground arith
