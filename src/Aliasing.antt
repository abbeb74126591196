-- ===== src/Aliasing.antt =====
-- The receiving fields of the sockets behind their pointers: LISTEN of `tju_handle_packet`
-- (tju_tcp.c) makes the socket of a new connection with `memcpy`, which copies the pointers to the
-- window and to the buffer and not what they point to.
pub mod Twins
mod Tests
use mathlib.Core.Option
use tju_tcp.Common.{ℕ, ◌+◌, Option, Memory, ◌==◌, if◌then◌else◌}
use tju_tcp.Global.{State, syn_recv, ReceiverWindow, SockAddr, Receiver}
use tju_tcp.Packet.{get_src}
use tju_tcp.Kernel.{client_ip}
use tju_tcp.Receive.{handle_data}

-- A `tju_tcp_t` in memory, with the fields that receiving uses: `wnd_recv` and `received_buf` are
-- pointers.
pub record TjuTcp : Type 0 where
  pub state : State
  pub bind_addr : SockAddr
  pub established_local_addr : SockAddr
  pub established_remote_addr : SockAddr
  pub wnd_recv : ℕ
  pub received_buf : ℕ
  pub received_len : ℕ

-- What the pointers point to, and the next pointer of `malloc` for a socket.
pub record Store : Type 0 where
  pub socks : ℕ → TjuTcp
  pub windows : ℕ → ReceiverWindow
  pub buffers : ℕ → Memory
  pub next : ℕ

abbrev pub put : {A : Type 0} → (ℕ → A) → ℕ → A → ℕ → A
put f i a j = if i == j then a else f j

-- `malloc` and `memcpy(new_conn, sock, sizeof(tju_tcp_t))`, and what is set in the copy.
unfoldable pub new_conn : Store → ℕ → Memory → Store
new_conn st i pkt =
    let s = st.socks i in
    record st {
      socks = put st.socks st.next (record s {
        state = syn_recv;
        established_local_addr = s.bind_addr;
        established_remote_addr = record { ip = client_ip; port = get_src pkt };
      });
      next = st.next + 1;
    }

-- The receiver of a socket.
abbrev pub load : Store → ℕ → Receiver
load st i = record {
  wnd_recv = st.windows (st.socks i).wnd_recv;
  received_buf = st.buffers (st.socks i).received_buf;
  received_len = (st.socks i).received_len;
}

-- What the code writes through the pointers of a socket.
abbrev pub save : Store → ℕ → Receiver → Store
save st i r = record st {
  socks = put st.socks i (record (st.socks i) { received_len = r.received_len });
  windows = put st.windows (st.socks i).wnd_recv r.wnd_recv;
  buffers = put st.buffers (st.socks i).received_buf r.received_buf;
}

-- A data packet comes to a socket.
unfoldable pub handle_data_at : Memory → Store → ℕ → Memory → Option Store
handle_data_at heap st i pkt = Option.map (save st i) (handle_data heap (load st i) pkt)
