-- ===== src/Handle.antt =====
-- `tju_handle_packet` of tju_tcp.c for a socket that does not listen.
-- `heap` is what fresh memory holds and `now` what `gettimeofday` gives. The thread that handles
-- packets sleeps inside this function, and other threads see the state that it has then: what happens
-- on the way is listed in order. `none` is an access outside a buffer.
pub mod Control
pub mod States
mod Tests
use mathlib.Core.Option
use tju_tcp.Common.{
  ℕ, ◌+◌, ◌-◌, ◌^◌, Bool, Option, none, some, List, [], ◌∷◌, ◌&&◌, ◌||◌, Memory, u16, u32, ltb, leb,
  ◌==◌, if◌then◌else◌,
}
use tju_tcp.Global.{
  State, closed, listen, syn_sent, syn_recv, established, fin_wait_1, fin_wait_2, close_wait,
  closing, last_ack, time_wait, client_isn, fin_seq, no_flag, Timeval, Sock, Sender, Receiver,
}
use tju_tcp.Packet.{
  default_header_len, ack_flag_mask, fin_flag_mask, fin_ack_flags, create_packet_buf, get_src,
  get_dst, get_seq, get_ack, get_flags,
}
use tju_tcp.Receive.{handle_data}
use tju_tcp.Timer.{Timer}
use tju_tcp.Ack.{handle_ack}

-- A packet with no data.
unfoldable pub control_packet : Memory → ℕ → ℕ → ℕ → ℕ → ℕ → ℕ → Memory
control_packet heap src dst seq ack flags adv_window =
    create_packet_buf heap
      (record {
        source_port = src;
        destination_port = dst;
        seq_num = seq;
        ack_num = ack;
        hlen = default_header_len;
        plen = default_header_len;
        flags = flags;
        advertised_window = adv_window;
        ext = 0;
      })
      (λ _. 0) 0

-- What a call does besides changing the socket: a packet for `sendToLayer3`, a state that others see
-- while the call goes on, a sleep of some seconds, and the start of `tju_close_thread`.
pub data Effect : Type 0 where
  sends : Memory → Effect
  enters : State → Effect
  sleeps : ℕ → Effect
  starts_close : Effect

pub record Handled : Type 0 where
  pub sock : Sock
  pub timer : Timer
  pub effects : List Effect

abbrev pub unchanged : Sock → Timer → Handled
unchanged s t = record { sock = s; timer = t; effects = [] }

-- An ACK that answers the packet, between the ports that it names.
abbrev pub reply : Memory → Memory → ℕ → Memory
reply heap pkt seq =
    control_packet heap (get_dst pkt) (get_src pkt) seq (u32 (get_seq pkt + 1)) ack_flag_mask 1

-- The third packet of the closing, FIN and ACK.
abbrev pub fin_packet : Memory → Sock → Memory → Memory
fin_packet heap s pkt =
    control_packet heap s.established_local_addr.port s.established_remote_addr.port fin_seq
      (u32 (get_seq pkt + 1)) fin_ack_flags 1

-- The ACK that answers a data packet, with `expect_seq` and the room in the window.
unfoldable pub ack_packet : Memory → Sock → Memory
ack_packet heap s =
    control_packet heap s.established_local_addr.port s.established_remote_addr.port
      s.sender.nextseq s.receiver.expect_seq ack_flag_mask (u16 s.receiver.remain_size)

-- `get_flags(pkt)==ACK_FLAG_MASK&&get_ack(pkt)==FIN_SEQ+1`
abbrev pub acks_fin : Memory → Bool
acks_fin pkt = get_flags pkt == ack_flag_mask && get_ack pkt == fin_seq + 1

abbrev pub after_ack : Sock → Sender × Timer → Handled
after_ack s (sender, t') = record { sock = record s { sender = sender }; timer = t'; effects = [] }

module _ (heap : Memory) (t : Timer) where
  unfoldable pub handle_syn_sent : Sock → Memory → Handled
  handle_syn_sent s pkt =
      if get_ack pkt == client_isn + 1
      then record {
        sock = record s { state = established };
        timer = t;
        effects = sends (reply heap pkt (get_ack pkt)) ∷ [];
      }
      else unchanged s t

  unfoldable pub handle_fin : Sock → Memory → Handled
  handle_fin s pkt = record {
    sock = record s { state = last_ack; packet_fin = some (fin_packet heap s pkt) };
    timer = t;
    effects =
        sends (reply heap pkt (get_ack pkt))
        ∷ enters close_wait
        ∷ sleeps 1
        ∷ sends (fin_packet heap s pkt)
        ∷ starts_close
        ∷ [];
  }

  abbrev pub after_data : Sock → Receiver → Handled
  after_data s r =
      let s' = record s { receiver = r } in
      record { sock = s'; timer = t; effects = sends (ack_packet heap s') ∷ [] }

  unfoldable pub handle_established : Timeval → Sock → Memory → Option Handled
  handle_established now s pkt =
      if get_flags pkt == fin_flag_mask
      then some (handle_fin s pkt)
      else (if get_flags pkt == no_flag
          then Option.map (after_data s) (handle_data heap s.receiver pkt)
          else (if get_flags pkt == ack_flag_mask
              then Option.map (after_ack s) (handle_ack heap now s.sender t pkt)
              else some (unchanged s t)))

  unfoldable pub handle_fin_wait_1 : Sock → Memory → Handled
  handle_fin_wait_1 s pkt =
      if acks_fin pkt
      then record { sock = record s { state = fin_wait_2 }; timer = t; effects = [] }
      else (if get_flags pkt == fin_ack_flags || get_flags pkt == fin_flag_mask
          then record {
            sock = record s { state = closing };
            timer = t;
            effects = sends (reply heap pkt (fin_seq + 1)) ∷ [];
          }
          else unchanged s t)

  unfoldable pub handle_fin_wait_2 : Sock → Memory → Handled
  handle_fin_wait_2 s pkt =
      if get_flags pkt == fin_ack_flags
      then record {
        sock = record s { state = closed };
        timer = t;
        effects = sends (reply heap pkt (get_ack pkt)) ∷ enters time_wait ∷ sleeps 3 ∷ [];
      }
      else unchanged s t

  unfoldable pub handle_last_ack : Sock → Memory → Handled
  handle_last_ack s pkt =
      if acks_fin pkt
      then record { sock = record s { state = closed }; timer = t; effects = [] }
      else unchanged s t

  unfoldable pub handle_closing : Sock → Memory → Handled
  handle_closing s pkt =
      if acks_fin pkt
      then record {
        sock = record s { state = closed };
        timer = t;
        effects = enters time_wait ∷ sleeps 3 ∷ [];
      }
      else unchanged s t

  -- The branches of `tju_handle_packet` but LISTEN, for which see `Connection`.
  abbrev pub handle_in : State → Timeval → Sock → Memory → Option Handled
  handle_in syn_sent now s pkt = some (handle_syn_sent s pkt)
  handle_in established now s pkt = handle_established now s pkt
  handle_in fin_wait_1 now s pkt = some (handle_fin_wait_1 s pkt)
  handle_in fin_wait_2 now s pkt = some (handle_fin_wait_2 s pkt)
  handle_in last_ack now s pkt = some (handle_last_ack s pkt)
  handle_in closing now s pkt = some (handle_closing s pkt)
  handle_in _ now s pkt = some (unchanged s t)

  unfoldable pub tju_handle_packet : Timeval → Sock → Memory → Option Handled
  tju_handle_packet now s pkt = handle_in s.state now s pkt
