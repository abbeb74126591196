-- ===== src/Duplex/Base.antt =====
-- The threads leave `base` as it is: it moves with ACKs alone.
use mathlib.Core.Option.{none-ne-some}
use tju_tcp.Common.{ℕ, zero, suc, List, [], ◌-◌, ◌≡◌, some, arith, Memory}
use tju_tcp.Global.{Timeval, Sender, Receiver}
use tju_tcp.Timer.{Timer}
use tju_tcp.Send.{Pass, send_end, send_round, send_loop, sending_thread}
use tju_tcp.Retransmit.{
  Resent, Cursor, begin_resend, resend_round, resend_loop, resend_all, resend, rearm, timed_out,
  retrans_thread, after_timeout,
}
use tju_tcp.Receive.{tju_recv, after_read}

module _ (heap : Memory) (src dst : ℕ) where
  base-send_loop :
      (fuel : ℕ) (now : Timeval) (wnd_base stop : ℕ) (p p' : Pass)
      → send_loop heap src dst fuel now wnd_base stop p ≡ some p'
      → p'.sender.base ≡ p.sender.base
  unfolding send_loop send_round
  base-send_loop zero now wnd_base stop p p' e = absurd (none-ne-some p' e)
  base-send_loop (suc fuel) now wnd_base stop p p' e = ground (
    arith,
    base-send_loop fuel now wnd_base stop (send_round heap src dst now wnd_base stop p) p',
  )

  pub base-sending_thread :
      (now : Timeval) (s : Sender) (t : Timer) (p : Pass)
      → sending_thread heap src dst now s t ≡ some p
      → p.sender.base ≡ s.base
  unfolding sending_thread
  base-sending_thread now s t p e = grind (
    arith,
    base-send_loop (suc (send_end s - s.have_send_len)) now s.base (send_end s)
        (record { sender = s; seq = s.nextseq; timer = t; packets = [] }),
  )

  base-resend_loop :
      (fuel have_sent : ℕ) (c c' : Cursor)
      → resend_loop heap src dst fuel have_sent c ≡ some c'
      → c'.resent.sender.base ≡ c.resent.sender.base
  unfolding resend_loop resend_round
  base-resend_loop zero have_sent c c' e = absurd (none-ne-some c' e)
  base-resend_loop (suc fuel) have_sent c c' e =
      ground (arith, base-resend_loop fuel have_sent (resend_round heap src dst have_sent c) c')

  pub base-retrans_thread :
      (s : Sender) (t : Timer) (r : Resent)
      → retrans_thread heap src dst s t ≡ some r
      → r.sender.base ≡ s.base
  unfolding retrans_thread resend resend_all rearm after_timeout
  base-retrans_thread s t r e = grind (
    arith,
    base-resend_loop (suc ((timed_out s t).have_send_len - (timed_out s t).ack_cnt))
        (timed_out s t).have_send_len (begin_resend (timed_out s t) t),
  )

pub expect_seq-tju_recv :
    (heap : Memory) (r r' : Receiver) (len : ℕ) (out : List ℕ)
    → tju_recv heap r len ≡ some (out, r')
    → r'.expect_seq ≡ r.expect_seq
unfolding tju_recv after_read
expect_seq-tju_recv heap r r' len out e = ground arith
