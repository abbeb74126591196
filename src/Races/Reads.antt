-- ===== src/Races/Reads.antt =====
-- What `sending_thread` sends when the socket changes between its reads and its lock.
use tju_tcp.Common.{
  ℕ, suc, Bool, false, ◌+◌, ◌-◌, ◌^◌, ◌<◌, ◌≡◌, inl, inr, refl, Option, none, some, [], arith,
  Memory, true, ltb, Bool-cases,
}
use tju_tcp.Global.{Timeval, Sender}
use tju_tcp.Timer.{Timer}
use tju_tcp.Send.{Pass, may_send, send_end, sending_thread, keep_nextseq, send_loop}
use tju_tcp.Send.Stream.{Covers, Sends}
use tju_tcp.Send.Loop.{send_loop-Sending, keep_nextseq-Sends}
use tju_tcp.Races.{Snapshot, look, tmp_len, send_locked}

-- A round whose reads have given this.
abbrev pub then_send : Memory → ℕ → ℕ → Timeval → Sender → Timer → Option Snapshot → Option Pass
then_send heap src dst now s t none =
    some (record { sender = s; seq = s.nextseq; timer = t; packets = [] })
then_send heap src dst now s t (some n) = send_locked heap src dst now n s t

-- If nothing happens between the reads of `sending_thread` and its lock, the two parts, one behind
-- the other, do what a round in one step does.
sending_thread-look :
    (heap : Memory) (src dst : ℕ) (now : Timeval) (s : Sender) (t : Timer)
    → sending_thread heap src dst now s t ≡ then_send heap src dst now s t (look s)
unfolding sending_thread look send_locked send_end
sending_thread-look heap src dst now s t = go (may_send s) refl
  where
    go :
        (b : Bool)
        → may_send s ≡ b
        → sending_thread heap src dst now s t ≡ then_send heap src dst now s t (look s)
    go true e = ground (arith, e)
    go false e = ground (arith, e)

module _ (stream : ℕ → ℕ) (heap : Memory) (src dst : ℕ) (psrc : src < 2 ^ 16)
    (pdst : dst < 2 ^ 16) where
  -- The socket holds the stream, and no one else has moved `nextseq`.
  pub send_locked-Covers :
      (now : Timeval) (origin : ℕ) (n : Snapshot) (s : Sender) (t : Timer)
      → Sends stream origin s
      → origin + s.sending_len < 2 ^ 32
      → n.wnd_nextseq ≡ s.nextseq
      → (p : Pass) × (send_locked heap src dst now n s t ≡ some p)
        × Sends stream origin p.sender
        × Covers stream s.nextseq p.packets p.sender.nextseq
        × (p.sender.sending_len ≡ s.sending_len)
  unfolding send_locked send_loop
  send_locked-Covers now origin n s t h small same =
      elim (Bool-cases (ltb s.have_send_len (tmp_len n s))) [
        | inr idle ↦ (
          keep_nextseq (record { sender = s; seq = n.wnd_nextseq; timer = t; packets = [] }),
          rw idle refl,
          record {
            acked = h.acked;
            sent = h.sent;
            room = h.room;
            base = h.base;
            next = omega (arith, same, h.next);
            content = h.content;
          },
          omega (arith, same),
          refl,
        )
        | inl more ↦
            let (p, e, h', done) =
              send_loop-Sending stream heap src dst psrc pdst now n.wnd_base origin
                (origin + s.sending_len) s.nextseq (tmp_len n s)
                (suc (tmp_len n s - s.have_send_len))
                (record { sender = s; seq = n.wnd_nextseq; timer = t; packets = [] })
                (record {
                  acked = h.acked;
                  below = ground arith;
                  within = ground arith;
                  room = h.room;
                  base = h.base;
                  content = h.content;
                  seq = omega (arith, same, h.next);
                  end = refl;
                  small = small;
                  covers = omega (arith, same);
                })
                (omega arith) in
            (
              keep_nextseq p,
              rw e refl,
              keep_nextseq-Sends stream heap src dst psrc pdst origin (origin + s.sending_len)
                  s.nextseq (tmp_len n s) p h' done,
              h'.covers,
              omega (arith, h'.end),
            )
      ]
