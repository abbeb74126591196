-- ===== src/Ack/Congestion.antt =====
-- Congestion and flow control as a state machine.
use native.Mathlib.Decide.{ℕ_discrete}
use tju_tcp.Common.{
  ℕ, ◌+◌, ◌*◌, ◌/◌, ◌^◌, ◌≤◌, ◌<◌, ◌≡◌, ◌≢◌, refl, some, arith, Memory, min, Bool-cases, inl, inr,
  leb,
}
use tju_tcp.Global.{
  Timeval, Sender, WindowStatus, slow_start, congestion_avoidance, fast_recovery, timeout, max_dlen,
}
use tju_tcp.Packet.{get_ack, get_advertised_window}
use tju_tcp.Timer.{Timer, cal_timeout}
use tju_tcp.Ack.{handle_ack, duplicate_ack, slid, advertised, grow}
use tju_tcp.Ack.Cases.{Kept, Kind, old, duplicate, new, handle_ack-Kind}

-- What congestion control keeps.
pub record Control : Type 0 where
  pub status : WindowStatus
  pub cwnd : ℕ
  pub ssthresh : ℕ
  pub same : ℕ

abbrev pub control : Sender → Control
control s = record {
  status = s.window_status;
  cwnd = s.cwnd;
  ssthresh = s.ssthresh;
  same = s.same_ack_cnt;
}

-- The moves of the state machine for an ACK with the number `ack`, by what it is for the sender: an old
-- one, below `base`, a duplicate one, at `base`, and one of new data, above it.
pub data Move (base ack : ℕ) (c d : Control) : Type 0 where
  stays : ack < base → d ≡ c → Move base ack c d
  counts :
      ack ≡ base
      → c.status ≢ fast_recovery
      → c.same + 1 ≢ 3
      → d ≡ record c { same = c.same + 1 }
      → Move base ack c d
  enters_recovery :
      ack ≡ base
      → c.status ≢ fast_recovery
      → c.same ≡ 2
      → d ≡ record { status = fast_recovery; cwnd = c.cwnd / 2; ssthresh = c.cwnd / 2; same = 3 }
      → Move base ack c d
  inflates :
      ack ≡ base
      → c.status ≡ fast_recovery
      → d ≡ record c { cwnd = c.cwnd + max_dlen }
      → Move base ack c d
  doubles :
      base < ack
      → c.status ≡ slow_start
      → c.cwnd * 2 < c.ssthresh
      → d ≡ record c { cwnd = c.cwnd * 2; same = 0 }
      → Move base ack c d
  leaves_slow_start :
      base < ack
      → c.status ≡ slow_start
      → c.ssthresh ≤ c.cwnd * 2
      → d ≡ record c { status = congestion_avoidance; cwnd = c.ssthresh; same = 0 }
      → Move base ack c d
  adds :
      base < ack
      → c.status ≡ congestion_avoidance
      → d ≡ record c { cwnd = c.cwnd + max_dlen; same = 0 }
      → Move base ack c d
  leaves_recovery :
      base < ack
      → c.status ≡ fast_recovery
      → d ≡ record c { status = congestion_avoidance; same = 0 }
      → Move base ack c d

-- `TIMEOUT` is a label of the log, and no state; the counters are far from wrapping.
pub record IsRunning (s : Sender) : Type 0 where
  pub status : s.window_status ≢ timeout
  pub cwnd : s.cwnd + max_dlen < 2 ^ 31
  pub same : s.same_ack_cnt + 1 < 2 ^ 32

Kept-control : (s s' : Sender) → Kept s s' → control s' ≡ control s
Kept-control s s' k = ground arith

duplicate_ack-Move :
    (st : WindowStatus) (s : Sender) (t : Timer) (base ack : ℕ)
    → ack ≡ base
    → s.window_status ≡ st
    → IsRunning s
    → Move base ack (control s) (control (duplicate_ack s t).0)
unfolding duplicate_ack
duplicate_ack-Move fast_recovery s t base ack at e r = inflates at e (ground arith)
duplicate_ack-Move timeout s t base ack at e r = absurd (r.status e)
duplicate_ack-Move slow_start s t base ack at e r = elim (ℕ_discrete s.same_ack_cnt 2) [
  | yes third ↦ enters_recovery at (ground arith) third (ground arith)
  | no other ↦ counts at (ground arith) (ground arith) (ground arith)
]
duplicate_ack-Move congestion_avoidance s t base ack at e r = elim (ℕ_discrete s.same_ack_cnt 2) [
  | yes third ↦ enters_recovery at (ground arith) third (ground arith)
  | no other ↦ counts at (ground arith) (ground arith) (ground arith)
]

-- Measuring and sliding leave what congestion control keeps alone.
pub control-slid :
    (now : Timeval) (s : Sender) (ack : ℕ)
    → control (slid now s ack)
      ≡ control
          (record s { wnd_send = grow s.window_status (record s.wnd_send { same_ack_cnt = 0 }) })
unfolding slid cal_timeout
control-slid now s ack = ground arith

slid-Move :
    (now : Timeval) (st : WindowStatus) (s : Sender) (base ack : ℕ)
    → base < ack
    → s.window_status ≡ st
    → IsRunning s
    → Move base ack (control s) (control (slid now s ack))
slid-Move now fast_recovery s base ack above e r =
    leaves_recovery above e (ground (arith, control-slid now s ack))
slid-Move now timeout s base ack above e r = absurd (r.status e)
slid-Move now slow_start s base ack above e r = elim (Bool-cases (leb s.ssthresh (s.cwnd * 2))) [
  | inl reached ↦ leaves_slow_start above e (ground arith) (ground (arith, control-slid now s ack))
  | inr under ↦ doubles above e (ground arith) (ground (arith, control-slid now s ack))
]
slid-Move now congestion_avoidance s base ack above e r =
    adds above e (ground (arith, control-slid now s ack))

-- While the status is not TIMEOUT and the counters are far from wrapping, every ACK that is
-- handled makes a move of the state machine `Move`, whatever the timer, the buffers and the
-- advertised window: the code refines it.
pub handle_ack-Move :
    (heap : Memory) (now : Timeval) (s : Sender) (t : Timer) (pkt : Memory) (s' : Sender)
    (t' : Timer)
    → IsRunning s
    → handle_ack heap now s t pkt ≡ some (s', t')
    → Move s.base (get_ack pkt) (control s) (control s')
handle_ack-Move heap now s t pkt s' t' r e = move (handle_ack-Kind heap now s t pkt s' t' e)
  where
    running : IsRunning (advertised s pkt)
    running = record { status = r.status; cwnd = r.cwnd; same = r.same }

    move : Kind now s t pkt s' → Move s.base (get_ack pkt) (control s) (control s')
    move (old below k) = stays below (Kept-control _ s' k)
    move (duplicate at k) = rw (Kept-control _ s' k) (
        duplicate_ack-Move s.window_status (advertised s pkt) t s.base (get_ack pkt) at refl
          running)
    move (new above k) =
        rw (Kept-control _ s' k)
          (slid-Move now s.window_status (advertised s pkt) s.base (get_ack pkt) above refl running)

-- The window is the smaller one of `cwnd` and `rwnd`.
abbrev IsSized : Sender → Type 0
IsSized s = s.window_size ≡ min s.cwnd s.rwnd

duplicate_ack-IsSized :
    (s : Sender) (t : Timer) → IsSized (duplicate_ack s t).0 × ((duplicate_ack s t).0.rwnd ≡ s.rwnd)
unfolding duplicate_ack
duplicate_ack-IsSized s t = ground arith

pub slid-IsSized :
    (now : Timeval) (s : Sender) (ack : ℕ)
    → IsSized (slid now s ack) × ((slid now s ack).rwnd ≡ s.rwnd)
unfolding slid cal_timeout
slid-IsSized now s ack = ground arith

-- After any ACK that is handled the sending window is the smaller of the congestion window and the
-- receiver's window, and the latter is what the ACK advertises.
pub handle_ack-window_size :
    (heap : Memory) (now : Timeval) (s : Sender) (t : Timer) (pkt : Memory) (s' : Sender)
    (t' : Timer)
    → handle_ack heap now s t pkt ≡ some (s', t')
    → (s'.rwnd ≡ get_advertised_window pkt) × (s'.window_size ≡ min s'.cwnd s'.rwnd)
handle_ack-window_size heap now s t pkt s' t' e = sized (handle_ack-Kind heap now s t pkt s' t' e)
  where
    sized : Kind now s t pkt s' → (s'.rwnd ≡ get_advertised_window pkt) × IsSized s'
    sized (old _ k) = ground (arith, k.window_size, k.rwnd, k.cwnd)
    sized (duplicate _ k) =
        ground (arith, k.window_size, k.rwnd, k.cwnd, duplicate_ack-IsSized (advertised s pkt) t)
    sized (new _ k) =
        ground
          (arith, k.window_size, k.rwnd, k.cwnd, slid-IsSized now (advertised s pkt) (get_ack pkt))
