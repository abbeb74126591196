-- ===== src/Ack/Opening.antt =====
-- A window of 0 opens again: the congestion window does not stay at 0.
use tju_tcp.Common.{
  ℕ, ◌-◌, ◌^◌, ◌≤◌, ◌<◌, ◌≡◌, ◌≢◌, ◌⊎◌, refl, some, inl, inr, Bool, true, false, ◌||◌, not, ltb,
  ◌==◌, if◌then◌else◌, arith, Memory,
}
use tju_tcp.Global.{
  Timeval, Sender, WindowStatus, slow_start, congestion_avoidance, fast_recovery, timeout,
}
use tju_tcp.Packet.{get_ack, get_advertised_window}
use tju_tcp.Timer.{Timer}
use tju_tcp.Ack.{handle_ack, duplicate_ack, slid, advertised}
use tju_tcp.Ack.Cases.{Kept, Kind, old, duplicate, new, handle_ack-Kind}
use tju_tcp.Ack.Congestion.{control-slid, handle_ack-window_size}

-- What every ACK of an established connection advertises.
abbrev pub Advertises : Memory → Type 0
Advertises pkt = (1 ≤ get_advertised_window pkt) × (get_advertised_window pkt < 2 ^ 16)

-- A congestion window that is 0 grows with the next duplicate ACK, or after three of them.
abbrev pub grows_again : WindowStatus → ℕ → ℕ → Bool
grows_again fast_recovery cwnd same = true
grows_again timeout cwnd same = false
grows_again slow_start cwnd same = not (cwnd == 0) || ltb same 3
grows_again congestion_avoidance cwnd same = not (cwnd == 0) || ltb same 3

pub record IsLive (s : Sender) : Type 0 where
  pub rwnd_low : 1 ≤ s.rwnd
  pub rwnd_high : s.rwnd < 2 ^ 16
  pub size : s.window_size < 2 ^ 16
  pub grows : grows_again s.window_status s.cwnd s.same_ack_cnt ≡ true

duplicate_ack-grows :
    (st : WindowStatus) (s : Sender) (t : Timer)
    → s.window_status ≡ st
    → grows_again st s.cwnd s.same_ack_cnt ≡ true
    → let w = (duplicate_ack s t).0.wnd_send in
      grows_again w.window_status w.cwnd w.same_ack_cnt ≡ true
unfolding duplicate_ack
duplicate_ack-grows fast_recovery s t e h = rw e (ground (arith, e))
duplicate_ack-grows timeout s t e h = ground arith
duplicate_ack-grows slow_start s t e h = rw e (ground (arith, e))
duplicate_ack-grows congestion_avoidance s t e h = rw e (ground (arith, e))

slid-grows :
    (now : Timeval) (st : WindowStatus) (s : Sender) (ack : ℕ)
    → s.window_status ≡ st
    → grows_again st s.cwnd s.same_ack_cnt ≡ true
    → let w = (slid now s ack).wnd_send in grows_again w.window_status w.cwnd w.same_ack_cnt ≡ true
slid-grows now fast_recovery s ack e h = ground (arith, e, control-slid now s ack)
slid-grows now timeout s ack e h = ground arith
slid-grows now slow_start s ack e h = ground (arith, e, control-slid now s ack)
slid-grows now congestion_avoidance s ack e h = ground (arith, e, control-slid now s ack)

Kept-grows :
    (s s' : Sender)
    → Kept s s'
    → grows_again s.window_status s.cwnd s.same_ack_cnt ≡ true
    → grows_again s'.window_status s'.cwnd s'.same_ack_cnt ≡ true
Kept-grows s s' k h = rw (k.window_status, k.cwnd, k.same_ack_cnt) h

handle_ack-grows :
    (now : Timeval) (s : Sender) (t : Timer) (pkt : Memory) (s' : Sender)
    → grows_again s.window_status s.cwnd s.same_ack_cnt ≡ true
    → Kind now s t pkt s'
    → grows_again s'.window_status s'.cwnd s'.same_ack_cnt ≡ true
handle_ack-grows now s t pkt s' h (old _ k) = Kept-grows _ s' k h
handle_ack-grows now s t pkt s' h (duplicate _ k) =
    Kept-grows _ s' k (duplicate_ack-grows s.window_status (advertised s pkt) t refl h)
handle_ack-grows now s t pkt s' h (new _ k) =
    Kept-grows _ s' k (slid-grows now s.window_status (advertised s pkt) (get_ack pkt) refl h)

pub handle_ack-IsLive :
    (heap : Memory) (now : Timeval) (s : Sender) (t : Timer) (pkt : Memory) (s' : Sender)
    (t' : Timer)
    → IsLive s
    → Advertises pkt
    → handle_ack heap now s t pkt ≡ some (s', t')
    → IsLive s'
handle_ack-IsLive heap now s t pkt s' t' h (low, high) e =
    let (rwnd, size) = handle_ack-window_size heap now s t pkt s' t' e in
    record {
      rwnd_low = omega (arith, rwnd, low);
      rwnd_high = omega (arith, rwnd, high);
      size = omega (arith, rwnd, size, high);
      grows = handle_ack-grows now s t pkt s' h.grows (handle_ack-Kind heap now s t pkt s' t' e);
    }

-- How many duplicate ACKs may come before the congestion window is not 0.
abbrev pub duplicates_left : WindowStatus → ℕ → ℕ → ℕ
duplicates_left fast_recovery cwnd same = if cwnd == 0 then 1 else 2
duplicates_left _ cwnd same = if cwnd == 0 then 6 - same else 3

abbrev pub left_of : Sender → ℕ
left_of s = duplicates_left s.window_status s.cwnd s.same_ack_cnt

duplicate_ack-left :
    (st : WindowStatus) (s : Sender) (t : Timer)
    → s.window_status ≡ st
    → grows_again st s.cwnd s.same_ack_cnt ≡ true
    → ((duplicate_ack s t).0.cwnd ≢ 0)
      ⊎ (left_of (duplicate_ack s t).0 < duplicates_left st s.cwnd s.same_ack_cnt)
unfolding duplicate_ack
duplicate_ack-left fast_recovery s t e h = ground (arith, e)
duplicate_ack-left timeout s t e h = ground arith
duplicate_ack-left slow_start s t e h = ground (arith, e)
duplicate_ack-left congestion_avoidance s t e h = ground (arith, e)

-- An ACK that is no news leaves a window that is not 0, or fewer of them are left to come.
pub handle_ack-opens :
    (heap : Memory) (now : Timeval) (s : Sender) (t : Timer) (pkt : Memory) (s' : Sender)
    (t' : Timer)
    → IsLive s
    → Advertises pkt
    → get_ack pkt ≡ s.base
    → handle_ack heap now s t pkt ≡ some (s', t')
    → (s'.window_size ≢ 0) ⊎ (left_of s' < left_of s)
handle_ack-opens heap now s t pkt s' t' h (low, _) at e =
    opens (handle_ack-Kind heap now s t pkt s' t' e)
  where
    opens : Kind now s t pkt s' → (s'.window_size ≢ 0) ⊎ (left_of s' < left_of s)
    opens (old below k) = absurd (omega (arith, at, below))
    opens (new above k) = absurd (omega (arith, at, above))
    opens (duplicate _ k) =
        elim (duplicate_ack-left s.window_status (advertised s pkt) t refl h.grows) [
          | inl some_cwnd ↦
              let (rwnd, size) = handle_ack-window_size heap now s t pkt s' t' e in
              inl (λ shut. some_cwnd (omega (arith, shut, size, rwnd, low, k.cwnd)))
          | inr less ↦ inr (rw (k.window_status, k.cwnd, k.same_ack_cnt) less)
        ]
