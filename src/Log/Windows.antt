-- ===== src/Log/Windows.antt =====
-- What a reader of the log knows of the sending window.
use tju_tcp.Common.{
  ℕ, ◌≡◌, ◌∙◌, refl, sym, ap, some, inl, inr, true, false, List, [], ◌∷◌, ◌++◌, map, arith, Memory,
  ℤ, Bool-cases, lt→ltb, ltb, ◌==◌,
}
use tju_tcp.Global.{
  Timeval, Sender, SenderWindow, WindowStatus, slow_start, congestion_avoidance, fast_recovery,
  timeout,
}
use tju_tcp.Packet.{get_ack, get_advertised_window}
use tju_tcp.Timer.{Timer}
use tju_tcp.Ack.{
  handle_ack, duplicate_ack, slid, advertised, grow, update_size, starts_recovery, count_duplicate,
  is_fast_recovery,
}
use tju_tcp.Send.{min_c}
use tju_tcp.Ack.Congestion.{Control, control-slid, slid-IsSized}
use tju_tcp.Ack.Cases.{Kept, Kind, old, duplicate, new, handle_ack-Kind}
use tju_tcp.Log.{LogEvent, cwnd, rwnd, swnd, as_int, send_log, cwnd_log, rwnd_log, swnd_log}
use tju_tcp.Log.Emits.{duplicate_events, grow_events, new_ack_events, ack_events}

-- The last size of each kind.
pub record Windows : Type 0 where
  pub of_cwnd : ℤ
  pub of_rwnd : ℤ
  pub of_swnd : ℤ

abbrev pub reads_event : Windows → LogEvent → Windows
reads_event w (cwnd _ size) = record w { of_cwnd = size }
reads_event w (rwnd size) = record w { of_rwnd = size }
reads_event w (swnd size) = record w { of_swnd = size }
reads_event w _ = w

abbrev pub replay : Windows → List LogEvent → Windows
replay w [] = w
replay w (e ∷ es) = replay (reads_event w e) es

abbrev pub windows : Sender → Windows
windows s = record {
  of_cwnd = as_int s.cwnd;
  of_rwnd = as_int s.rwnd;
  of_swnd = as_int s.window_size;
}

pub replay-append :
    (w : Windows) (es fs : List LogEvent) → replay w (es ++ fs) ≡ replay (replay w es) fs
replay-append w [] fs = refl
replay-append w (e ∷ es) fs = replay-append (reads_event w e) es fs

-- Packets that were sent say nothing of the window.
pub replay-sent : (w : Windows) (ps : List Memory) → replay w (map send_log ps) ≡ w
unfolding send_log
replay-sent w [] = refl
replay-sent w (p ∷ ps) = replay-sent w ps

Kept-windows : (s s' : Sender) → Kept s s' → windows s ≡ windows s'
Kept-windows s s' k = rw (k.cwnd, k.rwnd, k.window_size) refl

rwnd-count_duplicate : (st : WindowStatus) (w : SenderWindow) → (count_duplicate st w).rwnd ≡ w.rwnd
rwnd-count_duplicate slow_start w = refl
rwnd-count_duplicate congestion_avoidance w = refl
rwnd-count_duplicate fast_recovery w = refl
rwnd-count_duplicate timeout w = refl

cwnd-count_duplicate :
    (st : WindowStatus) (w : SenderWindow)
    → is_fast_recovery st ≡ false
    → (count_duplicate st w).cwnd ≡ w.cwnd
cwnd-count_duplicate slow_start w e = refl
cwnd-count_duplicate congestion_avoidance w e = refl
cwnd-count_duplicate fast_recovery w e = cc
cwnd-count_duplicate timeout w e = refl

replay-duplicate_events :
    (s : Sender) (t : Timer) (w : Windows)
    → w.of_rwnd ≡ as_int s.rwnd
    → w.of_cwnd ≡ as_int s.cwnd
    → replay w (duplicate_events s) ≡ windows (duplicate_ack s t).0
unfolding duplicate_events duplicate_ack cwnd_log swnd_log
replay-duplicate_events s t w r c =
    let rwnd = rwnd-count_duplicate s.window_status s.wnd_send in
    elim (Bool-cases (starts_recovery (count_duplicate s.window_status s.wnd_send))) [
      | inl third ↦ elim (Bool-cases (is_fast_recovery s.window_status)) [
        | inl fast ↦ rw (third, fast, r, rwnd) refl
        | inr slow ↦ rw (third, slow, r, rwnd) refl
      ]
      | inr other ↦ elim (Bool-cases (is_fast_recovery s.window_status)) [
        | inl fast ↦ rw (other, fast, r, rwnd) refl
        | inr slow ↦
            rw (other, slow, r, c, rwnd, cwnd-count_duplicate s.window_status s.wnd_send slow) refl
      ]
    ]

-- The congestion window after an ACK of new data.
replay-grow_events :
    (st : WindowStatus) (s : Sender) (w : Windows)
    → w.of_cwnd ≡ as_int s.cwnd
    → replay w
        (grow_events st (record s { wnd_send = grow st (record s.wnd_send { same_ack_cnt = 0 }) }))
      ≡ record w { of_cwnd = as_int (grow st (record s.wnd_send { same_ack_cnt = 0 })).cwnd }
unfolding cwnd_log
replay-grow_events slow_start s w c = refl
replay-grow_events congestion_avoidance s w c = refl
replay-grow_events fast_recovery s w c = ap (λ x. record w { of_cwnd = x }) c
replay-grow_events timeout s w c = ap (λ x. record w { of_cwnd = x }) c

rwnd-grow : (st : WindowStatus) (w : SenderWindow) → (grow st w).rwnd ≡ w.rwnd
rwnd-grow slow_start w = ground arith
rwnd-grow congestion_avoidance w = refl
rwnd-grow fast_recovery w = refl
rwnd-grow timeout w = refl

windows-slid :
    (now : Timeval) (s : Sender) (ack : ℕ)
    → windows (slid now s ack)
      ≡ windows (record s {
        wnd_send = update_size (grow s.window_status (record s.wnd_send { same_ack_cnt = 0 }));
      })
windows-slid now s ack = rw (cwnd_same, rwnd_same, size_same) refl
  where
    w : SenderWindow
    w = grow s.window_status (record s.wnd_send { same_ack_cnt = 0 })

    cwnd_same : (slid now s ack).cwnd ≡ w.cwnd
    cwnd_same = ap (λ (c : Control). c.cwnd) (control-slid now s ack)

    rwnd_same : (slid now s ack).rwnd ≡ w.rwnd
    rwnd_same = (slid-IsSized now s ack).1 ∙ sym (rwnd-grow s.window_status _)

    size_same : (slid now s ack).window_size ≡ min_c w.cwnd w.rwnd
    size_same = ground (arith, slid-IsSized now s ack, cwnd_same, rwnd_same)

replay-new_ack_events :
    (now : Timeval) (s : Sender) (ack : ℕ) (w : Windows)
    → w.of_rwnd ≡ as_int s.rwnd
    → w.of_cwnd ≡ as_int s.cwnd
    → replay w (new_ack_events s) ≡ windows (slid now s ack)
unfolding new_ack_events swnd_log
replay-new_ack_events now s ack w r c =
    replay-append w (grow_events s.window_status _) _
    ∙ ap
        (λ x. replay x (
          swnd_log (record s {
            wnd_send = update_size (grow s.window_status (record s.wnd_send { same_ack_cnt = 0 }));
          })
          ∷ []))
        (replay-grow_events s.window_status s w c)
    ∙ rw (r, rwnd-grow s.window_status (record s.wnd_send { same_ack_cnt = 0 })) refl
    ∙ sym (windows-slid now s ack)

-- The sizes that the log of an ACK tells last are those of the window that the handler leaves.
pub replay-ack_events :
    (heap : Memory) (now : Timeval) (s : Sender) (t : Timer) (pkt : Memory) (s' : Sender)
    (t' : Timer)
    → handle_ack heap now s t pkt ≡ some (s', t')
    → replay (windows s) (ack_events s pkt) ≡ windows s'
unfolding ack_events rwnd_log swnd_log
replay-ack_events heap now s t pkt s' t' e = told (handle_ack-Kind heap now s t pkt s' t' e)
  where
    told : Kind now s t pkt s' → replay (windows s) (ack_events s pkt) ≡ windows s'
    told (old below k) = rw (lt→ltb _ _ below) (Kept-windows _ s' k)
    told (duplicate at k) =
        rw (not_below, same)
          (replay-duplicate_events (advertised s pkt) t
              (record (windows s) { of_rwnd = as_int (get_advertised_window pkt) }) refl refl
            ∙ Kept-windows _ s' k)
      where
        not_below : ltb (get_ack pkt) s.base ≡ false
        not_below = ground (arith, at)

        same : (get_ack pkt == s.base) ≡ true
        same = ground (arith, at)
    told (new above k) =
        rw (not_below, other)
          (replay-new_ack_events now (advertised s pkt) (get_ack pkt)
              (record (windows s) { of_rwnd = as_int (get_advertised_window pkt) }) refl refl
            ∙ Kept-windows _ s' k)
      where
        not_below : ltb (get_ack pkt) s.base ≡ false
        not_below = ground (arith, above)

        other : (get_ack pkt == s.base) ≡ false
        other = ground (arith, above)
