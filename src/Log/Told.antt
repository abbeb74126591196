-- ===== src/Log/Told.antt =====
-- The log of a host over a run of the two, and what it tells of the sending window.
use mathlib.Core.Option.{some-injective}
use tju_tcp.Common.{
  ℕ, ◌≡◌, ◌∙◌, refl, sym, ap, subst, some, none, Option, inl, inr, List, [], ◌∷◌, ◌++◌, map, Memory,
  ℤ, Bool-cases, ltb, leb, ◌==◌, ◌+◌, ◌&&◌, not,
}
use tju_tcp.Global.{max_sock_buf_size, Receiver, Timeval, Sender}
use tju_tcp.Timer.{Timer}
use tju_tcp.Send.{Pass, sending_thread}
use tju_tcp.Retransmit.{Resent, after_timeout, retrans_thread}
use tju_tcp.Kernel.Delivery.{All}
use tju_tcp.Packet.{get_seq}
use tju_tcp.Receive.{get_wnd_free_len, window_fits, buffered}
use tju_tcp.Receive.Window.{NoWrap}
use tju_tcp.Handle.{Handled, after_data, tju_handle_packet}
use tju_tcp.Transfer.Packets.{All-at}
use tju_tcp.Duplex.{
  sent_by, Host, Link, Act, writes_data, sends_data, resends_data, timer_fires, packet_arrives,
  reads_data, Reach, here, next, left_acts, right_acts,
}
use tju_tcp.Duplex.Handling.{FromPeer}
use tju_tcp.Duplex.Arrivals.{data_arrival, ack_arrival}
use tju_tcp.Duplex.Invariant.{IsDuplex, nextseq, expect_seq}
use tju_tcp.Duplex.Live.{
  Same, resends_from, retrans_thread-Same, sending_thread-Same, tju_send_round-Same,
}
use tju_tcp.Log.{LogEvent, cwnd_log, swnd_log, recv_log, delv_log}
use tju_tcp.Log.Emits.{
  sending_events, retrans_events, packet_events, ack_events, data_events, slide_events,
  moved_events,
}
use tju_tcp.Log.Files.{timed_event}
use tju_tcp.Duplex.Steps.{Reach-IsDuplex}
use tju_tcp.Log.Windows.{
  reads_event, Windows, windows, replay, replay-append, replay-sent, replay-ack_events,
}

Same-windows : (s s' : Sender) → Same s s' → windows s ≡ windows s'
Same-windows s s' k = rw (k.cwnd, k.rwnd, k.size) refl

late_windows :
    (s : Sender) (t : Timer) (packets : List Memory)
    → replay (windows s) (retrans_events s t (record { sender = s; timer = t; packets = packets }))
      ≡ windows (resends_from s t)
unfolding retrans_events after_timeout cwnd_log swnd_log
late_windows s t packets =
    elim (Bool-cases (t.retrans && not (s.window_size == 0) && s.is_retransing)) [
      | inl due ↦ elim (Bool-cases t.timeout_flag) [
        | inl late ↦ rw (due, late) (replay-sent _ packets)
        | inr early ↦ rw (due, early) (replay-sent _ packets)
      ]
      | inr idle ↦ rw idle (replay-sent _ packets)
    ]

replay-moved_events :
    (w : Windows) (r : Receiver) (free_len : Option ℕ) → replay w (moved_events r free_len) ≡ w
unfolding delv_log
replay-moved_events w r none = refl
replay-moved_events w r (some free_len) =
    elim (Bool-cases (ltb max_sock_buf_size (r.received_len + free_len))) [
      | inl full ↦ rw full refl
      | inr fits ↦ rw fits refl
    ]

replay-slide_events : (w : Windows) (r : Receiver) → replay w (slide_events r) ≡ w
replay-slide_events w r = elim (Bool-cases (r.mark 0 == 0)) [
  | inl empty ↦ rw empty refl
  | inr run ↦ rw run (replay-moved_events w r (get_wnd_free_len r.mark))
]

-- A delivery says nothing of the sending window.
replay-data_events : (w : Windows) (r : Receiver) (pkt : Memory) → replay w (data_events r pkt) ≡ w
unfolding data_events
replay-data_events w r pkt = elim (Bool-cases (leb r.expect_seq (get_seq pkt))) [
  | inr old ↦ rw old refl
  | inl new ↦ elim (Bool-cases (window_fits r pkt)) [
    | inl fits ↦ rw (new, fits) (replay-slide_events w (buffered r pkt))
    | inr outside ↦ rw (new, outside) (replay-slide_events w r)
  ]
]

module _ (heap : Memory) (src dst : ℕ) where
  replay-sending_events :
      (now : Timeval) (s : Sender) (t : Timer) (p : Pass)
      → sending_thread heap src dst now s t ≡ some p
      → replay (windows s) (sending_events p) ≡ windows p.sender
  unfolding sending_events
  replay-sending_events now s t p e =
      replay-sent (windows s) p.packets
      ∙ Same-windows s p.sender (sending_thread-Same heap src dst now s t p e)

  replay-retrans_events :
      (s : Sender) (t : Timer) (r : Resent)
      → retrans_thread heap src dst s t ≡ some r
      → replay (windows s) (retrans_events s t r) ≡ windows r.sender
  unfolding retrans_events
  replay-retrans_events s t r e =
      late_windows s t r.packets
      ∙ Same-windows _ r.sender (retrans_thread-Same heap src dst s t r e)

-- What a step of a host logs.
abbrev pub act_events :
    {heap : Memory} {stream : ℕ → ℕ} {total : ℕ} {me peer me' peer' : Host}
    → Act heap stream total me peer me' peer'
    → List LogEvent
act_events (writes_data _ _ _ _ _ _ _ _) = []
act_events (sends_data _ p _) = sending_events p
act_events {me = me} (resends_data r _) = retrans_events me.sock.sender me.timer r
act_events (timer_fires _ _) = []
act_events {me = me} (packet_arrives _ _ _ pkt r _ _) = packet_events me.sock pkt r
act_events (reads_data _ _ _ _) = []

module _ (heap : Memory) (stream_a : ℕ → ℕ) (total_a : ℕ) (stream_b : ℕ → ℕ) (total_b : ℕ)
    (small_a : NoWrap total_a) (small_b : NoWrap total_b) where
  -- The handler of a packet of the peer.
  replay-packet_events :
      (a b : Host) (now : Timeval) (pkt : Memory) (r : Handled)
      → IsDuplex stream_a total_a stream_b total_b a b
      → FromPeer stream_b (nextseq b) (expect_seq b) pkt
      → tju_handle_packet heap a.timer now a.sock pkt ≡ some r
      → replay (windows a.sock.sender) (packet_events a.sock pkt r) ≡ windows r.sock.sender
  unfolding packet_events recv_log
  replay-packet_events a b now pkt r h (inl (flags, c)) e =
      let (r0, _, handled, _, _, _, _) =
        data_arrival heap stream_a total_a stream_b total_b small_a small_b a b now pkt h flags c in
      subst
        (λ (x : Handled).
          replay (windows a.sock.sender) (packet_events a.sock pkt x) ≡ windows x.sock.sender)
        (some-injective _ r (sym handled ∙ e))
        (rw flags (
          replay-append (windows a.sock.sender) (data_events a.sock.receiver pkt) _
          ∙ replay-sent _ (sent_by (after_data heap a.timer a.sock r0).effects)
          ∙ replay-data_events (windows a.sock.sender) a.sock.receiver pkt))
  replay-packet_events a b now pkt r h (inr (flags, le, wide)) e =
      let (x, found, handled, _, _) =
        ack_arrival heap stream_a total_a stream_b total_b small_a small_b a b now pkt h flags le
          wide in
      subst
        (λ (x : Handled).
          replay (windows a.sock.sender) (packet_events a.sock pkt x) ≡ windows x.sock.sender)
        (some-injective _ r (sym handled ∙ e))
        (rw flags (
          replay-append (windows a.sock.sender) (ack_events a.sock.sender pkt) _
          ∙ replay-ack_events heap now a.sock.sender a.timer pkt x.0 x.1 found))

  replay-act_events :
      {a b a' b' : Host}
      → (act : Act heap stream_a total_a a b a' b') → IsDuplex stream_a total_a stream_b total_b a b
      → replay (windows a.sock.sender) (act_events act) ≡ windows a'.sock.sender
  replay-act_events {a} (writes_data s buffer len room fits le same found) h =
      Same-windows a.sock.sender s (tju_send_round-Same a.sock.sender s buffer len found)
  replay-act_events {a} (sends_data now p found) h =
      replay-sending_events heap _ _ now a.sock.sender a.timer p found
  replay-act_events {a} (resends_data r found) h =
      replay-retrans_events heap _ _ a.sock.sender a.timer r found
  replay-act_events (timer_fires v on) h = refl
  replay-act_events {a} {b} (packet_arrives now before after pkt r at found) h =
      replay-packet_events a b now pkt r h
        (All-at _ before after pkt
          (subst (All (FromPeer stream_b (nextseq b) (expect_seq b))) at h.to_a))
        found
  replay-act_events (reads_data len out r found) h = refl

-- What the left host has logged in a run.
abbrev pub left_events :
    {heap : Memory} {stream_l : ℕ → ℕ} {total_l : ℕ} {stream_r : ℕ → ℕ} {total_r : ℕ} {m n : Link}
    → Reach heap stream_l total_l stream_r total_r m n
    → List LogEvent
left_events here = []
left_events (next reach (left_acts _ _ act)) = left_events reach ++ act_events act
left_events (next reach (right_acts _ _ _)) = left_events reach

-- What is read back from the lines of a file; a line that is none is passed over.
abbrev pub replay_lines : Windows → List (Option (ℤ × LogEvent)) → Windows
replay_lines w [] = w
replay_lines w (none ∷ ls) = replay_lines w ls
replay_lines w (some (_, e) ∷ ls) = replay_lines (reads_event w e) ls

pub replay_lines-timed_event :
    (w : Windows) (es : List (Timeval × LogEvent))
    → replay_lines w (map timed_event es) ≡ replay w (map (λ (x : Timeval × LogEvent). x.1) es)
replay_lines-timed_event w [] = refl
replay_lines-timed_event w ((now, e) ∷ es) = replay_lines-timed_event (reads_event w e) es

module _ (heap : Memory) (stream_l : ℕ → ℕ) (total_l : ℕ) (stream_r : ℕ → ℕ) (total_r : ℕ)
    (small_l : NoWrap total_l) (small_r : NoWrap total_r) where
  -- From any state of a connection.
  pub replay-left_events :
      (m : Link)
      → IsDuplex stream_l total_l stream_r total_r m.left m.right
      → (k : Link) (reach : Reach heap stream_l total_l stream_r total_r m k)
      → replay (windows m.left.sock.sender) (left_events reach) ≡ windows k.left.sock.sender
  replay-left_events m h _ here = refl
  replay-left_events m h _ (next {m = k} reach (left_acts me peer act)) =
      replay-append _ (left_events reach) (act_events act)
      ∙ ap (λ w. replay w (act_events act)) (replay-left_events m h k reach)
      ∙ replay-act_events heap stream_l total_l stream_r total_r small_l small_r act
          (Reach-IsDuplex heap stream_l total_l stream_r total_r small_l small_r m h k reach)
  replay-left_events m h _ (next {m = k} reach (right_acts me peer act)) =
      replay-left_events m h k reach ∙ ap windows (still act)
    where
      still :
          {a b a' b' : Host} → Act heap stream_r total_r a b a' b' → b.sock.sender ≡ b'.sock.sender
      still (writes_data s buffer len room fits le same found) = refl
      still (sends_data now p found) = refl
      still (resends_data r found) = refl
      still (timer_fires v on) = refl
      still (packet_arrives now before after pkt r at found) = refl
      still (reads_data len out r found) = refl
