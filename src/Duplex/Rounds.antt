-- ===== src/Duplex/Rounds.antt =====
-- The rounds of the threads by which `base` moves on, from any state.
use tju_tcp.Common.{
  ℕ, ◌<◌, ◌≡◌, ◌≢◌, ◌⊎◌, ◌∙◌, refl, sym, ap, subst, some, inl, inr, true, false, [], ◌++◌, arith,
  Memory, Bool-cases,
}
use tju_tcp.Global.{Timeval, Sender, Receiver}
use tju_tcp.Timer.{Timer}
use tju_tcp.Send.{may_send, send_end}
use tju_tcp.Send.Stream.{IsSegment, Sends}
use tju_tcp.Send.Loop.{sending_thread-Covers}
use tju_tcp.Retransmit.{rearm, retrans_thread}
use tju_tcp.Retransmit.Covers.{retrans_thread-Covers}
use tju_tcp.Receive.Window.{NoWrap}
use tju_tcp.Ack.Opening.{IsLive}
use tju_tcp.Duplex.{
  Host, Link, left_acts, sends_data, resends_data, local_port, remote_port, with_sender, gets,
}
use tju_tcp.Duplex.Base.{base-sending_thread, base-retrans_thread}
use tju_tcp.Duplex.Live.{window_size-retrans_thread}
use tju_tcp.Duplex.Invariant.{IsDuplex, nextseq, base}
use tju_tcp.Duplex.Progress.{first_of, exchange, retransmission-moves}
use tju_tcp.Duplex.Ways.{Way, Way-here, Way-Step, Way-trans, comes_due, IsRefused, drains}

-- A round of `retrans_thread` that only asks for the next one.
retrans_thread-rearm :
    (heap : Memory) (src dst : ℕ) (s : Sender) (t : Timer)
    → t.retrans ≡ true
    → s.window_size ≢ 0
    → s.is_retransing ≡ false
    → s.ack_cnt < s.have_send_len
    → (t' : Timer) × (retrans_thread heap src dst s t
        ≡ some (record { sender = record s { is_retransing = true }; timer = t'; packets = [] }))
      × (t'.retrans ≡ true)
unfolding retrans_thread rearm
retrans_thread-rearm heap src dst s t due opened off more =
    (record t { retrans = true }, ground (arith, due, opened, off, more), refl)

-- A sender with room in its window and something to send has packets for it.
send_end-more :
    (stream : ℕ → ℕ) (origin : ℕ) (s : Sender)
    → Sends stream origin s
    → IsLive s
    → s.window_size ≢ 0
    → s.is_retransing ≡ false
    → s.base ≡ s.nextseq
    → s.have_send_len < s.sending_len
    → (may_send s ≡ true) × (s.have_send_len < send_end s)
unfolding may_send send_end
send_end-more stream origin s h live opened off at more = (
  ground (arith, h.base, h.next, h.sent, h.room, live.size),
  ground (arith, h.base, h.next, h.sent, h.room, live.size),
)

module _ (heap : Memory) (stream_a : ℕ → ℕ) (total_a : ℕ) (stream_b : ℕ → ℕ) (total_b : ℕ)
    (small_a : NoWrap total_a) (small_b : NoWrap total_b) where
  abbrev Both : Host → Host → Type 0
  Both = IsDuplex stream_a total_a stream_b total_b

  abbrev Ways : Host → Host → Link → Type 0
  Ways = Way heap stream_a total_a stream_b total_b

  -- A retransmission becomes due.
  record Due (a b : Host) (k : Link) : Type 0 where
    way : Ways a b k
    due : k.left.timer.retrans ≡ true
    on : k.left.sock.sender.is_retransing ≡ true
    opened : k.left.sock.sender.window_size ≢ 0
    more : base k.left < nextseq k.left
    still : k.right.sock.receiver ≡ b.sock.receiver

  falls-Due :
      (a b : Host)
      → Both a b
      → a.sock.sender.window_size ≢ 0
      → base a < nextseq a
      → ((k : Link) × Due a b k) ⊎ IsRefused a
  falls-Due a b h opened more =
      elim (comes_due heap stream_a total_a stream_b total_b small_a small_b a b h
        (ground (arith, more))) [
          | inr refused ↦ inr refused
          | inl (t, w, due) ↦ elim (Bool-cases a.sock.sender.is_retransing) [
            | inl on ↦ inl (
              record { left = record a { timer = t }; right = b },
              record { way = w; due = due; on = on; opened = opened; more = more; still = refl },
            )
            | inr off ↦
                let (t', found, due') =
                  retrans_thread-rearm heap (local_port a) (remote_port a) a.sock.sender t due
                    opened off (omega (arith, more, h.forth.sends.base, h.forth.sends.next)) in
                inl (
                  record {
                    left = with_sender a (record a.sock.sender { is_retransing = true }) t';
                    right = gets b [];
                  },
                  record {
                    way =
                        Way-Step heap stream_a total_a stream_b total_b small_a small_b a b _ _ w
                          (left_acts _ _ (resends_data _ found)) (refl, refl, refl) (omega arith);
                    due = due';
                    on = refl;
                    opened = opened;
                    more = more;
                    still = refl;
                  },
                )
          ]
        ]

  -- What is not acknowledged is sent again, and `base` moves.
  pub resends_on :
      (a b : Host) (now : Timeval)
      → Both a b
      → a.sock.sender.window_size ≢ 0
      → base a < nextseq a
      → (k : Link) × Ways a b k × ((base a < base k.left) ⊎ IsRefused k.left)
  resends_on a b now h opened more =
      let (b', w, empty) = drains heap stream_a total_a stream_b total_b small_a small_b a b h in
      elim (falls-Due a b' w.duplex opened more) [
        | inr refused ↦ (record { left = a; right = b' }, w, inr refused)
        | inl (d, due) ↦
            let (k, reach, moved, _, quiet, h') =
              retransmission-moves heap stream_a total_a stream_b total_b small_a small_b d.left
                d.right now due.way.duplex due.more due.due due.opened due.on
                (omega (arith, empty, ap (λ (r : Receiver). r.received_len) due.still)) in
            (
              k,
              Way-trans heap stream_a total_a stream_b total_b small_a small_b a b _ k w (
                  Way-trans heap stream_a total_a stream_b total_b small_a small_b a b' d k due.way
                    (record {
                      reach = reach;
                      duplex = h';
                      quiet = quiet;
                      onward = omega (arith, moved);
                    })),
              inl (omega (arith, moved, due.way.onward)),
            )
      ]

  -- Everything is acknowledged: a request for a retransmission is dropped.
  pub record Idle (a b : Host) (k : Link) : Type 0 where
    pub way : Ways a b k
    pub off : k.left.sock.sender.is_retransing ≡ false
    pub opened : k.left.sock.sender.window_size ≢ 0
    pub same : base k.left ≡ base a
    pub next : nextseq k.left ≡ nextseq a

  pub falls-Idle :
      (a b : Host)
      → Both a b
      → a.sock.sender.window_size ≢ 0
      → base a ≡ nextseq a
      → (k : Link) × Idle a b k
  falls-Idle a b h opened all = elim (Bool-cases a.sock.sender.is_retransing) [
    | inr off ↦ (
      record { left = a; right = b },
      record {
        way = Way-here heap stream_a total_a stream_b total_b small_a small_b a b h;
        off = off;
        opened = opened;
        same = refl;
        next = refl;
      },
    )
    | inl on ↦
        let due : a.timer.retrans ≡ true = ground (arith, h.watched_a.asked, on, all) in
        let (r, found, _, _, next, _, off, _, _, _, _) =
          retrans_thread-Covers stream_a heap (local_port a) (remote_port a) h.open_a.local
            h.open_a.remote h.forth.origin a.sock.sender a.timer h.forth.sends
            (omega (arith, h.forth.end, h.forth.within, small_a)) due opened on in
        let same = base-retrans_thread heap _ _ _ _ r found in
        (
          record { left = with_sender a r.sender r.timer; right = gets b r.packets },
          record {
            way =
                Way-Step heap stream_a total_a stream_b total_b small_a small_b a b _ _
                  (Way-here heap stream_a total_a stream_b total_b small_a small_b a b h)
                  (left_acts _ _ (resends_data r found)) (refl, refl, refl) (omega (arith, same));
            off = off;
            opened =
                window_size-retrans_thread heap (local_port a) (remote_port a) a.sock.sender a.timer
                  r h.live_a opened found;
            same = same;
            next = next;
          },
        )
  ]

  -- What is not sent yet is sent, and `base` moves.
  pub sends_on :
      (a b : Host) (now : Timeval)
      → Both a b
      → a.sock.sender.window_size ≢ 0
      → a.sock.sender.is_retransing ≡ false
      → base a ≡ nextseq a
      → base a < a.written
      → (k : Link) × Ways a b k × (base a < base k.left)
  sends_on a b now h opened off at more =
      let (b', w, empty) = drains heap stream_a total_a stream_b total_b small_a small_b a b h in
      let (p, found, _, covers, _, what) =
        sending_thread-Covers stream_a heap (local_port a) (remote_port a) h.open_a.local
          h.open_a.remote now h.forth.origin a.sock.sender a.timer h.forth.sends
          (omega (arith, h.forth.end, h.forth.within, small_a)) in
      let (may, lt) =
        send_end-more stream_a h.forth.origin a.sock.sender h.forth.sends h.live_a opened off at
          (omega (arith, at, more, h.forth.end, h.forth.sends.next)) in
      let same = base-sending_thread heap _ _ now _ _ p found in
      let (pkt, rest, n, split, segment, end) = first_of stream_a _ _ p.packets covers (elim what [
        | inl idle ↦ absurd (ground (arith, idle, may))
        | inr sent ↦ omega (arith, sent, lt, h.forth.sends.next)
      ]) in
      let a' = with_sender a p.sender p.timer in
      let b'' = gets b' p.packets in
      let v =
        Way-Step heap stream_a total_a stream_b total_b small_a small_b a b _ _ w
          (left_acts a' b'' (sends_data now p found)) (refl, refl, refl) (omega (arith, same)) in
      let (k, reach, moved, _, quiet, h') =
        exchange heap stream_a total_a stream_b total_b small_a small_b a' b'' now b'.inbox rest pkt
          n v.duplex (omega (arith, empty))
          (subst (λ q. IsSegment stream_a q n pkt) (sym at ∙ sym same) segment)
          (omega (arith, at, same, end)) (ap (λ ps. b'.inbox ++ ps) split) in
      (
        k,
        Way-trans heap stream_a total_a stream_b total_b small_a small_b a b _ k v
            (record { reach = reach; duplex = h'; quiet = quiet; onward = omega (arith, moved) }),
        omega (arith, moved, same),
      )
