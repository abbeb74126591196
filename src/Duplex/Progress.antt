-- ===== src/Duplex/Progress.antt =====
-- A retransmission moves the connection on.
use mathlib.Core.Option.{some-injective}
use tju_tcp.Common.{
  ℕ, ◌+◌, ◌≤◌, ◌<◌, ◌≡◌, ◌≢◌, inl, inr, ◌∙◌, refl, sym, ap, subst, some, true, List, [], ◌∷◌, ◌++◌,
  arith, Memory, Bool-cases, ltb,
}
use tju_tcp.Global.{max_rwindow_size, max_sock_buf_size, no_flag, Timeval, Sender, Receiver}
use tju_tcp.Receive.{handle_data, data_len}
use tju_tcp.Receive.Window.{Carries, NoWrap, handle_data-Keeps}
use tju_tcp.Receive.Progress.{handle_data-forward}
use tju_tcp.Send.Stream.{IsSegment, Covers}
use tju_tcp.Retransmit.Covers.{retrans_thread-Covers}
use tju_tcp.Handle.{ack_packet}
use tju_tcp.Transfer.Packets.{Covers-le, IsSegment-Carries}
use tju_tcp.Transfer.Invariant.{no_wrap}
use tju_tcp.Packet.{get_ack, get_flags}
use tju_tcp.Timer.{Timer}
use Prim.Native.Nat.{max}
use tju_tcp.Ack.{handle_ack}
use tju_tcp.Ack.Opening.{Advertises}
use tju_tcp.Duplex.{
  Reach-trans, Host, Link, resends_data, packet_arrives, Reach, here, next, left_acts, right_acts,
  local_port, remote_port, with_sender, gets,
}
use tju_tcp.Duplex.Invariant.{IsDuplex, IsDuplex-swap, ends, nextseq, base, expect_seq}
use tju_tcp.Duplex.Base.{base-retrans_thread}
use tju_tcp.Duplex.Acts.{resending}
use tju_tcp.Duplex.Arrivals.{data_arrival, ack_arrival}

-- Two hosts, once the one has handled a packet and the other its ACK.
abbrev pub after_answer : Host → Host → Receiver → Memory → Sender → Timer → Link
after_answer a b r ack s t = record {
  left = with_sender (gets a (ack ∷ [])) s t;
  right = gets (record b { sock = record b.sock { receiver = r } }) [];
}

-- Neither application writes, and that of the sender does not read.
abbrev pub Quiet : Host → Host → Link → Type 0
Quiet a b k =
    (k.left.written ≡ a.written) × (k.right.written ≡ b.written) × (k.left.delivered ≡ a.delivered)

-- A list of packets that carry something has a first one.
pub first_of :
    (stream : ℕ → ℕ) (q q' : ℕ) (ps : List Memory)
    → Covers stream q ps q'
    → q < q'
    → (p : Memory) × (rest : List Memory) × (n : ℕ) × (ps ≡ p ∷ rest)
      × IsSegment stream q n p
      × (q + n ≤ q')
first_of stream q q' [] c lt = absurd (omega arith)
first_of stream q q' (p ∷ ps) (n, s, c) lt = (p, ps, n, refl, s, Covers-le stream (q + n) q' ps c)

data_len-IsSegment :
    (stream : ℕ → ℕ) (q n : ℕ) (pkt : Memory) → IsSegment stream q n pkt → data_len pkt ≡ n
unfolding data_len
data_len-IsSegment stream q n pkt s = omega (arith, s.hlen, s.plen, s.short)

module _ (heap : Memory) (stream_a : ℕ → ℕ) (total_a : ℕ) (stream_b : ℕ → ℕ) (total_b : ℕ)
    (small_a : NoWrap total_a) (small_b : NoWrap total_b) where
  -- The packet at `base` takes the receiver behind `base`, whether it is new or not.
  behind-base :
      (a b : Host) (pkt : Memory) (n : ℕ) (r : Receiver)
      → IsDuplex stream_a total_a stream_b total_b a b
      → b.sock.receiver.received_len + max_rwindow_size ≤ max_sock_buf_size
      → IsSegment stream_a (base a) n pkt
      → Carries stream_a (nextseq a) pkt
      → handle_data heap b.sock.receiver pkt ≡ some r
      → base a < r.expect_seq
  behind-base a b pkt n r h room s c found = elim (Bool-cases (ltb (base a) (expect_seq b))) [
    | inl behind ↦
        let (r', found', kept) =
          handle_data-Keeps stream_a (nextseq a)
            (no_wrap stream_a total_a small_a (ends a b) h.forth) heap b.sock.receiver pkt
            h.forth.holds c in
        subst (λ (x : Receiver). base a < x.expect_seq) (some-injective r' r (sym found' ∙ found))
          (ground (arith, kept.forward))
    | inr at ↦
        let len = data_len-IsSegment stream_a (base a) n pkt s in
        let (r', found', moved, _) =
          handle_data-forward stream_a (nextseq a) heap b.sock.receiver pkt
            (no_wrap stream_a total_a small_a (ends a b) h.forth) h.forth.holds c
            (ground (arith, s.seq, h.acked_a)) (omega (arith, len, s.some_bytes))
            (omega (arith, len, s.short)) room in
        subst (λ (x : Receiver). base a < x.expect_seq) (some-injective r' r (sym found' ∙ found))
          (omega (arith, h.acked_a, moved, len, s.some_bytes))
  ]

  -- The packet of `a` arrives, and so does the ACK that answers it.
  pub record Answered (a b : Host) (now : Timeval) (pkt : Memory) : Type 0 where
    pub receiver : Receiver
    pub filed : handle_data heap b.sock.receiver pkt ≡ some receiver
    pub forward : expect_seq b ≤ receiver.expect_seq
    pub ack : Memory
    pub of_ack : get_ack ack ≡ receiver.expect_seq
    pub wide : Advertises ack
    pub sender : Sender
    pub timer : Timer
    pub taken : handle_ack heap now a.sock.sender a.timer ack ≡ some (sender, timer)
    pub slides : sender.base ≡ max (base a) receiver.expect_seq
    pub way :
        Reach heap stream_a total_a stream_b total_b
          (record { left = a; right = b })
          (after_answer a b receiver ack sender timer)
    pub duplex :
        let k = after_answer a b receiver ack sender timer in
        IsDuplex stream_a total_a stream_b total_b k.left k.right

  pub answer :
      (a b : Host) (now : Timeval) (before after : List Memory) (pkt : Memory)
      → IsDuplex stream_a total_a stream_b total_b a b
      → get_flags pkt ≡ no_flag
      → Carries stream_a (nextseq a) pkt
      → b.inbox ≡ before ++ pkt ∷ after
      → Answered a b now pkt
  answer a b now before after pkt h none_set carried at =
      let (r, filed, handled, h', flags, of_ack, wide) =
        data_arrival heap stream_b total_b stream_a total_a small_b small_a b a now pkt
          (IsDuplex-swap stream_a total_a stream_b total_b a b h) none_set carried in
      let (r', filed', kept) =
        handle_data-Keeps stream_a (nextseq a) (no_wrap stream_a total_a small_a (ends a b) h.forth)
          heap b.sock.receiver pkt h.forth.holds carried in
      let ack = ack_packet heap (record b.sock { receiver = r }) in
      let b' = record b { sock = record b.sock { receiver = r } } in
      let a' = gets a (ack ∷ []) in
      let (s, taken, handled', h'', slides) =
        ack_arrival heap stream_a total_a stream_b total_b small_a small_b a' b' now ack
          (IsDuplex-swap stream_b total_b stream_a total_a b' a' h') flags (omega (arith, of_ack))
          wide in
      record {
        receiver = r;
        filed = filed;
        forward =
            subst (λ (x : Receiver). expect_seq b ≤ x.expect_seq)
              (some-injective r' r (sym filed' ∙ filed)) kept.forward;
        ack = ack;
        of_ack = of_ack;
        wide = wide;
        sender = s.0;
        timer = s.1;
        taken = taken;
        slides = slides ∙ ap (λ q. max (base a) q) of_ack;
        way =
            next (next here (right_acts b' a' (packet_arrives now before after pkt _ at handled)))
              (left_acts _ _ (packet_arrives now a.inbox [] ack _ refl handled'));
        duplex = h'';
      }

  -- The packet at `base` is on its way: when it is answered, `base` has moved.
  pub exchange :
      (a b : Host) (now : Timeval) (before after : List Memory) (pkt : Memory) (n : ℕ)
      → IsDuplex stream_a total_a stream_b total_b a b
      → b.sock.receiver.received_len + max_rwindow_size ≤ max_sock_buf_size
      → IsSegment stream_a (base a) n pkt
      → base a + n ≤ nextseq a
      → b.inbox ≡ before ++ pkt ∷ after
      → (k : Link) × Reach heap stream_a total_a stream_b total_b (record { left = a; right = b }) k
        × (base a < base k.left)
        × (base k.left ≡ expect_seq k.right)
        × Quiet a b k
        × IsDuplex stream_a total_a stream_b total_b k.left k.right
  exchange a b now before after pkt n h room segment end at =
      let carried = IsSegment-Carries stream_a (nextseq a) (base a) n pkt segment end in
      let e = answer a b now before after pkt h segment.flags carried at in
      let further = behind-base a b pkt n e.receiver h room segment carried e.filed in
      (
        after_answer a b e.receiver e.ack e.sender e.timer,
        e.way,
        omega (arith, e.slides, further),
        omega (arith, e.slides, further),
        (refl, refl, refl),
        e.duplex,
      )

  -- Of two connected hosts that hold their streams, the one has data under way that is not acknowledged,
  -- and a retransmission is due: its timer has fired, or three ACKs were the same. Its window is not 0,
  -- and the receive buffer of the other has room for a whole window. Then there is a way on from any such
  -- state, whatever was lost: `retrans_thread` has its round, the first of its packets arrives, and the
  -- ACK of that one arrives. After it `base` has moved ahead, to all that the other has received, and neither has written, nor has
  -- the one read.
  pub retransmission-moves :
      (a b : Host) (now : Timeval)
      → IsDuplex stream_a total_a stream_b total_b a b
      → base a < nextseq a
      → a.timer.retrans ≡ true
      → a.sock.sender.window_size ≢ 0
      → a.sock.sender.is_retransing ≡ true
      → b.sock.receiver.received_len + max_rwindow_size ≤ max_sock_buf_size
      → (k : Link) × Reach heap stream_a total_a stream_b total_b (record { left = a; right = b }) k
        × (base a < base k.left)
        × (base k.left ≡ expect_seq k.right)
        × Quiet a b k
        × IsDuplex stream_a total_a stream_b total_b k.left k.right
  retransmission-moves a b now h lt due window on room =
      let (r, found, _, covers, stays, _, _, _, _, _, _) =
        retrans_thread-Covers stream_a heap (local_port a) (remote_port a) h.open_a.local
          h.open_a.remote h.forth.origin a.sock.sender a.timer h.forth.sends
          (omega (arith, h.forth.end, h.forth.within, small_a)) due window on in
      let same = base-retrans_thread heap _ _ _ _ r found in
      let (p, rest, n, split, segment, end) = first_of stream_a _ _ r.packets covers lt in
      let a' = with_sender a r.sender r.timer in
      let b' = gets b r.packets in
      let (k, reach, moved, all, quiet, h') =
        exchange a' b' now b.inbox rest p n
          (resending heap stream_a total_a stream_b total_b small_a small_b a b r h found) room
          (subst (λ q. IsSegment stream_a q n p) (sym same) segment)
          (omega (arith, same, end, stays)) (ap (λ ps. b.inbox ++ ps) split) in
      (
        k,
        Reach-trans heap _ _ _ _ (next here (left_acts a' b' (resends_data r found))) reach,
        omega (arith, moved, same),
        all,
        quiet,
        h',
      )
