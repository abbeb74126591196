-- ===== src/Duplex/Queues.antt =====
-- The two hosts are, for their applications, a queue of bytes each way.
use tju_tcp.Common.{
  ℕ, zero, suc, ◌+◌, ◌-◌, ◌^◌, ◌≤◌, ◌<◌, ◌≡◌, ◌∙◌, refl, sym, ap, List, [], ◌∷◌, ◌++◌, arith,
  Memory, slice, slice-ext, slice-append,
}
use tju_tcp.Global.{SockAddr, Sock}
use tju_tcp.Timer.{Timer}
use tju_tcp.Duplex.Delivery.{begin, begin-IsDuplex}
use tju_tcp.Receive.Window.{NoWrap}
use tju_tcp.Transfer.Invariant.{IsReliable-delivered}
use tju_tcp.Duplex.{
  Host, Link, Act, writes_data, sends_data, resends_data, timer_fires, packet_arrives, reads_data,
  left_acts, right_acts, Reach, here, next,
}
use tju_tcp.Duplex.Invariant.{IsDuplex, IsDuplex-swap}
use tju_tcp.Duplex.Steps.{Act-IsDuplex, Reach-IsDuplex}
use tju_tcp.Duplex.Pipes.{
  Pipes, Serves, silent, puts, takes, idles, Service, starts, by_left, by_right, empty_pipes,
  call_of, trace,
}

abbrev tail : List ℕ → List ℕ
tail [] = []
tail (x ∷ xs) = xs

-- Of two beginnings of a stream, the one before the other, the rest of the longer.
slice-cut :
    (stream : ℕ → ℕ) (q m n : ℕ) (out : List ℕ)
    → slice stream q m ++ out ≡ slice stream q n
    → (k : ℕ) × (n ≡ m + k) × (out ≡ slice stream (q + m) k)
unfolding slice
slice-cut stream q zero n out e = (n, omega arith, e ∙ ap (λ i. slice stream i n) (omega arith))
slice-cut stream q (suc m) zero out e = cc
slice-cut stream q (suc m) (suc n) out e =
    let (k, len, rest) = slice-cut stream (q + 1) m n out (ap tail e) in
    (k, omega (arith, len), rest ∙ ap (λ i. slice stream i k) (omega arith))

-- What `src` has written and `dst` has not read.
pub record Queued (stream : ℕ → ℕ) (src dst : Host) (queue : List ℕ) : Type 0 where
  pub given : ℕ
  pub left : ℕ
  pub delivered : dst.delivered ≡ slice stream 1 given
  pub written : 1 + given + left ≡ src.written
  pub waiting : queue ≡ slice stream (1 + given) left

-- The other fields of the hosts do not matter.
Queued-same :
    (stream : ℕ → ℕ) (src dst src' dst' : Host) (queue : List ℕ)
    → src'.written ≡ src.written
    → dst'.delivered ≡ dst.delivered
    → Queued stream src dst queue
    → Queued stream src' dst' queue
Queued-same stream src dst src' dst' queue w d h = record {
  given = h.given;
  left = h.left;
  delivered = d ∙ h.delivered;
  written = h.written ∙ sym w;
  waiting = h.waiting;
}

Queued-writes :
    (stream : ℕ → ℕ) (src dst src' : Host) (queue : List ℕ) (buffer : Memory) (len : ℕ)
    → src'.written ≡ src.written + len
    → ((t : ℕ) → t < len → buffer t ≡ stream (src.written + t))
    → Queued stream src dst queue
    → Queued stream src' dst (queue ++ slice buffer 0 len)
Queued-writes stream src dst src' queue buffer len w same h = record {
  given = h.given;
  left = h.left + len;
  delivered = h.delivered;
  written = omega (arith, h.written, w);
  waiting = rw h.waiting (
      ap (λ bytes. slice stream (1 + h.given) h.left ++ bytes)
        (slice-ext buffer stream 0 (1 + h.given + h.left) len
          (λ t lt. ap buffer (omega arith) ∙ same t lt ∙ ap stream (omega (arith, h.written))))
      ∙ sym (slice-append stream (1 + h.given) h.left len));
}

-- Reading the next bytes of the stream takes them off the queue.
Queued-reads :
    (stream : ℕ → ℕ) (src dst dst' : Host) (queue out : List ℕ) (n : ℕ)
    → dst'.delivered ≡ dst.delivered ++ out
    → dst'.delivered ≡ slice stream 1 n
    → 1 + n ≤ src.written
    → Queued stream src dst queue
    → (rest : List ℕ) × (queue ≡ out ++ rest) × Queued stream src dst' rest
Queued-reads stream src dst dst' queue out n d all le h =
    let (k, len, bytes) =
      slice-cut stream 1 h.given n out (ap (λ xs. xs ++ out) (sym h.delivered) ∙ sym d ∙ all) in
    (
      slice stream (1 + h.given + k) (h.left - k),
      h.waiting
          ∙ ap (λ m. slice stream (1 + h.given) m) (omega (arith, len, le, h.written))
          ∙ slice-append stream (1 + h.given) k (h.left - k)
          ∙ ap (λ xs. xs ++ slice stream (1 + h.given + k) (h.left - k)) (sym bytes),
      record {
        given = n;
        left = h.left - k;
        delivered = all;
        written = omega (arith, len, le, h.written);
        waiting = ap (λ q. slice stream q (h.left - k)) (omega (arith, len));
      },
    )

module _ (heap : Memory) (stream_a : ℕ → ℕ) (total_a : ℕ) (stream_b : ℕ → ℕ) (total_b : ℕ)
    (small_a : NoWrap total_a) (small_b : NoWrap total_b) where
  -- What the queues are behind a step of `a`.
  abbrev Served :
      {a b a' b' : Host} → Act heap stream_a total_a a b a' b' → List ℕ → List ℕ → Type 0
  Served {a} {b} {a'} {b'} act outgoing incoming =
      (outgoing' : List ℕ) × (incoming' : List ℕ) × Serves outgoing incoming (call_of act) outgoing'
        incoming'
      × Queued stream_a a' b' outgoing'
      × Queued stream_b b' a' incoming'

  unseen :
      {a b a' b' : Host} {outgoing incoming : List ℕ}
      → a'.written ≡ a.written
      → b'.delivered ≡ b.delivered
      → b'.written ≡ b.written
      → a'.delivered ≡ a.delivered
      → Queued stream_a a b outgoing
      → Queued stream_b b a incoming
      → (outgoing' : List ℕ) × (incoming' : List ℕ) × Serves outgoing incoming silent outgoing'
          incoming'
        × Queued stream_a a' b' outgoing'
        × Queued stream_b b' a' incoming'
  unseen {a} {b} {a'} {b'} {outgoing} {incoming} w d w' d' forth back = (
    outgoing,
    incoming,
    idles,
    Queued-same stream_a a b a' b' outgoing w d forth,
    Queued-same stream_b b a b' a' incoming w' d' back,
  )

  Act-Serves :
      {a b a' b' : Host} {outgoing incoming : List ℕ}
      → (act : Act heap stream_a total_a a b a' b') → IsDuplex stream_a total_a stream_b total_b a b
      → Queued stream_a a b outgoing
      → Queued stream_b b a incoming
      → Served act outgoing incoming
  Act-Serves {a} {b} {outgoing = outgoing} {incoming = incoming}
        (writes_data s buffer len room fits le same found) h forth back =
      (
        outgoing ++ slice buffer 0 len,
        incoming,
        puts (slice buffer 0 len),
        Queued-writes stream_a a b _ outgoing buffer len refl same forth,
        Queued-same stream_b b a b _ incoming refl refl back,
      )
  Act-Serves (sends_data now p found) h forth back = unseen refl refl refl refl forth back
  Act-Serves (resends_data r found) h forth back = unseen refl refl refl refl forth back
  Act-Serves (timer_fires v on) h forth back = unseen refl refl refl refl forth back
  Act-Serves (packet_arrives now before after pkt r at found) h forth back =
      unseen refl refl refl refl forth back
  Act-Serves {a} {b} {a'} {b'} {outgoing} {incoming} (reads_data len out r found) h forth back =
      let after =
        Act-IsDuplex heap stream_a total_a stream_b total_b small_a small_b {a = a} {b = b}
          (reads_data len out r found) h in
      let (n, all, le) = IsReliable-delivered stream_b total_b _ after.back in
      let (rest, split, back') = Queued-reads stream_b b a _ incoming out n refl all le back in
      (
        outgoing,
        rest,
        takes out rest split,
        Queued-same stream_a a b _ b outgoing refl refl forth,
        back',
      )

module _ (heap : Memory) (stream_l : ℕ → ℕ) (total_l : ℕ) (stream_r : ℕ → ℕ) (total_r : ℕ)
    (small_l : NoWrap total_l) (small_r : NoWrap total_r) where
  -- The queues of the two hosts.
  abbrev pub Holding : Link → Pipes → Type 0
  Holding k p = Queued stream_l k.left k.right p.to_right × Queued stream_r k.right k.left p.to_left

  Reach-Service :
      (m : Link) (p : Pipes)
      → IsDuplex stream_l total_l stream_r total_r m.left m.right
      → Holding m p
      → (k : Link) (reach : Reach heap stream_l total_l stream_r total_r m k)
      → (q : Pipes) × Service p (trace reach) q × Holding k q
  Reach-Service m p h held _ here = (p, starts, held)
  Reach-Service m p h held _ (next {m = k} reach (left_acts me peer act)) =
      let (q, service, (forth, back)) = Reach-Service m p h held k reach in
      let both =
        Reach-IsDuplex heap stream_l total_l stream_r total_r small_l small_r m h k reach in
      let (outgoing, incoming, serves, forth', back') =
        Act-Serves heap stream_l total_l stream_r total_r small_l small_r act both forth back in
      (
        record { to_right = outgoing; to_left = incoming },
        by_left (call_of act) outgoing incoming service serves,
        (forth', back'),
      )
  Reach-Service m p h held _ (next {m = k} reach (right_acts me peer act)) =
      let (q, service, (forth, back)) = Reach-Service m p h held k reach in
      let both =
        Reach-IsDuplex heap stream_l total_l stream_r total_r small_l small_r m h k reach in
      let (outgoing, incoming, serves, back', forth') =
        Act-Serves heap stream_r total_r stream_l total_l small_r small_l act
          (IsDuplex-swap _ _ _ _ k.left k.right both) back forth in
      (
        record { to_right = incoming; to_left = outgoing },
        by_right (call_of act) outgoing incoming service serves,
        (forth', back'),
      )

  module _ (addr_l addr_r : SockAddr) (port_l : addr_l.port < 2 ^ 16)
      (port_r : addr_r.port < 2 ^ 16) (junk_l junk_r : Sock) (timer_l timer_r : Timer)
      (some_l : 1 ≤ total_l) (some_r : 1 ≤ total_r) where
    -- Two established sockets that `tju_socket` has made, at two ends, whose applications write
    -- each a stream shorter than 2 ^ 32 less a window and only when the sending buffer has room for
    -- all the bytes of the call; between them a network that loses, repeats and reorders packets.
    -- The connection refines a queue of bytes each way, empty at first: in every such run the calls
    -- of `tju_send` and `tju_recv`, in their order and with their bytes, are calls that the two
    -- queues serve, and no other step is seen by an application. A queue holds what its writer has
    -- written and its reader has not read.
    pub trace-Service :
        (k : Link)
        → (reach : Reach heap stream_l total_l stream_r total_r
            (begin heap stream_l total_l stream_r total_r small_l small_r addr_l addr_r port_l
              port_r junk_l junk_r timer_l timer_r some_l some_r)
            k)
        → (q : Pipes) × Service empty_pipes (trace reach) q × Holding k q
    unfolding slice
    trace-Service k reach =
        Reach-Service _ empty_pipes
          (begin-IsDuplex heap stream_l total_l stream_r total_r small_l small_r addr_l addr_r
            port_l port_r junk_l junk_r timer_l timer_r some_l some_r)
          (
            record { given = 0; left = 0; delivered = refl; written = refl; waiting = refl },
            record { given = 0; left = 0; delivered = refl; written = refl; waiting = refl },
          )
          k reach
