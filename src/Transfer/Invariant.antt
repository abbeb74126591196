-- ===== src/Transfer/Invariant.antt =====
-- The invariant of the two ends and the network, and what keeps it.
use tju_tcp.Common.{
  ℕ, ◌+◌, ◌≤◌, ◌≡◌, ◌∙◌, sym, ap, subst, refl, List, [], ◌++◌, arith, Memory, slice,
}
use tju_tcp.Global.{Sender, Sock}
use tju_tcp.Packet.{get_ack}
use tju_tcp.Kernel.Delivery.{All}
use tju_tcp.Timer.{Timer}
use tju_tcp.Send.Stream.{Sends}
use tju_tcp.Receive.Window.{Holds, Carries, NoWrap}
use tju_tcp.Receive.Delivery.{next_byte}
use tju_tcp.Ack.Sliding.{Holding}
use tju_tcp.Connection.{tju_socket}
use tju_tcp.Connection.Fresh.{tju_socket-Fresh}
use tju_tcp.Transfer.{Ends}
use tju_tcp.Transfer.Packets.{All-append, All-map, Carries-le, Holds-le}

-- The sender holds the stream up to what was written; the receiver holds what was sent; the packets
-- under way are of the stream; and what was delivered is its beginning.
pub record IsReliable (stream : ℕ → ℕ) (total : ℕ) (e : Ends) : Type 0 where
  pub origin : ℕ
  pub one : 1 ≤ origin
  pub sends : Sends stream origin e.sender
  pub end : origin + e.sender.sending_len ≡ e.written
  pub within : e.written ≤ total
  pub holds : Holds stream e.sender.nextseq e.receiver
  pub sent : All (Carries stream e.sender.nextseq) e.sent
  pub acks : All (λ pkt. get_ack pkt ≤ e.sender.nextseq) e.acks
  pub given : ℕ
  pub delivered : e.delivered ≡ slice stream 1 given
  pub position : next_byte e.receiver ≡ 1 + given

-- Two sockets from `tju_socket`, with nothing written, sent or received yet.
pub fresh-IsReliable :
    (heap : Memory) (stream : ℕ → ℕ) (total : ℕ) (junk junk' : Sock) (t : Timer)
    → 1 ≤ total
    → IsReliable stream total (record {
      sender = (tju_socket heap junk).sender;
      timer = t;
      receiver = (tju_socket heap junk').receiver;
      sent = [];
      acks = [];
      written = 1;
      delivered = [];
    })
unfolding tju_socket slice
fresh-IsReliable heap stream total junk junk' t one =
    let (holds, _, _, _) = tju_socket-Fresh stream 1 heap junk' (omega arith) in
    let (_, sends, _, _) = tju_socket-Fresh stream 1 heap junk (omega arith) in
    record {
      origin = 1;
      one = omega arith;
      sends = sends;
      end = refl;
      within = one;
      holds = holds;
      sent = tt;
      acks = tt;
      given = 0;
      delivered = refl;
      position = refl;
    }

module _ (stream : ℕ → ℕ) (total : ℕ) where
  pub no_wrap : NoWrap total → (e : Ends) → IsReliable stream total e → NoWrap e.sender.nextseq
  no_wrap small e h = omega (arith, h.end, h.within, small, h.sends.next, h.sends.sent)

  -- The sender has moved on, and has sent more packets.
  pub advances :
      (e : Ends) (s : Sender) (t : Timer) (more : List Memory)
      → (h : IsReliable stream total e) → Sends stream h.origin s
      → s.sending_len ≡ e.sender.sending_len
      → e.sender.nextseq ≤ s.nextseq
      → All (Carries stream s.nextseq) more
      → IsReliable stream total (record e { sender = s; timer = t; sent = e.sent ++ more })
  advances e s t more h hs len le all = record {
    origin = h.origin;
    one = h.one;
    sends = hs;
    end = ap (λ n. h.origin + n) len ∙ h.end;
    within = h.within;
    holds = Holds-le stream _ _ e.receiver le h.holds;
    sent =
        All-append _ e.sent more
          (All-map _ _ e.sent (λ p c. Carries-le stream e.sender.nextseq s.nextseq p le c) h.sent)
          all;
    acks = All-map _ _ e.acks (λ p a. omega arith) h.acks;
    given = h.given;
    delivered = h.delivered;
    position = h.position;
  }

  -- The sender has changed and has sent nothing.
  pub replaces :
      (e : Ends) (s : Sender) (t : Timer) (w : ℕ)
      → IsReliable stream total e
      → Holding stream w s
      → w ≤ total
      → s.nextseq ≡ e.sender.nextseq
      → IsReliable stream total (record e { sender = s; timer = t; written = w })
  replaces e s t w h hold le stays = record {
    origin = hold.origin;
    one = hold.low;
    sends = hold.sends;
    end = hold.end;
    within = le;
    holds = subst (λ q. Holds stream q e.receiver) (sym stays) h.holds;
    sent = subst (λ q. All (Carries stream q) e.sent) (sym stays) h.sent;
    acks = subst (λ q. All (λ pkt. get_ack pkt ≤ q) e.acks) (sym stays) h.acks;
    given = h.given;
    delivered = h.delivered;
    position = h.position;
  }

  -- What was delivered is the beginning of what was written.
  pub IsReliable-delivered :
      (e : Ends)
      → IsReliable stream total e
      → (n : ℕ) × (e.delivered ≡ slice stream 1 n) × (1 + n ≤ e.written)
  IsReliable-delivered e h = (
    h.given,
    h.delivered,
    omega (arith, h.position, h.holds.reach, h.holds.low, h.sends.next, h.sends.sent, h.end),
  )
