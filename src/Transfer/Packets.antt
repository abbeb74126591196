-- ===== src/Transfer/Packets.antt =====
-- The packets of the sender are packets of the stream for the receiver.
use tju_tcp.Common.{ℕ, ◌+◌, ◌≤◌, ◌≡◌, List, [], ◌∷◌, ◌++◌, arith, Memory}
use tju_tcp.Global.{no_flag, Receiver}
use tju_tcp.Packet.{get_flags}
use tju_tcp.Kernel.Delivery.{All}
use tju_tcp.Receive.{data_len}
use tju_tcp.Receive.Window.{Holds, Carries}
use tju_tcp.Send.Stream.{IsSegment, Covers}

pub All-append {ℓ κ} :
    {A : Type ℓ} (P : A → Type κ) (xs ys : List A) → All P xs → All P ys → All P (xs ++ ys)
All-append P [] ys a b = b
All-append P (x ∷ xs) ys a b = (a.0, All-append P xs ys a.1 b)

pub All-at {ℓ κ} :
    {A : Type ℓ} (P : A → Type κ) (before after : List A) (x : A)
    → All P (before ++ x ∷ after)
    → P x
All-at P [] after x a = a.0
All-at P (y ∷ before) after x a = All-at P before after x a.1

pub All-map {ℓ κ} :
    {A : Type ℓ} (P Q : A → Type κ) (xs : List A) → ((x : A) → P x → Q x) → All P xs → All Q xs
All-map P Q [] f a = tt
All-map P Q (x ∷ xs) f a = (f x a.0, All-map P Q xs f a.1)

module _ (stream : ℕ → ℕ) where
  pub Carries-le :
      (limit limit' : ℕ) (pkt : Memory)
      → limit ≤ limit'
      → Carries stream limit pkt
      → Carries stream limit' pkt
  Carries-le limit limit' pkt le c = record {
    whole = c.whole;
    end = omega (arith, c.end);
    payload = c.payload;
  }

  pub IsSegment-Carries :
      (limit q n : ℕ) (pkt : Memory)
      → IsSegment stream q n pkt
      → q + n ≤ limit
      → Carries stream limit pkt
  unfolding data_len
  IsSegment-Carries limit q n pkt s le = record {
    whole = ground (arith, s.hlen, s.plen, s.short);
    end = ground (arith, s.hlen, s.plen, s.short, s.seq);
    payload = λ t lt. ground (arith, s.hlen, s.plen, s.short, s.seq, s.payload t);
  }

  pub Covers-le : (q q' : ℕ) (ps : List Memory) → Covers stream q ps q' → q ≤ q'
  Covers-le q q' [] c = omega (arith, c)
  Covers-le q q' (p ∷ ps) (n, s, c) = omega (arith, Covers-le (q + n) q' ps c)

  pub Covers-Carries :
      (limit q q' : ℕ) (ps : List Memory)
      → q' ≤ limit
      → Covers stream q ps q'
      → All (Carries stream limit) ps
  Covers-Carries limit q q' [] le c = tt
  Covers-Carries limit q q' (p ∷ ps) le (n, s, c) = (
    IsSegment-Carries limit q n p s (omega (arith, Covers-le (q + n) q' ps c)),
    Covers-Carries limit (q + n) q' ps le c,
  )

  pub Covers-no_flag :
      (q q' : ℕ) (ps : List Memory)
      → Covers stream q ps q'
      → All (λ pkt. get_flags pkt ≡ no_flag) ps
  Covers-no_flag q q' [] c = tt
  Covers-no_flag q q' (p ∷ ps) (n, s, c) = (s.flags, Covers-no_flag (q + n) q' ps c)

  pub Holds-le :
      (limit limit' : ℕ) (r : Receiver)
      → limit ≤ limit'
      → Holds stream limit r
      → Holds stream limit' r
  Holds-le limit limit' r le h = record {
    low = h.low;
    reach = omega (arith, h.reach);
    room = h.room;
    left_low = h.left_low;
    left_high = h.left_high;
    last = h.last;
    within = λ i lt m. omega (arith, h.within i lt m);
    marked = h.marked;
    received = h.received;
  }
