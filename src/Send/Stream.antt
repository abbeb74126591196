-- ===== src/Send/Stream.antt =====
-- What `sending_thread` sends, against the byte stream of the application.
use tju_tcp.Common.{ℕ, ◌+◌, ◌^◌, ◌≤◌, ◌<◌, ◌≡◌, ◌∙◌, ap, List, [], ◌∷◌, ◌++◌, arith, Memory}
use tju_tcp.Global.{max_dlen, max_len, max_sock_buf_size, no_flag, Sender}
use tju_tcp.Packet.{Header, get_seq, get_hlen, get_plen, get_flags, create_packet_buf}
use tju_tcp.Packet.RoundTrip.{
  Fits, header_of, header_of-create_packet_buf, payload-create_packet_buf,
}
use tju_tcp.Send.{data_header, data_packet}

-- A data packet with the `n` bytes of the stream from number `q` on, short enough for `sendToLayer3`.
pub record IsSegment (stream : ℕ → ℕ) (q n : ℕ) (pkt : Memory) : Type 0 where
  pub some_bytes : 0 < n
  pub short : 20 + n ≤ max_len
  pub seq : get_seq pkt ≡ q
  pub hlen : get_hlen pkt ≡ 20
  pub plen : get_plen pkt ≡ 20 + n
  pub flags : get_flags pkt ≡ no_flag
  pub payload : (t : ℕ) → t < n → pkt (20 + t) ≡ stream (q + t)

-- The packets carry the stream from `q` up to `q'`, each beginning where the one before it ends.
abbrev pub Covers : (ℕ → ℕ) → ℕ → List Memory → ℕ → Type 0
Covers stream q [] q' = q ≡ q'
Covers stream q (p ∷ ps) q' = (n : ℕ) × IsSegment stream q n p × Covers stream (q + n) ps q'

pub Covers-snoc :
    (stream : ℕ → ℕ) (q q' n : ℕ) (ps : List Memory) (p : Memory)
    → Covers stream q ps q'
    → IsSegment stream q' n p
    → Covers stream q (ps ++ p ∷ []) (q' + n)
Covers-snoc stream q q' n [] p c s = (n, rw c s, ap (λ k. k + n) c)
Covers-snoc stream q q' n (x ∷ ps) p (k, sx, c) s =
    (k, sx, Covers-snoc stream (q + k) q' n ps p c s)

-- `origin` is the number of the byte at the start of the sending buffer. The buffer holds the stream
-- from there on, sent up to `nextseq` and acknowledged up to `base`.
pub record Sends (stream : ℕ → ℕ) (origin : ℕ) (s : Sender) : Type 0 where
  pub acked : s.ack_cnt ≤ s.have_send_len
  pub sent : s.have_send_len ≤ s.sending_len
  pub room : s.sending_len ≤ max_sock_buf_size
  pub base : s.base ≡ origin + s.ack_cnt
  pub next : s.nextseq ≡ origin + s.have_send_len
  pub content : (i : ℕ) → i < s.sending_len → s.sending_buf i ≡ stream (origin + i)

module _ (stream : ℕ → ℕ) (heap : Memory) (src dst : ℕ) (psrc : src < 2 ^ 16)
    (pdst : dst < 2 ^ 16) where
  data_header-Fits : (q n : ℕ) → q < 2 ^ 32 → n ≤ max_dlen → Fits (data_header src dst q n)
  data_header-Fits q n hq hn = omega arith

  pub data_packet-IsSegment :
      (buf : Memory) (off q n : ℕ)
      → 0 < n
      → n ≤ max_dlen
      → q < 2 ^ 32
      → ((t : ℕ) → t < n → buf (off + t) ≡ stream (q + t))
      → IsSegment stream q n (data_packet heap src dst buf off q n)
  unfolding data_packet
  data_packet-IsSegment buf off q n more le small same = record {
    some_bytes = more;
    short = omega arith;
    seq = ap (λ (h : Header). h.seq_num) header;
    hlen = ap (λ (h : Header). h.hlen) header;
    plen = ap (λ (h : Header). h.plen) header ∙ omega arith;
    flags = ap (λ (h : Header). h.flags) header;
    payload = λ t lt.
        payload-create_packet_buf heap (data_header src dst q n) _ n t lt (omega arith) ∙ same t lt;
  }
    where
      header :
          header_of (create_packet_buf heap (data_header src dst q n) (λ i. buf (off + i)) n)
          ≡ data_header src dst q n
      header =
          header_of-create_packet_buf heap (data_header src dst q n) _ n
            (data_header-Fits q n small le) (omega arith)
