-- ===== src/Transfer/Resends.antt =====
-- Whatever branch a round of `retrans_thread` takes, its packets are those of the stream.
use mathlib.Core.Option.{some-injective}
use tju_tcp.Common.{
  ℕ, ◌∷◌, ◌+◌, ◌-◌, ◌^◌, ◌≤◌, ◌<◌, ◌≡◌, ◌∙◌, refl, sym, ap, subst, some, [], arith, Memory, sub32,
  Bool, Bool-cases, inl, inr, ◌==◌,
}
use tju_tcp.Global.{no_flag, Sender}
use tju_tcp.Packet.{Header, get_seq, get_hlen, get_plen, get_flags}
use tju_tcp.Packet.RoundTrip.{header_of, header_of-create_packet_buf}
use tju_tcp.Kernel.Delivery.{All}
use tju_tcp.Timer.{Timer, start_timer}
use tju_tcp.Receive.{data_len}
use tju_tcp.Receive.Window.{Carries}
use tju_tcp.Send.{data_header}
use tju_tcp.Send.Stream.{Sends}
use tju_tcp.Retransmit.{Resent, retrans_thread, probe, rearm}
use tju_tcp.Retransmit.Covers.{retrans_thread-Covers}
use tju_tcp.Transfer.Packets.{Covers-Carries, Covers-no_flag}

module _ (stream : ℕ → ℕ) (heap : Memory) (src dst : ℕ) (psrc : src < 2 ^ 16)
    (pdst : dst < 2 ^ 16) where
  header_of-probe :
      (s : Sender)
      → 1 ≤ s.base
      → s.base < 2 ^ 32
      → header_of (probe heap src dst s) ≡ data_header src dst (s.base - 1) 0
  unfolding probe
  header_of-probe s one small = rw (no_wrap s one small) (
      header_of-create_packet_buf heap (data_header src dst (s.base - 1) 0) (λ _. 0) 0
        (record {
          source_port = psrc;
          destination_port = pdst;
          seq_num = omega arith;
          ack_num = omega arith;
          hlen = omega arith;
          plen = omega arith;
          flags = omega arith;
          advertised_window = omega arith;
          ext = omega arith;
        })
        (omega arith))
    where
      no_wrap : (s : Sender) → 1 ≤ s.base → s.base < 2 ^ 32 → sub32 s.base 1 ≡ s.base - 1
      no_wrap s one small = omega arith

  -- The probe of a window of 0 carries nothing.
  probe-Carries :
      (s : Sender) (limit : ℕ)
      → 1 ≤ s.base
      → s.base ≤ limit
      → s.base < 2 ^ 32
      → Carries stream limit (probe heap src dst s)
  unfolding data_len
  probe-Carries s limit one le small = record {
    whole = ground (arith, hlen, plen);
    end = ground (arith, hlen, plen, seq);
    payload = λ t lt. absurd (ground (arith, hlen, plen));
  }
    where
      header : header_of (probe heap src dst s) ≡ data_header src dst (s.base - 1) 0
      header = header_of-probe s one small

      seq : get_seq (probe heap src dst s) ≡ s.base - 1
      seq = ap (λ (h : Header). h.seq_num) header

      hlen : get_hlen (probe heap src dst s) ≡ 20
      hlen = ap (λ (h : Header). h.hlen) header

      plen : get_plen (probe heap src dst s) ≡ 20
      plen = ap (λ (h : Header). h.plen) header

  flags-probe :
      (s : Sender) → 1 ≤ s.base → s.base < 2 ^ 32 → get_flags (probe heap src dst s) ≡ no_flag
  flags-probe s one small = ap (λ (h : Header). h.flags) (header_of-probe s one small)

  -- What a round leaves of what the receiver relies on.
  pub record Resends (origin : ℕ) (s : Sender) (r : Resent) : Type 0 where
    pub sends : Sends stream origin r.sender
    pub len : r.sender.sending_len ≡ s.sending_len
    pub next : r.sender.nextseq ≡ s.nextseq
    pub packets : All (Carries stream s.nextseq) r.packets
    pub flags : All (λ pkt. get_flags pkt ≡ no_flag) r.packets

  pub retrans_thread-Resends :
      (origin : ℕ) (s : Sender) (t : Timer) (r : Resent)
      → 1 ≤ origin
      → Sends stream origin s
      → origin + s.sending_len < 2 ^ 32
      → retrans_thread heap src dst s t ≡ some r
      → Resends origin s r
  unfolding retrans_thread rearm
  retrans_thread-Resends origin s t r one h small e = elim (Bool-cases t.retrans) [
    | inr idle ↦
        given _ (rw idle at e)
          (record { sends = h; len = refl; next = refl; packets = tt; flags = tt })
    | inl due ↦ elim (Bool-cases (s.window_size == 0)) [
      | inl shut ↦ given _ (rw (due, shut) at e) (record {
        sends = h;
        len = refl;
        next = refl;
        packets = (
          probe-Carries s s.nextseq (omega (arith, h.base)) (omega (arith, h.base, h.next, h.acked))
              (omega (arith, h.base, h.acked, h.sent)),
          tt,
        );
        flags =
            (flags-probe s (omega (arith, h.base)) (omega (arith, h.base, h.acked, h.sent)), tt);
      })
      | inr window ↦ elim (Bool-cases s.is_retransing) [
        | inr off ↦ given _ (rw (due, window, off) at e) (nothing _ _)
        | inl on ↦
            let (r', e', sends, covers, same, len, _, _, _, _, _) =
              retrans_thread-Covers stream heap src dst psrc pdst origin s t h small due
                (ground arith) on in
            given r' (sym e' ∙ e) (record {
              sends = sends;
              len = len;
              next = same;
              packets =
                  Covers-Carries stream s.nextseq s.base s.nextseq r'.packets (omega arith) covers;
              flags = Covers-no_flag stream s.base s.nextseq r'.packets covers;
            })
      ]
    ]
  ]
    where
      nothing :
          (b : Bool) (t' : Timer)
          → Resends origin s
              (record { sender = record s { is_retransing = b }; timer = t'; packets = [] })
      nothing b t' = record {
        sends = record {
          acked = h.acked;
          sent = h.sent;
          room = h.room;
          base = h.base;
          next = h.next;
          content = h.content;
        };
        len = refl;
        next = refl;
        packets = tt;
        flags = tt;
      }

      given : (r' : Resent) → some r' ≡ some r → Resends origin s r' → Resends origin s r
      given r' same c = subst (Resends origin s) (some-injective r' r same) c

  pub retrans_thread-returns :
      (origin : ℕ) (s : Sender) (t : Timer)
      → Sends stream origin s
      → origin + s.sending_len < 2 ^ 32
      → (r : Resent) × (retrans_thread heap src dst s t ≡ some r)
  unfolding retrans_thread
  retrans_thread-returns origin s t h small = elim (Bool-cases t.retrans) [
    | inr idle ↦ (record { sender = s; timer = t; packets = [] }, ground arith)
    | inl due ↦ elim (Bool-cases (s.window_size == 0)) [
      | inl shut ↦ (
        record {
          sender = s;
          timer = start_timer t s.wnd_send;
          packets = probe heap src dst s ∷ [];
        },
        ground arith,
      )
      | inr window ↦ elim (Bool-cases s.is_retransing) [
        | inr off ↦ (rearm s t, ground arith)
        | inl on ↦
            let (r, found, _, _, _, _, _, _, _, _, _) =
              retrans_thread-Covers stream heap src dst psrc pdst origin s t h small due
                (ground arith) on in
            (r, found)
      ]
    ]
  ]
