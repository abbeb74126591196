-- ===== src/Kernel/Delivery.antt =====
-- From `sendToLayer3` of one host to `onTCPPocket` of the other.
use tju_tcp.Common.{
  ℕ, zero, suc, ◌+◌, ◌-◌, ◌≤◌, ◌<◌, ◌≡◌, refl, ◌∙◌, ap, sym, List, [], ◌∷◌, some, arith, Memory,
  length, slice, of_list, length-slice, of_list-slice, take-length_lem,
}
use tju_tcp.Global.{max_len}
use tju_tcp.Packet.{Header, create_packet_buf, get_plen}
use tju_tcp.Packet.RoundTrip.{
  Fits, header_of, header_of-ext, header_of-create_packet_buf, payload-create_packet_buf,
}
use tju_tcp.Kernel.{client, server_ip, send_to_layer3, receive_bytes, receive_round, receive_thread}

-- A datagram that is one whole packet: its header is there and tells its length.
pub record IsWhole (heap : Memory) (d : List ℕ) : Type 0 where
  pub header : 20 ≤ length d
  pub plen : get_plen (of_list d heap) ≡ length d

receive_round-IsWhole :
    (heap : Memory) (d : List ℕ) (q : List (List ℕ))
    → IsWhole heap d
    → receive_round heap (d ∷ q) ≡ some (some d, q)
unfolding receive_round receive_bytes
receive_round-IsWhole heap d [] w = ground (arith, take-length_lem d)
receive_round-IsWhole heap d (e ∷ q) w = ground (arith, take-length_lem d)

abbrev pub All {ℓ κ} : {A : Type ℓ} → (A → Type κ) → List A → Type κ
All P [] = Unit
All P (x ∷ xs) = P x × All P xs

-- Datagrams that are whole packets are handed on one by one, in order, none lost or repeated.
pub receive_thread-IsWhole :
    (heap : Memory) (ds : List (List ℕ))
    → All (IsWhole heap) ds
    → receive_thread (length ds) heap ds ≡ ds
unfolding receive_thread
receive_thread-IsWhole heap [] w = refl
receive_thread-IsWhole heap (d ∷ ds) w =
    ground (arith, receive_round-IsWhole heap d ds w.0, receive_thread-IsWhole heap ds w.1)

-- A datagram shorter than a header stops the thread for good: it is looked at again in every round,
-- and nothing behind it is ever handed on.
pub receive_thread-short :
    (n : ℕ) (heap : Memory) (d : List ℕ) (q : List (List ℕ))
    → length d < 20
    → receive_thread n heap (d ∷ q) ≡ []
unfolding receive_thread receive_round
receive_thread-short zero heap d q short = refl
receive_thread-short (suc n) heap d q short = ground (arith, receive_thread-short n heap d q short)

-- The bytes of a packet on the wire.
abbrev pub on_wire : Memory → Header → Memory → List ℕ
on_wire heap h payload = slice (create_packet_buf heap h payload (h.plen - h.hlen)) 0 h.plen

module _ (heap heap' : Memory) (h : Header) (payload : Memory) (fits : Fits h) (hlen : h.hlen ≡ 20)
    (whole : 20 ≤ h.plen) where
  on_wire-get :
      (t : ℕ)
      → t < h.plen
      → of_list (on_wire heap h payload) heap' t
        ≡ create_packet_buf heap h payload (h.plen - h.hlen) t
  on_wire-get t lt =
      of_list-slice _ heap' 0 h.plen t lt ∙ ap (create_packet_buf heap h payload _) (omega arith)

  on_wire-header : header_of (of_list (on_wire heap h payload) heap') ≡ h
  on_wire-header =
      header_of-ext _ _ (λ i lt. on_wire-get i (omega arith))
      ∙ header_of-create_packet_buf heap h payload _ fits (omega arith)

  on_wire-IsWhole : IsWhole heap' (on_wire heap h payload)
  on_wire-IsWhole = record {
    header =
        omega (arith, length-slice (create_packet_buf heap h payload (h.plen - h.hlen)) 0 h.plen);
    plen = ap (λ (r : Header). r.plen) on_wire-header ∙ sym (length-slice _ 0 h.plen);
  }

  -- A packet that the client builds by `create_packet_buf` with fields that fit their types, a
  -- header of 20 bytes, and no longer than `MAX_LEN`, goes to the server as one datagram;
  -- `receive_thread` there hands it on as one packet and leaves the datagrams behind it; and the
  -- getters and the payload bytes read there are those that the packet was built from.
  pub send_to_layer3-receive_round :
      (q : List (List ℕ))
      → h.plen ≤ max_len
      → (send_to_layer3 client (create_packet_buf heap h payload (h.plen - h.hlen)) h.plen
          ≡ some (record { target = server_ip; bytes = on_wire heap h payload } ∷ []))
        × (receive_round heap' (on_wire heap h payload ∷ q)
            ≡ some (some (on_wire heap h payload), q))
        × (header_of (of_list (on_wire heap h payload) heap') ≡ h)
        × ((t : ℕ) → t < h.plen - 20 → of_list (on_wire heap h payload) heap' (20 + t) ≡ payload t)
  unfolding send_to_layer3
  send_to_layer3-receive_round q short = (
    ground arith,
    receive_round-IsWhole heap' _ q on_wire-IsWhole,
    on_wire-header,
    λ t lt.
        on_wire-get (20 + t) (omega arith)
        ∙ ap (create_packet_buf heap h payload _) (omega arith)
        ∙ payload-create_packet_buf heap h payload _ t (omega arith) (omega arith),
  )
