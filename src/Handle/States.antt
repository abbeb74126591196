-- ===== src/Handle/States.antt =====
-- The states of a connection.
use mathlib.Core.Option
use mathlib.Core.Option.{some-injective}
use tju_tcp.Common.{
  ◌≡◌, refl, some, none, arith, Memory, Option, ap, sym, subst, ◌==◌, ◌||◌, Bool-cases, ◌⊎◌, inl,
  inr,
}
use tju_tcp.Global.{
  State, closed, syn_sent, established, fin_wait_1, fin_wait_2, closing, last_ack, no_flag, Timeval,
  Sock,
}
use tju_tcp.Packet.{get_flags, get_ack, fin_flag_mask, fin_ack_flags, ack_flag_mask}
use tju_tcp.Receive.{handle_data}
use tju_tcp.Ack.{handle_ack}
use tju_tcp.Timer.{Timer}
use tju_tcp.Handle.{
  Handled, tju_handle_packet, handle_syn_sent, handle_established, handle_fin, handle_fin_wait_1,
  handle_fin_wait_2, handle_last_ack, handle_closing, acks_fin, after_data, after_ack, unchanged,
  handle_in,
}

-- The changes of state that a packet may cause, and what it must be for that.
pub data Change (pkt : Memory) (s s' : State) : Type 0 where
  keeps : s' ≡ s → Change pkt s s'
  opens : get_ack pkt ≡ 1 → s ≡ syn_sent → s' ≡ established → Change pkt s s'
  ends : get_flags pkt ≡ fin_flag_mask → s ≡ established → s' ≡ last_ack → Change pkt s s'
  waits :
      get_flags pkt ≡ ack_flag_mask
      → get_ack pkt ≡ 1
      → s ≡ fin_wait_1
      → s' ≡ fin_wait_2
      → Change pkt s s'
  crosses :
      (get_flags pkt ≡ fin_ack_flags) ⊎ (get_flags pkt ≡ fin_flag_mask)
      → s ≡ fin_wait_1
      → s' ≡ closing
      → Change pkt s s'
  finishes : get_flags pkt ≡ fin_ack_flags → s ≡ fin_wait_2 → s' ≡ closed → Change pkt s s'
  is_acked :
      get_flags pkt ≡ ack_flag_mask
      → get_ack pkt ≡ 1
      → (s ≡ last_ack) ⊎ (s ≡ closing)
      → s' ≡ closed
      → Change pkt s s'

map-some {ℓ κ} :
    {A : Type ℓ} {B : Type κ} (f : A → B) (o : Option A) (b : B)
    → Option.map f o ≡ some b
    → (a : A) × (f a ≡ b)
map-some f none b e = cc
map-some f (some a) b e = (a, some-injective (f a) b e)

module _ (heap : Memory) (t : Timer) (now : Timeval) (pkt : Memory) where
  syn_sent-Change :
      (s : Sock) → s.state ≡ syn_sent → Change pkt s.state (handle_syn_sent heap t s pkt).sock.state
  unfolding handle_syn_sent
  syn_sent-Change s e = elim (Bool-cases (get_ack pkt == 1)) [
    | inl acked ↦ rw acked (opens (ground arith) e refl)
    | inr other ↦ rw other (keeps refl)
  ]

  fin_wait_1-Change :
      (s : Sock)
      → s.state ≡ fin_wait_1
      → Change pkt s.state (handle_fin_wait_1 heap t s pkt).sock.state
  unfolding handle_fin_wait_1
  fin_wait_1-Change s e = elim (Bool-cases (acks_fin pkt)) [
    | inl acked ↦ rw acked (waits (ground arith) (ground arith) e refl)
    | inr other ↦
        elim (Bool-cases (get_flags pkt == fin_ack_flags || get_flags pkt == fin_flag_mask)) [
          | inl fin ↦ rw (other, fin) (crosses (ground arith) e refl)
          | inr ignored ↦ rw (other, ignored) (keeps refl)
        ]
  ]

  fin_wait_2-Change :
      (s : Sock)
      → s.state ≡ fin_wait_2
      → Change pkt s.state (handle_fin_wait_2 heap t s pkt).sock.state
  unfolding handle_fin_wait_2
  fin_wait_2-Change s e = elim (Bool-cases (get_flags pkt == fin_ack_flags)) [
    | inl fin ↦ rw fin (finishes (ground arith) e refl)
    | inr other ↦ rw other (keeps refl)
  ]

  last_ack-Change :
      (s : Sock) → s.state ≡ last_ack → Change pkt s.state (handle_last_ack heap t s pkt).sock.state
  unfolding handle_last_ack
  last_ack-Change s e = elim (Bool-cases (acks_fin pkt)) [
    | inl acked ↦ rw acked (is_acked (ground arith) (ground arith) (inl e) refl)
    | inr other ↦ rw other (keeps refl)
  ]

  closing-Change :
      (s : Sock) → s.state ≡ closing → Change pkt s.state (handle_closing heap t s pkt).sock.state
  unfolding handle_closing
  closing-Change s e = elim (Bool-cases (acks_fin pkt)) [
    | inl acked ↦ rw acked (is_acked (ground arith) (ground arith) (inr e) refl)
    | inr other ↦ rw other (keeps refl)
  ]

  established-Change :
      (s : Sock) (h : Handled)
      → s.state ≡ established
      → handle_established heap t now s pkt ≡ some h
      → Change pkt s.state h.sock.state
  unfolding handle_established handle_fin
  established-Change s h e found = elim (Bool-cases (get_flags pkt == fin_flag_mask)) [
    | inl fin ↦ ends (ground arith) e (
        ap (λ (x : Handled). x.sock.state)
          (sym (some-injective (handle_fin heap t s pkt) h (rw fin at found))))
    | inr other ↦ elim (Bool-cases (get_flags pkt == no_flag)) [
      | inl is_data ↦
          let (r, same) =
            map-some (after_data heap t s) (handle_data heap s.receiver pkt) h
              (rw (other, is_data) at found) in
          keeps (ap (λ (x : Handled). x.sock.state) (sym same))
      | inr not_data ↦ elim (Bool-cases (get_flags pkt == ack_flag_mask)) [
        | inl is_ack ↦
            let (r, same) =
              map-some (after_ack s) (handle_ack heap now s.sender t pkt) h
                (rw (other, not_data, is_ack) at found) in
            keeps (ap (λ (x : Handled). x.sock.state) (sym same))
        | inr ignored ↦ keeps (
            ap (λ (x : Handled). x.sock.state)
              (sym (some-injective (unchanged s t) h (rw (other, not_data, ignored) at found))))
      ]
    ]
  ]

  given :
      (s : Sock) (h h' : Handled)
      → Change pkt s.state h'.sock.state
      → some h' ≡ some h
      → Change pkt s.state h.sock.state
  given s h h' c e =
      subst (λ (x : Handled). Change pkt s.state x.sock.state) (some-injective h' h e) c

  in-Change :
      (st : State) (s : Sock) (h : Handled)
      → s.state ≡ st
      → handle_in heap t st now s pkt ≡ some h
      → Change pkt s.state h.sock.state
  in-Change syn_sent s h e found = given s h _ (syn_sent-Change s e) found
  in-Change established s h e found = established-Change s h e found
  in-Change fin_wait_1 s h e found = given s h _ (fin_wait_1-Change s e) found
  in-Change fin_wait_2 s h e found = given s h _ (fin_wait_2-Change s e) found
  in-Change last_ack s h e found = given s h _ (last_ack-Change s e) found
  in-Change closing s h e found = given s h _ (closing-Change s e) found
  in-Change _ s h e found = given s h (unchanged s t) (keeps refl) found

  -- A packet changes the state of a socket that does not listen only in the ways of `Change`: each
  -- names the states before and after, and the flags and the acknowledgment that the packet has.
  pub tju_handle_packet-Change :
      (s : Sock) (h : Handled)
      → tju_handle_packet heap t now s pkt ≡ some h
      → Change pkt s.state h.sock.state
  unfolding tju_handle_packet
  tju_handle_packet-Change s h e = in-Change s.state s h refl e
