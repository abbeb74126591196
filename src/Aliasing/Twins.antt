-- ===== src/Aliasing/Twins.antt =====
-- Two connections that one listening socket has accepted.
use mathlib.Core.Option.{some-injective, none-ne-some}
use tju_tcp.Common.{
  ℕ, ◌+◌, ◌≤◌, ◌<◌, ◌≡◌, ◌≢◌, ◌∙◌, refl, sym, ap, subst, some, arith, Memory, Option-cases, inl,
  inr,
}
use tju_tcp.Global.{Receiver}
use tju_tcp.Packet.{get_seq}
use tju_tcp.Receive.{handle_data, data_len}
use tju_tcp.Aliasing.{Store, new_conn, load, save, handle_data_at}

load-save : (st : Store) (i : ℕ) (r : Receiver) → load (save st i r) i ≡ r
load-save st i r = ground arith

load-save_other :
    (st : Store) (i j : ℕ) (r : Receiver)
    → i ≢ j
    → (st.socks i).wnd_recv ≢ (st.socks j).wnd_recv
    → (st.socks i).received_buf ≢ (st.socks j).received_buf
    → load (save st i r) j ≡ load st j
load-save_other st i j r ne window buffer = ground arith

-- A data packet for one socket: that socket then has what `handle_data` makes of it, and another one
-- whose window and buffer are its own is as it was.
pub handle_data_at-load :
    (heap : Memory) (st : Store) (i j : ℕ) (pkt : Memory) (r : Receiver)
    → i ≢ j
    → (st.socks i).wnd_recv ≢ (st.socks j).wnd_recv
    → (st.socks i).received_buf ≢ (st.socks j).received_buf
    → handle_data heap (load st i) pkt ≡ some r
    → (st' : Store) × (handle_data_at heap st i pkt ≡ some st')
      × (load st' i ≡ r)
      × (load st' j ≡ load st j)
unfolding handle_data_at
handle_data_at-load heap st i j pkt r ne window buffer e =
    (save st i r, rw e refl, load-save st i r, load-save_other st i j r ne window buffer)

load-save_shared :
    (st : Store) (i j : ℕ) (r : Receiver)
    → i ≢ j
    → (st.socks i).wnd_recv ≡ (st.socks j).wnd_recv
    → (st.socks i).received_buf ≡ (st.socks j).received_buf
    → load (save st i r) j ≡ record r { received_len = (st.socks j).received_len }
load-save_shared st i j r ne window buffer = ground arith

-- A listening socket has got two SYNs.
abbrev pub accept_two : Store → ℕ → Memory → Memory → Store
accept_two st l syn syn' = new_conn (new_conn st l syn) l syn'

-- The two copies point to what the listening socket points to, and have received as much.
record AreTwins (st : Store) (i j : ℕ) : Type 0 where
  apart : i ≢ j
  window : (st.socks i).wnd_recv ≡ (st.socks j).wnd_recv
  buffer : (st.socks i).received_buf ≡ (st.socks j).received_buf

accept_two-AreTwins :
    (st : Store) (l : ℕ) (syn syn' : Memory)
    → l < st.next
    → AreTwins (accept_two st l syn syn') st.next (st.next + 1)
unfolding new_conn
accept_two-AreTwins st l syn syn' lt = record {
  apart = omega arith;
  window = ground arith;
  buffer = ground arith;
}

received_len-accept_two :
    (st : Store) (l : ℕ) (syn syn' : Memory)
    → l < st.next
    → ((accept_two st l syn syn').socks (st.next + 1)).received_len ≡ (st.socks l).received_len
unfolding new_conn
received_len-accept_two st l syn syn' lt = ground arith

handle_data-old :
    (heap : Memory) (r : Receiver) (pkt : Memory)
    → get_seq pkt < r.expect_seq
    → handle_data heap r pkt ≡ some r
unfolding handle_data
handle_data-old heap r pkt lt = ground arith

-- What becomes of a packet whose bytes have lower numbers than the twin expects.
Lost : Memory → Store → ℕ → ℕ → ℕ → Memory → Type 0
Lost heap st i j received pkt =
    0 < data_len pkt
    → get_seq pkt + data_len pkt ≤ (load st i).expect_seq
    → (st' : Store) × (handle_data_at heap st j pkt ≡ some st')
      × ((load st' j).received_len ≡ received)
      × ((load st' j).expect_seq ≡ (load st i).expect_seq)
      × (get_seq pkt + data_len pkt ≤ (load st' j).expect_seq)

twin-Lost :
    (heap : Memory) (st : Store) (i j : ℕ) (r : Receiver) (pkt : Memory)
    → AreTwins st i j
    → Lost heap (save st i r) i j (st.socks j).received_len pkt
unfolding Lost handle_data_at
twin-Lost heap st i j r pkt twins there le =
    let s = save st i r in
    let shared = load-save_shared st i j r twins.apart twins.window twins.buffer in
    let mine = ap (λ (x : Receiver). x.expect_seq) (load-save st i r) in
    let its = ap (λ (x : Receiver). x.expect_seq) shared in
    let same = ap (λ (x : Receiver). x.expect_seq) (load-save s j (load s j)) in
    (
      save s j (load s j),
      rw (handle_data-old heap (load s j) pkt (omega (arith, mine, its))) refl,
      ap (λ (x : Receiver). x.received_len) (load-save s j (load s j))
          ∙ ap (λ (x : Receiver). x.received_len) shared,
      same ∙ its ∙ sym mine,
      omega (arith, same, its, mine),
    )

-- A listening socket accepts two connections. A data packet of the first is handled; then a packet of
-- the second comes whose bytes have lower numbers than what the first now expects, as its first bytes
-- have. They are not filed, and the application of the second connection is given nothing, but
-- `expect_seq`, which the ACK to its peer carries, is that of the first and lies behind them: the peer
-- is told that they have arrived, and will not send them again.
pub twins-lost :
    (heap : Memory) (st st' : Store) (l : ℕ) (syn syn' pkt pkt' : Memory)
    → l < st.next
    → let i = st.next in
      let j = st.next + 1 in
      handle_data_at heap (accept_two st l syn syn') i pkt ≡ some st'
      → 0 < data_len pkt'
      → get_seq pkt' + data_len pkt' ≤ (load st' i).expect_seq
      → (st'' : Store) × (handle_data_at heap st' j pkt' ≡ some st'')
        × ((load st'' j).received_len ≡ (st.socks l).received_len)
        × ((load st'' j).expect_seq ≡ (load st' i).expect_seq)
        × (get_seq pkt' + data_len pkt' ≤ (load st'' j).expect_seq)
unfolding handle_data_at Lost
twins-lost heap st st' l syn syn' pkt pkt' lt first =
    elim (Option-cases (handle_data heap (load (accept_two st l syn syn') st.next) pkt)) [
      | inl failed ↦ absurd (none-ne-some st' (rw failed at first))
      | inr (r, found) ↦
          let two = accept_two st l syn syn' in
          subst (λ x. Lost heap x st.next (st.next + 1) (st.socks l).received_len pkt')
            (some-injective (save two st.next r) st' (rw found at first))
            (subst (λ n. Lost heap (save two st.next r) st.next (st.next + 1) n pkt')
              (received_len-accept_two st l syn syn' lt)
              (twin-Lost heap two st.next (st.next + 1) r pkt'
                (accept_two-AreTwins st l syn syn' lt)))
    ]
