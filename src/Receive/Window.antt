-- ===== src/Receive/Window.antt =====
-- The receiver against the byte stream that the peer sends.
use mathlib.Core.Option
use tju_tcp.Common.{
  ℕ, ◌+◌, ◌-◌, ◌^◌, ◌≤◌, ◌<◌, ◌≡◌, ◌≢◌, refl, some, arith, Memory, true, false, Bool-cases, inl,
  inr, ltb, leb, ◌==◌, leb→le,
}
use tju_tcp.Global.{max_rwindow_size, max_sock_buf_size, Receiver}
use tju_tcp.Packet.{get_seq, get_hlen, get_plen}
use tju_tcp.Receive.{
  get_wnd_free_len, data_len, window_fits, buffered, buffer_data, moved, move_window, slide,
  handle_data,
}
use tju_tcp.Receive.Scan.{IsFirstFree, get_wnd_free_len-IsFirstFree}

-- `stream q` is the byte with sequence number `q`, and `limit` the first number not sent yet.
-- What is marked in the window, and what waits in the receive buffer, is that stream; the last cell
-- of the window is free, and so is some of what it advertises.
pub record Holds (stream : ℕ → ℕ) (limit : ℕ) (r : Receiver) : Type 0 where
  pub low : r.received_len + 1 ≤ r.expect_seq
  pub reach : r.expect_seq ≤ limit
  pub room : r.received_len ≤ max_sock_buf_size
  pub left_low : 1 ≤ r.remain_size
  pub left_high : r.remain_size ≤ max_rwindow_size
  pub last : r.mark (max_rwindow_size - 1) ≡ 0
  pub within : (i : ℕ) → i < max_rwindow_size → r.mark i ≢ 0 → r.expect_seq + i < limit
  pub marked :
      (i : ℕ) → i < max_rwindow_size → r.mark i ≢ 0 → r.recv_buf i ≡ stream (r.expect_seq + i)
  pub received :
      (i : ℕ) → i < r.received_len → r.received_buf i ≡ stream (r.expect_seq - r.received_len + i)

-- The packet is one of the stream, at its sequence number.
pub record Carries (stream : ℕ → ℕ) (limit : ℕ) (pkt : Memory) : Type 0 where
  pub whole : get_hlen pkt + data_len pkt ≤ get_plen pkt
  pub end : get_seq pkt + data_len pkt ≤ limit
  pub payload : (t : ℕ) → t < data_len pkt → pkt (get_hlen pkt + t) ≡ stream (get_seq pkt + t)

-- The sequence numbers of the stream do not wrap, up to a window behind its end.
abbrev pub NoWrap : ℕ → Type 0
NoWrap limit = limit + max_rwindow_size < 2 ^ 32

-- From `r` to `r'` the stream is kept, `expect_seq` does not go back, and what is next for the
-- application stays next.
pub record Keeps (stream : ℕ → ℕ) (limit : ℕ) (r r' : Receiver) : Type 0 where
  pub holds : Holds stream limit r'
  pub forward : r.expect_seq ≤ r'.expect_seq
  pub position : r'.expect_seq + r.received_len ≡ r.expect_seq + r'.received_len

module _ (stream : ℕ → ℕ) (limit : ℕ) (small : NoWrap limit) where
  buffer_data-Holds :
      (r : Receiver) (pkt : Memory)
      → Holds stream limit r
      → Carries stream limit pkt
      → r.expect_seq ≤ get_seq pkt
      → window_fits r pkt ≡ true
      → (r' : Receiver) × (buffer_data r pkt ≡ some r')
        × Holds stream limit r'
        × (r'.expect_seq ≡ r.expect_seq)
        × (r'.received_len ≡ r.received_len)
  unfolding buffer_data window_fits
  buffer_data-Holds r pkt h c le fits = (
    buffered r pkt,
    ground (arith, c.whole, c.end),
    record {
      low = h.low;
      room = h.room;
      left_low = h.left_low;
      left_high = h.left_high;
      reach = h.reach;
      last = ground (arith, h.last, c.end);
      within = λ i lt m. ground (arith, h.within i lt, c.end);
      marked =
          λ i lt m. ground (arith, h.marked i lt, c.payload (i - (get_seq pkt - r.expect_seq)));
      received = h.received;
    },
    refl,
    refl,
  )

  moved-Holds :
      (heap : Memory) (r : Receiver) (k : ℕ)
      → Holds stream limit r
      → k < max_rwindow_size
      → IsFirstFree r.mark 0 k
      → r.received_len + k ≤ max_sock_buf_size
      → Holds stream limit (moved heap r k)
  moved-Holds heap r k h lt first fits = record {
    low = omega (arith, h.low, reach);
    reach = omega (arith, reach);
    room = fits;
    left_low = omega arith;
    left_high = omega arith;
    last = ground (arith, h.last, first.free);
    within = λ i l m. ground (arith, h.within (k + i));
    marked = λ i l m. ground (arith, reach, h.marked (k + i));
    received = λ i l. ground (
      arith,
      reach,
      h.received i,
      h.low,
      h.marked (i - r.received_len),
      first.run (i - r.received_len),
    );
  }
    where
      reach : r.expect_seq + k ≤ limit
      reach = ground (arith, h.reach, h.within (k - 1), first.run (k - 1))

  move_window-Keeps :
      (heap : Memory) (r : Receiver) (k : ℕ)
      → Holds stream limit r
      → k < max_rwindow_size
      → IsFirstFree r.mark 0 k
      → Keeps stream limit r (move_window heap r k)
  unfolding move_window
  move_window-Keeps heap r k h lt first =
      elim (Bool-cases (ltb max_sock_buf_size (r.received_len + k))) [
        | inl full ↦ rw full (record { holds = kept; forward = omega arith; position = refl })
        | inr fits ↦ rw fits (over (moved-Holds heap r k h lt first (ground arith)))
      ]
    where
      kept :
          Holds stream limit
            (record r { wnd_recv = record r.wnd_recv { remain_size = max_rwindow_size - k } })
      kept = record {
        low = h.low;
        reach = h.reach;
        room = h.room;
        left_low = omega (arith, lt);
        left_high = omega arith;
        last = h.last;
        within = h.within;
        marked = h.marked;
        received = h.received;
      }

      reach : r.expect_seq + k ≤ limit
      reach = ground (arith, h.reach, h.within (k - 1), first.run (k - 1))

      over : Holds stream limit (moved heap r k) → Keeps stream limit r (moved heap r k)
      over h' = record {
        holds = h';
        forward = omega (arith, reach);
        position = omega (arith, reach);
      }

  slide-Keeps :
      (heap : Memory) (r : Receiver)
      → Holds stream limit r
      → (r' : Receiver) × (slide heap r ≡ some r') × Keeps stream limit r r'
  unfolding slide
  slide-Keeps heap r h = elim (Bool-cases (r.mark 0 == 0)) [
    | inl empty ↦ (r, rw empty, record { holds = h; forward = omega arith; position = refl })
    | inr run ↦
        step run (get_wnd_free_len-IsFirstFree r.mark (max_rwindow_size - 1) (omega arith) h.last)
  ]
    where
      step :
          (r.mark 0 == 0) ≡ false
          → (k : ℕ) × (get_wnd_free_len r.mark ≡ some k)
            × (k ≤ max_rwindow_size - 1)
            × IsFirstFree r.mark 0 k
          → (r' : Receiver) × (slide heap r ≡ some r') × Keeps stream limit r r'
      step run (k, e, le, first) =
          (move_window heap r k, rw (run, e), move_window-Keeps heap r k h (omega arith) first)

  -- A receiver that holds the stream, whose numbers do not wrap, gets a packet of the stream, in
  -- whatever order and however often. It is handled without an access outside a buffer; what the
  -- receiver holds is still the stream, what is left of its window is not 0, `expect_seq` has not gone
  -- back, and what is next for the application is still next.
  pub handle_data-Keeps :
      (heap : Memory) (r : Receiver) (pkt : Memory)
      → Holds stream limit r
      → Carries stream limit pkt
      → (r' : Receiver) × (handle_data heap r pkt ≡ some r') × Keeps stream limit r r'
  unfolding handle_data Option.bind
  handle_data-Keeps heap r pkt h c = elim (Bool-cases (leb r.expect_seq (get_seq pkt))) [
    | inr old ↦ (r, rw old, record { holds = h; forward = omega arith; position = refl })
    | inl new ↦ elim (Bool-cases (window_fits r pkt)) [
      | inr outside ↦ ground (arith, slide-Keeps heap r h)
      | inl fits ↦ step new fits (buffer_data-Holds r pkt h c (leb→le _ _ new) fits)
    ]
  ]
    where
      step :
          leb r.expect_seq (get_seq pkt) ≡ true
          → window_fits r pkt ≡ true
          → (r1 : Receiver) × (buffer_data r pkt ≡ some r1)
            × Holds stream limit r1
            × (r1.expect_seq ≡ r.expect_seq)
            × (r1.received_len ≡ r.received_len)
          → (r' : Receiver) × (handle_data heap r pkt ≡ some r') × Keeps stream limit r r'
      step new fits (r1, e, h1, same, len) =
          let (r2, e2, kept) = slide-Keeps heap r1 h1 in
          (
            r2,
            rw (new, fits, e, e2),
            record {
              holds = kept.holds;
              forward = omega (arith, kept.forward);
              position = omega (arith, kept.position);
            },
          )
