-- ===== src/Syn/Counts.antt =====
-- The counters of the two queues count their entries.
use native.Mathlib.Decide.{ℕ_discrete}
use tju_tcp.Common.{
  ℕ, zero, suc, ◌+◌, ◌-◌, ◌^◌, ◌≤◌, ◌<◌, ◌≡◌, ◌≢◌, refl, ap, sym, u16, inl, inr, Bool-cases, some,
  arith, Memory, ℤ, pos, negsuc, if◌then◌else◌, ◌==◌, true, false, Bool,
}
use tju_tcp.Packet.{get_src, get_dst}
use tju_tcp.Kernel.{max_sock, server_ip, client_ip, cal_hash, put_at}
use tju_tcp.Kernel.Bounds.{InTable, cal_hash-InTable}
use tju_tcp.Syn.{
  SynElem, Queues, is_null, init_queue, en_syn_queue, en_accept_queue, get_from_syn, null_elem,
  syn_default_remands,
}

-- The number of cells below `n` that hold something.
unfoldable pub count : (ℤ → Bool) → ℕ → ℕ
count empty zero = 0
count empty (suc n) = count empty n + (if empty (pos n) then 0 else 1)

pub count-le : (empty : ℤ → Bool) (n : ℕ) → count empty n ≤ n
unfolding count
count-le empty zero = omega arith
count-le empty (suc n) = ground (arith, count-le empty n)

count-ext :
    (f g : ℤ → Bool) (n : ℕ) → ((i : ℕ) → i < n → f (pos i) ≡ g (pos i)) → count f n ≡ count g n
unfolding count
count-ext f g zero h = refl
count-ext f g (suc n) h = ground (arith, h n, count-ext f g n (λ i lt. h i (omega arith)))

-- Changing one cell changes the count by that cell.
count-put :
    (f g : ℤ → Bool) (k n : ℕ)
    → k < n
    → ((i : ℕ) → i ≢ k → g (pos i) ≡ f (pos i))
    → count g n + (if f (pos k) then 0 else 1) ≡ count f n + (if g (pos k) then 0 else 1)
unfolding count
count-put f g k zero lt h = absurd (omega arith)
count-put f g k (suc n) lt h = elim (ℕ_discrete k n) [
  | yes last ↦ ground (
    arith,
    last,
    count-ext g f n (λ i l. h i (omega arith)),
    ap f (ap pos last),
    ap g (ap pos last),
  )
  | no before ↦ ground (arith, count-put f g k n (omega arith) h, h n)
]

abbrev pub syn_empty : Queues → ℤ → Bool
syn_empty q i = is_null (q.syn_queue i).sock

abbrev pub accept_empty : Queues → ℤ → Bool
accept_empty q i = is_null (q.accept_queue i)

-- `syn_num` and `accept_num` are the numbers of entries.
pub record IsCounted (q : Queues) : Type 0 where
  pub syn : q.syn_num ≡ count (syn_empty q) max_sock
  pub accept : q.accept_num ≡ count (accept_empty q) max_sock

pub count-none : (f : ℤ → Bool) (n : ℕ) → ((i : ℕ) → i < n → f (pos i) ≡ true) → count f n ≡ 0
unfolding count
count-none f zero h = refl
count-none f (suc n) h = ground (arith, h n, count-none f n (λ i lt. h i (omega arith)))

-- `init_queue` empties both queues.
pub init_queue-IsCounted : (q : Queues) → IsCounted (init_queue q) × ((init_queue q).syn_num ≡ 0)
unfolding init_queue
init_queue-IsCounted q = (
  record {
    syn = sym (count-none _ max_sock (λ i lt. ground arith));
    accept = sym (count-none _ max_sock (λ i lt. ground arith));
  },
  refl,
)

put_at-ne :
    {A : Type 0} (f : ℤ → A) (k i : ℕ) (a : A) → i ≢ k → put_at f (pos k) a (pos i) ≡ f (pos i)
put_at-ne f k i a ne = ground arith

-- Writing one cell of a table changes the count by that cell.
pub count-put_at :
    {A : Type 0} (null : A → Bool) (f : ℤ → A) (k : ℕ) (a : A)
    → k < max_sock
    → count (λ i. null (put_at f (pos k) a i)) max_sock + (if null (f (pos k)) then 0 else 1)
      ≡ count (λ i. null (f i)) max_sock + (if null a then 0 else 1)
count-put_at null f k a lt = ground (
  arith,
  count-put (λ i. null (f i)) (λ i. null (put_at f (pos k) a i)) k max_sock lt
      (λ i ne. ap null (put_at-ne f k i a ne)),
)

abbrev pub no_sock : SynElem → Bool
no_sock e = is_null e.sock

pub en_syn_queue-IsCounted :
    (now : ℕ) (q : Queues) (hashval : ℤ) (sock : ℕ) (pkt : Memory)
    → InTable hashval
    → IsCounted q
    → IsCounted (en_syn_queue now q hashval sock pkt)
unfolding en_syn_queue
en_syn_queue-IsCounted now q (negsuc k) sock pkt h c = absurd h
en_syn_queue-IsCounted now q (pos k) sock pkt h c = elim (Bool-cases (syn_empty q (pos k))) [
  | inr taken ↦ rw taken c
  | inl free ↦ rw free (record {
    syn = ground (
      arith,
      c.syn,
      free,
      count-le (syn_empty q) max_sock,
      count-put_at no_sock q.syn_queue k
          (record {
            sock = some sock;
            last_ack_time = now;
            remands = syn_default_remands;
            packet_syn_ack = some pkt;
          })
          h,
    );
    accept = c.accept;
  })
]

pub en_accept_queue-IsCounted :
    (q : Queues) (hashval : ℤ) (sock : ℕ)
    → InTable hashval
    → IsCounted q
    → IsCounted (en_accept_queue q hashval sock)
unfolding en_accept_queue
en_accept_queue-IsCounted q (negsuc k) sock h c = absurd h
en_accept_queue-IsCounted q (pos k) sock h c = elim (Bool-cases (accept_empty q (pos k))) [
  | inr taken ↦ rw taken c
  | inl free ↦ rw free (record {
    syn = c.syn;
    accept = ground (
      arith,
      c.accept,
      free,
      count-le (accept_empty q) max_sock,
      count-put_at is_null q.accept_queue k (some sock) h,
    );
  })
]

get_at-IsCounted :
    (q : Queues) (hashval : ℤ)
    → InTable hashval
    → syn_empty q hashval ≡ false
    → IsCounted q
    → IsCounted (record q {
      syn_queue = put_at q.syn_queue hashval (null_elem (q.syn_queue hashval));
      syn_num = u16 (q.syn_num + 2 ^ 16 - 1);
    })
get_at-IsCounted q (negsuc k) h taken c = absurd h
get_at-IsCounted q (pos k) h taken c = record {
  syn = ground (
    arith,
    c.syn,
    taken,
    count-le (syn_empty q) max_sock,
    count-put_at no_sock q.syn_queue k (null_elem (q.syn_queue (pos k))) h,
  );
  accept = c.accept;
}

pub get_from_syn-IsCounted :
    (q : Queues) (pkt : Memory)
    → get_dst pkt < 2 ^ 16
    → get_src pkt < 2 ^ 16
    → IsCounted q
    → IsCounted (get_from_syn q pkt).1
unfolding get_from_syn
get_from_syn-IsCounted q pkt hd hs c = elim (Bool-cases (q.syn_num == 0)) [
  | inl empty ↦ rw empty c
  | inr more ↦ elim (Bool-cases (syn_empty q hashval)) [
    | inl missing ↦ rw (more, missing) c
    | inr there ↦
        rw (more, there)
          (get_at-IsCounted q hashval (cal_hash-InTable (get_dst pkt) (get_src pkt) hd hs).0 there
            c)
  ]
]
  where
    hashval : ℤ
    hashval = cal_hash server_ip (get_dst pkt) client_ip (get_src pkt)
