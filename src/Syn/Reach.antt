-- ===== src/Syn/Reach.antt =====
-- The queues over any sequence of calls.
use mathlib.Core.Option.{some-injective}
use native.Mathlib.Decide.{ℕ_discrete}
use tju_tcp.Common.{
  ℕ, ◌^◌, ◌<◌, ◌≡◌, ◌≢◌, zero, suc, ◌∙◌, ap, sym, subst, Option, some, arith, Memory, pos, false,
}
use tju_tcp.Packet.{get_src, get_dst}
use tju_tcp.Kernel.{max_sock, server_ip, client_ip, cal_hash}
use tju_tcp.Kernel.Bounds.{cal_hash-InTable}
use tju_tcp.Syn.{
  Queues, init_queue, en_syn_queue, en_accept_queue, get_from_syn, get_from_accept,
  syn_retrans_round, retransmit_elem, retrans_index,
}
use tju_tcp.Syn.Accept.{taken, get_from_accept-IsLowest}
use tju_tcp.Syn.Counts.{
  count-put_at, syn_empty, no_sock, IsCounted, init_queue-IsCounted, en_syn_queue-IsCounted,
  en_accept_queue-IsCounted, get_from_syn-IsCounted,
}

-- The calls that change the queues, by the listening socket and by `tju_accept`, between the two hosts.
pub data Step : Queues → Queues → Type 0 where
  enters_syn :
      (now : ℕ) (q : Queues) (p r sock : ℕ) (pkt : Memory)
      → p < 2 ^ 16
      → r < 2 ^ 16
      → Step q (en_syn_queue now q (cal_hash server_ip p client_ip r) sock pkt)
  leaves_syn :
      (q : Queues) (pkt : Memory)
      → get_dst pkt < 2 ^ 16
      → get_src pkt < 2 ^ 16
      → Step q (get_from_syn q pkt).1
  enters_accept :
      (q : Queues) (p r sock : ℕ)
      → p < 2 ^ 16
      → r < 2 ^ 16
      → Step q (en_accept_queue q (cal_hash server_ip p client_ip r) sock)
  leaves_accept :
      (q q' : Queues) (sock : Option ℕ) → get_from_accept q ≡ some (sock, q') → Step q q'

pub data Reach (q : Queues) : Queues → Type 0 where
  here : Reach q (init_queue q)
  next : {r s : Queues} → Reach q r → Step r s → Reach q s

get_from_accept-IsCounted :
    (q q' : Queues) (sock : Option ℕ)
    → get_from_accept q ≡ some (sock, q')
    → IsCounted q
    → IsCounted q'
unfolding get_from_accept
get_from_accept-IsCounted q q' sock e c = elim (ℕ_discrete q.accept_num 0) [
  | yes zero_entries ↦ absurd (ground arith)
  | no more ↦
      let (k, s, lt, lowest, e', c') = get_from_accept-IsLowest q c more in
      subst IsCounted
        (ap (λ (x : Option ℕ × Queues). x.1)
          (some-injective (some s, taken q k) (sock, q') (sym e' ∙ e)))
        c'
]

Step-IsCounted : {q r : Queues} → Step q r → IsCounted q → IsCounted r
Step-IsCounted (enters_syn now q p r sock pkt hp hr) c =
    en_syn_queue-IsCounted now q _ sock pkt (cal_hash-InTable p r hp hr).0 c
Step-IsCounted (leaves_syn q pkt hd hs) c = get_from_syn-IsCounted q pkt hd hs c
Step-IsCounted (enters_accept q p r sock hp hr) c =
    en_accept_queue-IsCounted q _ sock (cal_hash-InTable p r hp hr).0 c
Step-IsCounted (leaves_accept q q' sock e) c = get_from_accept-IsCounted q q' sock e c

-- After `init_queue` and any sequence of calls of `en_syn_queue`, `get_from_syn`,
-- `en_accept_queue` and `get_from_accept` for connections between the two hosts, the two counters
-- are the numbers of sockets in the two queues.
pub Reach-IsCounted : (q r : Queues) → Reach q r → IsCounted r
Reach-IsCounted q _ here = (init_queue-IsCounted q).0
Reach-IsCounted q _ (next reach st) = Step-IsCounted st (Reach-IsCounted q _ reach)

-- The maintenance thread breaks the count: when an entry of the table expires, it is dropped from the
-- queue and `syn_num` stays.
pub syn_retrans_round-not_IsCounted :
    (now : ℕ) (q : Queues) (k : ℕ)
    → k < max_sock
    → IsCounted q
    → syn_empty q (pos k) ≡ false
    → (q.syn_queue (pos k)).remands ≡ 0
    → ¬ IsCounted (syn_retrans_round now q (pos k)).0
unfolding syn_retrans_round
syn_retrans_round-not_IsCounted now q k lt c there expired c' = ground (
  arith,
  c.syn,
  c'.syn,
  count-put_at no_sock q.syn_queue k (retransmit_elem now (q.syn_queue (pos k))).0 lt,
)

-- The maintenance thread looks at cell 0 in its first round and never again; all its rounds stay in
-- the table.
pub retrans_index-later : (n : ℕ) → (retrans_index n < max_sock) × (retrans_index (suc n) ≢ 0)
unfolding retrans_index
retrans_index-later zero = ground arith
retrans_index-later (suc n) = ground (arith, retrans_index-later n)
