-- ===== src/Syn/Tests.antt =====
-- The queues with one connection.
use tju_tcp.Common.{ℕ, ◌<◌, ◌≡◌, refl, some, none, arith, pos}
use tju_tcp.Kernel.{max_sock, server_ip, client_ip, cal_hash, put_at}
use tju_tcp.Syn.{Queues, init_queue, en_syn_queue, get_from_accept}
use tju_tcp.Syn.Counts.{count, IsCounted}
use tju_tcp.Syn.Accept.{taken, IsLowest, get_from_accept-IsLowest}
use tju_tcp.Syn.Reach.{enters_syn, here, next, Reach-IsCounted}
use tju_tcp.Samples.{heap0}

abbrev any : Queues
any = record {
  syn_queue = λ _. record { sock = none; last_ack_time = 0; remands = 0; packet_syn_ack = none };
  syn_num = 7;
  accept_queue = λ _. some 9;
  accept_num = 7;
}

-- Socket 4 enters the first queue.
abbrev one_syn : Queues
one_syn = en_syn_queue 100 (init_queue any) (cal_hash server_ip 1234 client_ip 5678) 4 heap0

Reach-IsCounted_example : IsCounted one_syn
Reach-IsCounted_example =
    Reach-IsCounted any one_syn
      (next here (enters_syn 100 (init_queue any) 1234 5678 4 heap0 (omega arith) (omega arith)))

-- The second queue with sockets in cells 5 and 9.
abbrev two_accepts : Queues
two_accepts = record any {
  syn_num = 0;
  accept_queue = put_at (put_at (λ _. none) (pos 5) (some 50)) (pos 9) (some 90);
  accept_num = 2;
}

two_accepts-IsCounted : IsCounted two_accepts
unfolding count
two_accepts-IsCounted = record { syn = refl; accept = refl }

get_from_accept-IsLowest_example :
    (k : ℕ) × (sock : ℕ) × (k < max_sock)
    × IsLowest two_accepts 0 k sock
    × (get_from_accept two_accepts ≡ some (some sock, taken two_accepts k))
    × IsCounted (taken two_accepts k)
get_from_accept-IsLowest_example =
    get_from_accept-IsLowest two_accepts two_accepts-IsCounted (λ e. omega arith)

-- The first queue with an entry in cell 3 that has been sent often enough.
abbrev expired : Queues
expired = record any {
  syn_queue =
      put_at any.syn_queue (pos 3)
        (record { sock = some 4; last_ack_time = 0; remands = 0; packet_syn_ack = some heap0 });
  syn_num = 1;
  accept_queue = λ _. none;
  accept_num = 0;
}

expired-IsCounted : IsCounted expired
unfolding count
expired-IsCounted = record { syn = refl; accept = refl }
