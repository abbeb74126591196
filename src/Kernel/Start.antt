-- ===== src/Kernel/Start.antt =====
-- `startSimulation` of kernel.c.
use tju_tcp.Common.{
  ℕ, zero, suc, ◌+◌, ◌≤◌, ◌<◌, ◌≡◌, ◌⊎◌, inl, inr, refl, subst, Bool-cases, arith, Bool, true,
  false, ◌||◌, Option, none, some, ℤ, pos, negsuc, if◌then◌else◌,
}
use tju_tcp.Kernel.{max_sock, put_at, Tables}

-- What `socket`, `bind` and `pthread_create` return.
pub record Answers : Type 0 where
  pub socket : ℤ
  pub bind : ℤ
  pub pthread_create : ℤ

abbrev pub is_negative : ℤ → Bool
is_negative (pos n) = false
is_negative (negsuc n) = true

abbrev pub clear_cell : ℕ → Tables → Tables
clear_cell index t = record {
  listen_socks = put_at t.listen_socks (pos index) none;
  established_socks = put_at t.established_socks (pos index) none;
}

-- The loop over the cells, `left` of which are still to come.
pub clear_cells : ℕ → ℕ → Tables → Tables
clear_cells zero index t = t
clear_cells (suc left) index t = clear_cells left (suc index) (clear_cell index t)

-- What the call leaves: the tables, and the socket, bound to any address and this port.
pub record Backend : Type 0 where
  pub tables : Tables
  pub backend_udpsocket_id : ℤ
  pub port : ℕ

-- `none` is exit(-1).
unfoldable pub start_simulation : Answers → Tables → Option Backend
unfolding clear_cells
start_simulation a t =
    let cleared = clear_cells max_sock 0 t in
    if is_negative a.socket
    then none
    else (if is_negative a.bind
        then none
        else (if is_negative a.pthread_create
            then none
            else some (record { tables = cleared; backend_udpsocket_id = a.socket; port = 20218 })))

-- The cells below `index` are null, all others are those of `t`.
pub record Cleared (t : Tables) (index : ℕ) (t' : Tables) : Type 0 where
  pub listens : (k : ℕ) → k < index → t'.listen_socks (pos k) ≡ none
  pub connects : (k : ℕ) → k < index → t'.established_socks (pos k) ≡ none
  pub behind :
      (k : ℕ)
      → index ≤ k
      → (t'.listen_socks (pos k) ≡ t.listen_socks (pos k))
        × (t'.established_socks (pos k) ≡ t.established_socks (pos k))
  pub before :
      (k : ℕ)
      → (t'.listen_socks (negsuc k) ≡ t.listen_socks (negsuc k))
        × (t'.established_socks (negsuc k) ≡ t.established_socks (negsuc k))

clear_cell-Cleared :
    (t t' : Tables) (index : ℕ) → Cleared t index t' → Cleared t (suc index) (clear_cell index t')
clear_cell-Cleared t t' index c = record {
  listens = λ k lt. ground (arith, c.listens k);
  connects = λ k lt. ground (arith, c.connects k);
  behind = λ k le. ground (arith, c.behind k);
  before = λ k. c.before k;
}

clear_cells-Cleared :
    (left index : ℕ) (t t' : Tables)
    → Cleared t index t'
    → Cleared t (left + index) (clear_cells left index t')
unfolding clear_cells
clear_cells-Cleared zero index t t' c = subst (λ n. Cleared t n t') (omega arith) c
clear_cells-Cleared (suc left) index t t' c =
    subst (λ n. Cleared t n (clear_cells left (suc index) (clear_cell index t'))) (omega arith)
      (clear_cells-Cleared left (suc index) t (clear_cell index t')
        (clear_cell-Cleared t t' index c))

-- `startSimulation` exits if one of its three calls returns a negative number. Otherwise it returns,
-- also if `pthread_create` has returned an error number, which POSIX has above 0; the 32 cells of both
-- tables are then null, and what lies before and behind the tables is as it was.
pub start_simulation-Cleared :
    (a : Answers) (t : Tables)
    → let refused = is_negative a.socket || is_negative a.bind || is_negative a.pthread_create in
      ((refused ≡ true) × (start_simulation a t ≡ none))
      ⊎ ((refused ≡ false)
          × (b : Backend) × (start_simulation a t ≡ some b)
          × Cleared t max_sock b.tables)
unfolding start_simulation
start_simulation-Cleared a t =
    elim (Bool-cases (is_negative a.socket || is_negative a.bind || is_negative a.pthread_create)) [
      | inl refused ↦ inl (refused, ground arith)
      | inr runs ↦ inr (
        runs,
        (record {
          tables = clear_cells max_sock 0 t;
          backend_udpsocket_id = a.socket;
          port = 20218;
        }),
        ground arith,
        clear_cells-Cleared max_sock 0 t t (record {
          listens = λ k lt. absurd (omega arith);
          connects = λ k lt. absurd (omega arith);
          behind = λ k le. (refl, refl);
          before = λ k. (refl, refl);
        }),
      )
    ]
