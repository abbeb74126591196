-- ===== src/Receive/Scan.antt =====
-- `get_wnd_free_len`: the length of the marked run at the start of the window.
use tju_tcp.Common.{ℕ, zero, suc, ◌+◌, ◌≤◌, ◌<◌, ◌≡◌, ◌≢◌, some, arith, Memory}
use native.Mathlib.Decide.{ℕ_discrete}
use tju_tcp.Global.{max_rwindow_size}
use tju_tcp.Receive.{scan, get_wnd_free_len}

-- `k` is the first cell from `ans` on that is not marked.
pub record IsFirstFree (mark : Memory) (ans k : ℕ) : Type 0 where
  pub from : ans ≤ k
  pub free : mark k ≡ 0
  pub run : (i : ℕ) → ans ≤ i → i < k → mark i ≢ 0

scan-IsFirstFree :
    (mark : Memory) (left ans z : ℕ)
    → ans ≤ z
    → z < ans + left
    → mark z ≡ 0
    → (k : ℕ) × (scan mark left ans ≡ some k) × (k ≤ z) × IsFirstFree mark ans k
unfolding scan
scan-IsFirstFree mark zero ans z lo hi free = absurd (omega arith)
scan-IsFirstFree mark (suc left) ans z lo hi free = elim (ℕ_discrete (mark ans) 0) [
  | yes here ↦ (
    ans,
    ground arith,
    lo,
    record { from = omega arith; free = here; run = λ i a b. absurd (omega arith) },
  )
  | no marked ↦
      step marked
        (scan-IsFirstFree mark left (ans + 1) z (ground (arith, below marked)) (omega arith) free)
]
  where
    below : mark ans ≢ 0 → ans ≢ z
    below marked e = marked (ground arith)

    step :
        mark ans ≢ 0
        → (k : ℕ) × (scan mark left (ans + 1) ≡ some k) × (k ≤ z) × IsFirstFree mark (ans + 1) k
        → (k : ℕ) × (scan mark (suc left) ans ≡ some k) × (k ≤ z) × IsFirstFree mark ans k
    step marked (k, e, le, first) = (
      k,
      ground arith,
      le,
      record {
        from = omega arith;
        free = first.free;
        run = λ i a b. elim (ℕ_discrete ans i) [
          | yes same ↦ ground arith
          | no other ↦ first.run i (omega arith) b
        ];
      },
    )

-- If some cell of the window is free, `get_wnd_free_len` returns the number of marked cells before
-- the first free one, without reading past the end of `mark`.
pub get_wnd_free_len-IsFirstFree :
    (mark : Memory) (z : ℕ)
    → z < max_rwindow_size
    → mark z ≡ 0
    → (k : ℕ) × (get_wnd_free_len mark ≡ some k) × (k ≤ z) × IsFirstFree mark 0 k
unfolding get_wnd_free_len
get_wnd_free_len-IsFirstFree mark z lt free =
    scan-IsFirstFree mark max_rwindow_size 0 z (omega arith) (omega arith) free
