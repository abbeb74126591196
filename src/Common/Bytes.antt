-- ===== src/Common/Bytes.antt =====
-- A C buffer: the byte at each offset. Its size is kept by the code that allocates it, and an
-- access is in bounds where a theorem or a check in the model says so.
use Prim.Native.Nat.{ℕ, zero, suc, ◌+◌, ◌-◌, ◌<◌}
use Prim.Native.Nat.add
use mathlib.Core.Path.{◌≡◌, refl, ap, ap₂}
use mathlib.Core.Bool.{◌&&◌}
use mathlib.Core.List.{List, [], ◌∷◌, ◌++◌}
use native.Mathlib.Nat.{add-zero}
use native.Mathlib.Omega.{arith}
use tju_tcp.Common.Tests.{ltb, leb, if◌then◌else◌}

abbrev pub Memory : Type 0
Memory = ℕ → ℕ

-- memcpy(dst + d, src + s, n)
abbrev pub memcpy : Memory → ℕ → Memory → ℕ → ℕ → Memory
memcpy dst d src s n i = if leb d i && ltb i (d + n) then src (s + (i - d)) else dst i

-- memset(dst + d, v, n)
abbrev pub memset : Memory → ℕ → ℕ → ℕ → Memory
memset dst d v n i = if leb d i && ltb i (d + n) then v else dst i

module _ {ℓ} {A : Type ℓ} where
  abbrev pub length : List A → ℕ
  length [] = 0
  length (x ∷ xs) = suc (length xs)

  pub length-append : (xs ys : List A) → length (xs ++ ys) ≡ length xs + length ys
  length-append [] ys = omega arith
  length-append (x ∷ xs) ys = omega (arith, length-append xs ys)

  abbrev pub take : ℕ → List A → List A
  take zero xs = []
  take (suc n) [] = []
  take (suc n) (x ∷ xs) = x ∷ take n xs

  pub take-length_lem : (xs : List A) → take (length xs) xs ≡ xs
  take-length_lem [] = refl
  take-length_lem (x ∷ xs) = ap (λ ys. x ∷ ys) (take-length_lem xs)

-- The `n` bytes from offset `i` on.
unfoldable pub slice : Memory → ℕ → ℕ → List ℕ
slice m i zero = []
slice m i (suc n) = m i ∷ slice m (i + 1) n

-- A buffer that begins with these bytes; past them `rest` says what is read.
unfoldable pub of_list : List ℕ → Memory → Memory
of_list [] rest i = rest i
of_list (x ∷ xs) rest zero = x
of_list (x ∷ xs) rest (suc i) = of_list xs (λ j. rest (suc j)) i

pub length-slice : (m : Memory) (i n : ℕ) → length (slice m i n) ≡ n
unfolding slice
length-slice m i zero = refl
length-slice m i (suc n) = ap suc (length-slice m (i + 1) n)

pub slice-ext :
    (m k : Memory) (i j n : ℕ)
    → ((t : ℕ) → t < n → m (i + t) ≡ k (j + t))
    → slice m i n ≡ slice k j n
unfolding slice
slice-ext m k i j zero h = refl
slice-ext m k i j (suc n) h = ap₂ ◌∷◌ (h0) (slice-ext m k (i + 1) (j + 1) n (λ t lt. later t lt))
  where
    h0 : m i ≡ k j
    h0 = ground (arith, h 0, add-zero i, add-zero j)

    later : (t : ℕ) → t < n → m (i + 1 + t) ≡ k (j + 1 + t)
    later t lt = ground (arith, h (suc t))

pub of_list-slice : (m rest : Memory) (i n t : ℕ) → t < n → of_list (slice m i n) rest t ≡ m (i + t)
unfolding slice of_list
of_list-slice m rest i zero t h = absurd (omega arith)
of_list-slice m rest i (suc n) zero h = ap m (omega arith)
of_list-slice m rest i (suc n) (suc t) h =
    ground (arith, of_list-slice m (λ j. rest (suc j)) (i + 1) n t)

pub slice-append : (m : Memory) (i n k : ℕ) → slice m i (n + k) ≡ slice m i n ++ slice m (i + n) k
unfolding slice
slice-append m i zero k = ground (arith, add-zero i, add.zero k)
slice-append m i (suc n) k = ground (arith, slice-append m (i + 1) n k, add.suc n k)
