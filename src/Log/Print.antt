-- ===== src/Log/Print.antt =====
-- Decimal numbers, and formats in general: what `fprintf` prints can be read back.
use mathlib.Core.Option
use tju_tcp.Common.{
  ℕ, zero, suc, ◌+◌, ◌-◌, ◌*◌, ◌/◌, ◌%◌, ◌<◌, ◌≡◌, ◌≢◌, ◌∙◌, refl, arith, Bool, true, false, ◌&&◌,
  Option, none, some, List, [], ◌∷◌, ◌++◌, ℤ, pos, negsuc, neg, leb, ◌==◌, if◌then◌else◌,
  Bool-cases, inl, inr, ◌⊎◌,
}
use tju_tcp.Log.{Text, Piece, literal, number, digits, print_nat, print_int, fprintf}

unfoldable pub is_digit : ℕ → Bool
is_digit c = leb b'0' c && leb c b'9'

-- Read on from the number `n`, as far as there are digits.
pub read_nat : ℕ → Text → ℕ × Text
read_nat n [] = (n, [])
read_nat n (c ∷ s) =
    let longer = read_nat (n * 10 + (c - b'0')) s in if is_digit c then longer else (n, c ∷ s)

unfoldable pub read_int : Text → ℤ × Text
read_int [] = (pos 0, [])
read_int (c ∷ s) =
    let minus = read_nat 0 s in
    let plain = read_nat 0 (c ∷ s) in
    if c == b'-' then (neg minus.0, minus.1) else (pos plain.0, plain.1)

-- What stands in front of the text.
unfoldable pub strip : Text → Text → Option Text
strip [] s = some s
strip (c ∷ p) [] = none
strip (c ∷ p) (d ∷ s) = let rest = strip p s in if c == d then rest else none

abbrev pub read_number : (Text → Option (List ℤ)) → ℤ × Text → Option (List ℤ)
read_number next (a, s) = Option.map (λ args. a ∷ args) (next s)

-- Read by a format; the text ends where the format does.
unfoldable pub fscanf : List Piece → Text → Option (List ℤ)
unfolding strip read_int
fscanf [] [] = some []
fscanf [] (c ∷ s) = none
fscanf (literal p ∷ format) s = Option.bind (strip p s) (fscanf format)
fscanf (number ∷ format) s = read_number (fscanf format) (read_int s)

-- The text does not go on with a digit.
abbrev pub Stops : Text → Type 0
Stops [] = Unit
Stops (c ∷ s) = is_digit c ≡ false

-- Behind a number the format goes on with something else than a digit.
abbrev pub Breaks : List Piece → Type 0
Breaks [] = Unit
Breaks (literal (c ∷ s) ∷ format) = is_digit c ≡ false
Breaks _ = ⊥

-- The numbers of a format have a value each.
abbrev pub Matches : List Piece → List ℤ → Type 0
Matches [] [] = Unit
Matches [] (a ∷ args) = ⊥
Matches (literal s ∷ format) args = Matches format args
Matches (number ∷ format) [] = ⊥
Matches (number ∷ format) (a ∷ args) = Breaks format × Matches format args

read_nat-digits :
    (fuel n : ℕ) (out : Text) → n < fuel → read_nat 0 (digits fuel n out) ≡ read_nat n out
unfolding digits read_nat is_digit
read_nat-digits zero n out lt = absurd (omega arith)
read_nat-digits (suc fuel) n out lt =
    ground (arith, read_nat-digits fuel (n / 10) ((b'0' + n % 10) ∷ out))

read_nat-print_nat : (n : ℕ) (out : Text) → read_nat 0 (print_nat n out) ≡ read_nat n out
unfolding print_nat read_nat is_digit
read_nat-print_nat n out = ground (arith, read_nat-digits (suc n) n out (omega arith))

read_nat-Stops : (n : ℕ) (out : Text) → Stops out → read_nat n out ≡ (n, out)
unfolding read_nat
read_nat-Stops n [] h = refl
read_nat-Stops n (c ∷ s) h = rw h

abbrev first : Text → ℕ
first [] = 0
first (c ∷ s) = c

first-digits :
    (fuel n : ℕ) (out : Text)
    → n < fuel
    → (n ≢ 0) ⊎ (is_digit (first out) ≡ true)
    → is_digit (first (digits fuel n out)) ≡ true
unfolding digits is_digit
first-digits zero n out lt h = absurd (omega arith)
first-digits (suc fuel) n out lt h = elim (Bool-cases (n == 0)) [
  | inl zero_left ↦ ground arith
  | inr more ↦
      rw more
        (first-digits fuel (n / 10) ((b'0' + n % 10) ∷ out) (ground arith) (inr (ground arith)))
]

first-print_nat : (n : ℕ) (out : Text) → is_digit (first (print_nat n out)) ≡ true
unfolding print_nat is_digit
first-print_nat n out = ground (arith, first-digits (suc n) n out (omega arith))

read_int-plain :
    (t : Text) → is_digit (first t) ≡ true → read_int t ≡ (pos (read_nat 0 t).0, (read_nat 0 t).1)
unfolding read_int read_nat is_digit
read_int-plain [] h = refl
read_int-plain (c ∷ s) h = ground arith

neg-suc : (n : ℕ) → neg (suc n) ≡ negsuc n
neg-suc n = ground arith

pub read_int-print_int : (a : ℤ) (out : Text) → Stops out → read_int (print_int a out) ≡ (a, out)
unfolding print_int read_int
read_int-print_int (pos n) out h =
    read_int-plain (print_nat n out) (first-print_nat n out)
    ∙ rw (read_nat-print_nat n out, read_nat-Stops n out h) refl
read_int-print_int (negsuc n) out h =
    rw (read_nat-print_nat (suc n) out, read_nat-Stops (suc n) out h, neg-suc n) refl

pub strip-append : (p s : Text) → strip p (p ++ s) ≡ some s
unfolding strip
strip-append [] s = refl
strip-append (c ∷ p) s = ground (arith, strip-append p s)

pub Stops-fprintf :
    (format : List Piece) (args : List ℤ) → Breaks format → Stops (fprintf format args)
unfolding fprintf
Stops-fprintf [] args b = tt
Stops-fprintf (literal (c ∷ s) ∷ format) args b = b
Stops-fprintf (literal [] ∷ format) args b = absurd b
Stops-fprintf (number ∷ format) args b = absurd b

pub fscanf-fprintf :
    (format : List Piece) (args : List ℤ)
    → Matches format args
    → fscanf format (fprintf format args) ≡ some args
unfolding fscanf fprintf Option.bind
fscanf-fprintf [] [] m = refl
fscanf-fprintf [] (a ∷ args) m = absurd m
fscanf-fprintf (literal s ∷ format) args m =
    rw (strip-append s (fprintf format args)) (fscanf-fprintf format args m)
fscanf-fprintf (number ∷ format) [] m = absurd m
fscanf-fprintf (number ∷ format) (a ∷ args) m =
    rw
      (
        read_int-print_int a (fprintf format args) (Stops-fprintf format args m.0),
        fscanf-fprintf format args m.1,
      )
      refl
