-- ===== src/Calculator/Digits.antt =====
-- `itoa` of backend/internal/calculator/gaming.go (backend/internal/prediction/trend.go holds a copy
-- of it): decimal digits, written into a buffer of 20 bytes from its end.
pub mod RoundTrip
mod Tests
use dora_metrics_app.Base.{
  ℕ, zero, suc, ◌+◌, ◌-◌, ◌/◌, ◌%◌, Option, none, some, List, [], ◌∷◌, ◌==◌, if◌then◌else◌, leb,
  length,
}
use dora_metrics_app.Base.Int.{ℤ, pos, negsuc, ◌-ℤ◌, wrap64}

-- The loop `for n > 0`, with `free` bytes of the buffer before the text written so far; `none` is a
-- write in front of the buffer.
fill : (free n : ℕ) → List ℕ → Option (List ℕ)
fill zero n text = if n == 0 then some text else none
fill (suc free) n text =
    let more = fill free (n / 10) ((48 + n % 10) ∷ text) in if n == 0 then some text else more

-- `i--; buf[i] = '-'`
abbrev put_minus : Option (List ℕ) → Option (List ℕ)
put_minus none = none
put_minus (some text) = if leb 20 (length text) then none else some (45 ∷ text)

-- The loop on the negated number: a negation that wraps around leaves a negative number, for which
-- the loop does nothing.
abbrev fill_negated : ℤ → Option (List ℕ)
fill_negated (pos m) = fill 20 m []
fill_negated (negsuc m) = some []

unfoldable pub itoa : ℤ → Option (List ℕ)
unfolding fill wrap64 ◌-ℤ◌
itoa (pos n) = if n == 0 then some (48 ∷ []) else fill 20 n []
itoa (negsuc n) = put_minus (fill_negated (wrap64 (pos 0 -ℤ negsuc n)))
