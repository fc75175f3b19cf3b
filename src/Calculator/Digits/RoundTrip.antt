-- ===== src/Calculator/Digits/RoundTrip.antt =====
-- What `itoa` writes, and how it reads back.
use native.Mathlib.Nat.{pow-suc}
use dora_metrics_app.Base.{
  ℕ, zero, suc, ◌+◌, ◌-◌, ◌*◌, ◌/◌, ◌%◌, ◌^◌, ◌≤◌, ◌<◌, ◌≡◌, ◌≢◌, refl, ap, ◌∙◌, inl, inr, some,
  List, [], ◌∷◌, arith, length, All, ◌==◌, if◌then◌else◌, Bool-cases,
}
use dora_metrics_app.Base.Int.{ℤ, pos, negsuc, sub_ℕ, ◌-ℤ◌, wrap64, two_63, IsInt64}
use dora_metrics_app.Calculator.Digits.{fill, put_minus, fill_negated, itoa}

abbrev read_from : ℕ → List ℕ → ℕ
read_from n [] = n
read_from n (c ∷ text) = read_from (n * 10 + (c - 48)) text

-- The integer that a decimal text with an optional minus sign stands for.
abbrev pub read : List ℕ → ℤ
read [] = pos 0
read (c ∷ text) = if c == 45 then sub_ℕ 0 (read_from 0 text) else pos (read_from 0 (c ∷ text))

abbrev pub IsDigit : ℕ → Type 0
IsDigit c = (48 ≤ c) × (c < 58)

fill_lem :
    (free n : ℕ) (text : List ℕ)
    → n < 10 ^ free
    → All IsDigit text
    → (s : List ℕ) × (fill free n text ≡ some s)
      × (read_from 0 s ≡ read_from n text)
      × All IsDigit s
      × (length s ≤ free + length text)
      × (length text ≤ length s)
unfolding fill
fill_lem zero n text h d =
    let none_left : n ≡ 0 = omega (arith, h) in
    (text, rw none_left refl, rw none_left refl, d, omega arith, omega arith)
fill_lem (suc free) n text h d = elim (Bool-cases (n == 0)) [
  | inl e ↦
      let none_left : n ≡ 0 = ground arith in
      (text, rw e refl, rw none_left refl, d, omega arith, omega arith)
  | inr e ↦
      let (s, es, r, ds, short, long) =
        fill_lem free (n / 10) ((48 + n % 10) ∷ text) (omega (arith, h, pow-suc 10 free))
          (omega arith, d) in
      (s, rw e es, r ∙ ap (λ k. read_from k text) (omega arith), ds, omega arith, omega arith)
]

-- A larger buffer changes nothing.
fill_more :
    (free n : ℕ) (text s : List ℕ) → fill free n text ≡ some s → fill (suc free) n text ≡ some s
unfolding fill
fill_more zero n text s h = ground arith
fill_more (suc free) n text s h = ground (arith, fill_more free (n / 10) ((48 + n % 10) ∷ text) s)

read-digits : (s : List ℕ) → All IsDigit s → read s ≡ pos (read_from 0 s)
read-digits [] d = refl
read-digits (c ∷ s) d = ground arith

-- The digits of a number below 2^63: at most 19 of them.
digits_lem :
    (n : ℕ)
    → n < two_63
    → (s : List ℕ) × (fill 20 n [] ≡ some s)
      × (read_from 0 s ≡ n)
      × (read s ≡ pos n)
      × (length s ≤ 19)
digits_lem n h =
    let (s, e, r, d, short, long) = fill_lem 19 n [] (omega (arith, h)) tt in
    (s, fill_more 19 n [] s e, r, read-digits s d ∙ ap pos r, omega arith)

negated : (n : ℕ) → suc n < two_63 → wrap64 (pos 0 -ℤ negsuc n) ≡ pos (suc n)
unfolding ◌-ℤ◌ wrap64
negated n h = ground arith

itoa_positive : (k : ℕ) (s : List ℕ) → fill 20 (suc k) [] ≡ some s → itoa (pos (suc k)) ≡ some s
unfolding itoa
itoa_positive k s e = ground (arith, e)

itoa-negsuc : (n : ℕ) → itoa (negsuc n) ≡ put_minus (fill_negated (wrap64 (pos 0 -ℤ negsuc n)))
unfolding itoa
itoa-negsuc n = refl

itoa_negative :
    (n : ℕ) (s : List ℕ)
    → suc n < two_63
    → fill 20 (suc n) [] ≡ some s
    → length s ≤ 19
    → itoa (negsuc n) ≡ some (45 ∷ s)
itoa_negative n s h e short =
    let shut : itoa (negsuc n) ≡ put_minus (fill_negated (wrap64 (pos 0 -ℤ negsuc n))) =
      itoa-negsuc n in
    rw (shut, negated n h, e) (ground arith)

-- `itoa` of an int64 other than the least one stays inside its buffer of 20 bytes, and what it
-- writes reads back as the number.
pub itoa_round_trip :
    (n : ℤ)
    → n ≢ negsuc 9_223_372_036_854_775_807
    → IsInt64 n
    → (s : List ℕ) × (itoa n ≡ some s) × (read s ≡ n) × (length s ≤ 20)
itoa_round_trip (pos zero) ne fits = (48 ∷ [], unfold itoa in refl, refl, omega arith)
itoa_round_trip (pos (suc k)) ne fits =
    let (s, e, r, whole, short) = digits_lem (suc k) (omega arith) in
    (s, itoa_positive k s e, whole, omega arith)
itoa_round_trip (negsuc k) ne fits =
    let least : k ≢ 9_223_372_036_854_775_807 = λ e. ne (ap negsuc e) in
    let (s, e, r, whole, short) = digits_lem (suc k) (omega arith) in
    (45 ∷ s, itoa_negative k s (omega arith) e short, rw r (ground arith), omega arith)
