-- ===== src/Calculator/LeadTime/Parts.antt =====
-- How the parts of a lead time add up.
use mathlib.Core.Path.{subst}
use dora_metrics_app.Base.{
  ℕ, ◌+◌, ◌*◌, ◌≤◌, ◌<◌, ◌≡◌, ◌↔◌, ◌-◌, ◌/◌, sym, ap, none, some, arith, if◌then◌else◌,
}
use dora_metrics_app.Base.Int.{ℤ, pos, ltb_ℤ, ◌≤ℤ◌, ◌-ℤ◌, -ℤ_parts, quot, pos_part, neg_part}
use dora_metrics_app.Calculator.LeadTime.{part, decompose}

-- The whole seconds of an interval that does not run backwards.
difference-pos : (a b : ℤ) → a ≤ℤ b → (k : ℕ) × (b -ℤ a ≡ pos k)
unfolding ◌-ℤ◌
difference-pos a b h = (pos_part b + neg_part a - (neg_part b + pos_part a), ground arith)

part-pos : (a b : ℤ) (k : ℕ) → b -ℤ a ≡ pos k → part (some a) (some b) ≡ some (pos (k / 1_000_000))
unfolding part
part-pos a b k e =
    subst
      (λ z.
        (if ltb_ℤ (quot z 1_000_000) (pos 0) then none else some (quot z 1_000_000))
        ≡ some (pos (k / 1_000_000)))
      (sym e) (ground arith)

forward :
    (a b : ℤ)
    → a ≤ℤ b
    → (s k : ℕ) × (part (some a) (some b) ≡ some (pos s))
      × (pos_part b + neg_part a ≡ pos_part a + neg_part b + k)
      × (s * 1_000_000 ≤ k)
      × (k < s * 1_000_000 + 1_000_000)
forward a b h =
    let (k, e) = difference-pos a b h in
    (
      k / 1_000_000,
      k,
      part-pos a b k e,
      omega (arith, -ℤ_parts b a, ap pos_part e, ap neg_part e),
      omega arith,
      omega arith,
    )

-- When the four instants stand in order, every part is there, the parts never exceed the total lead
-- time, and they miss at most two seconds of it: each is cut to whole seconds on its own.
pub decompose_sum :
    (f o m d : ℤ)
    → f ≤ℤ o
    → o ≤ℤ m
    → m ≤ℤ d
    → let b = decompose (record {
      first_commit_at = some f;
      opened_at = some o;
      merged_at = some m;
      deployed_at = some d;
    }) in
      (p r l t : ℕ) × (b.pickup_seconds ≡ some (pos p))
      × (b.review_seconds ≡ some (pos r))
      × (b.deploy_lag_seconds ≡ some (pos l))
      × (b.total_lead_seconds ≡ some (pos t))
      × (p + r + l ≤ t)
      × (t ≤ p + r + l + 2)
unfolding decompose
decompose_sum f o m d fo om md =
    let (p, i, ep, pi, p1, p2) = forward f o fo in
    let (r, j, er, rj, r1, r2) = forward o m om in
    let (l, k, el, lk, l1, l2) = forward m d md in
    let (t, n, et, tn, t1, t2) = forward f d (omega arith) in
    (p, r, l, t, ep, er, el, et, omega arith, omega arith)

-- The second instant is a whole second or more before the first.
abbrev pub Backwards : ℤ → ℤ → Type 0
Backwards a b = pos_part b + neg_part a + 1_000_000 ≤ pos_part a + neg_part b

-- A part is missing, though both of its instants are known, exactly when the second stands a whole
-- second or more before the first; less than that counts as no time at all.
pub part-Backwards : (a b : ℤ) → (part (some a) (some b) ≡ none) ↔ Backwards a b
unfolding part
part-Backwards a b = (λ h. ground arith, λ h. ground arith)
