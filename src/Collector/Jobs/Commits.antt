-- ===== src/Collector/Jobs/Commits.antt =====
-- The first commit of a merge request.
use mathlib.Core.Path.{subst}
use dora_metrics_app.Base.{
  ◌≡◌, inl, inr, refl, true, false, Option, none, some, List, [], ◌∷◌, Any, All, arith, Bool-cases,
}
use dora_metrics_app.Base.Int.{ℤ, ltb_ℤ, ◌≤ℤ◌}
use dora_metrics_app.Collector.Jobs.{Commit, earlier_commit, earliest_from, first_commit}

abbrev pub NotAfter : Commit → Commit → Type 0
NotAfter c d = c.authored_date ≤ℤ d.authored_date

abbrev pub IsEarliest : List Commit → Option Commit → Type 0
IsEarliest cs none = cs ≡ []
IsEarliest cs (some c) = Any (λ x. x ≡ c) cs × All (NotAfter c) cs

le_trans : (a b c : ℤ) → a ≤ℤ b → b ≤ℤ c → a ≤ℤ c
le_trans a b c h k = ground arith

earlier_is : (c d : Commit) → ltb_ℤ d.authored_date c.authored_date ≡ true → earlier_commit c d ≡ d
earlier_is c d e = rw e refl

earlier_is_not :
    (c d : Commit) → ltb_ℤ d.authored_date c.authored_date ≡ false → earlier_commit c d ≡ c
earlier_is_not c d e = rw e refl

skip_second :
    (r c d : Commit) (cs : List Commit) → Any (λ x. x ≡ r) (c ∷ cs) → Any (λ x. x ≡ r) (c ∷ d ∷ cs)
skip_second r c d cs (inl h) = inl h
skip_second r c d cs (inr h) = inr (inr h)

-- The earliest of `e` and the rest, where `e` is the earlier of `c` and `d`.
earlier_first :
    (r c d : Commit) (cs : List Commit)
    → IsEarliest (earlier_commit c d ∷ cs) (some r)
    → IsEarliest (c ∷ d ∷ cs) (some r)
earlier_first r c d cs h = elim (Bool-cases (ltb_ℤ d.authored_date c.authored_date)) [
  | inl e ↦
      let (i, (k, all)) : IsEarliest (d ∷ cs) (some r) =
        subst (λ z. IsEarliest (z ∷ cs) (some r)) (earlier_is c d e) h in
      (
        inr i,
        (le_trans r.authored_date d.authored_date c.authored_date k (ground (arith, e)), (k, all)),
      )
  | inr e ↦
      let (i, (k, all)) : IsEarliest (c ∷ cs) (some r) =
        subst (λ z. IsEarliest (z ∷ cs) (some r)) (earlier_is_not c d e) h in
      (
        skip_second r c d cs i,
        (k, (le_trans r.authored_date c.authored_date d.authored_date k (ground (arith, e)), all)),
      )
]

earliest_from-IsEarliest :
    (c : Commit) (cs : List Commit) → IsEarliest (c ∷ cs) (some (earliest_from c cs))
unfolding earliest_from
earliest_from-IsEarliest c [] = (inl refl, (ground arith, tt))
earliest_from-IsEarliest c (d ∷ cs) =
    earlier_first (earliest_from (earlier_commit c d) cs) c d cs
      (earliest_from-IsEarliest (earlier_commit c d) cs)

-- Of the commits that the client gives, the first commit is one with the earliest date; there is none
-- exactly when there are no commits.
pub first_commit-IsEarliest : (cs : List Commit) → IsEarliest cs (first_commit (some cs))
unfolding first_commit
first_commit-IsEarliest [] = refl
first_commit-IsEarliest (c ∷ cs) = earliest_from-IsEarliest c cs
