-- ===== src/Collector/Digest/Rows.antt =====
-- The rows that the weekly digest leaves in its table.
use mathlib.Core.Path.{subst}
use mathlib.Core.Option.{some-injective}
use dora_metrics_app.Base.{
  ℕ, ◌≡◌, ◌↔◌, refl, sym, ap, ◌∙◌, inl, inr, Bool, true, false, not, ◌&&◌, ◌||◌, Option, none, some,
  List, [], ◌∷◌, arith, eq_iff, if◌then◌else◌, Bool-cases,
}
use dora_metrics_app.Base.Text.{Text, same, same_iff}
use dora_metrics_app.Collector.Digest.{
  Scope, Digest, Tables, same_scope, same_key, upsert_digest, digest_of, compute_digest_for,
  compute_digests, digest_start, digest_end, handle_digest_weekly,
}

same_scope_iff : (a b : Scope) → (same_scope a b ≡ true) ↔ (a ≡ b)
same_scope_iff a b = (
  λ h. ground (arith, eq_iff a.scope_kind b.scope_kind),
  λ h. ground (arith, eq_iff a.scope_kind b.scope_kind),
)

-- The row of a scope and a week.
abbrev pub find_digest : Scope → Text → List Digest → Option Digest
find_digest s week [] = none
find_digest s week (d ∷ rows) =
    if same_scope d.scope s && same d.iso_week week then some d else find_digest s week rows

-- What a row says beside the days of its week.
abbrev pub figures : Option Digest → Option Digest
figures none = none
figures (some d) = some (record d { week_start = 0; week_end = 0 })

both : (a b : Bool) → a && b ≡ true → (a ≡ true) × (b ≡ true)
both true true h = (refl, refl)
both true false h = cc
both false b h = cc

same_scope_refl : (a : Scope) → same_scope a a ≡ true
same_scope_refl a = (same_scope_iff a a).1 refl

-- Rows with one key stand for the same scopes and weeks.
same_key-eq : (a b : Digest) → same_key a b ≡ true → (a.scope ≡ b.scope) × (a.iso_week ≡ b.iso_week)
same_key-eq a b h =
    let (e, f) = both (same_scope a.scope b.scope) (same a.iso_week b.iso_week) h in
    ((same_scope_iff a.scope b.scope).0 e, (same_iff a.iso_week b.iso_week).0 f)

eq-same_key : (a b : Digest) → a.scope ≡ b.scope → a.iso_week ≡ b.iso_week → same_key a b ≡ true
eq-same_key a b e f =
    ap (λ x. x && same a.iso_week b.iso_week) ((same_scope_iff a.scope b.scope).1 e)
    ∙ (same_iff a.iso_week b.iso_week).1 f

module _ (s : Scope) (week : Text) where
  abbrev keyed : Digest → Bool
  keyed d = same_scope d.scope s && same d.iso_week week

  keyed_eq : (d : Digest) → keyed d ≡ true → (d.scope ≡ s) × (d.iso_week ≡ week)
  keyed_eq d h =
      let (e, f) = both (same_scope d.scope s) (same d.iso_week week) h in
      ((same_scope_iff d.scope s).0 e, (same_iff d.iso_week week).0 f)

  keyed-same : (a b : Digest) → same_key a b ≡ true → keyed a ≡ keyed b
  keyed-same a b h =
      let (e, f) = same_key-eq a b h in
      ap (λ x. same_scope x s && same a.iso_week week) e
      ∙ ap (λ x. same_scope b.scope s && same x week) f

  keyed-both : (a b : Digest) → same_key a b ≡ false → keyed a ≡ true → keyed b ≡ true → ⊥
  keyed-both a b differ h k =
      let (e, f) = keyed_eq a h in
      let (e', f') = keyed_eq b k in
      let hit : same_key a b ≡ true = eq-same_key a b (e ∙ sym e') (f ∙ sym f') in cc (hit, differ)

  figures-upsert :
      (d : Digest) (rows : List Digest)
      → figures (find_digest s week (upsert_digest d rows))
        ≡ (if keyed d then figures (some d) else figures (find_digest s week rows))
  unfolding upsert_digest
  figures-upsert d [] = elim (Bool-cases (keyed d)) [ inl e ↦ rw e refl | inr e ↦ rw e refl ]
  figures-upsert d (old ∷ rows) = elim (Bool-cases (same_key old d)) [
    | inl e ↦ elim (Bool-cases (keyed d)) [
      | inl k ↦ rw (e, k) refl
      | inr k ↦ rw (e, k, keyed-same old d e, k) refl
    ]
    | inr e ↦ elim (Bool-cases (keyed d)) [
      | inl k ↦ elim (Bool-cases (keyed old)) [
        | inl o ↦ absurd (keyed-both old d e o k)
        | inr o ↦ rw (e, o) (figures-upsert d rows)
      ]
      | inr k ↦ elim (Bool-cases (keyed old)) [
        | inl o ↦ rw (e, o, k) refl
        | inr o ↦ rw (e, o) (figures-upsert d rows)
      ]
    ]
  ]

-- No query of the scope fails but those of its tiers.
abbrev pub is_computed : Tables → Scope → Bool
is_computed t s = not (t.read_fails s || t.insert_fails s)

-- The scope is one of those, and is computed.
abbrev pub is_written : Tables → Scope → List Scope → Bool
is_written t s [] = false
is_written t s (x ∷ xs) = same_scope x s && is_computed t x || is_written t s xs

merge_tests :
    {A : Type 0} (c w b : Bool) (new old : A)
    → (if w && b then new else (if c && b then new else old)) ≡ (if (c || w) && b then new else old)
merge_tests true true true new old = refl
merge_tests true true false new old = refl
merge_tests true false true new old = refl
merge_tests true false false new old = refl
merge_tests false true true new old = refl
merge_tests false true false new old = refl
merge_tests false false true new old = refl
merge_tests false false false new old = refl

module _ (iso_week : ℕ → Text) (t : Tables) (start end : ℕ) (s : Scope) (week : Text) where
  abbrev new_figures : Option Digest
  new_figures = figures (some (digest_of iso_week t start end s))

  keyed-digest :
      (x : Scope)
      → keyed s week (digest_of iso_week t start end x)
        ≡ same_scope x s && same (iso_week start) week
  unfolding digest_of
  keyed-digest x = refl

  figures-digest :
      (x : Scope) (rows : List Digest)
      → figures (find_digest s week (upsert_digest (digest_of iso_week t start end x) rows)) ≡ (
          if same_scope x s && same (iso_week start) week
          then new_figures
          else figures (find_digest s week rows))
  figures-digest x rows =
      figures-upsert s week (digest_of iso_week t start end x) rows
      ∙ ap
          (λ k.
            if k
            then figures (some (digest_of iso_week t start end x))
            else figures (find_digest s week rows))
          (keyed-digest x)
      ∙ elim (Bool-cases (same_scope x s)) [
        | inl e ↦
            ap
              (λ z.
                if same_scope x s && same (iso_week start) week
                then figures (some (digest_of iso_week t start end z))
                else figures (find_digest s week rows))
              ((same_scope_iff x s).0 e)
        | inr e ↦ rw e refl
      ]

  figures-compute :
      (x : Scope) (rows : List Digest)
      → figures (find_digest s week (compute_digest_for iso_week t start end x rows)) ≡ (
          if (same_scope x s && is_computed t x) && same (iso_week start) week
          then new_figures
          else figures (find_digest s week rows))
  unfolding compute_digest_for
  figures-compute x rows = elim (Bool-cases (t.read_fails x || t.insert_fails x)) [
    | inl f ↦ elim (Bool-cases (same_scope x s)) [ inl e ↦ rw (f, e) refl | inr e ↦ rw (f, e) refl ]
    | inr f ↦ elim (Bool-cases (same_scope x s)) [
      | inl e ↦ rw (f, e) (figures-digest x rows ∙ rw e refl)
      | inr e ↦ rw (f, e) (figures-digest x rows ∙ rw e refl)
    ]
  ]

  figures-digests :
      (xs : List Scope) (rows : List Digest)
      → figures (find_digest s week (compute_digests iso_week t start end xs rows)) ≡ (
          if is_written t s xs && same (iso_week start) week
          then new_figures
          else figures (find_digest s week rows))
  unfolding compute_digests
  figures-digests [] rows = refl
  figures-digests (x ∷ xs) rows =
      figures-digests xs (compute_digest_for iso_week t start end x rows)
      ∙ ap (λ old. if is_written t s xs && same (iso_week start) week then new_figures else old)
          (figures-compute x rows)
      ∙ merge_tests (same_scope x s && is_computed t x) (is_written t s xs)
          (same (iso_week start) week) new_figures (figures (find_digest s week rows))

-- What a run leaves of a scope and a week.
abbrev pub left : Scope → Text → Option (List Digest) → Option (Option Digest)
left s week none = none
left s week (some rows) = some (figures (find_digest s week rows))

twice :
    {A : Type 0} (c : Bool) (new old : A)
    → (if c then new else (if c then new else old)) ≡ (if c then new else old)
twice true new old = refl
twice false new old = refl

-- A run of the weekly digest leaves, for every scope and week, the row of the scope's digest if the
-- week is the closed one and the scope is one of those listed whose queries do not fail, and what was
-- there if not, the days of a row that was there aside. A second run over the same tables changes
-- nothing of that.
pub handle_digest_weekly_lem :
    (iso_week : ℕ → Text) (t : Tables) (now : ℕ) (scopes : List Scope) (rows after : List Digest)
    (s : Scope) (week : Text)
    → handle_digest_weekly iso_week t now (some scopes) rows ≡ some after
    → (figures (find_digest s week after) ≡ (
        if is_written t s scopes && same (iso_week (digest_start now)) week
        then figures (some (digest_of iso_week t (digest_start now) (digest_end now) s))
        else figures (find_digest s week rows)))
      × (left s week (handle_digest_weekly iso_week t now (some scopes) after)
          ≡ some (figures (find_digest s week after)))
unfolding handle_digest_weekly
handle_digest_weekly_lem iso_week t now scopes rows after s week h =
    (first, ap some (again ∙ sym first))
  where
    written : Bool
    written = is_written t s scopes && same (iso_week (digest_start now)) week

    new : Option Digest
    new = figures (some (digest_of iso_week t (digest_start now) (digest_end now) s))

    run :
        (rs : List Digest)
        → figures (
            find_digest s week
              (compute_digests iso_week t (digest_start now) (digest_end now) scopes rs))
          ≡ (if written then new else figures (find_digest s week rs))
    run rs = figures-digests iso_week t (digest_start now) (digest_end now) s week scopes rs

    first :
        figures (find_digest s week after)
        ≡ (if written then new else figures (find_digest s week rows))
    first =
        subst
          (λ x.
            figures (find_digest s week x)
            ≡ (if written then new else figures (find_digest s week rows)))
          (some-injective _ _ h) (run rows)

    again :
        figures (
          find_digest s week
            (compute_digests iso_week t (digest_start now) (digest_end now) scopes after))
        ≡ (if written then new else figures (find_digest s week rows))
    again =
        run after
        ∙ ap (λ x. if written then new else x) first
        ∙ twice written new (figures (find_digest s week rows))
