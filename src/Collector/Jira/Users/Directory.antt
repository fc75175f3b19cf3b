-- ===== src/Collector/Jira/Users/Directory.antt =====
-- The users of a directory, which the service gives in pages of a hundred.
use mathlib.Core.List.{append-nil, append_assoc}
use dora_metrics_app.Base.{
  ℕ, zero, suc, ◌+◌, ◌*◌, ◌≤◌, ◌<◌, ◌≡◌, refl, sym, ap, ◌∙◌, inl, inr, Bool, true, false, not, ◌&&◌,
  ◌||◌, Option, some, List, [], ◌∷◌, ◌++◌, arith, ltb, ltb→lt, length, take, drop, keep, Bool-cases,
  length-append,
}
use dora_metrics_app.Base.Int.{ℤ, pos, negsuc, ltb_ℤ}
use dora_metrics_app.Base.Text.{Text, codes, same}
use dora_metrics_app.Collector.Jira.{
  Result, ok, err, bad_issue, received, Progress, more, full, failed, page_size,
}
use dora_metrics_app.Collector.Jira.Pages.{first}
use dora_metrics_app.Collector.Jira.Users.{
  User, UserService, is_skipped, take_users, after_users, users_request, users_from, search_users,
}

-- An active user whose account is one of Atlassian, or has no type.
abbrev pub is_person : User → Bool
is_person u = u.active && (same u.account_type (codes "atlassian") || same u.account_type [])

abbrev is_kept : User → Bool
is_kept u = not (is_skipped u)

keep_person : (us : List User) → keep is_kept us ≡ keep is_person us
unfolding is_skipped
keep_person [] = refl
keep_person (u ∷ us) = elim (Bool-cases (is_person u)) [
  | inl e ↦
      let k : is_kept u ≡ true = ground (arith, e) in rw (e, k) (ap (λ l. u ∷ l) (keep_person us))
  | inr e ↦ let k : is_kept u ≡ false = ground (arith, e) in rw (e, k) (keep_person us)
]

abbrev settle : Progress User → Result (List User)
settle (more out) = ok out
settle (full out) = ok out
settle failed = err bad_issue

abbrev and_then : Progress User → (List User → Progress User) → Progress User
and_then (more out) k = k out
and_then (full out) k = full out
and_then failed k = failed

-- Pages of `n` items, the rest of a list after a page, and the end of a list.
module _ {A : Type 0} where
  take-drop : (n : ℕ) (xs : List A) → take n xs ++ drop n xs ≡ xs
  take-drop zero xs = refl
  take-drop (suc n) [] = refl
  take-drop (suc n) (x ∷ xs) = ap (λ ys. x ∷ ys) (take-drop n xs)

  drop-drop : (n m : ℕ) (xs : List A) → drop m (drop n xs) ≡ drop (n + m) xs
  drop-drop zero m xs = ground arith
  drop-drop (suc n) m [] = ground (arith, drop_nil (suc n + m), drop_nil m)
    where
      drop_nil : (m : ℕ) → drop {A = A} m [] ≡ []
      drop_nil zero = refl
      drop_nil (suc m) = refl
  drop-drop (suc n) m (x ∷ xs) =
      let shifted : suc n + m ≡ suc (n + m) = omega arith in rw shifted (drop-drop n m xs)

  take_short : (n : ℕ) (xs : List A) → length (take n xs) < n → take n xs ≡ xs
  take_short zero xs h = absurd (omega arith)
  take_short (suc n) [] h = refl
  take_short (suc n) (x ∷ xs) h = ap (λ ys. x ∷ ys) (take_short n xs (omega arith))

  length-drop : (n : ℕ) (xs : List A) → n ≤ length (take n xs) → length (drop n xs) + n ≡ length xs
  length-drop zero xs h = omega arith
  length-drop (suc n) [] h = absurd (omega arith)
  length-drop (suc n) (x ∷ xs) h = omega (arith, length-drop n xs)

  -- After a whole page fewer are left, for a round less.
  fewer_left :
      (n rounds start : ℕ) (xs : List A)
      → length (drop start xs) < suc rounds * n
      → ltb (length (take n (drop start xs))) n ≡ false
      → length (drop (start + n) xs) < rounds * n
  fewer_left n rounds start xs h whole = grind (
    arith,
    ap length (drop-drop start n xs),
    length-drop n (drop start xs) (not_below (length (take n (drop start xs))) n whole),
  )
    where
      not_below : (a b : ℕ) → ltb a b ≡ false → b ≤ a
      not_below a b e = ground arith

module _ (limit : ℤ) where
  take_users-append :
      (out us vs : List User)
      → take_users limit out (us ++ vs)
        ≡ and_then (take_users limit out us) (λ o. take_users limit o vs)
  unfolding take_users
  take_users-append out [] vs = refl
  take_users-append out (u ∷ us) vs =
      ground (arith, take_users-append out us vs, take_users-append (out ++ u ∷ []) us vs)

  take_users-unlimited :
      (out us : List User)
      → ltb_ℤ (pos 0) limit ≡ false
      → settle (take_users limit out us) ≡ ok (out ++ keep is_kept us)
  unfolding take_users
  take_users-unlimited out [] h = ap ok (sym (append-nil out))
  take_users-unlimited out (u ∷ us) h = ground (
    arith,
    take_users-unlimited out us,
    take_users-unlimited (out ++ u ∷ []) us,
    append_assoc out (u ∷ []) (keep is_kept us),
  )

take_users-limited :
    (n r : ℕ) (out us : List User)
    → length out + suc r ≡ suc n
    → settle (take_users (pos (suc n)) out us) ≡ ok (out ++ take (suc r) (keep is_kept us))
unfolding take_users
take_users-limited n r out [] h = ap ok (sym (append-nil out))
take_users-limited n zero out (u ∷ us) h =
    ground (arith, take_users-limited n zero out us, length-append out (u ∷ []))
take_users-limited n (suc r) out (u ∷ us) h = ground (
  arith,
  take_users-limited n (suc r) out us,
  take_users-limited n r (out ++ u ∷ []) us,
  length-append out (u ∷ []),
  append_assoc out (u ∷ []) (take (suc r) (keep is_kept us)),
)

take_users-first :
    (limit : ℤ) (us : List User)
    → settle (take_users limit [] us) ≡ ok (first limit (keep is_kept us))
take_users-first (pos zero) us = take_users-unlimited (pos 0) [] us refl
take_users-first (pos (suc n)) us = take_users-limited n n [] us (omega arith)
take_users-first (negsuc n) us = take_users-unlimited (negsuc n) [] us (ground arith)

-- The service gives a page of these users from the place asked for.
abbrev pub Lists : UserService → Text → List User → Type 0
Lists jira query us =
    (call start : ℕ)
    → received (jira call (users_request query start)) ≡ ok (take page_size (drop start us))

-- A round whose page is short is the last, and the others go on with what is left.
after_short :
    (rest : List User → Option (Result (List User))) (batch : List User) (t : Progress User)
    → ltb (length batch) page_size ≡ true
    → after_users rest batch t ≡ some (settle t)
after_short rest batch (more out) h = rw h refl
after_short rest batch (full out) h = refl
after_short rest batch failed h = refl

after_whole :
    (rest : List User → Option (Result (List User))) (batch : List User)
    (k : List User → Progress User) (t : Progress User)
    → ltb (length batch) page_size ≡ false
    → ((out : List User) → rest out ≡ some (settle (k out)))
    → after_users rest batch t ≡ some (settle (and_then t k))
after_whole rest batch k (more out) h ih = rw h (ih out)
after_whole rest batch k (full out) h ih = refl
after_whole rest batch k failed h ih = refl

module _ (limit : ℤ) (jira : UserService) (query : Text) (us : List User)
    (lists : Lists jira query us) where
  round_lem :
      (fuel call start : ℕ) (out : List User)
      → users_from limit jira query (suc fuel) call start out
        ≡ after_users
            (users_from limit jira query fuel (suc call) (start + page_size))
            (take page_size (drop start us))
            (take_users limit out (take page_size (drop start us)))
  unfolding users_from
  round_lem fuel call start out = rw (lists call start) refl

  users_from-Lists :
      (fuel call start : ℕ) (out : List User)
      → length (drop start us) < fuel * page_size
      → users_from limit jira query fuel call start out
        ≡ some (settle (take_users limit out (drop start us)))
  users_from-Lists zero call start out h = absurd (omega arith)
  users_from-Lists (suc fuel) call start out h =
      round_lem fuel call start out ∙ elim (Bool-cases (ltb (length page) page_size)) [
        | inl short ↦
            after_short rest page (take_users limit out page) short
            ∙ ap (λ vs. some (settle (take_users limit out vs)))
                (take_short page_size (drop start us) (ltb→lt (length page) page_size short))
        | inr whole ↦
            after_whole rest page (λ o. take_users limit o left) (take_users limit out page) whole
              (λ o.
                users_from-Lists fuel (suc call) (start + page_size) o
                  (fewer_left page_size fuel start us h whole))
            ∙ ap (λ t. some (settle t)) (sym (take_users-append limit out page left))
            ∙ ap (λ vs. some (settle (take_users limit out vs))) split_lem
      ]
    where
      page : List User
      page = take page_size (drop start us)

      left : List User
      left = drop (start + page_size) us

      rest : List User → Option (Result (List User))
      rest = users_from limit jira query fuel (suc call) (start + page_size)

      split_lem : page ++ left ≡ drop start us
      split_lem = rw (← drop-drop start page_size us) (take-drop page_size (drop start us))

-- For a directory that is listed in pages of a hundred, with fuel for more pages than it fills, the
-- search returns its active people in order, up to the limit: every one of them, if the limit is not
-- positive. People are the accounts of type "atlassian", and those without a type.
pub search_users-Lists :
    (jira : UserService) (query : Text) (us : List User) (fuel : ℕ) (limit : ℤ)
    → Lists jira query us
    → length us < fuel * page_size
    → search_users jira fuel query limit ≡ some (ok (first limit (keep is_person us)))
unfolding search_users
search_users-Lists jira query us fuel limit lists h =
    users_from-Lists limit jira query us lists fuel 0 0 [] h
    ∙ ap some (take_users-first limit us)
    ∙ ap (λ vs. some (ok (first limit vs))) (keep_person us)
