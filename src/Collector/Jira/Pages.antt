-- ===== src/Collector/Jira/Pages.antt =====
-- The pages of a search of issues (`RESTSource.SearchIssues`).
use mathlib.Core.List.{append-nil, append_assoc}
use dora_metrics_app.Base.{
  ℕ, zero, suc, ◌+◌, ◌≤◌, ◌≡◌, refl, sym, ap, ◌∙◌, inl, inr, true, false, ◌||◌, Option, none, some,
  List, [], ◌∷◌, ◌++◌, arith, length, take, concat, Option-cases, length-append,
}
use dora_metrics_app.Base.Int.{ℤ, pos, negsuc, ltb_ℤ}
use dora_metrics_app.Base.Text.{Text, same}
use dora_metrics_app.Collector.Jira.{
  Issue, RawIssue, bad_issue, Result, ok, err, answered, received, decode_issue, Progress, more,
  full, failed, SearchResponse, search_request, IssueService, take_page, is_end, after_page,
  search_from, search_issues, is_success,
}

-- The first items of a list, up to a limit that counts if it is positive.
abbrev pub first {ℓ} : {A : Type ℓ} → ℤ → List A → List A
first (pos zero) xs = xs
first (pos (suc n)) xs = take (suc n) xs
first (negsuc n) xs = xs

-- A progress without the difference between a full list and one that could grow.
abbrev settle : Progress Issue → Result (List Issue)
settle (more out) = ok out
settle (full out) = ok out
settle failed = err bad_issue

abbrev prepend : List Issue → Option (List Issue) → Result (List Issue)
prepend out none = err bad_issue
prepend out (some xs) = ok (out ++ xs)

abbrev and_then : Progress Issue → (List Issue → Progress Issue) → Progress Issue
and_then (more out) k = k out
and_then (full out) k = full out
and_then failed k = failed

abbrev pub with_first : Option Issue → Option (List Issue) → Option (List Issue)
with_first none xs = none
with_first (some i) none = none
with_first (some i) (some xs) = some (i ∷ xs)

prepend_one :
    (out : List Issue) (i : Issue) (xs : Option (List Issue))
    → prepend (out ++ i ∷ []) xs ≡ prepend out (with_first (some i) xs)
prepend_one out i none = refl
prepend_one out i (some xs) = ap ok (append_assoc out (i ∷ []) xs)

module _ (parse : Text → Text → Option ℤ) where
  -- Every issue decoded, or none if one of them does not decode.
  abbrev pub decode_all : List RawIssue → Option (List Issue)
  decode_all [] = some []
  decode_all (r ∷ rs) = with_first (decode_issue parse r) (decode_all rs)

  -- What a search is to give for the issues that the service holds.
  abbrev pub expected : ℤ → List RawIssue → Result (List Issue)
  expected limit rs = prepend [] (decode_all (first limit rs))

  module _ (limit : ℤ) where
    take_page-append :
        (out : List Issue) (rs qs : List RawIssue)
        → take_page parse limit out (rs ++ qs)
          ≡ and_then (take_page parse limit out rs) (λ o. take_page parse limit o qs)
    unfolding take_page
    take_page-append out [] qs = refl
    take_page-append out (r ∷ rs) qs = elim (Option-cases (decode_issue parse r)) [
      | inl e ↦ rw (e, take_page) refl
      | inr (i, e) ↦ ground (arith, e, take_page-append (out ++ i ∷ []) rs qs)
    ]

    -- With no limit every issue is taken.
    take_page-unlimited :
        (out : List Issue) (rs : List RawIssue)
        → ltb_ℤ (pos 0) limit ≡ false
        → settle (take_page parse limit out rs) ≡ prepend out (decode_all rs)
    unfolding take_page
    take_page-unlimited out [] h = ap ok (sym (append-nil out))
    take_page-unlimited out (r ∷ rs) h = elim (Option-cases (decode_issue parse r)) [
      | inl e ↦ rw (e, take_page) refl
      | inr (i, e) ↦
          ground
            (arith, e, take_page-unlimited (out ++ i ∷ []) rs, prepend_one out i (decode_all rs))
    ]

  -- With room for `suc r` more, as many are taken at most.
  take_page-limited :
      (n r : ℕ) (out : List Issue) (rs : List RawIssue)
      → length out + suc r ≡ suc n
      → settle (take_page parse (pos (suc n)) out rs) ≡ prepend out (decode_all (take (suc r) rs))
  unfolding take_page
  take_page-limited n r out [] h = ap ok (sym (append-nil out))
  take_page-limited n zero out (x ∷ rs) h = elim (Option-cases (decode_issue parse x)) [
    | inl e ↦ rw (e, take_page) refl
    | inr (i, e) ↦ ground (arith, e, length-append out (i ∷ []), prepend_one out i (some []))
  ]
  take_page-limited n (suc r) out (x ∷ rs) h = elim (Option-cases (decode_issue parse x)) [
    | inl e ↦ rw (e, take_page) refl
    | inr (i, e) ↦ ground (
      arith,
      e,
      length-append out (i ∷ []),
      take_page-limited n r (out ++ i ∷ []) rs,
      prepend_one out i (decode_all (take (suc r) rs)),
    )
  ]

  -- No negative number is a limit.
  not_below_zero : (n : ℕ) → ltb_ℤ (pos 0) (negsuc n) ≡ false
  not_below_zero n = ground arith

  take_page-expected :
      (limit : ℤ) (rs : List RawIssue) → settle (take_page parse limit [] rs) ≡ expected limit rs
  take_page-expected (pos zero) rs = take_page-unlimited (pos 0) [] rs refl
  take_page-expected (pos (suc n)) rs = take_page-limited n n [] rs (omega arith)
  take_page-expected (negsuc n) rs = take_page-unlimited (negsuc n) [] rs (not_below_zero n)

-- From this call on, the service gives these pages for a query: each names the next by a token, and
-- only the last may be empty.
pub data Serves (jira : IssueService) (jql : Text) : ℕ → Text → List (List RawIssue) → Type 0 where
  last :
      (call : ℕ) (token body : Text) (status : ℕ) (p : SearchResponse)
      → is_success status ≡ true
      → jira call (search_request jql token) ≡ answered status body (some p)
      → same p.next_page_token [] || p.is_last ≡ true
      → Serves jira jql call token (p.issues ∷ [])
  next :
      (call : ℕ) (token body : Text) (status : ℕ) (p : SearchResponse)
      (pages : List (List RawIssue))
      → is_success status ≡ true
      → jira call (search_request jql token) ≡ answered status body (some p)
      → is_end p ≡ false
      → Serves jira jql (suc call) p.next_page_token pages
      → Serves jira jql call token (p.issues ∷ pages)

received_page :
    (status : ℕ) (body : Text) (p : SearchResponse)
    → is_success status ≡ true
    → received (answered status body (some p)) ≡ ok p
unfolding received
received_page status body p good = rw good refl

-- The end of a round, when the page is the last one and when it is not.
after_end :
    (rest : Text → List Issue → Option (Result (List Issue))) (p : SearchResponse)
    (t : Progress Issue)
    → is_end p ≡ true
    → after_page rest p t ≡ some (settle t)
after_end rest p (more out) h = rw h refl
after_end rest p (full out) h = refl
after_end rest p failed h = refl

after_more :
    (rest : Text → List Issue → Option (Result (List Issue))) (p : SearchResponse)
    (k : List Issue → Progress Issue) (t : Progress Issue)
    → is_end p ≡ false
    → ((out : List Issue) → rest p.next_page_token out ≡ some (settle (k out)))
    → after_page rest p t ≡ some (settle (and_then t k))
after_more rest p k (more out) h ih = rw h (ih out)
after_more rest p k (full out) h ih = refl
after_more rest p k failed h ih = refl

last-is_end : (p : SearchResponse) → same p.next_page_token [] || p.is_last ≡ true → is_end p ≡ true
last-is_end p h = ground arith

module _ (parse : Text → Text → Option ℤ) (limit : ℤ) (jira : IssueService) (jql : Text) where
  round_lem :
      (fuel call : ℕ) (token body : Text) (out : List Issue) (status : ℕ) (p : SearchResponse)
      → is_success status ≡ true
      → jira call (search_request jql token) ≡ answered status body (some p)
      → search_from parse limit jira jql (suc fuel) call token out
        ≡ after_page
            (search_from parse limit jira jql fuel (suc call))
            p
            (take_page parse limit out p.issues)
  unfolding search_from
  round_lem fuel call token body out status p good e = rw (e, received_page status body p good) refl

  search_from-Serves :
      {call : ℕ} {token : Text} {pages : List (List RawIssue)}
      → Serves jira jql call token pages
      → (fuel : ℕ) (out : List Issue) → length pages ≤ fuel
      → search_from parse limit jira jql fuel call token out
        ≡ some (settle (take_page parse limit out (concat pages)))
  search_from-Serves (last call token body status p good e end) zero out h = absurd (omega arith)
  search_from-Serves (last call token body status p good e end) (suc fuel) out h =
      round_lem fuel call token body out status p good e
      ∙ after_end (search_from parse limit jira jql fuel (suc call)) p
          (take_page parse limit out p.issues) (last-is_end p end)
      ∙ ap (λ rs. some (settle (take_page parse limit out rs))) (sym (append-nil p.issues))
  search_from-Serves (next call token body status p pages good e more_pages rest) zero out h =
      absurd (omega arith)
  search_from-Serves (next call token body status p pages good e more_pages rest) (suc fuel) out h =
      round_lem fuel call token body out status p good e
      ∙ after_more (search_from parse limit jira jql fuel (suc call)) p
          (λ o. take_page parse limit o (concat pages)) (take_page parse limit out p.issues)
          more_pages (λ o. search_from-Serves rest fuel o (omega arith))
      ∙ ap (λ t. some (settle t)) (sym (take_page-append parse limit out p.issues (concat pages)))

-- Paging is invisible: where the service gives a query's issues in pages, in whatever portions, the
-- search with one unit of fuel for each page returns the first issues up to the limit, decoded and in
-- order, or fails if one of those does not decode.
pub search_issues-Serves :
    (parse : Text → Text → Option ℤ) (jira : IssueService) (jql : Text)
    (pages : List (List RawIssue)) (fuel : ℕ) (limit : ℤ)
    → Serves jira jql 0 [] pages
    → length pages ≤ fuel
    → search_issues parse jira fuel jql limit ≡ some (expected parse limit (concat pages))
unfolding search_issues
search_issues-Serves parse jira jql pages fuel limit s h =
    search_from-Serves parse limit jira jql s fuel [] h
    ∙ ap some (take_page-expected parse limit (concat pages))
