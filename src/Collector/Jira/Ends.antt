-- ===== src/Collector/Jira/Ends.antt =====
-- The end of a search of issues (`RESTSource.SearchIssues`).
use dora_metrics_app.Base.{
  ℕ, zero, suc, ◌+◌, ◌≤◌, ◌<◌, ◌≡◌, inl, inr, false, Option, none, some, List, [], ◌∷◌, ◌++◌, arith,
  length, is_nil, Bool-cases, Option-cases, length-append,
}
use dora_metrics_app.Base.Int.{ℤ, pos}
use dora_metrics_app.Base.Text.{Text}
use dora_metrics_app.Collector.Jira.{
  Issue, RawIssue, Result, ok, err, received, decode_issue, Progress, more, full, failed, is_full,
  SearchResponse, search_request, IssueService, take_page, is_end, after_page, after_reply,
  search_from, search_issues,
}

-- A list grew by as many as a page holds and stays below the limit, or it reached the limit.
abbrev Grows : ℕ → List Issue → List RawIssue → Progress Issue → Type 0
Grows n out rs (more out') = (length out' ≡ length out + length rs) × (length out' ≤ n)
Grows n out rs (full out') = length out' ≤ suc n
Grows n out rs failed = Unit

abbrev pub IsWithin : ℕ → Result (List Issue) → Type 0
IsWithin n (ok out) = length out ≤ n
IsWithin n (err e) = Unit

-- A search came to a result within the limit.
abbrev pub Ends : ℕ → Option (Result (List Issue)) → Type 0
Ends n none = ⊥
Ends n (some r) = IsWithin n r

some_of : (rs : List RawIssue) → is_nil rs ≡ false → 0 < length rs
some_of [] h = cc
some_of (r ∷ rs) h = omega arith

-- A page that is not the end of a search has issues.
more_has_issues : (p : SearchResponse) → is_end p ≡ false → 0 < length p.issues
more_has_issues p h = ground (arith, some_of p.issues)

module _ (parse : Text → Text → Option ℤ) (n : ℕ) where
  Grows-cons :
      (out : List Issue) (r : RawIssue) (rs : List RawIssue) (i : Issue) (t : Progress Issue)
      → Grows n (out ++ i ∷ []) rs t
      → Grows n out (r ∷ rs) t
  Grows-cons out r rs i (more o) g = omega (arith, length-append out (i ∷ []))
  Grows-cons out r rs i (full o) g = g
  Grows-cons out r rs i failed g = tt

  take_page-Grows :
      (out : List Issue) (rs : List RawIssue)
      → length out ≤ n
      → Grows n out rs (take_page parse (pos (suc n)) out rs)
  unfolding take_page
  take_page-Grows out [] h = omega arith
  take_page-Grows out (r ∷ rs) h = elim (Option-cases (decode_issue parse r)) [
    | inl e ↦ rw (e, take_page) tt
    | inr (i, e) ↦ elim (Bool-cases (is_full (pos (suc n)) (out ++ i ∷ []))) [
      | inl f ↦ rw (e, take_page, f) (omega (arith, length-append out (i ∷ [])))
      | inr f ↦
          rw (e, take_page, f)
            (Grows-cons out r rs i (take_page parse (pos (suc n)) (out ++ i ∷ []) rs)
              (take_page-Grows (out ++ i ∷ []) rs (ground (arith, length-append out (i ∷ [])))))
    ]
  ]

  after_page-Ends :
      (rest : Text → List Issue → Option (Result (List Issue))) (out : List Issue)
      (p : SearchResponse) (t : Progress Issue)
      → Grows n out p.issues t
      → ((o : List Issue)
          → length out < length o
          → length o ≤ n
          → Ends (suc n) (rest p.next_page_token o))
      → Ends (suc n) (after_page rest p t)
  after_page-Ends rest out p (more o) g ih = elim (Bool-cases (is_end p)) [
    | inl e ↦ rw e (omega arith)
    | inr e ↦ rw e (ih o (omega (arith, more_has_issues p e)) g.1)
  ]
  after_page-Ends rest out p (full o) g ih = g
  after_page-Ends rest out p failed g ih = tt

  module _ (jira : IssueService) (jql : Text) where
    search_from-Ends :
        (fuel call : ℕ) (token : Text) (out : List Issue)
        → length out ≤ n
        → n < fuel + length out
        → Ends (suc n) (search_from parse (pos (suc n)) jira jql fuel call token out)
    unfolding search_from
    search_from-Ends zero call token out h f = absurd (omega arith)
    search_from-Ends (suc fuel) call token out h f =
        go (received (jira call (search_request jql token)))
          λ t o lt le. search_from-Ends fuel (suc call) t o le (omega arith)
      where
        go :
            (r : Result SearchResponse)
            → ((t : Text) (o : List Issue)
                → length out < length o
                → length o ≤ n
                → Ends (suc n) (search_from parse (pos (suc n)) jira jql fuel (suc call) t o))
            → Ends (suc n) (
                after_reply parse
                  (pos (suc n))
                  (search_from parse (pos (suc n)) jira jql fuel (suc call))
                  out
                  r)
        go (err e) ih = tt
        go (ok p) ih =
            after_page-Ends (search_from parse (pos (suc n)) jira jql fuel (suc call)) out p
              (take_page parse (pos (suc n)) out p.issues) (take_page-Grows out p.issues h)
              (ih p.next_page_token)

-- A search with a positive limit ends within as many rounds as the limit, whatever the service
-- answers, and returns an error or at most as many issues as the limit.
pub search_issues-Ends :
    (parse : Text → Text → Option ℤ) (jira : IssueService) (jql : Text) (n fuel : ℕ)
    → suc n ≤ fuel
    → Ends (suc n) (search_issues parse jira fuel jql (pos (suc n)))
unfolding search_issues
search_issues-Ends parse jira jql n fuel h =
    search_from-Ends parse n jira jql fuel 0 [] [] (omega arith) (omega arith)
