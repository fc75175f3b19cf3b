-- ===== src/Collector/Gitlab/Pages.antt =====
-- The pages of a list of the GitLab client (backend/internal/collector/gitlab/client.go).
use mathlib.Core.List.{append-nil, append_assoc}
use dora_metrics_app.Base.{
  ℕ, zero, suc, ◌≤◌, ◌≡◌, ◌≢◌, ◌↔◌, refl, sym, ap, ◌∙◌, ◌⊎◌, inl, inr, Bool, true, false, ◌||◌,
  Option, none, some, List, [], ◌∷◌, ◌++◌, arith, length, concat, leb, ltb, if◌then◌else◌,
  Bool-cases, Option-cases,
}
use dora_metrics_app.Base.Int.{ℤ, pos, negsuc}
use dora_metrics_app.Base.Text.{Text}
use dora_metrics_app.Collector.Gitlab.{
  Request, ClientError, Result, ok, err, Reply, unbuilt, unsent, answered, Service, atoi,
  next_page_of, do_get_json_paged, is_zero, pages_from, list_all,
}

-- A reply with a page: a 2xx with these items, and this header X-Next-Page.
abbrev pub IsPage {ℓ} : {A : Type ℓ} → Reply (List A) → List A → Text → Type ℓ
IsPage {A = A} r batch header =
    (status : ℕ) × (body : Text) × (200 ≤ status)
    × (status ≤ 299)
    × (r ≡ answered status body (some batch) header)

-- A header that names no further page: it is no number, or zero.
abbrev pub NamesNone : Text → Type 0
NamesNone header = (atoi header ≡ none) ⊎ (atoi header ≡ some (pos 0))

module _ {ℓ} {A : Type ℓ} where
  page_read :
      (r : Reply (List A)) (batch : List A) (header : Text)
      → IsPage r batch header
      → do_get_json_paged r ≡ ok (batch, next_page_of (atoi header))
  unfolding do_get_json_paged
  page_read r batch header (status, body, low, high, e) =
      let good : ltb status 200 || leb 300 status ≡ false = ground arith in rw (e, good) refl

  -- A reading that succeeds was of a page.
  read-IsPage :
      (r : Reply (List A)) (batch : List A) (n : ℤ)
      → do_get_json_paged r ≡ ok (batch, n)
      → (header : Text) × IsPage r batch header × (n ≡ next_page_of (atoi header))
  unfolding do_get_json_paged
  read-IsPage unbuilt batch n h = cc
  read-IsPage unsent batch n h = cc
  read-IsPage (answered status body none header) batch n h =
      absurd (unread (ltb status 200 || leb 300 status) _ _ _ h)
    where
      unread :
          (b : Bool) (e f : ClientError) (x : List A × ℤ) → (if b then err e else err f) ≡ ok x → ⊥
      unread true e f x k = cc
      unread false e f x k = cc
  read-IsPage (answered status body (some a) header) batch n h =
      elim (Bool-cases (ltb status 200 || leb 300 status)) [
        | inl bad ↦ cc (rw bad at h)
        | inr good ↦
            let same = read_as (rw good at h) in
            (
              header,
              (
                status,
                body,
                ground arith,
                ground arith,
                ap (λ b. answered status body (some b) header) same.0,
              ),
              same.1,
            )
      ]
    where
      pair : Result (List A × ℤ) → List A × ℤ
      pair (ok x) = x
      pair (err e) = ([], pos 0)

      read_as :
          {a b : List A} {k l : ℤ}
          → ◌≡◌ {A = Result (List A × ℤ)} (ok (a, k)) (ok (b, l))
          → (a ≡ b) × (l ≡ k)
      read_as k = let e = ap pair k in (ap (λ x. x.0) e, sym (ap (λ x. x.1) e))

is_zero_none : (header : Text) → NamesNone header → is_zero (next_page_of (atoi header)) ≡ true
is_zero_none header (inl e) = rw e refl
is_zero_none header (inr e) = rw e refl

is_zero_iff : (n : ℤ) → (is_zero n ≡ true) ↔ (n ≡ pos 0)
is_zero_iff (pos zero) = (λ h. refl, λ h. refl)
is_zero_iff (pos (suc n)) = (λ h. cc, λ h. cc)
is_zero_iff (negsuc n) = (λ h. cc, λ h. cc)

is_zero_next : (n : ℤ) → n ≢ pos 0 → is_zero n ≡ false
is_zero_next n h = elim (Bool-cases (is_zero n)) [
  | inl z ↦ absurd (h ((is_zero_iff n).0 z))
  | inr z ↦ z
]

zero-NamesNone :
    (header : Text) (n : ℤ) → n ≡ next_page_of (atoi header) → is_zero n ≡ true → NamesNone header
zero-NamesNone header n e z = elim (Option-cases (atoi header)) [
  | inl a ↦ inl a
  | inr (m, a) ↦ inr (a ∙ ap some (sym (ap next_page_of a) ∙ sym e ∙ (is_zero_iff n).0 z))
]

next-number :
    (header : Text) (n : ℤ)
    → n ≡ next_page_of (atoi header)
    → is_zero n ≡ false
    → atoi header ≡ some n
next-number header n e z = elim (Option-cases (atoi header)) [
  | inl a ↦ absurd (none_there (e ∙ ap next_page_of a))
  | inr (m, a) ↦ a ∙ ap some (sym (ap next_page_of a) ∙ sym e)
]
  where
    none_there : n ≡ pos 0 → ⊥
    none_there k = cc ((is_zero_iff n).1 k, z)

module _ {ℓ} {A : Type ℓ} (service : Service (List A)) (request : ℤ → Request) where
  -- From this call and page on, the service gives these pages: the header of each is the number of the
  -- next one, and that of the last one names none.
  pub data Serves : ℕ → ℤ → List (List A) → Type ℓ where
    last :
        (call : ℕ) (page : ℤ) (batch : List A) (header : Text)
        → IsPage (service call (request page)) batch header
        → NamesNone header
        → Serves call page (batch ∷ [])
    next :
        (call : ℕ) (page next_page : ℤ) (batch : List A) (header : Text) (pages : List (List A))
        → IsPage (service call (request page)) batch header
        → atoi header ≡ some next_page
        → next_page ≢ pos 0
        → Serves (suc call) next_page pages
        → Serves call page (batch ∷ pages)

  pages_from-Serves :
      {call : ℕ} {page : ℤ} {pages : List (List A)}
      → Serves call page pages
      → (fuel : ℕ) (all : List A) → length pages ≤ fuel
      → pages_from service request fuel call page all ≡ some (ok (all ++ concat pages))
  unfolding pages_from
  pages_from-Serves (last call page batch header p none_next) zero all h = absurd (omega arith)
  pages_from-Serves (last call page batch header p none_next) (suc fuel) all h =
      rw (page_read _ batch header p, is_zero_none header none_next)
        (ap (λ b. some (ok (all ++ b))) (sym (append-nil batch)))
  pages_from-Serves (next call page n batch header pages p named more rest) zero all h =
      absurd (omega arith)
  pages_from-Serves (next call page n batch header pages p named more rest) (suc fuel) all h =
      rw (page_read _ batch header p, named, is_zero_next n more)
        (pages_from-Serves rest fuel (all ++ batch) (omega arith)
          ∙ ap (λ b. some (ok b)) (append_assoc all batch (concat pages)))

  -- Pages that were served, within the fuel, with what they hold after `all`.
  abbrev pub Collected : ℕ → ℕ → ℤ → List A → List A → Type ℓ
  Collected fuel call page all xs =
      (pages : List (List A)) × Serves call page pages
      × (length pages ≤ fuel)
      × (xs ≡ all ++ concat pages)

  Reply-cases :
      (r : Result (List A × ℤ))
      → ((e : ClientError) × (r ≡ err e)) ⊎ ((batch : List A) × (n : ℤ) × (r ≡ ok (batch, n)))
  Reply-cases (err e) = inl (e, refl)
  Reply-cases (ok (batch, n)) = inr (batch, n, refl)

  items : Option (Result (List A)) → List A
  items (some (ok xs)) = xs
  items _ = []

  Collected-next :
      (fuel call : ℕ) (page n : ℤ) (all batch xs : List A)
      → do_get_json_paged (service call (request page)) ≡ ok (batch, n)
      → is_zero n ≡ false
      → Collected fuel (suc call) n (all ++ batch) xs
      → Collected (suc fuel) call page all xs
  Collected-next fuel call page n all batch xs got z (pages, served, enough, e) =
      let (header, p, named) = read-IsPage _ batch n got in
      (
        batch ∷ pages,
        next call page n batch header pages p (next-number header n named z) (more n z) served,
        omega arith,
        e ∙ append_assoc all batch (concat pages),
      )
    where
      more : (k : ℤ) → is_zero k ≡ false → k ≢ pos 0
      more k f same = cc ((is_zero_iff k).1 same, f)

  Collected-last :
      (fuel call : ℕ) (page n : ℤ) (all batch xs : List A)
      → do_get_json_paged (service call (request page)) ≡ ok (batch, n)
      → is_zero n ≡ true
      → xs ≡ all ++ batch
      → Collected (suc fuel) call page all xs
  Collected-last fuel call page n all batch xs got z e =
      let (header, p, named) = read-IsPage _ batch n got in
      (
        batch ∷ [],
        last call page batch header p (zero-NamesNone header n named z),
        omega arith,
        e ∙ ap (λ b. all ++ b) (sym (append-nil batch)),
      )

  pages_from-Collected :
      (fuel call : ℕ) (page : ℤ) (all xs : List A)
      → pages_from service request fuel call page all ≡ some (ok xs)
      → Collected fuel call page all xs
  unfolding pages_from items
  pages_from-Collected zero call page all xs h = cc
  pages_from-Collected (suc fuel) call page all xs h =
      elim (Reply-cases (do_get_json_paged (service call (request page)))) [
        | inl (e, failed) ↦ cc (rw failed at h)
        | inr (batch, n, got) ↦ elim (Bool-cases (is_zero n)) [
          | inl z ↦
              Collected-last fuel call page n all batch xs got z (sym (ap items (rw (got, z) at h)))
          | inr z ↦
              Collected-next fuel call page n all batch xs got z
                (pages_from-Collected fuel (suc call) n (all ++ batch) xs (rw (got, z) at h))
        ]
      ]

-- A list of the client gives some items exactly if the service served all its pages, each a 2xx that
-- decodes and names the next one in X-Next-Page, the last one naming none, within the fuel of one unit
-- a page, and the items are those of the pages in order. So a list never ends early: a page that fails
-- makes it fail.
pub list_all_lem {ℓ} :
    {A : Type ℓ} (service : Service (List A)) (request : ℤ → Request) (fuel : ℕ) (xs : List A)
    → (list_all service request fuel ≡ some (ok xs)) ↔ (
        (pages : List (List A)) × Serves service request 0 (pos 1) pages
        × (length pages ≤ fuel)
        × (xs ≡ concat pages))
unfolding list_all
list_all_lem service request fuel xs = (
  pages_from-Collected service request fuel 0 (pos 1) [] xs,
  λ (pages, served, enough, e).
      pages_from-Serves service request served fuel [] enough ∙ ap (λ b. some (ok b)) (sym e),
)
