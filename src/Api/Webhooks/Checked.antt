-- ===== src/Api/Webhooks/Checked.antt =====
-- Who can make the webhooks collect, and what a genuine one does.
use mathlib.Core.List.{append-nil, append_assoc}
use mathlib.Core.Path.{subst}
use dora_metrics_app.Base.{
  ℕ, ◌+◌, ◌/◌, ◌%◌, ◌<◌, ◌≡◌, ◌≢◌, ◌↔◌, refl, sym, ap, ◌∙◌, ◌⊎◌, inl, inr, true, false, not, ◌||◌,
  Option, none, some, List, [], ◌∷◌, ◌++◌, map, arith, ltb, if◌then◌else◌, All, Bool-cases,
}
use dora_metrics_app.Base.Text.{
  Text, codes, same, same_iff, same_refl, strip_prefix, strip_prefix-append, strip_prefix-some,
}
use dora_metrics_app.Collector.Dispatch.{Load}
use dora_metrics_app.Collector.Jobs.{CollectTask, collect_jira}
use dora_metrics_app.Api.Webhooks.{
  RawEvent, State, Status, accepted, unauthorized, bad_body, Project, Faults, GitlabRequest,
  for_project, gitlab_project, handle_gitlab_webhook, hex_digit, decode_hex, matches_mac, of_digits,
  verify_jira_hmac, JiraRequest, jira_event, for_jira, for_jira_projects, verified, of_jira_body,
  handle_jira_webhook,
}

-- A request that shows the configured token, which is not empty.
abbrev pub ShowsToken : Text → GitlabRequest → Type 0
ShowsToken webhook_token r = (webhook_token ≢ []) × (r.token ≡ webhook_token)

differs : (s t : Text) → same s t ≡ false → s ≢ t
differs s t e k = let hit : same s t ≡ true = (same_iff s t).1 k in ground arith

token_cases :
    (expected shown : Text)
    → (same expected [] || not (same shown expected) ≡ true)
        × ((expected ≡ []) ⊎ (shown ≢ expected))
      ⊎ (same expected [] || not (same shown expected) ≡ false)
        × (expected ≢ [])
        × (shown ≡ expected)
token_cases expected shown = elim (Bool-cases (same expected [])) [
  | inl e ↦ inl (rw e refl, inl ((same_iff expected []).0 e))
  | inr e ↦ elim (Bool-cases (same shown expected)) [
    | inl f ↦ inr (rw (e, f) refl, differs expected [] e, (same_iff shown expected).0 f)
    | inr f ↦ inl (rw (e, f) refl, inr (differs shown expected f))
  ]
]

-- A request to the webhook of GitLab is answered as unauthorized, and changes nothing, exactly if no
-- token is configured or it shows another one.
pub handle_gitlab_webhook-ShowsToken :
    (faults : Faults) (webhook_token : Text) (lookup : ℕ → Load Project) (s : State)
    (r : GitlabRequest)
    → ((webhook_token ≡ []) ⊎ (r.token ≢ webhook_token))
        × (handle_gitlab_webhook faults webhook_token lookup s r ≡ (s, unauthorized))
      ⊎ ShowsToken webhook_token r
        × ((handle_gitlab_webhook faults webhook_token lookup s r).1 ≢ unauthorized)
unfolding handle_gitlab_webhook
handle_gitlab_webhook-ShowsToken faults webhook_token lookup s r =
    elim (token_cases webhook_token r.token) [
      | inl (e, why) ↦ inl (why, rw e refl)
      | inr (e, nonempty, shown) ↦ inr ((nonempty, shown), rw e (λ h. go r.body h))
    ]
  where
    go :
        (body : Option Text)
        → (elim body as (λ _. State × Status) [
          | none ↦ (s, bad_body)
          | some b ↦ (
            for_project faults webhook_token lookup s r b
                (gitlab_project faults webhook_token lookup r),
            accepted,
          )
        ]).1
          ≡ unauthorized
        → ⊥
    go none h = cc
    go (some b) h = cc

-- How a byte is written.
abbrev digit_of : ℕ → ℕ
digit_of n = if ltb n 10 then 48 + n else 87 + n

abbrev pub encode_hex : Text → Text
encode_hex [] = []
encode_hex (b ∷ bs) = digit_of (b / 16) ∷ digit_of (b % 16) ∷ encode_hex bs

hex_digit_of : (n : ℕ) → n < 16 → hex_digit (digit_of n) ≡ some n
hex_digit_of n h = ground arith

decode_hex-encode : (bs : Text) → All (λ b. b < 256) bs → decode_hex (encode_hex bs) ≡ some bs
unfolding decode_hex
decode_hex-encode [] h = refl
decode_hex-encode (b ∷ bs) h =
    rw
      (
        hex_digit_of (b / 16) (omega arith),
        hex_digit_of (b % 16) (omega arith),
        decode_hex-encode bs h.1,
      )
      (ap (λ x. some (x ∷ bs)) (omega arith))

-- A header that signs a body: the HMAC of the body in hexadecimal digits, of either case.
abbrev pub Signs : (Text → Text → Text) → Text → Text → Text → Type 0
Signs hmac secret body header =
    (digits : Text) × (header ≡ codes "sha256=" ++ digits)
    × (decode_hex digits ≡ some (hmac secret body))

module _ (hmac : Text → Text → Text) (secret body : Text) where
  matches_mac_lem :
      (got : Option Text) → matches_mac hmac secret body got ≡ true → got ≡ some (hmac secret body)
  matches_mac_lem none h = cc
  matches_mac_lem (some got) h = ap some ((same_iff got (hmac secret body)).0 h)

  of_digits-Signs :
      (header : Text) (digits : Option Text)
      → strip_prefix (codes "sha256=") header ≡ digits
      → of_digits hmac secret body digits ≡ true
      → Signs hmac secret body header
  of_digits-Signs header none e h = cc
  of_digits-Signs header (some digits) e h = (
    digits,
    strip_prefix-some (codes "sha256=") header digits e,
    matches_mac_lem (decode_hex digits) h,
  )

  verify-Signs :
      (header : Text)
      → verify_jira_hmac hmac body header secret ≡ true
      → Signs hmac secret body header
  unfolding verify_jira_hmac
  verify-Signs header h = of_digits-Signs header (strip_prefix (codes "sha256=") header) refl h

  Signs-verify :
      (header : Text)
      → Signs hmac secret body header
      → verify_jira_hmac hmac body header secret ≡ true
  unfolding verify_jira_hmac
  Signs-verify header (digits, e, d) =
      ap (λ x. of_digits hmac secret body (strip_prefix (codes "sha256=") x)) e
      ∙ ap (of_digits hmac secret body) (strip_prefix-append (codes "sha256=") digits)
      ∙ ap (matches_mac hmac secret body) d
      ∙ same_refl (hmac secret body)

-- The check of a Jira signature accepts exactly the headers that sign the body with the secret, and so
-- the one that has the HMAC as lower-case digits.
pub verify_jira_hmac-Signs :
    (hmac : Text → Text → Text) (body header secret : Text)
    → All (λ b. b < 256) (hmac secret body)
    → ((verify_jira_hmac hmac body header secret ≡ true) ↔ Signs hmac secret body header)
      × (verify_jira_hmac hmac body (codes "sha256=" ++ encode_hex (hmac secret body)) secret
          ≡ true)
verify_jira_hmac-Signs hmac body header secret bytes = (
  (verify-Signs hmac secret body header, Signs-verify hmac secret body header),
  Signs-verify hmac secret body (codes "sha256=" ++ encode_hex (hmac secret body))
      (encode_hex (hmac secret body), refl, decode_hex-encode (hmac secret body) bytes),
)

-- Nothing fails to be stored or enqueued.
abbrev pub no_faults : Faults
no_faults = record { insert = λ _. false; enqueue = λ _. false }

abbrev pub task_of : Project → CollectTask
task_of p = collect_jira p.id 0

-- The events of a request, put before those that are there.
abbrev pub with_events : JiraRequest → Text → List Project → List RawEvent → List RawEvent
with_events r body [] events = events
with_events r body (p ∷ ps) events = with_events r body ps (jira_event no_faults r body p ∷ events)

for_jira_projects_lem :
    (s : State) (r : JiraRequest) (body : Text) (ps : List Project)
    → for_jira_projects no_faults s r body ps ≡ record {
      raw_events = with_events r body ps s.raw_events;
      queue = s.queue ++ map task_of ps;
    }
unfolding for_jira_projects
for_jira_projects_lem s r body [] =
    ap (λ (q : List CollectTask). record { raw_events = s.raw_events; queue = q })
      (sym (append-nil s.queue))
for_jira_projects_lem s r body (p ∷ ps) =
    for_jira_projects_lem (for_jira no_faults s r body p) r body ps
    ∙ ap
        (λ (q : List CollectTask). record {
          raw_events = with_events r body ps (jira_event no_faults r body p ∷ s.raw_events);
          queue = q;
        })
        (append_assoc s.queue (task_of p ∷ []) (map task_of ps))

-- What a request to the webhook of Jira leads to.
abbrev pub Collects :
    (Text → Text → Text)
    → Text
    → State
    → JiraRequest
    → Text
    → List Project
    → State × Status
    → Type 0
Collects hmac secret s r body ps (s', status) =
    ((secret ≢ []) × (¬ (Signs hmac secret body r.signature)) × (status ≡ unauthorized) × (s' ≡ s))
    ⊎ ((secret ≡ []) ⊎ Signs hmac secret body r.signature)
      × (status ≡ accepted)
      × (s'.queue ≡ s.queue ++ map task_of ps)
      × (s'.raw_events ≡ with_events r body ps s.raw_events)

-- A Jira webhook is refused, and changes nothing, if a secret is configured and the signature is not
-- that of the body; if no secret is configured or the body is signed, and nothing fails, it queues one
-- collection for each active project with the issue's key, in order, after what is queued, and stores
-- the event once for each of them.
pub handle_jira_webhook-Collects :
    (hmac : Text → Text → Text) (secret : Text) (list_projects : Text → Option (List Project))
    (s : State) (r : JiraRequest) (body : Text) (ps : List Project)
    → r.body ≡ some body
    → r.project_key ≢ []
    → list_projects r.project_key ≡ some ps
    → Collects hmac secret s r body ps (handle_jira_webhook no_faults hmac secret list_projects s r)
unfolding handle_jira_webhook
handle_jira_webhook-Collects hmac secret list_projects s r body ps read keyed listed =
    subst
      (λ b.
        Collects hmac secret s r body ps (of_jira_body no_faults hmac secret list_projects s r b))
      (sym read) (by_secret (Bool-cases (same secret [])))
  where
    keyed_lem : same r.project_key [] ≡ false
    keyed_lem = elim (Bool-cases (same r.project_key [])) [
      | inl e ↦ absurd (keyed ((same_iff r.project_key []).0 e))
      | inr e ↦ e
    ]

    stored :
        ((secret ≡ []) ⊎ Signs hmac secret body r.signature)
        → Collects hmac secret s r body ps
            (verified no_faults hmac secret list_projects s r body, accepted)
    stored genuine =
        rw (keyed_lem, listed, for_jira_projects_lem s r body ps) (inr (genuine, refl, refl, refl))

    unsigned :
        verify_jira_hmac hmac body r.signature secret ≡ false
        → ¬ (Signs hmac secret body r.signature)
    unsigned bad signed =
        let ok : verify_jira_hmac hmac body r.signature secret ≡ true =
          Signs-verify hmac secret body r.signature signed in
        cc (ok, bad)

    by_secret :
        (same secret [] ≡ true) ⊎ (same secret [] ≡ false)
        → Collects hmac secret s r body ps
            (of_jira_body no_faults hmac secret list_projects s r (some body))
    by_secret (inl e) = rw e (stored (inl ((same_iff secret []).0 e)))
    by_secret (inr closed) = elim (Bool-cases (verify_jira_hmac hmac body r.signature secret)) [
      | inl ok ↦ rw (closed, ok) (stored (inr (verify-Signs hmac secret body r.signature ok)))
      | inr bad ↦ rw (closed, bad) (inl (differs secret [] closed, unsigned bad, refl, refl))
    ]
