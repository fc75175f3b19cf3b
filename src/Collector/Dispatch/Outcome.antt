-- ===== src/Collector/Dispatch/Outcome.antt =====
-- When an attempt delivers its event, and when the queue tries again.
use dora_metrics_app.Base.{
  ℕ, ◌/◌, ◌==◌, arith, ◌∙◌, ◌≡◌, refl, Bool, true, false, not, ◌&&◌, ◌||◌, Option, none, some,
  str_eq, Bool-cases, inl, inr,
}
use dora_metrics_app.Base.Text.{Text}
use dora_metrics_app.Collector.Destinations.{Event, Rule, Request, Parsed, parse_error, parsed}
use dora_metrics_app.Collector.Dispatch.{
  Load, found, no_rows, load_error, PostResult, transport_error, response, TaskResult, done, retry,
  skip_retry, Attempt, is_success, is_permanent, mark_alert_event_failed, after_post, reject,
  send_adapted, send, with_rule, handle_dispatch_alert,
}

abbrev pub is_delivered : Option Event → Bool
is_delivered none = false
is_delivered (some e) = str_eq e.delivery_status "delivered"

abbrev pub is_retry : TaskResult → Bool
is_retry retry = true
is_retry done = false
is_retry skip_retry = false

-- The rows that the attempt needs could not be read, though they may exist.
abbrev pub is_unread : Load Event → Load Rule → Bool
is_unread load_error rule = true
is_unread no_rows rule = false
is_unread (found e) load_error = true
is_unread (found e) no_rows = false
is_unread (found e) (found r) = false

-- The class of a status: 2 for 2xx, 4 for 4xx.
abbrev pub class : ℕ → ℕ
class status = status / 100

abbrev pub is_answered_well : PostResult → Bool
is_answered_well (transport_error message) = false
is_answered_well (response status) = class status == 2

-- No answer, or one that another attempt may better.
abbrev pub is_temporary : PostResult → Bool
is_temporary (transport_error message) = true
is_temporary (response status) =
    not (class status == 2) && (not (class status == 4) || (status == 408 || status == 429))

is_success-class : (status : ℕ) → is_success status ≡ (class status == 2)
is_success-class status = ground arith

is_permanent-class :
    (status : ℕ) → is_permanent status ≡ (class status == 4 && not (status == 408 || status == 429))
is_permanent-class status = ground arith

abbrev pub on_answer : (PostResult → Bool) → (Request → PostResult) → Option Request → Bool
on_answer p post none = false
on_answer p post (some q) = p (post q)

module _ (post : Request → PostResult) (update_fails : Bool) where
  -- What is shown of an attempt, where `unread` says that it could not start.
  abbrev pub IsFair : Bool → Attempt → Type 0
  IsFair unread a =
      (is_delivered a.update ≡ (on_answer is_answered_well post a.sent && not update_fails))
      × (is_retry a.result ≡ (
          unread
          || (on_answer is_temporary post a.sent
              || (on_answer is_answered_well post a.sent && update_fails))))

  failed_not_delivered :
      (status : Option ℕ) (message : Text) (e : Event)
      → is_delivered (mark_alert_event_failed update_fails status message e) ≡ false
  failed_not_delivered status message e = elim (Bool-cases update_fails) [
    | inl h ↦ rw h refl
    | inr h ↦ rw h refl
  ]

  reject-IsFair :
      (e : Event) (message : Text) → IsFair false (reject update_fails e message skip_retry)
  reject-IsFair e message = (failed_not_delivered none message e, refl)

  -- The same of the answer itself, on which the code branches.
  IsFairAnswer : PostResult → Attempt → Type 0
  IsFairAnswer r a =
      (is_delivered a.update ≡ (is_answered_well r && not update_fails))
      × (is_retry a.result ≡ (is_temporary r || (is_answered_well r && update_fails)))

  after_post-IsFairAnswer :
      (e : Event) (q : Request) (r : PostResult) → IsFairAnswer r (after_post update_fails e q r)
  unfolding IsFairAnswer
  after_post-IsFairAnswer e q (transport_error message) =
      (failed_not_delivered none message e, refl)
  after_post-IsFairAnswer e q (response status) = elim (Bool-cases (class status == 2)) [
    | inl s ↦
        let s' = is_success-class status ∙ s in
        elim (Bool-cases update_fails) [
          | inl u ↦ rw (s', s, u) (refl, refl)
          | inr u ↦ rw (s', s, u) (refl, refl)
        ]
    | inr s ↦
        let s' = is_success-class status ∙ s in
        elim (Bool-cases (is_permanent status)) [
          | inl t ↦
              rw (s', s, t)
                (failed_not_delivered _ _ e, ground (arith, s, t, is_permanent-class status))
          | inr t ↦
              rw (s', s, t)
                (failed_not_delivered _ _ e, ground (arith, s, t, is_permanent-class status))
        ]
  ]

  after_post_sent :
      (e : Event) (q : Request) (r : PostResult) → (after_post update_fails e q r).sent ≡ some q
  after_post_sent e q (transport_error message) = refl
  after_post_sent e q (response status) = elim (Bool-cases (is_success status)) [
    | inl s ↦ rw s refl
    | inr s ↦ rw s refl
  ]

  answered-IsFair :
      (q : Request) (a : Attempt) → a.sent ≡ some q → IsFairAnswer (post q) a → IsFair false a
  unfolding IsFairAnswer
  answered-IsFair q a s h = rw s h

module _ (parse : Text → Parsed) (rfc3339 : ℕ → Text) (post : Request → PostResult)
    (update_fails : Bool) where
  send_adapted-IsFair :
      (e : Event) (q : Option Request)
      → IsFair post update_fails false (send_adapted parse rfc3339 post update_fails e q)
  send_adapted-IsFair e none = reject-IsFair post update_fails e _
  send_adapted-IsFair e (some q) =
      answered-IsFair post update_fails q (after_post update_fails e q (post q))
        (after_post_sent post update_fails e q (post q))
        (after_post-IsFairAnswer post update_fails e q (post q))

  send-IsFair :
      (e : Event) (r : Rule) (u : Parsed)
      → IsFair post update_fails false (send parse rfc3339 post update_fails e r u)
  send-IsFair e r (parse_error message) = reject-IsFair post update_fails e message
  send-IsFair e r (parsed u) = send_adapted-IsFair e _

  with_rule-IsFair :
      (e : Event) (rule : Load Rule)
      → IsFair post update_fails
          (is_unread (found e) rule)
          (with_rule parse rfc3339 post update_fails e rule)
  with_rule-IsFair e no_rows = (failed_not_delivered post update_fails none _ e, refl)
  with_rule-IsFair e load_error = (refl, refl)
  with_rule-IsFair e (found r) = send-IsFair e r (parse r.webhook_url)

  -- An attempt writes its event as delivered exactly when it sent a request that a 2xx answered and
  -- the row could be updated. The queue tries again exactly when the event or its rule could not be
  -- read, there was no answer, the answer was neither a 2xx nor a 4xx other than 408 and 429, or a
  -- 2xx could not be written to the row.
  pub handle_dispatch_alert-IsFair :
      (event : Load Event) (rule : Load Rule)
      → IsFair post update_fails
          (is_unread event rule)
          (handle_dispatch_alert parse rfc3339 post update_fails event rule)
  unfolding handle_dispatch_alert
  handle_dispatch_alert-IsFair no_rows rule = (refl, refl)
  handle_dispatch_alert-IsFair load_error rule = (refl, refl)
  handle_dispatch_alert-IsFair (found e) rule = with_rule-IsFair e rule
