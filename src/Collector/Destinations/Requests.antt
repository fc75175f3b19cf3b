-- ===== src/Collector/Destinations/Requests.antt =====
-- What a destination gets.
use mathlib.Core.Option.{some-injective}
use dora_metrics_app.Base.{
  ℕ, ◌≡◌, refl, sym, ap, ◌∙◌, String, Bool, true, false, some, [], ◌++◌, arith, if◌then◌else◌,
  str_eq, eq_iff, Bool-cases, inl, inr,
}
use dora_metrics_app.Base.Text.{Text, codes, same, same_iff}
use dora_metrics_app.Tier.{alert_is_promotion}
use dora_metrics_app.Collector.Destinations.{
  Event, Rule, Request, dest_opsgenie, adapt_request, severity, event_action, priority,
  is_promotion, previous_of, with_genie_key, build_opsgenie_body,
}

none_below_low : (p : String) → alert_is_promotion p "low" ≡ false
unfolding alert_is_promotion
none_below_low p =
    ground (arith, eq_iff p "elite", eq_iff p "high", eq_iff p "medium", eq_iff p "low")

no_promotion_to_low : (p c : String) → alert_is_promotion p c ≡ true → str_eq c "low" ≡ false
no_promotion_to_low p c h = elim (Bool-cases (str_eq c "low")) [
  | inl e ↦ absurd (
      let at_low : alert_is_promotion p "low" ≡ true =
        ap (alert_is_promotion p) (sym ((eq_iff c "low").0 e)) ∙ h in
      let stop : true ≡ false = sym at_low ∙ none_below_low p in ground (arith, stop))
  | inr e ↦ e
]

abbrev severity_of : Bool → Bool → String
severity_of up low = if up then "info" else if low then "error" else "warning"

severity_table :
    (up low : Bool)
    → (up ≡ true → low ≡ false)
    → (str_eq (severity_of up low) "error" ≡ low)
      × (str_eq (severity_of up low) "info" ≡ up)
      × (str_eq (if up then "resolve" else "trigger") "resolve"
          ≡ str_eq (severity_of up low) "info")
      × (str_eq (if low then "P2" else "P3") "P2" ≡ str_eq (severity_of up low) "error")
severity_table true true h = absurd (let stop : true ≡ false = h refl in ground (arith, stop))
severity_table true false h = (refl, refl, refl, refl)
severity_table false true h = (refl, refl, refl, refl)
severity_table false false h = (refl, refl, refl, refl)

-- The severity of a page is "error" exactly for a fall to the tier "low", and "info" exactly for a
-- promotion, which also is all that resolves; Opsgenie's priority is "P2" exactly where PagerDuty's
-- severity is "error".
pub page_severity :
    (e : Event)
    → (str_eq (severity e) "error" ≡ str_eq e.current_tier "low")
      × (str_eq (severity e) "info" ≡ alert_is_promotion (previous_of e) e.current_tier)
      × (str_eq (event_action e) "resolve" ≡ str_eq (severity e) "info")
      × (str_eq (priority e) "P2" ≡ str_eq (severity e) "error")
page_severity e =
    severity_table (is_promotion e) (str_eq e.current_tier "low")
      (no_promotion_to_low (previous_of e) e.current_tier)

genie_key_hidden :
    (q : Request)
    → ((with_genie_key q).url.api_key ≡ [])
      × ((with_genie_key q).authorization ≡ (
          if same q.url.api_key []
          then q.authorization
          else some (codes "GenieKey " ++ q.url.api_key)))
genie_key_hidden q = elim (Bool-cases (same q.url.api_key [])) [
  | inl h ↦ rw h ((same_iff q.url.api_key []).0 h, refl)
  | inr h ↦ rw h (refl, refl)
]

-- A request to Opsgenie never has the API key in its URL; a key that the URL had is in the header
-- Authorization.
pub adapt_request_hides_key :
    (rfc3339 : ℕ → Text) (q q' : Request) (e : Event) (r : Rule)
    → adapt_request rfc3339 dest_opsgenie q e r ≡ some q'
    → (q'.url.api_key ≡ [])
      × (q'.authorization ≡ (
          if same q.url.api_key []
          then q.authorization
          else some (codes "GenieKey " ++ q.url.api_key)))
unfolding adapt_request
adapt_request_hides_key rfc3339 q q' e r h =
    let adapted = record q { body = build_opsgenie_body rfc3339 e r } in
    let same : with_genie_key adapted ≡ q' = some-injective _ _ h in
    let (no_key, header) = genie_key_hidden adapted in
    (sym (ap (λ z. z.url.api_key) same) ∙ no_key, sym (ap (λ z. z.authorization) same) ∙ header)
