-- ===== src/Collector/Correlation/Tests.antt =====
-- Three deployments and five merge requests; one is by a bot, one is too old.
use dora_metrics_app.Base.{
  ℕ, ◌≡◌, refl, ◌*◌, true, false, not, ◌&&◌, none, some, List, [], ◌∷◌, Any, ◌↔◌, arith,
}
use dora_metrics_app.Base.Int.{ℤ, pos, ◌-ℤ◌}
use dora_metrics_app.Collector.Correlation.{
  Deployment, MergeRequest, Link, calls, correlate, has_link, backfill,
}
use dora_metrics_app.Collector.Correlation.First.{FinishAfter, IsOwned, calls_iff}
use dora_metrics_app.Collector.Correlation.Idempotent.{correlate_idempotent}

-- An instant in days.
abbrev at_day : ℕ → ℤ
at_day n = pos (n * 86_400_000_000)

abbrev deployment : ℕ → ℕ → Deployment
deployment id n = record { id = id; finished_at = some (at_day n) }

abbrev merged : ℕ → ℕ → MergeRequest
merged id n = record {
  id = id;
  target_branch = "main";
  merged_at = some (at_day n);
  author_is_bot = false;
}

abbrev by_bot : MergeRequest
by_bot = record {
  id = 24;
  target_branch = "main";
  merged_at = some (at_day 41);
  author_is_bot = true;
}

abbrev later_two : List Deployment
later_two = deployment 2 42 ∷ deployment 3 45 ∷ []

abbrev three_deployments : List Deployment
three_deployments = deployment 1 40 ∷ later_two

abbrev five : List MergeRequest
five = merged 20 5 ∷ merged 21 40 ∷ merged 22 41 ∷ merged 23 45 ∷ by_bot ∷ []

abbrev link : ℕ → ℕ → Link
link d m = record { deployment_id = d; merge_request_id = m }

correlate-three_deployments :
    correlate five "main" three_deployments [] ≡ link 1 21 ∷ link 2 22 ∷ link 3 23 ∷ []
unfolding correlate ◌-ℤ◌
correlate-three_deployments = refl

-- A deployment between the first two that is collected later: the link of merge request 22 to the
-- second one stays beside the new one.
correlate_late :
    correlate five "main" (deployment 1 40 ∷ deployment 9 41 ∷ later_two) (link 2 22 ∷ [])
    ≡ link 2 22 ∷ link 1 21 ∷ link 9 22 ∷ link 3 23 ∷ []
unfolding correlate ◌-ℤ◌
correlate_late = refl

calls_iff_example :
    Any {A = Deployment × MergeRequest}
      (λ c. c ≡ (deployment 2 42, merged 22 41))
      (calls five "main" none three_deployments)
    ↔ IsOwned five "main"
        (at_day 40 -ℤ backfill)
        three_deployments
        (deployment 2 42)
        (merged 22 41)
        (at_day 41)
unfolding FinishAfter
calls_iff_example =
    calls_iff five "main" (deployment 2 42) (merged 22 41) (at_day 41) refl (deployment 1 40)
      (at_day 40) later_two refl
      (at_day 42, refl, ground arith, (at_day 45, refl, ground arith, tt))

correlate_idempotent_example :
    ((has_link [] (link 1 21)
        && not (has_link (correlate five "main" three_deployments []) (link 1 21)))
      ≡ false)
    × (correlate five "main" three_deployments (correlate five "main" three_deployments [])
        ≡ correlate five "main" three_deployments [])
correlate_idempotent_example = correlate_idempotent five "main" three_deployments [] (link 1 21)
