-- ===== src/Mcp/Tools/Trend.antt =====
-- `toolExplainTrend` of backend/internal/mcp/server/tools.go, its texts, and what it can say of a window.
use dora_metrics_app.Base.{
  String, ◌≡◌, refl, sym, ◌∙◌, false, Option, none, some, [], ◌++◌, arith, if◌then◌else◌,
}
use dora_metrics_app.Base.Int.{ℤ, pos, ltb_ℤ}
use dora_metrics_app.Base.Text.{Text, codes, same, same_refl}
use dora_metrics_app.Base.Dict
use dora_metrics_app.Base.Dict.{Dict}
use dora_metrics_app.Mcp.Tools.{
  Dynamic, text, int64, int64_ptr, float64, Outcome, returned, raised, invalid_arguments, Window,
  Db, Format, effective, put_some, boxed, counted, metrics_of, fetch_metrics_by_id, ScopeArgs,
  ToolOutput, trend, scope_of,
}

unfoldable pub tier_br : Text → Text
tier_br t =
    if same t (codes "elite")
    then codes "Elite (top do DORA Report)"
    else if same t (codes "high")
    then codes "High (acima da média)"
    else if same t (codes "medium")
    then codes "Medium (mediano)"
    else if same t (codes "low")
    then codes "Low (precisa de atenção)"
    else if same t (codes "insufficient_data")
    then codes "sem dados suficientes ainda"
    else t

unfoldable pub suggest_next : Text → Text
suggest_next t =
    if same t (codes "elite")
    then codes "Mantenha o ritmo — invista em redução de toil e em outras métricas."
    else if same t (codes "high")
    then codes "Para chegar a Elite, foque em deploys ainda menores e mais frequentes."
    else if same t (codes "medium")
    then codes "O maior ganho costuma vir de reduzir Lead Time — quebre PRs grandes."
    else if same t (codes "low")
    then codes "Priorize estabilizar CFR e MTTR; só depois aumente DF."
    else codes "Configure mais coleta para destravar o cálculo dos 4 indicadores."

module _ {F : Type 0} where
  -- The type assertions: `.(string)`, which gives "" otherwise, `.(float64)` and `.(int64)`.
  abbrev pub as_string : Option (Dynamic F) → Text
  as_string (some (text t)) = t
  as_string _ = []

  abbrev pub as_float64 : Option (Dynamic F) → Option F
  as_float64 (some (float64 x)) = some x
  as_float64 _ = none

  abbrev pub as_int64 : Option (Dynamic F) → Option ℤ
  as_int64 (some (int64 n)) = some n
  as_int64 _ = none

module _ {F : Type 0} (fmt : Format F) where
  unfoldable pub human_duration : ℤ → Text
  human_duration s =
      if ltb_ℤ s (pos 60)
      then fmt.decimal s ++ codes "s"
      else if ltb_ℤ s (pos 3600)
      then fmt.minutes s ++ codes "min"
      else if ltb_ℤ s (pos 86_400)
      then fmt.hours s ++ codes "h"
      else fmt.days s ++ codes "d"

  abbrev say_float : String → (F → Text) → String → Option F → Text
  say_float name print unit none = []
  say_float name print unit (some x) = codes name ++ (print x ++ codes unit)

  abbrev say_duration : String → Option ℤ → Text
  say_duration name none = []
  say_duration name (some s) =
      if ltb_ℤ (pos 0) s then codes name ++ (human_duration s ++ codes ". ") else []

  -- The text on the metrics of a scope.
  unfoldable pub narrative : Text → Text → ℤ → Dict (Dynamic F) → Text
  unfolding human_duration tier_br suggest_next
  narrative kind id days current =
      let tier = as_string (Dict.get current (codes "classification")) in
      codes "Janela de "
      ++ (fmt.decimal days
          ++ (codes " dias do "
              ++ (kind
                  ++ (codes " "
                      ++ (id
                          ++ (codes ": classificação combinada = "
                              ++ (tier_br tier
                                  ++ (codes ". "
                                      ++ (say_float "Deployment Frequency: " fmt.fixed_2
                                            " deploys/dia. "
                                            (as_float64
                                              (Dict.get current (codes "deployment_frequency")))
                                          ++ (say_duration "Lead Time mediano: " (
                                                as_int64 (
                                                  Dict.get current
                                                    (codes "lead_time_median_seconds")))
                                              ++ (say_float "Change Failure Rate: " fmt.percent_1
                                                    "%. "
                                                    (as_float64 (
                                                      Dict.get current
                                                        (codes "change_failure_rate")))
                                                  ++ (say_duration "MTTR médio: " (
                                                        as_int64 (
                                                          Dict.get current
                                                            (codes "mttr_mean_seconds")))
                                                      ++ suggest_next tier))))))))))))

  module _ (db : Db F) (now : ℤ) (parse_uuid : Text → Option Text) where
    abbrev explained : Text → Text → ℤ → Outcome (Dict (Dynamic F)) → Outcome (ToolOutput F)
    explained kind id days (raised e) = raised e
    explained kind id days (returned m) = returned (trend (narrative kind id days m) m)

    abbrev explain_scope : ℤ → Outcome (Text × Text) → Outcome (ToolOutput F)
    explain_scope days (raised e) = raised e
    explain_scope days (returned (kind, id)) =
        explained kind id days (fetch_metrics_by_id db fmt now kind id days)

    unfoldable pub tool_explain_trend : Option ScopeArgs → Outcome (ToolOutput F)
    unfolding narrative scope_of fetch_metrics_by_id
    tool_explain_trend none = raised invalid_arguments
    tool_explain_trend (some a) = explain_scope (effective a.window_days) (scope_of parse_uuid a)

module _ {F : Type 0} where
  get-put_some :
      (d : Dict (Dynamic F)) (k j : Text) (o : Option (Dynamic F))
      → same k j ≡ false
      → Dict.get (put_some d k o) j ≡ Dict.get d j
  get-put_some d k j none h = refl
  get-put_some d k j (some v) h = ground (arith, Dict.get-put d k j v)

  get-put_other :
      (d : Dict (Dynamic F)) (k j : Text) (v : Dynamic F)
      → same k j ≡ false
      → Dict.get (Dict.put d k v) j ≡ Dict.get d j
  get-put_other d k j v h = ground (arith, Dict.get-put d k j v)

  get-put_self :
      (d : Dict (Dynamic F)) (k : Text) (v : Dynamic F) → Dict.get (Dict.put d k v) k ≡ some v
  get-put_self d k v = ground (arith, Dict.get-put d k k v, same_refl k)

  -- The durations of a window reach the map as pointers.
  module _ (fmt : Format F) (now : ℤ) (kind id : Text) (days : ℤ) (w : Window F) where
    lead_time_lem :
        Dict.get (metrics_of fmt now kind id days w) (codes "lead_time_median_seconds")
        ≡ some (int64_ptr w.lead_time_median_s)
    unfolding metrics_of same
    lead_time_lem =
        get-put_some _ (codes "change_failure_rate") (codes "lead_time_median_seconds")
          (boxed float64 w.change_failure_rate) refl
        ∙ get-put_some _ (codes "deployment_frequency") (codes "lead_time_median_seconds")
            (boxed float64 w.deployment_frequency) refl
        ∙ get-put_some _ (codes "classification") (codes "lead_time_median_seconds")
            (boxed text w.classification) refl
        ∙ get-put_other _ (codes "mttr_mean_seconds") (codes "lead_time_median_seconds")
            (int64_ptr w.mttr_mean_s) refl
        ∙ get-put_self (counted fmt now kind id days w) (codes "lead_time_median_seconds")
            (int64_ptr w.lead_time_median_s)

    mttr_lem :
        Dict.get (metrics_of fmt now kind id days w) (codes "mttr_mean_seconds")
        ≡ some (int64_ptr w.mttr_mean_s)
    unfolding metrics_of same
    mttr_lem =
        get-put_some _ (codes "change_failure_rate") (codes "mttr_mean_seconds")
          (boxed float64 w.change_failure_rate) refl
        ∙ get-put_some _ (codes "deployment_frequency") (codes "mttr_mean_seconds")
            (boxed float64 w.deployment_frequency) refl
        ∙ get-put_some _ (codes "classification") (codes "mttr_mean_seconds")
            (boxed text w.classification) refl
        ∙ get-put_self
            (Dict.put (counted fmt now kind id days w) (codes "lead_time_median_seconds")
              (int64_ptr w.lead_time_median_s))
            (codes "mttr_mean_seconds") (int64_ptr w.mttr_mean_s)

  -- A put keeps two dictionaries equal at a key.
  put_some_cong :
      (d e : Dict (Dynamic F)) (k j : Text) (o : Option (Dynamic F))
      → Dict.get d j ≡ Dict.get e j
      → Dict.get (put_some d k o) j ≡ Dict.get (put_some e k o) j
  put_some_cong d e k j none h = h
  put_some_cong d e k j (some v) h = ground (arith, Dict.get-put d k j v, Dict.get-put e k j v)

  -- A window with other durations.
  abbrev pub lasting : Option ℤ → Option ℤ → Window F → Window F
  lasting lead_time mttr w = record w { lead_time_median_s = lead_time; mttr_mean_s = mttr }

  module _ (fmt : Format F) (now : ℤ) (kind id : Text) (days : ℤ) (w : Window F) where
    abbrev timed : Window F → Dict (Dynamic F)
    timed v =
        Dict.put
          (Dict.put (counted fmt now kind id days v) (codes "lead_time_median_seconds")
            (int64_ptr v.lead_time_median_s))
          (codes "mttr_mean_seconds") (int64_ptr v.mttr_mean_s)

    timed-get :
        (v : Window F) (j : Text)
        → same (codes "lead_time_median_seconds") j ≡ false
        → same (codes "mttr_mean_seconds") j ≡ false
        → Dict.get (timed v) j ≡ Dict.get (counted fmt now kind id days v) j
    timed-get v j h k =
        get-put_other
          (Dict.put (counted fmt now kind id days v) (codes "lead_time_median_seconds")
            (int64_ptr v.lead_time_median_s))
          (codes "mttr_mean_seconds") j (int64_ptr v.mttr_mean_s) k
        ∙ get-put_other (counted fmt now kind id days v) (codes "lead_time_median_seconds") j
            (int64_ptr v.lead_time_median_s) h

    -- The other entries of the map do not depend on the durations.
    other_entries :
        (a b : Option ℤ) (j : Text)
        → same (codes "lead_time_median_seconds") j ≡ false
        → same (codes "mttr_mean_seconds") j ≡ false
        → Dict.get (metrics_of fmt now kind id days (lasting a b w)) j
          ≡ Dict.get (metrics_of fmt now kind id days w) j
    unfolding metrics_of
    other_entries a b j h k =
        put_some_cong (with_df (with_class (timed (lasting a b w))))
          (with_df (with_class (timed w))) (codes "change_failure_rate") j
          (boxed float64 w.change_failure_rate)
          (put_some_cong (with_class (timed (lasting a b w))) (with_class (timed w))
            (codes "deployment_frequency") j (boxed float64 w.deployment_frequency)
            (put_some_cong (timed (lasting a b w)) (timed w) (codes "classification") j
              (boxed text w.classification)
              (timed-get (lasting a b w) j h k ∙ sym (timed-get w j h k))))
      where
        with_class : Dict (Dynamic F) → Dict (Dynamic F)
        with_class d = put_some d (codes "classification") (boxed text w.classification)

        with_df : Dict (Dynamic F) → Dict (Dynamic F)
        with_df d = put_some d (codes "deployment_frequency") (boxed float64 w.deployment_frequency)

-- The text that explains a window never tells its lead time or its MTTR: whatever these are, or if
-- they are missing, the text is the same.
pub narrative-lasting :
    {F : Type 0} (fmt : Format F) (now : ℤ) (kind id : Text) (days : ℤ) (w : Window F)
    (lead_time mttr : Option ℤ)
    → narrative fmt kind id days (metrics_of fmt now kind id days (lasting lead_time mttr w))
      ≡ narrative fmt kind id days (metrics_of fmt now kind id days w)
unfolding narrative same
narrative-lasting fmt now kind id days w a b =
    rw
      (
        lead_time_lem fmt now kind id days (lasting a b w),
        mttr_lem fmt now kind id days (lasting a b w),
        lead_time_lem fmt now kind id days w,
        mttr_lem fmt now kind id days w,
        other_entries fmt now kind id days w a b (codes "classification") refl refl,
        other_entries fmt now kind id days w a b (codes "deployment_frequency") refl refl,
        other_entries fmt now kind id days w a b (codes "change_failure_rate") refl refl,
      )
      refl
