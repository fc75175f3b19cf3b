-- ===== src/Collector/Alerts/Fired.antt =====
-- Which alert events a change of tier writes and queues.
use mathlib.Core.Path.{subst}
use mathlib.Core.Option.{some-injective}
use mathlib.Core.List.{append-nil, append_assoc}
use dora_metrics_app.Base.{
  ℕ, suc, ◌==◌, ==_iff, ◌≡◌, refl, sym, ap, ◌∙◌, ◌↔◌, ◌⊎◌, str_eq, eq_iff, String, Bool, true,
  false, not, ◌&&◌, ◌||◌, Option, none, some, List, [], ◌∷◌, ◌++◌, map, keep, arith, if◌then◌else◌,
  Bool-cases, inl, inr,
}
use dora_metrics_app.Tier.{tier_order, is_change, is_regression, rule_matches_change}
use dora_metrics_app.Tier.Changes.{change_is_regression_or_promotion}
use dora_metrics_app.Collector.Alerts.{
  AlertRule, AlertEvent, AlertStore, Project, pending, covers, covers_scope,
  find_matching_alert_rules, new_event, fire, fire_all, enqueue, insert_alert_event,
  fan_out_alerts_for_tier_change,
}

-- The tier falls, and the tier is one of the four.
abbrev pub is_fall : String → String → Bool
is_fall previous current =
    str_eq previous "elite"
      && (str_eq current "high" || (str_eq current "medium" || str_eq current "low"))
    || (str_eq previous "high" && (str_eq current "medium" || str_eq current "low")
        || (str_eq previous "medium" && str_eq current "low"))

abbrev pub is_known : String → Bool
is_known t = str_eq t "elite" || (str_eq t "high" || (str_eq t "medium" || str_eq t "low"))

-- A change of tier that a kind of rule is about.
abbrev pub Concerns : String → String → String → Type 0
Concerns kind previous current =
    ((kind ≡ "tier_regression") × (is_fall previous current ≡ true))
    ⊎ ((kind ≡ "tier_change")
        × ((is_known previous ≡ true)
            × (is_known current ≡ true)
            × (str_eq previous current ≡ false)))

-- A property of the four tiers, and of what is none of them.
module _ (P : String → Type 0) (e : P "elite") (h : P "high") (m : P "medium") (l : P "low")
    (other : (t : String)
      → str_eq t "elite" ≡ false
      → str_eq t "high" ≡ false
      → str_eq t "medium" ≡ false
      → str_eq t "low" ≡ false
      → P t) where
  all_tiers : (t : String) → P t
  all_tiers t = elim (Bool-cases (str_eq t "elite")) [
    | inl a ↦ subst P (sym ((eq_iff t "elite").0 a)) e
    | inr a ↦ elim (Bool-cases (str_eq t "high")) [
      | inl b ↦ subst P (sym ((eq_iff t "high").0 b)) h
      | inr b ↦ elim (Bool-cases (str_eq t "medium")) [
        | inl c ↦ subst P (sym ((eq_iff t "medium").0 c)) m
        | inr c ↦ elim (Bool-cases (str_eq t "low")) [
          | inl d ↦ subst P (sym ((eq_iff t "low").0 d)) l
          | inr d ↦ other t a b c d
        ]
      ]
    ]
  ]

is_regression-is_fall : (c p : String) → is_regression p c ≡ is_fall p c
unfolding is_regression tier_order
is_regression-is_fall c p =
    all_tiers (λ t. is_regression t c ≡ is_fall t c)
      (all_tiers (λ d. is_regression "elite" d ≡ is_fall "elite" d) refl refl refl refl
        (λ d x y z w. rw (x, y, z, w) refl) c)
      (all_tiers (λ d. is_regression "high" d ≡ is_fall "high" d) refl refl refl refl
        (λ d x y z w. rw (x, y, z, w) refl) c)
      (all_tiers (λ d. is_regression "medium" d ≡ is_fall "medium" d) refl refl refl refl
        (λ d x y z w. rw (x, y, z, w) refl) c)
      (all_tiers (λ d. is_regression "low" d ≡ is_fall "low" d) refl refl refl refl
        (λ d x y z w. rw (x, y, z, w) refl) c)
      (λ t x y z w. rw (x, y, z, w) refl) p

is_change-is_known :
    (p c : String) → is_change p c ≡ (is_known p && (is_known c && not (str_eq p c)))
unfolding is_change tier_order
is_change-is_known p c = ground (
  arith,
  eq_iff p c,
  eq_iff p "elite",
  eq_iff p "high",
  eq_iff p "medium",
  eq_iff p "low",
  eq_iff c "elite",
  eq_iff c "high",
  eq_iff c "medium",
  eq_iff c "low",
)

rule_matches_change-Concerns :
    (kind p c : String) → (rule_matches_change kind p c ≡ true) ↔ Concerns kind p c
unfolding rule_matches_change
rule_matches_change-Concerns kind p c = (
  λ h. elim (Bool-cases (str_eq kind "tier_regression")) [
    | inl r ↦
        inl ((eq_iff kind "tier_regression").0 r, sym (is_regression-is_fall c p) ∙ (rw r at h))
    | inr r ↦ elim (Bool-cases (str_eq kind "tier_change")) [
      | inl k ↦
          inr (
            (eq_iff kind "tier_change").0 k,
            three (sym (is_change-is_known p c) ∙ (rw (r, k) at h)),
          )
      | inr k ↦ cc (rw (r, k) at h)
    ]
  ],
  λ h. elim h [
    | inl (k, f) ↦
        let e : str_eq kind "tier_regression" ≡ true = (eq_iff kind "tier_regression").1 k in
        rw e (is_regression-is_fall c p ∙ f)
    | inr (k, (a, b, d)) ↦
        subst (λ z. rule_matches_change z p c ≡ true) (sym k)
          (unfold rule_matches_change in (is_change-is_known p c ∙ back a b d))
  ],
)
  where
    three : {a b d : Bool} → (a && (b && not d)) ≡ true → (a ≡ true) × (b ≡ true) × (d ≡ false)
    three h = ground arith

    back : {a b d : Bool} → a ≡ true → b ≡ true → d ≡ false → (a && (b && not d)) ≡ true
    back h k l = ground arith

-- A rule that fires makes a change of tier, so that the first test of the code takes nothing away.
rule_matches_change-is_change :
    (kind previous current : String)
    → rule_matches_change kind previous current ≡ true
    → is_change previous current ≡ true
unfolding rule_matches_change
rule_matches_change-is_change kind previous current h =
    ground (arith, h, (change_is_regression_or_promotion previous current).0)

guarded :
    {A : Type 0} (m i : Bool) (x y : A)
    → (if not m then x else if i then x else y) ≡ (if m && not i then y else x)
guarded true true x y = refl
guarded true false x y = refl
guarded false i x y = refl

choose : {A : Type 0} (b c : Bool) (x y : A) → b ≡ c → (if b then x else y) ≡ (if c then x else y)
choose b c x y e = ap (λ z. if z then x else y) e

module _ (insert_fails : AlertRule → Bool) (enqueue_fails : AlertEvent → Bool) (project : Project)
    (previous current : String) where
  abbrev pub fires : AlertRule → Bool
  fires rule = rule_matches_change rule.kind previous current && not (insert_fails rule)

  -- The events of some rules, with consecutive ids.
  abbrev pub numbered : ℕ → List AlertRule → List AlertEvent
  numbered id [] = []
  numbered id (rule ∷ rules) =
      record {
        id = id;
        rule_id = rule.id;
        tenant_id = project.tenant_id;
        scope_kind = "project";
        scope_id = project.id;
        previous_tier = if str_eq previous "" then none else some previous;
        current_tier = current;
        delivery_status = pending;
        http_status = none;
        last_error = none;
      }
      ∷ numbered (suc id) rules

  abbrev pub is_queued : AlertEvent → Bool
  is_queued e = not (enqueue_fails e)

  abbrev after : List AlertRule → AlertStore → AlertStore
  after rules s = fire_all insert_fails enqueue_fails project previous current rules s

  abbrev first_event : AlertStore → AlertRule → AlertEvent
  first_event s rule = new_event s.next_event_id rule project previous current

  abbrev stored : AlertStore → AlertRule → AlertStore
  stored s rule =
      let e = first_event s rule in
      enqueue insert_fails enqueue_fails project previous current
        (insert_alert_event insert_fails enqueue_fails project previous current s e) e

  fire-eq :
      (s : AlertStore) (rule : AlertRule)
      → fire insert_fails enqueue_fails project previous current s rule
        ≡ (if fires rule then stored s rule else s)
  fire-eq s rule =
      guarded (rule_matches_change rule.kind previous current) (insert_fails rule) s (stored s rule)

  abbrev ids : List AlertEvent → List ℕ
  ids es = map (λ e. e.id) (keep is_queued es)

  -- What some rules should leave.
  pub record IsFired (rules : List AlertRule) (s s' : AlertStore) : Type 0 where
    pub same_rules : s'.rules ≡ s.rules
    pub new_events : s'.events ≡ s.events ++ numbered s.next_event_id rules
    pub new_queue :
        s'.queue ≡ s.queue ++ map (λ e. e.id) (keep is_queued (numbered s.next_event_id rules))

  stored-next :
      (s : AlertStore) (rule : AlertRule)
      → ((stored s rule).next_event_id ≡ suc s.next_event_id)
        × ((stored s rule).rules ≡ s.rules)
        × ((stored s rule).events ≡ s.events ++ first_event s rule ∷ [])
        × ((stored s rule).queue ≡ s.queue ++ ids (first_event s rule ∷ []))
  stored-next s rule = elim (Bool-cases (enqueue_fails (first_event s rule))) [
    | inl e ↦ rw e (refl, refl, refl, sym (append-nil s.queue))
    | inr e ↦ rw e (refl, refl, refl, refl)
  ]

  ids-cons : (e : AlertEvent) (es : List AlertEvent) → ids (e ∷ []) ++ ids es ≡ ids (e ∷ es)
  ids-cons e es = elim (Bool-cases (enqueue_fails e)) [ inl h ↦ rw h refl | inr h ↦ rw h refl ]

  nothing : (s : AlertStore) → IsFired [] s s
  nothing s = record {
    same_rules = refl;
    new_events = sym (append-nil s.events);
    new_queue = sym (append-nil s.queue);
  }

  -- A rule that fires, and then those behind it.
  then-IsFired :
      (s s' : AlertStore) (rule : AlertRule) (rules : List AlertRule)
      → IsFired rules (stored s rule) s'
      → IsFired (rule ∷ rules) s s'
  then-IsFired s s' rule rules h =
      let (n, r, es, q) = stored-next s rule in
      let e = first_event s rule in
      let rest = numbered (suc s.next_event_id) rules in
      record {
        same_rules = h.same_rules ∙ r;
        new_events = h.new_events ∙ rw (n, es) (append_assoc s.events (e ∷ []) rest);
        new_queue =
            h.new_queue
            ∙ rw (n, q)
                (append_assoc s.queue (ids (e ∷ [])) (ids rest)
                  ∙ ap (λ l. s.queue ++ l) (ids-cons e rest));
      }

  fire_all-IsFired :
      (rules : List AlertRule) (s : AlertStore) → IsFired (keep fires rules) s (after rules s)
  unfolding fire_all
  fire_all-IsFired [] s = nothing s
  fire_all-IsFired (rule ∷ rules) s = elim (Bool-cases (fires rule)) [
    | inl f ↦ rw f (
        subst (λ z. IsFired (rule ∷ keep fires rules) s (after rules z))
          (sym (fire-eq s rule ∙ choose (fires rule) true (stored s rule) s f))
          (then-IsFired s (after rules (stored s rule)) rule (keep fires rules)
            (fire_all-IsFired rules (stored s rule))))
    | inr f ↦ rw f (
        subst (λ z. IsFired (keep fires rules) s (after rules z))
          (sym (fire-eq s rule ∙ choose (fires rule) false (stored s rule) s f))
          (fire_all-IsFired rules s))
  ]

  none_fires : is_change previous current ≡ false → (rules : List AlertRule) → keep fires rules ≡ []
  none_fires h [] = refl
  none_fires h (rule ∷ rules) =
      let quiet : fires rule ≡ false =
        ground (arith, h, rule_matches_change-is_change rule.kind previous current) in
      rw quiet (none_fires h rules)

  module _ (window_days : ℕ) where
    -- A rule that is to get an event.
    abbrev pub Wants : AlertRule → Type 0
    Wants rule =
        (rule.tenant_id ≡ project.tenant_id)
        × (rule.enabled ≡ true)
        × (rule.scope_kind ≡ "project")
        × (rule.window_days ≡ window_days)
        × ((rule.scope_id ≡ none) ⊎ (rule.scope_id ≡ some project.id))
        × Concerns rule.kind previous current
        × (insert_fails rule ≡ false)

    is_wanted : AlertRule → Bool
    is_wanted rule = covers project window_days rule && fires rule

    covers_scope-or :
        (o : Option ℕ) (id : ℕ) → (covers_scope o id ≡ true) ↔ ((o ≡ none) ⊎ (o ≡ some id))
    covers_scope-or none id = (λ h. inl refl, λ h. refl)
    covers_scope-or (some s) id = (
      λ h. inr (ap some ((==_iff s id).0 h)),
      λ h. elim h [ inl k ↦ cc | inr k ↦ (==_iff s id).1 (some-injective _ _ k) ],
    )

    seven :
        (a b c d e f g : Bool)
        → ((a && (b && (c && (d && e)))) && (f && not g) ≡ true) ↔ (
            (a ≡ true)
            × (b ≡ true)
            × (c ≡ true)
            × (d ≡ true)
            × (e ≡ true)
            × (f ≡ true)
            × (g ≡ false))
    seven a b c d e f g = ground arith

    is_wanted-Wants : (rule : AlertRule) → (is_wanted rule ≡ true) ↔ Wants rule
    unfolding is_wanted
    is_wanted-Wants rule =
        let (to, from) =
          seven (rule.tenant_id == project.tenant_id) rule.enabled
            (str_eq rule.scope_kind "project") (rule.window_days == window_days)
            (covers_scope rule.scope_id project.id) (rule_matches_change rule.kind previous current)
            (insert_fails rule) in
        let scope = covers_scope-or rule.scope_id project.id in
        let kind = rule_matches_change-Concerns rule.kind previous current in
        (
          λ h.
              let (a, b, c, d, e, f, g) = to h in
              (
                (==_iff rule.tenant_id project.tenant_id).0 a,
                b,
                (eq_iff rule.scope_kind "project").0 c,
                (==_iff rule.window_days window_days).0 d,
                scope.0 e,
                kind.0 f,
                g,
              ),
          λ (a, b, c, d, e, f, g). from (
            (==_iff rule.tenant_id project.tenant_id).1 a,
            b,
            (eq_iff rule.scope_kind "project").1 c,
            (==_iff rule.window_days window_days).1 d,
            scope.1 e,
            kind.1 f,
            g,
          ),
        )

    keep_twice :
        (rules : List AlertRule)
        → keep fires (keep (covers project window_days) rules) ≡ keep is_wanted rules
    unfolding is_wanted
    keep_twice [] = refl
    keep_twice (rule ∷ rules) = elim (Bool-cases (covers project window_days rule)) [
      | inl c ↦ elim (Bool-cases (fires rule)) [
        | inl f ↦ rw (c, f, keep_twice rules) refl
        | inr f ↦ rw (c, f, keep_twice rules) refl
      ]
      | inr c ↦ rw (c, keep_twice rules) refl
    ]

    code_fires :
        (s : AlertStore)
        → IsFired (keep fires (keep (covers project window_days) s.rules)) s (
            fan_out_alerts_for_tier_change insert_fails enqueue_fails project previous current
              window_days s)
    unfolding fan_out_alerts_for_tier_change find_matching_alert_rules
    code_fires s =
        let rules = keep (covers project window_days) s.rules in
        elim (Bool-cases (is_change previous current)) [
          | inl c ↦
              subst (IsFired (keep fires rules) s)
                (sym (choose (not (is_change previous current)) false s (after rules s) (ap not c)))
                (fire_all-IsFired rules s)
          | inr c ↦
              subst (IsFired (keep fires rules) s)
                (sym (choose (not (is_change previous current)) true s (after rules s) (ap not c)))
                (rw (none_fires c rules) (nothing s))
        ]

    -- A new tier writes one event, pending and with the two tiers, for each rule of the project's
    -- tenant that is enabled, for projects and for this window, whose scope is this project or none in
    -- particular, whose kind is about the change (a fall, or any change between known tiers), and
    -- whose insertion does not fail, in the order of the rules; of these the ones whose enqueueing does
    -- not fail are queued. It leaves the rules and the earlier events as they were.
    pub fan_out_alerts-IsFired :
        (s : AlertStore)
        → (wanted : AlertRule → Bool) × ((rule : AlertRule) → (wanted rule ≡ true) ↔ Wants rule)
          × IsFired (keep wanted s.rules) s (
              fan_out_alerts_for_tier_change insert_fails enqueue_fails project previous current
                window_days s)
    fan_out_alerts-IsFired s = (
      is_wanted,
      is_wanted-Wants,
      subst
          (λ rules. IsFired rules s (
            fan_out_alerts_for_tier_change insert_fails enqueue_fails project previous current
              window_days s))
          (keep_twice s.rules) (code_fires s),
    )
