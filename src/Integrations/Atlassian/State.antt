-- ===== src/Integrations/Atlassian/State.antt =====
-- The state of a connection that is being made.
use dora_metrics_app.Base.{
  ℕ, ◌≡◌, refl, ap, ◌∙◌, Option, none, some, List, ltb, Bool-cases, inl, inr,
}
use dora_metrics_app.Base.Text.{Text, same_refl}
use dora_metrics_app.Base.Dict
use dora_metrics_app.Integrations.Atlassian.{
  Service, OauthState, TokenSet, CallbackResult, invalid_state, complete_connect, with_state,
  with_tokens, save_connection,
}

module _ (seal : Text → Option Text) (open_sealed : Text → Option Text)
    (exchange : Text → Option TokenSet) (resources : Text → List (Text × Text)) where
  abbrev run : Service → ℕ → Text → Text → Text → Service × CallbackResult
  run s now state code actor =
      complete_connect seal open_sealed exchange resources s now state code actor

  save_connection_states :
      (s : Service) (now : ℕ) (row : OauthState) (tokens : TokenSet) (actor : Text)
      (a r : Option Text)
      → (save_connection seal open_sealed exchange resources s now row tokens actor a r).0.states
        ≡ s.states
  save_connection_states s now row tokens actor none r = refl
  save_connection_states s now row tokens actor (some a) none = refl
  save_connection_states s now row tokens actor (some a) (some r) = refl

  with_tokens_states :
      (s : Service) (now : ℕ) (row : OauthState) (actor : Text) (t : Option TokenSet)
      → (with_tokens seal open_sealed exchange resources s now row actor t).0.states ≡ s.states
  with_tokens_states s now row actor none = refl
  with_tokens_states s now row actor (some tokens) =
      save_connection_states s now row tokens actor _ _

  with_state_states :
      (s : Service) (now : ℕ) (code actor : Text) (o : Option OauthState)
      → (with_state seal open_sealed exchange resources s now code actor o).0.states ≡ s.states
  with_state_states s now code actor none = refl
  with_state_states s now code actor (some row) = elim (Bool-cases (ltb row.expires_at now)) [
    | inl e ↦ rw e refl
    | inr e ↦ rw e (with_tokens_states s now row actor (exchange code))
  ]

  complete_connect_gone :
      (s : Service) (now : ℕ) (state code actor : Text)
      → Dict.get ((run s now state code actor).0).states state ≡ none
  unfolding complete_connect
  complete_connect_gone s now state code actor =
      let left = record s { states = Dict.remove s.states state } in
      ap (λ d. Dict.get d state) (with_state_states left now code actor (Dict.get s.states state))
      ∙ Dict.get-remove s.states state state
      ∙ rw (same_refl state) refl

  unknown_state :
      (s : Service) (now : ℕ) (state code actor : Text)
      → Dict.get s.states state ≡ none
      → (run s now state code actor).1 ≡ invalid_state
  unfolding complete_connect
  unknown_state s now state code actor h = rw h refl

  -- A state completes one callback at most: after a callback with it, whether that connects or fails,
  -- every further one is refused as an invalid state.
  pub complete_connect_once :
      (s : Service) (now later : ℕ) (state code other_code actor other_actor : Text)
      → (complete_connect seal open_sealed exchange resources
          (complete_connect seal open_sealed exchange resources s now state code actor).0
          later
          state
          other_code
          other_actor).1
        ≡ invalid_state
  complete_connect_once s now later state code other_code actor other_actor =
      unknown_state (run s now state code actor).0 later state other_code other_actor
        (complete_connect_gone s now state code actor)
