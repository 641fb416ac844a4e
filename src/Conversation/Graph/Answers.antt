-- ===== src/Conversation/Graph/Answers.antt =====
-- What each node leaves for the next: a clear analysis, validated filters or an error, an answer.
use onegov2_spatial_assistan.Prelude.{
  String, ◌≡◌, refl, ◌⊎◌, inl, inr, true, false, Option, some, List, ◌++◌, map, Bool-cases,
  Option-cases, map-In, In, In.here, In.there, In-append_left, In-append_right,
}
use onegov2_spatial_assistan.Filters.Model.{Intent, IntentAnalysis, SpatialQuery}
use onegov2_spatial_assistan.Filters.Node.{Event, Update}
use onegov2_spatial_assistan.Filters.Node.Outcome.{IsOutcome, IsValidated, call_node-IsOutcome}
use onegov2_spatial_assistan.Conversation.State.{
  ConversationState, CustomEvent, Called, call_step, to_langchain_history,
}
use onegov2_spatial_assistan.Conversation.IntentNode
use onegov2_spatial_assistan.Conversation.SpatialNode
use onegov2_spatial_assistan.Conversation.MapNode.{intent_in}
use onegov2_spatial_assistan.Conversation.Graph.{
  Services, validated, as_custom, categorical_pairs, is_clear_analysis, validate_filters,
}

abbrev pub IsClear : ConversationState → Type 0
IsClear s = is_clear_analysis s.intent_analysis ≡ true

-- A question was put to the user.
abbrev pub IsAsked : List CustomEvent → Type 0
IsAsked events = (question : Option String) × In (CustomEvent.follow_up_text question) events

-- An error was shown to the user.
abbrev pub IsFailed : List CustomEvent → Type 0
IsFailed events = (name : String) × In (CustomEvent.error name) events

-- The analysis is clear, and its filters are validated or the filter node has dispatched an error.
abbrev pub IsChecked : Services → ConversationState → List CustomEvent → Type 0
IsChecked S s events =
    IsClear s
    × (In (CustomEvent.error "validatie") events
        ⊎ ((i : Intent) × (intent_in s ≡ some i)
            × IsValidated S.con S.get_close_matches (categorical_pairs s) i))

abbrev pub IsExplained : ConversationState → List CustomEvent → Type 0
IsExplained s events = ((t : String) × (s.explanation ≡ some t)) ⊎ IsFailed events

-- The state is clear, or a question or an error tells why not.
abbrev pub IsToldClear : Called → Type 0
IsToldClear (events, s) = IsClear s ⊎ IsAsked events ⊎ IsFailed events

follow_up_events-In :
    (s : ConversationState) (a : IntentAnalysis)
    → a.is_clear ≡ false
    → IsAsked (IntentNode.follow_up_events s.messages a)
unfolding IntentNode.follow_up_events
follow_up_events-In s a e =
    elim (Bool-cases (IntentNode.has_prior_followup s.messages a.follow_up_question)) [
      | inl p ↦ rw (e, p) (_, here refl)
      | inr p ↦ rw (e, p) (_, here refl)
    ]

pub check_intent-IsToldClear :
    (S : Services) (s : ConversationState)
    → IsToldClear (IntentNode.check_intent S.get_close_matches S.analyse s)
unfolding IntentNode.check_intent IntentNode.run call_step
check_intent-IsToldClear S s =
    elim (Option-cases (S.analyse s.model s.dictionary.themes (to_langchain_history s.messages))) [
      | inl e ↦ rw (e, IntentNode.run) (inr (inr ("intentie", there (here refl))))
      | inr (a, e) ↦
          let result = IntentNode.correct_analysis S.get_close_matches s.dictionary a in
          elim (Bool-cases result.is_clear) [
            | inl c ↦ rw (e, IntentNode.run) (inl c)
            | inr c ↦
                let (q, m) = follow_up_events-In s result c in
                rw (e, IntentNode.run) (inr (inl (q, there (there m))))
          ]
    ]

-- A clear analysis stays clear, or a question tells why not.
abbrev pub IsResolved : Option IntentAnalysis → Called → Type 0
IsResolved a (events, t) = (is_clear_analysis a ≡ true → IsClear t) ⊎ IsAsked events

with_origins-IsResolved :
    (S : Services) (s : ConversationState) (i : Intent) (q : SpatialQuery)
    (r : SpatialNode.Resolution) (fallback : ConversationState)
    → IsResolved fallback.intent_analysis
        (call_step "spatial" false (SpatialNode.with_origins S.degrees s i q r) fallback)
unfolding call_step
with_origins-IsResolved S s i q (SpatialNode.Resolution.resolved filters) fallback = inl (λ h. refl)
with_origins-IsResolved S s i q (SpatialNode.Resolution.not_found query) fallback =
    inr (_, here refl)
with_origins-IsResolved S s i q SpatialNode.Resolution.raised fallback = inl (λ h. h)

pub resolve_spatial-IsResolved :
    (S : Services) (s : ConversationState)
    → IsResolved s.intent_analysis (SpatialNode.resolve_spatial S.degrees S.urlopen s)
unfolding SpatialNode.resolve_spatial SpatialNode.run call_step
resolve_spatial-IsResolved S s = elim (Option-cases s.intent_analysis) [
  | inl e ↦ simp (e, SpatialNode.run) (inl (λ h. h))
  | inr (a, e) ↦ elim (Bool-cases s.needs_spatial_resolution) [
    | inr n ↦ simp (e, n, SpatialNode.run) (inl (λ h. h))
    | inl n ↦ elim (Option-cases a.intent) [
      | inl f ↦ simp (e, n, f, SpatialNode.run) (inl (λ h. h))
      | inr (i, f) ↦ elim (Option-cases i.spatial_query) [
        | inl g ↦ simp (e, n, f, g, SpatialNode.run) (inl (λ h. h))
        | inr (q, g) ↦ simp (e, n, f, g, SpatialNode.run) (with_origins-IsResolved S s i q _ _)
      ]
    ]
  ]
]

-- The filters of a clear state were checked; of an unclear one, a question or an error tells why.
abbrev pub IsGated : Services → ConversationState → List CustomEvent → Type 0
IsGated S t events =
    IsChecked S t events
    ⊎ ((is_clear_analysis t.intent_analysis ≡ false) × (IsAsked events ⊎ IsFailed events))

-- Where the analysis was not clear before, a question was put.
abbrev pub IsClearOrAsked : ConversationState → List CustomEvent → Type 0
IsClearOrAsked s events = IsClear s ⊎ IsAsked events

update-inj : {a b : IntentAnalysis} → Update.intent_analysis a ≡ Update.intent_analysis b → a ≡ b
update-inj q = cc

later-error :
    (before : List CustomEvent) (events : List Event)
    → In Event.error events
    → In (CustomEvent.error "validatie") (before ++ map as_custom events)
later-error before events m = In-append_right before (map-In as_custom events m)

unclear-IsAsked :
    (s : ConversationState) (before after : List CustomEvent)
    → IsClearOrAsked s before
    → is_clear_analysis s.intent_analysis ≡ false
    → IsAsked (before ++ after)
unclear-IsAsked s before after (inl c) u = absurd (cc (c, u))
unclear-IsAsked s before after (inr (q, m)) u = (q, In-append_left after m)

module _ (S : Services) (s : ConversationState) where
  abbrev Outcome : List Event × Update → Type 0
  Outcome = IsOutcome S.con S.get_close_matches (categorical_pairs s) (intent_in s)

  validated-IsGated :
      (o : List Event × Update) (before : List CustomEvent)
      → Outcome o
      → IsClearOrAsked s before
      → IsGated S (validated s o).1 (before ++ (validated s o).0)
  validated-IsGated (events, Update.unchanged) before (inl (q, m)) h =
      elim (Bool-cases (is_clear_analysis s.intent_analysis)) [
        | inl c ↦ inl (c, inl (later-error before events m))
        | inr c ↦ inr (c, inr ("validatie", later-error before events m))
      ]
  validated-IsGated (events, Update.unchanged) before (inr (inl (q, i, p, v))) h =
      elim (Bool-cases (is_clear_analysis s.intent_analysis)) [
        | inl c ↦ inl (c, inr (i, p, v))
        | inr c ↦ inr (c, inl (unclear-IsAsked s before (map as_custom events) h c))
      ]
  validated-IsGated (events, Update.unchanged) before (inr (inr (a, q, t))) h = absurd (cc)
  validated-IsGated (events, Update.intent_analysis b) before (inl (q, m)) h = absurd (cc)
  validated-IsGated (events, Update.intent_analysis b) before (inr (inl (q, i, p, v))) h =
      absurd (cc)
  validated-IsGated (events, Update.intent_analysis b) before (inr (inr (a, q, inl (c, m)))) h =
      let same = update-inj q in
      inr (rw same c, inl (_, In-append_right before (map-In as_custom events m)))
  validated-IsGated (events, Update.intent_analysis b) before (inr (inr (a, q, inr (i, c, p, v))))
        h =
      let same = update-inj q in inl (rw same c, inr (i, rw same p, v))

  pub validate_filters-IsGated :
      (before : List CustomEvent)
      → IsClearOrAsked s before
      → IsGated S (validate_filters S s).1 (before ++ (validate_filters S s).0)
  unfolding validate_filters
  validate_filters-IsGated before h =
      validated-IsGated _ before
        (call_node-IsOutcome S.con S.get_close_matches (categorical_pairs s) (S.correct s.model)
          (intent_in s))
        h
