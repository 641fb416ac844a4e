-- ===== src/Chatbot/FaqCache/Gate.antt =====
-- What `capture_answer` lets into the store.
use onegov2_spatial_assistan.Prelude.{
  String, ◌≡◌, refl, ◌⊎◌, inl, inr, true, false, none, some, arith, is_empty, one_of, Bool-cases,
}
use onegov2_spatial_assistan.Floats.{Floats}
use onegov2_spatial_assistan.Chatbot.Models.{ChatAnswer}
use onegov2_spatial_assistan.Chatbot.FaqCache.{
  FaqCache, cacheable_intents, cache_min_confidence, should_cache, record_suggestion, suggestion_of,
  capture_answer,
}

module _ (F : Floats) where
  open F use {le}

  -- A cited, confident answer of a cacheable intent that asks nothing back.
  pub record IsCacheable (a : ChatAnswer F) : Type 0 where
    pub intent_allowed : one_of a.intent cacheable_intents ≡ true
    pub no_followup : a.followup_nl ≡ none
    pub confident : le (cache_min_confidence F) a.confidence ≡ true
    pub cited : is_empty a.citations ≡ false

  should_cache_sound :
      (a : ChatAnswer F)
      → should_cache F a.intent a.confidence a.citations a.followup_nl ≡ true
      → IsCacheable a
  unfolding should_cache
  should_cache_sound a h = record {
    intent_allowed = ground arith;
    no_followup = ground arith;
    confident = ground arith;
    cited = ground arith;
  }

  should_cache_complete :
      (a : ChatAnswer F)
      → IsCacheable a
      → should_cache F a.intent a.confidence a.citations a.followup_nl ≡ true
  unfolding should_cache
  should_cache_complete a h = ground arith

  module _ (anonymize_pii : String → String) (question : String) (answer : ChatAnswer F)
      (stamp fresh_id created_at now : String) (s : FaqCache) where
    -- A capture changes the store only for a cacheable answer, and then as `record_suggestion` does;
    -- any other answer leaves the store alone and returns nothing.
    pub capture_answer_lem :
        let out = capture_answer F anonymize_pii question answer stamp fresh_id created_at now s in
        let recorded =
          record_suggestion
            (suggestion_of F anonymize_pii question answer stamp fresh_id created_at now)
            s in
        (IsCacheable answer × (out.0 ≡ recorded.0) × (out.1 ≡ some recorded.1))
        ⊎ ((¬ IsCacheable answer) × (out.0 ≡ s) × (out.1 ≡ none))
    unfolding capture_answer
    capture_answer_lem =
        let gate =
          should_cache F answer.intent answer.confidence answer.citations answer.followup_nl in
        elim (Bool-cases gate) [
          | inl e ↦ rw (e, capture_answer) (inl (should_cache_sound answer e, refl, refl))
          | inr e ↦
              rw (e, capture_answer)
                (inr ((λ h. cc (e, should_cache_complete answer h)), refl, refl))
        ]
