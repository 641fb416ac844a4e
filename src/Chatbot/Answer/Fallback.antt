-- ===== src/Chatbot/Answer/Fallback.antt =====
-- `compose_answer` of services/chatbot/answer.py: it always has a text.
use onegov2_spatial_assistan.Prelude.{
  ◌≡◌, refl, inl, inr, String, true, false, none, some, List, [], ◌∷◌, ◌==◌, strip, chars,
  chars-append, ◌<◌, arith, Bool, Bool-cases, Option, if◌then◌else◌,
}
use onegov2_spatial_assistan.Filters.Queries.{◌&◌}
use onegov2_spatial_assistan.Floats.{Floats}
use onegov2_spatial_assistan.Chatbot.Models.{RetrievedPassage}
use onegov2_spatial_assistan.Chatbot.Answer.{
  Composer, stripped_reply, model_reply, intro_of, compose_llm, compose_extractive, want_llm,
  or_extractive, compose_answer,
}

starts_with-some : (start rest : String) → 0 < chars start → 0 < chars (start & rest)
starts_with-some start rest h = omega (arith, chars-append start rest)

intro_of-some : (intent : String) → 0 < chars (intro_of intent)
intro_of-some intent = elim (Bool-cases (intent == "data_limits")) [
  | inl e ↦ rw e (omega arith)
  | inr e ↦ elim (Bool-cases (intent == "explain_scenario")) [
    | inl f ↦ rw (e, f) (omega arith)
    | inr f ↦ rw (e, f) (omega arith)
  ]
]

not_empty : (text : String) → (text == "") ≡ false → 0 < chars text
not_empty String.[] h = cc
not_empty (String.◌∷◌ c s) h = omega arith

given : (b : Bool) (o : Option String) {t : String} → (if b then o else none) ≡ some t → o ≡ some t
given true o h = h
given false o h = cc

content-some :
    (content text : String)
    → (if content == "" then none else some content) ≡ some text
    → 0 < chars text
content-some content text h = elim (Bool-cases (content == "")) [
  | inl e ↦ let q : none ≡ some text = rw e at h in cc
  | inr e ↦
      let q : some content ≡ some text = rw e at h in
      let same : content ≡ text = cc in rw (← same) (not_empty content e)
]

stripped_reply-some :
    (reply : Option String) (text : String) → stripped_reply reply ≡ some text → 0 < chars text
stripped_reply-some none text h = cc
stripped_reply-some (some reply) text h = content-some (strip reply) text h

module _ (C : Composer) (F : Floats) (question intent : String) where
  compose_extractive-some :
      (rs : List (RetrievedPassage F)) → 0 < chars (compose_extractive C F question intent rs)
  unfolding compose_extractive
  compose_extractive-some [] = omega arith
  compose_extractive-some (p ∷ rs) = starts_with-some (intro_of intent) _ (intro_of-some intent)

  compose_llm-some :
      (rs : List (RetrievedPassage F)) (text : String)
      → compose_llm C F question intent rs ≡ some text
      → 0 < chars text
  unfolding compose_llm
  compose_llm-some rs text h = stripped_reply-some (model_reply C F question intent rs) text h

  or_extractive-some :
      (o : Option String) (extractive : String)
      → ((text : String) → o ≡ some text → 0 < chars text)
      → 0 < chars extractive
      → 0 < chars (or_extractive C F o extractive).0
  or_extractive-some (some text) extractive h k = h text refl
  or_extractive-some none extractive h k = k

  -- The text of an answer is never empty, whatever the language model does.
  pub compose_answer-some :
      (rs : List (RetrievedPassage F)) → 0 < chars (compose_answer C F question intent rs).0
  unfolding compose_answer
  compose_answer-some rs =
      or_extractive-some _ _ (λ text h. compose_llm-some rs text (given (want_llm C F) _ h))
        (compose_extractive-some rs)
