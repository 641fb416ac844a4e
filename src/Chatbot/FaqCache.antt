-- ===== src/Chatbot/FaqCache.antt =====
-- services/chatbot/faq_cache.py: the in-memory store of captured answers, its moderation and what it
-- serves. A method returns the new store beside its result. The clock readings of `_now()`, the
-- identifier of `uuid.uuid4()`, the version stamp and `anonymize_pii` are arguments.
-- `limit` is not negative.
pub mod Keys
pub mod Gate
pub mod Invariant
pub mod Moderation
pub mod Serving
pub mod Hits
mod Tests
use onegov2_spatial_assistan.Prelude.{
  ℕ, ◌+◌, String, ◌≡◌, refl, Bool, true, false, not, ◌||◌, ◌&&◌, Option, none, some, List, [], ◌∷◌,
  ◌==◌, Dict, lookup, insert, values, keep, take, is_empty, sort_by, sorted_set, join, split, lower,
  strip, one_of, text_le, ltb, eqb, if◌then◌else◌, map,
}
use onegov2_spatial_assistan.Floats.{Floats}
use onegov2_spatial_assistan.Chatbot.Models.{Citation, ChatAnswer}
use onegov2_spatial_assistan.Chatbot.Text.{content_tokens}

pub data Status : Type 0 where
  suggested published rejected : Status

pub record FaqCacheEntry : Type 0 where
  pub id : String
  pub cache_key : String
  pub question_norm : String
  pub question_display : String
  pub answer_nl : String
  pub sources : List Citation
  pub intent : String
  pub hits : ℕ
  pub status : Status
  pub version_stamp : String
  pub created_at : String
  pub last_used_at : String

pub record FaqCache : Type 0 where
  pub by_id : Dict FaqCacheEntry
  pub key_to_id : Dict String

abbrev pub empty : FaqCache
empty = record { by_id = []; key_to_id = [] }

abbrev pub is_suggested : Status → Bool
is_suggested suggested = true
is_suggested _ = false

abbrev pub is_published : Status → Bool
is_published published = true
is_published _ = false

abbrev pub is_rejected : Status → Bool
is_rejected rejected = true
is_rejected _ = false

-- `a or b` on texts and on lists
abbrev pub text_or : String → String → String
text_or a b = if a == "" then b else a

abbrev pub sources_or : List Citation → List Citation → List Citation
sources_or [] b = b
sources_or (a ∷ as') b = a ∷ as'

module _ (anonymize_pii : String → String) where
  unfoldable pub normalize_question : String → String
  normalize_question question = join " " (split (lower (anonymize_pii question)))

  unfoldable pub make_cache_key : String → String
  unfolding sorted_set normalize_question
  make_cache_key question =
      let toks = sorted_set (content_tokens (anonymize_pii question)) in
      if is_empty toks then normalize_question question else join "|" toks

abbrev pub cacheable_intents : List String
cacheable_intents = "knowledge" ∷ "data_limits" ∷ []

module _ (F : Floats) where
  open F use {Float, le, decimal}

  abbrev pub cache_min_confidence : Float
  cache_min_confidence = decimal 6 1

  unfoldable pub should_cache : String → Float → List Citation → Option String → Bool
  should_cache intent confidence citations followup_nl =
      one_of intent cacheable_intents
      && elim followup_nl [ none ↦ true | some _ ↦ false ]
      && le cache_min_confidence confidence
      && not (is_empty citations)

unfoldable pub is_grounded : FaqCacheEntry → Bool
is_grounded entry = not (strip entry.answer_nl == "") && not (is_empty entry.sources)

-- What a call of `record_suggestion` is given, with the identifier and the two clock readings that
-- it would use.
pub record Suggestion : Type 0 where
  pub key : String
  pub question_norm : String
  pub question_display : String
  pub answer_nl : String
  pub sources : List Citation
  pub intent : String
  pub version_stamp : String
  pub fresh_id : String
  pub created_at : String
  pub now : String

-- A repeat: the same object is changed in place.
abbrev pub repeat_entry : Suggestion → FaqCacheEntry → FaqCacheEntry
repeat_entry g e =
    if is_rejected e.status
    then record e { hits = e.hits + 1; last_used_at = g.now; version_stamp = g.version_stamp }
    else record e {
      hits = e.hits + 1;
      last_used_at = g.now;
      version_stamp = g.version_stamp;
      answer_nl = text_or g.answer_nl e.answer_nl;
      sources = sources_or g.sources e.sources;
    }

abbrev pub new_entry : Suggestion → FaqCacheEntry
new_entry g = record {
  id = g.fresh_id;
  cache_key = g.key;
  question_norm = g.question_norm;
  question_display = g.question_display;
  answer_nl = g.answer_nl;
  sources = g.sources;
  intent = g.intent;
  hits = 1;
  status = suggested;
  version_stamp = g.version_stamp;
  created_at = g.created_at;
  last_used_at = g.now;
}

-- `if eid and eid in self._by_id`: the identifier and the entry.
abbrev pub known_entry : FaqCache → String → Option (String × FaqCacheEntry)
known_entry s key = elim (lookup key s.key_to_id) [
  | none ↦ none
  | some eid ↦
      if eid == "" then none else elim (lookup eid s.by_id) [ none ↦ none | some e ↦ some (eid, e) ]
]

unfoldable pub record_suggestion : Suggestion → FaqCache → FaqCache × FaqCacheEntry
record_suggestion g s = elim (known_entry s g.key) [
  | some (eid, e) ↦ (record s { by_id = insert eid (repeat_entry g e) s.by_id }, repeat_entry g e)
  | none ↦ (
    record {
      by_id = insert g.fresh_id (new_entry g) s.by_id;
      key_to_id = insert g.key g.fresh_id s.key_to_id;
    },
    new_entry g,
  )
]

unfoldable pub get : String → FaqCache → Option FaqCacheEntry
get entry_id s = lookup entry_id s.by_id

-- The sort key `(-e.hits, e.created_at)`.
abbrev pub ranked_before : FaqCacheEntry → FaqCacheEntry → Bool
ranked_before a b = ltb b.hits a.hits || (eqb a.hits b.hits && text_le a.created_at b.created_at)

unfoldable pub list_suggestions : ℕ → FaqCache → List FaqCacheEntry
unfolding sort_by
list_suggestions limit s =
    take limit (sort_by ranked_before (keep (λ e. is_suggested e.status) (values s.by_id)))

abbrev pub is_current : Option String → FaqCacheEntry → Bool
is_current none e = true
is_current (some stamp) e = e.version_stamp == stamp

unfoldable pub list_published : ℕ → Option String → FaqCache → List FaqCacheEntry
unfolding sort_by
list_published limit current_stamp s = take limit (
    sort_by ranked_before
      (keep (is_current current_stamp) (keep (λ e. is_published e.status) (values s.by_id))))

pub data Outcome : Type 0 where
  done not_found was_rejected not_grounded : Outcome

unfoldable pub promote : String → FaqCache → FaqCache × Outcome
promote entry_id s = elim (lookup entry_id s.by_id) [
  | none ↦ (s, not_found)
  | some e ↦
      if is_rejected e.status
      then (s, was_rejected)
      else if not (is_grounded e)
      then (s, not_grounded)
      else (record s { by_id = insert entry_id (record e { status = published }) s.by_id }, done)
]

unfoldable pub reject : String → FaqCache → FaqCache × Outcome
reject entry_id s = elim (lookup entry_id s.by_id) [
  | none ↦ (s, not_found)
  | some e ↦ (record s { by_id = insert entry_id (record e { status = rejected }) s.by_id }, done)
]

unfoldable pub all_entries : FaqCache → List FaqCacheEntry
all_entries s = values s.by_id

-- An entry in the shape of an FAQ item; its tags are ["cached"] and its origin "cached".
pub record FaqItem : Type 0 where
  pub id : String
  pub question_nl : String
  pub answer_nl : String
  pub citations : List Citation
  pub tags : List String
  pub hits : ℕ
  pub origin : String

abbrev pub as_faq : FaqCacheEntry → FaqItem
as_faq e = record {
  id = e.id;
  question_nl = e.question_display;
  answer_nl = e.answer_nl;
  citations = e.sources;
  tags = "cached" ∷ [];
  hits = e.hits;
  origin = "cached";
}

unfoldable pub published_as_faqs : ℕ → String → FaqCache → List FaqItem
unfolding list_published
published_as_faqs limit current_version_stamp s =
    map as_faq (list_published limit (some current_version_stamp) s)

module _ (F : Floats) (anonymize_pii : String → String) where
  -- The arguments of the call and what the body computes from the question.
  unfoldable pub suggestion_of :
      String → ChatAnswer F → String → String → String → String → Suggestion
  unfolding make_cache_key
  suggestion_of question answer stamp fresh_id created_at now = record {
    key = make_cache_key anonymize_pii question;
    question_norm = normalize_question anonymize_pii question;
    question_display = strip (anonymize_pii question);
    answer_nl = answer.answer_nl;
    sources = answer.citations;
    intent = answer.intent;
    version_stamp = stamp;
    fresh_id = fresh_id;
    created_at = created_at;
    now = now;
  }

  unfoldable pub capture_answer :
      String
      → ChatAnswer F
      → String
      → String
      → String
      → String
      → FaqCache
      → FaqCache × Option FaqCacheEntry
  capture_answer question answer stamp fresh_id created_at now s =
      if should_cache F answer.intent answer.confidence answer.citations answer.followup_nl
      then (let (s', e) =
            record_suggestion (suggestion_of question answer stamp fresh_id created_at now) s in
          (s', some e))
      else (s, none)
