-- ===== src/Chatbot/FaqCache/Tests.antt =====
-- Runs and instances for services/chatbot/faq_cache.py.
use onegov2_spatial_assistan.Prelude.{
  ℕ, String, ◌≡◌, refl, some, List, [], ◌∷◌, arith, eq_iff, lookup, values, In,
}
use onegov2_spatial_assistan.Chatbot.Models.{Citation}
use onegov2_spatial_assistan.Chatbot.FaqCache.{
  FaqCacheEntry, FaqCache, empty, Suggestion, published, rejected, new_entry, record_suggestion,
  promote, is_grounded, list_published,
}
use onegov2_spatial_assistan.Chatbot.FaqCache.Invariant.{
  Call, suggest, promote_entry, step, run, IsConsistent, AreFresh, run-IsConsistent,
  empty-IsConsistent,
}
use onegov2_spatial_assistan.Chatbot.FaqCache.Moderation.{
  IsPromotion, published_was_promoted, StaysRejected, rejected_stays, promote_lem,
}
use onegov2_spatial_assistan.Chatbot.FaqCache.Serving.{IsTop, IsServed, list_published-IsTop}
use onegov2_spatial_assistan.Chatbot.FaqCache.Hits.{captures, hits_count}

abbrev source : Citation
source = record {
  source_id = "dict:overview";
  title_nl = "Datawoordenboek";
  url = "data/dict.json";
  locator = "dictionary";
  kind = "dictionary";
}

abbrev ask : String → String → String → Suggestion
ask fresh_id answer now = record {
  key = "drinkwater|zekerheid";
  question_norm = "drinkwater zekerheid";
  question_display = "Drinkwater zekerheid?";
  answer_nl = answer;
  sources = source ∷ [];
  intent = "knowledge";
  version_stamp = "v1";
  fresh_id = fresh_id;
  created_at = now;
  now = now;
}

abbrev reviewed : List Call
reviewed = suggest (ask "a" "Antwoord." "t1") ∷ promote_entry "a" ∷ []

abbrev published_entry : FaqCacheEntry
published_entry = record (new_entry (ask "a" "Antwoord." "t1")) { status = published }

abbrev published_store : FaqCache
published_store = record {
  by_id = ("a", published_entry) ∷ [];
  key_to_id = ("drinkwater|zekerheid", "a") ∷ [];
}

reviewed-run : run reviewed empty ≡ published_store
unfolding run record_suggestion promote is_grounded
reviewed-run = refl

fresh_reviewed : AreFresh reviewed empty
unfolding step record_suggestion promote is_grounded
fresh_reviewed = (((ground (arith, eq_iff "a" "")), refl), (tt, tt))

run-IsConsistent_example : IsConsistent (run reviewed empty)
run-IsConsistent_example = run-IsConsistent reviewed empty empty-IsConsistent fresh_reviewed

published_was_promoted_example : In (promote_entry "a") reviewed
unfolding run record_suggestion promote is_grounded
published_was_promoted_example = published_was_promoted reviewed "a" published_entry refl refl

hits_count_example : ◌≡◌ {A = ℕ} 1 (captures "drinkwater|zekerheid" reviewed)
unfolding run record_suggestion promote is_grounded
hits_count_example = hits_count reviewed "a" published_entry fresh_reviewed refl

promote_lem_example : IsPromotion "a" published_store (promote "a" published_store)
promote_lem_example = promote_lem "a" published_store

abbrev rejected_entry : FaqCacheEntry
rejected_entry = record published_entry { status = rejected }

abbrev rejected_store : FaqCache
rejected_store = record published_store { by_id = ("a", rejected_entry) ∷ [] }

rejected_stays_example :
    (f : FaqCacheEntry) × (lookup "a" (run (promote_entry "a" ∷ []) rejected_store).by_id ≡ some f)
    × StaysRejected rejected_entry f
rejected_stays_example =
    rejected_stays (promote_entry "a" ∷ []) rejected_store "a" rejected_entry (tt, tt) refl refl

list_published-IsTop_example :
    IsTop
      (IsServed "v1")
      5
      (values published_store.by_id)
      (list_published 5 (some "v1") published_store)
list_published-IsTop_example = list_published-IsTop 5 "v1" published_store
