-- ===== src/Chatbot/SqlFaqCache/Tests.antt =====
-- An answer that is captured twice and promoted, in the table and in memory.
use onegov2_spatial_assistan.Prelude.{
  String, ◌≡◌, ◌↔◌, In, refl, some, List, [], ◌∷◌, arith, eq_iff,
}
use onegov2_spatial_assistan.Chatbot.Models.{Citation}
use onegov2_spatial_assistan.Chatbot.FaqCache.{
  empty, get, Suggestion, all_entries, record_suggestion, promote, is_grounded,
}
use onegov2_spatial_assistan.Chatbot.FaqCache.Invariant.{
  Call, suggest, promote_entry, step, run, AreFresh,
}
use onegov2_spatial_assistan.Chatbot.SqlFaqCache.{
  row_of_key, Library, failed, sql_get, replies, sql_all, sql_replies, sql_run,
}
use onegov2_spatial_assistan.Chatbot.SqlFaqCache.Rows.{IsJson, IsSelect}
use onegov2_spatial_assistan.Chatbot.SqlFaqCache.Steps.{ArePlain}
use onegov2_spatial_assistan.Chatbot.SqlFaqCache.Refinement.{sql_run-refined}

abbrev source : Citation
source = record {
  source_id = "dict:overview";
  title_nl = "Datawoordenboek";
  url = "data/dict.json";
  locator = "dictionary";
  kind = "dictionary";
}

-- A library that knows one list of sources.
abbrev one_list : Library
one_list = record {
  dumps = λ cs. "[1]";
  loads = λ text. source ∷ [];
  parse_uuid = λ id. some id;
  by_hits = λ rows. rows;
  unordered = λ rows. rows;
}

abbrev ask : String → String → Suggestion
ask fresh_id now = record {
  key = "drinkwater|zekerheid";
  question_norm = "drinkwater zekerheid";
  question_display = "Drinkwater zekerheid?";
  answer_nl = "Antwoord.";
  sources = source ∷ [];
  intent = "knowledge";
  version_stamp = "v1";
  fresh_id = fresh_id;
  created_at = now;
  now = now;
}

abbrev calls : List Call
calls = suggest (ask "a" "t1") ∷ promote_entry "a" ∷ suggest (ask "b" "t2") ∷ []

source-IsJson : IsJson one_list (source ∷ [])
source-IsJson = record { loads-dumps = refl; not_empty = refl }

plain_calls : ArePlain one_list calls
plain_calls = ((source-IsJson, refl, refl), (refl, ((source-IsJson, refl, refl), tt)))

fresh_calls : AreFresh calls empty
unfolding step record_suggestion promote is_grounded
fresh_calls =
    ((ground (arith, eq_iff "a" ""), refl), (tt, ((ground (arith, eq_iff "b" ""), refl), tt)))

selects : IsSelect one_list
selects r rows = (λ m. m, λ m. m)

-- A version stamp of 65 characters does not fit its column, so that nothing is stored.
abbrev long_stamp : Suggestion
long_stamp = record (ask "a" "t1") {
  version_stamp = "00000000000000000000000000000000000000000000000000000000000000000";
}

long_stamp_test : sql_replies one_list (suggest long_stamp ∷ []) [] ≡ failed ∷ []
unfolding sql_replies row_of_key
long_stamp_test = refl

sql_run-refined_example :
    let e = (record_suggestion (ask "a" "t1") empty).1 in
    (sql_replies one_list calls [] ≡ replies calls empty)
    × (In e (sql_all one_list (sql_run one_list calls [])) ↔ In e (all_entries (run calls empty)))
    × (sql_get one_list "a" (sql_run one_list calls []) ≡ get "a" (run calls empty))
sql_run-refined_example =
    sql_run-refined one_list selects calls (record_suggestion (ask "a" "t1") empty).1 "a"
      plain_calls fresh_calls refl
