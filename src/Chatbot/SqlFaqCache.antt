-- ===== src/Chatbot/SqlFaqCache.antt =====
-- services/chatbot/faq_cache_sql.py: the store of captured answers in a database table. A session is
-- the table before it and after its commit. `json.dumps`, `json.loads`, `uuid.UUID`, the order of
-- `hits desc` and that of a SELECT without an order are parameters; times and identifiers are texts,
-- and the number of hits has no bound. A value that is too long for its column makes the commit raise.
pub mod Rows
pub mod Steps
pub mod Refinement
mod Tests
use onegov2_spatial_assistan.Prelude.{
  ℕ, ◌+◌, String, ◌≡◌, Bool, true, false, not, ◌&&◌, leb, chars, Option, none, some, List, [], ◌∷◌,
  ◌==◌, Dict, map, keep, take, is_empty, if◌then◌else◌,
}
use onegov2_spatial_assistan.Chatbot.Models.{Citation}
use onegov2_spatial_assistan.Chatbot.FaqCache.{
  FaqCacheEntry, Status, suggested, published, rejected, is_rejected, is_suggested, is_published,
  is_grounded, text_or, Suggestion, Outcome, FaqCache, record_suggestion, promote, reject, done,
  not_found, was_rejected, not_grounded,
}
use onegov2_spatial_assistan.Chatbot.FaqCache.Invariant.{
  step, Call, suggest, promote_entry, reject_entry,
}

-- models/faq_cache.py: a row of the table.
pub record FaqRow : Type 0 where
  pub id : String
  pub cache_key : String
  pub question_norm : String
  pub question_display : String
  pub answer_nl : String
  pub sources_json : String
  pub intent : String
  pub hits : ℕ
  pub status : Status
  pub version_stamp : String
  pub created_at : String
  pub last_used_at : String

-- What a call returns, to either store.
pub data Reply : Type 0 where
  captured : FaqCacheEntry → Reply
  moderated : Outcome → Reply
  -- the commit raised
  failed : Reply

unfoldable pub reply : Call → FaqCache → Reply
reply (suggest g) s = captured (record_suggestion g s).1
reply (promote_entry i) s = moderated (promote i s).1
reply (reject_entry i) s = moderated (reject i s).1

unfoldable pub replies : List Call → FaqCache → List Reply
unfolding reply
replies [] s = []
replies (c ∷ cs) s = reply c s ∷ replies cs (step c s)

-- The library calls: JSON of a list of sources, the identifier that a text stands for, the rows by
-- falling hits, and the rows as a SELECT without an order yields them.
pub record Library : Type 0 where
  pub dumps : List Citation → String
  pub loads : String → List Citation
  pub parse_uuid : String → Option String
  pub by_hits : List FaqRow → List FaqRow
  pub unordered : List FaqRow → List FaqRow

-- The lengths of the columns: what an update sets, and what an insert sets.
abbrev pub stamp_fits : Suggestion → Bool
stamp_fits g = leb (chars g.version_stamp) 64

abbrev pub fits : Suggestion → Bool
fits g =
    stamp_fits g
    && (leb (chars g.key) 512
        && leb (chars g.question_norm) 2000
        && leb (chars g.question_display) 2000
        && leb (chars g.intent) 32)

-- A row with a primary key that stands in the table replaces that row; another is added.
unfoldable pub save_row : FaqRow → List FaqRow → List FaqRow
save_row row [] = row ∷ []
save_row row (r ∷ rows) = if r.id == row.id then row ∷ rows else r ∷ save_row row rows

-- `where(cache_key == key).first()` and `s.get(FaqCache, uid)`
unfoldable pub row_of_key : String → List FaqRow → Option FaqRow
row_of_key key [] = none
row_of_key key (r ∷ rows) = if r.cache_key == key then some r else row_of_key key rows

unfoldable pub row_of_id : String → List FaqRow → Option FaqRow
row_of_id uid [] = none
row_of_id uid (r ∷ rows) = if r.id == uid then some r else row_of_id uid rows

module _ (lib : Library) where
  -- `json.loads(row.sources_json or "[]")`
  abbrev pub sources_of : FaqRow → List Citation
  sources_of row = lib.loads (text_or row.sources_json "[]")

  unfoldable pub to_entry : FaqRow → FaqCacheEntry
  to_entry row = record {
    id = row.id;
    cache_key = row.cache_key;
    question_norm = row.question_norm;
    question_display = row.question_display;
    answer_nl = row.answer_nl;
    sources = sources_of row;
    intent = row.intent;
    hits = row.hits;
    status = row.status;
    version_stamp = row.version_stamp;
    created_at = row.created_at;
    last_used_at = row.last_used_at;
  }

  abbrev pub repeat_row : Suggestion → FaqRow → FaqRow
  repeat_row g row =
      if is_rejected row.status
      then record row { hits = row.hits + 1; last_used_at = g.now; version_stamp = g.version_stamp }
      else record row {
        hits = row.hits + 1;
        last_used_at = g.now;
        version_stamp = g.version_stamp;
        answer_nl = text_or g.answer_nl row.answer_nl;
        sources_json = if is_empty g.sources then row.sources_json else lib.dumps g.sources;
      }

  -- One clock reading for both times; the identifier is the default of the column.
  abbrev pub new_row : Suggestion → FaqRow
  new_row g = record {
    id = g.fresh_id;
    cache_key = g.key;
    question_norm = g.question_norm;
    question_display = g.question_display;
    answer_nl = g.answer_nl;
    sources_json = lib.dumps g.sources;
    intent = g.intent;
    hits = 1;
    status = suggested;
    version_stamp = g.version_stamp;
    created_at = g.now;
    last_used_at = g.now;
  }

  abbrev pub recorded_row : Suggestion → List FaqRow → FaqRow
  recorded_row g rows = elim (row_of_key g.key (lib.unordered rows)) [
    | some row ↦ repeat_row g row
    | none ↦ new_row g
  ]

  -- The values of the update or of the insert fit their columns.
  abbrev pub is_stored : Suggestion → List FaqRow → Bool
  is_stored g rows = elim (row_of_key g.key (lib.unordered rows)) [
    | some row ↦ stamp_fits g
    | none ↦ fits g
  ]

  -- `none` where the commit raises, which leaves the table as it was.
  unfoldable pub sql_record_suggestion :
      Suggestion → List FaqRow → List FaqRow × Option FaqCacheEntry
  unfolding to_entry
  sql_record_suggestion g rows =
      let row = recorded_row g rows in
      if is_stored g rows then (save_row row rows, some (to_entry row)) else (rows, none)

  -- The row of an identifier that can be parsed.
  unfoldable pub parsed_row : String → List FaqRow → Option FaqRow
  parsed_row entry_id rows = elim (lib.parse_uuid entry_id) [
    | none ↦ none
    | some uid ↦ row_of_id uid rows
  ]

  unfoldable pub sql_get : String → List FaqRow → Option FaqCacheEntry
  unfolding to_entry
  sql_get entry_id rows = elim (parsed_row entry_id rows) [
    | none ↦ none
    | some row ↦ some (to_entry row)
  ]

  unfoldable pub sql_list_suggestions : ℕ → List FaqRow → List FaqCacheEntry
  unfolding to_entry
  sql_list_suggestions limit rows =
      map to_entry (take limit (lib.by_hits (keep (λ r. is_suggested r.status) rows)))

  abbrev has_stamp : Option String → FaqRow → Bool
  has_stamp none row = true
  has_stamp (some stamp) row = row.version_stamp == stamp

  unfoldable pub sql_list_published : ℕ → Option String → List FaqRow → List FaqCacheEntry
  unfolding to_entry
  sql_list_published limit current_stamp rows = map to_entry (
      take limit
        (lib.by_hits (keep (has_stamp current_stamp) (keep (λ r. is_published r.status) rows))))

  unfoldable pub sql_promote : String → List FaqRow → List FaqRow × Outcome
  unfolding to_entry
  sql_promote entry_id rows = elim (parsed_row entry_id rows) [
    | none ↦ (rows, not_found)
    | some row ↦
        if is_rejected row.status
        then (rows, was_rejected)
        else if not (is_grounded (to_entry row))
        then (rows, not_grounded)
        else (save_row (record row { status = published }) rows, done)
  ]

  unfoldable pub sql_reject : String → List FaqRow → List FaqRow × Outcome
  sql_reject entry_id rows = elim (parsed_row entry_id rows) [
    | none ↦ (rows, not_found)
    | some row ↦ (save_row (record row { status = rejected }) rows, done)
  ]

  unfoldable pub sql_all : List FaqRow → List FaqCacheEntry
  unfolding to_entry
  sql_all rows = map to_entry (lib.unordered rows)

  unfoldable pub sql_step : Call → List FaqRow → List FaqRow
  unfolding sql_record_suggestion sql_promote sql_reject
  sql_step (suggest g) rows = (sql_record_suggestion g rows).0
  sql_step (promote_entry i) rows = (sql_promote i rows).0
  sql_step (reject_entry i) rows = (sql_reject i rows).0

  unfoldable pub sql_run : List Call → List FaqRow → List FaqRow
  unfolding sql_step
  sql_run [] rows = rows
  sql_run (c ∷ cs) rows = sql_run cs (sql_step c rows)

  abbrev pub captured_or_failed : Option FaqCacheEntry → Reply
  captured_or_failed none = failed
  captured_or_failed (some e) = captured e

  unfoldable pub sql_reply : Call → List FaqRow → Reply
  unfolding sql_record_suggestion sql_promote sql_reject
  sql_reply (suggest g) rows = captured_or_failed (sql_record_suggestion g rows).1
  sql_reply (promote_entry i) rows = moderated (sql_promote i rows).1
  sql_reply (reject_entry i) rows = moderated (sql_reject i rows).1

  -- The replies to calls, one after the other.
  unfoldable pub sql_replies : List Call → List FaqRow → List Reply
  unfolding sql_reply sql_step
  sql_replies [] rows = []
  sql_replies (c ∷ cs) rows = sql_reply c rows ∷ sql_replies cs (sql_step c rows)
