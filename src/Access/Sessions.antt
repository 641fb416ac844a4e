-- ===== src/Access/Sessions.antt =====
-- auth.require_session_access and the list and delete routes of routers/sessions.py. The database is
-- a dict from identifiers to sessions; the clock is an argument. Messages are one text here.
pub mod Deletion
use onegov2_spatial_assistan.Prelude.{
  String, Bool, true, false, not, ◌&&◌, ◌||◌, Option, none, some, List, [], ◌∷◌, ◌==◌, Dict, lookup,
  insert, values, keep, sort_by, text_le, if◌then◌else◌,
}
use onegov2_spatial_assistan.Access.Auth.{CurrentUser}

pub record Session : Type 0 where
  pub id : String
  pub user_id : String
  pub title : Option String
  pub messages : String
  pub created_at : String
  pub updated_at : String
  pub deleted_at : Option String

abbrev pub is_live : Session → Bool
is_live s = elim s.deleted_at [ none ↦ true | some t ↦ false ]

-- `none` stands for the 404.
unfoldable pub require_session_access : Option Session → CurrentUser → Option Session
require_session_access none user = none
require_session_access (some s) user =
    if not (s.user_id == user.oid) || not (is_live s) then none else some s

-- The user's live sessions, the last updated first.
unfoldable pub list_sessions : CurrentUser → Dict Session → List Session
list_sessions user db =
    sort_by (λ s t. text_le t.updated_at s.updated_at)
      (keep (λ s. (s.user_id == user.oid) && is_live s) (values db))

abbrev pub deleted : String → Session → Session
deleted now s = record {
  id = s.id;
  user_id = s.user_id;
  title = s.title;
  messages = s.messages;
  created_at = s.created_at;
  updated_at = s.updated_at;
  deleted_at = some now;
}

-- `false` with the database unchanged stands for the 404.
unfoldable pub delete_session : String → String → CurrentUser → Dict Session → Dict Session × Bool
unfolding require_session_access
delete_session now session_id user db = elim (require_session_access (lookup session_id db) user) [
  | none ↦ (db, false)
  | some s ↦ (insert session_id (deleted now s) db, true)
]
