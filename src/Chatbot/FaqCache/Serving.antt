-- ===== src/Chatbot/FaqCache/Serving.antt =====
-- What the store serves: `list_published`, `list_suggestions`, and the ranking of both.
use onegov2_spatial_assistan.Prelude.{
  ℕ, ◌≤◌, String, ◌≡◌, refl, ap, ◌⊎◌, true, false, some, List, arith, eq_iff, values, keep, take,
  length, length-take_le, All, In, In-take, In-keep, keep-In, sort_by, IsSorted, IsSorted-take,
  sort_by-IsSorted, sort_by_inv, In-sort_by, take_or_after, text_le_total, text_le_trans,
}
use onegov2_spatial_assistan.Chatbot.FaqCache.{
  FaqCacheEntry, FaqCache, Status, published, suggested, is_published, is_suggested, is_current,
  ranked_before, list_published, list_suggestions,
}

ranked_total : (a b : FaqCacheEntry) → ranked_before a b ≡ false → ranked_before b a ≡ true
ranked_total a b h = ground (arith, text_le_total a.created_at b.created_at)

ranked_trans :
    (a b c : FaqCacheEntry)
    → ranked_before a b ≡ true
    → ranked_before b c ≡ true
    → ranked_before a c ≡ true
ranked_trans a b c h k = ground (arith, text_le_trans a.created_at b.created_at c.created_at)

-- `out` serves the best `limit` of the entries of `all` that pass.
pub record IsTop (P : FaqCacheEntry → Type 0) (limit : ℕ) (all out : List FaqCacheEntry)
    : Type 0 where
  pub at_most : length out ≤ limit
  pub ranked : IsSorted ranked_before out
  pub passing : (e : FaqCacheEntry) → In e out → In e all × P e
  -- an entry that passes is served, or `limit` others stand before it
  pub nothing_better :
      (e : FaqCacheEntry)
      → In e all
      → P e
      → In e out ⊎ ((length out ≡ limit) × All (λ f. ranked_before f e ≡ true) out)

take-IsTop :
    (P : FaqCacheEntry → Type 0) (limit : ℕ) (all kept : List FaqCacheEntry)
    → ((e : FaqCacheEntry) → In e kept → In e all × P e)
    → ((e : FaqCacheEntry) → In e all → P e → In e kept)
    → IsTop P limit all (take limit (sort_by ranked_before kept))
take-IsTop P limit all kept sound complete =
    let ordered = sort_by-IsSorted ranked_before ranked_total ranked_trans kept in
    record {
      at_most = length-take_le limit (sort_by ranked_before kept);
      ranked = IsSorted-take ranked_before limit (sort_by ranked_before kept) ordered;
      passing = λ e m.
          sound e (sort_by_inv ranked_before kept (In-take limit (sort_by ranked_before kept) m));
      nothing_better = λ e m p.
          take_or_after ranked_before ranked_total ranked_trans limit (sort_by ranked_before kept)
            ordered (In-sort_by ranked_before kept (complete e m p));
    }

abbrev pub IsServed : String → FaqCacheEntry → Type 0
IsServed stamp e = (e.status ≡ published) × (e.version_stamp ≡ stamp)

status_published : (t : Status) → is_published t ≡ true → t ≡ published
status_published published h = refl
status_published t h = ground arith

status_suggested : (t : Status) → is_suggested t ≡ true → t ≡ suggested
status_suggested suggested h = refl
status_suggested t h = ground arith

-- What is served under a stamp are published entries of that stamp only, at most `limit` of them, by
-- falling hits and then by age; a published entry of that stamp that is left out has `limit` entries
-- before it that rank no lower.
pub list_published-IsTop :
    (limit : ℕ) (stamp : String) (s : FaqCache)
    → IsTop (IsServed stamp) limit (values s.by_id) (list_published limit (some stamp) s)
unfolding list_published
list_published-IsTop limit stamp s =
    take-IsTop (IsServed stamp) limit (values s.by_id) _
      (λ e m.
        let fresh =
          In-keep (is_current (some stamp)) (keep (λ e. is_published e.status) (values s.by_id))
            m in
        let public_entry = In-keep (λ e. is_published e.status) (values s.by_id) fresh.0 in
        (
          public_entry.0,
          (status_published e.status public_entry.1, (eq_iff e.version_stamp stamp).0 fresh.1),
        ))
      (λ e m p.
        keep-In (is_current (some stamp)) (keep (λ e. is_published e.status) (values s.by_id))
          (keep-In (λ e. is_published e.status) (values s.by_id) m (ap is_published p.0))
          ((eq_iff e.version_stamp stamp).1 p.1))

-- The moderation queue has suggested entries only, at most `limit` of them, by falling hits and then
-- by age; a suggested entry that is left out has `limit` entries before it that rank no lower.
pub list_suggestions-IsTop :
    (limit : ℕ) (s : FaqCache)
    → IsTop (λ e. e.status ≡ suggested) limit (values s.by_id) (list_suggestions limit s)
unfolding list_suggestions
list_suggestions-IsTop limit s =
    take-IsTop (λ e. e.status ≡ suggested) limit (values s.by_id) _
      (λ e m.
        let kept = In-keep (λ e. is_suggested e.status) (values s.by_id) m in
        (kept.0, status_suggested e.status kept.1))
      (λ e m p. keep-In (λ e. is_suggested e.status) (values s.by_id) m (ap is_suggested p))
