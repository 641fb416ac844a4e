-- ===== src/Scenario/Store/Saved.antt =====
-- What the table keeps, and when a saved scenario has drifted.
use onegov2_spatial_assistan.Prelude.{
  String, ◌≡◌, ◌≢◌, refl, ap, subst, sym, ◌∙◌, inl, inr, true, false, Option, none, some, List, [],
  ◌∷◌, ◌++◌, ◌==◌, Dict, lookup, In, In.here, In.there, In-inv, In-append, In-keep, keep-In, keep,
  All, All-at, All-intro, Bool-cases, Option-cases, arith, eq_iff, sort_by, sort_by_inv, In-sort_by,
  sort_by-IsSorted, IsSorted, text_le_total, text_le_trans, if◌then◌else◌,
}
use onegov2_spatial_assistan.Scenario.Store.{
  Row, first_of, newer, get_by_hash, get_by_id, known_id, new_row, set, Drift, drift_of,
  detect_version_drift,
}

none_not_some : {r : Row} → none ≢ some r
none_not_some q = cc

-- What was found, or the new row under its own identifier.
abbrev pub found_or : Option Row → Row → String → Option Row
found_or (some r) row i = some r
found_or none row i = if row.scenario_id == i then some row else none

get_by_id-append :
    (i : String) (rows : List Row) (row : Row)
    → get_by_id i (rows ++ row ∷ []) ≡ found_or (get_by_id i rows) row i
unfolding get_by_id
get_by_id-append i [] row = refl
get_by_id-append i (r ∷ rows) row = elim (Bool-cases (r.scenario_id == i)) [
  | inl e ↦ rw e refl
  | inr e ↦ rw e (get_by_id-append i rows row)
]

taken :
    (row : Row) (rows : List Row) (r : Row) (i : String)
    → get_by_id row.scenario_id rows ≡ some r
    → get_by_id i rows ≡ found_or (get_by_id i rows) row i
taken row rows r i e = elim (Option-cases (get_by_id i rows)) [
  | inr (t, f) ↦ rw f refl
  | inl f ↦ elim (Bool-cases (row.scenario_id == i)) [
    | inr n ↦ rw (f, n) refl
    | inl q ↦
        let same : row.scenario_id ≡ i = ground (arith, eq_iff row.scenario_id i, q) in
        absurd (none_not_some (sym f ∙ ap (λ j. get_by_id j rows) (sym same) ∙ e))
  ]
]

-- After a save, every scenario that was there is found as it was, the new one is found under its
-- identifier if that was free, and no other identifier is found.
pub get_by_id-set :
    (base i : String) (given : Row) (rows : List Row)
    → get_by_id i (set base given rows).0 ≡ found_or (get_by_id i rows) (new_row base given) i
unfolding set
get_by_id-set base i given rows = elim (Option-cases (get_by_id given.scenario_id rows)) [
  | inl e ↦
      let free : known_id given.scenario_id rows ≡ false = rw (known_id, e) refl in
      rw free (get_by_id-append i rows (new_row base given))
  | inr (r, e) ↦
      let known : known_id given.scenario_id rows ≡ true = rw (known_id, e) refl in
      rw known (taken (new_row base given) rows r i e)
]

newer_total : (a b : Row) → newer a b ≡ false → newer b a ≡ true
newer_total a b h = text_le_total b.created_at a.created_at h

newer_trans : (a b c : Row) → newer a b ≡ true → newer b c ≡ true → newer a c ≡ true
newer_trans a b c h k = text_le_trans c.created_at b.created_at a.created_at k h

-- The row of a hash that is served: none when there is none, else one of that hash that no other row
-- of that hash is newer than.
abbrev pub IsNewest : String → List Row → Option Row → Type 0
IsNewest h rows none = All (λ r. (r.scenario_hash == h) ≡ false) rows
IsNewest h rows (some r) =
    In r rows
    × (r.scenario_hash ≡ h)
    × All (λ s. newer r s ≡ true) (keep (λ s. s.scenario_hash == h) rows)

not_In-nil : {r : Row} → ¬ In r []
not_In-nil m = elim m [ ]

no_drift : {d : Drift} → ¬ In d []
no_drift m = elim m [ ]

newer_refl : (r : Row) → newer r r ≡ true
newer_refl r = elim (Bool-cases (newer r r)) [ inl e ↦ e | inr e ↦ newer_total r r e ]

sorted-IsNewest :
    (h : String) (rows kept sorted : List Row)
    → keep (λ s. s.scenario_hash == h) rows ≡ kept
    → sort_by newer kept ≡ sorted
    → IsSorted newer sorted
    → IsNewest h rows (first_of sorted)
sorted-IsNewest h rows kept [] q p ordered =
    All-intro (λ r. (r.scenario_hash == h) ≡ false) rows
      (λ r m. elim (Bool-cases (r.scenario_hash == h)) [
        | inr e ↦ e
        | inl e ↦
            let found = keep-In (λ s. s.scenario_hash == h) rows m e in
            absurd (not_In-nil (subst (In r) p (In-sort_by newer kept (subst (In r) q found))))
      ])
sorted-IsNewest h rows kept (r ∷ sorted) q p ordered =
    let mine = sort_by_inv newer kept (subst (In r) (sym p) (here refl)) in
    let (found, hash) = In-keep (λ s. s.scenario_hash == h) rows (subst (In r) (sym q) mine) in
    (
      found,
      ground (arith, eq_iff r.scenario_hash h, hash),
      All-intro (λ s. newer r s ≡ true) (keep (λ s. s.scenario_hash == h) rows)
          (λ s m. elim (In-inv (subst (In s) p (In-sort_by newer kept (subst (In s) q m)))) [
            | inl e ↦ rw e (newer_refl r)
            | inr t ↦ All-at (λ u. newer r u ≡ true) t ordered.0
          ]),
    )

-- Of the scenarios saved under a hash the newest is served, and none only when there is none.
pub get_by_hash-IsNewest : (h : String) (rows : List Row) → IsNewest h rows (get_by_hash h rows)
unfolding get_by_hash
get_by_hash-IsNewest h rows =
    let kept = keep (λ s. s.scenario_hash == h) rows in
    sorted-IsNewest h rows kept (sort_by newer kept) refl refl
      (sort_by-IsSorted newer newer_total newer_trans kept)

-- A drift names a table of the saved versions, its saved version, and a current version of that
-- table that is not empty and differs.
abbrev pub IsDrift : Dict String → Dict String → Drift → Type 0
IsDrift versions current d =
    In (d.table, d.cached_version) versions
    × (lookup d.table current ≡ some d.current_version)
    × (d.current_version ≢ "")
    × (d.current_version ≢ d.cached_version)

abbrev drift : String → String → String → Drift
drift table cached current = record {
  table = table;
  cached_version = cached;
  current_version = current;
}

drift_of-inv :
    (table cached : String) (found : Option String) (d : Drift)
    → In d (drift_of table cached found)
    → (current : String) × (found ≡ some current)
      × (current ≢ "")
      × (current ≢ cached)
      × (d ≡ drift table cached current)
drift_of-inv table cached none d m = elim m [ ]
drift_of-inv table cached (some current) d m = elim (Bool-cases (current == "")) [
  | inl e ↦ absurd (no_drift (rw e at m))
  | inr e ↦ elim (Bool-cases (current == cached)) [
    | inl f ↦ absurd (no_drift (rw (e, f) at m))
    | inr f ↦ elim (In-inv (rw (e, f) at m)) [
      | inl q ↦ (
        current,
        refl,
        λ n. ground (arith, eq_iff current "", n),
        λ n. ground (arith, eq_iff current cached, n),
        q,
      )
      | inr n ↦ absurd (no_drift n)
    ]
  ]
]

-- Every reported drift is one: the table was saved with that version, and has now another version.
pub detect_version_drift-IsDrift :
    (versions current : Dict String) (d : Drift)
    → In d (detect_version_drift versions current)
    → IsDrift versions current d
unfolding detect_version_drift
detect_version_drift-IsDrift [] current d m = elim m [ ]
detect_version_drift-IsDrift ((table, cached) ∷ versions) current d m =
    elim (In-append (drift_of table cached (lookup table current)) m) [
      | inl n ↦
          let (v, found, nonempty, differs, q) =
            drift_of-inv table cached (lookup table current) d n in
          subst (λ e. IsDrift ((table, cached) ∷ versions) current e) (sym q)
            (here refl, found, nonempty, differs)
      | inr n ↦
          let (saved, found, nonempty, differs) =
            detect_version_drift-IsDrift versions current d n in
          (there saved, found, nonempty, differs)
    ]
