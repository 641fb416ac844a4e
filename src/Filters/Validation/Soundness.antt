-- ===== src/Filters/Validation/Soundness.antt =====
-- When the filters are found valid: each passes the value check in its scope, and all of them pass
-- the check of the combination.
use onegov2_spatial_assistan.Prelude.{
  String, ◌≡◌, ◌≢◌, refl, sym, ap, subst, ◌∙◌, ◌⊎◌, ◌↔◌, inl, inr, true, false, not, List, [], ◌∷◌,
  ◌++◌, arith, leb, length, Bool-cases, is_empty, All, keep, Dict, insert, eq_iff, ◌==◌,
  if◌then◌else◌,
}
use onegov2_spatial_assistan.Filters.Model.{
  Filter, InvalidFilter, is_location_column, get_parent_columns-nil,
}
use onegov2_spatial_assistan.Filters.Queries.{
  Connection, append_under, group_from, check_value_exists, check_combination_has_results,
}
use onegov2_spatial_assistan.Filters.Candidates.{CloseMatches}
use onegov2_spatial_assistan.Filters.Validation.{
  is_not_null_filter, build_scope, scoped_locations, validate_individual_phase,
  validate_combination_phase, collect_invalid_filters,
}
use onegov2_spatial_assistan.Filters.Validation.Order.{
  is_location, locations, others, sort_filters_by_hierarchy_lem,
}
use onegov2_spatial_assistan.Filters.Validation.Combination.{validate_combination_phase_lem}

nil_not_cons : {x : InvalidFilter} {xs : List InvalidFilter} → x ∷ xs ≢ []
nil_not_cons q = cc

-- A filter on another column leaves the scope as it is.
scoped_locations-insert :
    (col : String) (v : List Filter) (d : Dict (List Filter))
    → is_location_column col ≡ false
    → scoped_locations (insert col v d) ≡ scoped_locations d
scoped_locations-insert col v [] h = simp h refl
scoped_locations-insert col v ((k, w) ∷ d) h = elim (Bool-cases (k == col)) [
  | inl e ↦
      let q : k ≡ col = ground (arith, eq_iff k col, e) in
      let n : is_location_column k ≡ false = rw q h in simp (e, n) refl
  | inr e ↦
      rw e
        (ap (λ r. if is_location_column k then w ++ r else r) (scoped_locations-insert col v d h))
]

location_scope : (f : Filter) (d : Dict (List Filter)) → is_location f ≡ true → build_scope f d ≡ []
unfolding build_scope
location_scope f d h = rw (h, get_parent_columns-nil f.column) refl

other_scope :
    (f : Filter) (d : Dict (List Filter))
    → is_location f ≡ false
    → build_scope f d ≡ scoped_locations d
unfolding build_scope
other_scope f d h = rw h refl

module _ (con : Connection) (m : CloseMatches) where
  -- Each filter passes the value check, in one scope for all: it has no table, or its table has a row
  -- with its value that satisfies those filters of the scope that are on the same table.
  abbrev pub ArePassed : List Filter → List Filter → Type 0
  ArePassed scope = All (λ f. check_value_exists con f scope ≡ true)

  others_sound :
      (fs : List Filter) (d : Dict (List Filter))
      → validate_individual_phase con m (others fs) d ≡ []
      → ArePassed (scoped_locations d) (others fs)
  unfolding validate_individual_phase
  others_sound [] d h = tt
  others_sound (f ∷ fs) d h = elim (Bool-cases (is_location f)) [
    | inl l ↦ rw l (others_sound fs d (rw l at h))
    | inr l ↦
        let scope = other_scope f d l in
        elim (Bool-cases (check_value_exists con f (scoped_locations d))) [
          | inl e ↦
              let rest = others_sound fs (append_under f.column f d) (rw (l, scope, e) at h) in
              rw l (
                e,
                subst (λ s. ArePassed s (others fs)) (scoped_locations-insert f.column _ d l) rest,
              )
          | inr e ↦ absurd (nil_not_cons (rw (l, scope, e) at h))
        ]
  ]

  others_complete :
      (fs : List Filter) (d : Dict (List Filter))
      → ArePassed (scoped_locations d) (others fs)
      → validate_individual_phase con m (others fs) d ≡ []
  unfolding validate_individual_phase
  others_complete [] d h = refl
  others_complete (f ∷ fs) d h = elim (Bool-cases (is_location f)) [
    | inl l ↦ rw l (others_complete fs d (rw l at h))
    | inr l ↦
        let here_and_later = rw l at h in
        let later =
          subst (λ s. ArePassed s (others fs)) (sym (scoped_locations-insert f.column _ d l))
            here_and_later.1 in
        rw (l, other_scope f d l, here_and_later.0)
          (others_complete fs (append_under f.column f d) later)
  ]

  locations_sound :
      (fs gs : List Filter) (d : Dict (List Filter))
      → validate_individual_phase con m (locations fs ++ gs) d ≡ []
      → ArePassed [] (locations fs)
        × (validate_individual_phase con m gs (group_from d (locations fs)) ≡ [])
  unfolding validate_individual_phase group_from
  locations_sound [] gs d h = (tt, h)
  locations_sound (f ∷ fs) gs d h = elim (Bool-cases (is_location f)) [
    | inr l ↦ rw l (locations_sound fs gs d (rw l at h))
    | inl l ↦ elim (Bool-cases (check_value_exists con f [])) [
      | inl e ↦
          let rest =
            locations_sound fs gs (append_under f.column f d)
              (rw (l, location_scope f d l, e) at h) in
          rw l ((e, rest.0), rest.1)
      | inr e ↦ absurd (nil_not_cons (rw (l, location_scope f d l, e) at h))
    ]
  ]

  locations_complete :
      (fs gs : List Filter) (d : Dict (List Filter))
      → ArePassed [] (locations fs)
      → validate_individual_phase con m gs (group_from d (locations fs)) ≡ []
      → validate_individual_phase con m (locations fs ++ gs) d ≡ []
  unfolding validate_individual_phase group_from
  locations_complete [] gs d h k = k
  locations_complete (f ∷ fs) gs d h k = elim (Bool-cases (is_location f)) [
    | inr l ↦ rw l (locations_complete fs gs d (rw l at h) (rw l at k))
    | inl l ↦
        let here_and_later = rw l at h in
        rw (l, location_scope f d l, here_and_later.0)
          (locations_complete fs gs (append_under f.column f d) here_and_later.1 (rw l at k))
  ]

  -- The filters that are checked: those that are not IS NOT NULL.
  abbrev pub validatable : List Filter → List Filter
  validatable = keep (λ f. not (is_not_null_filter f))

  -- The location filters pass the value check without a scope, the others in the scope of all the
  -- location filters, and several filters pass the check of the combination, which asks each table for
  -- a row that satisfies the filters on that table.
  abbrev pub IsValid : List Filter → Type 0
  IsValid fs =
      ArePassed [] (locations fs)
      × ArePassed (scoped_locations (group_from [] (locations fs))) (others fs)
      × ((leb (length (locations fs ++ others fs)) 1 ≡ true)
          ⊎ (check_combination_has_results con (locations fs ++ others fs) ≡ true))

  combination-nil :
      (fs : List Filter)
      → validate_combination_phase con m fs ≡ []
      → (leb (length fs) 1 ≡ true) ⊎ (check_combination_has_results con fs ≡ true)
  combination-nil fs h = elim (Bool-cases (leb (length fs) 1)) [
    | inl e ↦ inl e
    | inr e ↦ elim (Bool-cases (check_combination_has_results con fs)) [
      | inl c ↦ inr c
      | inr c ↦
          let (scope, f, rest, q, ok, bad, out) =
            validate_combination_phase_lem con m fs (ground arith) c in
          absurd (nil_not_cons (sym out ∙ h))
    ]
  ]

  nil-combination :
      (fs : List Filter)
      → (leb (length fs) 1 ≡ true) ⊎ (check_combination_has_results con fs ≡ true)
      → validate_combination_phase con m fs ≡ []
  unfolding validate_combination_phase
  nil-combination fs (inl e) = rw e refl
  nil-combination fs (inr c) = elim (Bool-cases (leb (length fs) 1)) [
    | inl e ↦ rw e refl
    | inr e ↦ rw (e, c) refl
  ]

  two_phases : (a b : List InvalidFilter) → (if is_empty a then b else a) ≡ [] → (a ≡ []) × (b ≡ [])
  two_phases [] b h = (refl, h)
  two_phases (x ∷ a) b h = absurd (nil_not_cons h)

  sound : (fs : List Filter) → collect_invalid_filters con m fs ≡ [] → IsValid (validatable fs)
  unfolding collect_invalid_filters
  sound fs h =
      let v = validatable fs in
      let phases = two_phases _ _ (rw (sort_filters_by_hierarchy_lem v) at h) in
      let first = locations_sound v (others v) [] phases.0 in
      (
        first.0,
        others_sound v (group_from [] (locations v)) first.1,
        combination-nil (locations v ++ others v) phases.1,
      )

  complete : (fs : List Filter) → IsValid (validatable fs) → collect_invalid_filters con m fs ≡ []
  unfolding collect_invalid_filters
  complete fs (l, o, c) =
      let v = validatable fs in
      let first =
        locations_complete v (others v) [] l (others_complete v (group_from [] (locations v)) o) in
      rw (sort_filters_by_hierarchy_lem v, first) (nil-combination (locations v ++ others v) c)

  -- No filter is reported exactly when, IS NOT NULL filters left aside, every location filter passes
  -- the value check without a scope, every other filter passes it in the scope of all the location
  -- filters, and several filters pass the check of the combination. The value check lets a filter
  -- without a table pass unchecked, and both checks go table by table.
  pub collect_invalid_filters_lem :
      (fs : List Filter) → collect_invalid_filters con m fs ≡ [] ↔ IsValid (validatable fs)
  collect_invalid_filters_lem fs = (sound fs, complete fs)
