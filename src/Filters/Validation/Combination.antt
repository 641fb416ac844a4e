-- ===== src/Filters/Validation/Combination.antt =====
-- The check that all the filters go together: which filter is blamed when they do not.
use onegov2_spatial_assistan.Prelude.{
  ◌≡◌, refl, sym, ap, inl, inr, true, false, List, [], ◌∷◌, ◌++◌, arith, leb, subst, length,
  Bool-cases, ◌<◌,
}
use onegov2_spatial_assistan.Filters.Model.{Filter, InvalidFilter, invalid_of}
use onegov2_spatial_assistan.Filters.Queries.{Connection, check_combination_has_results}
use onegov2_spatial_assistan.Filters.Candidates.{CloseMatches, build_candidates_for_filter}
use onegov2_spatial_assistan.Filters.Validation.{
  find_conflicting_filter, validate_combination_phase,
}

module _ (con : Connection) (m : CloseMatches) where
  -- Each of `fs` goes together with those before it, after `before`.
  abbrev pub Compatible : List Filter → List Filter → Type 0
  Compatible before [] = Unit
  Compatible before (f ∷ fs) =
      (check_combination_has_results con (before ++ f ∷ []) ≡ true)
      × Compatible (before ++ f ∷ []) fs

  -- `fs` splits at the first filter that does not go together with those before it, the report
  -- names that filter, and its candidates are those in the scope of the filters before it.
  abbrev pub IsFirstConflict : List Filter → List InvalidFilter → Type 0
  IsFirstConflict fs report =
      (scope : List Filter) × (f : Filter) × (rest : List Filter) × (fs ≡ scope ++ f ∷ rest)
      × Compatible [] scope
      × (check_combination_has_results con (scope ++ f ∷ []) ≡ false)
      × (report ≡ invalid_of f (build_candidates_for_filter m con f scope) scope ∷ [])

  abbrev ConflictAfter : List Filter → List Filter → List InvalidFilter → Type 0
  ConflictAfter before fs report =
      (scope : List Filter) × (f : Filter) × (rest : List Filter) × (fs ≡ scope ++ f ∷ rest)
      × Compatible before scope
      × (check_combination_has_results con ((before ++ scope) ++ f ∷ []) ≡ false)
      × (report
          ≡ invalid_of f (build_candidates_for_filter m con f (before ++ scope)) (before ++ scope)
            ∷ [])

  append_assoc : (a b c : List Filter) → (a ++ b) ++ c ≡ a ++ (b ++ c)
  append_assoc [] b c = refl
  append_assoc (x ∷ a) b c = ap (λ r. x ∷ r) (append_assoc a b c)

  append_nil : (a : List Filter) → a ++ [] ≡ a
  append_nil [] = refl
  append_nil (x ∷ a) = ap (λ r. x ∷ r) (append_nil a)

  conflict_later :
      (before : List Filter) (f : Filter) (fs : List Filter) (report : List InvalidFilter)
      → check_combination_has_results con (before ++ f ∷ []) ≡ true
      → ConflictAfter (before ++ f ∷ []) fs report
      → ConflictAfter before (f ∷ fs) report
  conflict_later before f fs report e (scope, g, rest, q, ok, bad, out) =
      let shift = append_assoc before (f ∷ []) scope in
      (
        f ∷ scope,
        g,
        rest,
        ap (λ r. f ∷ r) q,
        (e, ok),
        subst (λ s. check_combination_has_results con (s ++ g ∷ []) ≡ false) shift bad,
        subst (λ s. report ≡ invalid_of g (build_candidates_for_filter m con g s) s ∷ []) shift out,
      )

  -- The accumulated list is the whole list at the end, so it fails somewhere when the whole fails.
  conflict_found :
      (before : List Filter) (f : Filter) (fs : List Filter)
      → check_combination_has_results con (before ++ f ∷ fs) ≡ false
      → ConflictAfter before (f ∷ fs) (find_conflicting_filter con m before (f ∷ fs))
  unfolding find_conflicting_filter
  conflict_found before f [] h =
      ([], f, [], refl, tt, rw (append_nil before) h, rw (h, append_nil before) refl)
  conflict_found before f (g ∷ fs) h =
      elim (Bool-cases (check_combination_has_results con (before ++ f ∷ []))) [
        | inl e ↦ rw e (
            conflict_later before f (g ∷ fs)
              (find_conflicting_filter con m (before ++ f ∷ []) (g ∷ fs)) e
              (conflict_found (before ++ f ∷ []) g fs (
                subst (λ s. check_combination_has_results con s ≡ false)
                  (sym (append_assoc before (f ∷ []) (g ∷ fs))) h)))
        | inr e ↦
            ([], f, g ∷ fs, refl, tt, rw (append_nil before) e, rw (e, append_nil before) refl)
      ]

  -- When several filters together select no row, exactly one of them is reported: the first that does
  -- not go together with the filters before it, with candidates in the scope of those.
  pub validate_combination_phase_lem :
      (fs : List Filter)
      → 1 < length fs
      → check_combination_has_results con fs ≡ false
      → IsFirstConflict fs (validate_combination_phase con m fs)
  unfolding validate_combination_phase
  validate_combination_phase_lem [] n h = absurd (omega arith)
  validate_combination_phase_lem (f ∷ []) n h = absurd (omega arith)
  validate_combination_phase_lem (f ∷ g ∷ fs) n h =
      let several : leb (length (f ∷ g ∷ fs)) 1 ≡ false = ground arith in
      rw (several, h) (conflict_found [] f (g ∷ fs) h)
