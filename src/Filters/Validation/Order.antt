-- ===== src/Filters/Validation/Order.antt =====
-- The order of validation: the location filters stand first, each kind in its given order.
use onegov2_spatial_assistan.Prelude.{
  ◌≡◌, refl, ap, ◌∙◌, ◌⊎◌, inl, inr, Bool, true, false, not, List, [], ◌∷◌, ◌++◌, arith, keep, leb,
  insert_by, sort_by,
}
use onegov2_spatial_assistan.Filters.Model.{
  Filter, is_location_column, order_of, sort_filters_by_hierarchy,
}

abbrev pub is_location : Filter → Bool
is_location f = is_location_column f.column

abbrev pub locations : List Filter → List Filter
locations = keep is_location

abbrev pub others : List Filter → List Filter
others = keep (λ f. not (is_location f))

order-cases :
    (f : Filter)
    → ((is_location f ≡ true) × (order_of f ≡ 0)) ⊎ ((is_location f ≡ false) × (order_of f ≡ 3))
unfolding is_location_column
order-cases f = ground arith

abbrev by_order : Filter → Filter → Bool
by_order f g = leb (order_of f) (order_of g)

insert_location :
    (f : Filter) (fs : List Filter) → order_of f ≡ 0 → insert_by by_order f fs ≡ f ∷ fs
unfolding insert_by
insert_location f [] h = refl
insert_location f (g ∷ fs) h = rw h (ground arith)

insert_past :
    (f : Filter) (fs gs : List Filter)
    → order_of f ≡ 3
    → insert_by by_order f (locations fs ++ gs) ≡ locations fs ++ insert_by by_order f gs
unfolding insert_by
insert_past f [] gs h = refl
insert_past f (g ∷ fs) gs h = elim (order-cases g) [
  | inl (e, o) ↦ rw (e, h, o) (ap (λ r. g ∷ r) (insert_past f fs gs h))
  | inr (e, o) ↦ rw e (insert_past f fs gs h)
]

insert_other :
    (f : Filter) (fs : List Filter)
    → order_of f ≡ 3
    → insert_by by_order f (others fs) ≡ f ∷ others fs
unfolding insert_by
insert_other f [] h = refl
insert_other f (g ∷ fs) h = elim (order-cases g) [
  | inl (e, o) ↦ rw e (insert_other f fs h)
  | inr (e, o) ↦ rw (e, h, o) refl
]

-- The filters are validated location filters first, then the others; among themselves both keep the
-- order in which they were given.
pub sort_filters_by_hierarchy_lem :
    (fs : List Filter) → sort_filters_by_hierarchy fs ≡ locations fs ++ others fs
unfolding sort_filters_by_hierarchy sort_by
sort_filters_by_hierarchy_lem [] = refl
sort_filters_by_hierarchy_lem (f ∷ fs) = elim (order-cases f) [
  | inl (e, o) ↦
      rw (e, sort_filters_by_hierarchy_lem fs) (insert_location f (locations fs ++ others fs) o)
  | inr (e, o) ↦
      rw (e, sort_filters_by_hierarchy_lem fs)
        (insert_past f fs (others fs) o ∙ ap (λ r. locations fs ++ r) (insert_other f fs o))
]
