-- ===== src/Prelude/TextSets.antt =====
-- `sorted(set(xs))` on texts: the one sorted list without repeats that has the members of `xs`.
use mathlib.Core.Path.{◌≡◌, refl, sym, subst, ◌∙◌}
use mathlib.Core.Logic.{◌↔◌, inl, inr}
use mathlib.Core.Bool.{true}
use mathlib.Core.List.{List, [], ◌∷◌}
use native.Mathlib.Omega.{arith}
use Prim.Native.String.{String}
use text.Mathlib.Text.{◌==◌}
use text.Mathlib.TextEquality.{eq_iff}
use onegov2_spatial_assistan.Prelude.Tests.{if◌then◌else◌, Bool-cases}
use onegov2_spatial_assistan.Prelude.Lists.{All-at, In, In.here, In.there, In-inv}
use onegov2_spatial_assistan.Prelude.Strings.{
  one_of, text_le, text_le_total, text_le_trans, text_le_antisym,
}
use onegov2_spatial_assistan.Prelude.Sort.{
  insert_by, sort_by, IsSorted, sort_by-IsSorted, insert_by_inv, sort_by_inv, In-sort_by,
}

-- `set(xs)`, as a list without repeats.
unfoldable pub distinct : List String → List String
distinct [] = []
distinct (x ∷ xs) = let rest = distinct xs in if one_of x rest then rest else x ∷ rest

unfoldable pub sorted_set : List String → List String
unfolding distinct sort_by
sorted_set xs = sort_by text_le (distinct xs)

pub one_of-In : (s : String) (ts : List String) → one_of s ts ≡ true → In s ts
one_of-In s [] h = cc
one_of-In s (t ∷ ts) h = elim (Bool-cases (s == t)) [
  | inl e ↦ here ((eq_iff s t).0 e)
  | inr e ↦ there (one_of-In s ts (ground arith))
]

pub In-one_of : (s : String) (ts : List String) → In s ts → one_of s ts ≡ true
In-one_of s [] m = elim m [ ]
In-one_of s (t ∷ ts) (here e) = ground (arith, eq_iff s t)
In-one_of s (t ∷ ts) (there m) = ground (arith, In-one_of s ts m)

abbrev NoRepeat : List String → Type 0
NoRepeat [] = Unit
NoRepeat (x ∷ xs) = (¬ In x xs) × NoRepeat xs

distinct-NoRepeat : (xs : List String) → NoRepeat (distinct xs)
unfolding distinct
distinct-NoRepeat [] = tt
distinct-NoRepeat (x ∷ xs) = elim (Bool-cases (one_of x (distinct xs))) [
  | inl e ↦ rw e (distinct-NoRepeat xs)
  | inr e ↦ rw e ((λ m. cc (e, In-one_of x (distinct xs) m)), distinct-NoRepeat xs)
]

distinct_inv : {a : String} (xs : List String) → In a (distinct xs) → In a xs
unfolding distinct
distinct_inv [] m = m
distinct_inv (x ∷ xs) m = elim (Bool-cases (one_of x (distinct xs))) [
  | inl e ↦ there (distinct_inv xs (rw e at m))
  | inr e ↦ elim (In-inv (rw e at m)) [ inl q ↦ here q | inr r ↦ there (distinct_inv xs r) ]
]

In-distinct : {a : String} (xs : List String) → In a xs → In a (distinct xs)
unfolding distinct
In-distinct [] m = m
In-distinct (x ∷ xs) m = elim (Bool-cases (one_of x (distinct xs))) [
  | inl e ↦
      rw e
        (elim (In-inv m) [ inl q ↦ rw q (one_of-In x (distinct xs) e) | inr r ↦ In-distinct xs r ])
  | inr e ↦ rw e (elim (In-inv m) [ inl q ↦ here q | inr r ↦ there (In-distinct xs r) ])
]

insert_by-NoRepeat :
    (x : String) (ys : List String) → ¬ In x ys → NoRepeat ys → NoRepeat (insert_by text_le x ys)
unfolding insert_by
insert_by-NoRepeat x [] new h = (new, tt)
insert_by-NoRepeat x (y ∷ ys) new h = elim (Bool-cases (text_le x y)) [
  | inl e ↦ rw e (new, h)
  | inr e ↦ rw e (
    (λ m. elim (insert_by_inv text_le x ys m) [ inl q ↦ new (here (sym q)) | inr r ↦ h.0 r ]),
    insert_by-NoRepeat x ys (λ m. new (there m)) h.1,
  )
]

sort_by-NoRepeat : (xs : List String) → NoRepeat xs → NoRepeat (sort_by text_le xs)
unfolding sort_by
sort_by-NoRepeat [] h = tt
sort_by-NoRepeat (x ∷ xs) h =
    insert_by-NoRepeat x (sort_by text_le xs) (λ m. h.0 (sort_by_inv text_le xs m))
      (sort_by-NoRepeat xs h.1)

same_head :
    (x y : String) (xs ys : List String)
    → IsSorted text_le (x ∷ xs)
    → IsSorted text_le (y ∷ ys)
    → In x (y ∷ ys)
    → In y (x ∷ xs)
    → x ≡ y
same_head x y xs ys hx hy mx my = elim (In-inv mx) [
  | inl e ↦ e
  | inr m ↦ elim (In-inv my) [
    | inl e ↦ sym e
    | inr n ↦ text_le_antisym x y (All-at _ n hx.0) (All-at _ m hy.0)
  ]
]

same_tail :
    (x y : String) (xs ys : List String)
    → x ≡ y
    → ¬ In x xs
    → ((a : String) → In a (x ∷ xs) → In a (y ∷ ys))
    → (a : String) → In a xs
    → In a ys
same_tail x y xs ys e new same a m = elim (In-inv (same a (there m))) [
  | inl q ↦ absurd (new (subst (λ z. In z xs) (q ∙ sym e) m))
  | inr r ↦ r
]

sorted_unique :
    (xs ys : List String)
    → IsSorted text_le xs
    → NoRepeat xs
    → IsSorted text_le ys
    → NoRepeat ys
    → ((a : String) → In a xs → In a ys)
    → ((a : String) → In a ys → In a xs)
    → xs ≡ ys
sorted_unique [] [] hx nx hy ny f g = refl
sorted_unique [] (y ∷ ys) hx nx hy ny f g = elim (g y (here refl)) [ ]
sorted_unique (x ∷ xs) [] hx nx hy ny f g = elim (f x (here refl)) [ ]
sorted_unique (x ∷ xs) (y ∷ ys) hx nx hy ny f g =
    let e : x ≡ y = same_head x y xs ys hx hy (f x (here refl)) (g y (here refl)) in
    let rest : xs ≡ ys =
      sorted_unique xs ys hx.1 nx.1 hy.1 ny.1 (same_tail x y xs ys e nx.0 f)
        (same_tail y x ys xs (sym e) ny.0 g) in
    cc

-- Lists with the same members give the same sorted set.
pub sorted_set_cong :
    (xs ys : List String) → ((a : String) → In a xs ↔ In a ys) → sorted_set xs ≡ sorted_set ys
unfolding sorted_set
sorted_set_cong xs ys same =
    sorted_unique (sort_by text_le (distinct xs)) (sort_by text_le (distinct ys))
      (sort_by-IsSorted text_le text_le_total text_le_trans (distinct xs))
      (sort_by-NoRepeat (distinct xs) (distinct-NoRepeat xs))
      (sort_by-IsSorted text_le text_le_total text_le_trans (distinct ys))
      (sort_by-NoRepeat (distinct ys) (distinct-NoRepeat ys)) (λ a m. carried xs ys a (same a).0 m)
      (λ a m. carried ys xs a (same a).1 m)
  where
    carried :
        (us vs : List String) (a : String)
        → (In a us → In a vs)
        → In a (sort_by text_le (distinct us))
        → In a (sort_by text_le (distinct vs))
    carried us vs a f m =
        In-sort_by text_le (distinct vs)
          (In-distinct vs (f (distinct_inv us (sort_by_inv text_le (distinct us) m))))

pub In-sorted_set : {a : String} (xs : List String) → In a (sorted_set xs) ↔ In a xs
unfolding sorted_set
In-sorted_set xs = (
  λ m. distinct_inv xs (sort_by_inv text_le (distinct xs) m),
  λ m. In-sort_by text_le (distinct xs) (In-distinct xs m),
)
