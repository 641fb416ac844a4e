-- ===== src/Prelude/Sort.antt =====
-- Python's `sorted` and `list.sort`: stable, by a test `before x y` ("x may stand before y").
use Prim.Native.Nat.{ℕ, zero, suc}
use mathlib.Core.Path.{◌≡◌, refl, ap}
use mathlib.Core.Logic.{◌⊎◌, inl, inr}
use mathlib.Core.Bool.{Bool, true, false}
use mathlib.Core.List.{List, [], ◌∷◌}
use native.Mathlib.Omega.{arith}
use onegov2_spatial_assistan.Prelude.Tests.{if◌then◌else◌, Bool-cases}
use onegov2_spatial_assistan.Prelude.Lists.{
  length, take, All, In, In.here, In.there, In-inv, All-mono, In-take, All-at, All-intro,
}

module _ {ℓ} {A : Type ℓ} where
  -- A new element goes before the first one that it may precede, so equal keys keep their order.
  unfoldable pub insert_by : (A → A → Bool) → A → List A → List A
  insert_by before x [] = x ∷ []
  insert_by before x (y ∷ ys) = if before x y then x ∷ y ∷ ys else y ∷ insert_by before x ys

  unfoldable pub sort_by : (A → A → Bool) → List A → List A
  unfolding insert_by
  sort_by before [] = []
  sort_by before (x ∷ xs) = insert_by before x (sort_by before xs)

  abbrev pub IsSorted : (A → A → Bool) → List A → Type ℓ
  IsSorted before [] = Unit
  IsSorted before (x ∷ xs) = All (λ y. before x y ≡ true) xs × IsSorted before xs

module _ {ℓ} {A : Type ℓ} (before : A → A → Bool) where
  pub insert_by_inv :
      {a : A} (x : A) (ys : List A) → In a (insert_by before x ys) → (a ≡ x) ⊎ In a ys
  unfolding insert_by
  insert_by_inv x [] m = In-inv m
  insert_by_inv x (y ∷ ys) m = elim (Bool-cases (before x y)) [
    | inl e ↦ In-inv (rw e at m)
    | inr e ↦ elim (In-inv (rw e at m)) [
      | inl q ↦ inr (here q)
      | inr r ↦ elim (insert_by_inv x ys r) [ inl q ↦ inl q | inr t ↦ inr (there t) ]
    ]
  ]

  pub insert_by_self : (x : A) (ys : List A) → In x (insert_by before x ys)
  unfolding insert_by
  insert_by_self x [] = here refl
  insert_by_self x (y ∷ ys) = elim (Bool-cases (before x y)) [
    | inl e ↦ rw e (here refl)
    | inr e ↦ rw e (there (insert_by_self x ys))
  ]

  pub insert_by_old : {a : A} (x : A) (ys : List A) → In a ys → In a (insert_by before x ys)
  unfolding insert_by
  insert_by_old x [] m = elim m [ ]
  insert_by_old x (y ∷ ys) (here q) = elim (Bool-cases (before x y)) [
    | inl e ↦ rw e (there (here q))
    | inr e ↦ rw e (here q)
  ]
  insert_by_old x (y ∷ ys) (there m) = elim (Bool-cases (before x y)) [
    | inl e ↦ rw e (there (there m))
    | inr e ↦ rw e (there (insert_by_old x ys m))
  ]

  pub sort_by_inv : {a : A} (xs : List A) → In a (sort_by before xs) → In a xs
  unfolding sort_by
  sort_by_inv [] m = m
  sort_by_inv (x ∷ xs) m = elim (insert_by_inv x (sort_by before xs) m) [
    | inl q ↦ here q
    | inr t ↦ there (sort_by_inv xs t)
  ]

  pub In-sort_by : {a : A} (xs : List A) → In a xs → In a (sort_by before xs)
  unfolding sort_by
  In-sort_by [] m = elim m [ ]
  In-sort_by (x ∷ xs) (here q) = rw q (insert_by_self x (sort_by before xs))
  In-sort_by (x ∷ xs) (there m) = insert_by_old x (sort_by before xs) (In-sort_by xs m)

  pub IsSorted-take : (n : ℕ) (xs : List A) → IsSorted before xs → IsSorted before (take n xs)
  IsSorted-take zero xs h = tt
  IsSorted-take (suc n) [] h = tt
  IsSorted-take (suc n) (x ∷ xs) h =
      (All-intro _ (take n xs) (λ a m. All-at _ (In-take n xs m) h.0), IsSorted-take n xs h.1)

  pub length-insert_by : (x : A) (ys : List A) → length (insert_by before x ys) ≡ suc (length ys)
  unfolding insert_by
  length-insert_by x [] = refl
  length-insert_by x (y ∷ ys) = ground (arith, length-insert_by x ys)

  pub length-sort_by : (xs : List A) → length (sort_by before xs) ≡ length xs
  unfolding sort_by
  length-sort_by [] = refl
  length-sort_by (x ∷ xs) =
      ground (arith, length-insert_by x (sort_by before xs), length-sort_by xs)

  module _ (total : (x y : A) → before x y ≡ false → before y x ≡ true)
      (trans : (x y z : A) → before x y ≡ true → before y z ≡ true → before x z ≡ true) where
    insert_by-IsSorted :
        (x : A) (ys : List A) → IsSorted before ys → IsSorted before (insert_by before x ys)
    unfolding insert_by
    insert_by-IsSorted x [] h = (tt, tt)
    insert_by-IsSorted x (y ∷ ys) h = elim (Bool-cases (before x y)) [
      | inl e ↦ rw e ((e, All-mono _ _ ys (λ z p. trans x y z e p) h.0), h)
      | inr e ↦ rw e (
        All-intro _ (insert_by before x ys) (λ a m. elim (insert_by_inv x ys m) [
          | inl q ↦ rw q (total x y e)
          | inr t ↦ All-at _ t h.0
        ]),
        insert_by-IsSorted x ys h.1,
      )
    ]

    -- A sort by a total, transitive test is sorted.
    pub sort_by-IsSorted : (xs : List A) → IsSorted before (sort_by before xs)
    unfolding sort_by
    sort_by-IsSorted [] = tt
    sort_by-IsSorted (x ∷ xs) = insert_by-IsSorted x (sort_by before xs) (sort_by-IsSorted xs)

    -- What the first `n` of a sorted list leave out stands behind all of them.
    pub take_or_after :
        {a : A} (n : ℕ) (xs : List A)
        → IsSorted before xs
        → In a xs
        → In a (take n xs) ⊎ ((length (take n xs) ≡ n) × All (λ y. before y a ≡ true) (take n xs))
    take_or_after zero xs h m = inr (refl, tt)
    take_or_after (suc n) [] h m = elim m [ ]
    take_or_after (suc n) (x ∷ xs) h (here q) = inl (here q)
    take_or_after (suc n) (x ∷ xs) h (there m) = elim (take_or_after n xs h.1 m) [
      | inl t ↦ inl (there t)
      | inr t ↦ inr (ap suc t.0, (All-at _ m h.0, t.1))
    ]
