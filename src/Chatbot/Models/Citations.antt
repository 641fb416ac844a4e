-- ===== src/Chatbot/Models/Citations.antt =====
-- `dedupe_citations` of services/chatbot/models.py.
use onegov2_spatial_assistan.Prelude.{
  ◌≡◌, refl, ◌⊎◌, inl, inr, true, false, ◌||◌, List, [], ◌∷◌, arith, eq_iff, Bool-cases, In,
  In.here, In.there, In-inv, is_empty,
}
use onegov2_spatial_assistan.Chatbot.Models.{
  Citation, same_key, seen_before, dedupe_from, dedupe_citations,
}

-- `out` keeps the order of `cs` and leaves some of it out.
pub data IsSublist : List Citation → List Citation → Type 0 where
  done : IsSublist [] []
  taken :
      {c d : Citation} {out cs : List Citation}
      → c ≡ d
      → IsSublist out cs
      → IsSublist (c ∷ out) (d ∷ cs)
  left_out : {d : Citation} {out cs : List Citation} → IsSublist out cs → IsSublist out (d ∷ cs)

-- No key stands twice, and none is one of `seen`.
abbrev pub AreFresh : List Citation → List Citation → Type 0
AreFresh seen [] = Unit
AreFresh seen (c ∷ out) = (seen_before c seen ≡ false) × AreFresh (c ∷ seen) out

dedupe_from-IsSublist : (seen cs : List Citation) → IsSublist (dedupe_from seen cs) cs
unfolding dedupe_from
dedupe_from-IsSublist seen [] = done
dedupe_from-IsSublist seen (c ∷ cs) = elim (Bool-cases (seen_before c seen)) [
  | inl e ↦ rw e (left_out (dedupe_from-IsSublist seen cs))
  | inr e ↦ rw e (taken refl (dedupe_from-IsSublist (c ∷ seen) cs))
]

dedupe_from-AreFresh : (seen cs : List Citation) → AreFresh seen (dedupe_from seen cs)
unfolding dedupe_from
dedupe_from-AreFresh seen [] = tt
dedupe_from-AreFresh seen (c ∷ cs) = elim (Bool-cases (seen_before c seen)) [
  | inl e ↦ rw e (dedupe_from-AreFresh seen cs)
  | inr e ↦ rw e (e, dedupe_from-AreFresh (c ∷ seen) cs)
]

same_key_refl : (c : Citation) → same_key c c ≡ true
same_key_refl c = ground (arith, eq_iff c.source_id c.source_id, eq_iff c.locator c.locator)

dedupe_from_covers :
    (c : Citation) (seen cs : List Citation)
    → In c cs
    → (seen_before c seen ≡ true) ⊎ (seen_before c (dedupe_from seen cs) ≡ true)
unfolding dedupe_from
dedupe_from_covers c seen [] m = elim m [ ]
dedupe_from_covers c seen (d ∷ cs) (here e) = elim (Bool-cases (seen_before d seen)) [
  | inl old ↦ inl (rw e old)
  | inr new ↦ inr (rw new (rw e (ground (arith, same_key_refl d))))
]
dedupe_from_covers c seen (d ∷ cs) (there m) = elim (Bool-cases (seen_before d seen)) [
  | inl old ↦ rw old (dedupe_from_covers c seen cs m)
  | inr new ↦ rw new (again (dedupe_from_covers c (d ∷ seen) cs m))
]
  where
    again :
        (seen_before c (d ∷ seen) ≡ true) ⊎ (seen_before c (dedupe_from (d ∷ seen) cs) ≡ true)
        → (seen_before c seen ≡ true)
          ⊎ ((same_key c d || seen_before c (dedupe_from (d ∷ seen) cs)) ≡ true)
    again h = ground arith

-- The result keeps the order of the citations, no two of it have one key, and each citation's key is
-- that of one of the result.
pub dedupe_citations_lem :
    (cs : List Citation)
    → IsSublist (dedupe_citations cs) cs
      × AreFresh [] (dedupe_citations cs)
      × ((c : Citation) → In c cs → seen_before c (dedupe_citations cs) ≡ true)
unfolding dedupe_citations
dedupe_citations_lem cs = (
  dedupe_from-IsSublist [] cs,
  dedupe_from-AreFresh [] cs,
  λ c m. elim (dedupe_from_covers c [] cs m) [ inl none_seen ↦ cc | inr h ↦ h ],
)

-- A citation of the result is one of the list.
pub In-dedupe_from : (seen cs : List Citation) {c : Citation} → In c (dedupe_from seen cs) → In c cs
unfolding dedupe_from
In-dedupe_from seen [] m = elim m [ ]
In-dedupe_from seen (d ∷ cs) m = elim (Bool-cases (seen_before d seen)) [
  | inl e ↦ there (In-dedupe_from seen cs (rw e at m))
  | inr e ↦ elim (In-inv (rw e at m)) [
    | inl q ↦ here q
    | inr t ↦ there (In-dedupe_from (d ∷ seen) cs t)
  ]
]

pub In-dedupe_citations : (cs : List Citation) {c : Citation} → In c (dedupe_citations cs) → In c cs
unfolding dedupe_citations
In-dedupe_citations cs m = In-dedupe_from [] cs m

pub dedupe_citations-some :
    (cs : List Citation) → is_empty cs ≡ false → is_empty (dedupe_citations cs) ≡ false
unfolding dedupe_citations dedupe_from
dedupe_citations-some [] h = h
dedupe_citations-some (c ∷ cs) h = refl
