-- ===== src/Chatbot/Text/Decompound.antt =====
-- `decompound` and `expand_tokens` of services/chatbot/text.py, over the search of Segmentation.
use onegov2_spatial_assistan.Prelude.{
  ℕ, suc, ◌*◌, ◌≤◌, ◌<◌, String, ◌≡◌, refl, subst, ◌↔◌, ◌⊎◌, inl, inr, true, false, none, some,
  List, [], ◌∷◌, arith, lookup, length, In, In.here, In.there, In-inv, In-append, In-append_left,
  In-append_right, chars, is_alpha, ltb, leb, Bool-cases,
}
use onegov2_spatial_assistan.Chatbot.Text.{
  compound_seed, Parts, two_or_more, best_segmentation, decompound, expand_tokens,
}
use onegov2_spatial_assistan.Chatbot.Text.Segmentation.{
  IsSegmentation, IsBest, best_segmentation-IsBest,
}

module _ (vocab : List String) (min_part : ℕ) where
  abbrev pub IsLongest : String → List String → Type 0
  IsLongest token parts =
      IsSegmentation vocab min_part token parts
      × (2 ≤ length parts)
      × ((qs : List String) → IsSegmentation vocab min_part token qs → length qs ≤ length parts)

  abbrev pub IsSimple : String → Type 0
  IsSimple token = (qs : List String) → IsSegmentation vocab min_part token qs → length qs < 2

module _ (vocab : List String) (min_part : ℕ) (min_pos : 0 < min_part) where
  searched :
      (token : String)
      → IsBest vocab min_part token
          (best_segmentation (suc (chars token)) vocab min_part token []).0
  searched token =
      (best_segmentation-IsBest vocab min_part min_pos (suc (chars token)) token [] (omega arith)
        (λ k r h. cc)).0

  longest :
      (token : String) (r : Parts)
      → IsBest vocab min_part token r
      → ((two_or_more r ≡ []) × IsSimple vocab min_part token)
        ⊎ IsLongest vocab min_part token (two_or_more r)
  longest token none b = inl (refl, λ qs seg. let (ps, e, le) = b.optimal qs seg in absurd (cc e))
  longest token (some parts) b = elim (Bool-cases (leb 2 (length parts))) [
    | inl e ↦ rw e (inr (b.sound parts refl, ground arith, λ qs seg. at_most qs (b.optimal qs seg)))
    | inr e ↦ rw e (inl (refl, λ qs seg. let le = at_most qs (b.optimal qs seg) in ground arith))
  ]
    where
      at_most :
          (qs : List String)
          → (ps : List String) × (some parts ≡ some ps) × (length qs ≤ length ps)
          → length qs ≤ length parts
      at_most qs (ps, e, le) = let q : parts ≡ ps = cc e in rw q le

  -- A word of letters that no curated compound covers, of at least twice the least part length, is
  -- either left whole, and then every cut of it into words of the vocabulary has fewer than two
  -- parts; or it is cut into at least two words of the vocabulary, each long enough, that read the
  -- word when set one after the other, and no other such cut has more parts.
  pub decompound-IsLongest :
      (token : String)
      → lookup token compound_seed ≡ none
      → 2 * min_part ≤ chars token
      → is_alpha token ≡ true
      → ((decompound token vocab min_part ≡ []) × IsSimple vocab min_part token)
        ⊎ IsLongest vocab min_part token (decompound token vocab min_part)
  unfolding decompound
  decompound-IsLongest token unseeded long alpha =
      let enough : ltb (chars token) (2 * min_part) ≡ false = ground arith in
      rw (unseeded, enough, alpha, decompound) (longest token _ (searched token))

expand_inv :
    (t : String) (tokens vocab : List String)
    → In t (expand_tokens tokens vocab)
    → In t tokens ⊎ ((u : String) × In u tokens × In t (decompound u vocab 4))
unfolding expand_tokens
expand_inv t [] vocab m = elim m [ ]
expand_inv t (u ∷ tokens) vocab m = elim (In-append (u ∷ decompound u vocab 4) m) [
  | inl first ↦ elim (In-inv first) [ inl e ↦ inl (here e) | inr part ↦ inr (u, here refl, part) ]
  | inr rest ↦ elim (expand_inv t tokens vocab rest) [
    | inl old ↦ inl (there old)
    | inr (w, old, part) ↦ inr (w, there old, part)
  ]
]

expand_token :
    (t : String) (tokens vocab : List String) → In t tokens → In t (expand_tokens tokens vocab)
unfolding expand_tokens
expand_token t [] vocab m = elim m [ ]
expand_token t (u ∷ tokens) vocab (here e) = here e
expand_token t (u ∷ tokens) vocab (there m) =
    there (In-append_right (decompound u vocab 4) (expand_token t tokens vocab m))

expand_part :
    (t u : String) (tokens vocab : List String)
    → In u tokens
    → In t (decompound u vocab 4)
    → In t (expand_tokens tokens vocab)
unfolding expand_tokens
expand_part t u [] vocab m part = elim m [ ]
expand_part t u (w ∷ tokens) vocab (here e) part =
    there (
      In-append_left (expand_tokens tokens vocab) (subst (λ x. In t (decompound x vocab 4)) e part))
expand_part t u (w ∷ tokens) vocab (there m) part =
    there (In-append_right (decompound w vocab 4) (expand_part t u tokens vocab m part))

-- The expansion of a token list holds exactly the tokens and the parts of each of them.
pub expand_tokens_iff :
    (t : String) (tokens vocab : List String)
    → In t (expand_tokens tokens vocab)
      ↔ (In t tokens ⊎ ((u : String) × In u tokens × In t (decompound u vocab 4)))
expand_tokens_iff t tokens vocab = (
  expand_inv t tokens vocab,
  λ m. elim m [
    | inl old ↦ expand_token t tokens vocab old
    | inr (u, old, part) ↦ expand_part t u tokens vocab old part
  ],
)
