-- ===== src/Chatbot/FaqCache/Keys.antt =====
-- The cache key of a question.
use onegov2_spatial_assistan.Prelude.{
  String, ◌≡◌, ◌↔◌, refl, ap, false, List, In, is_empty, sorted_set, sorted_set_cong, In-sorted_set,
  [], ◌∷◌, In.here, join,
}
use onegov2_spatial_assistan.Chatbot.Text.{content_tokens}
use onegov2_spatial_assistan.Chatbot.FaqCache.{make_cache_key}

module _ (anonymize_pii : String → String) where
  abbrev pub tokens_of : String → List String
  tokens_of question = content_tokens (anonymize_pii question)

  nonempty : (xs : List String) → is_empty xs ≡ false → is_empty (sorted_set xs) ≡ false
  nonempty [] h = absurd (cc h)
  nonempty (x ∷ xs) h = not_empty (sorted_set (x ∷ xs)) ((In-sorted_set (x ∷ xs)).1 (here refl))
    where
      not_empty : (ys : List String) → In x ys → is_empty ys ≡ false
      not_empty [] m = elim m [ ]
      not_empty (y ∷ ys) m = refl

  -- Two questions whose masked texts have the same content words, some at least, in any order and
  -- number, have one cache key.
  pub make_cache_key_cong :
      (p q : String)
      → is_empty (tokens_of p) ≡ false
      → is_empty (tokens_of q) ≡ false
      → ((t : String) → In t (tokens_of p) ↔ In t (tokens_of q))
      → make_cache_key anonymize_pii p ≡ make_cache_key anonymize_pii q
  unfolding make_cache_key
  make_cache_key_cong p q hp hq same =
      rw (nonempty (tokens_of p) hp, nonempty (tokens_of q) hq)
        (ap (join "|") (sorted_set_cong (tokens_of p) (tokens_of q) same))
