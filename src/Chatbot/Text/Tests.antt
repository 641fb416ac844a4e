-- ===== src/Chatbot/Text/Tests.antt =====
-- Runs and instances for services/chatbot/text.py.
use onegov2_spatial_assistan.Prelude.{◌≡◌, refl, List, [], ◌∷◌, String, arith, ◌⊎◌}
use onegov2_spatial_assistan.Chatbot.Text.{content_tokens, best_segmentation, decompound}
use onegov2_spatial_assistan.Chatbot.Text.Segmentation.{
  IsBest, IsBestMemo, best_segmentation-IsBest,
}
use onegov2_spatial_assistan.Chatbot.Text.Decompound.{IsSimple, IsLongest, decompound-IsLongest}

content_tokens_run :
    content_tokens "Hoe komt scenario's 2040: VERZILTING bij 'Lek' 5?"
    ≡ "komt" ∷ "scenario's" ∷ "2040" ∷ "verzilting" ∷ "lek" ∷ []
unfolding content_tokens
content_tokens_run = refl

abbrev words : List String
words = "water" ∷ "wegen" ∷ "waterwe" ∷ []

decompound_run : decompound "waterwegen" words 4 ≡ "water" ∷ "wegen" ∷ []
unfolding decompound
decompound_run = refl

decompound-IsLongest_example :
    ((decompound "waterwegen" words 4 ≡ []) × IsSimple words 4 "waterwegen")
    ⊎ IsLongest words 4 "waterwegen" (decompound "waterwegen" words 4)
decompound-IsLongest_example =
    decompound-IsLongest words 4 (omega arith) "waterwegen" refl (omega arith) refl

best_segmentation-IsBest_example :
    IsBest words 4 "waterwegen" (best_segmentation 11 words 4 "waterwegen" []).0
    × IsBestMemo words 4 (best_segmentation 11 words 4 "waterwegen" []).1
best_segmentation-IsBest_example =
    best_segmentation-IsBest words 4 (omega arith) 11 "waterwegen" [] (omega arith) (λ k r h. cc)
