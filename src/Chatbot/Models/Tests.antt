-- ===== src/Chatbot/Models/Tests.antt =====
-- Instances for services/chatbot/models.py.
use onegov2_spatial_assistan.Prelude.{◌≡◌, refl, [], ◌∷◌}
use onegov2_spatial_assistan.Chatbot.Models.{Citation, dedupe_citations}

abbrev cite : Citation
cite = record { source_id = "krw"; title_nl = "KRW"; url = "u"; locator = "krw"; kind = "doc" }

abbrev cite_again : Citation
cite_again = record cite { title_nl = "Kaderrichtlijn Water" }

dedupe_citations_test : dedupe_citations (cite ∷ cite_again ∷ []) ≡ cite ∷ []
unfolding dedupe_citations
dedupe_citations_test = refl
