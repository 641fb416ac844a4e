-- ===== src/Scenario/Positions.antt =====
-- services/scenario/official_positions.py: the official positions beside a scenario, by topic.
use onegov2_spatial_assistan.Prelude.{
  String, Bool, none, some, List, [], ◌∷◌, ◌++◌, Dict, lookup, one_of, if◌then◌else◌,
}

pub record Document : Type 0 where
  pub title : String
  pub url : String
  pub date : String
  pub publisher : String

pub record OfficialPosition : Type 0 where
  pub topic : String
  pub summary_nl : String
  pub documents : List Document

abbrev pub official_positions : Dict OfficialPosition
official_positions =
    (
      "drinkwater_zh",
      record {
        topic = "drinkwater_zh";
        summary_nl =
            "De beschikbaarheid van voldoende schoon drinkwater in Zuid-Holland staat onder druk door groei, klimaat en bronkwaliteit. De provincie werkt met drinkwaterbedrijven en waterschappen aan een robuuste voorziening tot 2040.";
        documents =
            record {
              title = "Regionaal Waterprogramma Zuid-Holland 2022–2027";
              url = "https://www.pzh.nl/regiovisie-waterprogramma-2022-2027";
              date = "2022";
              publisher = "Provincie Zuid-Holland";
            }
            ∷ record {
              title = "Nationaal Waterprogramma 2022–2027";
              url = "https://www.rijksoverheid.nl/onderwerpen/water/nationaal-waterprogramma";
              date = "2022";
              publisher = "Ministerie van Infrastructuur en Waterstaat";
            }
            ∷ record {
              title = "Ruimtelijk Arrangement Rijk–Zuid-Holland (2 juni 2025)";
              url = "https://www.rijksoverheid.nl/ruimtelijkarrangement-zh";
              date = "2025-06-02";
              publisher = "Ministerie BZK / Provincie ZH";
            }
            ∷ [];
      },
    )
    ∷ (
      "klimaat_knmi",
      record {
        topic = "klimaat_knmi";
        summary_nl =
            "KNMI'23 beschrijft vier klimaatscenario's voor Nederland. Scenario Hd (hoge opwarming, drogere zomers) geeft de grootste druk op zoetwaterbeschikbaarheid.";
        documents =
            record {
              title = "KNMI'23 Klimaatscenario's voor Nederland";
              url = "https://www.knmi.nl/klimaatscenarios";
              date = "2023";
              publisher = "KNMI";
            }
            ∷ [];
      },
    )
    ∷ (
      "woningbouw_zh",
      record {
        topic = "woningbouw_zh";
        summary_nl =
            "Zuid-Holland heeft een bruto bouwopgave van circa 235.000 woningen in 2022–2030; in de Zuidelijke Randstad geldt een aparte ambitie van circa 200.000 woningen tot 2040. Beschikbaarheid van drinkwater is benoemd als randvoorwaarde voor ruimtelijke ontwikkeling.";
        documents =
            record {
              title =
                  "Ruimtelijk Arrangement Rijk–Zuid-Holland (2 juni 2025), Onderwerp 9 Drinkwater";
              url = "https://www.rijksoverheid.nl/ruimtelijkarrangement-zh";
              date = "2025-06-02";
              publisher = "Ministerie BZK / Provincie ZH";
            }
            ∷ [];
      },
    )
    ∷ (
      "krw",
      record {
        topic = "krw";
        summary_nl =
            "De Kaderrichtlijn Water verplicht een goede toestand van waterlichamen; uiterste deadline 22 december 2027. Voor Zuid-Holland betekent dit extra druk nabij innamepunten en beschermde waterlichamen.";
        documents =
            record {
              title = "Kaderrichtlijn Water — Rijkswaterstaat";
              url =
                  "https://www.rijkswaterstaat.nl/water/waterbeheer/bescherming-en-gebruik-van-water/drinkwater/kaderrichtlijn-water";
              date = "2027 deadline";
              publisher = "Rijkswaterstaat";
            }
            ∷ [];
      },
    )
    ∷ []

abbrev pub disclaimer_nl : String
disclaimer_nl =
    "Dit scenario is een beleidsmatige verkenning. Het is geen officieel standpunt van de Provincie Zuid-Holland of haar partners."

abbrev pub position_keys : String → Bool → Bool → List String
position_keys knmi_preset involves_housing involves_krw =
    ("drinkwater_zh" ∷ [])
    ++ (if one_of knmi_preset ("Hd" ∷ "Hn" ∷ "Ld" ∷ "Ln" ∷ []) then "klimaat_knmi" ∷ [] else [])
    ++ (if involves_housing then "woningbouw_zh" ∷ [] else [])
    ++ (if involves_krw then "krw" ∷ [] else [])

-- The positions of known keys.
abbrev pub positions_of : List String → List OfficialPosition
positions_of [] = []
positions_of (k ∷ keys) =
    let rest = positions_of keys in
    elim (lookup k official_positions) [ none ↦ rest | some p ↦ p ∷ rest ]

-- All positions, the first being the primary one; `scenario_type` is not read.
unfoldable pub get_official_position : String → String → Bool → Bool → List OfficialPosition
get_official_position scenario_type knmi_preset involves_housing involves_krw =
    positions_of (position_keys knmi_preset involves_housing involves_krw)
