-- ===== src/Conversation/SourcesNode.antt =====
-- services/nodes/cite_sources.py and services/data_sources.py: the sources under an answer, from the
-- tables that its SQL names. `re.search` of a name between word boundaries and the metadata files of
-- the themes are parameters. The inventory `build_kennisbasis` is left out.
use onegov2_spatial_assistan.Prelude.{
  String, Bool, true, false, ◌||◌, Option, none, some, List, [], ◌∷◌, ◌++◌, ◌==◌, Dict, lookup,
  lookup_or, insert, map, one_of, sorted_set, sort_by, text_le, has_prefix, lower, is_empty, keep,
  eqb, if◌then◌else◌,
}
use Prim.Native.Char.{code}
use onegov2_spatial_assistan.Dictionary.{DataDictionary, Theme, TableInfo}
use onegov2_spatial_assistan.Filters.Queries.{append_under}
use onegov2_spatial_assistan.Conversation.State.{
  ConversationState, SourceEntry, CustomEvent, Ran, Called, call_step, or_empty,
}

-- A row of THEME_SOURCES.
pub record Publisher : Type 0 where
  pub publisher : String
  pub url : String
  pub licence : String

-- The search of a table name in the SQL, and the metadata of the themes: the names of their tables,
-- or an exception.
pub record Environment : Type 0 where
  pub appears_in : String → String → Bool
  pub theme_metadata : Option (Dict (List String))

abbrev pub theme_sources : Dict Publisher
theme_sources =
    (
      "drinkwaterzekerheid",
      record {
        publisher = "Provincie Zuid-Holland — Drinkwaterzekerheid";
        url = "https://www.pzh.nl/regiovisie-waterprogramma-2022-2027";
        licence = "PZH open data";
      },
    )
    ∷ (
      "gebiedsviewer",
      record {
        publisher = "Provincie Zuid-Holland — Gebiedsviewer";
        url = "https://www.zuid-holland.nl/loket/kaarten/";
        licence = "PZH open data";
      },
    )
    ∷ (
      "cbs",
      record {
        publisher = "CBS — Vierkantstatistieken";
        url =
            "https://www.cbs.nl/nl-nl/dossier/nederland-regionaal/geografische-data/kaart-van-100-meter-bij-100-meter-met-statistieken";
        licence = "CBS open data";
      },
    )
    ∷ (
      "lgn",
      record {
        publisher = "Landgebruik Nederland (LGN) — Wageningen Environmental Research";
        url =
            "https://www.wur.nl/nl/onderzoek-resultaten/onderzoeksinstituten/environmental-research/faciliteiten-tools/kaarten-en-gis-bestanden/landgebruik.htm";
        licence = "WUR / open data";
      },
    )
    ∷ (
      "woondeals",
      record {
        publisher = "Woondeals Zuid-Holland (incl. PMIEK, stikstof, luchtkwaliteit)";
        url = "https://www.rijksoverheid.nl/onderwerpen/volkshuisvesting/woningbouw/woondeals";
        licence = "Rijksoverheid / PZH open data";
      },
    )
    ∷ (
      "pdok",
      record {
        publisher = "PDOK — Publieke Dienstverlening Op de Kaart";
        url = "https://www.pdok.nl";
        licence = "open data";
      },
    )
    ∷ []

abbrev pub table_theme_hints : Dict String
table_theme_hints =
    ("verzilting", "gebiedsviewer")
    ∷ ("overstromingen_kwetsbaarheid_panden_na_dijkdoorbraak", "gebiedsviewer")
    ∷ ("bodemdaling_bodemdaling_wegen", "gebiedsviewer")
    ∷ ("natuurlijke_spons_kansrijk", "gebiedsviewer")
    ∷ ("zes_uur_zones_drinkwater", "drinkwaterzekerheid")
    ∷ ("drinkwater_infrastructuur", "drinkwaterzekerheid")
    ∷ ("drinkwaterbedrijven", "drinkwaterzekerheid")
    ∷ ("drinkwater_productieketen", "drinkwaterzekerheid")
    ∷ ("toestandsbeoordeling_oppervlaktewaterlichamen", "drinkwaterzekerheid")
    ∷ ("capaciteitskaart_afname_regionaal", "woondeals")
    ∷ []

-- `known.split("_", 1)[0]`
abbrev pub group_prefix : String → String
group_prefix String.[] = ""
group_prefix (String.◌∷◌ c s) =
    let rest = group_prefix s in if eqb (code c) b'_' then "" else String.◌∷◌ c rest

abbrev table_names : List TableInfo → List String
table_names [] = []
table_names (t ∷ tables) =
    let rest = table_names tables in if t.name == "" then rest else t.name ∷ rest

abbrev index_tables : String → List TableInfo → Dict String → Dict String
index_tables theme [] dynamic = dynamic
index_tables theme (t ∷ tables) dynamic =
    index_tables theme tables
      (if t.name == "" then dynamic else insert (lower t.name) theme dynamic)

abbrev pub theme_names : List Theme → List String
theme_names [] = []
theme_names (theme ∷ themes) = table_names theme.tables ++ theme_names themes

abbrev index_themes : List Theme → Dict String → Dict String
index_themes [] dynamic = dynamic
index_themes (theme ∷ themes) dynamic =
    index_themes themes (index_tables theme.name theme.tables dynamic)

abbrev add_names : String → List String → Dict String → Dict String
add_names theme [] index = index
add_names theme (name ∷ names) index =
    add_names theme names (if name == "" then index else insert (lower name) theme index)

abbrev add_themes : Dict (List String) → Dict String → Dict String
add_themes [] index = index
add_themes ((theme, names) ∷ themes) index = add_themes themes (add_names theme names index)

unfoldable pub build_table_theme_index : Option (Dict (List String)) → Dict String
build_table_theme_index none = table_theme_hints
build_table_theme_index (some themes) = add_themes themes table_theme_hints

abbrev keys : Dict String → List String
keys d = map (λ p. p.0) d

abbrev fallback_source : Publisher
fallback_source = record {
  publisher = "Provincie Zuid-Holland";
  url = "https://www.zuid-holland.nl";
  licence = "open data";
}

abbrev hint_by_prefix : String → Dict String → Option String
hint_by_prefix t [] = none
hint_by_prefix t ((known, theme) ∷ hints) =
    if has_prefix t (group_prefix known) then some theme else hint_by_prefix t hints

unfoldable pub theme_for_table : String → Dict String → Option String
theme_for_table table dynamic =
    let t = lower table in
    if has_prefix t "cbs_"
    then some "cbs"
    else if has_prefix t "lgn"
    then some "lgn"
    else elim (lookup t dynamic) [
      | some theme ↦ some theme
      | none ↦ elim (lookup t table_theme_hints) [
        | some theme ↦ some theme
        | none ↦ hint_by_prefix t table_theme_hints
      ]
    ]

unfoldable pub source_for_theme : String → SourceEntry
source_for_theme theme =
    let src = lookup_or theme theme_sources fallback_source in
    record {
      theme = theme;
      publisher = src.publisher;
      url = src.url;
      licence = src.licence;
      tables = [];
    }

abbrev no_theme : Option String → Bool
no_theme none = true
no_theme (some theme) = theme == ""

unfoldable pub sources_from : List String → List String → Dict String → List SourceEntry
unfolding theme_for_table source_for_theme
sources_from seen [] dynamic = []
sources_from seen (t ∷ tables) dynamic =
    let theme = or_empty (theme_for_table t dynamic) in
    if theme == "" || one_of theme seen
    then sources_from seen tables dynamic
    else source_for_theme theme ∷ sources_from (theme ∷ seen) tables dynamic

unfoldable pub sources_for_tables : List String → Dict String → List SourceEntry
unfolding sources_from
sources_for_tables tables dynamic = sources_from [] tables dynamic

module _ (env : Environment) where
  unfoldable pub known_tables : DataDictionary → List String × Dict String
  unfolding build_table_theme_index
  known_tables dictionary =
      let known = theme_names dictionary.themes in
      if is_empty known
      then (
        keys (build_table_theme_index env.theme_metadata),
        build_table_theme_index env.theme_metadata,
      )
      else (known, index_themes dictionary.themes [])

  unfoldable pub extract_tables_from_sql : String → List String → List String
  unfolding sorted_set
  extract_tables_from_sql sql known_tables =
      if sql == "" then [] else sorted_set (keep (env.appears_in sql) known_tables)

  pub tables_by_theme : List String → Dict String → Dict (List String) → Dict (List String)
  unfolding theme_for_table
  tables_by_theme [] dynamic by_theme = by_theme
  tables_by_theme (t ∷ tables) dynamic by_theme =
      let theme = or_empty (theme_for_table t dynamic) in
      tables_by_theme tables dynamic
        (if theme == "" then by_theme else append_under theme t by_theme)

  abbrev annotated : Dict (List String) → SourceEntry → SourceEntry
  annotated by_theme s = record s { tables = sort_by text_le (lookup_or s.theme by_theme []) }

  unfoldable pub sources_for_sql : String → List String → Dict String → List SourceEntry
  unfolding sources_for_tables extract_tables_from_sql tables_by_theme sort_by
  sources_for_sql sql known dynamic =
      let tables = extract_tables_from_sql sql known in
      map (annotated (tables_by_theme tables dynamic [])) (sources_for_tables tables dynamic)

  unfoldable pub compute_sources : ConversationState → List SourceEntry
  unfolding known_tables sources_for_sql
  compute_sources state =
      let (known, dynamic) = known_tables state.dictionary in
      sources_for_sql (or_empty state.sql_query) known dynamic

  -- `sources` is no field of the state, so that the update changes nothing.
  unfoldable pub run : ConversationState → Ran
  unfolding compute_sources
  run state = (source_events (compute_sources state), some state)
    where
      source_events : List SourceEntry → List CustomEvent
      source_events [] = []
      source_events (s ∷ sources) = CustomEvent.sources_block (s ∷ sources) ∷ []

  unfoldable pub cite_sources : ConversationState → Called
  unfolding call_step run
  cite_sources state = call_step "cite_sources" false (run state) state
