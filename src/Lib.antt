-- ===== src/Lib.antt =====
-- A verification library for the backend of the drinking-water assistant (src/backend/app).
--
-- The program answers questions about drinking water. A question goes to the chatbot
-- (services/chatbot), which answers from a knowledge base and an answer cache or hands the
-- question to the scenario engine (services/scenario); questions about the data go through a
-- graph of nodes (services/workflow.py, services/nodes) that write SQL, run it and describe
-- what it found. The routes (routers) check who asks
-- (auth.py) and keep a trail (services/audit.py). All paths below are under
-- src/backend/app.
--
-- Files and code:
--   Prelude    lists, dicts, texts and stable sorting as Python has them; `tests` is the
--              ruleset of the Boolean tests on numbers
--   Floats     Python's float as a record of operations with named order laws;
--              Floats.Thousandths is a concrete arithmetic for the examples
--   Chatbot.Models       services/chatbot/models.py: citations, passages, answers
--   Chatbot.Text         services/chatbot/text.py: tokens and compounds; the memo of
--                        _best_segmentation is passed along
--   Chatbot.FaqCache     services/chatbot/faq_cache.py: InMemoryFaqCache as a record of its
--                        two dicts, each method a function from the store to the store
--   Chatbot.SqlFaqCache  services/chatbot/faq_cache_sql.py: the same store as the rows of a
--                        table (models/faq_cache.py)
--   Chatbot.Intents      services/chatbot/intents.py: the intent of a question
--   Chatbot.Retrieval    services/chatbot/retrieval.py: the BM25 ranking over the floats
--   Chatbot.Answer       services/chatbot/answer.py: the text of an answer, with the fallback
--                        from the language model
--   Chatbot.Service      services/chatbot/service.py: from a question to an answer
--   Chatbot.ScenarioRun  services/chatbot/scenario_run.py: the whitelist before the engine
--   Chatbot.Recipe       services/chatbot/recipe.py: recipes of signal weights
--   Filters.Model        models/state.py, models/validation.py and
--                        services/helpers/location_hierarchy.py
--   Filters.Queries      services/helpers/filter_queries.py: the SQL texts and values
--   Filters.Candidates   services/helpers/filter_candidates.py
--   Filters.Validation   services/helpers/filter_validation.py: both phases
--   Filters.Node         services/nodes/validate_filters.py and base.py: the node with its
--                        events, exceptions and fallback
--   Dictionary           models/dictionary.py
--   Conversation.State   models/state.py, services/helpers/messages.py and the call of a node
--                        in services/nodes/base.py
--   Conversation.IntentNode, SpatialNode, SqlNode, ExecuteNode, MapNode, SourcesNode
--                        the nodes of services/nodes: intent.py, spatial.py,
--                        sql_generation.py, execute_query.py, plan_visualization.py with
--                        describe_results.py, and cite_sources.py with
--                        services/data_sources.py. A node's run is its events with the new
--                        state, or with an exception
--   Conversation.Prompts services/helpers/prompt_helpers.py
--   Conversation.Database, Conversation.Summary
--                        the connection (helpers/db.py, helpers/tables.py) as the list of
--                        the statements executed on it, and the statistics of a result
--   Conversation.Graph   services/workflow.py: edges, a step relation and a run
--   Scenario.Scoring     services/scenario/real_scoring.py: the score of a row of the joins
--                        and the verdict on an area
--   Scenario.Params      ScenarioParams (models.py) and params_to_assumptions (workflow.py)
--   Scenario.Area, Scenario.Positions
--                        services/scenario/area.py and official_positions.py
--   Scenario.Workflow    services/scenario/workflow.py: the nodes of the engine, a run, and
--                        the comparison with a shock
--   Scenario.Uncertainty services/scenario/uncertainty.py: a run under each KNMI'23 preset
--   Scenario.Store       services/scenario/scenario_store.py: the table of saved scenarios
--   Scenario.Feasibility, Scenario.Interventions, Scenario.Compare
--                        the files of those names in services/scenario
--   Access.Auth, Access.Sessions, Access.Audit
--                        auth.py, routers/sessions.py, services/audit.py
-- The Tests modules hold the examples. A child module of a component holds proofs about it.
--
-- How they meet: Chatbot.Service classifies with Chatbot.Intents and ranks with
-- Chatbot.Retrieval; Scenario.Feasibility and Scenario.Compare use the verdicts of
-- Scenario.Scoring; Chatbot.ScenarioRun and Chatbot.Recipe build the ScenarioParams of
-- Scenario.Params, and Recipe is held to the whitelist of ScenarioRun; Filters.Node calls
-- Filters.Validation, which calls Filters.Queries; Conversation.Graph calls every node of
-- Conversation and Filters.Node on one state; Access.Sessions and Access.Audit read the
-- user of Access.Auth; Scenario.Workflow scores with Scenario.Scoring the cells that
-- Scenario.Area chooses, and Scenario.Uncertainty runs Scenario.Workflow.
--
-- Arguments that stand for code outside the sources: the clock, uuid4 (identifiers are
-- fresh where a theorem says so), floats, the database connection,
-- difflib.get_close_matches, the language models, the request to the location server,
-- DuckDB (a statement after those executed so far gives a table or an exception; for the
-- validation of filters, which validations raise), the search of a word in a text, the
-- order of an SQL SELECT without one, the formats of numbers and JSON, math.log and the
-- order of a Python set, the pattern of the levers and those of the sentence splitter, the
-- H3 grid and the data files, the token library, the headers of a request, int() and
-- float() on untyped values. Arguments that stand for other parts of the program:
-- anonymize_pii for the cache, the default corpus and the passages of a card for the
-- answer service, the extraction of scenario parameters for the gate and the engine, and
-- the scenario hash for a card.
--
-- Conventions: an exception, a 401 or a 404 is a value of a result type. A dict is an
-- association list in insertion order. Text functions know the ASCII letters in case
-- mapping. A limit of a list is a natural number. Times and identifiers are texts. Fuel
-- occurs twice: the search over the suffixes of a word (Chatbot.Text) gets one more than
-- the length of the word, and each call works on a proper suffix; a run of the graph
-- (Conversation.Graph) gets eight calls, its longest path.
--
-- Not modelled: the FAQ texts and the corpus, the patterns for personal data, the passages
-- of a scenario card, the SQL audit trail, the inventory of data_sources.py, the
-- statistics of dictionary_service.py, the narrative and the map overlay of a comparison,
-- the scenario hash, PDF export, the routes of chat and feedback, and the frontend. They
-- are prompts and input/output, or follow in a next step.
pub mod Prelude
pub mod Floats
pub mod Dictionary
pub mod Chatbot
pub mod Filters
pub mod Conversation
pub mod Scenario
pub mod Access
