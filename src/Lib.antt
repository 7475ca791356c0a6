-- ===== src/Lib.antt =====
-- Verification library of the World Cup AI Scout backend (Python, under backend/src).
--
-- A chat turn goes through these parts. The send endpoint reserves the conversation in Redis,
-- stores the user message, announces it on the conversation's stream and enqueues a job. The job
-- runs the tool-execution loop against the LLM and writes each event of the turn to the stream.
-- Readers attach to the stream at a cursor and get each entry as a frame. The prompt of the turn is
-- rebuilt from the stored messages within a token budget. Beside the chat, ingestion jobs load the
-- tables, match the roster's players to real ones, and keep their progress in a job record.
--
-- Files and the code that they model:
--   * Chat/Completion: the shapes of backend/src/infra/openrouter/schemas.py.
--   * Chat/Client: backend/src/infra/openrouter/client.py, the lines of a stream into the chunks that
--     the tool loop reads.
--   * Chat/ToolLoop: backend/src/domain/chat/services/tool_call_executor.py. Defs has the data, the
--     aggregator and one tool call, Loop the iterations; a Python generator that yields, appends and
--     may raise is a state of events, messages and segments with a result. Rules has the rules for
--     what every run of such a program ensures; Stream, Visible, Outcome, Protocol and Totality
--     prove from them.
--   * Chat/History: backend/src/domain/chat/services/chat_history_rebuild_service.py and the message
--     of backend/src/domain/chat/model/message.py.
--   * Chat/Service: backend/src/domain/chat/services/chat_service.py, one turn from the prompt to the
--     persisted reply; Parts has its pure functions and Start the calls of the send endpoint. What
--     each call to Postgres and Redis raises is an argument.
--   * Chat/Events: backend/src/domain/chat/services/chat_turn_events.py, on the values of Json.
--   * Chat/Frames: backend/src/api/v1/chat/sse.py and backend/src/api/v1/chat/dtos/chat_dtos.py.
--   * Chat/Cursor, Chat/Stream and Chat/Entries: backend/src/infra/task_queue/chat_streams.py. Redis
--     is a record of commands and laws.
--   * Chat/Turn: send_message of backend/src/api/v1/chat/routers/conversation_router.py and
--     generate_chat_reply_task of backend/src/infra/task_queue/chat_tasks.py, as the steps of any
--     number of requests and workers on one conversation.
--   * Ingestion/Job: backend/src/domain/ingestion/model/ingestion_job.py.
--   * Ingestion/Matching: backend/src/domain/ingestion/services/player_identity_matching_service.py.
--   * Ingestion/Links: backend/src/infra/postgres/repositories/player_identity_link_repository.py and
--     backend/src/domain/ingestion/services/identity_link_review_service.py, on a table of rows.
--   * Ingestion/SeasonStats: backend/src/domain/ingestion/services/season_stat_aggregation_service.py.
--   * Ingestion/Csv: backend/src/domain/ingestion/services/csv_ingestion_service.py, the parsing and the
--     chunked upsert of one table.
--   * Ingestion/Values: backend/src/domain/ingestion/services/csv_parsers.py.
--   * Ingestion/Specs: the tables of synthetic_table_specs.py, transfermarkt_reference_specs.py and
--     transfermarkt_detail_specs.py of backend/src/domain/ingestion/services.
--   * Ingestion/Upload: the upload jobs, synthetic_ingestion_service.py,
--     bulk_synthetic_ingestion_service.py, bulk_synthetic_upload_specs.py and job_progress_tracker.py
--     of backend/src/domain/ingestion/services, with their tasks of
--     backend/src/infra/task_queue/tasks.py.
--   * Ingestion/Scope: the scoping of rows and the blanking of references in
--     backend/src/domain/ingestion/services/transfermarkt_detail_sync.py.
--   * Ingestion/Roster: backend/src/domain/ingestion/services/roster_scoping_service.py.
--   * Ingestion/Rematch: backend/src/domain/ingestion/services/identity_link_rematch_service.py.
--
-- Bounds: the tool loop makes at most five iterations, as MAX_ITERATIONS says, and recurses on that
-- number; every other function recurses on its data, so that there is no fuel. Token counts,
-- cursors' numbers and ids are unbounded in Python and are natural numbers here. Confidences are
-- counted in thousandths, and similarity scores in 2^-46ths, the grid of a double from 64 to 128.
--
-- Parameters, for code outside the repository: the HTTP exchange with the LLM, what json.loads makes
-- of a line, the validation of tool arguments and the handlers, the token counter, the normalization
-- and the similarity of names, the real players that exist, Python's strip and its conversions of
-- numbers and dates, the clock, the reading of CSV files, the upsert of the database, JSON's texts,
-- Python's decimal digits, and the Redis commands with what their documentation says. The tool loop
-- takes any client, of which Chat/Client is one.
--
-- Expiries and failures: the in-progress flag expires after 300 seconds, renewed when a job starts,
-- and a stream 900 seconds after the end of a turn. Chat/Turn has both as steps without clocks, and
-- says of a run whether they come on time; the code does not ensure that they do, as a job may be
-- queued for longer than the flag lasts. In the ingestion every call of a repository may raise.
--
-- Not modelled: the expiry of the cached history, cancellation, logs, the text of JSON, SQL, HTTP,
-- the loop that sends stream entries to a reader, the categorization of conversations, the order of
-- the stages of a Transfermarkt sync, authentication, analytics and the user interface.
mod Prelude
pub mod Json
pub mod Chat
pub mod Ingestion
