-- ===== src/Lib.antt =====
-- BurnMon: a token and cost monitor for AI coding sessions.
--
-- The program reads the transcripts that the coding agents write. An adapter (internal/adapter)
-- turns the lines of a file into the events and tool calls of internal/schema; the ingest of
-- internal/dataset decides which files to read from where, and stores what was read in the SQLite
-- tables of internal/store, with a cursor for each file. internal/watch says which files have grown.
-- internal/live builds the page of the running sessions from the stored events and asks
-- internal/stage what each session is doing; internal/agg rolls sessions up by day, week and month;
-- internal/merge combines the export files of several machines.
--
-- The files, and the code that they model:
--   Base                 lists, texts, int64 and time.Time: the parts of Go that the models share
--   Schema               internal/schema/event.go: Event, ToolCall; isTurn, contextOf; the table keys
--   Paths                sessionIDFromPath of internal/store/store.go, with path/filepath's Base and Ext
--   Calendar             Go's dates and ISO weeks; isoWeek, parseDay of internal/merge/merge.go
--   Store                internal/store/store.go: a database is the record of its tables (Store.Db)
--     Events, ToolCalls  UpsertEvents, UpsertToolCalls: the batch, its conflict rule, its transaction
--     Cursors, Prune     Cursor, SetCursor, DeleteEventsForOtherPaths
--     Repair             ResetCollapsedCodexSessions, PurgeAuditSessions, ReownEvents
--     Migrations         internal/store/migrations/migrations.go, runMigrations: schemas as columns
--     Meta               Meta, SetMeta
--     Scores, Daily      ForecastScore, InsertForecastPlan, RecordForecastActual; dailyTokenTotals
--     Lists              EventsForSession, ToolCallsForTurn, SessionTotals
--   Forecast             internal/forecast/forecast.go: EnsureScored; the plan, live and history lines
--   Claude               internal/adapter/claude/claude.go: Parse and its helpers
--     Json, Lines        decoded JSON; what one line of a transcript changes
--     Parse              the events, the tool calls and the offset of a read of a transcript
--     Cloud              internal/adapter/claude/cloud.go: the drop files; Parse, of either kind of file
--   Codex                internal/adapter/codex/codex.go: Parse and its helpers, on the JSON of Claude.Json
--     Meta, Lines        scanHeaderMeta, the rate limits, the key of a line; what one line changes
--     Parse              the events, the tool calls and the offset of a read
--   Dataset              internal/dataset/dataset.go: adapterForPath, the lists of paths, dedupSessions
--     FromStore          internal/dataset/fromstore.go: SessionsFromEvents, buildSession, the active time
--     Ingest             ingest: which files are read from which offset, and what is stored
--   History              internal/history/history.go: Build with its filter, buckets and rows by client
--   VendorStrip          internal/vendorstrip/vendorstrip.go: Build; VendorStripTotals of the store
--   WindowState          cmd/burnmon-dev/windowstate.go: loadWindowState
--   Watch                internal/watch/tail.go: Track and the tail poll; internal/scan/filter.go
--   Insight              internal/insight/insight.go: Analyze and its rules, ContextTurn, RunwayText
--   Live                 internal/live/live.go: buildChart, its window and maps; ApplyStages
--     Turns              buildTurns, BuildTurns, BuildTurnDetail, BuildSessionInsight
--     Snapshot           BuildSnapshot's sessions, and which of them stands under which
--     Lifetime           ApplySessionTotals
--   Stage                internal/stage/stage.go: Classify and ToolStage
--   Agg                  internal/agg/agg.go: Build; ToolGroup of internal/scan/types.go
--   Merge                internal/merge/merge.go: Merge, over the Row and Doc of internal/export
--
-- How the code is read. An int64 is its 64-bit pattern, and its sums wrap. A time is the number of
-- nanoseconds since Go's zero time. A map is a list of pairs, visited in an order that the statements
-- do not depend on, unless a file says so. A statement of SQL is a function on the list of a table's
-- rows; a call of the database that can fail is a Boolean argument (Store.Db.Faults), and what it
-- fails in is a transaction that leaves the database as it was. Ingest takes the adapters'
-- Parse as a parameter, as it takes os.Stat; the JSON decoder, the sizes of files, the owner and client
-- rules, the local calendar and floating-point costs are parameters too.
--
-- Fuel. The batches of ingest are counted by the number of elements, of which every batch uses at
-- least one, so that none is left out. The day loops of Forecast take a number of rounds, and end as
-- soon as it passes the distance between the days. All else recurs on its data.
--
-- Not modelled: the parsing of the Copilot and Hermes adapters, the walk over directories, prices and
-- costs, the advisor page, the rest of the windows and the command line, and the store's query of
-- events since a time. Where a query compares stored times, which are texts, that order is a
-- parameter, and so is SQLite's julianday.
mod Base
pub mod Agg
pub mod Schema
pub mod Calendar
pub mod Claude
pub mod Codex
pub mod Dataset
pub mod Forecast
pub mod History
pub mod Insight
pub mod Live
pub mod Merge
pub mod Paths
pub mod Stage
pub mod Store
pub mod VendorStrip
pub mod Watch
pub mod WindowState
