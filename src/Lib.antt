-- ===== src/Lib.antt =====
-- Verification library of go-drive-etl, an ETL pipeline from Google Drive to BigQuery.
--
-- The worker (cmd/worker) lists the files of a Drive folder, registers each in a state store, and runs
-- a worker pool over the files that the store gives as pending. A worker downloads a file, cuts a
-- Markdown document into chunks, labels them with the retrospective's month and period, loads chunks
-- and metadata into BigQuery, and sets the status of the file. At the end the Gold tables are
-- delivered to Drive as CSV files. The command cmd/verify_gold checks such a delivery.
--
-- Which file models which part:
--   Markdown         internal/parser/md.go: MarkdownParser.Parse is `parse`, splitMarkdownSections
--                    and splitLongChunk are the functions of those names; the loops are
--                    `section_loop` and `rune_loop`.
--   Retro            internal/parser/retro_metadata.go: ExtractRetroLabel, NewSprintPolicy and
--                    SprintPolicy.Period. Retro/Calendar is the part of Go's package time that they
--                    use: days as numbers, weekdays, AddDate, and the two layouts.
--   Domain           internal/domain/file.go.
--   Repository       internal/repository: Repository/Postgres is file_repository.go, a table as the
--                    list of its rows, with the order in which a SELECT gives them as an argument
--                    of `list_pending`; Repository/Firestore is firestore_repository.go, a collection
--                    as the list of its documents; Repository/Factory is factory.go. Both stores are
--                    held against the view of a store as a function from IDs to files, and against
--                    each other in Repository/Agreement.
--   Etl              internal/etl/worker_pool.go: Etl/Program is the calls of a worker as a tree of
--                    calls and replies, Etl/Worker the body of the loop in Run, Etl/Rows the rows
--                    that it loads, with ChunkRecord of internal/pb/record.pb.go, Etl/Retry is
--                    insertRowsWithRetry, isRetryableBigQueryError and waitForContext, and Etl/Pool
--                    is Run itself: the sender, the channel, five workers and the counters, as a
--                    step relation; Etl/Pool/Marks follows the statuses in the store through a run,
--                    and Etl/Pool/Drain the table of the PostgreSQL backend. Etl/Schema is the
--                    tables of iac/bigquery.tf that the worker loads, and Etl/Current the view
--                    chunks_current there, as a function from files and positions.
--   Services         the values and interfaces of internal/drive and internal/bq that others use.
--   GoldReport       internal/goldreport/export.go.
--   GoldVerify       internal/goldverify/verify.go and counts.go; GoldVerify/Query is query.go.
--                    GoldVerify/Handover is the Drive client with the calls of Drive over the
--                    API, whose laws are what the API documents of a folder; an export and its
--                    check are followed through under them.
--   Workflow         cmd/verify_gold/workflow.go; Workflow/Command is `run` of
--                    cmd/verify_gold/main.go, Workflow/Dashboard the address of the
--                    dashboard there, and Workflow/Calm the laws of services without faults.
--   Monitoring       cmd/worker/monitoring.go.
--   Pipeline         runPipeline and exportGoldReports of cmd/worker/main.go; Pipeline/Command is
--                    `run` and `main` there. Pipeline/Backends puts both state stores in its place.
--   Bq               internal/bq/client.go: NewClient, ExportTableCSV and loadRows.
--   VerifyDrive      cmd/verify_drive/main.go.
--   Csv              the writer and the reader of Go's package encoding/csv, as internal/bq and
--                    internal/goldverify use them.
--   Drive            internal/drive/client.go.
--   Auth             cmd/auth/main.go: the handlers of /callback, the server and main, as a step
--                    relation.
--   Common           Boolean tests, lists, Go strings and Go errors.
--
-- Conventions. A Go string is the list of its runes; a byte that starts no encoding is a code of its
-- own, 0x110000 or above. An error is a tree of what errors.Is and errors.As look into and its text.
-- A function that returns a value and an error returns a `Result`, or an `Option Error` where there
-- is no value. Times are numbers. An int32 is the number below 2^32 with its bits. Calls of the
-- outside world act on a state `W` that is a parameter, or are the calls of a program, whose replies
-- are anybody's. The databases' and services' faults are arguments.
--
-- Fuel. `rune_loop` has as many rounds as there are runes, and each round takes at least one;
-- `list_loop` counts the pages of a Drive list, and its theorem asks for as much fuel as the service
-- has pages, since a service may go on for ever.
--
-- Not modelled: what the services and their clients do, which are arguments; generated mocks; the
-- protobuf runtime; flags and signals. Log lines are left out.
pub mod Common
pub mod Markdown
pub mod Retro
pub mod Domain
pub mod Repository
pub mod Etl
pub mod Services
pub mod GoldReport
pub mod GoldVerify
pub mod Workflow
pub mod Monitoring
pub mod Pipeline
pub mod Drive
pub mod Csv
pub mod Auth
pub mod Bq
pub mod VerifyDrive
