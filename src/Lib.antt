-- ===== src/Lib.antt =====
-- Verification library of the receipt tracker: a Telegram bot queues photos of bank receipts, a worker
-- reads them by OCR, regular expressions and an LLM, and stores them as transactions that an HTTP API
-- lists, edits and exports.
--
-- Which file models which part:
-- Base: shared notation and lemmas. Base.Results and Base.Effects are the result of code that may
--   throw, and of code that may throw and changes a state; a text is a list of UTF-16 code units.
-- Js: what the program uses of JavaScript. Js.Calendar is `Date.UTC`, the `getUTC` methods and
--   `toISOString` by the language's specification, with the calendar's laws in Js.Calendar.Decode.
--   Js.Dates and Js.Numbers are interfaces to `Date` objects and doubles, which the program mostly
--   passes on.
-- Regex: regular expressions as data, and the backtracking match of the language; Regex.Language,
--   Regex.Taking and Regex.Sound say what a match and its groups are.
-- Parsing: src/processing/parsing.service.ts. Parsing.Patterns has its patterns, Parsing.Dates
--   `extractTimestampFromText` and the four date parsers, Parsing.Fields `parseWithRegex` and
--   `extractBankName`, Parsing.Service `parse`.
-- Transactions: src/transactions. Transactions.Entities and Transactions.Dto have the records,
--   Transactions.Fields the helpers of an edit, Transactions.Update `update`, Transactions.Query
--   `buildFilteredQuery`, `findAll` and `getSummary`, Transactions.Service `create`, `findDuplicate` and
--   `export`, and Transactions.Controller the handlers. Transactions.Validation has the decorators of the
--   DTOs and the `ValidationPipe` of src/main.ts, and Transactions.Validation.Documented what Nest and
--   class-validator document of it. Transactions.Store is the record of the calls of TypeORM that the
--   service makes, with their clauses and order as data, and Transactions.Laws what PostgreSQL and TypeORM
--   document of them: a client of the store takes both. Transactions.Bigint is how PostgreSQL reads a
--   text as a bigint. Transactions.Update.Described and Transactions.Update.Edits say what an edit means,
--   column by column, and Transactions.Responses the same of a response.
-- Processing: the rest of src/processing, with src/websocket and the payload of src/queue.
--   Processing.Services is `extractFields` and `extractText`, Processing.Files
--   `resolveTelegramFileDownloadUrl`, Processing.Reading and Processing.Job `processImageJob`, and
--   Processing.Workers the runs of it side by side and again, as steps between its awaited calls, with
--   the attempts of src/queue/queue.service.ts and the concurrency of
--   src/queue/image-processing.worker.ts. Processing.Workers.Ending and Processing.Workers.Draining are
--   about the end of its jobs.
-- Database: src/database/migrations. Database.Tables and Database.Migration are the tables, `up` and
--   `down`, Database.Schema what PostgreSQL and TypeORM document of a `QueryRunner`, and
--   Database.Entities the decorators of src/businesses/entities and src/transactions/entities, which
--   Database.Agreement compares with the tables.
-- Settings: what src/config, src/database/data-source.ts, src/main.ts, src/app.module.ts,
--   src/telegram/telegram.module.ts and src/queue read from the environment, and src/app.controller.ts.
-- Telegram: src/telegram/telegram.service.ts, telegram.update.ts and telegram.controller.ts.
-- Shared: src/shared/filters/global-exception.filter.ts, src/shared/exceptions and
--   src/shared/guards/context-aware-throttler.guard.ts.
-- Scripts: src/scripts/setup-telegram-webhook.ts, and in Scripts.SmokeSettings and Scripts.SmokeTest
--   src/scripts/smoke-test-e2e.ts.
-- Tests: runs of the model, a database in memory that meets Transactions.Laws, and each theorem at a
--   concrete input.
--
-- How they interact: Telegram.Service hands a payload to the queue; Processing.Job takes it, reads a
-- text by Processing.Reading, which calls Parsing.Service, and calls `findDuplicate` and `create` of
-- Transactions.Service, as src/processing/processing.service.ts does. The state of a job is the database
-- and the list of the events sent; that of Processing.Workers adds the queue.
--
-- Fuel: a match may repeat a group as often as the text has units and once more, since a round of a
-- repetition without an upper bound takes a unit at least or is refused. `year_from` walks one year at a
-- time and has as many rounds as the date has days. `decimal` has a round for each unit of its number,
-- and each round divides by ten. The two loops of the smoke test have as many
-- rounds as their pauses fit into the wait and the timeout, and one more.
--
-- Not modelled: the connections of the queue, the order and the delays with which it starts and repeats
-- jobs, and its putting back of jobs whose worker has stopped or stalled; calls that never settle; log lines and the logger of src/shared/log; the bytes of xlsx files; the wiring of the
-- modules, helmet, Swagger and the shutdown hooks in src/main.ts; the settings of the linters. HTTP
-- services, the database, Redis, the validation pipe and Telegram's library are parameters. Instants
-- before 1970 and after 9999 are outside Js.Calendar, and the parser's own guard keeps to 1970..2100.
pub mod Base
pub mod Js
pub mod Regex
pub mod Parsing
pub mod Transactions
pub mod Processing
pub mod Telegram
pub mod Shared
pub mod Scripts
pub mod Database
pub mod Settings
pub mod Tests
