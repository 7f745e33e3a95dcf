-- ===== src/Lib.antt =====
-- A model of o4x, a transactional outbox and inbox library in Go.
--
-- An application inserts a message into a table of its own database; a dispatcher fetches messages from
-- the table and publishes them to a broker. `Core` is the package core/, `Pgx` the repository of
-- contrib/pgx/, `Gorm` those of contrib/gorm/, `Sqs` the publishers of contrib/sqs/, `System` the
-- dispatchers' workers over these, `Consumer` the service of contrib/sqs/consumer/ at the other end of a
-- queue, `App` the example application, `Prelude` the shared helpers, and `Tests` runs at
-- sample inputs.
--
-- core/errors.go is Core/Errors.antt (the errors and `IsRetryable`), Core/Chains.antt (wrapping) and
-- Core/Truncate.antt (`TruncateErrorMessage`), with Core/Utf8Prefix.antt and Core/Truncation.antt about
-- its result. core/model.go is Core/Model.antt and Core/TableName.antt (`ValidateTableName`), with
-- Core/Regex.antt for regexp.MatchString and Core/TableNames.antt about the accepted names, and
-- Core/Backoff.antt (`CalculateNextRetryAt`) over Core/Int64.antt, with Core/Backoffs.antt.
-- core/repository.go and core/publisher.go are the records of Core/Repository.antt, core/hooks.go is
-- Core/Hooks.antt, and core/worker.go is Core/Worker.antt: `processOne` is `process_one`,
-- `handlePublishFailure` is `handle_publish_failure`, and `Run` is `run` over a number of ticks.
--
-- contrib/pgx/repo.go is Pgx/Outbox.antt, one function per method, over Pgx/Rows.antt (the WHERE and SET
-- parts of each query), Pgx/Table.antt (statements on a list of rows) and Pgx/Calls.antt (one call of the
-- server). What the server decides is a parameter of each call: whether the statement runs and whether its
-- answer arrives, the clock, the rows that other transactions hold, the random jitter, the order of
-- returned rows, new ids, and how JSON is read. A statement is atomic, so that several workers are a list
-- of calls: Pgx/Operations.antt. Pgx/Lifecycle.antt has the diagram of states, Pgx/Updates.antt and
-- Pgx/Steps.antt take each call along it, and Pgx/Runs.antt and Pgx/Insertion.antt take any list of calls.
--
-- contrib/sqs/publisher.go is Sqs/QueueMap.antt (`EventTypeQueueMap`), with Sqs/Prefixes.antt and
-- Sqs/Routes.antt about it, Sqs/Messages.antt (what is sent, and `Publish`) and Sqs/Batch.antt
-- (`PublishBatch` of `BatchPublisher`), with Sqs/Confirmations.antt and
-- Sqs/BatchResults.antt about its results; Sqs/MultiBatch.antt,
-- Sqs/GroupResults.antt and Sqs/MultiResults.antt are those of `MultiBatchPublisher`. The client of the SDK
-- is a parameter. core/batch_dispatcher.go is Core/BatchWorker.antt: `processBatch` is `process_batch` and
-- `runBatchWorker` is `run_batch_worker`; a panic of the goroutine is `none`. System/BatchRun.antt puts the
-- two together. System/BatchRows.antt, System/BatchLoop.antt and System/BatchFate.antt put the batch dispatcher
-- on the repository of contrib/pgx and follow the row of one message through a batch.
--
-- core/dispatcher.go is Core/DispatcherConfig.antt (`NewDispatcher` on its configuration, in 64-bit
-- durations), with Core/Configs.antt about what it accepts, and Core/Dispatcher.antt (`Start`, `Stop` and
-- `HealthStatus`, with core/health.go), with Core/Health.antt. The same parts of core/batch_dispatcher.go
-- are Core/BatchConfig.antt, Core/BatchConfigs.antt and Core/BatchLife.antt. Core/Requeue.antt is
-- `runRequeueWorker` of both, and System/Requeue.antt takes it over contrib/pgx/. What the defaults have in
-- common is in Core/Defaults.antt, and what `Start` and `Stop` have in common is the interface of
-- Core/Switch.antt, which the two dispatchers and the consumer service fill. core/shutdown.go is
-- Core/Shutdown.antt.
--
-- core/inbox_repository.go is Core/Inbox.antt, and contrib/pgx/inbox_repo.go is Pgx/Inbox.antt, with
-- Pgx/InboxKeys.antt about the rows of one event and Pgx/InboxMemory.antt about any calls. The options of
-- contrib/pgx/config.go and the constructors are Pgx/Config.antt, with Pgx/Configs.antt, and the helpers
-- that insert a Go value as JSON are Pgx/Json.antt.
--
-- contrib/gorm/ is Gorm/Outbox.antt and Gorm/Inbox.antt over Gorm/Orm.antt, an interface of the calls of
-- gorm.io/gorm with what its documentation says of them: each is one statement on the connection, `First`
-- finds a row where at most one passes, and `Create` fills in defaults. Gorm/Queries.antt has the conditions and
-- the assignments of the outbox's queries, column by column; what the server does with a statement is that of
-- contrib/pgx, and the inbox's statements are those of Pgx/Inbox.antt in other words.
-- Gorm/Config.antt has the constructors, and Gorm/Json.antt the helpers.
-- Gorm/OutboxSame.antt, Gorm/InboxSame.antt and Gorm/Insert.antt compare the two packages.
--
-- contrib/sqs/consumer/ is Consumer/Message.antt (model.go and `parseSQSMessage`), Consumer/Hooks.antt,
-- Consumer/Router.antt (handler.go), Consumer/Registry.antt, Consumer/Config.antt and Consumer/Life.antt
-- (`NewService`, `Start`, `Stop`, `HealthStatus`), and Consumer/Service.antt: `processMessage` is
-- `process_message`, `handleFailure` is `handle_failure`, `pollAndProcess` is `poll_and_process`. The branch
-- of `pollAndProcess` with a goroutine for each message is the step relation of Consumer/Pool.antt; a
-- goroutine's steps are its start with `OnConsumeStart`, its call of the handler, and what stands behind it. Consumer/Delivery.antt,
-- Consumer/Routing.antt, Consumer/Settling.antt and Consumer/PoolRuns.antt are about these.
--
-- System/OneMessage.antt and System/Fate.antt follow one message through `processOne`, and
-- System/StaleWorker.antt a worker whose message was revived meanwhile.
--
-- Texts are lists of bytes. Times and durations are natural numbers of microseconds, counters natural
-- numbers; the overflow of an interval in the server is an error of the statement. The matches of the
-- redaction's regular expressions are a parameter. Loops are structural: `run` has the number of ticks
-- before the context is cancelled, `run_consumer` the number of rounds, and the loop of `TruncateErrorMessage` counts down the length that it
-- keeps; `%d` prints at most 20 digits, which 64 bits need.
--
-- examples/app/ is the tree `App`. App/Store.antt has the rows of examples/app/internal/domain/ and the tables of
-- examples/app/migrations/, and App/Actions.antt what the services do with them: statements, `pool.Begin`,
-- `tx.Commit` and the deferred `tx.Rollback`, with App/Actions/Rules.antt and
-- App/Actions/Transactions.antt about what such calls ensure. examples/app/internal/repository/ is
-- App/OrderRepository.antt, App/InventoryRepository.antt, App/NotificationRepository.antt and
-- App/UserRepository.antt over App/Statements.antt; examples/app/internal/service/ is App/Events.antt (rows and
-- events made of a request) and App/Services.antt: `CreateOrder` is `create_order`, `ConfirmOrder` is
-- `confirm_order`, `SendNotification`, `RegisterUser` and `UpdateUser` likewise. App/Publishing.antt,
-- App/Outcome.antt and App/Effects.antt are about what the services share, App/Stock.antt and
-- App/StockRules.antt about the stock, and App/CreateOrder.antt, App/ConfirmOrder.antt and
-- App/OtherServices.antt about each service. App/Requests.antt takes any requests together with any calls of
-- dispatchers; App/Footprints.antt, App/Soundness.antt, App/ConfirmedOnce.antt, App/Pending.antt,
-- App/Balance.antt, App/BalanceConfirmed.antt and App/Reservations.antt are about these. Quantities are signed,
-- as in the source, and the columns of the stock are natural numbers, as their constraints make them.
-- examples/app/internal/consumer/ is App/Handlers.antt and, for notification.sms and notification.push,
-- App/Notifications.antt; App/InboxRules.antt, App/ProcessOnce.antt, App/HandledOnce.antt and App/Deliveries.antt
-- are about the handlers with a transaction, App/InboxAnswers.antt and App/Once.antt about the others.
--
-- Not modelled: logging, tracing and durations of hooks; `GenerateID`, which calls a library and is a field of a call; the
-- options of contrib/gorm/config.go, which repeat those of contrib/pgx/config.go; core/clock.go, which nothing reads;
-- schema/ and cmd/, which are text of DDL and a command line; of examples/app/, the commands, the
-- HTTP handlers, the metrics and the simulated delays; and transactions of the example that overlap: they come one after
-- another.
pub mod Prelude
pub mod Core
pub mod Pgx
pub mod Sqs
pub mod Consumer
pub mod Gorm
pub mod System
pub mod App
pub mod Tests
