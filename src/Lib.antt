-- ===== src/Lib.antt =====
-- layer-backend: the service between Business Central and e-com. It reads messages on products and
-- stock from Kafka, keeps what each shop holds, calculates for every variant and region the quantity
-- that e-com may sell, and sends that number to e-com over Kafka.
--
-- The parts, and the files that model them:
--
-- * The platform. Platform holds what the code calls and does not contain: the Prisma client of each
--   table (a model with a find, a sum, an upsert and so on, and their laws over the list of rows), the
--   failures of the calls, the clock, the environment, `fetch`, the send of kafkajs,
--   the decimals of Prisma, and the decoding of a payload by class-transformer and class-validator. Platform/Laws derives how each write is read back, and
--   Platform/Simple is a platform whose tables are lists, on which the theorems are tried.
-- * The state. World is the database of prisma/schema.prisma (rows in Schema), what was sent to Kafka,
--   and the guards of the two workers. A call of the database may fail, by the number of calls made so
--   far, with any exception; `transaction` undoes its writes then, as `$transaction` does. Exec is the
--   monad of an asynchronous method, which keeps what was written before a rejection.
-- * Errors and messages. Shared/Errors is handleExceptionCode of src/shared/utils/utils.ts,
--   Shared/Kafka the producer of src/shared/kafka/kafka-producer.service.ts, Shared/KafkaAdmin the
--   preparation of the topics, Shared/Filters the filter of Prisma errors, and Shared/Config the lists
--   in src/shared/config/app-config.service.ts.
-- * src/modules/stock. Stock/Calculate is the formula, Stock/Recalculate the run of a calculation,
--   Stock/Apply the apply services and the shop resolver, Stock/Service the facade, Stock/Retry the
--   retry worker, and Stock/Repositories the repositories. The other files of
--   Stock are named for what their theorems are about, except Stock/Read, which is the read model of a
--   SKU with its response, and Stock/Controller, the manual recalculation.
-- * src/modules/ecom. Ecom/Repositories is the results and the outbox, Ecom/Service the facade,
--   Ecom/Publisher the drain.
-- * src/shared/ecom-api. EcomApi is the reservations call with its retries.
-- * src/modules/bc-events. BcEvents/Dto is the messages, BcEvents/Mapping the commands they become,
--   BcEvents/Inbox the inbox, BcEvents/Ingest the ingest of one message, BcEvents/Controller the Kafka
--   handlers, and BcEvents/Simulator the controller that injects messages outside production.
-- * src/modules/pipeline and src/modules/health. Pipeline/Repository, Pipeline/Service and
--   Pipeline/Response are the view of the flow, Health the health endpoint. Joins is what `include` of
--   the Prisma client adds to a row.
-- * The service as a whole. System/Steps is a step relation: a message is handled, a drain or a sweep
--   runs, a recalculation is requested, or the process is restarted, each run to its end. The other
--   files of System say what holds wherever such steps lead. System/Flights takes a run apart at its
--   transaction: what it has decided is in flight while other runs and the rest of the service go on.
-- * visualizer. Visualizer is lib/format.ts, Visualizer/Types and Visualizer/Client are api/types.ts and
--   api/client.ts, Visualizer/App the state and the handlers of App.tsx, and the other files of
--   Visualizer are the components, each as the data that it shows.
-- * tools/mock-ecom.mjs. MockEcom is the stand-in for e-com, as a function from a request and its state
--   to a reply and a state; MockEcom/Serves puts the reservations client against it.
--
-- A stock message is recorded in the inbox, applied with its recalculation tasks in one transaction,
-- and then each affected pair of a variant and a region is calculated: the reservations are read from
-- e-com, the result is stored with an outbox row, and the outbox is drained to Kafka. Frames says which
-- tables each method leaves alone, World/Keeps and World/Ends carry a property through a method,
-- World/Reads does so for methods that only read, and Tests holds the theorems at concrete data.
--
-- Numbers: quantities are integers without a bound, as the code's own arithmetic on them is exact in the
-- range of the database's columns; identifiers, times and offsets are native numbers. The loop of the
-- reservations call is given its three attempts, which is RETRIES + 1, the wait for the leaders its
-- twenty, and every other loop is over a list; nothing runs out.
--
-- A time of the visualizer is its milliseconds, and an offset that the simulator makes up the number
-- that its digits are.
--
-- Not modelled: the wiring of NestJS, logging, timers and waiting times, the validation of the
-- environment, the markup of the visualizer with visualizer/src/components/ui.tsx, and formatTime of
-- visualizer/src/lib/format.ts, which is the date format of the browser. Reads that the code makes in
-- parallel are made one after the other. The steps of System are whole operations. The turns of
-- System/Flights are parts of them: the reads and the decision of a run are one turn, which loses
-- nothing for the numbers, as the decision only looks at what was read and the only write among them is
-- one of the tasks; the transaction of a run, that of a message, and the writes of a drain are one each.
pub mod Base
pub mod Shared
pub mod Exec
pub mod Schema
pub mod Platform
pub mod World
pub mod BcEvents
pub mod Stock
pub mod Ecom
pub mod EcomApi
pub mod Frames
pub mod Joins
pub mod Health
pub mod MockEcom
pub mod Pipeline
pub mod System
pub mod Visualizer
pub mod Tests
