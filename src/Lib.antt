-- ===== src/Lib.antt =====
-- A verification library for DriveNow, the car rental backend under app/.
--
-- The program is a web service over two tables, cars and rentals. A request is validated by the DTOs of
-- app/schemas, a router calls one method of `CarService` or `RentalService`, the method works on the
-- tables through the repositories within one transaction, and after the commit it writes a log line and
-- publishes a domain event, best effort. app/api turns domain errors into status codes.
--
--   Models, Models/Tables   app/models: `CarStatus`, the rows of both tables, the constraints of the
--                           schema (`Satisfies`), and what a flush writes
--   Schemas                 app/schemas: the DTOs and the validators of request bodies; Schemas/Bodies: the
--                           members of a JSON object before, with pydantic's conversion of one value
--                           (`Pydantic`) as a parameter
--   Database                SQLAlchemy's `Session` and the database: a parameter (`Database`) with its
--                           documented behaviour (`IsDatabase`) and, where said, a connection that holds
--                           (`IsUp`); Database/Reference shows an instance in memory
--   Messaging               app/messaging/publisher.py: events, and a publisher as a parameter
--   Messaging/Rabbit        app/messaging/rabbitmq.py: `RabbitMQPublisher`, over pika as a parameter
--   Messaging/Consumer      app/messaging/consumer.py: the check of an envelope, the settlement of a
--                           delivery, and the loop of `main` over its rounds
--   Messaging/Consumer/Signals
--                           the same loop statement by statement (`step`), with the signals that may
--                           interrupt it anywhere
--   Messaging/Consumer/Topology
--                           what `_consume_once` declares, and the way of an event from the publisher
--                           through a broker, a parameter (`IsBroker`), to the consumer's log
--   Action                  a method call: it returns or raises, and changes the session, the publisher,
--                           the row locks asked for and the log
--   Repositories            app/repositories: one function per method of the SQLAlchemy repositories;
--                           Repositories/Interface: the protocols with what they promise
--   Services                app/services and app/core/unit_of_work.py: the exceptions, the transaction,
--                           and one function per method, whose transaction's body is a function of its own
--   Fleet                   what each method promises, as a function on tables (`Verdict`), and the
--                           invariant of the fleet (`IsConsistent`): a car is in use if and only if it has
--                           an open rental, and then exactly one
--                           Fleet/Revision: the promise of `update_car` again, from the car and the
--                           body alone
--   Refinement              how the methods relate to those promises, on every branch and for every
--                           failure of the database or the publisher
--   History                 sequences of calls
--   Lifecycle               what the methods mean over several calls: renting, returning, retiring
--   Locking                 the order of the row locks of `RentalService.end_rental`
--   Interleaving            the methods of both services again, one statement at a time, in transactions
--                           that overlap: Points (where a transaction stands, and its locks), Statements,
--                           Writes, Steps (the step relation); then what each transaction knows of the
--                           tables (Facts), what a commit leaves alone (Frame), and Safety
--   Api                     app/api/cars.py, rentals.py and errors.py: a request from the validation of
--                           its parts to the status code; Api/Receiving: the request before, as it is sent;
--                           Api/Contract: the return types that the routes declare;
--                           Api/Storable: which requests PostgreSQL can take
--   Api/Metrics             app/api/metrics.py: the gauges of a scrape
--   Api/Middleware          app/api/middleware.py: the samples of a request, around any application
--   Application             `create_app` of app/main.py: routers, handlers of exceptions and the middleware
--                           around them, with FastAPI as a parameter (`IsFramework`)
--   Process                 app/core/config.py, app/core/logging.py, app/core/db.py, app/api/deps.py and
--                           the lifespan of app/main.py: what one process creates once and shares
--   Migrations              alembic/versions/0001_create_cars_and_rentals.py next to the metadata of
--                           app/models, what a database then enforces, and a run of alembic/env.py
--                           (Migrations/Env for its URL, Migrations/Runs for its transaction)
--   Tests                   a sample fleet, and the theorems at concrete inputs
--
-- `now` is the transaction's timestamp, `instant` and `today` are what `datetime.now` and `date.today`
-- return: all are arguments. A date is its ordinal. No model needs fuel: the loop of the publisher is
-- recursion on the retries that are left, and the loop of the consumer recursion on the rounds or the
-- happenings that it meets.
--
-- There are two models of a service method. In Services it runs alone, on a session whose flush and
-- commit may fail, with its log and its events; a SELECT is taken not to fail there, so the keys that it
-- binds are those that an INTEGER column can hold, and the texts have no NUL (Api/Storable). In Interleaving its
-- statements alternate with those of other transactions, and an error of the database at any statement
-- is a step that rolls back. Both are compared with the promises of Fleet. PostgreSQL's part of
-- Interleaving is its documented READ COMMITTED isolation: a statement reads what is committed, FOR
-- UPDATE waits for the holder of the row and then reads it, and a commit shows all writes at once.
--
-- The services call the repositories' functions themselves: the records of Repositories/Interface say
-- what a service may rely on, and are not an argument of it. In Application, FastAPI's part is what it
-- documents: which route a request matches is given, the route is put into the scope before the endpoint
-- runs, a `DomainError` is handled inside the middleware and any other exception outside.
--
-- Not modelled: the text of log lines, messages and metrics, the parsing of the environment by
-- pydantic-settings, what autogenerate reads of the metadata, relationships and debug representations of
-- the ORM, and the container files: all mostly call libraries. An offline run of env.py is translated; what
-- alembic then writes to its output is the library's.
pub mod Base
pub mod Models
pub mod Schemas
pub mod Database
pub mod Messaging
pub mod Action
pub mod Repositories
pub mod Services
pub mod Fleet
pub mod Refinement
pub mod History
pub mod Lifecycle
pub mod Locking
pub mod Interleaving
pub mod Process
pub mod Migrations
pub mod Api
pub mod Application
pub mod Tests
