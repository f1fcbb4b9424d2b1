-- ===== src/Lib.antt =====
-- The BridgePay backend: a wallet with transfers between users, deposits and payouts through M-Pesa, Airtel
-- Money and Stripe, and the accounts, sessions and notifications around them (app/, Python, FastAPI over
-- SQLAlchemy).
--
-- How the code is modelled. A request works on one database session: an `Action` takes the tables (`Db`) and
-- gives a result, a value or the exception that was raised, and the tables as they are in the session then.
-- A row that is changed before an exception stays changed until the router commits or rolls back; `endpoint` is
-- that last step, with the errors behind which the route commits. An ORM object is its row, and is changed by
-- id; a Payout is an object beside its row, since a converted amount is rounded in the row alone. Money that a
-- client names is in whole cents, a Decimal is a count of 10^-10, and a balance is a signed number of cents.
-- Integers of Python and NUMERIC columns are unbounded here. Loops are recursion on lists, so that no fuel is
-- needed. A request is one step: the row locks are held to its end, and steps do not interleave. Behind
-- a lock the row's present state is read.
--
-- What is not in app/ is a field of `Outside`, an argument: the clock, the rate feed, the rounding of a
-- NUMERIC(18, 2) column, hashes, JSON and Stripe's check of an event. A rate of the feed is a number
-- that is not negative; the code does not check that. `isdigit` is Unicode 15.0's, `upper`
-- and `int` are those of ASCII text. `RoundsToNearest` is what is asked of the
-- rounding. The answers of M-Pesa, Airtel, Stripe and Google are arguments of the routes that ask for them.
--
-- Files and the code that they are about:
--   Common, Errors, Json        shared tests, text, tables; exceptions; JSON values
--   Schema, Outside, Session    models.py of every module; what is outside; the session (app/db/session.py)
--   Core                        app/core: config.py, countries.py, security.py, dependencies.py,
--                               exchange_rate_client.py, the phone normalizers, whose `isdigit` is Unicode 15.0's
--   Requests                    the bodies of requests: schemas.py of users, auth, transfers, payouts, deposits
--   Email                       app/core/email.py and the tasks.py of auth, transfers and notifications
--   Accounts, Users, Audit      app/modules/accounts, users/repository.py, audit/service.py
--   Notifications, Transactions, Admin    the modules of those names
--   Transfers                   app/modules/transfers: service, repository and router
--   Providers                   app/core: mpesa_client.py, airtel_client.py, google_client.py; the requests that
--                               payouts/service.py and deposits/service.py send, and how they read the answers
--   PaymentMethods              app/modules/payment_methods
--   Payouts                     app/modules/payouts: Wallet (deduction and reversal), Mobile, Stripe, Callbacks,
--                               Router; the rest are proofs
--   Deposits                    app/modules/deposits: Credit, Intake, Callbacks, Router; the rest are proofs
--   Webhooks                    app/modules/webhooks, and the signature check of app/core/airtel_client.py
--   Auth, Profile               app/modules/auth, and users/service.py with users/router.py
--   System                      app/main.py: the routes that write, as one machine
--   Untouched, Session.Keeps, Session.Reads, Session.Ends, Session.Gives    rules for proofs about actions
--   Payouts.Lifecycle, System.Life    rules for what a payout may become, in a call and over a run of the machine
--   Examples                    runs at concrete inputs
--
-- The server that a request goes to, base64, RSA, urlencode and jose.jwt are parameters of Providers and
-- Core.Security, and so is pydantic's check of a field in Requests; `IsSigned` and `KeepsLimits` are what is asked
-- of them. A service takes any answer of a provider, so that what is said of it holds for the answers to the
-- requests that Providers builds.
--
-- Not modelled: bcrypt, SHA-256 and random tokens (app/core/security.py), whose results are arguments; rate limits,
-- CORS and the health check (app/main.py); responses' schemas, which name a row's columns; the HTML twin of an
-- e-mail; Celery's set-up, migrations (alembic/), prose in notifications, IP addresses in the audit log,
-- created_at columns (a table is kept newest row first), and the repository methods of single columns that nothing
-- calls.
pub mod Common
pub mod Errors
pub mod Json
pub mod Schema
pub mod Outside
pub mod Session
pub mod Core
pub mod Accounts
pub mod Users
pub mod Audit
pub mod Notifications
pub mod Untouched
pub mod Requests
pub mod Email
pub mod Transfers
pub mod Providers
pub mod PaymentMethods
pub mod Payouts
pub mod Deposits
pub mod Webhooks
pub mod Auth
pub mod Profile
pub mod Transactions
pub mod Admin
pub mod System
pub mod Examples
