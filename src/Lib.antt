-- ===== src/Lib.antt =====
-- The dispute engine of backend/internal: card and direct-debit disputes that a bank opens on a
-- transaction and moves along a regulated lifecycle. A path is from the repository's root, from
-- backend/internal (platform/...) or from backend/internal/dispute (domain/..., application/...); a
-- file named alone is of the package named before it.
--
-- The core is the package backend/internal/dispute/domain, pure code that the use cases of
-- backend/internal/dispute/application call inside a database transaction: an event goes through
-- the state machine (state.go), whose gates read the rules of the dispute's regime (regime.go, chosen
-- from rail and currency by rail.go); the state that it enters decides the ledger's movements
-- (ledger.go), which clocks are settled (deadline.go) and which notices are owed (notice.go); a
-- refund is held back while the risk score is high (risk.go), and the score reads the answers to the
-- questionnaire (questionnaire.go). Every refusal is a classified error (platform/errs/errs.go).
--
-- Files, with the definitions named as in the source, in snake case:
--   Errs, Errs/Laws            platform/errs/errs.go; a chain of errors is a value
--   Result                     a Go result (T, error) as a sum, and its bind
--   Domain/Vocabulary          the string types of the domain, as data; a string that is none of the
--                              constants is the constructor `other`
--   Domain/Regime              regime.go, rail.go
--   Domain/Lifecycle           state.go; Spec: the step relation; Bounds: how long a history can be;
--                              Reach: what holds in every state that is reached; Allowed: the events
--                              that are offered; Names: the states' names
--   Domain/Ledger              ledger.go; Amounts: what an analyst may enter; Suspense: one posting
--                              against the suspense balance; History: a dispute's whole ledger
--   Domain/Deadline            deadline.go; Due: the calendar's loop; Statuses: the clocks over time
--   Domain/Risk                risk.go
--   Domain/Notice              notice.go
--   Domain/QuestionSets        the question sets of questionnaire.go with questionnaires/*.json
--   Domain/Questionnaire       the answers' checks of questionnaire.go; Validation: what is accepted
--   Application/Records        application/ports.go, access.go, core.go: what the use cases exchange
--   Application/Store, Rows,   a transaction of the store, as application/apptest/memstore.go carries it
--   NoticeRows                 out: state passing with errors, and the restored snapshot of WithTx
--   Application/Frame          what the operations leave alone: Reads, Calls; Yields: what they return
--   Application/Idempotent     idempotent of application/service.go; Laws: what a repeat is answered;
--                              Runs: how a run under a key ends
--   Application/Transition     CreateDispute and ApplyEvent of service.go; Booking, Laws: their steps;
--                              Outcomes: what an answer says was done; Opening, Keeps: the records
--                              they leave
--   Application/Log, Sound     the replay of a dispute's log, and the stores in which it gives the record
--   Application/Histories      stores that any sequence of requests reaches from an empty one
--   Application/Money          post and instructCore of service.go, core.go; Laws: what is written
--   Application/Clocks         settleDeadlines of service.go; Laws: what stays open
--   Application/Balances       Balances.add of service.go and its loops
--   Application/Hold           holdCheck of service.go; Laws: what it lets through
--   Application/Assess         assess and questionnaire of service.go, with the account's history
--   Application/Notices        notify and send of service.go; Laws: which notices are stored
--   Application/ViewRecords    the views that service.go answers with
--   Application/Views          view of service.go, permitted of authorize.go; Laws: what is offered
--   Application/Routing        Route of application/routing.go
--   Application/Reassign       Reassign of routing.go, authorize and facts of authorize.go; Laws: what a
--                              move writes; Keeps: the records it leaves
--   Application/Listing        ListDisputes of service.go and of memstore.go, with NextDeadlines and
--                              LatestRisk; Order: the order of a list; Rows: what follows a cursor;
--                              Described, Items: what is looked up; Wanted: what a query asks for; Pages: the
--                              pages from the first to the last
--   Application/Resend         Resend of application/compose.go; Laws: what it stores; Chain: what the
--                              emails of a chain have in common
--   Application/Attachments    application/attachments.go; Laws: what an email takes
--   Application/Outbox         a pass of the dispatcher of application/mail.go over the in-memory
--                              outbox; Laws: what it does to the notices; Drain: to the backlog
--   Notice/Template            notice/template.go: templates and their checks; Pieces: the regular
--                              expressions; Form: Validate, with Accepted: what a form
--                              accepts; Override: Apply; SameForm: what it leaves alone, with Verdicts;
--                              Filling: Fill and Placeholders, with Facts: what no input changes
--   Infrastructure/MockCore    infrastructure/mockcore/mockcore.go; Paid: what moves money; Repeats: an
--                              instruction that comes again
--   Platform/Failures          platform/auth/failures.go; Reference: the limiter that keeps every failure
--   Prelude                    numbers, lists and texts; Prelude/Decimal: the decimal package;
--                              Prelude/Dates: the date layout; Prelude/Texts: the order of texts;
--                              Prelude/Strings: strings and strconv; Prelude/Int: amounts in whole
--                              cents, which the runs of Tests use
--   Tests                      runs at concrete inputs
--
-- A request is answered in one transaction, which is also the unit of the store's steps: CreateDispute,
-- ApplyEvent and Reassign ask the policies, read the record, write the record, the log entry, the clocks,
-- the ledger, the notices and the assessment, and keep the answer under the request's key. The
-- dispatcher later reads the notices that wait and writes only to them.
--
-- Parameters: decimal amounts are of any type with the laws of an ordered commutative group, as
-- github.com/shopspring/decimal documents its exact arithmetic (Prelude/Decimal); a time zone gives
-- the day of an instant and the midnight of a day, in order (Location of Domain/Deadline). An instant
-- is a count of nanoseconds; whole days between instants and the instant a year before are given by
-- the package time. The adapters of the banking core answer with a receipt or an error; the hash and
-- the codecs of payloads, documents and stored responses are those of crypto/sha256 and encoding/json;
-- the policies are decided by the Cedar library; an identifier of google/uuid is not in use yet; the
-- words of a notice and the mailer are given, and the text of an error is not empty. The in-memory store fails only as its code says, so that
-- branches for a failing connection are not reached.
--
-- The loop of Calendar.Due has no bound in the source. Its model is given fuel by `due_fuel`: three
-- days for each day up to the last holiday and for each day to be counted, which is enough because no
-- three days in a row fall on a weekend; the theorem on `due` includes that it returns.
--
-- Not modelled: the formatting of error messages beyond their format strings, the registry of error
-- codes, the service's gauges, the use case that composes an email of an analyst and the settings of a
-- tenant's templates (their parts are: templates, the claiming of files, the sending again), the words
-- of the notices that the engine sends, the loading of template files, the timers of the dispatcher and
-- of the purge and the backoff (in SQL), the rate limit of a tenant (in SQL), metrics and traces, and
-- the packages around: SQL, HTTP, sessions, the evaluation of policies and the commands.
pub mod Prelude
pub mod Errs
pub mod Result
pub mod Domain
pub mod Application
pub mod Notice
pub mod Infrastructure
pub mod Platform
pub mod Tests
