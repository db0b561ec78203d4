-- ===== src/Lib.antt =====
-- FilaZero: the core of a queue management system for several organizations.
--
-- A customer joins a queue of a branch and gets a ticket, staff call the next ticket, serve it and
-- complete it, and every change is told to the customer, to the screens and to the audit trail.
-- The paths below are those of the repository.
--
-- Parts and files
--   src/lib/errors.ts                          Errors: the error codes; a service returns
--                                              `Result`, an error that is thrown is `err code`
--   src/server/rbac.ts                         Access/Rbac
--   src/server/context.ts                      Access/Context
--   prisma/schema.prisma                       Database: the tables as one record `Db`
--   src/server/audit/audit.service.ts,
--   src/server/realtime/bus.ts                 Database: `record_audit`, `publish_queue_event`
--   src/server/notifications/                  Notifications/Phone (notification-messages.ts),
--                                              Notifications/Create (createNotification and
--                                              enqueueNotificationDeliveries); laws: PhoneLaws, DeliveryLaws
--   src/server/tickets/ticket.state.ts         Tickets/State
--   src/server/tickets/ticket.service.ts       Tickets/Rows, Positions and Writes (the queries and
--                                              writes the operations share), Tickets/Join
--                                              (joinQueue, joinQueueAsGuest), Tickets/Transfer
--                                              (transferTicket), Tickets/Staff (all other
--                                              operations that write)
--   src/server/customer/customer-subscription.service.ts
--                                              Tickets/Join: the gate `assert_operational`
--   src/server/queues/queue.service.ts         Queues/Status: `setQueueStatus`, with its laws in
--                                              Queues/StatusLaws
--   src/server/notifications/notification-dispatch.service.ts
--                                              Notifications/Dispatch: the outbox is emptied
--   src/server/billing/billing.rules.ts        Billing/Dates: `addInterval`; Webhooks/Events:
--                                              `normalizePaymentEvent`
--   src/server/billing/qr-payment.ts           Qr/Encoding (UTF-8, printing), Tlv, Crc, Iban, Payload
--   src/server/billing/agt.ts                  Invoices/Rules
--   src/server/billing/invoice-signing.ts      Invoices/Signing
--   src/server/billing/invoice-series.service.ts
--                                              Invoices/Series
--   src/server/billing/billing.service.ts      Invoices/Payment and Webhook (`applyPaymentEvent`),
--                                              Invoices/Plans (`assignPlan`), Webhooks/Handle
--                                              (`handlePaymentWebhook`)
--   src/server/billing/subscription.service.ts,
--   src/server/billing/plan-guard.ts           Invoices/Plans
--   src/server/billing/signature.ts            Webhooks/Signature
--   src/server/customer/customer-subscription.service.ts
--                                              Customer/Payments: the trial and the payment
--                                              webhook `applyCustomerPaymentEvent`
--   src/server/security/                       Security/RateLimit: the rules (rate-limit.rules.ts)
--                                              and the counters (rate-limit.service.ts)
-- An operation keeps its name in snake case (`callNext` is `call_next`); it takes the caller, its
-- arguments, the time `now` and the database, and returns the ticket and the next database. Engine
-- puts the operations together as a step relation, with the histories that it generates.
--
-- Proofs
--   Tickets/Results     what an operation that succeeds has checked and written; EntryResults for
--                       the operations that put a ticket into a queue
--   Tickets/Invariant   the invariant; Frame, Rewrite, Arrivals, Departures, Preserve, Admit
--                       and Moves carry it through the writes and the operations
--   Tickets/Line        the order of the line; Fifo, Live, LiveSteps, LiveArrivals use it
--   Tickets/Life        the statuses of the tickets; Joining, TransferLaws, Tenancy: who may do
--                       what, and what becomes of the ticket
--   Engine/Laws, Transitions, Positions: the same for any history
--   Billing/DateLaws, Customer/PaymentLaws and OnceLaws, Security/Windows and LimitLaws: the laws of
--   the calendar, of payments and of the rate limiter
--   Notifications/Drain goes through a call of the outbox row by row; DrainLaws and Delivered use it
--   Qr/Numbers, Decimal: printed numbers; Qr/RoundTrip, Rounds: the parser; Qr/Checksum; Qr/IbanLaws,
--   OneDigit: the check digits
--   Invoices/Rows, Numbered, Effects, Gapless, Counter: the numbers of invoices; Issue,
--   Paid, Certified: when a payment is confirmed; Amounts, Documents, PlanLaws; Webhooks/SignatureLaws, SignatureRound
--   Base holds what all share: Boolean tests, lists, membership, texts. Checks holds the tests.
--
-- What stands for what
--   Ids are numbers. The database draws the id of a new ticket: it is an argument of the
--   operation, and a taken id is refused as the primary key refuses it. Times are milliseconds;
--   each call reads the clock once. A text is a list of character codes.
--   A transaction is a function of the database, so histories are sequences of transactions, and a
--   throw leaves the database as it was. The one place where the source looks at a concurrent
--   transaction is SKIP LOCKED: `call_next` takes the set of locked tickets as an argument. The events of the bus are published after the commit.
--   A unique index that refuses a row is the error CONFLICT, as src/lib/http.ts answers it; a column
--   that does not hold a value is INTERNAL. The widths of columns are modelled for the document of
--   an invoice, other columns are unbounded.
--   Left out are texts for people (titles, messages, metadata, messages of errors), the request
--   data of the audit trail, and the result as JSON: an operation returns the row itself. The
--   reading of a call from HTTP, its validation and its rate limit come before an operation.
--
--   The calendar of `Date` is written out for times from 1970 on. The search for the year of a day
--   runs on fuel, days / 365 + 1 years, which is enough since a year has 365 days at least; the
--   other loops walk a finite list.
--   The digits of a number are printed on fuel n + 1, and a sequence of tagged elements is parsed on as
--   much fuel as it has bytes, of which each element takes four at least.
--   The billing of organizations has tables of its own, `BillingDb`. Functions that are not of the
--   repository are arguments: HMAC, the signature of RSA (which may throw), `JSON.parse`,
--   `TextDecoder`, the
--   reading and printing of dates, and `toUpperCase` outside ASCII. An error that is no `AppError` is
--   `none` in Qr and INTERNAL elsewhere. Amounts are below 2 ^ 50, where the arithmetic of the source
--   on floating-point numbers is exact.
--   The draw of the rate limiter that decides whether a request prunes is an argument.
--
-- Not modelled: the reads of the queue engine, the sending of messages (network), the checkout and the
-- proofs of payment, the reads and the PDF of invoices, authentication, organizations, analytics, the
-- ATM module, the platform's administration, and the user interface.
pub mod Base
pub mod Errors
pub mod Access
pub mod Database
pub mod Notifications
pub mod Tickets
pub mod Queues
pub mod Engine
pub mod Billing
pub mod Customer
pub mod Security
pub mod Qr
pub mod Invoices
pub mod Webhooks
pub mod Checks
