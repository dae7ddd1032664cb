-- ===== src/Lib.antt =====
-- The accounts of the Finnri API: who may spend credits on an AI action and how a reservation is settled,
-- payments for a subscription and their refunds, amounts of money, repayment by instalments, credit
-- card statements, the ledgers of shared groups, the due dates of recurring payments, and the guards
-- of the AI routes.
--
-- Parts, files and code
--   Ai                    internal/ai/registry.go: the actions with their prices, `Require`,
--                         `RequireImplemented` and the validation.
--   Billing/Data          internal/models/billing.go and the types of internal/billing/credits.go.
--   Billing/Tx            the database as a record of tables and gorm's transactions: an action is a
--                         function from a store to an error or a value and a store, and a transaction
--                         that fails leaves the store as it was. Runs takes successful runs apart.
--   Billing/Allowance     `checkAllowanceTx` with its queries.
--   Billing/Ledger, Debit, Refund, Daily, Usage
--                         `createLedger`, `debitAvailableGrants`, `refundEventCredits`,
--                         `adjustDailyUsage`, and what a finished call writes to its event.
--   Billing/Reservation   `ReserveCredits`, which uses all these.
--   Billing/Settlement    `FinalizeUsage` and the cancellations.
--   Billing/Grants        manual adjustments, free trials, subscription periods; Adds counts the rows.
--   Billing/Revocation    `RevokeSubscriptionCreditsTx`, `RevokeGiftedPassCreditsTx`, `ExpireCredits`.
--   Billing/Tranches      internal/billing/tranches.go: the slices of a subscription.
--   Billing/Entitlements  internal/billing/entitlements.go.
--   Billing/Balance       the accounting invariant; Rules and Moves treat the pieces, Operations,
--                         Service, Openings and Calls the modelled calls, History any sequence of them.
--   Payments/Data         internal/models/payment.go and the events of internal/payments/razorpay.go.
--   Payments/Capture      `applyPaymentCaptured` of internal/http/billing_webhook.go with the activation of
--                         internal/http/billing_checkout.go; it calls the grants of Billing.
--   Payments/Failed, Refund
--                         `applyPaymentFailed` and `applyRefund`, which calls the revocation of Billing.
--   Payments/Webhook      `handleBillingWebhook` with `claimWebhookEvent`, and `VerifyWebhookSignature` and
--                         `ParseWebhook` of internal/payments/razorpay.go. Stays, Once,
--                         Rejected and Deliveries treat repeated and forged deliveries and any
--                         sequence of them, Capture/Paid and Once what they do to an order; Rules, Sound and Frame have what each event keeps.
--   Money                 internal/models/money.go: `ParseMoney`, `String`, JSON and the database form.
--                         Plain and Decimal treat the reader, RoundTrip the printer.
--   Emi                   internal/http/emi.go: `calculateEMI`. Schedule treats the loop, Calculation
--                         the whole.
--   AiGuard               internal/http/ai_abuse.go: Breaker is the circuit breaker as a state machine with
--                         a step relation, Blocks the blocks and the pause after failed reads,
--                         Fingerprint the device ids of guests.
--   Cards/Calendar, Cycle internal/http/card_statement_cycle.go: days, windows, due dates.
--   Cards/Match           internal/http/card_statement_match.go: the pairing of a statement's lines with
--                         the ledger's entries. Text has the keywords and the names, Greedy the loop
--                         that assigns pairs; Partition, Sound and Complete treat the buckets.
--   Cards/Reconcile       internal/http/card_statement_reconcile.go: the gap between a bill
--                         and the ledger, and the entry that carries it.
--   Cards/Plan            internal/http/card_emi.go and card_emi_lifecycle.go: the instalments that block
--                         a card's limit, their release, closing and foreclosure. It takes its
--                         schedule from Emi and its amounts from Money.
--   Cards/Limit           internal/http/card_statement_limit.go: `summariseCardLimit`.
--   Cards/Payment         internal/http/card_statements.go: `refreshStatementPaidAmount`, which settles a
--                         statement of Reconcile and the instalments of Plan.
--   Splits/Data, Frame, Ledger
--                         internal/http/splits.go over the rows of internal/models/split.go: Frame is
--                         `loadSplitGroupFrames` with `restateForeignSplitRow`, Ledger
--                         `foldForeignSplitLedger` and `buildSplitGroupBalances`. Frame/Agree,
--                         Totals and Opposite treat what two members see.
--   Recurring             internal/http/subscriptions.go: `advanceSubscriptionDueDate`, and
--                         `nextDueDateFromCandidate` of internal/http/recurring_candidates.go. Steps
--                         treats their loops.
--   Base, Table, Result   shared tests, lists, numerals, 64-bit words and texts; tables with the
--                         statements that the program sends; errors.
--   Scenarios             the theorems at concrete stores and cards.
--
-- How the code is modelled
--   A table is the list of its rows under their primary keys with the next key of the sequence. A time
--   is a natural number of nanoseconds since Go's zero time, a day its quotient; the clock is read
--   once in an operation. Credits are natural numbers, as the CHECK constraints of
--   internal/database/schema.go enforce; what a caller passes unchecked is an integer. An amount of
--   money is the word of an int64 in two's complement, and its sums wrap (`% 2 ^ 64`). The calendar
--   of the statement cycles is the sequence of months with a length each, and a date is a month and a
--   day of it. Statements run one after the other, as under the row locks of the source. Loops are
--   structural on the rows that a query returned, on the entries of a list, or on the number of slices
--   or months, so no fuel is needed, but for three loops. The printing of a number has one more than
--   the number as fuel, and a number has no more digits than that. The search for a due date has one more than
--   the days to the bound, since each round moves by a day at least. The search for a day that is
--   open has three more than the days to 2027, since no holiday is listed after that and of three days
--   in a row one is no weekend.
--   Parameters: the hash SHA-256, the product of floats that prices audio, the text of a time in
--   RFC 3339, the random request id, the float arithmetic of the instalments, and the functions of Go's
--   strings and unicode packages on which the comparison of merchants stands; for the webhook
--   HMAC-SHA256, the decoding of hexadecimal digits and of JSON, the first bytes of a text, and the
--   text of an error; for due dates the calendar of Go's time package.
--
-- Not modelled
--   Failures of the database itself, retries of concurrent transactions, overflow of 64-bit products
--   in cost estimates, logging, and the columns that the modelled services neither read nor write. The
--   promotion of a guest's device to a user and the purge of old guests; the purge deletes rows of the
--   ledger whose grants can stay, so that no balance is claimed after one. Of the cards: the import of a
--   statement with its checksum, the handlers of its payments, the queries that gather the figures of
--   a card's limit, and the billing of instalments that are due, which writes an entry for each. Of
--   the guards: the JSON answers and the limit on voice uploads. Of the payments: the checkout handler
--   with the reuse of open orders, the launch offer, the provider's client, bodies that cannot be read,
--   and deliveries at the same time, which the unique index of the ledger puts in an order. Of the
--   shared ledgers: what writes bills, settlements, friends and links, the balances over all groups,
--   and the names of a roster. `Money.Float64`, which is for display. The HTTP handlers, automatic
--   payments, reminders, budgets and the parsing of entries are outside this library.
pub mod Base
pub mod Table
pub mod Result
pub mod Ai
pub mod Money
pub mod Payments
pub mod Splits
pub mod Recurring
pub mod Emi
pub mod AiGuard
pub mod Cards
pub mod Billing
pub mod Scenarios
