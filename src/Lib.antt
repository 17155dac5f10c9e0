-- ===== src/Lib.antt =====
-- The order, payment and shift core of the merchant operations platform: guests are seated at
-- tables, a guest or a cashier submits an order from the menu of the outlet, the kitchen reports its
-- progress, the cashier takes a payment for it in an open shift, which makes a paid bill and a sale,
-- and refunds or cancels it, and a visit whose orders are settled is closed. What these announce
-- reaches the kitchen and other modules through an outbox of events, and what a workspace bought
-- decides which requests are allowed.
--
-- Parts of the program, and the files that model them:
--   Contracts/Charges    packages/contracts/src/charges.ts: divideRounded, computeCharges.
--   Contracts/Orders, Contracts/Billing
--                        the enumerations of packages/contracts/src/orders.ts and billing.ts.
--   Contracts/Rates      the same charges.ts: parseRatePercent and formatRatePercent.
--   Contracts/Kds        the enumerations of packages/contracts/src/kds.ts.
--   Contracts/Menu, Catalog
--                        apps/api/src/kernels/catalog: the records (Catalog), the order of names
--                        (Sorting), buildSellableMenu of sellable-menu.ts (SellableMenus) with the
--                        schema of packages/contracts/src/menu.ts (Contracts/Menu), and the query
--                        that reads and filters the rows of an outlet (Queries). Ordering connects
--                        the menu to the prices of orders.
--   Contracts/Floor, Floor
--                        apps/api/src/modules/floor: the tables of visits (Floor), layout.ts
--                        (Layout), the repository of visits (Visits, Closing), their service and
--                        table-status.ts (TableSessions) and table-visit-guard.ts (Guard), with the
--                        schemas of packages/contracts/src/floor.ts. Runs is about any sequence of
--                        the commands on visits.
--   OrderIntake/Pricing  apps/api/src/kernels/order-intake/domain/price-order.ts: the loops of
--                        priceOrderLines are price_from (lines), take_groups (groups) and
--                        take_options (options).
--   OrderIntake/Fulfillment, Orders, Decisions, Service
--                        fulfillment.ts, adapters/prisma-order.repository.ts and
--                        application/order-intake.service.ts of the same kernel.
--   Billing, and its children Store (queries), Writes (single writes), Payments
--                        (recordFullPayment), Visits (recordSessionPayment), Refunds
--                        (recordRefund), Claims (claimPayment, rejectClaim) and Service:
--                        apps/api/src/kernels/billing-payment-ledger.
--   PosSales             apps/api/src/modules/pos-sales: register-session.ts (RegisterSession), the
--                        shift repository (Shifts) and service (ShiftService), and refund and
--                        cancel of pos-orders.service.ts (PosOrders).
--   Kds                  apps/api/src/modules/kds: ticket-status.ts (TicketStatus), the repository of
--                        tickets (Tickets: create; Moves: move and cancelBySource), the use cases and
--                        the handler of order events (UseCases), which reads orders as
--                        apps/api/src/kernel-wiring.module.ts connects it. Runs is about any sequence
--                        of these commands.
--   Events               apps/api/src/core/events: prisma-event-stores.ts (Stores) and
--                        outbox-dispatcher.ts (Dispatcher).
--   Entitlements         apps/api/src/core/entitlements: access-evaluator.ts (Access) and
--                        effective-entitlements.ts (Effective).
--   Inventory/Quantity   apps/api/src/modules/inventory/domain/quantity.ts with the schemas of
--                        packages/contracts/src/inventory.ts; Texts is what a decimal looks like.
--   Digits               JavaScript's texts of numbers, as far as rates and quantities need them.
--   Database             the tables of packages/database/prisma/schema.prisma that these use, and
--                        Action, the commands on them.
-- Where theorems need files of their own they stand below the code they are about: Bounds,
-- Groups, Menus, Lines, Orders, Progress, Amounts, Settled, Keyed, Guards, Recorded, Completes,
-- Booked, Within, Waiting, Totals, Single, Closing, Cancellation, RoundTrip, Exact, Factors,
-- Laws, Fractions, Steps, Writes, Follow, Once, Reactions, Granted, InForce, PerKey,
-- Capabilities, Attempts, Busy, Remaining, Delivered and the Claims of Events; for the menu
-- Sorted, Keyed, Sold and the files below it (Groups, Conditions, Entries, Products, Contents,
-- Shown, Listed); for the floor Cells, Seated, Seating, Moving, Leaving, Cleaning, Always, Taken
-- and Opens. Tests and Samples hold concrete runs.
--
-- How the code is read. A handler that awaits the database is an Action: a function from the tables
-- to a result or a fault and the tables after it. What is thrown keeps the writes made so far,
-- except inside `transaction`, which takes them back, as $transaction does; catch_unique is the
-- handler for a violated unique index. Handlers run one after another: the row locks and visit locks
-- that the code takes (an updateMany of updatedAt, FOR UPDATE) are there to make transactions on one
-- shift, order, sale or visit serial, so a lock is modelled by the count of the rows it would lock.
-- A table is the list of its rows in the order of their creation, which is also the order that
-- findFirst and "take 1" see. next_id stands for the generated identifiers. Unique indexes are
-- checked where a handler can meet them: the keys of payments, refunds and movements, the waiting
-- claim of a visit and the open shift of a cashier.
-- Money (bigint, or a text of digits) is an integer, ℤ over the native numbers, without a bound, as
-- in the code. Identifiers, texts and instants are numbers, since they are only copied and compared.
-- Texts that a program takes apart are lists of code points. Loops run over lists; the one bound is
-- on the digits of a number, n + 1 for n, which has no more digits than that.
--
-- The tables of visits are a state of their own (FloorDb): the commands on visits write it and read
-- the orders and bills of a visit, which they never change, and the order intake asks the
-- guard about it and never changes it.
--
-- Parameters: the runtime's comparison of names (localeCompare) and the check of a menu against
-- its schema; the menu and the check that a visit is open, which the order intake takes from
-- other modules (Catalog/Ordering and Floor/Guard fill them in); the label of a visit's table and
-- the metering; for the dispatcher its handlers, with the events that they announce in the same
-- outbox, their bindings, the availability of modules and the world that they act on. A batch
-- reads the clock once.
--
-- Not modelled: the structure of floors, QR codes, the guests' requests and the financial
-- document of a visit; the commands that edit the catalog; the customer module, the master data
-- of the inventory, authentication, the web application; the lists and intake keys of the
-- kitchen; the rows that entitlements are projected to, and the order in which lists are sorted
-- for display; and of the modelled handlers the CHECK constraints but that on the guests of a
-- visit (a theorem that an operation answers asks for values that they accept), updatedAt columns
-- but those of tickets, the texts of errors, audit metadata and the payloads of events, and the
-- schemas that parse a command on its way in and an answer on its way out.
pub mod Prelude
pub mod Digits
pub mod Contracts
pub mod OrderIntake
pub mod Database
pub mod Billing
pub mod PosSales
pub mod Kds
pub mod Inventory
pub mod Entitlements
pub mod Events
pub mod Catalog
pub mod Floor
