-- ===== src/Lib.antt =====
-- A model of the order, stock, payment and counter services, of the sessions, roles and
-- permissions, of the category tree, of variants and their attributes, of the audit log, of the
-- reports and of the HTTP client of the PulseOps backend, a Node.js service for shops over
-- PostgreSQL (src/modules), with theorems about them.
--
-- The parts and how they interact. An order is priced (orders/gst.js), takes its pieces from the
-- stock tables that stock corrections and transfers also write (inventory), and is paid through
-- the payment services (payments), or at the counter (pos), whose sale is an order with a hook
-- that takes the payments within the transaction of the order. The cash among them goes to the
-- drawer. Every request passes the middlewares of auth: the access token must be of a session that
-- holds a live refresh token, and `authorize` looks for the permission among those of the user's
-- roles, which it caches; the user and role services drop what is cached when they change a row.
--
-- Which file models which part:
--   Gst         src/modules/orders/gst.js: gstCents, includedGstCents, lineRate, lineTax, splitTax
--   Retry       the wrapper `execute` in orders.service.js and inventory.service.js
--   Stock       the tables inventory, warehouse_inventory and inventory_movements
--   Inventory   src/modules/inventory/inventory.service.js: adjust, transfer
--   Plans       assertWithinPlan of src/modules/plans/plans.service.js
--   Catalog     the rows of variants and warehouses, which are only read
--   Db          the other tables, and the writes to them
--   Orders      src/modules/orders/orders.service.js: create (Planning, Pricing, Placing), getById,
--               updateStatus and cancel (Changing), the status table (Status)
--   Payments    src/modules/payments/payments.service.js: create, confirm, refund, handleWebhook
--   Razorpay    src/modules/payments/razorpay-payments.service.js: start, verify, markPaid,
--               handleWebhook
--   CashRegister  src/modules/pos/cash-register.service.js: open, addMovement, close, recordSale
--   Pos         src/modules/pos/pos.service.js: sale, verifyRazorpayUpi
--   Trade       sequences of the calls that move stock
--   Auth        src/modules/auth: the rows and queries of auth.repository.js; auth.service.js in
--               Sessions (refresh, logout, revokeSession, logoutAll, changePassword), Signing (login)
--               and Accounts (register, the resets and verifications, updateMe, getMe);
--               auth.middleware.js in Guard; sequences of calls in History
--   Access      Authorizing: authorization.middleware.js; Granting: the roles of a user in
--               src/modules/users; Managing: src/modules/roles; sequences of calls in History, and
--               what `authorize` answers after them in Deciding
--   Categories  src/modules/categories: create, update, delete
--   Addresses   src/modules/customers: createAddress, updateAddress, deleteAddress; sequences of
--               requests in Editing
--   Variants    src/modules/variants: setAttributes, with create, update, delete in Requests; the
--               definitions of src/modules/attributes in Attributes; sequences of requests in Running
--   Audit       src/modules/audit: audit.sanitize.js, logAudit and logActivity
--   Reports     src/modules/reports: the rows, request and download; the files in Csv, generate in
--               Generating; report-schedules.service.js in Periods and Schedules
--   HttpClient  src/integrations/http/http-client.js and src/integrations/errors
--   Gstin       src/modules/gst/india.js: gstinCheckChar, isStateCode, financialYear
--   Base        shared types: results, transactions, tables, integers, lists
--   Examples    a small shop: tests, and the theorems at concrete inputs
--
-- How the state corresponds. A method of a service is a function from the database to a result
-- with the new database. A transaction that throws is rolled back, so an error carries no state;
-- its AppError code is a constructor of `Error`. Where a method writes and then throws, as refresh
-- does on a replay, its answer is a result beside the new state. Rows that a transaction locks are
-- read in it, so it runs on one state; what a method reads before its transaction is an argument
-- of the transaction. A table is a list of rows by key, with lookup and upsert. Ids, which are
-- only compared, are numbers, and a counter stands for randomUUID. Amounts are paise, the integers
-- that `cents` and `toCents` compute with; rates are hundredths of a percent; stock quantities are
-- natural numbers, where a guard of the code keeps them from going below zero, and integers where
-- a request may carry any.
--
-- Bounds and fuel: the retry loop runs its three rounds (`execute(maxRetries = 3)`), as a
-- recursion on the rounds left. The walk of wouldCreateCycle over the parents takes fuel, and
-- answers nothing when it runs out; on a forest, as many steps as the walk has are enough
-- (update_ends).
--
-- Parameters: the payment provider, Razorpay's API and signature checks, the faults of the
-- database, the rows that are only read, argon2 and SHA-256 (`Crypto`), and what a call draws from
-- outside (`Fresh`: uuids, random bytes, a salt, the clock, whether the email queue takes a mail).
-- A JWT is its claims. The months of a calendar (`Calendar`), the rows that a report is built
-- from, what the storage and the queue do, which steps of a report fail, what `fetch` answers at
-- each attempt, and which texts `Number` makes a number of are parameters too. The cache of
-- permissions is taken to carry out every deletion and to keep its entries.
--
-- What is not modelled: HTTP routes and validation schemas, emitted events other than low stock,
-- texts such as names, the columns of an address, mails and invoice numbers, most time stamps,
-- calls that run at the same time as others outside the transactions that lock, the deletion and
-- the update of users, the values offered for an attribute, the lists and the queries of the
-- reports, which only read, and the other modules of src/modules.
pub mod Audit
pub mod Auth
pub mod Access
pub mod Addresses
pub mod Base
pub mod Gst
pub mod Reports
pub mod Retry
pub mod Catalog
pub mod Categories
pub mod Stock
pub mod Inventory
pub mod Db
pub mod Orders
pub mod Payments
pub mod Razorpay
pub mod CashRegister
pub mod Pos
pub mod Trade
pub mod Variants
pub mod Plans
pub mod Gstin
pub mod HttpClient
pub mod Examples
