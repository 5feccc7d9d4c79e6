-- ===== src/Lib.antt =====
-- A verification library for the backend of VFW, which sells packages at fashion events: what a sale
-- is priced at, how it is reviewed, amended, invoiced, paid, exported to QuickBooks and voided, what
-- people earn by it and claim, who may sign in and do which, and how sockets are throttled.
--
-- The parts and the files that model them:
-- - backend/src/common/acl.ts: Acl.antt has the matrix `ACL`, `defaultPermissions` and `can`, the one
--   test that all guards below go through.
-- - backend/src/pricing/pricing.service.ts: Pricing.antt has `compute` and `discountApproval`. They
--   compute with decimal.js, which is not part of the repository: Decimal.antt is the interface to it,
--   Decimal/Laws.antt and Decimal/Order.antt what its documentation promises (sums of at most 20
--   digits are exact, results are correctly rounded), and Decimal/Fixed.antt and FixedOrder.antt an
--   instance that runs. Pricing/Totals.antt, Status.antt and
--   Discount.antt are about the figures.
-- - backend/prisma/schema.prisma: Store.antt, Store/Staff.antt, Store/Access.antt and Store/Portal.antt have
--   the rows that the services read and write and the database as a record of tables; Store/Audit.antt is
--   `log` of backend/src/audit/audit.service.ts; Store/Table.antt the reads and writes by key, and Store/Call.antt
--   a service call, which is a function of the database into a result or an HTTP error and the
--   database after it; Store/Keeps.antt has a rule for each way to build a call. A `prisma.$transaction` undoes its writes when it throws; a write outside one
--   stays.
-- - backend/src/submissions/submissions.service.ts: Submissions.antt and the files below it, a file
--   for each group of methods: Reading (`list`, `findOne`, `queue`, `ledger`), Sale (`resolveSale`),
--   Contact (`resolveContact`), Entry (`create`), Editing (`update`), Review (`approve`, `reject`,
--   `returnToSales`), Ledger (`addPayment`, `recomputeMoney`), Fields (`patch`), Invoice
--   (`generateInvoice`, `setInvoiceNo` and the two counters), Export (`export`) and Voiding (`void`,
--   `unvoid`). Lifecycle.antt has the edges between statuses and the invariant of a row; the
--   files below it take the methods one by one, and Lifecycle/Runs.antt puts them together into runs.
-- - backend/src/submissions/installments/installments.service.ts: Installments.antt. `mark` and
--   `unmark` are each a check and a transaction, between which the database may have moved on. They
--   read sales through `findOne` and post money through `recomputeMoney`.
-- - backend/src/payments/payments.service.ts: Payments.antt starts checkouts (`createCheckoutSession`,
--   with `resolveContactId` of backend/src/portal/portal.service.ts), and Payments/Webhook.antt is
--   `handleWebhook` and `postPayment`, which post through `recomputeMoney` as well. Claim.antt, Once.antt
--   and Scope.antt below Payments are about them.
-- - backend/src/attendance/attendance.service.ts: Attendance.antt.
-- - backend/src/payroll/payroll.service.ts: Payroll.antt has periods, exchange rates and base pay,
--   Payroll/Earnings.antt `salesByRep`, Payroll/Tiers.antt `computeTierBonus`, Payroll/Statement.antt
--   `statement`, `statementFor`, `run` and `salesFor`, Payroll/Invoices.antt the life of
--   a payroll invoice, Payroll/Reimbursements.antt `setReimbursement`, and Payroll/TierAdmin.antt the
--   tier table. Statements read sales as the
--   submissions service leaves them, and the hours of Attendance.antt.
-- - backend/src/roles/roles.controller.ts: Roles.antt, with `effectivePermissions` of
--   backend/src/common/auth.guard.ts, and Roles/Naming.antt with `freeKey`. Roles/Keys.antt and
--   Roles/Removal.antt are about them.
-- - backend/src/auth/auth.service.ts: Auth.antt has what the handlers share, Auth/Login.antt `login`,
--   `loginWithGoogle` and `completeTotpLogin`, Auth/Otp.antt the codes that prove an address,
--   Auth/Signup.antt `signup`, and Auth/Recovery.antt `forgot` and `reset`. Auth/Session.antt is
--   `verifySession` and the guard of backend/src/common/auth.guard.ts. argon2, JWT, otplib, the encryption
--   of secrets and the case of letters are the fields of `Platform`; random draws and whether a mail goes out
--   come in as `Draws`. Tries, Lockout, Return, Replies and Guarded below Auth are about them.
-- - backend/src/admin/admin.service.ts: Users.antt (`deleteUser`, `approveUser`, `rejectUser`),
--   Users/Editing.antt (`updateUser`) and Users/Invitations.antt. They write the accounts and the
--   invitations that Auth.antt reads.
-- - Gate.antt puts the handlers of the two together as requests that are served one after another. Lasting
--   says which properties of the tables get along with their writes, Reading, Kept and Served go
--   through all handlers once for every such property, and Sessions, Once, Invited and
--   Administrators are the properties.
-- - backend/src/portal/portal.service.ts: Portal.antt (`sendLink`, `getPortalData`, `signedContractUrl`);
--   `resolveContactId` stands in Payments.antt. Portal/Links.antt is about the life of a link.
-- - backend/src/messaging/socket-throttle.ts: Throttle.antt, with the clock as an argument.
-- - backend/src/messaging/receipts.ts: Receipts.antt, and Receipts/Growth.antt about it.
-- - Examples.antt and the files below it run the code on a small database.
--
-- How code and model correspond: a method `doThis` is `do_this`, a DTO or a row is a record, an enum
-- is a data type. A field that a request may leave out is an `Option`; a request that sends `null` for one
-- is not modelled. Ids and times are numbers that are only compared. Text that the code takes apart
-- (cities, invoice numbers) is a list of character codes. The clock, the id of a row that the
-- database makes, and the Test data switch come in as `Env`; what QuickBooks and Stripe answer, what number
-- a text reads as, how JavaScript changes the case of a text, and which month a clock stands in, are
-- parameters. Days of attendance and payroll are numbers of days, parsed already. Amounts keep the rounding of the source, written `r2`. All loops
-- are recursions on a list, but for two with fuel: `digits` gets one more than the number, which has no
-- more digits than that, and the search of `freeKey` one more than there are keys taken, as no two of
-- the keys that it tries are the same.
--
-- Not modelled: the wording of errors and audit entries, the order of lists, the season and the
-- reference of a sale, PDFs and mails, the addresses that Stripe sends a customer back to, telemetry, the race of two
-- writes for a unique column, the retry of a write that lost one, and
-- the other services of the backend, the frontend and the operations files.
pub mod Prelude
pub mod Acl
pub mod Decimal
pub mod Pricing
pub mod Store
pub mod Submissions
pub mod Installments
pub mod Payments
pub mod Attendance
pub mod Payroll
pub mod Roles
pub mod Auth
pub mod Users
pub mod Gate
pub mod Portal
pub mod Receipts
pub mod Throttle
pub mod Examples
