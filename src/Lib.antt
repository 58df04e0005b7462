-- ===== src/Lib.antt =====
-- Verification of the FieldServiceIT backend, a NestJS service in TypeScript over MySQL.
--
-- A request passes guards (tenant, roles, features, step-up), then the handler of a module, whose
-- service reads and writes tables through DatabaseService. The caches and counters of src/common/ are
-- complete classes that no module of the application installs at this commit, and neither does one
-- install the guard of the plan limits. Each part below is a module of this library; pure functions are
-- functions by clauses, a service's state is a record of tables or of a JavaScript Map, and an
-- operation returns a Result whose exceptions are those of @nestjs/common.
--
--   - Base: tests, lists, texts, the exceptions and their chains, and JavaScript's Map with text keys
--     (Base/Map: entries in order of insertion, at most one per key).
--   - Query: the filter compiler buildWhereClauses of src/database/database.service.ts with
--     src/common/security/sql-identifier.ts. Query.antt has the compiler, Query/Conditions an
--     independent reading of a filter, Query/Placeholders and Query/Binding the relation of the two.
--   - Tickets: src/modules/tickets/services/tickets.service.ts. Tickets.antt has the rows and the
--     bodies, Lifecycle the transitions and the checks, Operations update, assign, resolve and remove,
--     Describe the text of the timeline. Transitions, Resolution, Holds and EmptyStatus prove.
--   - Access: the guards of src/common/guards/ and src/common/authorization/feature-entitlements.ts.
--     Tenant, Features and Roles have the code, Isolation and Entitlements prove. Permissions has
--     src/common/guards/permissions.guard.ts with src/common/authorization/tenant-admin-defaults.ts and
--     src/database/repositories/authorization.repository.ts, Policies its contextual policies;
--     Authority proves whom it lets pass, Networks what a range of addresses is.
--   - Caches: src/common/services/permission-scope-cache.service.ts (Permissions),
--     src/common/middleware/request-deduplication.middleware.ts (Deduplication),
--     src/common/middleware/rate-limit.middleware.ts (RateLimit) and
--     src/common/services/database-throttler-storage.service.ts (Throttler). Refinement, Tenancy, Bounds
--     and Invalidation are about the permission scope cache.
--   - Inventory: src/modules/inventory/inventory.service.ts. Stock and Edits have the code, Ledger,
--     Histories, Scope and Unlogged prove.
--   - Invoices: src/modules/quotes-invoices/quotes-invoices.service.ts. Operations has the conversion
--     of a quote and the update of an invoice, Conversion and Payment prove.
--   - Billing: src/modules/billing/services/billing.service.ts. Events has applyEvent and Webhook
--     handleWebhook, Delivery and Effects prove.
--   - Usage: src/modules/billing/services/usage.service.ts and
--     src/modules/billing/guards/feature.guard.ts. Usage.antt has the code, Usage/Limits proves.
--   - Auth: src/modules/auth/services/auth.service.ts and mfa.service.ts beside it,
--     src/database/repositories/session.repository.ts and src/common/security/credential-hash.ts.
--     Lockout, Sessions, Tokens, Refresh, Mfa, Login and Entrances have the code. Backoff and Guessing
--     are about the lockout, Draws and SessionLimit about the rounds of generateTokens and the limit of
--     sessions, Spent and Reuse about the rotation of refresh tokens, Stored about what the table of
--     sessions gives away, SecondFactor and Recovery about
--     the second factor. Passwords has the reset of a password, the verification of an email and
--     src/common/security/password-policy.ts, Resets proves; Registration has the registration of a
--     company's user, Membership proves.
--   - Catalog: src/modules/catalog-requests/catalog-requests.service.ts. Requests has the code, Steps
--     its operations as a relation, Lifecycle, Isolation and SelfApproval prove.
--   - Field: src/modules/field-service/services/field-service.service.ts. Visits has the code, Writes
--     its operations as writes of rows, Progress proves. The recommendation of technicians is left
--     out.
--
-- Conventions. The clock's reading, drawn identifiers and the answers of other services are arguments.
-- Dates are numbers of milliseconds. JSON values are given parsed. A value that may be null or
-- undefined is an Option, and `||` and `??` are written out; a field of a body whose null is written
-- and whose undefined is not is a Change. Functions of JavaScript that change the
-- case of letters, and the hash, are arguments. Quantities of stock are natural numbers in
-- hundredths; what is subtracted has been compared first, as in the source. Every loop is
-- structural; the one of generateTokens counts down its five rounds, and where none of them draws a
-- free token it ends with the error of the last. An operation that writes before an exception returns
-- its tables beside the Result.
--
-- Not modelled: concurrent requests to one row, failures of the database other than those that the
-- source handles, the listings, and the parts of the program that the modules above do not name:
-- the providers of sign-in, the CMDB, workflows, reports,
-- notifications, the remote-management adapters, the controllers and the bodies' validation.
pub mod Base
pub mod Query
pub mod Tickets
pub mod Caches
pub mod Access
pub mod Inventory
pub mod Invoices
pub mod Billing
pub mod Usage
pub mod Auth
pub mod Catalog
pub mod Field
