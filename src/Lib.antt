-- ===== src/Lib.antt =====
-- The money, stock and order core of the marketplace backend (drip-backend/app), a FastAPI service over
-- PostgreSQL whose services run in database transactions.
--
-- Parts and files. Prelude: shared names, lists and integers. Money: decimal amounts and their rounding.
-- Db: the tables of models/ as association lists by key (Db/Table), their rows (Db/Finance, Db/Commerce),
-- the whole database with the runtime settings (Db/Schema), and the monad of the services (Db/Monad): an
-- operation takes the database and returns a result with a new database, or an exception, after which
-- core/database.py rolls back, so that an error carries no database. Db/Outcome states how operations end.
-- Commission: services/commission_service.py. A paid and delivered seller order is settled into a ledger
-- entry and a held balance (Settle); a confirmed refund is divided over seller orders (Split, Refund), and
-- each share is charged to its ledger and wallet (Ledger, Debit), or offset if it was confirmed before
-- settlement; held money is released after the hold (Release). The order services call settle, the cash
-- collection calls it for every seller order in turn (Settle/Every), the payment service calls
-- reverse_for_refund, and a worker calls release_mature.
-- Wallet: services/wallet_service.py with the wallet and payout repositories: withdrawals (Wallet), the
-- administrators' decisions (Wallet/Decision), and their histories (Wallet/History). Outbox:
-- services/notification_outbox.py. Texts: Python's strip and friends on code points.
-- Coupon: services/coupon_service.py. Checkout: prices, shipping and the division of a discount
-- (services/order_service.py). Orders: cancellation and expiry (order_service.py, tasks/order_tasks.py),
-- Orders/Place: _build_order; Orders/Replay: create_checkout, recover_checkout and services/checkout_safety.py,
-- which make one order for each checkout key; Orders/Fulfil: update_seller_order_status, which deducts stock
-- and settles. Slots: services/slot_service.py, the purchase of listing slots from the wallet.
-- Payments: services/payment_service.py: requests for refunds (refund), and the collection of cash on
-- delivery (record_cod_collection, in Payments/Collection), which settles every seller order of the order.
-- Payments/Gateway: what a reply of the gateway says; Payments/Gateway/Reconcile: reconcile_payfast;
-- Payments/Gateway/Checkout: initiate and _start_payfast, whose two transactions are two operations;
-- Payments/Gateway/Retry: retry; Payments/Gateway/Callback: handle_payfast_callback; Payments/Gateway/History
-- runs them in any order.
-- Payments/Confirm: confirm_refund, which restocks a return and calls reverse_for_refund.
-- Returns: services/return_service.py with repositories/return_repo.py: the decisions on a return (Returns),
-- requests (Returns/Request), disputes (Returns/Disputes) and the request of its refund (Returns/Refund), which
-- the payment service makes; Returns/History runs them all, with the confirmation, in any order.
-- Inventory: repositories/inventory_repo.py and services/inventory_service.py.
-- Tests: runs on small databases.
--
-- Amounts are whole paisa (Numeric(12, 2)), rates ten-thousandths (Numeric(5, 4)), times seconds.
-- Python's decimal context has 28 digits, more than a product or quotient of such columns needs for its
-- rounding to two places to be that of the exact value. Identifiers are compared only and are numbers, and a
-- row of order_items is its order and its place there; the order of a table's rows stands for the ORDER BY of the query that reads it. A row lock is the
-- atomicity of the operation. Subtractions are truncated only where a guard or a CHECK makes them exact,
-- which the place says. Every loop is by recursion on the list it goes over, so no fuel is used.
--
-- Parameters: whether a guest's token fits an order and whether a quote's fingerprint is that of the
-- prices of now (JWT and SHA-256), as Boolean answers; which rows another transaction has locked, and whether the
-- advisory lock of a checkout key is free; the items of an account's cart, which Redis holds; whether
-- an order's updated_at is the one that was reviewed; whether an account is there and not deleted; the
-- replies of the payment gateway, whose values are read as JSON, what its client has read of a notification, and
-- whether it is configured and has given a token (integrations/payfast.py).
--
-- Not modelled: text for display, queries that only list, the HTTP layer, authentication, storage,
-- e-mail, the cart service, the client of the payment gateway, and the frontend.
pub mod Prelude
pub mod Money
pub mod Db
pub mod Commission
pub mod Inventory
pub mod Texts
pub mod Outbox
pub mod Wallet
pub mod Coupon
pub mod Checkout
pub mod Orders
pub mod Slots
pub mod Payments
pub mod Returns
pub mod Tests
