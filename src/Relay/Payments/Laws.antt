-- ===== src/Relay/Payments/Laws.antt =====
-- What the payments of the relay promise: tables, service and callbacks.
pub mod Users
pub mod Invoices
pub mod Confirmation
pub mod Transactions
pub mod Service
pub mod Callbacks
pub mod Invoicing
pub mod Lnbits
pub mod Zebedee
pub mod Nodeless
pub mod Tokens
pub mod Requests
