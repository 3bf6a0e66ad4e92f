-- ===== src/Relay/Payments.antt =====
-- The payments of the relay: nostream-share/src/services/payments-service.ts over the repositories of
-- users and of invoices, the callbacks of OpenNode, LNbits, Zebedee and Nodeless, and the
-- requests for invoices.
pub mod Data
pub mod Tables
pub mod Service
pub mod Callbacks
pub mod Zebedee
pub mod Nodeless
pub mod Lnbits
pub mod Invoicing
pub mod Laws
