-- ===== src/Transactions.antt =====
-- src/transactions: the stored transactions, their edit logs, and the service over them.
pub mod Entities
pub mod Dto
pub mod Bigint
pub mod Store
pub mod Laws
pub mod Fields
pub mod Responses
pub mod Update
pub mod Query
pub mod Validation
pub mod Service
pub mod Controller
