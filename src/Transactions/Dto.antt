-- ===== src/Transactions/Dto.antt =====
-- src/transactions/dto and src/transactions/constants: what the requests carry.
use birr_track_backend.Base.{ℕ, Bool, Option, Text, min}

-- A property of a request body: missing, null, or a value. `@IsOptional` lets null through.
pub data Given {ℓ} (A : Type ℓ) : Type ℓ where
  absent null : Given A
  given : A → Given A

pub record CreateTransactionDto (Num : Type 0) : Type 0 where
  pub telegram_user_id : Text
  pub telegram_name : Text
  pub amount : Num
  pub transaction_id : Text
  pub timestamp : Text
  pub bank_name : Text
  pub confidence : Num
  pub is_duplicate : Bool
  pub image_url : Option Text

pub record UpdateTransactionDto (Num : Type 0) : Type 0 where
  pub amount : Given Num
  pub transaction_id : Given Text
  pub timestamp : Given Text
  pub bank_name : Given Text
  pub confidence : Given Num
  pub image_url : Given Text

abbrev pub default_page : ℕ
default_page = 1

abbrev pub default_page_limit : ℕ
default_page_limit = 20

abbrev pub max_page_limit : ℕ
max_page_limit = 100

pub record GetTransactionsQueryDto : Type 0 where
  pub page : ℕ
  pub limit : ℕ
  pub start_date : Option Text
  pub end_date : Option Text
  pub telegram_user_id : Option Text

unfoldable pub get_effective_limit : GetTransactionsQueryDto → ℕ
get_effective_limit dto = min dto.limit max_page_limit

pub record TransactionSummaryDto (Num : Type 0) : Type 0 where
  pub total_revenue : Num
  pub transaction_count : Num
