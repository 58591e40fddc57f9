-- ===== src/External/Requests.antt =====
-- The JSON bodies that the handlers of internals/server read.
use mzl_payment_app.Common.{String, Option, List}

pub record RegisterRequest : Type 0 where
  pub email : String
  pub password : String
  pub full_name : String

pub record LoginRequest : Type 0 where
  pub email : String
  pub password : String

pub record SetPinRequest : Type 0 where
  pub pin : String

pub record ResolveAccountRequest : Type 0 where
  pub account_number : String
  pub bank_code : String

pub record FundRequest (F : Type 0) : Type 0 where
  pub currency : String
  pub amount : F
  pub description : String

pub record TransferRequest (F : Type 0) : Type 0 where
  pub account_number : String
  pub currency : String
  pub amount : F
  pub pin : String
  pub description : String

pub record SwapRequest (F : Type 0) : Type 0 where
  pub from_currency : String
  pub to_currency : String
  pub amount : F
  pub pin : String

pub record InitiatePaymentRequest (F : Type 0) : Type 0 where
  pub amount : F
  pub currency : String

-- internals/service/wallet_service.go
pub record WithdrawalRequest (F : Type 0) : Type 0 where
  pub amount : F
  pub account_number : String
  pub account_name : String
  pub bank_code : String
  pub currency : String
  pub pin : String
  pub reason : String

-- A `map[string]float64`, by its entries.
abbrev pub Rates : Type 0 → Type 0
Rates F = List (String × F)

-- The answer of the rate service as the handler of the rates reads it; the map is nil where the
-- answer has none.
pub record ExternalRateResponse (F : Type 0) : Type 0 where
  pub result : String
  pub base_code : String
  pub rates : Option (Rates F)
