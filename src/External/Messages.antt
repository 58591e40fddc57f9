-- ===== src/External/Messages.antt =====
-- `encoding/json` for the types that the program stores and reads, and the messages of Paystack
-- (internals/service/payment_service.go, internals/service/paystack.go) and of the rate service.
use mzl_payment_app.Common.{ℕ, String, Bool, Option, List, ◌≡◌}
use mzl_payment_app.Go.{Result, ok}
use mzl_payment_app.Schema.Tables.{Wallet, WalletAsset, Transaction}
use mzl_payment_app.External.Requests.{
  RegisterRequest, LoginRequest, SetPinRequest, ResolveAccountRequest, FundRequest, TransferRequest,
  SwapRequest, InitiatePaymentRequest, WithdrawalRequest, ExternalRateResponse,
}

-- `json.Marshal` and `json.Unmarshal` at one type.
pub record Codec (A : Type 0) : Type 0 where
  pub marshal : A → Result String
  pub unmarshal : String → Result A

pub record PaystackInitResponse : Type 0 where
  pub status : Bool
  pub message : String
  pub authorization_url : String
  pub access_code : String
  pub reference : String

pub record PaystackRecipientResponse : Type 0 where
  pub status : Bool
  pub message : String
  pub recipient_code : String

pub record PaystackTransferResponse : Type 0 where
  pub status : Bool
  pub message : String
  pub transfer_code : String
  pub reference : String
  pub transfer_status : String

pub record BankListResponse : Type 0 where
  pub status : Bool
  pub message : String
  pub banks : List String

pub record ResolveResponse : Type 0 where
  pub status : Bool
  pub message : String
  pub account_name : String
  pub account_number : String

pub record VerifyResponse (F : Type 0) : Type 0 where
  pub status : Bool
  pub message : String
  pub payment_status : String
  pub reference : String
  pub amount : F
  pub currency : String
  pub email : String

pub record ExchangeRateResponse (F : Type 0) : Type 0 where
  pub rates : String → Option F

-- The event of a webhook.
pub record PaystackEvent (F : Type 0) : Type 0 where
  pub event : String
  pub reference : String
  pub transfer_code : String
  pub amount : F
  pub currency : String
  pub status : String
  pub email : String

-- internals/pkg/redis.go: a job of the queue.
pub record Job : Type 0 where
  pub payload : String
  pub retries : ℕ

-- internals/service/auth_service.go: what the cache keeps of a user.
pub record UserCacheDto : Type 0 where
  pub id : String
  pub email : String
  pub full_name : String
  pub transaction_pin : String

pub record Json (F : Type 0) : Type 0 where
  pub text_codec : Codec String
  pub job_codec : Codec Job
  -- a job is read as it was written
  pub job_read :
      (j : Job) → (s : String) × (job_codec.marshal j ≡ ok s) × (job_codec.unmarshal s ≡ ok j)
  pub wallet_codec : Codec (Wallet × List (WalletAsset F))
  pub history_codec : Codec (List (Transaction F))
  pub bytes_codec : Codec String
  pub banks_codec : Codec (List String)
  pub user_codec : Codec UserCacheDto
  pub decode_init : String → Result PaystackInitResponse
  pub decode_recipient : String → Result PaystackRecipientResponse
  pub decode_transfer : String → Result PaystackTransferResponse
  pub decode_banks : String → Result BankListResponse
  pub decode_resolve : String → Result ResolveResponse
  pub decode_verify : String → Result (VerifyResponse F)
  pub decode_rates : String → Result (ExchangeRateResponse F)
  pub decode_event : String → Result (PaystackEvent F)
  -- the bodies of the requests that the handlers read
  pub decode_register : String → Result RegisterRequest
  pub decode_login : String → Result LoginRequest
  pub decode_set_pin : String → Result SetPinRequest
  pub decode_resolve_account : String → Result ResolveAccountRequest
  pub decode_fund : String → Result (FundRequest F)
  pub decode_transfer_funds : String → Result (TransferRequest F)
  pub decode_swap : String → Result (SwapRequest F)
  pub decode_initiate : String → Result (InitiatePaymentRequest F)
  pub decode_withdrawal : String → Result (WithdrawalRequest F)
  pub decode_external_rates : String → Result (ExternalRateResponse F)
  -- whether a body is read without an error, and the reference that is set then
  pub decode_reference : String → Bool × String
