-- ===== src/Schema/Tables.antt =====
-- The tables of prisma/schema.prisma. `F` is the type of the columns that are `Float`; points in
-- time are numbers. A table is the list of its rows.
use mzl_payment_app.Common.{ℕ, String, Bool, true, false, List, Option, ◌&&◌, ◌==◌}

pub data TransactionType : Type 0 where
  deposit withdrawal transfer swap : TransactionType

pub data TransactionStatus : Type 0 where
  pending success failed : TransactionStatus

abbrev pub is_withdrawal : TransactionType → Bool
is_withdrawal TransactionType.withdrawal = true
is_withdrawal _ = false

abbrev pub is_failed : TransactionStatus → Bool
is_failed TransactionStatus.failed = true
is_failed _ = false

pub record User : Type 0 where
  pub id : String
  pub email : String
  pub password : String
  pub name : String
  pub transaction_pin : Option String

pub record RefreshToken : Type 0 where
  pub id : String
  pub token : String
  pub user_id : String
  pub expires_at : ℕ
  pub revoked : Bool
  pub created_at : ℕ

pub record Wallet : Type 0 where
  pub id : String
  pub account_number : String
  pub user_id : String
  pub created_at : ℕ

pub record WalletAsset (F : Type 0) : Type 0 where
  pub id : String
  pub wallet_id : String
  pub currency : String
  pub balance : F

pub record Transaction (F : Type 0) : Type 0 where
  pub id : String
  pub wallet_id : String
  pub amount : F
  pub currency : String
  pub type : TransactionType
  pub status : TransactionStatus
  pub reference : String
  pub description : Option String
  pub provider : Option String
  pub gateway_ref : Option String
  pub created_at : ℕ
  pub updated_at : ℕ

pub record Tables (F : Type 0) : Type 0 where
  pub users : List User
  pub refresh_tokens : List RefreshToken
  pub wallets : List Wallet
  pub assets : List (WalletAsset F)
  pub transactions : List (Transaction F)

module _ {F : Type 0} where
  -- `@@unique([walletId, currency])`: the key of an asset.
  abbrev pub has_key : String → String → WalletAsset F → Bool
  has_key wallet_id currency a = a.wallet_id == wallet_id && a.currency == currency

  abbrev pub same_key : WalletAsset F → WalletAsset F → Bool
  same_key a b = has_key a.wallet_id a.currency b

  -- `@id`
  abbrev pub same_id : WalletAsset F → WalletAsset F → Bool
  same_id a b = b.id == a.id
