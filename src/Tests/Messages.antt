-- ===== src/Tests/Messages.antt =====
-- The bodies that the platform reads and writes, in a short form.
use mzl_payment_app.Common.{ℕ, zero, suc, String, true, ◌≡◌, refl, none, some, [], ◌∷◌}
use mzl_payment_app.Common.{◌==◌, ap}
use mzl_payment_app.Go.{GoError, Result, ok, err}
use mzl_payment_app.External.Messages.{
  Json, Codec, Job, PaystackTransferResponse, PaystackEvent, PaystackRecipientResponse,
}
use mzl_payment_app.External.Requests.{TransferRequest, SwapRequest, WithdrawalRequest}
use mzl_payment_app.Common.{eqb, if◌then◌else◌}
use Prim.Native.Char.{code}
use mzl_payment_app.Tests.Int.{ℤ, pos}

abbrev pub unread : {A : Type 0} → String → Result A
unread s = err (GoError.new s)

abbrev pub nothing : {A : Type 0} → Codec A
nothing = record { marshal = λ _. ok ""; unmarshal = unread }

abbrev pub texts : Codec String
texts = record { marshal = ok; unmarshal = ok }

-- A job is written with one mark for each retry.
abbrev pub mark : ℕ → String → String
mark zero s = String.◌∷◌ "." s
mark (suc n) s = String.◌∷◌ "!" (mark n s)

abbrev pub unmark : String → Job
unmark String.[] = record { payload = ""; retries = 0 }
unmark (String.◌∷◌ c s) =
    if eqb (code c) b'!'
    then record (unmark s) { retries = suc (unmark s).retries }
    else record { payload = s; retries = 0 }

pub unmark-mark : (n : ℕ) (s : String) → unmark (mark n s) ≡ record { payload = s; retries = n }
unmark-mark zero s = refl
unmark-mark (suc n) s = rw (unmark-mark n s) refl

abbrev pub jobs : Codec Job
jobs = record { marshal = λ j. ok (mark j.retries j.payload); unmarshal = λ s. ok (unmark s) }

abbrev pub sent_answer : PaystackTransferResponse
sent_answer = record {
  status = true;
  message = "ok";
  transfer_code = "TRF";
  reference = "ref";
  transfer_status = "pending";
}

abbrev pub recipient_answer : PaystackRecipientResponse
recipient_answer = record { status = true; message = "ok"; recipient_code = "RCP" }

-- Bola's card is charged 700 kobo.
abbrev pub charge : PaystackEvent ℤ
charge = record {
  event = "charge.success";
  reference = "p1";
  transfer_code = "";
  amount = pos 700;
  currency = "NGN";
  status = "success";
  email = "bola@x";
}

-- Twenty NGN for Bola; the body of the request is the PIN.
abbrev pub transfer_body : String → TransferRequest ℤ
transfer_body s = record {
  account_number = "1000000002";
  currency = "NGN";
  amount = pos 20;
  pin = s;
  description = "rent";
}

abbrev pub swap_body : String → SwapRequest ℤ
swap_body s = record { from_currency = "NGN"; to_currency = "USD"; amount = pos 20; pin = s }

abbrev pub withdrawal_body : String → WithdrawalRequest ℤ
withdrawal_body s = record {
  amount = pos 20;
  account_number = "0123456789";
  account_name = "Ada";
  bank_code = "058";
  currency = "NGN";
  pin = s;
  reason = "";
}

abbrev pub messages : Json ℤ
messages = record {
  text_codec = texts;
  job_codec = jobs;
  job_read = λ j. (mark j.retries j.payload, refl, ap ok (unmark-mark j.retries j.payload));
  wallet_codec = nothing;
  history_codec = nothing;
  bytes_codec = nothing;
  banks_codec = nothing;
  user_codec = nothing;
  decode_init = unread;
  decode_recipient = λ _. ok recipient_answer;
  decode_transfer = λ _. ok sent_answer;
  decode_banks = unread;
  decode_resolve = unread;
  decode_verify = unread;
  decode_rates = λ _. ok (record { rates = λ c. if c == "USD" then some (pos 2) else none });
  decode_event = λ _. ok charge;
  decode_reference = λ s. (true, s);
  decode_register = unread;
  decode_login = unread;
  decode_set_pin = λ s. ok (record { pin = s });
  decode_resolve_account = unread;
  decode_fund = λ s. ok (record { currency = s; amount = pos 20; description = "" });
  decode_transfer_funds = λ s. ok (transfer_body s);
  decode_swap = λ s. ok (swap_body s);
  decode_initiate = unread;
  decode_withdrawal = λ s. ok (withdrawal_body s);
  decode_external_rates = λ _.
      ok (record { result = "success"; base_code = "USD"; rates = some (("NGN", pos 1500) ∷ []) });
}
