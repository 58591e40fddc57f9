-- ===== src/External/Http.antt =====
-- A request that the program sends through `net/http`, and the answer to it.
use mzl_payment_app.Common.{ℕ, String, List}

-- A value of the JSON object in a body.
pub data Field (F : Type 0) : Type 0 where
  text : String → Field F
  float : F → Field F
  texts : List String → Field F

pub record Request (F : Type 0) : Type 0 where
  pub method : String
  pub url : String
  pub authorization : String
  pub content_type : String
  pub body : List (String × Field F)

pub record Response : Type 0 where
  pub status_code : ℕ
  pub body : String
