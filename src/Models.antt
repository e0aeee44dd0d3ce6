-- ===== src/Models.antt =====
-- include/core/models.h and include/core/assertion.h: the records that the components share.
-- A `char *` is an optional text, its bytes up to the terminator; `none` is NULL. A tagged union is
-- a data type with a constructor for each tag. A `double` is its IEEE 754 bit pattern.
pub mod Create
use fman.Prelude.{ℕ, Bool, Option, Text}
use fman.Prelude.Int.{ℤ}

pub data Method : Type 0 where
  get post put delete patch head options : Method

pub data ResponseResults : Type 0 where
  response_ok response_curl_error response_internal_error response_cancelled : ResponseResults

pub record Response : Type 0 where
  pub id : ℤ
  pub request_id : ℤ
  pub status_code : ℤ
  pub headers : Option Text
  pub headers_len : ℕ
  pub headers_capacity : ℕ
  pub content_type : Option Text
  pub body : Option Text
  pub body_len : ℕ
  pub body_capacity : ℕ
  pub duration : ℕ
  pub result : ResponseResults

-- A pointer to a buffer, and the number of its bytes in use.
pub record Bytes : Type 0 where
  pub bytes : Option Text
  pub len : ℕ

pub record HeaderExpect : Type 0 where
  pub name : Option Text
  pub value : Option Text

pub data Value : Type 0 where
  value_none : Value
  value_int : ℤ → Value
  value_string : Option Text → Value
  value_bool : ℤ → Value
  value_double : ℕ → Value
  value_bytes : Bytes → Value
  value_header : HeaderExpect → Value

pub data AssertionType : Type 0 where
  assert_status_eq assert_body_contains assert_header_contains : AssertionType

pub record Assertion : Type 0 where
  pub type : AssertionType
  pub expected : Value

pub record AssertionResult : Type 0 where
  pub type : AssertionType
  pub passed : Bool
  pub expected : Value
  pub actual : Value
  pub message : Option Text

pub record Request : Type 0 where
  pub id : ℤ
  pub collection_id : ℤ
  pub method : Method
  pub url : Option Text
  pub url_len : ℕ
  pub headers : Option Text
  pub headers_len : ℕ
  pub body : Option Text
  pub body_len : ℕ
  pub status : ℤ

pub record Collection : Type 0 where
  pub id : ℤ
  pub name : Option Text
  pub name_len : ℕ

pub data WorkerOpType : Type 0 where
  http_request : WorkerOpType

pub record WorkerTask : Type 0 where
  pub type : WorkerOpType
  pub data_ptr : Option Request
