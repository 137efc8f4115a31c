-- ===== src/Gateway/Errors.antt =====
-- services/api-gateway/src/error.rs: what a handler or a guard fails with.
use lokan_os.Prelude.{ℕ, Option, none, some}
use lokan_os.Prelude.Text.{Text, codes}

pub data ApiError : Type 0 where
  unauthorized : ApiError
  forbidden : Text → ApiError
  rate_limited : ℕ → ApiError
  upstream : Text → ApiError
  internal : ApiError
  validation : Text → ApiError

-- The response to an error: its status, the code and the message of its body, and the seconds of
-- the header Retry-After.
pub record ErrorResponse : Type 0 where
  pub status : ℕ
  pub code : Text
  pub message : Text
  pub retry_after : Option ℕ

-- ApiError::into_response
unfoldable pub into_response : ApiError → ErrorResponse
into_response unauthorized = record {
  status = 401;
  code = codes "unauthorized";
  message = codes "unauthorized";
  retry_after = none;
}
into_response (forbidden reason) = record {
  status = 403;
  code = codes "forbidden";
  message = reason;
  retry_after = none;
}
into_response (rate_limited seconds) = record {
  status = 429;
  code = codes "rate_limited";
  message = codes "rate limited";
  retry_after = some seconds;
}
into_response (upstream message) = record {
  status = 502;
  code = codes "upstream_error";
  message = message;
  retry_after = none;
}
into_response internal = record {
  status = 500;
  code = codes "internal_error";
  message = codes "internal server error";
  retry_after = none;
}
into_response (validation message) = record {
  status = 400;
  code = codes "invalid_request";
  message = message;
  retry_after = none;
}
