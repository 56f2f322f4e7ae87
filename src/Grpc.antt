-- ===== src/Grpc.antt =====
-- flowd/src/grpc/mod.rs: the service over the native store. A transport is tonic's: a request stands
-- for its decoded message, a reply for the message or for the status before it is encoded.
pub mod Unary
pub mod Watch
pub mod Agrees
use flowcontrol.Common.{String}
use flowcontrol.Error
use flowcontrol.Error.{DomainError, Code}

-- The status codes of tonic that the service uses.
pub data StatusCode : Type 0 where
  not_found invalid_argument failed_precondition internal : StatusCode

pub record Status : Type 0 where
  pub code : StatusCode
  pub message : String

-- `Result<tonic::Response<A>, tonic::Status>`
pub data Reply (A : Type 0) : Type 0 where
  response : A → Reply A
  status : Status → Reply A

abbrev pub status_code : Code → StatusCode
status_code Error.not_found = not_found
status_code Error.invalid_argument = invalid_argument
status_code Error.failed_precondition = failed_precondition
status_code Error.internal = internal

unfoldable pub into_status : DomainError → Status
into_status e = record { code = status_code e.code; message = e.message }
