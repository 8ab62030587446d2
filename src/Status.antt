-- ===== src/Status.antt =====
-- google.golang.org/grpc/codes: the status codes that the program names, and its errors. The text of
-- a status is left out.
pub data Code : Type 0 where
  not_found permission_denied already_exists invalid_argument internal : Code
  failed_precondition unavailable unknown deadline_exceeded : Code

-- An error of a call: a gRPC status, or an error that is none.
pub data CallError : Type 0 where
  status : Code → CallError
  plain : CallError
