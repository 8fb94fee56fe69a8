-- ===== src/Agent/Status.antt =====
-- The part of `tonic::Status` that the handlers build: a code and a message.
use keelos.Prelude.{String}

pub data Code : Type 0 where
  invalid_argument internal unauthenticated permission_denied failed_precondition : Code

pub record Status : Type 0 where
  pub code : Code
  pub message : String
