-- ===== src/Agent/Io.antt =====
-- The part of `std::io::Error` that the code makes and reads.
use keelos.Prelude.{String, Result}

pub data ErrorKind : Type 0 where
  not_found invalid_data other : ErrorKind

pub record IoError : Type 0 where
  pub kind : ErrorKind
  pub message : String

abbrev pub Io : Type 0 → Type 0
Io A = Result A IoError
