-- ===== src/Status.antt =====
-- src/status.h: the error codes, and the `int` results that carry them.
use boi_os.Prelude.{ℕ}

-- The codes of status.h. A function returns one negated.
pub data Errno : Type 0 where
  eio einvarg enomem ebadpath efsnotus erdonly eunimp eistkn einformat : Errno

-- An `int` result: a value that is not negative, or a negated code.
pub data Response : Type 0 where
  ok : ℕ → Response
  err : Errno → Response
