-- ===== src/Wfengine/Exit.antt =====
-- daemon/executor/exit.go: what a finished child reported.
use pm.Prelude.{
  ℕ, ◌+◌, Bool, true, false, ◌&&◌, Option, none, some, [], Text, ℤ, pos, negsuc, is_zero,
}

-- The shapes that cmd.Wait reports in: no error, a signal's number, name and message, an exit code
-- with its message, or an error of any other kind.
pub data Waited : Type 0 where
  clean : Waited
  signalled : ℕ → Text → Text → Waited
  exited : ℤ → Text → Waited
  broken : Text → Waited

pub record ExitInfo : Type 0 where
  -- The error's text; none for nil.
  pub error : Option Text
  pub code : ℤ
  pub signal : Text
  pub signaled : Bool
  pub known : Bool

-- ExitInfoFromWait.
unfoldable pub exit_info_from_wait : Waited → ExitInfo
exit_info_from_wait clean = record {
  error = none;
  code = pos 0;
  signal = [];
  signaled = false;
  known = true;
}
exit_info_from_wait (signalled n name message) = record {
  error = some message;
  code = pos (128 + n);
  signal = name;
  signaled = true;
  known = true;
}
exit_info_from_wait (exited code message) = record {
  error = some message;
  code = code;
  signal = [];
  signaled = false;
  known = true;
}
exit_info_from_wait (broken message) = record {
  error = some message;
  code = negsuc 0;
  signal = [];
  signaled = false;
  known = false;
}

-- The method Success.
unfoldable pub is_success : ExitInfo → Bool
is_success e = e.known && is_zero e.code
