-- ===== src/Session/Compact.antt =====
-- What `session_compact` leaves in the stored log.
use open_agent_os.Prelude.{ℕ, List, ◌++◌, length, drop}
use open_agent_os.Session.{compacted}

-- The compacted text in place of the first bytes of the log, and the rest of the log as it was.
abbrev pub overwritten : List ℕ → ℕ → List ℕ
overwritten bs start = compacted bs start ++ drop (length (compacted bs start)) bs
