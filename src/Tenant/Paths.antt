-- ===== src/Tenant/Paths.antt =====
-- kernel/tenant.c: the test of session paths on the paths under which sessions are stored.
use open_agent_os.Prelude.{
  ℕ, ◌^◌, ◌<◌, ◌≡◌, refl, false, ℤ, pos, arith, length, length-append, ◌≢◌, int_eq_iff,
}
use open_agent_os.Abi.{eperm}
use open_agent_os.Bytes.{starts_with}
use open_agent_os.Decimal.{decimal, decimal_int}
use open_agent_os.Paths.{id_after}
use open_agent_os.Paths.Digits.{length-decimal-le}
use open_agent_os.Ramfs.{Files, path_max}
use open_agent_os.Tenant.{
  parse_session_agent_id, session_path, session_path_ok, probe_cross_read, log_name,
}

-- `tenant_session_path_ok` refuses the path of every session log, the agent's own included: the
-- tests of `path[1]` to `path[13]` leave out the n of "session".
pub session_path_ok-session_path : (a : ℕ) (id : ℤ) → session_path_ok a (session_path id) ≡ false
unfolding session_path_ok parse_session_agent_id session_path id_after starts_with
session_path_ok-session_path a id = refl

-- So the cross-read probe is denied for every agent but the caller.
pub probe_cross_read_denied :
    (fs : Files) (a : ℕ) (target : ℤ) → target ≢ pos a → probe_cross_read fs a target ≡ eperm
unfolding probe_cross_read
probe_cross_read_denied fs a target other =
    ground (arith, session_path_ok-session_path a target, int_eq_iff target (pos a))

pub length-session_path : (a : ℕ) → a < 2 ^ 31 → length (session_path (pos a)) < path_max
unfolding session_path decimal_int
length-session_path a small =
    omega (
      arith,
      length-append (decimal a) log_name,
      length-decimal-le 10 a (omega arith) (omega arith),
    )
