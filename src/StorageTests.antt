-- ===== src/StorageTests.antt =====
-- Examples for the files that kernel/namespace.c, tenant.c, session.c and audit.c keep: one agent's log,
-- its audit log and a free slot.
use open_agent_os.Prelude.{
  ℕ, ◌+◌, ◌≤◌, ◌≡◌, ◌≢◌, ◌⊎◌, refl, ap, true, false, [], ◌∷◌, ◌++◌, pos, replicate, take, length,
  some, arith, length-replicate, length-take,
}
use open_agent_os.Abi.{enospc, eio}
use open_agent_os.Bytes.{Str, str_eq_refl}
use open_agent_os.Decimal.{digits_from}
use open_agent_os.Paths.{is_digit}
use open_agent_os.Paths.Digits.{digits_from_ends}
use open_agent_os.Paths.Numbers.{value}
use open_agent_os.Ramfs.{File, Files}
use open_agent_os.Ramfs.Content.{content, or_empty, AllFiles}
use open_agent_os.Ramfs.Laws.{Stores}
use open_agent_os.Tenant.{session_path, session_path_ok, session_usage, session_quota}
use open_agent_os.Tenant.Paths.{session_path_ok-session_path}
use open_agent_os.Session.{append}
use open_agent_os.Session.Log.{new_line, log, append_lem, append_stops_at_half}

-- "hi"
abbrev hi : Str
hi = b'h' ∷ b'i' ∷ []

abbrev one_log : File
one_log = record {
  path = session_path (pos 3);
  bytes = b'h' ∷ b'i' ∷ b'\n' ∷ replicate 8189 0;
  size = 3;
  used = true;
}

abbrev long_log : File
long_log = record {
  path = session_path (pos 3);
  bytes = replicate 8192 b'x';
  size = 5000;
  used = true;
}

abbrev free : File
free = record { path = []; bytes = replicate 8192 0; size = 0; used = false }

abbrev store : Files
store = one_log ∷ free ∷ []

abbrev long_store : Files
long_store = long_log ∷ free ∷ []

store-AllFiles : AllFiles store
store-AllFiles = (
  record { array = omega (arith, length-replicate {A = ℕ} 8189 0); fits = omega arith },
  (record { array = length-replicate {A = ℕ} 8192 0; fits = omega arith }, tt),
)

long_store-AllFiles : AllFiles long_store
long_store-AllFiles = (
  record { array = length-replicate {A = ℕ} 8192 b'x'; fits = omega arith },
  (record { array = length-replicate {A = ℕ} 8192 0; fits = omega arith }, tt),
)

not_digit : is_digit b'/' ≡ false
unfolding is_digit
not_digit = refl

session_path_ok-session_path_example : session_path_ok 3 (session_path (pos 3)) ≡ false
session_path_ok-session_path_example = session_path_ok-session_path 3 (pos 3)

append_lem_example :
    (((append store 3 hi).0 ≡ pos (length (new_line hi)))
      × Stores store (append store 3 hi).1 (session_path (pos 3)) (log store 3 ++ new_line hi)
      × (session_usage store 3 + (length (log store 3) + length (new_line hi)) ≤ session_quota))
    ⊎ ((((append store 3 hi).0 ≡ enospc) ⊎ ((append store 3 hi).0 ≡ eio))
        × ((append store 3 hi).1 ≡ store))
append_lem_example = append_lem store 3 hi store-AllFiles (omega arith) (omega arith)

long_log_is : content long_store (session_path (pos 3)) ≡ some (take 5000 (replicate 8192 b'x'))
unfolding content
long_log_is = rw (str_eq_refl (session_path (pos 3))) refl

length-long_log : length (log long_store 3) ≡ 5000
length-long_log = omega (
  arith,
  ap (λ o. length (or_empty o)) long_log_is,
  length-take {A = ℕ} 5000 (replicate 8192 b'x'),
  length-replicate {A = ℕ} 8192 b'x',
)

append_stops_at_half_example :
    ((append long_store 3 hi).0 ≢ pos (length (new_line hi)))
    × ((append long_store 3 hi).1 ≡ long_store)
append_stops_at_half_example =
    append_stops_at_half long_store 3 hi long_store-AllFiles (omega arith) (omega arith)
      (omega (arith, length-long_log))

digits_from_ends_example : (digits_from 20 7 ≡ digits_from 7 7) × (value (digits_from 7 7) ≡ 7)
digits_from_ends_example = digits_from_ends 20 7 (omega arith)
