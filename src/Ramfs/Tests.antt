-- ===== src/Ramfs/Tests.antt =====
-- Examples for kernel/ramfs.c: a table of three slots, of which two are in use.
use open_agent_os.Prelude.{
  ℕ, ◌+◌, ◌≤◌, ◌≡◌, ◌⊎◌, refl, ap, true, false, List, [], ◌∷◌, ◌++◌, pos, replicate, take, drop,
  length, some, none, arith, length-replicate,
}
use open_agent_os.Abi.{enospc}
use open_agent_os.Bytes.{Str, AllNonzero, str_eq}
use open_agent_os.Ramfs.{
  Files, Offset, read, put, write, clear_user, find_file, find_free, lookup_create, claim, str_copy,
}
use open_agent_os.Ramfs.Content.{or_empty, content, read_bytes, AllFiles, read_lem}
use open_agent_os.Ramfs.Names.{AllNames}
use open_agent_os.Ramfs.Distinct.{put-write-clear_user-AllNames}
use open_agent_os.Ramfs.Laws.{Stores, IsFull, old_bytes, put_lem, write_lem}

-- "/a", "/sys/b" and "/c"
abbrev name_a : Str
name_a = b'/' ∷ b'a' ∷ []

abbrev name_sys : Str
name_sys = b'/' ∷ b's' ∷ b'y' ∷ b's' ∷ b'/' ∷ b'b' ∷ []

abbrev name_c : Str
name_c = b'/' ∷ b'c' ∷ []

abbrev zeros : List ℕ
zeros = replicate 8192 0

abbrev table : Files
table =
    record { path = name_a; bytes = 1 ∷ 2 ∷ 3 ∷ replicate 8189 0; size = 3; used = true }
    ∷ record { path = name_sys; bytes = 7 ∷ replicate 8191 0; size = 1; used = true }
    ∷ record { path = []; bytes = replicate 8192 0; size = 0; used = false }
    ∷ []

pub table-AllFiles : AllFiles table
table-AllFiles = (
  record { array = omega (arith, length-replicate {A = ℕ} 8189 0); fits = omega arith },
  (
    record { array = omega (arith, length-replicate {A = ℕ} 8191 0); fits = omega arith },
    (record { array = length-replicate {A = ℕ} 8192 0; fits = omega arith }, tt),
  ),
)

read_lem_example : read table name_a 1 (pos 5) ≡ read_bytes (content table name_a) 1 (pos 5)
read_lem_example = read_lem table name_a 1 (pos 5) table-AllFiles

put_lem_example :
    (((put table name_c (4 ∷ 5 ∷ 6 ∷ []) (pos 2)).0 ≡ pos 0)
      × Stores table (put table name_c (4 ∷ 5 ∷ 6 ∷ []) (pos 2)).1 name_c (take 2 (4 ∷ 5 ∷ 6 ∷ [])))
    ⊎ ((put table name_c (4 ∷ 5 ∷ 6 ∷ []) (pos 2) ≡ (enospc, table)) × IsFull table name_c)
put_lem_example =
    put_lem table name_c (4 ∷ 5 ∷ 6 ∷ []) 2 table-AllFiles (omega arith) (omega arith) (omega arith)
      (omega arith)

abbrev at_one : Offset
at_one = record { value = 1; small = omega arith }

abbrev at_9000 : Offset
at_9000 = record { value = 9000; small = omega arith }

-- The contents of "/a".
holds_a : content table name_a ≡ some (take 3 (1 ∷ 2 ∷ 3 ∷ replicate 8189 0))
unfolding content str_eq
holds_a = refl

reaches_end : 1 ≤ length (old_bytes table name_a)
reaches_end = omega (arith, ap (λ o. length (or_empty o)) holds_a)

write_lem_example :
    (((write table name_a at_one (9 ∷ 9 ∷ 9 ∷ []) (pos 3)).0 ≡ pos 3)
      × Stores table (write table name_a at_one (9 ∷ 9 ∷ 9 ∷ []) (pos 3)).1 name_a (
          take 1 (old_bytes table name_a)
          ++ (take 3 (9 ∷ 9 ∷ 9 ∷ []) ++ drop (1 + 3) (old_bytes table name_a))))
    ⊎ ((write table name_a at_one (9 ∷ 9 ∷ 9 ∷ []) (pos 3) ≡ (enospc, table)) × IsFull table name_a)
write_lem_example =
    write_lem table name_a (9 ∷ 9 ∷ 9 ∷ []) 3 table-AllFiles (omega arith) (omega arith)
      (omega arith) at_one reaches_end (omega arith)

put_succeeds : (put table name_c (4 ∷ 5 ∷ 6 ∷ []) (pos 2)).0 ≡ pos 0
unfolding put lookup_create find_file find_free claim str_eq str_copy
put_succeeds = refl

not_there : find_file table name_c ≡ none
unfolding find_file str_eq
not_there = refl

free_slot : find_free table ≡ some 2
unfolding find_free
free_slot = refl

-- The names of the table.
string_a : AllNonzero name_a
string_a = (λ e. omega arith, (λ e. omega arith, tt))

string_c : AllNonzero name_c
string_c = (λ e. omega arith, (λ e. omega arith, tt))

string_sys : AllNonzero name_sys
string_sys = (
  λ e. omega arith,
  (
    λ e. omega arith,
    (λ e. omega arith, (λ e. omega arith, (λ e. omega arith, (λ e. omega arith, tt)))),
  ),
)

table-AllNames : AllNames table
unfolding content str_eq
table-AllNames = (
  λ _. (string_a, omega arith, refl),
  (λ _. (string_sys, omega arith, refl), (λ u. absurd (cc u), tt)),
)

put-write-clear_user-AllNames_example :
    AllNames (put table name_c (4 ∷ 5 ∷ 6 ∷ []) (pos 2)).1
    × AllNames (write table name_c at_9000 (4 ∷ 5 ∷ 6 ∷ []) (pos 2)).1
    × AllNames (clear_user table)
put-write-clear_user-AllNames_example =
    put-write-clear_user-AllNames table name_c table-AllFiles table-AllNames string_c (omega arith)
      (4 ∷ 5 ∷ 6 ∷ []) (pos 2) at_9000
