-- ===== src/Tool/Runs.antt =====
-- kernel/tool.c: the `run` functions of the tools for files, numbers, pins, sessions and the policy.
-- The buffers of `run_read` and `run_write` lie on the stack up to 256 bytes and on the heap beyond.
use open_agent_os.Prelude.{
  ℕ, ◌+◌, ◌%◌, ◌^◌, Bool, true, false, not, ◌||◌, List, [], ◌∷◌, ℤ, pos, is_neg, is_zero, is_nonpos,
  pos_part, of_u32, ltb, leb, ◌==◌, if◌then◌else◌, length, Option, none, some,
}
use open_agent_os.Abi.{einval, efault, enospc, tool_policy}
use open_agent_os.Bytes.{Str, until_nul}
use open_agent_os.Ramfs.{file_size, read, write, at_start}
use open_agent_os.Mem.{Heap, kalloc}
use open_agent_os.Uaccess.{UserMem, user_strnlen, copy_from_user, copy_to_user}
use open_agent_os.Kernel.{agent_at, set_agent}
use open_agent_os.Policy as Rules
use open_agent_os.Quota as Limits
use open_agent_os.Tool.{Sys, Args, Entry, with_files}
use open_agent_os.Tool.Checks.{read_path_from_user, check_read, check_write, check_add, check_gpio}

abbrev pub io_buf : ℕ
io_buf = 256

-- `(int)x`
abbrev pub to_int : ℕ → ℤ
to_int x = of_u32 (x % 2 ^ 32)

-- `run_add`
unfoldable pub run_add : Sys → ℕ → Args → ℤ × Sys
run_add s i args = (to_int (args.arg0 + args.arg1), s)

-- `run_log`, which only prints.
unfoldable pub run_log : Sys → ℕ → Args → ℤ × Sys
run_log s i args = (pos 0, s)

-- `run_gpio`, which only prints.
unfoldable pub run_gpio : Sys → ℕ → Args → ℤ × Sys
run_gpio s i args = (to_int args.arg1, s)

-- The buffer of `run_read` and `run_write`: whether there is one, and the heap.
unfoldable pub io_buffer : Heap → ℕ → Bool × Heap
io_buffer heap len =
    let (at, heap') = kalloc heap len in
    if leb len io_buf then (true, heap) else ((elim at [ none ↦ false | some p ↦ true ]), heap')

-- `copy_to_user` and what follows it in `run_read`.
unfoldable pub give : Sys → ℕ → ℕ → ℤ → List ℕ → ℤ × Sys
give s i ua rc bs = elim (copy_to_user (agent_at s.kernel i).mem ua bs) [
  | none ↦ (efault, s)
  | some um ↦
      (rc, record s { kernel = set_agent s.kernel i (record (agent_at s.kernel i) { mem = um }) })
]

-- `run_read` of a path, with `len` as an `int`.
unfoldable pub read_file : Sys → ℕ → Str → ℕ → ℤ → ℤ × Sys
read_file s i path ua len =
    let (room, heap) = io_buffer s.heap (pos_part len) in
    let (rc, bs) = read s.kernel.files path 0 len in
    let s' : Sys = record s { heap = heap } in
    if is_nonpos len || ltb file_size (pos_part len)
    then (einval, s)
    else (if room then (if is_neg rc then (rc, s') else give s' i ua rc bs) else (enospc, s'))

-- `run_read`
unfoldable pub run_read : Sys → ℕ → Args → ℤ × Sys
run_read s i args =
    let (rc, path) = read_path_from_user (agent_at s.kernel i).mem args.arg0 in
    if is_zero rc then read_file s i path args.arg1 (to_int args.arg2) else (einval, s)

-- `ramfs_write` and the quota before it in `run_write`.
unfoldable pub store : Sys → ℕ → Str → List ℕ → ℤ → ℤ × Sys
store s i path bs len =
    let quota = Limits.fs_allow_new s.kernel.files i path in
    let (rc, fs) = write s.kernel.files path at_start bs len in
    if is_zero quota then (rc, with_files s fs) else (quota, s)

-- `run_write` of a path.
unfoldable pub write_file : Sys → ℕ → Str → ℕ → ℤ → ℤ × Sys
write_file s i path ua len =
    let (room, heap) = io_buffer s.heap (pos_part len) in
    let s' : Sys = record s { heap = heap } in
    if is_nonpos len || ltb file_size (pos_part len)
    then (einval, s)
    else (if room
        then (elim (copy_from_user (agent_at s.kernel i).mem ua (pos_part len)) [
          | none ↦ (efault, s')
          | some bs ↦ store s' i path bs len
        ])
        else (enospc, s'))

-- `run_write`
unfoldable pub run_write : Sys → ℕ → Args → ℤ × Sys
run_write s i args =
    let (rc, path) = read_path_from_user (agent_at s.kernel i).mem args.arg0 in
    if is_zero rc then write_file s i path args.arg1 (to_int args.arg2) else (einval, s)

-- The string that the commands of `run_policy` copy into an array of `max` + 1 bytes.
unfoldable pub policy_string : Option UserMem → ℕ → ℕ → Option Str
policy_string um ua max =
    let len = user_strnlen um ua max in
    if is_neg len then none else (elim (copy_from_user um ua (pos_part len + 1)) [
      | none ↦ none
      | some bs ↦ some (until_nul (pos_part len + 1) bs)
    ])

abbrev pub with_policy : Sys → ℤ × Rules.Policy → ℤ × Sys
with_policy s out = (out.0, record s { policy = out.1 })

-- `run_policy` for the commands 0 to 4.
unfoldable pub run_rules : Sys → ℕ → ℕ → ℕ → ℤ × Sys
run_rules s i cmd arg1 =
    let named = policy_string (agent_at s.kernel i).mem arg1 127 in
    if cmd == 0
    then (pos (length s.policy.deny_tools), s)
    else (if cmd == 1
        then (if arg1 == 0
            then with_policy s (Rules.load s.policy s.kernel.files [])
            else (elim named [
              | none ↦ (efault, s)
              | some path ↦ with_policy s (Rules.load s.policy s.kernel.files path)
            ]))
        else (if cmd == 2
            then (Rules.tool_allow s.policy (to_int arg1), s)
            else (if cmd == 3
                then with_policy s (Rules.deny_tool s.policy (to_int arg1))
                else with_policy s (Rules.allow_tool s.policy (to_int arg1)))))

-- `run_policy` for the commands 5 to 7, and EINVAL for any other.
unfoldable pub run_net : Sys → ℕ → ℕ → Args → ℤ × Sys
run_net s i cmd args =
    let named = policy_string (agent_at s.kernel i).mem args.arg1 63 in
    if cmd == 5
    then (if args.arg1 == 0 then (einval, s) else (elim named [
      | none ↦ (efault, s)
      | some host ↦ with_policy s (Rules.net_add_allow s.policy host (args.arg2 % 2 ^ 16))
    ]))
    else (if cmd == 6
        then (pos (length s.policy.net_allowed), s)
        else (if cmd == 7
            then with_policy s (Rules.net_set_restrict s.policy (not (args.arg1 % 2 ^ 32 == 0)))
            else (einval, s)))

-- `run_policy`
unfoldable pub run_policy : Sys → ℕ → Args → ℤ × Sys
run_policy s i args =
    let cmd = args.arg0 % 2 ^ 32 in
    if leb cmd 4 then run_rules s i cmd args.arg1 else run_net s i cmd args

-- The rows of `tool_table` for these tools.
abbrev pub rows : List Entry
rows =
    record { tool = 0; cap = 0; check = λ s i args. pos 0; run = run_log }
    ∷ record { tool = 1; cap = 1; check = check_add; run = run_add }
    ∷ record { tool = 3; cap = 6; check = check_read; run = run_read }
    ∷ record { tool = 4; cap = 6; check = check_write; run = run_write }
    ∷ record { tool = 10; cap = 10; check = check_gpio; run = run_gpio }
    ∷ record { tool = tool_policy; cap = 0; check = λ s i args. pos 0; run = run_policy }
    ∷ []
