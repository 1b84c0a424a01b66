-- ===== src/Abi.antt =====
-- include/agentos.h: the sizes, message types, capabilities and error codes that the kernel and
-- its agents share, and the record of a message.
use open_agent_os.Prelude.{ℕ, List, ℤ, pos, negsuc, replicate}

abbrev pub max_agents : ℕ
max_agents = 12

abbrev pub msg_capacity : ℕ
msg_capacity = 16

abbrev pub msg_steer_capacity : ℕ
msg_steer_capacity = 4

abbrev pub msg_payload_size : ℕ
msg_payload_size = 224

abbrev pub msg_steer : ℤ
msg_steer = pos 0x8001

abbrev pub msg_summary : ℤ
msg_summary = pos 0x8003

-- A capability is the number of its bit in the mask `caps`.
abbrev pub cap_send : ℕ
cap_send = 3

abbrev pub cap_recv : ℕ
cap_recv = 4

abbrev pub eperm : ℤ
eperm = negsuc 0

abbrev pub einval : ℤ
einval = negsuc 1

abbrev pub enoent : ℤ
enoent = negsuc 2

abbrev pub enospc : ℤ
enospc = negsuc 3

abbrev pub eagain : ℤ
eagain = negsuc 4

abbrev pub eio : ℤ
eio = negsuc 6

abbrev pub enodev : ℤ
enodev = negsuc 5

abbrev pub efault : ℤ
efault = negsuc 8

-- `enum agent_phase`
pub data Phase : Type 0 where
  idle turn tool llm_wait wait_ipc : Phase

-- `struct agent_msg`; the payload is the whole array of bytes.
pub record Msg : Type 0 where
  pub sender_id : ℤ
  pub kind : ℤ
  pub payload : List ℕ

-- What stands in a slot that no message was ever copied to.
abbrev pub blank : Msg
blank = record { sender_id = pos 0; kind = pos 0; payload = replicate msg_payload_size 0 }

abbrev pub tool_quota : ℕ
tool_quota = 21

abbrev pub tool_fleet : ℕ
tool_fleet = 22

abbrev pub tool_policy : ℕ
tool_policy = 23

abbrev pub tool_remote : ℕ
tool_remote = 24

abbrev pub tool_mesh : ℕ
tool_mesh = 25

abbrev pub cap_fs : ℕ
cap_fs = 6
