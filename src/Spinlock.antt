-- ===== src/Spinlock.antt =====
-- kernel/spinlock.c: the lock that a hart takes by a test-and-set. A turn of a hart is one atomic
-- operation on the word; what the hart does with the lock held is between its turns.
pub mod Exclusion
mod Tests
use open_agent_os.Prelude.{
  ℕ, ◌+◌, ◌<◌, ◌≡◌, Bool, true, false, List, [], ◌∷◌, ◌==◌, if◌then◌else◌, get_or, set, length,
  replicate,
}

-- The word of the lock, and for each hart whether its last `spinlock_acquire` came through and it has
-- not released the lock since.
pub record Lock : Type 0 where
  pub locked : ℕ
  pub holds : List Bool

-- `spinlock_init`, before any of `n` harts has used the lock.
unfoldable pub init : ℕ → Lock
init n = record { locked = 0; holds = replicate n false }

-- One turn of the loop of `spinlock_acquire`: `__sync_lock_test_and_set` gives the old word.
unfoldable pub try_acquire : Lock → ℕ → Lock
try_acquire l hart =
    if l.locked == 0
    then record { locked = 1; holds = set l.holds hart true }
    else record l { locked = 1 }

-- `spinlock_release`
unfoldable pub release : Lock → ℕ → Lock
release l hart = record { locked = 0; holds = set l.holds hart false }

-- The turns of harts that follow the rules: they release only what they hold.
pub data Turn : Lock → Lock → Type 0 where
  tries : (l : Lock) (hart : ℕ) → hart < length l.holds → Turn l (try_acquire l hart)
  releases :
      (l : Lock) (hart : ℕ)
      → hart < length l.holds
      → get_or l.holds hart false ≡ true
      → Turn l (release l hart)

pub data Turns : Lock → Lock → Type 0 where
  done : (l : Lock) → Turns l l
  after : (l l' l'' : Lock) → Turn l l' → Turns l' l'' → Turns l l''
