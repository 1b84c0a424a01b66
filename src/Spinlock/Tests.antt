-- ===== src/Spinlock/Tests.antt =====
-- Examples for kernel/spinlock.c: three harts.
use open_agent_os.Prelude.{◌≤◌, ◌≡◌, refl, true, false, [], ◌∷◌, get_or, arith}
use open_agent_os.Spinlock.{Lock, init, try_acquire, release, Turns, tries, done, after}
use open_agent_os.Spinlock.Exclusion.{holders, exclusion, extra_release}

-- Hart 1 takes the lock, and hart 2 tries.
abbrev contended : Lock
contended = try_acquire (try_acquire (init 3) 1) 2

turns : Turns (init 3) contended
unfolding init try_acquire
turns = after (init 3) (try_acquire (init 3) 1) contended (tries (init 3) 1 (omega arith)) (
    after (try_acquire (init 3) 1) contended contended
      (tries (try_acquire (init 3) 1) 2 (omega arith)) (done contended))

exclusion_example : (holders contended.holds ≡ contended.locked) × (contended.locked ≤ 1)
exclusion_example = exclusion 3 contended turns

-- Hart 1 holds the lock.
abbrev held : Lock
held = record { locked = 1; holds = false ∷ true ∷ false ∷ [] }

extra_release_example :
    (get_or (try_acquire (release held 0) 2).holds 1 false ≡ true)
    × (get_or (try_acquire (release held 0) 2).holds 2 false ≡ true)
extra_release_example =
    extra_release held 1 2 0 (λ e. omega arith) (λ e. omega arith) (omega arith) refl
