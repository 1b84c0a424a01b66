-- ===== src/Tool/Strings.antt =====
-- kernel/tool.c: the path that `read_path_from_user` takes from a long string.
use open_agent_os.Prelude.{
  ℕ, zero, suc, ◌+◌, ◌%◌, ◌^◌, ◌≤◌, ◌<◌, ◌≡◌, ◌≢◌, refl, ap, ◌∙◌, true, false, [], ◌∷◌, pos, arith,
  ◌==◌, length, some,
}
use open_agent_os.Bytes.{until_nul}
use open_agent_os.Ramfs.{path_max}
use open_agent_os.Uaccess.{
  UserMem, access_ok, user_bytes, copy_from_user, strnlen_from, user_strnlen,
}
use open_agent_os.Tool.Checks.{read_path_from_user}

one_byte :
    (m : UserMem) (at : ℕ)
    → at < 2 ^ 64
    → access_ok (some m) at 1 false ≡ true
    → copy_from_user (some m) at 1 ≡ some (m.byte at ∷ [])
unfolding copy_from_user user_bytes access_ok
one_byte m at small ok = let same : at % 2 ^ 64 ≡ at = omega arith in ground (arith, ap m.byte same)

strnlen_full :
    (m : UserMem) (ua rounds n : ℕ)
    → ((k : ℕ) → n ≤ k → k < n + rounds → access_ok (some m) ((ua + k) % 2 ^ 64) 1 false ≡ true)
    → ((k : ℕ) → n ≤ k → k < n + rounds → m.byte ((ua + k) % 2 ^ 64) ≢ 0)
    → strnlen_from (some m) ua rounds n ≡ pos (n + rounds)
unfolding strnlen_from
strnlen_full m ua zero n ok nonzero = ap pos (omega arith)
strnlen_full m ua (suc rounds) n ok nonzero =
    let at = (ua + n) % 2 ^ 64 in
    let here = ok n (omega arith) (omega arith) in
    let byte = one_byte m at (omega arith) here in
    let there = nonzero n (omega arith) (omega arith) in
    let more : (m.byte at == 0) ≡ false = ground arith in
    let rest =
      strnlen_full m ua rounds (n + 1) (λ k lo hi. ok k (omega arith) (omega arith))
        (λ k lo hi. nonzero k (omega arith) (omega arith)) in
    rw (here, strnlen_from) (rw byte (rw more (rest ∙ ap pos (omega arith))))

length-user_string :
    (m : UserMem) (n ua : ℕ)
    → ((k : ℕ) → k < n → m.byte ((ua + k) % 2 ^ 64) ≢ 0)
    → length (until_nul n (user_bytes (some m) ua n)) ≡ n
unfolding until_nul user_bytes
length-user_string m zero ua nonzero = refl
length-user_string m (suc n) ua nonzero =
    let here : m.byte (ua % 2 ^ 64) ≢ 0 = λ e.
      nonzero 0 (omega arith)
        (ap (λ k. m.byte (k % 2 ^ 64)) (let z : ua + 0 ≡ ua = omega arith in z) ∙ e) in
    let there = length-user_string m n (ua + 1) (λ k lt e.
      nonzero (k + 1) (omega arith) (
        ap (λ j. m.byte (j % 2 ^ 64)) (let z : ua + (k + 1) ≡ ua + 1 + k = omega arith in z)
        ∙ e)) in
    let more : (m.byte (ua % 2 ^ 64) == 0) ≡ false = ground arith in rw more (ap suc there)

copied :
    (m : UserMem) (ua n : ℕ)
    → 0 < n
    → access_ok (some m) ua n false ≡ true
    → copy_from_user (some m) ua n ≡ some (user_bytes (some m) ua n)
unfolding copy_from_user access_ok
copied m ua n some_bytes ok = ground arith

strnlen_max :
    (m : UserMem) (ua max : ℕ)
    → ua ≢ 0
    → 0 < max
    → strnlen_from (some m) ua max 0 ≡ pos max
    → user_strnlen (some m) ua max ≡ pos max
unfolding user_strnlen
strnlen_max m ua max there some_room e = ground arith

-- When a user program names a path at an address other than 0, and the 64 bytes from there on can be
-- read, each alone and all together, and none of them is 0, `read_path_from_user` returns 0 and fills
-- the whole array of 64 bytes: it has no place left for a terminator.
pub read_path_from_user_full :
    (m : UserMem) (ua : ℕ)
    → ua ≢ 0
    → ((k : ℕ) → k < 64 → access_ok (some m) ((ua + k) % 2 ^ 64) 1 false ≡ true)
    → ((k : ℕ) → k < 64 → m.byte ((ua + k) % 2 ^ 64) ≢ 0)
    → access_ok (some m) ua 64 false ≡ true
    → ((read_path_from_user (some m) ua).0 ≡ pos 0)
      × (length (read_path_from_user (some m) ua).1 ≡ path_max)
unfolding read_path_from_user
read_path_from_user_full m ua there ok nonzero all =
    let counted = strnlen_max m ua 63 there (omega arith) (
      strnlen_full m ua 63 0 (λ k lo hi. ok k (omega arith)) (λ k lo hi. nonzero k (omega arith))
      ∙ ap pos (omega arith)) in
    let bytes = copied m ua 64 (omega arith) all in
    rw (counted, read_path_from_user)
      (rw bytes (rw counted (refl, length-user_string m 64 ua nonzero)))
