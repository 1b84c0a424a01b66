-- ===== src/Tool/Log.antt =====
-- kernel/tool.c: what the log of a tool call does to the files.
use open_agent_os.Prelude.{
  ℕ, ◌-◌, ◌^◌, ◌≤◌, ◌<◌, ◌≡◌, ◌⊎◌, refl, ap, sym, ◌∙◌, subst, false, List, ◌∷◌, ℤ, pos, arith, leb,
  if◌then◌else◌, take, drop, length, length-append, length-take, take-length_le, ◌++◌, some,
  Bool-cases, inl, inr, is_nonpos, int_eq, get_or,
}
use open_agent_os.Abi.{enospc}
use open_agent_os.Bytes.{Str, str_eq}
use open_agent_os.Ramfs.{Files, path_max, file_size, read, put}
use open_agent_os.Ramfs.Content.{content, AllFiles}
use open_agent_os.Ramfs.Laws.{Stores, put_lem}
use open_agent_os.Audit as Trail
use open_agent_os.Audit.{path_for, compact_head, compact_text, clamp_keep, line_starts}
use open_agent_os.Audit.Laws.{HasNoRoom, log, audit_write_lem, length-path_for}
use open_agent_os.Tool.{log_line}

-- A well-formed table of as many slots, with every path but `p` as it was.
pub record KeepsOthers (fs fs' : Files) (p : Str) : Type 0 where
  pub files : AllFiles fs'
  pub same_length : length fs' ≡ length fs
  pub others : (q : Str) → str_eq p q ≡ false → content fs' q ≡ content fs q

pub KeepsOthers-refl : (fs : Files) (p : Str) → AllFiles fs → KeepsOthers fs fs p
KeepsOthers-refl fs p v = record { files = v; same_length = refl; others = λ q e. refl }

KeepsOthers-trans :
    (fs fs' fs'' : Files) (p : Str)
    → KeepsOthers fs fs' p
    → KeepsOthers fs' fs'' p
    → KeepsOthers fs fs'' p
KeepsOthers-trans fs fs' fs'' p a b = record {
  files = b.files;
  same_length = b.same_length ∙ a.same_length;
  others = λ q e. b.others q e ∙ a.others q e;
}

Stores-KeepsOthers :
    (fs fs' : Files) (p : Str) (bs : List ℕ) → Stores fs fs' p bs → KeepsOthers fs fs' p
Stores-KeepsOthers fs fs' p bs s = record {
  files = s.files;
  same_length = s.same_length;
  others = λ q e. s.map_is q ∙ ap (λ b. if b then some bs else content fs q) e;
}

put-KeepsOthers :
    (fs : Files) (p : Str) (text : List ℕ)
    → AllFiles fs
    → length p < path_max
    → 0 < length text
    → length text < file_size
    → KeepsOthers fs (put fs p text (pos (length text))).1 p
put-KeepsOthers fs p text v short some_bytes fits =
    elim (put_lem fs p text (length text) v short some_bytes (omega arith) fits) [
      | inl (done, stored) ↦
          Stores-KeepsOthers fs (put fs p text (pos (length text))).1 p (take (length text) text)
            stored
      | inr (failed, _) ↦ rw failed (KeepsOthers-refl fs p v)
    ]

length-compact_head :
    (keep : ℕ) → (9 ≤ length (compact_head keep)) × (length (compact_head keep) ≤ 12)
unfolding compact_head
length-compact_head keep = ground arith

text_bounds :
    (keep start : ℕ) (bs : List ℕ)
    → (0 < length (compact_text keep start bs)) × (length (compact_text keep start bs) < file_size)
unfolding compact_text
text_bounds keep start bs =
    let head = compact_head keep in
    let rest = file_size - 1 - length head in
    let (low, high) = length-compact_head keep in
    let whole = length-append head (take rest (drop start bs)) in
    (omega (arith, low, whole), omega (arith, high, whole, length-take rest (drop start bs)))

compact-KeepsOthers :
    (fs : Files) (i : ℕ) (keep : ℤ)
    → AllFiles fs
    → i < 2 ^ 31
    → KeepsOthers fs (Trail.compact fs i keep).1 (path_for (pos i))
unfolding Trail.compact
compact-KeepsOthers fs i keep v small =
    let p = path_for (pos i) in
    let k = clamp_keep keep in
    let (n, bs) = read fs p 0 (pos file_size) in
    let starts = 0 ∷ line_starts 1 0 bs in
    let start = get_or starts (length starts - k) 0 in
    let (some_bytes, fits) = text_bounds k start bs in
    elim (Bool-cases (is_nonpos n)) [
      | inl nothing ↦ rw nothing (KeepsOthers-refl fs p v)
      | inr something ↦ elim (Bool-cases (leb (length starts) k)) [
        | inl few ↦ rw (something, few) (KeepsOthers-refl fs p v)
        | inr many ↦
            rw (something, many)
              (put-KeepsOthers fs p (compact_text k start bs) v (length-path_for i small) some_bytes
                fits)
      ]
    ]

write-KeepsOthers :
    (fs : Files) (i : ℕ) (line : List ℕ)
    → AllFiles fs
    → i < 2 ^ 31
    → 0 < length line
    → KeepsOthers fs (Trail.write fs i line (pos (length line))).1 (path_for (pos i))
write-KeepsOthers fs i line v small some_bytes =
    elim (audit_write_lem fs i (length line) line v some_bytes (omega arith) small) [
      | inl (_, stored, _) ↦ Stores-KeepsOthers fs _ (path_for (pos i)) _ stored
      | inr (_, same, _) ↦
          subst (λ x. KeepsOthers fs x (path_for (pos i))) (sym same)
            (KeepsOthers-refl fs (path_for (pos i)) v)
    ]

pub log_line-KeepsOthers :
    (fs : Files) (i : ℕ) (line : List ℕ)
    → AllFiles fs
    → i < 2 ^ 31
    → 0 < length line
    → KeepsOthers fs (log_line fs i line) (path_for (pos i))
unfolding log_line
log_line-KeepsOthers fs i line v small some_bytes =
    let p = path_for (pos i) in
    let (rc, fs') = Trail.write fs i line (pos (length line)) in
    let one = write-KeepsOthers fs i line v small some_bytes in
    let fs'' = (Trail.compact fs' i (pos 8)).1 in
    let two = compact-KeepsOthers fs' i (pos 8) one.files small in
    let three = write-KeepsOthers fs'' i line two.files small some_bytes in
    elim (Bool-cases (int_eq rc enospc)) [
      | inr other ↦ rw other one
      | inl full ↦
          rw full (KeepsOthers-trans fs fs' _ p one (KeepsOthers-trans fs' fs'' _ p two three))
    ]

-- The line is added at the end of the agent's log, or there was no room for it and no other file is
-- changed.
abbrev pub Logged : Files → Files → ℕ → List ℕ → Type 0
Logged fs fs' i line =
    Stores fs fs' (path_for (pos i)) (log fs i ++ line)
    ⊎ (HasNoRoom fs i (length line) × KeepsOthers fs fs' (path_for (pos i)))

pub log_line-Logged :
    (fs : Files) (i : ℕ) (line : List ℕ)
    → AllFiles fs
    → i < 2 ^ 31
    → 0 < length line
    → Logged fs (log_line fs i line) i line
unfolding log_line
log_line-Logged fs i line v small some_bytes =
    let p = path_for (pos i) in
    let (rc, fs') = Trail.write fs i line (pos (length line)) in
    elim (audit_write_lem fs i (length line) line v some_bytes (omega arith) small) [
      | inl (done, stored, _) ↦
          let fine : int_eq rc enospc ≡ false = rw done refl in
          inl (
            rw fine (
              subst (λ bs. Stores fs fs' p (log fs i ++ bs))
                (take-length_le (length line) line (omega arith)) stored))
      | inr (_, _, no_room) ↦ inr (no_room, log_line-KeepsOthers fs i line v small some_bytes)
    ]
