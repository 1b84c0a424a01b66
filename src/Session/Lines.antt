-- ===== src/Session/Lines.antt =====
-- kernel/session.c: line counts, and dropping from where a line starts.
use open_agent_os.Prelude.{
  ℕ, zero, suc, ◌+◌, ◌-◌, ◌≡◌, refl, ap, ◌∙◌, true, false, List, [], ◌∷◌, arith, if◌then◌else◌,
  ◌==◌, drop, drop-drop, Bool-cases, inl, inr,
}
use open_agent_os.Session.{newlines, count_lines, line_length, line_start_at}

count_lines-cons :
    (b c : ℕ) (bs : List ℕ)
    → count_lines (b ∷ c ∷ bs) ≡ (if b == b'\n' then 1 else 0) + count_lines (c ∷ bs)
unfolding count_lines newlines
count_lines-cons b c bs = ground arith

count_lines-one : (b : ℕ) → count_lines (b ∷ []) ≡ 1
unfolding count_lines newlines
count_lines-one b = ground arith

count_lines-nil : count_lines [] ≡ 0
unfolding count_lines
count_lines-nil = refl

line_length-nil : line_length [] ≡ 0
unfolding line_length
line_length-nil = refl

line_length-newline : (b : ℕ) (bs : List ℕ) → (b == b'\n') ≡ true → line_length (b ∷ bs) ≡ 1
unfolding line_length
line_length-newline b bs e = rw (e, line_length)

line_length-other :
    (b : ℕ) (bs : List ℕ) → (b == b'\n') ≡ false → line_length (b ∷ bs) ≡ suc (line_length bs)
unfolding line_length
line_length-other b bs e = rw (e, line_length)

-- One line fewer after the first line.
count_lines-drop :
    (b : ℕ) (bs : List ℕ)
    → count_lines (b ∷ bs) ≡ suc (count_lines (drop (line_length (b ∷ bs)) (b ∷ bs)))
count_lines-drop b [] = elim (Bool-cases (b == b'\n')) [
  | inl e ↦ rw (line_length-newline b [] e, count_lines-one b, count_lines-nil) refl
  | inr e ↦
      rw (line_length-other b [] e)
        (ground (arith, count_lines-one b, line_length-nil, count_lines-nil))
]
count_lines-drop b (c ∷ bs) = elim (Bool-cases (b == b'\n')) [
  | inl e ↦ rw (line_length-newline b (c ∷ bs) e) (ground (arith, count_lines-cons b c bs))
  | inr e ↦ rw (line_length-other b (c ∷ bs) e) (
      let same : count_lines (b ∷ c ∷ bs) ≡ count_lines (c ∷ bs) =
        ground (arith, count_lines-cons b c bs) in
      same ∙ count_lines-drop c bs)
]

-- Dropping the bytes before the line of rank `k` drops exactly `k` lines, or all there are.
pub count_lines-drop_start :
    (k : ℕ) (bs : List ℕ) → count_lines (drop (line_start_at bs k) bs) ≡ count_lines bs - k
unfolding line_start_at
count_lines-drop_start zero bs = omega arith
count_lines-drop_start (suc k) bs =
    ap count_lines (drop-drop (line_length bs) (line_start_at (drop (line_length bs) bs) k) bs)
    ∙ count_lines-drop_start k (drop (line_length bs) bs)
    ∙ less bs
  where
    less : (bs : List ℕ) → count_lines (drop (line_length bs) bs) - k ≡ count_lines bs - suc k
    less [] = rw line_length-nil (omega (arith, count_lines-nil))
    less (b ∷ bs) = omega (arith, count_lines-drop b bs)
