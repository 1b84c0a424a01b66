-- ===== src/Policy/Parse.antt =====
-- kernel/policy.c: a file of rules that deny tools, and the policy that it is read into.
use open_agent_os.Prelude.{
  ℕ, ◌+◌, ◌-◌, ◌*◌, ◌%◌, ◌^◌, ◌≤◌, ◌<◌, ◌≡◌, refl, ap, sym, ◌∙◌, subst, true, false, ◌||◌, List, [],
  ◌∷◌, ◌++◌, ℤ, pos, arith, of_u32, ◌==◌, length, length-append, take-length_le, Bool-cases, inl,
  inr, some, append-nil, append_assoc,
}
use open_agent_os.Bytes.{Str, char_at, starts_with}
use open_agent_os.Decimal.{decimal, digits_from, put_back}
use open_agent_os.Paths.{is_digit, parse_digits}
use open_agent_os.Paths.Numbers.{decimal-starts, parse_digits-decimal}
use open_agent_os.Ramfs.{Files, file_size, read}
use open_agent_os.Ramfs.Content.{content, AllFiles, read_bytes, read_lem, content-lt}
use open_agent_os.Policy.{
  Policy, deny_max, deny_has, is_exempt, deny, deny_tool, skip_blanks, parse_deny, parse_line,
  lines_of, parse_lines, load,
}
use open_agent_os.Policy.Tools.{AllTools, deny_has-append}

-- "deny " and the number of a tool
abbrev pub deny_line : ℕ → Str
deny_line t = b'd' ∷ b'e' ∷ b'n' ∷ b'y' ∷ 32 ∷ decimal t

-- The text of a file that denies these tools, a line for each.
unfoldable pub deny_text : List ℕ → Str
deny_text [] = []
deny_text (t ∷ ts) = deny_line t ++ 10 ∷ deny_text ts

-- No byte ends a line.
abbrev IsPlain : Str → Type 0
IsPlain [] = Unit
IsPlain (c ∷ cs) = ((c == 10 || c == 0) ≡ false) × IsPlain cs

put_back-IsPlain : (ds acc : List ℕ) → IsPlain acc → IsPlain (put_back ds acc)
unfolding put_back
put_back-IsPlain [] acc v = v
put_back-IsPlain (d ∷ ds) acc v = put_back-IsPlain ds ((48 + d) ∷ acc) (ground arith, v)

decimal-IsPlain : (n : ℕ) → IsPlain (decimal n)
unfolding decimal
decimal-IsPlain n = elim (Bool-cases (n == 0)) [
  | inl e ↦ rw (e, decimal) (refl, tt)
  | inr e ↦ rw (e, decimal) (put_back-IsPlain (digits_from n n) [] tt)
]

lines_of-line : (xs rest : Str) → IsPlain xs → lines_of (xs ++ 10 ∷ rest) ≡ xs ∷ lines_of rest
unfolding lines_of
lines_of-line [] rest v = refl
lines_of-line (c ∷ cs) rest v = ground (arith, v.0, lines_of-line cs rest v.1)

skip_blanks-digit : (s : Str) → is_digit (char_at s 0) ≡ true → skip_blanks s ≡ s
unfolding skip_blanks is_digit
skip_blanks-digit [] e = refl
skip_blanks-digit (c ∷ cs) e = ground arith

-- A printed number begins with a digit.
decimal_starts : (n : ℕ) → is_digit (char_at (decimal n) 0) ≡ true
decimal_starts n =
    ap (λ s. is_digit (char_at s 0)) (sym (append-nil (decimal n))) ∙ decimal-starts n []

skip_blanks_number : (n : ℕ) → skip_blanks (decimal n) ≡ decimal n
skip_blanks_number n = skip_blanks-digit (decimal n) (decimal_starts n)

parse_digits_end :
    (id : ℕ) (xs : Str) (c : ℕ) (s : Str)
    → is_digit c ≡ false
    → (parse_digits id xs).0 ≡ (parse_digits id (xs ++ c ∷ s)).0
unfolding parse_digits
parse_digits_end id [] c s stop = ground arith
parse_digits_end id (x ∷ xs) c s stop =
    ground (arith, parse_digits_end ((id * 10 + (x - 48)) % 2 ^ 32) xs c s stop)

parse_digits_number : (n : ℕ) → n < 2 ^ 32 → (parse_digits 0 (decimal n)).0 ≡ n
unfolding is_digit
parse_digits_number n small =
    parse_digits_end 0 (decimal n) 32 [] refl
    ∙ ap (λ (x : ℕ × Str). x.0) (parse_digits-decimal n 32 [] small refl)

skip_blanks_blank : (s : Str) → skip_blanks (32 ∷ s) ≡ skip_blanks s
unfolding skip_blanks
skip_blanks_blank s = refl

parse_deny_number : (p : Policy) (t : ℕ) → t ≤ 31 → parse_deny p (32 ∷ decimal t) ≡ deny p t
unfolding parse_deny deny_tool
parse_deny_number p t small =
    let word : skip_blanks (32 ∷ decimal t) ≡ decimal t =
      skip_blanks_blank (decimal t) ∙ skip_blanks_number t in
    let signed : of_u32 t ≡ pos t = ground arith in
    let number : of_u32 (parse_digits 0 (decimal t)).0 ≡ pos t =
      ap of_u32 (parse_digits_number t (omega arith)) ∙ signed in
    rw (word, decimal_starts t, number) refl

parse_line-deny : (p : Policy) (t : ℕ) → t ≤ 31 → parse_line p (deny_line t) ≡ deny p t
unfolding parse_line skip_blanks starts_with
parse_line-deny p t small = parse_deny_number p t small

deny_fresh :
    (p : Policy) (t : ℕ)
    → t ≤ 31
    → is_exempt t ≡ false
    → deny_has p.deny_tools t ≡ false
    → length p.deny_tools < deny_max
    → (deny p t).1.deny_tools ≡ p.deny_tools ++ t ∷ []
unfolding deny
deny_fresh p t small free fresh room = ground arith

-- Tools that may be put on the list `acc` one after the other.
abbrev Fits : List ℕ → List ℕ → Type 0
Fits acc ts =
    AllTools ts
    × ((u : ℕ) → deny_has ts u ≡ true → deny_has acc u ≡ false)
    × (length acc + length ts ≤ deny_max)

Fits-step :
    (acc : List ℕ) (t : ℕ) (ts : List ℕ)
    → Fits acc (t ∷ ts)
    → (deny_has acc t ≡ false) × Fits (acc ++ t ∷ []) ts
unfolding deny_has
Fits-step acc t ts (v, apart, few) = (
  apart t (ground arith),
  (v.3, λ u e. apart_step u e (apart u), omega (arith, few, length-append acc (t ∷ []))),
)
  where
    apart_step :
        (u : ℕ)
        → deny_has ts u ≡ true
        → ((t == u || deny_has ts u) ≡ true → deny_has acc u ≡ false)
        → deny_has (acc ++ t ∷ []) u ≡ false
    apart_step u e f =
        deny_has-append acc t u ∙ ground (arith, v.2, λ (e' : t ≡ u). ap (deny_has ts) e')

parse_lines-deny :
    (p : Policy) (ts : List ℕ)
    → Fits p.deny_tools ts
    → (parse_lines p (lines_of (deny_text ts))).deny_tools ≡ p.deny_tools ++ ts
unfolding parse_lines deny_text lines_of
parse_lines-deny p [] v = sym (append-nil p.deny_tools)
parse_lines-deny p (t ∷ ts) v =
    let (fresh, v') = Fits-step p.deny_tools t ts v in
    let p' = (deny p t).1 in
    let now : p'.deny_tools ≡ p.deny_tools ++ t ∷ [] =
      deny_fresh p t v.0.0 v.0.1 fresh (omega (arith, v.2)) in
    ap (λ x. (parse_lines p x).deny_tools)
      (lines_of-line (deny_line t) (deny_text ts)
        (refl, (refl, (refl, (refl, (refl, decimal-IsPlain t))))))
    ∙ ap (λ (x : ℤ × Policy). (parse_lines x.1 (lines_of (deny_text ts))).deny_tools)
        (parse_line-deny p t v.0.0)
    ∙ parse_lines-deny p' ts (subst (λ acc. Fits acc ts) (sym now) v')
    ∙ ap (λ acc. acc ++ ts) now
    ∙ append_assoc p.deny_tools (t ∷ []) ts

read_all :
    (fs : Files) (path : Str) (bs : List ℕ)
    → AllFiles fs
    → content fs path ≡ some bs
    → read fs path 0 (pos (file_size - 1)) ≡ (pos (length bs), bs)
unfolding read_bytes
read_all fs path bs v at =
    let fits = content-lt fs path bs v at in
    read_lem fs path 0 (pos (file_size - 1)) v
    ∙ ap (λ o. read_bytes o 0 (pos (file_size - 1))) at
    ∙ whole bs fits
  where
    whole :
        (bs : List ℕ)
        → length bs < file_size
        → read_bytes (some bs) 0 (pos (file_size - 1)) ≡ (pos (length bs), bs)
    whole [] fits = refl
    whole (b ∷ bs) fits = ground (arith, take-length_le (file_size - 1) (b ∷ bs))

not_in_none : (u : ℕ) → deny_has [] u ≡ false
unfolding deny_has
not_in_none u = refl

-- For at most 16 different tools from 0 to 31 that may be denied, and a well-formed table that holds
-- the text with a line "deny N" for each of them, `policy_load` of that file, from any policy, returns
-- their number, and its deny list is these tools in the order of the lines.
pub load-deny_text :
    (p : Policy) (fs : Files) (path : Str) (ts : List ℕ)
    → AllFiles fs
    → 0 < length path
    → content fs path ≡ some (deny_text ts)
    → AllTools ts
    → length ts ≤ deny_max
    → ((load p fs path).0 ≡ pos (length ts)) × ((load p fs path).1.deny_tools ≡ ts)
unfolding load
load-deny_text p fs path ts v named at tools few =
    let named' : (length path == 0) ≡ false = ground arith in
    let got = read_all fs path (deny_text ts) v at in
    let list =
      parse_lines-deny (record p { deny_tools = [] }) ts
        (tools, (λ u e. not_in_none u), omega (arith, few)) in
    rw (named', got) (ap (λ x. pos (length x)) list, list)
