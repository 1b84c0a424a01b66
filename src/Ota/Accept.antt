-- ===== src/Ota/Accept.antt =====
-- kernel/ota.c: what `ota_parse_package` makes of a file.
use open_agent_os.Prelude.{
  ℕ, zero, suc, ◌+◌, ◌≤◌, ◌<◌, ◌≡◌, ◌⊎◌, refl, ap, sym, ◌∙◌, true, false, ◌&&◌, List, [], ◌∷◌, ℤ,
  pos, arith, is_zero, int_eq, ltb, ◌==◌, if◌then◌else◌, take, drop, length, get_or, Bool-cases,
  Option-cases, inl, inr, none, some, take-length_le,
}
use open_agent_os.Abi.{einval, eperm, enospc}
use open_agent_os.Bytes.{Str}
use open_agent_os.Ramfs.{Files, read}
use open_agent_os.Ramfs.Content.{content, AllFiles, read_bytes, read_lem}
use open_agent_os.Mem.{Heap, kalloc}
use open_agent_os.Ota.{
  Manifest, Parsed, refused, parsed, slice, manifest_of, loaded, ota_file_size, header_ok,
  manifest_size, channel_matches, signature_ok, check_package, parse_package,
}
use open_agent_os.Usage.{usage, usage_lem, read_one}

take-drop-suc :
    (bs : List ℕ) (at n : ℕ)
    → at < length bs
    → take (suc n) (drop at bs) ≡ get_or bs at 0 ∷ take n (drop (at + 1) bs)
take-drop-suc [] at n h = absurd (omega arith)
take-drop-suc (b ∷ bs) zero n h = refl
take-drop-suc (b ∷ bs) (suc at) n h =
    take-drop-suc bs at n (omega arith)
    ∙ ap (λ k. get_or bs at 0 ∷ take n (drop k (b ∷ bs)))
        (let e : suc (at + 1) ≡ suc at + 1 = omega arith in e)

pub slice-loaded :
    (mem : ℕ → ℕ) (bs : List ℕ) (at n : ℕ)
    → at + n ≤ length bs
    → slice (loaded mem bs) at n ≡ take n (drop at bs)
unfolding slice loaded
slice-loaded mem bs at zero h = refl
slice-loaded mem bs at (suc n) h =
    let inside : loaded mem bs at ≡ get_or bs at 0 = ground arith in
    rw inside (
      ap (λ r. get_or bs at 0 ∷ r) (slice-loaded mem bs (at + 1) n (omega arith))
      ∙ sym (take-drop-suc bs at n (omega arith)))

ota_file_size-content :
    (fs : Files) (path : Str) (bs : List ℕ)
    → AllFiles fs
    → content fs path ≡ some bs
    → ota_file_size fs path ≡ pos (if length bs == 0 then 1 else length bs)
unfolding ota_file_size usage
ota_file_size-content fs path bs v at =
    let counted = usage_lem fs path v in ground (arith, read_one fs path bs 0 v at, counted, at)

read_whole :
    (fs : Files) (path : Str) (bs : List ℕ)
    → AllFiles fs
    → content fs path ≡ some bs
    → 0 < length bs
    → read fs path 0 (pos (length bs)) ≡ (pos (length bs), bs)
unfolding read_bytes
read_whole fs path bs v at some_bytes =
    read_lem fs path 0 (pos (length bs)) v
    ∙ ap (λ o. read_bytes o 0 (pos (length bs))) at
    ∙ ground (arith, take-length_le (length bs) bs)

module _ (sha256 : List ℕ → List ℕ) (mem : ℕ → ℕ) where
  -- What a package was tested for.
  pub record IsAccepted (fs : Files) (bs : List ℕ) : Type 0 where
    pub header : header_ok (manifest_of (loaded mem bs)) (length bs) ≡ true
    pub signature :
        signature_ok sha256 (loaded mem bs) (manifest_of (loaded mem bs)) (length bs) ≡ true
    pub channel : channel_matches fs (manifest_of (loaded mem bs)).channel ≡ true

  abbrev pub the_manifest : List ℕ → Manifest
  the_manifest bs = manifest_of (loaded mem bs)

  abbrev pub IsRefused : Parsed → Type 0
  IsRefused out = (rc : ℤ) × (out ≡ refused rc) × (is_zero rc ≡ false)

  check_cases :
      (fs : Files) (bs : List ℕ)
      → IsRefused (check_package sha256 (loaded mem bs) fs (length bs))
        ⊎ ((check_package sha256 (loaded mem bs) fs (length bs)
              ≡ parsed (the_manifest bs) (the_manifest bs).elf_offset (the_manifest bs).elf_size)
            × IsAccepted fs bs)
  unfolding check_package
  check_cases fs bs =
      let m = the_manifest bs in
      elim (Bool-cases (header_ok m (length bs))) [
        | inr bad ↦ inl (einval, rw (bad, check_package) refl, refl)
        | inl good ↦
            elim (Bool-cases
              (signature_ok sha256 (loaded mem bs) m (length bs) && channel_matches fs m.channel)) [
                | inr bad ↦ inl (eperm, rw (good, check_package) (rw bad refl), refl)
                | inl fine ↦ inr (
                  rw (good, check_package) (rw fine refl),
                  record { header = good; signature = ground arith; channel = ground arith },
                )
              ]
      ]

  parse_short :
      (heap : Heap) (fs : Files) (path : Str) (n : ℕ)
      → ota_file_size fs path ≡ pos n
      → n < manifest_size + 64
      → (parse_package sha256 mem heap fs path).0 ≡ refused einval
  unfolding parse_package
  parse_short heap fs path n size short =
      let small : ltb n (manifest_size + 64) ≡ true = ground arith in
      rw (size, parse_package) (rw small refl)

  parse_full :
      (heap : Heap) (fs : Files) (path : Str) (n : ℕ)
      → ota_file_size fs path ≡ pos n
      → manifest_size + 64 ≤ n
      → (kalloc heap n).0 ≡ none
      → (parse_package sha256 mem heap fs path).0 ≡ refused enospc
  unfolding parse_package
  parse_full heap fs path n size long full =
      let big : ltb n (manifest_size + 64) ≡ false = ground arith in
      rw (size, parse_package) (rw big (rw full refl))

  parse_read :
      (heap : Heap) (fs : Files) (path : Str) (bs : List ℕ) (buf : ℕ)
      → ota_file_size fs path ≡ pos (length bs)
      → manifest_size + 64 ≤ length bs
      → (kalloc heap (length bs)).0 ≡ some buf
      → read fs path 0 (pos (length bs)) ≡ (pos (length bs), bs)
      → ((parse_package sha256 mem heap fs path).0
          ≡ check_package sha256 (loaded mem bs) fs (length bs))
        × ((parse_package sha256 mem heap fs path).2 ≡ loaded mem bs)
  unfolding parse_package
  parse_read heap fs path bs buf size long got whole =
      let big : ltb (length bs) (manifest_size + 64) ≡ false = ground arith in
      let same : int_eq (pos (length bs)) (pos (length bs)) ≡ true = ground arith in
      rw (size, parse_package) (rw big (rw got (rw size (rw whole (rw same (refl, refl))))))

  pub parse_accepted :
      (heap : Heap) (fs : Files) (path : Str) (bs : List ℕ) (buf : ℕ)
      → AllFiles fs
      → content fs path ≡ some bs
      → manifest_size + 64 ≤ length bs
      → (kalloc heap (length bs)).0 ≡ some buf
      → header_ok (the_manifest bs) (length bs) ≡ true
      → (signature_ok sha256 (loaded mem bs) (the_manifest bs) (length bs)
          && channel_matches fs (the_manifest bs).channel)
        ≡ true
      → (parse_package sha256 mem heap fs path).0
        ≡ parsed (the_manifest bs) (the_manifest bs).elf_offset (the_manifest bs).elf_size
  unfolding check_package
  parse_accepted heap fs path bs buf v at long got good fine =
      let size : ota_file_size fs path ≡ pos (length bs) =
        ota_file_size-content fs path bs v at ∙ ground arith in
      (parse_read heap fs path bs buf size long got (read_whole fs path bs v at (omega arith))).0
      ∙ rw (good, check_package) (rw fine refl)

  -- It is refused, or its header and the buffer are given.
  pub parse_cases :
      (heap : Heap) (fs : Files) (path : Str) (bs : List ℕ)
      → AllFiles fs
      → content fs path ≡ some bs
      → IsRefused (parse_package sha256 mem heap fs path).0
        ⊎ (((parse_package sha256 mem heap fs path).0
              ≡ parsed (the_manifest bs) (the_manifest bs).elf_offset (the_manifest bs).elf_size)
            × ((parse_package sha256 mem heap fs path).2 ≡ loaded mem bs)
            × IsAccepted fs bs)
  parse_cases heap fs path bs v at =
      let size = ota_file_size-content fs path bs v at in
      elim (Bool-cases (ltb (length bs) (manifest_size + 64))) [
        | inl short ↦ inl (
          einval,
          parse_short heap fs path (if length bs == 0 then 1 else length bs) size (ground arith),
          refl,
        )
        | inr long ↦
            let size' : ota_file_size fs path ≡ pos (length bs) = size ∙ ground arith in
            elim (Option-cases (kalloc heap (length bs)).0) [
              | inl full ↦
                  inl (enospc, parse_full heap fs path (length bs) size' (ground arith) full, refl)
              | inr (buf, got) ↦
                  let (out, mem') =
                    parse_read heap fs path bs buf size' (ground arith) got
                      (read_whole fs path bs v at (ground arith)) in
                  elim (check_cases fs bs) [
                    | inl (rc, refusal, nonzero) ↦ inl (rc, out ∙ refusal, nonzero)
                    | inr (accepted, tested) ↦ inr (out ∙ accepted, mem', tested)
                  ]
            ]
      ]
