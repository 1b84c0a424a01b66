-- ===== src/Ota/Package.antt =====
-- kernel/ota.c: what applying a package does to the files.
use open_agent_os.Prelude.{
  ℕ, zero, suc, ◌+◌, ◌^◌, ◌≤◌, ◌<◌, ◌≡◌, ◌⊎◌, refl, ap, sym, ◌∙◌, subst, true, false, ◌&&◌, ◌||◌,
  List, [], ◌∷◌, ◌++◌, ℤ, pos, arith, is_zero, of_u32, leb, ◌==◌, take, drop, length, Bool-cases,
  inl, inr, some, take-length_le,
}
use open_agent_os.Abi.{einval, eperm, enospc, cap_fs}
use open_agent_os.Bytes.{Str, until_nul}
use open_agent_os.Ramfs.{Files, path_max, file_size, put}
use open_agent_os.Ramfs.Content.{content, AllFiles, content-lt}
use open_agent_os.Ramfs.Laws.{Stores, put_lem}
use open_agent_os.Mem.{Heap}
use open_agent_os.Kernel.{Agent, has_cap}
use open_agent_os.Ota.{
  Manifest, refused, parsed, slice, manifest_of, install_of, loaded, pkg_path_ok, header_ok,
  parse_package, install, apply_kpath,
}
use open_agent_os.Ota.Accept.{slice-loaded, IsAccepted, parse_cases}

module _ (sha256 : List ℕ → List ℕ) (mem : ℕ → ℕ) where
  -- What `ota_apply_package_kpath` does with what `ota_parse_package` gives.
  apply_refused :
      (heap : Heap) (id : ℕ) (a : Agent) (fs : Files) (path : Str) (rc : ℤ)
      → (parse_package sha256 mem heap fs path).0 ≡ refused rc
      → is_zero rc ≡ false
      → (is_zero (apply_kpath sha256 mem heap (some (id, a)) fs path).0 ≡ false)
        × ((apply_kpath sha256 mem heap (some (id, a)) fs path).1 ≡ fs)
  unfolding apply_kpath
  apply_refused heap id a fs path rc out nonzero = elim (Bool-cases (has_cap a cap_fs)) [
    | inr denied ↦ rw (denied, apply_kpath) (refl, refl)
    | inl may ↦ elim (Bool-cases (pkg_path_ok (some id) path)) [
      | inr denied ↦ rw (may, apply_kpath) (rw denied (refl, refl))
      | inl ok ↦ rw (may, apply_kpath) (rw ok (rw out (nonzero, refl)))
    ]
  ]

  apply_denied :
      (heap : Heap) (id : ℕ) (a : Agent) (fs : Files) (path : Str)
      → (has_cap a cap_fs && pkg_path_ok (some id) path) ≡ false
      → apply_kpath sha256 mem heap (some (id, a)) fs path ≡ (eperm, fs)
  unfolding apply_kpath
  apply_denied heap id a fs path denied = ground arith

  apply_parsed :
      (heap : Heap) (id : ℕ) (a : Agent) (fs : Files) (path : Str) (m : Manifest) (at n : ℕ)
      → (has_cap a cap_fs && pkg_path_ok (some id) path) ≡ true
      → (parse_package sha256 mem heap fs path).0 ≡ parsed m at n
      → apply_kpath sha256 mem heap (some (id, a)) fs path
        ≡ install (parse_package sha256 mem heap fs path).2 fs m at n
  unfolding apply_kpath
  apply_parsed heap id a fs path m at n may out =
      let one : has_cap a cap_fs ≡ true = ground arith in
      let two : pkg_path_ok (some id) path ≡ true = ground arith in
      rw (one, apply_kpath) (rw two (rw out refl))

length-until_nul : (n : ℕ) (bs : List ℕ) → length (until_nul n bs) ≤ n
unfolding until_nul
length-until_nul zero bs = omega arith
length-until_nul (suc n) [] = omega arith
length-until_nul (suc n) (b ∷ bs) = ground (arith, length-until_nul n bs)

-- The installed name fits the array of a file.
install-short : (m : Manifest) → length (install_of m) < path_max
unfolding install_of
install-short m = omega (arith, length-until_nul 48 (m.install_path ++ m.hmac))

put_bad :
    (fs : Files) (p : Str) (src : List ℕ) (n : ℕ)
    → (n == 0 || leb file_size n) ≡ true
    → put fs p src (pos n) ≡ (einval, fs)
unfolding put
put_bad fs p src n bad = ground arith

length-slice : (mem : ℕ → ℕ) (at n : ℕ) → length (slice mem at n) ≡ n
unfolding slice
length-slice mem at zero = refl
length-slice mem at (suc n) = ground (arith, length-slice mem (at + 1) n)

install_failed :
    (mem : ℕ → ℕ) (fs : Files) (m : Manifest) (at n : ℕ)
    → is_zero (put fs (install_of m) (slice mem at n) (of_u32 n)).0 ≡ false
    → (put fs (install_of m) (slice mem at n) (of_u32 n)).1 ≡ fs
    → install mem fs m at n ≡ (enospc, fs)
unfolding install
install_failed mem fs m at n failed same = ground arith

install_done :
    (mem : ℕ → ℕ) (fs : Files) (m : Manifest) (at n : ℕ)
    → (put fs (install_of m) (slice mem at n) (of_u32 n)).0 ≡ pos 0
    → install mem fs m at n ≡ (pos 0, (put fs (install_of m) (slice mem at n) (of_u32 n)).1)
unfolding install
install_done mem fs m at n done = ground arith

install_cases :
    (mem : ℕ → ℕ) (fs : Files) (m : Manifest) (at n : ℕ)
    → AllFiles fs
    → n < 2 ^ 31
    → (install mem fs m at n ≡ (enospc, fs))
      ⊎ (((install mem fs m at n).0 ≡ pos 0)
          × Stores fs (install mem fs m at n).1 (install_of m) (slice mem at n))
install_cases mem fs m at n v small =
    let name = install_of m in
    let src = slice mem at n in
    let signed : of_u32 n ≡ pos n = ground arith in
    elim (Bool-cases (n == 0 || leb file_size n)) [
      | inl bad ↦
          let out : put fs name src (pos n) ≡ (einval, fs) = put_bad fs name src n bad in
          inl (install_failed mem fs m at n (rw signed (rw out refl)) (rw signed (rw out refl)))
      | inr good ↦
          elim (put_lem fs name src n v (install-short m) (ground arith)
            (omega (arith, length-slice mem at n)) (ground arith)) [
              | inr (out, _) ↦
                  inl (
                    install_failed mem fs m at n (rw signed (rw out refl))
                      (rw signed (rw out refl)))
              | inl (done, stored) ↦
                  let e = install_done mem fs m at n (rw signed done) in
                  inr (
                    ap (λ (x : ℤ × Files). x.0) e,
                    subst (λ (x : ℤ × Files). Stores fs x.1 name src) (sym e)
                        (rw signed (
                          subst (Stores fs (put fs name src (pos n)).1 name)
                            (take-length_le n src (omega (arith, length-slice mem at n))) stored)),
                  )
            ]
    ]

header_fits :
    (m : Manifest) (len : ℕ)
    → header_ok m len ≡ true
    → m.elf_offset + m.elf_size < 2 ^ 32
    → m.elf_offset + m.elf_size ≤ len
unfolding header_ok
header_fits m len ok small = ground arith

module _ (sha256 : List ℕ → List ℕ) (mem : ℕ → ℕ) (heap : Heap) (id : ℕ) (a : Agent) (fs : Files)
    (path : Str) (bs : List ℕ) where
  -- The package was accepted, and its program is at its name.
  pub record IsApplied (fs' : Files) : Type 0 where
    pub may : (has_cap a cap_fs && pkg_path_ok (some id) path) ≡ true
    pub accepted : IsAccepted sha256 mem fs bs
    pub stores : Stores fs fs' (install_of (manifest_of (loaded mem bs))) (
        take
          (manifest_of (loaded mem bs)).elf_size
          (drop (manifest_of (loaded mem bs)).elf_offset bs))

  -- Take a well-formed table and a package file in it whose program's offset and size add up to less
  -- than 2 ^ 32. If `ota_apply_package_kpath` of an agent returns 0, the agent has CAP_FS and the path
  -- is one that it may apply, the header, signature and channel passed their tests, and the files are
  -- as before but for the installed name, which has just the program's bytes of the package. With any
  -- other status the files are as they were.
  pub apply_lem :
      AllFiles fs
      → content fs path ≡ some bs
      → (manifest_of (loaded mem bs)).elf_offset + (manifest_of (loaded mem bs)).elf_size < 2 ^ 32
      → ((is_zero (apply_kpath sha256 mem heap (some (id, a)) fs path).0 ≡ false)
          × ((apply_kpath sha256 mem heap (some (id, a)) fs path).1 ≡ fs))
        ⊎ (((apply_kpath sha256 mem heap (some (id, a)) fs path).0 ≡ pos 0)
            × IsApplied (apply_kpath sha256 mem heap (some (id, a)) fs path).1)
  apply_lem v at small =
      let m = manifest_of (loaded mem bs) in
      let out = parse_package sha256 mem heap fs path in
      elim (Bool-cases (has_cap a cap_fs && pkg_path_ok (some id) path)) [
        | inr denied ↦
            let e = apply_denied sha256 mem heap id a fs path denied in inl (rw e refl, rw e refl)
        | inl may ↦ elim (parse_cases sha256 mem heap fs path bs v at) [
          | inl (rc, e, nonzero) ↦ inl (apply_refused sha256 mem heap id a fs path rc e nonzero)
          | inr (e, mem', tested) ↦
              let inside = header_fits m (length bs) tested.header small in
              let short = content-lt fs path bs v at in
              let done : apply_kpath sha256 mem heap (some (id, a)) fs path
                  ≡ install (loaded mem bs) fs m m.elf_offset m.elf_size =
                apply_parsed sha256 mem heap id a fs path m m.elf_offset m.elf_size may e
                ∙ ap (λ (x : ℕ → ℕ). install x fs m m.elf_offset m.elf_size) mem' in
              elim (install_cases (loaded mem bs) fs m m.elf_offset m.elf_size v (omega arith)) [
                | inl failed ↦ inl (rw (done, failed) refl, rw (done, failed) refl)
                | inr (ok, stored) ↦ inr (
                  rw done ok,
                  rw done (record {
                    may = may;
                    accepted = tested;
                    stores =
                        subst
                          (Stores fs (install (loaded mem bs) fs m m.elf_offset m.elf_size).1
                            (install_of m))
                          (slice-loaded mem bs m.elf_offset m.elf_size inside) stored;
                  }),
                )
              ]
        ]
      ]
