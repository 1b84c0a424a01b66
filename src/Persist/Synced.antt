-- ===== src/Persist/Synced.antt =====
-- kernel/persist.c: what `persist_sync` leaves on the device, file by file and as a whole.
use open_agent_os.Prelude.{
  ℕ, zero, suc, ◌+◌, ◌≤◌, ◌<◌, ◌≡◌, refl, ap, sym, ◌∙◌, subst, true, false, List, [], ◌∷◌, ℤ, pos,
  arith, is_zero, drop, length, some, Bool-cases, inl, inr,
}
use open_agent_os.Abi.{eio}
use open_agent_os.Bytes.{Str}
use open_agent_os.Words.{le32}
use open_agent_os.Crc.{xor32, crc32}
use open_agent_os.Ramfs.{Files, path_max, file_size, user_get, user_count}
use open_agent_os.Ramfs.Content.{AllFiles}
use open_agent_os.Ramfs.UserFiles.{user_files, listed, user_get_lem}
use open_agent_os.Agent.Post.{is_zero_sound}
use open_agent_os.BlockDevice.{Device, IsLawful, sector_size}
use open_agent_os.Persist.{
  Super, magic, sector_of, super_bytes, file_sectors, store, store_files, sync,
}
use open_agent_os.Persist.Sectors.{length-sector_of}
-- The checksum of the header for these files.
use open_agent_os.Persist.Stored.{
  roll, AllStorable, Laid, IsStored-same, Laid-same, store_outside, store-IsStored,
}

length-super_bytes : (sup : Super) → length (super_bytes sup) ≤ sector_size
unfolding super_bytes le32
length-super_bytes sup = omega arith

listed-drop :
    (xs : List (Str × List ℕ)) (idx : ℕ) (p : Str) (bs : List ℕ) (rest : List (Str × List ℕ))
    → drop idx xs ≡ (p, bs) ∷ rest
    → (listed xs idx ≡ (pos (length bs), p, bs)) × (drop (idx + 1) xs ≡ rest)
unfolding listed
listed-drop [] zero p bs rest h = cc
listed-drop [] (suc idx) p bs rest h = cc
listed-drop ((q, cs) ∷ xs) zero p bs rest h = (cc, cc)
listed-drop (x ∷ xs) (suc idx) p bs rest h =
    let (here, after) = listed-drop xs idx p bs rest h in
    (
      here,
      ap (λ k. drop k (x ∷ xs)) (let e : suc idx + 1 ≡ suc (idx + 1) = omega arith in e) ∙ after,
    )

module _ (D : Device) (law : IsLawful D) where
  module _ (junk : List ℕ) (whole : length junk ≡ path_max) where
    store_files_step :
        (fs : Files) (s : D.State) (sector r idx n : ℕ) (p : Str) (bs : List ℕ)
        → user_get fs idx (pos file_size) ≡ (pos (length bs), p, bs)
        → is_zero (store D junk s sector p bs).0 ≡ true
        → store_files D junk fs s sector r idx (suc n)
          ≡ store_files D junk fs
              (store D junk s sector p bs).1
              (sector + 1 + file_sectors (length bs))
              (xor32 (xor32 r (crc32 bs)) (length bs))
              (idx + 1)
              n
    unfolding store_files
    store_files_step fs s sector r idx n p bs got ok = ground arith

    store_files_stop :
        (fs : Files) (s : D.State) (sector r idx n : ℕ) (p : Str) (bs : List ℕ)
        → user_get fs idx (pos file_size) ≡ (pos (length bs), p, bs)
        → is_zero (store D junk s sector p bs).0 ≡ false
        → (store_files D junk fs s sector r idx (suc n)).0 ≡ eio
    unfolding store_files
    store_files_stop fs s sector r idx n p bs got bad = ground arith

    -- What the loop leaves: the files, the header's checksum, and the sectors before as they were.
    abbrev LaidBy : D.State → ℕ → ℕ → List (Str × List ℕ) → ℤ × D.State × ℕ → Type 0
    LaidBy s sector r files out =
        Laid D out.1 sector files
        × (out.2 ≡ roll r files)
        × ((m : ℕ) → m < sector → D.read_sector out.1 m ≡ D.read_sector s m)

    -- The loop of `persist_sync` lays out the files that `ramfs_user_get` gives from `idx` on.
    store_files-Laid :
        (fs : Files) (files : List (Str × List ℕ)) (s : D.State) (sector r idx : ℕ)
        → AllFiles fs
        → drop idx (user_files fs) ≡ files
        → AllStorable files
        → (store_files D junk fs s sector r idx (length files)).0 ≡ pos 0
        → LaidBy s sector r files (store_files D junk fs s sector r idx (length files))
    unfolding store_files roll
    store_files-Laid fs [] s sector r idx v at ok done = (tt, refl, λ m lt. refl)
    store_files-Laid fs ((p, bs) ∷ rest) s sector r idx v at ok done =
        let (here, after) = listed-drop (user_files fs) idx p bs rest at in
        let got = (user_get_lem fs idx v).0 ∙ here in
        let s' = (store D junk s sector p bs).1 in
        let next = sector + 1 + file_sectors (length bs) in
        elim (Bool-cases (is_zero (store D junk s sector p bs).0)) [
          | inr bad ↦ absurd (cc (store_files_stop fs s sector r idx (length rest) p bs got bad))
          | inl fine ↦
              let step = store_files_step fs s sector r idx (length rest) p bs got fine in
              let r' = xor32 (xor32 r (crc32 bs)) (length bs) in
              let (laid, rolled, before) =
                store_files-Laid fs rest s' next r' (idx + 1) v after ok.3
                  (sym (ap (λ (x : ℤ × D.State × ℕ). x.0) step) ∙ done) in
              let out = store_files D junk fs s' next r' (idx + 1) (length rest) in
              subst (LaidBy s sector r ((p, bs) ∷ rest)) (sym step) (
                (
                  IsStored-same D law s' out.1 sector p bs (λ m lo hi. sym (before m hi))
                      (store-IsStored D law junk whole s sector p bs ok.0 ok.1 ok.2
                        (is_zero_sound (store D junk s sector p bs).0 fine)),
                  laid,
                ),
                rolled,
                λ m lt.
                    before m (omega arith)
                    ∙ store_outside D law junk whole s sector p bs m (inl lt),
              )
        ]

    abbrev head_of : Files → ℕ → Super
    head_of fs sum = record { tag = magic; version = 2; file_count = user_count fs; checksum = sum }

    sync_done :
        (s : D.State) (fs : Files)
        → (sync D junk s true fs).0 ≡ pos 0
        → (let out = store_files D junk fs s 1 0 0 (user_count fs) in
            let end = D.write_sector out.1 0 (sector_of (super_bytes (head_of fs out.2))) in
            (out.0 ≡ pos 0) × (end.0 ≡ pos 0) × ((sync D junk s true fs).1 ≡ end.1))
    unfolding sync
    sync_done s fs done =
        let out = store_files D junk fs s 1 0 0 (user_count fs) in
        let end = D.write_sector out.1 0 (sector_of (super_bytes (head_of fs out.2))) in
        elim (Bool-cases (is_zero out.0)) [
          | inr bad ↦ absurd (ground arith)
          | inl fine ↦ elim (Bool-cases (is_zero end.0)) [
            | inr bad ↦ absurd (ground arith)
            | inl good ↦ (
              is_zero_sound out.0 fine,
              is_zero_sound end.0 good,
              rw (fine, sync) (rw (good, sync) refl),
            )
          ]
        ]

    -- What `persist_sync` leaves when it returns 0: the files from sector 1 on, and their header.
    pub sync-Laid :
        (s : D.State) (fs : Files)
        → AllFiles fs
        → AllStorable (user_files fs)
        → (sync D junk s true fs).0 ≡ pos 0
        → Laid D (sync D junk s true fs).1 1 (user_files fs)
          × (D.read_sector (sync D junk s true fs).1 0
              ≡ some (
                  sector_of (
                    super_bytes (record {
                      tag = magic;
                      version = 2;
                      file_count = user_count fs;
                      checksum = roll 0 (user_files fs);
                    }))))
    sync-Laid s fs v ok done =
        let count = (user_get_lem fs 0 v).1 in
        let (stored, marked, state) = sync_done s fs done in
        let out = store_files D junk fs s 1 0 0 (user_count fs) in
        let buf = sector_of (super_bytes (head_of fs out.2)) in
        let end = (D.write_sector out.1 0 buf).1 in
        let by : LaidBy s 1 0 (user_files fs) out =
          subst (λ n. LaidBy s 1 0 (user_files fs) (store_files D junk fs s 1 0 0 n)) count
            (store_files-Laid fs (user_files fs) s 1 0 0 v refl ok
              (ap (λ n. (store_files D junk fs s 1 0 0 n).0) count ∙ stored)) in
        (
          subst (λ (t : D.State). Laid D t 1 (user_files fs)) (sym state)
              (Laid-same D law out.1 end 1 (user_files fs)
                (λ m lo. sym (law.read-write_ne out.1 0 m buf (λ e. omega arith))) by.0),
          ap (λ (t : D.State). D.read_sector t 0) state
              ∙ law.read-write out.1 0 buf
                  (length-sector_of (super_bytes (head_of fs out.2))
                    (length-super_bytes (head_of fs out.2)))
                  marked
              ∙ ap (λ sum. some (sector_of (super_bytes (head_of fs sum)))) by.1,
        )
