-- ===== src/BlockDevice.antt =====
-- The block device as kernel/persist.c uses it: `virtio_blk_read_sector` and `virtio_blk_write_sector`
-- over the state of the device, and what a device that works does with its sectors.
use open_agent_os.Prelude.{ℕ, ◌≡◌, ◌≢◌, List, length, ℤ, pos, Option, some}

-- kernel/virtio_blk.h, VIRTIO_SECTOR_SIZE
abbrev pub sector_size : ℕ
sector_size = 512

-- A read that fails gives `none`; a write gives its status and the device after it.
pub record Device : Type 1 where
  pub State : Type 0
  pub read_sector : State → ℕ → Option (List ℕ)
  pub write_sector : State → ℕ → List ℕ → ℤ × State

-- A write changes the one sector that it names, and one that succeeded is read back.
pub record IsLawful (D : Device) : Type 0 where
  pub read-write :
      (s : D.State) (n : ℕ) (bs : List ℕ)
      → length bs ≡ sector_size
      → (D.write_sector s n bs).0 ≡ pos 0
      → D.read_sector (D.write_sector s n bs).1 n ≡ some bs
  pub read-write_ne :
      (s : D.State) (n m : ℕ) (bs : List ℕ)
      → m ≢ n
      → D.read_sector (D.write_sector s n bs).1 m ≡ D.read_sector s m
