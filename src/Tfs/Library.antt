-- ===== src/Tfs/Library.antt =====
-- The functions of the file system library that the programs call (TFS/MAN/MAN3). The library is
-- given in binary form only: it is a parameter, over a state `D` of the file system.
use ttm.Prelude.{ℕ, ℤ, List}
use ttm.Tfs.{Stat}

-- The first argument is the process id; paths are texts. The time, the channel and the error mode
-- of tfs_init are left out.
pub record Library (D : Type 0) : Type 0 where
  -- The id, the disk's SCSI id, the link and the cache mode.
  pub tfs_init : ℕ → ℕ → ℕ → ℕ → D → ℤ × D
  pub tfs_terminate : ℤ → D → ℤ × D
  pub tfs_offline : D → ℤ × D
  pub tfs_mkfs : ℕ → D → ℤ × D
  pub tfs_mount : ℤ → D → ℤ × D
  pub tfs_format : D → ℤ × D
  pub tfs_sync : D → ℤ × D
  -- The user's and the group's number.
  pub tfs_logon : ℕ → ℕ → D → ℤ × D
  pub tfs_logoff : ℤ → D → ℤ × D
  pub tfs_connect : ℤ → ℤ → ℤ → D → ℤ × D
  pub tfs_disconnect : ℤ → D → ℤ × D
  pub tfs_chdir : ℤ → List ℕ → D → ℤ × D
  pub tfs_umask : ℤ → ℕ → D → ℕ × D
  pub tfs_open : ℤ → List ℕ → ℕ → ℕ → D → ℤ × D
  pub tfs_close : ℤ → ℤ → D → ℤ × D
  pub tfs_lseek : ℤ → ℤ → ℕ → ℕ → D → ℤ × D
  -- The result, and the bytes that went into the buffer.
  pub tfs_read : ℤ → ℤ → ℕ → D → (ℤ × List ℕ) × D
  pub tfs_write : ℤ → ℤ → List ℕ → D → ℤ × D
  pub tfs_access : ℤ → List ℕ → ℕ → D → ℤ × D
  pub tfs_chmod : ℤ → List ℕ → ℕ → D → ℤ × D
  -- The result, and what the structure holds afterwards.
  pub tfs_stat : ℤ → List ℕ → D → (ℤ × Stat) × D
  pub tfs_fstat : ℤ → ℤ → D → (ℤ × Stat) × D
  pub tfs_mkdir : ℤ → List ℕ → ℕ → D → ℤ × D
  pub tfs_rmdir : ℤ → List ℕ → D → ℤ × D
  pub tfs_link : ℤ → List ℕ → List ℕ → D → ℤ × D
  pub tfs_unlink : ℤ → List ℕ → D → ℤ × D
  -- The variable tfs_errno
  pub tfs_errno : D → ℕ
