-- ===== src/Tfs.antt =====
-- TFS/LIBS/TFS.H: the constants and the structures of the file system library that the programs
-- use.
pub mod Library
pub mod Entry
pub mod Dead
use ttm.Prelude.{ℕ, ℤ, pos, negsuc, List}

-- How a disk is cached, the error mode and the arguments of fsck.
abbrev pub tfs_write_back : ℕ
tfs_write_back = 9

abbrev pub tfs_error_mode_on : ℕ
tfs_error_mode_on = 10

abbrev pub tfs_do_fsck : ℤ
tfs_do_fsck = negsuc 0

abbrev pub tfs_dont_fsck : ℤ
tfs_dont_fsck = pos 0

abbrev pub tfs_name_max : ℕ
tfs_name_max = 27

abbrev pub tfs_path_max : ℕ
tfs_path_max = 255

abbrev pub tfs_open_max : ℕ
tfs_open_max = 16

abbrev pub tfs_seek_set : ℕ
tfs_seek_set = 0

abbrev pub tfs_o_rdonly : ℕ
tfs_o_rdonly = 1

abbrev pub tfs_o_wronly : ℕ
tfs_o_wronly = 2

abbrev pub tfs_o_rdwr : ℕ
tfs_o_rdwr = 3

abbrev pub tfs_o_creat : ℕ
tfs_o_creat = 0x0200

abbrev pub tfs_o_trunc : ℕ
tfs_o_trunc = 0x0400

abbrev pub tfs_f_ok : ℕ
tfs_f_ok = 0

-- 0100000 and 0040000
abbrev pub tfs_i_reg : ℕ
tfs_i_reg = 32768

abbrev pub tfs_i_dir : ℕ
tfs_i_dir = 16384

abbrev pub tfs_eexist : ℕ
tfs_eexist = 5

-- struct tfs_dir_t: the name is the text in front of the first \0.
pub record Dir : Type 0 where
  pub inode_no : ℕ
  pub name : List ℕ

-- struct tfs_stat_t
pub record Stat : Type 0 where
  pub st_mode : ℕ
  pub st_ino : ℕ
  pub st_dev : ℕ
  pub st_nlink : ℕ
  pub st_uid : ℕ
  pub st_gid : ℕ
  pub st_size : ℕ
  pub st_mtime : ℕ
