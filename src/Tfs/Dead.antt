-- ===== src/Tfs/Dead.antt =====
-- A file system library in which every call fails, for the examples to build on.
use ttm.Prelude.{negsuc, []}
use ttm.Tfs.{Stat}
use ttm.Tfs.Library.{Library}

abbrev pub no_stat : Stat
no_stat = record {
  st_mode = 0;
  st_ino = 0;
  st_dev = 0;
  st_nlink = 0;
  st_uid = 0;
  st_gid = 0;
  st_size = 0;
  st_mtime = 0;
}

abbrev pub dead : {D : Type 0} → Library D
dead = record {
  tfs_init = λ i s l c d. (negsuc 0, d);
  tfs_terminate = λ f d. (negsuc 0, d);
  tfs_offline = λ d. (negsuc 0, d);
  tfs_mkfs = λ n d. (negsuc 0, d);
  tfs_mount = λ f d. (negsuc 0, d);
  tfs_format = λ d. (negsuc 0, d);
  tfs_sync = λ d. (negsuc 0, d);
  tfs_logon = λ u g d. (negsuc 0, d);
  tfs_logoff = λ p d. (negsuc 0, d);
  tfs_connect = λ u g a d. (negsuc 0, d);
  tfs_disconnect = λ p d. (negsuc 0, d);
  tfs_chdir = λ p n d. (negsuc 0, d);
  tfs_umask = λ p m d. (0, d);
  tfs_open = λ p n m c d. (negsuc 0, d);
  tfs_close = λ p f d. (negsuc 0, d);
  tfs_lseek = λ p f o w d. (negsuc 0, d);
  tfs_read = λ p f n d. ((negsuc 0, []), d);
  tfs_write = λ p f b d. (negsuc 0, d);
  tfs_access = λ p n m d. (negsuc 0, d);
  tfs_chmod = λ p n m d. (negsuc 0, d);
  tfs_stat = λ p n d. ((negsuc 0, no_stat), d);
  tfs_fstat = λ p f d. ((negsuc 0, no_stat), d);
  tfs_mkdir = λ p n m d. (negsuc 0, d);
  tfs_rmdir = λ p n d. (negsuc 0, d);
  tfs_link = λ p n m d. (negsuc 0, d);
  tfs_unlink = λ p n d. (negsuc 0, d);
  tfs_errno = λ d. 1;
}
