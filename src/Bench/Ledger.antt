-- ===== src/Bench/Ledger.antt =====
-- The file system and the machine of TFS/EXAMPLES/TFSH/BENCH.C with a ledger of the files that were
-- opened and closed, the memory that was allocated and freed, and the blocks that went over.
use ttm.Prelude.{ℕ, ◌+◌, ◌≡◌, arith, is_neg, if◌then◌else◌}
use ttm.Prelude.Run.{Run, ok, exited, Cmd, and_then}
use ttm.Tfs.Library.{Library}
use ttm.Bench.{Machine}

pub record Ledger : Type 0 where
  pub opened : ℕ
  pub closed : ℕ
  pub allocated : ℕ
  pub freed : ℕ
  pub blocks_written : ℕ
  pub blocks_read : ℕ

abbrev pub blank : Ledger
blank = record {
  opened = 0;
  closed = 0;
  allocated = 0;
  freed = 0;
  blocks_written = 0;
  blocks_read = 0;
}

-- A call of the underlying system, and what it puts into the ledger.
abbrev pub logged :
    {D A : Type 0} → (A → Ledger → Ledger) → (D → A × D) → D × Ledger → A × (D × Ledger)
logged note f s = ((f s.0).0, ((f s.0).1, note (f s.0).0 s.1))

module _ {D : Type 0} where
  abbrev pub logged_library : Library D → Library (D × Ledger)
  logged_library lib = record {
    tfs_init = λ i s l c. logged (λ r n. n) (lib.tfs_init i s l c);
    tfs_terminate = λ f. logged (λ r n. n) (lib.tfs_terminate f);
    tfs_offline = logged (λ r n. n) lib.tfs_offline;
    tfs_mkfs = λ i. logged (λ r n. n) (lib.tfs_mkfs i);
    tfs_mount = λ f. logged (λ r n. n) (lib.tfs_mount f);
    tfs_format = logged (λ r n. n) lib.tfs_format;
    tfs_sync = logged (λ r n. n) lib.tfs_sync;
    tfs_logon = λ u g. logged (λ r n. n) (lib.tfs_logon u g);
    tfs_logoff = λ p. logged (λ r n. n) (lib.tfs_logoff p);
    tfs_connect = λ u g a. logged (λ r n. n) (lib.tfs_connect u g a);
    tfs_disconnect = λ p. logged (λ r n. n) (lib.tfs_disconnect p);
    tfs_chdir = λ p a. logged (λ r n. n) (lib.tfs_chdir p a);
    tfs_umask = λ p m. logged (λ r n. n) (lib.tfs_umask p m);
    tfs_open = λ p a m c.
        logged (λ r n. if is_neg r then n else record n { opened = n.opened + 1 })
          (lib.tfs_open p a m c);
    tfs_close = λ p f. logged (λ r n. record n { closed = n.closed + 1 }) (lib.tfs_close p f);
    tfs_lseek = λ p f o w. logged (λ r n. n) (lib.tfs_lseek p f o w);
    tfs_read =
        λ p f k. logged (λ r n. record n { blocks_read = n.blocks_read + 1 }) (lib.tfs_read p f k);
    tfs_write = λ p f b.
        logged (λ r n. record n { blocks_written = n.blocks_written + 1 }) (lib.tfs_write p f b);
    tfs_access = λ p a m. logged (λ r n. n) (lib.tfs_access p a m);
    tfs_chmod = λ p a m. logged (λ r n. n) (lib.tfs_chmod p a m);
    tfs_stat = λ p a. logged (λ r n. n) (lib.tfs_stat p a);
    tfs_fstat = λ p f. logged (λ r n. n) (lib.tfs_fstat p f);
    tfs_mkdir = λ p a m. logged (λ r n. n) (lib.tfs_mkdir p a m);
    tfs_rmdir = λ p a. logged (λ r n. n) (lib.tfs_rmdir p a);
    tfs_link = λ p a b. logged (λ r n. n) (lib.tfs_link p a b);
    tfs_unlink = λ p a. logged (λ r n. n) (lib.tfs_unlink p a);
    tfs_errno = λ s. lib.tfs_errno s.0;
  }

  abbrev pub logged_machine : Machine D → Machine (D × Ledger)
  logged_machine machine = record {
    calloc = λ k.
        logged (λ r n. if r then record n { allocated = n.allocated + 1 } else n)
          (machine.calloc k);
    free = logged (λ r n. record n { freed = n.freed + 1 }) machine.free;
    proc_time = logged (λ r n. n) machine.proc_time;
  }

-- From the ledger `n` on a run has closed as many files as it opened and `files` more, and freed as
-- much memory as it allocated and `blocks` more.
abbrev pub Balanced : ℕ → ℕ → Ledger → Ledger → Type 0
Balanced files blocks n n' =
    (n'.closed + n.opened ≡ n'.opened + (n.closed + files))
    × (n'.freed + n.allocated ≡ n'.allocated + (n.freed + blocks))

abbrev pub Settles : {D A : Type 0} → ℕ → ℕ → Ledger → Run (D × Ledger) A → Type 0
Settles files blocks n (ok a s) = Balanced files blocks n s.1
Settles files blocks n (exited c s) = ⊥

pub neutral_first :
    {D A B : Type 0} (files blocks : ℕ) (n : Ledger) (r : Run (D × Ledger) A)
    (f : A → Cmd (D × Ledger) B)
    → Settles 0 0 n r
    → ((a : A) (s : D × Ledger) → Settles files blocks s.1 (f a s))
    → Settles files blocks n (and_then r f)
neutral_first {D} {A} {B} files blocks n (ok a s) f h k = join (f a s) (k a s)
  where
    join : (r : Run (D × Ledger) B) → Settles files blocks s.1 r → Settles files blocks n r
    join (ok b t) z = (omega arith, omega arith)
    join (exited c t) z = z
neutral_first files blocks n (exited c s) f h k = absurd h
