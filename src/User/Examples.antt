-- ===== src/User/Examples.antt =====
-- The program of TFS/EXAMPLES/IOROUTER/USER.C on a file system with one file, with the theorem at a
-- concrete input.
use ttm.Prelude.{
  ℕ, ◌≡◌, refl, none, some, List, [], ◌∷◌, ◌++◌, ℤ, pos, length, length-replicate, codes, take,
  drop, replicate,
}
use ttm.Prelude.Run.{exited}
use ttm.User.{Io, User, block, main, next_first, filled}
use ttm.User.Transfer.{IsStore, main-IsClean}

-- The bytes in front of the pointer and behind it.
abbrev Disk : Type 0
Disk = List ℕ × List ℕ

abbrev io : Io Disk
io = record {
  open_file = λ name access d. (pos 3, ([], d.0 ++ d.1));
  close = λ fh d. (pos 0, d);
  write = λ fh new d. (pos (length new), (d.0 ++ new, drop (length new) d.1));
  read = λ fh n d. ((pos n, take n d.1), (d.0 ++ take n d.1, drop n d.1));
}

abbrev view : ℤ → Disk → List ℕ × List ℕ
view fh d = d

io-IsStore : IsStore io view (pos 7)
io-IsStore = record {
  opens = λ d. (3, (refl, (_, refl)));
  writes = λ d fh before behind new h. rw h refl;
  reopens = λ d fh before behind h. rw h (3, (refl, refl));
  reads = λ d fh before behind n h l. rw h (refl, refl);
}

abbrev start : User Disk
start = record {
  buf = replicate block 0;
  first_read = replicate block 0;
  last_read = replicate block 0;
  shown = none;
  io = ([], codes "old");
}

filled_test : filled next_first 3 35 ≡ 35 ∷ 100 ∷ 37 ∷ []
unfolding filled
filled_test = refl

main-IsClean_example :
    (t : User Disk) × ((main io (pos 7) start ≡ exited (pos 0) t) × (t.shown ≡ some 0))
main-IsClean_example =
    main-IsClean io-IsStore start (length-replicate block 0) (length-replicate block 0)
      (length-replicate block 0)
