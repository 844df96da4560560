-- ===== src/Find/Walk.antt =====
-- The walk of TFS/EXAMPLES/TFSH/FIND.C over a tree of files.
use ttm.Prelude.{
  Bool, ℕ, zero, suc, ◌+◌, ◌≤◌, ◌<◌, ◌≡◌, refl, sym, ◌∙◌, arith, true, false, List, [], ◌∷◌, ◌++◌,
  ℤ, pos, length,
}
use ttm.Prelude.Run.{Cmd}
use ttm.Tfs.{Dir, tfs_i_dir, tfs_o_rdonly, tfs_open_max}
use ttm.Tfs.Entry.{IsEntry, dir_of_bytes-dir_to_bytes}
use ttm.Tfs.Library.{Library}
use ttm.Find.{
  Settings, Line, open_failed, is_set, is_skipped, entry_path, shown, find_dir, find_node,
  find_entry, find_path, find_entries,
}
use ttm.Find.Listing.{
  Node, regular, directory, Entries, stop, passed, child, entry_dirs, listing, listing_entries,
  size, size_entries, IsTree, AreEntries, Open, Stats, Opens, IsStore, Shows, ShowsEntries, Yields,
  bind-Yields,
}
use ttm.Find.Passed.{Selects, line-shown, is_skipped-passed, is_skipped-child}

module _ {D : Type 0} (lib : Library D) (pid : ℤ) (files : D → Open) (settings : Settings) where
  find_path-node :
      (fuel : ℕ) (path : List ℕ) (mode : ℕ) (lines : List Line) (d : D)
      → Stats lib pid files path mode
      → ((t : D)
          → files t ≡ files d
          → Yields lib pid files lines (files d) (
              find_node lib pid settings
                (find_dir lib pid settings (find_entries lib pid settings fuel path) path)
                path
                mode
                t))
      → Yields lib pid files lines (files d) (find_path lib pid settings (suc fuel) path d)
  unfolding find_path
  find_path-node fuel path mode lines d s h =
      let (e, (m, f)) = s d in rw e (rw m (h (lib.tfs_stat pid path d).1 f))

  find_node-regular :
      (below : Cmd D (List Line)) (path : List ℕ) (mode : ℕ) (left : Open) (d : D)
      → is_set mode tfs_i_dir ≡ false
      → files d ≡ left
      → Yields lib pid files
          (shown settings path mode)
          left
          (find_node lib pid settings below path mode d)
  unfolding find_node
  find_node-regular below path mode left d e f =
      rw (e, find_node) (record { after = d; result = refl; open_files = f })

  find_node-directory :
      (below : Cmd D (List Line)) (path : List ℕ) (mode : ℕ) (lines : List Line) (left : Open)
      (d : D)
      → is_set mode tfs_i_dir ≡ true
      → Yields lib pid files lines left (below d)
      → Yields lib pid files
          (shown settings path mode ++ lines)
          left
          (find_node lib pid settings below path mode d)
  unfolding find_node
  find_node-directory below path mode lines left d e y =
      rw (e, find_node)
        (bind-Yields lib pid files (below d) _ y
          (λ t f. record { after = t; result = refl; open_files = f }))

  find_dir-refused :
      (entries : ℤ → Cmd D (List Line)) (path : List ℕ) (es : List Dir) (left : Open) (d : D)
      → Opens lib pid files path es
      → files d ≡ left
      → tfs_open_max ≤ length left
      → Yields lib pid files (open_failed path ∷ []) left (find_dir lib pid settings entries path d)
  unfolding find_dir
  find_dir-refused entries path es left d o f full =
      let (e, g) = (o d).1 (rw f full) in
      rw e (record { after = _; result = refl; open_files = g ∙ f })

  find_dir-opened :
      (entries : ℤ → Cmd D (List Line)) (path : List ℕ) (es : List Dir) (lines : List Line)
      (left : Open) (d : D)
      → IsStore lib pid files
      → Opens lib pid files path es
      → files d ≡ left
      → length left < tfs_open_max
      → ((n : ℕ) (t : D)
          → files t ≡ (pos n, es) ∷ left
          → Yields lib pid files lines ((pos n, []) ∷ left) (entries (pos n) t))
      → Yields lib pid files lines left (find_dir lib pid settings entries path d)
  unfolding find_dir
  find_dir-opened entries path es lines left d store o f room h =
      let (n, (e, g)) = (o d).0 (rw f room) in
      rw e (
        bind-Yields lib pid files (entries (pos n) (lib.tfs_open pid path tfs_o_rdonly 0 d).1) _
          (h n _ (rw (sym f) g))
          (λ t k. record {
            after = (lib.tfs_close pid (pos n) t).1;
            result = refl;
            open_files = store.closes t (pos n) [] left k;
          }))

  find_entries-end :
      (fuel : ℕ) (path : List ℕ) (fd : ℤ) (left : Open) (d : D)
      → IsStore lib pid files
      → files d ≡ (fd, []) ∷ left
      → Yields lib pid files []
          ((fd, []) ∷ left)
          (find_entries lib pid settings (suc fuel) path fd d)
  unfolding find_path
  find_entries-end fuel path fd left d store f =
      let (e, g) = store.ends d fd left f in
      rw e (record { after = _; result = refl; open_files = g })

  find_entries-entry :
      (fuel : ℕ) (path : List ℕ) (fd : ℤ) (e : Dir) (es : List Dir) (lines more : List Line)
      (left : Open) (d : D)
      → IsStore lib pid files
      → IsEntry e
      → files d ≡ (fd, e ∷ es) ∷ left
      → ((t : D)
          → files t ≡ (fd, es) ∷ left
          → Yields lib pid files lines
              ((fd, es) ∷ left)
              (find_entry lib pid settings (find_path lib pid settings fuel) path e t))
      → ((t : D)
          → files t ≡ (fd, es) ∷ left
          → Yields lib pid files more
              ((fd, []) ∷ left)
              (find_entries lib pid settings fuel path fd t))
      → Yields lib pid files
          (lines ++ more)
          ((fd, []) ∷ left)
          (find_entries lib pid settings (suc fuel) path fd d)
  unfolding find_path
  find_entries-entry fuel path fd e es lines more left d store proper f h k =
      let (r, (b, g)) = store.reads d fd e es left f in
      rw r (
        rw b (
          rw (dir_of_bytes-dir_to_bytes e proper) (
            bind-Yields lib pid files _ _ (h _ g) (λ t i.
              bind-Yields lib pid files _ _ (k t i)
                (λ u j. record { after = u; result = refl; open_files = j })))))

  find_entry-passed :
      (visit : List ℕ → Cmd D (List Line)) (path : List ℕ) (e : Dir) (left : Open) (d : D)
      → is_skipped e ≡ true
      → files d ≡ left
      → Yields lib pid files [] left (find_entry lib pid settings visit path e d)
  unfolding find_entry
  find_entry-passed visit path e left d s f =
      rw (s, find_entry) (record { after = d; result = refl; open_files = f })

  find_entry-child :
      (visit : List ℕ → Cmd D (List Line)) (path : List ℕ) (e : Dir) (d : D)
      → is_skipped e ≡ false
      → find_entry lib pid settings visit path e d ≡ visit (entry_path path e.name) d
  unfolding find_entry
  find_entry-child visit path e d s = rw (s, find_entry) refl

  module _ (store : IsStore lib pid files) (fs ds : Bool) (sel : Selects settings fs ds) where
    mutual
      unfolding listing size IsTree Shows entry_path

      pub walk :
          (room fuel : ℕ) (path : List ℕ) (node : Node) (d : D)
          → IsTree node
          → Shows lib pid files path node
          → size node ≤ fuel
          → room + length (files d) ≡ tfs_open_max
          → Yields lib pid files
              (listing fs ds room path node)
              (files d)
              (find_path lib pid settings fuel path d)
      walk room zero path (regular mode) d t s n m = absurd (omega arith)
      walk room zero path (directory mode es) d t s n m = absurd (omega arith)
      walk room (suc fuel) path (regular mode) d t s n m =
          rw (line-shown settings path mode fs (sel.0 mode t)) (
            find_path-node fuel path mode (shown settings path mode) d s (λ u f.
              find_node-regular
                (find_dir lib pid settings (find_entries lib pid settings fuel path) path) path mode
                (files d) u t.0 f))
      walk zero (suc fuel) path (directory mode es) d t s n m =
          rw (line-shown settings path mode ds (sel.1 mode t.0)) (
            find_path-node fuel path mode (shown settings path mode ++ (open_failed path ∷ [])) d
              s.0.0
              (λ u f. find_node-directory _ path mode (open_failed path ∷ []) (files d) u t.0.0 (
                find_dir-refused (find_entries lib pid settings fuel path) path (entry_dirs es)
                  (files d) u s.0.1 f (omega arith))))
      walk (suc room) (suc fuel) path (directory mode es) d t s n m =
          rw (line-shown settings path mode ds (sel.1 mode t.0)) (
            find_path-node fuel path mode
              (shown settings path mode ++ listing_entries fs ds room path es) d s.0.0
              (λ u f.
                find_node-directory _ path mode (listing_entries fs ds room path es) (files d) u
                  t.0.0
                  (find_dir-opened (find_entries lib pid settings fuel path) path (entry_dirs es)
                    (listing_entries fs ds room path es) (files d) u store s.0.1 f (omega arith)
                    (λ k v g.
                      walk_entries room fuel path (pos k) es (files d) v t.1 s.1 (omega arith)
                        (omega arith) g))))

      walk_entries :
          (room fuel : ℕ) (path : List ℕ) (fd : ℤ) (es : Entries) (left : Open) (d : D)
          → AreEntries es
          → ShowsEntries lib pid files path es
          → size_entries es ≤ fuel
          → room + suc (length left) ≡ tfs_open_max
          → files d ≡ (fd, entry_dirs es) ∷ left
          → Yields lib pid files
              (listing_entries fs ds room path es)
              ((fd, []) ∷ left)
              (find_entries lib pid settings fuel path fd d)
      walk_entries room zero path fd stop left d t s n m f = absurd (omega arith)
      walk_entries room zero path fd (passed e es) left d t s n m f = absurd (omega arith)
      walk_entries room zero path fd (child e node es) left d t s n m f = absurd (omega arith)
      walk_entries room (suc fuel) path fd stop left d t s n m f =
          find_entries-end fuel path fd left d store f
      walk_entries room (suc fuel) path fd (passed e es) left d t s n m f =
          find_entries-entry fuel path fd e (entry_dirs es) [] (listing_entries fs ds room path es)
            left d store t.0.0 f
            (λ u g.
              find_entry-passed (find_path lib pid settings fuel) path e _ u
                (is_skipped-passed e t.0.1) g)
            (λ u g. walk_entries room fuel path fd es left u t.1 s (omega arith) m g)
      walk_entries room (suc fuel) path fd (child e node es) left d t s n m f =
          find_entries-entry fuel path fd e (entry_dirs es)
            (listing fs ds room (entry_path path e.name) node) (listing_entries fs ds room path es)
            left d store t.0.0 f
            (λ u g.
              rw
                (find_entry-child (find_path lib pid settings fuel) path e u
                  (is_skipped-child e t.0.1))
                (rw g at (
                  walk room fuel (entry_path path e.name) node u t.1.0 s.0 (omega arith)
                    (rw g (omega arith)))))
            (λ u g. walk_entries room fuel path fd es left u t.1.1 s.1 (omega arith) m g)
