-- ===== src/Flash/Working.antt =====
-- The whole of `high_pr` of TTM50/EXAMPLES/FLASH.C on a flash EPROM that works and with a file whose
-- words do not contradict each other.
use ttm.Prelude.{
  ℕ, ◌+◌, ◌<◌, ◌≡◌, refl, sym, ap, ◌∙◌, true, eq→==, inl, inr, Option, none, some, List, [], ◌∷◌,
  word_mod,
}
use ttm.Prelude.Run.{Cmd, exited, ◌>>=◌}
use ttm.Flash.{
  Eprom, flash_word_size, HexLine, file_end, empty, words, word_address, program_rounds,
  exit_success, prog_attempts, prog_ep, check_ep, for_lines, use_line, accept_line, get_line,
  read_line, prog_hf, check_hf, high_pr,
}
use ttm.Flash.Chip.{
  reading, Chip, updated, blank, in_mode, IsFlash, Takes, Takes-pure, Takes-bind, Takes-write,
  Takes-wait, Takes-write_to, Takes-read_as, reset_fe-Takes, reset_ids-Takes, read_i_i-Takes,
  Exits-bind,
}
use ttm.Flash.Erasing.{
  zeroed, updated_at, prog_to_0-Takes, check_zero-Takes, check_blank-Takes, erase-Takes,
}
use ttm.Flash.Target.{
  Stand, LineStands, FileStands, OnTheWay, Stays, updated-OnTheWay, updated-Stays, Stand-Stays,
}

module _ {D : Type 0} {eprom : Eprom D} {burn : ℕ → ℕ → ℕ} {chip : D → Chip}
    (flash : IsFlash eprom burn chip) (target : ℕ → ℕ) (fits : (x : ℕ) → target x < word_mod) where
  burnt : (w : ℕ → ℕ) (a : ℕ) → OnTheWay target w → burn (w a) (target a) ≡ target a
  burnt w a h = elim (h a) [
    | inl e ↦ rw e (flash.burns (target a) (fits a))
    | inr e ↦ rw e (flash.keeps (target a))
  ]

  prog_attempts-Takes :
      (base j : ℕ) (w : ℕ → ℕ)
      → OnTheWay target w
      → let a = word_address base j in
        Takes chip
          (in_mode reading w)
          (prog_attempts eprom program_rounds base j (target a))
          true
          (in_mode reading (updated a (target a) w))
  unfolding prog_attempts
  prog_attempts-Takes base j w h =
      let a = word_address base j in
      Takes-bind _ (Takes-write flash _ _ _) (
        Takes-bind _
          (Takes-write_to flash a (target a) _ _
            (ap (λ v. in_mode reading (updated a v w)) (burnt w a h)))
          (Takes-bind _ (Takes-wait flash _ _) (
            Takes-bind _ (Takes-write flash _ _ _) (
              Takes-bind _ (Takes-wait flash _ _) (
                Takes-bind _ (Takes-read_as flash a (target a) _ (updated_at a (target a) w))
                  (rw (eq→== (target a) (target a) refl) (Takes-pure _ _)))))))

  -- A part of the program takes the words `w` to others, of which `Done` holds.
  record Programs (w : ℕ → ℕ) (m : Cmd D (Unit {0})) (Done : (ℕ → ℕ) → Type 0) : Type 0 where
    after : ℕ → ℕ
    takes : Takes chip (in_mode reading w) m tt (in_mode reading after)
    on_the_way : OnTheWay target after
    stays : Stays target w after
    done : Done after

  prog_ep-Programs :
      (base j : ℕ) (vs : List ℕ) (w : ℕ → ℕ)
      → OnTheWay target w
      → Stand target base j vs
      → Programs w (prog_ep eprom base j vs) (λ w'. Stand w' base j vs)
  unfolding prog_ep
  prog_ep-Programs base j [] w h t = record {
    after = w;
    takes = Takes-pure _ _;
    on_the_way = h;
    stays = λ x e. e;
    done = tt;
  }
  prog_ep-Programs base j (v ∷ vs) w h (e, t) =
      let a = word_address base j in
      let rest =
        prog_ep-Programs base (j + 1) vs (updated a (target a) w) (updated-OnTheWay a target w h)
          t in
      record {
        after = rest.after;
        takes = rw (sym e) (Takes-bind _ (prog_attempts-Takes base j w h) rest.takes);
        on_the_way = rest.on_the_way;
        stays = λ x f. rest.stays x (updated-Stays a target w x f);
        done = (rest.stays a (updated_at a (target a) w) ∙ e, rest.done);
      }

  check_ep-Takes :
      (base j : ℕ) (vs : List ℕ) (w : ℕ → ℕ)
      → Stand w base j vs
      → Takes chip (in_mode reading w) (check_ep eprom base j vs) tt (in_mode reading w)
  unfolding check_ep
  check_ep-Takes base j [] w h = Takes-pure _ _
  check_ep-Takes base j (v ∷ vs) w (e, h) =
      Takes-bind _ (Takes-read_as flash _ v _ e)
        (rw (eq→== v v refl) (check_ep-Takes base (j + 1) vs w h))

  check_lines-Takes :
      (file : List (List ℕ)) (w : ℕ → ℕ)
      → FileStands file w
      → Takes chip
          (in_mode reading w)
          (for_lines eprom (λ address values. check_ep eprom address 0 values) file)
          tt
          (in_mode reading w)
  unfolding for_lines get_line accept_line use_line read_line
  check_lines-Takes [] w h = Takes-pure tt _
  check_lines-Takes (line ∷ lines) w (h, k) =
      step (read_line (some line)) h (check_lines-Takes lines w k)
    where
      step :
          (l : Option HexLine)
          → LineStands w l
          → {next : Cmd D (Unit {0})} → Takes chip (in_mode reading w) next tt (in_mode reading w)
          → Takes chip
              (in_mode reading w)
              (accept_line eprom l
                >>= use_line eprom (λ address values. check_ep eprom address 0 values) next)
              tt
              (in_mode reading w)
      step none h t = absurd h
      step (some file_end) h t = absurd h
      step (some empty) h t = t
      step (some (words address values)) h t = Takes-bind _ (check_ep-Takes address 0 values w h) t

  use_line-Programs :
      (l : Option HexLine) (next : Cmd D (Unit {0})) (Done : (ℕ → ℕ) → Type 0) (w : ℕ → ℕ)
      → OnTheWay target w
      → LineStands target l
      → ((w' : ℕ → ℕ) → OnTheWay target w' → Programs w' next Done)
      → Programs w
          (accept_line eprom l
            >>= use_line eprom (λ address values. prog_ep eprom address 0 values) next)
          (λ w'. LineStands w' l × Done w')
  unfolding accept_line use_line
  use_line-Programs none next Done w h t f = absurd t
  use_line-Programs (some file_end) next Done w h t f = absurd t
  use_line-Programs (some empty) next Done w h t f =
      let rest = f w h in
      record {
        after = rest.after;
        takes = rest.takes;
        on_the_way = rest.on_the_way;
        stays = rest.stays;
        done = (tt, rest.done);
      }
  use_line-Programs (some (words address values)) next Done w h t f =
      let line = prog_ep-Programs address 0 values w h t in
      let rest = f line.after line.on_the_way in
      record {
        after = rest.after;
        takes = Takes-bind _ line.takes rest.takes;
        on_the_way = rest.on_the_way;
        stays = λ x e. rest.stays x (line.stays x e);
        done = (Stand-Stays target _ _ address 0 values rest.stays t line.done, rest.done);
      }

  for_lines-Programs :
      (file : List (List ℕ)) (w : ℕ → ℕ)
      → OnTheWay target w
      → FileStands file target
      → Programs w
          (for_lines eprom (λ address values. prog_ep eprom address 0 values) file)
          (FileStands file)
  unfolding for_lines get_line accept_line use_line read_line
  for_lines-Programs [] w h t = record {
    after = w;
    takes = Takes-pure tt _;
    on_the_way = h;
    stays = λ x e. e;
    done = tt;
  }
  for_lines-Programs (line ∷ lines) w h (t, u) =
      use_line-Programs (read_line (some line)) _ (FileStands lines) w h t
        (λ w' h'. for_lines-Programs lines w' h' u)

  -- On an EPROM that does what a chip does, programming and erasing included, and that is in its
  -- reading mode at first, the utility ends with EXIT_SUCCESS if every line of the file is empty or
  -- has words, and the words are those of one target, which has a word of 32 bits for each address.
  pub high_pr_succeeds :
      (file : List (List ℕ)) (d : D)
      → (chip d).mode ≡ reading
      → FileStands file target
      → (d' : D) × (high_pr eprom (some file) d ≡ exited exit_success d')
  unfolding high_pr prog_hf check_hf
  high_pr_succeeds file d m t =
      let first = (chip d).word in
      let zero = zeroed flash_word_size 0 first in
      let filled = for_lines-Programs file blank (λ x. inl refl) t in
      (Exits-bind _ (reset_fe-Takes flash first) (
          Exits-bind _ (read_i_i-Takes flash first) (
            Exits-bind _ (reset_ids-Takes flash first) (
              Exits-bind _ (read_i_i-Takes flash first) (
                Exits-bind _ (reset_ids-Takes flash first) (
                  Exits-bind _ (prog_to_0-Takes flash first) (
                    Exits-bind _ (check_zero-Takes flash first) (
                      Exits-bind _ (reset_fe-Takes flash zero) (
                        Exits-bind _ (erase-Takes flash zero) (
                          Exits-bind _ (check_blank-Takes flash) (
                            Exits-bind _ (reset_fe-Takes flash blank) (
                              Exits-bind _ filled.takes (
                                Exits-bind _ (reset_fe-Takes flash _) (
                                  Exits-bind _ (reset_fe-Takes flash _) (
                                    Exits-bind _ (check_lines-Takes file filled.after filled.done)
                                      (record { run = λ d h. (d, refl) })))))))))))))))).run
        d (ap (λ x. in_mode x first) m)
