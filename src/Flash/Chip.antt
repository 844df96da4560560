-- ===== src/Flash/Chip.antt =====
-- The flash EPROM that TTM50/EXAMPLES/FLASH.C is written for: what its commands do to the words.
use ttm.Prelude.{ℤ, ℕ, ◌≡◌, refl, ap, ◌∙◌, ◌==◌, if◌then◌else◌, word_mod, ◌<◌}
use ttm.Prelude.Run.{ok, exited, Cmd, pure, ◌>>=◌}
use ttm.Flash.{
  Eprom, flash_base_address, flash_read_id_codes, flash_program_setup, flash_erase_setup,
  flash_erase, manufacturer_code, device_code, read, write, wait, reset_fe, read_i_i,
}

-- What the next write or read is for.
pub data Mode : Type 0 where
  reading identifying programming erasing : Mode

pub record Chip : Type 0 where
  pub mode : Mode
  pub word : ℕ → ℕ

abbrev pub updated : ℕ → ℕ → (ℕ → ℕ) → ℕ → ℕ
updated a v word x = if x == a then v else word x

abbrev pub blank : ℕ → ℕ
blank x = 0xffffffff

abbrev pub in_mode : Mode → (ℕ → ℕ) → Chip
in_mode m w = record { mode = m; word = w }

-- The mode that a command leads to, at any address.
abbrev pub command : ℕ → Mode
command v =
    if v == flash_program_setup
    then programming
    else if v == flash_erase_setup
    then erasing
    else if v == flash_read_id_codes
    then identifying
    else reading

-- `burn` is what a word is after it was programmed. The second of two erase commands erases.
abbrev pub written : (ℕ → ℕ → ℕ) → ℕ → ℕ → Mode → (ℕ → ℕ) → Chip
written burn a v reading w = in_mode (command v) w
written burn a v identifying w = in_mode (command v) w
written burn a v programming w = in_mode reading (updated a (burn (w a) v) w)
written burn a v erasing w = in_mode reading (if v == flash_erase then blank else w)

abbrev pub chip_write : (ℕ → ℕ → ℕ) → ℕ → ℕ → Chip → Chip
chip_write burn a v c = written burn a v c.mode c.word

abbrev pub seen : ℕ → Mode → (ℕ → ℕ) → ℕ
seen a identifying w = if a == flash_base_address then manufacturer_code else device_code
seen a reading w = w a
seen a programming w = w a
seen a erasing w = w a

abbrev pub chip_read : ℕ → Chip → ℕ
chip_read a c = seen a c.mode c.word

-- The EPROM does what the chip does: `chip` is the chip that its state shows.
pub record IsFlash {D : Type 0} (eprom : Eprom D) (burn : ℕ → ℕ → ℕ) (chip : D → Chip)
    : Type 0 where
  pub clears : (w : ℕ) → burn w 0 ≡ 0
  pub burns : (v : ℕ) → v < word_mod → burn 0xffffffff v ≡ v
  pub keeps : (v : ℕ) → burn v v ≡ v
  pub writes : (a v : ℕ) (d : D) → chip (eprom.write a v d).1 ≡ chip_write burn a v (chip d)
  pub waits : (n : ℕ) (d : D) → chip (eprom.proc_wait n d).1 ≡ chip d
  pub reads : (a : ℕ) (d : D) → (eprom.read a d).0 ≡ chip_read a (chip d)
  pub stays : (a : ℕ) (d : D) → (eprom.read a d).1 ≡ d

-- From the chip `c`, the run returns `a` and leaves the chip `c'`.
pub record Takes {D A : Type 0} (chip : D → Chip) (c : Chip) (m : Cmd D A) (a : A) (c' : Chip)
    : Type 0 where
  pub run : (d : D) → chip d ≡ c → (d' : D) × ((m d ≡ ok a d') × (chip d' ≡ c'))

-- From the chip `c`, the run ends the program with this code.
pub record Exits {D : Type 0} (chip : D → Chip) (c : Chip) (m : Cmd D (Unit {0})) (code : ℤ)
    : Type 0 where
  pub run : (d : D) → chip d ≡ c → (d' : D) × (m d ≡ exited code d')

module _ {D : Type 0} {chip : D → Chip} where
  pub Exits-bind :
      {A : Type 0} {m : Cmd D A} (f : A → Cmd D (Unit {0})) {c c' : Chip} {a : A} {code : ℤ}
      → Takes chip c m a c'
      → Exits chip c' (f a) code
      → Exits chip c (m >>= f) code
  Exits-bind f t u = record {
    run = λ d h. let (d', (e, h')) = t.run d h in let (d'', e') = u.run d' h' in (d'', (rw e e'));
  }

  pub Takes-pure : {A : Type 0} (a : A) (c : Chip) → Takes chip c (pure a) a c
  Takes-pure a c = record { run = λ d h. (d, (refl, h)) }

  pub Takes-bind :
      {A B : Type 0} {m : Cmd D A} (f : A → Cmd D B) {c c' c'' : Chip} {a : A} {b : B}
      → Takes chip c m a c'
      → Takes chip c' (f a) b c''
      → Takes chip c (m >>= f) b c''
  Takes-bind f t u = record {
    run = λ d h.
        let (d', (e, h')) = t.run d h in
        let (d'', (e', h'')) = u.run d' h' in (d'', (rw e e', h''));
  }

module _ {D : Type 0} {eprom : Eprom D} {burn : ℕ → ℕ → ℕ} {chip : D → Chip}
    (flash : IsFlash eprom burn chip) where
  pub Takes-write : (a v : ℕ) (c : Chip) → Takes chip c (write eprom a v) tt (chip_write burn a v c)
  unfolding write
  Takes-write a v c = record {
    run = λ d h. (_, (refl, flash.writes a v d ∙ ap (chip_write burn a v) h));
  }

  pub Takes-wait : (n : ℕ) (c : Chip) → Takes chip c (wait eprom n) tt c
  unfolding wait
  Takes-wait n c = record { run = λ d h. (_, (refl, flash.waits n d ∙ h)) }

  pub Takes-read : (a : ℕ) (c : Chip) → Takes chip c (read eprom a) (chip_read a c) c
  unfolding read
  Takes-read a c = record { run = λ d h. (d, (rw (flash.reads a d, flash.stays a d, h) refl, h)) }

  -- The same, where the value and the chip are known.
  pub Takes-write_to :
      (a v : ℕ) (c c' : Chip) → chip_write burn a v c ≡ c' → Takes chip c (write eprom a v) tt c'
  unfolding write
  Takes-write_to a v c c' e = record {
    run = λ d h. (_, (refl, flash.writes a v d ∙ (ap (chip_write burn a v) h ∙ e)));
  }

  pub Takes-read_as : (a v : ℕ) (c : Chip) → chip_read a c ≡ v → Takes chip c (read eprom a) v c
  unfolding read
  Takes-read_as a v c e = record {
    run = λ d h. (d, (rw (flash.reads a d, flash.stays a d, h, e) refl, h));
  }

  pub reset_fe-Takes :
      (w : ℕ → ℕ) → Takes chip (in_mode reading w) (reset_fe eprom) tt (in_mode reading w)
  unfolding reset_fe
  reset_fe-Takes w =
      Takes-bind _ (Takes-write _ _ _) (Takes-bind _ (Takes-write _ _ _) (Takes-wait _ _))

  pub reset_ids-Takes :
      (w : ℕ → ℕ) → Takes chip (in_mode identifying w) (reset_fe eprom) tt (in_mode reading w)
  unfolding reset_fe
  reset_ids-Takes w =
      Takes-bind _ (Takes-write _ _ _) (Takes-bind _ (Takes-write _ _ _) (Takes-wait _ _))

  pub read_i_i-Takes :
      (w : ℕ → ℕ) → Takes chip (in_mode reading w) (read_i_i eprom) tt (in_mode identifying w)
  unfolding read_i_i
  read_i_i-Takes w = Takes-bind _ (Takes-write _ _ _) (
      Takes-bind _ (Takes-write _ _ _) (
        Takes-bind _ (Takes-wait _ _) (
          Takes-bind _ (Takes-write _ _ _) (
            Takes-bind _ (Takes-wait _ _)
              (Takes-bind _ (Takes-read _ _) (Takes-bind _ (Takes-read _ _) (Takes-pure _ _)))))))
