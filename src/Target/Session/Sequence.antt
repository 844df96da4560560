-- ===== src/Target/Session/Sequence.antt =====
-- Commands that reach the driver of TTM50/EXAMPLES/TARGET.C one after the other.
use ttm.Prelude.{
  ℕ, suc, ◌+◌, ◌-◌, ◌*◌, ◌<◌, ◌≡◌, inl, inr, false, none, some, List, [], ◌∷◌, arith, All, get_or,
  le_or_lt,
}
use ttm.Target.{State, Target, Reply, target_command}
use ttm.Target.Invariant.{Is24Bit}
use ttm.Target.Session.{Outcome, serve, IsQuiet, Completed}
use ttm.Target.Session.Total.{parts, length_asked, final_status, command-IsMoving, serve-completes}

-- Three calls for each of the 4096 buffers that a 24-bit length fills, and one.
abbrev pub most_calls : ℕ
most_calls = 12289

-- Each command has come to its end.
abbrev pub AllCompleted : (List ℕ → ℕ → ℕ) → List Target → List Outcome → Type 0
AllCompleted get [] [] = Unit {0}
AllCompleted get [] (o ∷ os) = ⊥
AllCompleted get (tg ∷ tgs) [] = ⊥
AllCompleted get (tg ∷ tgs) (o ∷ os) =
    let n = length_asked get tg.cdb in
    Completed n (parts n) (final_status tg.cdb) o × AllCompleted get tgs os

module _ (get : List ℕ → ℕ → ℕ) (others : State → State) where
  -- The outcomes of the commands; each begins with the state that the one in front of it has left.
  unfoldable pub serve_all : List Target → State → List Outcome
  serve_all [] st = []
  serve_all (tg ∷ tgs) st =
      let o = serve get others most_calls (target_command get st tg) in
      o ∷ elim o [ none ↦ [] | some (ns, r) ↦ serve_all tgs r.state ]

  module _ (bits : Is24Bit get) (quiet : IsQuiet others) where
    enough_calls-Completed :
        (st : State) (tg : Target)
        → get_or tg.cdb 4 0 < 256
        → st.busy ≡ false
        → (calls more : ℕ) → suc (parts (length_asked get tg.cdb) * 3 + more) ≡ calls
        → Completed
            (length_asked get tg.cdb)
            (parts (length_asked get tg.cdb))
            (final_status tg.cdb)
            (serve get others calls (target_command get st tg))
    enough_calls-Completed st tg b i calls more e =
        rw (← e) (serve-completes get bits st tg b i others quiet more)

    parts_lem :
        (n : ℕ) → n < 16777216 → suc (parts n * 3 + (most_calls - suc (parts n * 3))) ≡ most_calls
    parts_lem n small = omega (arith, small)

    length_asked_lem :
        (st : State) (tg : Target)
        → get_or tg.cdb 4 0 < 256
        → st.busy ≡ false
        → length_asked get tg.cdb < 16777216
    length_asked_lem st tg b i = elim (le_or_lt (length_asked get tg.cdb) 0) [
      | inl z ↦ omega (arith, z)
      | inr p ↦ (command-IsMoving get bits st tg b i p).2
    ]

    Completed-busy :
        (n k m : ℕ) (ns : List ℕ) (r : Reply)
        → Completed n k m (some (ns, r))
        → r.state.busy ≡ false
    Completed-busy n k m ns r c = ground arith

    -- Every command of a sequence that reaches the idle driver comes to its end as the first does,
    -- with the length and the status that belong to its own opcode, whatever the commands in front
    -- of it were: each leaves the driver free for the next. It is supposed that byte 4 of each
    -- command is below 256, that the SCSI library reads 24-bit lengths and that what enters during
    -- a disconnect leaves a working driver's state alone.
    pub serve_all-AllCompleted :
        (tgs : List Target) (st : State)
        → All (λ tg. get_or tg.cdb 4 0 < 256) tgs
        → st.busy ≡ false
        → AllCompleted get tgs (serve_all tgs st)
    unfolding serve_all
    serve_all-AllCompleted [] st b i = tt
    serve_all-AllCompleted (tg ∷ tgs) st (b, bs) i =
        rest (serve_all-AllCompleted tgs) (serve get others most_calls (target_command get st tg))
          (enough_calls-Completed st tg b i most_calls _ (parts_lem _ (length_asked_lem st tg b i)))
      where
        rest :
            ((s : State)
              → All (λ t. get_or t.cdb 4 0 < 256) tgs
              → s.busy ≡ false
              → AllCompleted get tgs (serve_all tgs s))
            → (o : Outcome)
            → Completed
                (length_asked get tg.cdb)
                (parts (length_asked get tg.cdb))
                (final_status tg.cdb)
                o
            → AllCompleted get
                (tg ∷ tgs)
                (o ∷ elim o [ none ↦ [] | some (ns, r) ↦ serve_all tgs r.state ])
        rest next none c = elim c [ ]
        rest next (some (ns, r)) c = (c, next r.state bs (Completed-busy _ _ _ ns r c))
