-- ===== src/Batcher/Defs.antt =====
-- The state of `guiOutputBatcher` (guis/guis.go) and its methods, cut at the lock: what a method does
-- while it holds `mu` is one definition. `schedule` and `append` are the caller's.
use nbterminal.Base.{Bool, true, false, List, [], ◌∷◌, ◌++◌, if◌then◌else◌, is_nil, Text}

module _ {ℓ} (F : Type ℓ) where
  pub record GuiOutputBatcher : Type ℓ where
    pub pending : Text
    pub after : List F
    pub scheduled : Bool

-- What is left to do once the lock is given back: to schedule a drain, or nothing.
pub data Duty : Type 0 where
  schedule_drain done : Duty

-- What a drain still has to do after its second critical section.
pub data Rest {ℓ} (F : Type ℓ) : Type ℓ where
  again : Rest F
  call : List F → Rest F

module _ {ℓ} {F : Type ℓ} where
  abbrev pub new_gui_output_batcher : GuiOutputBatcher F
  new_gui_output_batcher = record { pending = []; after = []; scheduled = false }

  abbrev pub mark : GuiOutputBatcher F → GuiOutputBatcher F × Duty
  mark b = if b.scheduled then (b, done) else (record b { scheduled = true }, schedule_drain)

  unfoldable pub enqueue : GuiOutputBatcher F → Text → GuiOutputBatcher F × Duty
  enqueue b text =
      if is_nil text then (b, done) else mark (record b { pending = b.pending ++ text })

  unfoldable pub after_flush : GuiOutputBatcher F → F → GuiOutputBatcher F × Duty
  after_flush b fn = mark (record b { after = b.after ++ fn ∷ [] })

  -- The first critical section of `drain`: the text to append.
  unfoldable pub drain_start : GuiOutputBatcher F → GuiOutputBatcher F × Text
  drain_start b = (record b { pending = [] }, b.pending)

  -- The second one, after the append.
  unfoldable pub drain_end : GuiOutputBatcher F → GuiOutputBatcher F × Rest F
  drain_end b =
      if is_nil b.pending
      then (record b { after = []; scheduled = false }, call b.after)
      else (b, again)
