-- ===== src/Ir/Machine.antt =====
-- The control flow of a unit, with what an instruction computes left as a parameter: an execution
-- sees an instruction without its targets, so only the unit decides where a jump lands. It is the
-- yardstick for the optimiser: crates/rtcl-vm/src/interp/vm_exec.rs keeps its loop and catch
-- targets on such stacks, and moves `pc` by the operands of the instruction that it executes.
use rtcl.Prelude.{
  arith, ◌≢◌, sym, ◌∙◌, refl, inl, inr, ◌⊎◌, drop, ℕ, zero, suc, ◌≡◌, List, [], ◌∷◌, Option, none,
  some, get_elem?,
}
use rtcl.Ir.OpCode.{OpCode, nop}
use rtcl.Ir.Targets.{targets_of, erase}

-- What an execution asks for: the next instruction; a jump to the instruction's k-th target; the
-- targets saved for later (a loop or a catch) or dropped; a jump to the k-th target saved under
-- `n` others; or the end of the unit.
pub data Flow (S : Type 0) : Type 0 where
  fall : S → Flow S
  branch : ℕ → S → Flow S
  save : S → Flow S
  discard : S → Flow S
  unwind : ℕ → ℕ → S → Flow S
  finish : S → Flow S

pub record Machine (S : Type 0) : Type 0 where
  pub exec : OpCode → S → Flow S
  pub exec-nop : (s : S) → exec nop s ≡ fall s

pub record Config (S : Type 0) : Type 0 where
  pub pc : ℕ
  pub frames : List (List ℕ)
  pub state : S

abbrev pub config : {S : Type 0} → ℕ → List (List ℕ) → S → Config S
config pc frames s = record { pc = pc; frames = frames; state = s }

-- The state at the end, a jump that leads nowhere, or no end within the fuel.
pub data Outcome (S : Type 0) : Type 0 where
  finished : S → Outcome S
  stuck : Outcome S
  out_of_fuel : Outcome S

unfoldable pub target_at : List (List ℕ) → ℕ → Option ℕ
target_at [] k = none
target_at (f ∷ _) k = get_elem? f k

-- One step leads to a configuration, or ends the run.
pub data Next (S : Type 0) : Type 0 where
  go : Config S → Next S
  end : Outcome S → Next S

pub Next-cases :
    {S : Type 0} (x : Next S) → ((c : Config S) × (x ≡ go c)) ⊎ ((o : Outcome S) × (x ≡ end o))
Next-cases (go c) = inl (c, refl)
Next-cases (end o) = inr (o, refl)

module _ {S : Type 0} where
  abbrev pub jump_to : Option ℕ → List (List ℕ) → S → Next S
  jump_to none frames s = end stuck
  jump_to (some t) frames s = go (config t frames s)

  unfoldable pub follow : List ℕ → ℕ → List (List ℕ) → Flow S → Next S
  unfolding target_at
  follow targets pc frames (fall s) = go (config (suc pc) frames s)
  follow targets pc frames (branch k s) = jump_to (get_elem? targets k) frames s
  follow targets pc frames (save s) = go (config (suc pc) (targets ∷ frames) s)
  follow targets pc frames (discard s) = go (config (suc pc) (drop 1 frames) s)
  follow targets pc frames (unwind n k s) =
      let below = drop n frames in jump_to (target_at below k) below s
  follow targets pc frames (finish s) = end (finished s)

  module _ (m : Machine S) where
    unfoldable pub step : List OpCode → Config S → Next S
    unfolding follow
    step ops c = elim (get_elem? ops c.pc) [
      | none ↦ end (finished c.state)
      | some op ↦ follow (targets_of op) c.pc c.frames (m.exec (erase op) c.state)
    ]

    unfoldable pub run : ℕ → List OpCode → Config S → Outcome S
    unfolding step
    run zero ops c = out_of_fuel
    run (suc fuel) ops c = elim (step ops c) [ go c' ↦ run fuel ops c' | end o ↦ o ]

    pub step-some :
        (ops : List OpCode) (c : Config S) (op : OpCode)
        → get_elem? ops c.pc ≡ some op
        → step ops c ≡ follow (targets_of op) c.pc c.frames (m.exec (erase op) c.state)
    unfolding step
    step-some ops c op h = ground arith

    pub step-none :
        (ops : List OpCode) (c : Config S)
        → get_elem? ops c.pc ≡ none
        → step ops c ≡ end (finished c.state)
    unfolding step
    step-none ops c h = ground arith

    pub run-go :
        (fuel : ℕ) (ops : List OpCode) (c c' : Config S)
        → step ops c ≡ go c'
        → run (suc fuel) ops c ≡ run fuel ops c'
    unfolding run
    run-go fuel ops c c' h = ground arith

    pub run-end :
        (fuel : ℕ) (ops : List OpCode) (c : Config S) (o : Outcome S)
        → step ops c ≡ end o
        → run (suc fuel) ops c ≡ o
    unfolding run
    run-end fuel ops c o h = ground arith

    -- More fuel changes no outcome.
    pub run-suc :
        (fuel : ℕ) (ops : List OpCode) (c : Config S) (o : Outcome S)
        → run fuel ops c ≡ o
        → o ≢ out_of_fuel
        → run (suc fuel) ops c ≡ o
    unfolding run
    run-suc zero ops c o h n = absurd (n (sym h))
    run-suc (suc fuel) ops c o h n = elim (Next-cases (step ops c)) [
      | inl (c', e) ↦
          run-go (suc fuel) ops c c' e ∙ run-suc fuel ops c' o (sym (run-go fuel ops c c' e) ∙ h) n
      | inr (o', e) ↦ run-end (suc fuel) ops c o' e ∙ (sym (run-end fuel ops c o' e) ∙ h)
    ]

    -- The unit ends with this outcome, from some amount of fuel on.
    abbrev pub EndsWith : List OpCode → Config S → Outcome S → Type 0
    EndsWith ops c o = (fuel : ℕ) × (run fuel ops c ≡ o)
