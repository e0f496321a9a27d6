-- ===== src/Ir/Fuse.antt =====
-- crates/rtcl-ir/src/bytecode.rs, `collect_jump_targets` and `fuse_pairs`: windows of instructions
-- become superinstructions.
pub mod Window
pub mod Sound
pub mod Arms
pub mod Whole
pub mod Marks
pub mod Range
pub mod Keeps
pub mod Spaced
pub mod Retarget
use rtcl.Prelude.{
  ℕ, zero, suc, ◌+◌, ◌-◌, ◌^◌, Bool, true, false, ◌&&◌, ◌||◌, not, List, [], ◌∷◌, ◌++◌, map, Option,
  none, some, length, get_elem?, ◌==◌, leb, ltb, if◌then◌else◌,
}
use rtcl.Ir.OpCode.{OpCode, nop}
use rtcl.Ir.Targets.{map_targets, targets_of}
use rtcl.Ir.ByteCode.{ByteCode}
use rtcl.Ir.Fuse.Window.{Fusion, Found, no_window, out_of_range, found, fuse_window}

abbrev pub all_false : ℕ → List Bool
all_false zero = []
all_false (suc n) = false ∷ all_false n

-- The closure `mark`: a target past the table is ignored.
unfoldable pub mark : ℕ → List Bool → List Bool
mark t [] = []
mark zero (b ∷ marks) = true ∷ marks
mark (suc t) (b ∷ marks) = b ∷ mark t marks

unfoldable pub mark_all : List ℕ → List Bool → List Bool
unfolding mark
mark_all [] marks = marks
mark_all (t ∷ ts) marks = mark_all ts (mark t marks)

unfoldable pub mark_targets : List OpCode → List Bool → List Bool
unfolding mark_all targets_of
mark_targets [] marks = marks
mark_targets (op ∷ ops) marks = mark_targets ops (mark_all (targets_of op) marks)

unfoldable pub collect_jump_targets : List OpCode → List Bool
unfolding mark_targets
collect_jump_targets ops = mark_targets ops (all_false (length ops + 1))

-- `targets[i]`, for an index that the loop keeps within the table.
unfoldable pub is_target : List Bool → ℕ → Bool
is_target marks i = elim (get_elem? marks i) [ none ↦ false | some b ↦ b ]

-- `tail_free(w)`
unfoldable pub tail_free : List Bool → ℕ → ℕ → ℕ → Bool
unfolding is_target
tail_free marks len i zero = true
tail_free marks len i (suc zero) = true
tail_free marks len i (suc (suc w)) =
    tail_free marks len i (suc w) && (ltb (i + suc w) len && not (is_target marks (i + suc w)))

-- The locals of the loop: the instructions behind `i`, rewritten, `retargets`, and `changed`.
pub record Fused : Type 0 where
  pub done : List OpCode
  pub retargets : List ℕ
  pub changed : Bool

abbrev pub keep : OpCode → Fused → Fused
keep op f = record f { done = f.done ++ op ∷ [] }

-- A trampoline at `i` sends the targets `i + 1` to `i`.
abbrev pub replace : ℕ → Fusion → Fused → Fused
replace i g f = record {
  done = f.done ++ g.op ∷ [];
  retargets = if g.trampoline then f.retargets ++ i ∷ [] else f.retargets;
  changed = true;
}

abbrev pub window_at : List Bool → ℕ → ℕ → List OpCode → OpCode → List OpCode → Found
window_at marks len i done op [] = no_window
window_at marks len i done op (op' ∷ ops) =
    fuse_window (not (is_target marks (i + 1))) (tail_free marks len i 3) (tail_free marks len i 4)
      i (done ++ op ∷ op' ∷ ops) op op' ops

-- The loop at `i`; `skip` instructions of the last window are left to become `Nop`.
-- An index out of range, a panic, is `none`.
unfoldable pub fuse_from : List Bool → ℕ → ℕ → ℕ → Fused → List OpCode → Option Fused
unfolding fuse_window is_target tail_free
fuse_from marks len skip i f [] = some f
fuse_from marks len (suc skip) i f (op ∷ ops) = fuse_from marks len skip (suc i) (keep nop f) ops
fuse_from marks len zero i f (op ∷ ops) = elim (window_at marks len i f.done op ops) [
  | no_window ↦ fuse_from marks len 0 (suc i) (keep op f) ops
  | out_of_range ↦ none
  | found g ↦ fuse_from marks len (g.width - 1) (suc i) (replace i g f) ops
]

-- The inner loop over `retargets`, for one operand.
unfoldable pub retarget : List ℕ → ℕ → ℕ
retarget [] t = t
retarget (i ∷ is) t = retarget is (if t == i + 1 then i else t)

abbrev pub retargeted : ByteCode → Option Fused → Option (Bool × ByteCode)
retargeted code none = none
retargeted code (some f) =
    some (f.changed, record code { ops = map (map_targets (retarget f.retargets)) f.done })

unfoldable pub fuse_pairs : ByteCode → Option (Bool × ByteCode)
unfolding collect_jump_targets fuse_from retarget map_targets
fuse_pairs code =
    let len = length code.ops in
    let start : Fused = record { done = []; retargets = []; changed = false } in
    if ltb len 2
    then some (false, code)
    else retargeted code (fuse_from (collect_jump_targets code.ops) len 0 0 start code.ops)
