-- ===== src/Ir/Tests.antt =====
-- Runs of the unit's operations on small units, and the theorems at concrete inputs.
use rtcl.Prelude.{ℕ, suc, ◌≡◌, ◌≢◌, ◌↔◌, refl, ◌^◌, ◌<◌, List, [], ◌∷◌, ◌++◌, some, length, arith}
use Prim.Native.String.{String}
use rtcl.Ir.OpCode.{OpCode, nop, pop, jump, push_true}
use rtcl.Ir.ByteCode.{ByteCode, empty_unit, add_const_wide, get_const_wide, emit_push_const}
use rtcl.Ir.ByteCode.Pool.{get_const_wide-add_const_wide, pushed, pushed-emit_push_const}
use rtcl.Ir.Machine.{Flow, fall, branch, Machine, config, Outcome, finished, out_of_fuel, EndsWith}
use rtcl.Ir.Strip.{strip_nops}
use rtcl.Ir.Strip.Run.{TargetsFit}
use rtcl.Prelude.Int.{pos}
use rtcl.Prelude.{true, false, ◌≤◌, ◌⊎◌, take, All}
use rtcl.Ir.OpCode.{incr_local_pop, load_var, add, add_var_var}
use rtcl.Ir.Unfuse.{has_fused_ops, unfused}
use rtcl.Ir.Unfuse.Free.{Made, has_fused_ops-unfused}
use rtcl.Ir.Unfuse.Windows.{last, next}
use rtcl.Ir.Unfuse.Run.{AsWindow, EndsWith-unfused}
use rtcl.Ir.Fuse.{collect_jump_targets, is_target, window_at, fuse_pairs}
use rtcl.Ir.Fuse.Retarget.{fuse_pairs-Retargeted}
use rtcl.Ir.OpCode.{next_mark, swap_to_next_mark}
use rtcl.Ir.Fuse.Window.{Fusion, found, fuse_window}
use rtcl.Ir.Fuse.Sound.{ToNext, Stands}
use rtcl.Ir.Jumps.{JumpedTo}
use rtcl.Ir.Fuse.Whole.{Stands-fuse_window}
use rtcl.Ir.Fuse.Marks.{Untargeted, is_target-collect_jump_targets, Untargeted-window_at}
use rtcl.Ir.OpCode.{push_int, sub, shl, not_op}
use rtcl.Prelude.Int.{negsuc}
use rtcl.Ir.Peephole.{peephole}
use rtcl.Ir.Peephole.Fold.{int, in_i64, fold_ints}
use rtcl.Ir.Peephole.Exact.{exact, InRange, exact-fold_ints}
use rtcl.Ir.Peephole.Whole.{peephole-NopFree}
use rtcl.Ir.Strip.Whole.{NopFree, strip_nops-NopFree, EndsWith-strip_nops}

abbrev two_texts : ByteCode
two_texts = record empty_unit { constants = "a" ∷ "b" ∷ [] }

fits : length two_texts.constants < 2 ^ 32
fits = omega arith

get_const_wide-add_const_wide_example :
    (get_const_wide (add_const_wide "c" two_texts).0 (add_const_wide "c" two_texts).1 ≡ some "c")
    × ((j : ℕ) (x : String)
        → get_const_wide j two_texts ≡ some x
        → get_const_wide j (add_const_wide "c" two_texts).1 ≡ some x)
    × (add_const_wide "c" (add_const_wide "c" two_texts).1 ≡ add_const_wide "c" two_texts)
get_const_wide-add_const_wide_example = get_const_wide-add_const_wide "c" two_texts fits

pushed-emit_push_const_example :
    (op : OpCode) × ((emit_push_const "b" 3 two_texts).1.ops ≡ two_texts.ops ++ op ∷ [])
    × (pushed op (emit_push_const "b" 3 two_texts).1 ≡ some "b")
pushed-emit_push_const_example = pushed-emit_push_const "b" 3 two_texts fits

-- A jump over an instruction, to a `nop`.
abbrev with_nops : ByteCode
with_nops = record empty_unit {
  ops = nop ∷ push_true ∷ jump 4 ∷ pop ∷ nop ∷ push_true ∷ [];
  line_map = 1 ∷ 1 ∷ 2 ∷ 3 ∷ 3 ∷ 4 ∷ [];
}

abbrev without_nops : ByteCode
without_nops = record empty_unit {
  ops = push_true ∷ jump 3 ∷ pop ∷ push_true ∷ [];
  line_map = 1 ∷ 2 ∷ 3 ∷ 4 ∷ [];
}

strip : strip_nops with_nops ≡ some without_nops
unfolding strip_nops
strip = refl

with_nops-TargetsFit : TargetsFit (length with_nops.ops) with_nops.ops
unfolding rtcl.Ir.Targets.targets_of
with_nops-TargetsFit = (tt, (tt, ((omega arith, tt), (tt, (tt, (tt, tt))))))

-- Every instruction counts, a jump branches.
abbrev count : OpCode → ℕ → Flow ℕ
count nop s = fall s
count (jump _) s = branch 0 s
count _ s = fall (suc s)

abbrev counter : Machine ℕ
counter = record { exec = count; exec-nop = λ s. refl }

strip_nops-NopFree_example :
    (code' : ByteCode) × (strip_nops with_nops ≡ some code')
    × NopFree code'.ops
    × (length code'.line_map ≡ length code'.ops)
    × TargetsFit (length code'.ops) code'.ops
strip_nops-NopFree_example = strip_nops-NopFree with_nops refl with_nops-TargetsFit

abbrev two_done : Outcome ℕ
two_done = finished 2

not_out_of_fuel : two_done ≢ out_of_fuel
not_out_of_fuel e = cc

EndsWith-strip_nops_example :
    EndsWith counter with_nops.ops (config 0 [] 0) two_done
    ↔ EndsWith counter without_nops.ops (config 0 [] 0) two_done
EndsWith-strip_nops_example =
    EndsWith-strip_nops counter with_nops without_nops 0 two_done with_nops-TargetsFit strip
      not_out_of_fuel

-- A jump over a superinstruction.
abbrev with_fused : ByteCode
with_fused = record empty_unit {
  ops = incr_local_pop 0 (pos 1) ∷ jump 3 ∷ incr_local_pop 1 (pos 1) ∷ push_true ∷ [];
  line_map = 1 ∷ 1 ∷ 2 ∷ 3 ∷ [];
}

has_fused_ops-unfused_example :
    All (λ op. ¬ Made op) (unfused with_fused).ops
    × (has_fused_ops (unfused with_fused) ≡ false)
    × (has_fused_ops with_fused ≡ false → unfused with_fused ≡ with_fused)
    × (unfused (unfused with_fused) ≡ unfused with_fused)
has_fused_ops-unfused_example = has_fused_ops-unfused with_fused

-- The superinstruction counts for two.
abbrev count_two : OpCode → ℕ → Flow ℕ
count_two nop s = fall s
count_two (jump _) s = branch 0 s
count_two (incr_local_pop _ _) s = fall (suc (suc s))
count_two _ s = fall (suc s)

abbrev counter_two : Machine ℕ
counter_two = record { exec = count_two; exec-nop = λ s. refl }

with_fused-AsWindow : All (AsWindow counter_two) with_fused.ops
unfolding rtcl.Ir.Unfuse.expansion rtcl.Ir.Targets.erase
with_fused-AsWindow = (
  λ s. next refl (last refl),
  (λ s. last refl, (λ s. next refl (last refl), (λ s. last refl, tt))),
)

abbrev three_done : Outcome ℕ
three_done = finished 3

three_not_out_of_fuel : three_done ≢ out_of_fuel
three_not_out_of_fuel e = cc

EndsWith-unfused_example :
    EndsWith counter_two with_fused.ops (config 0 [] 0) three_done
    ↔ EndsWith counter_two (unfused with_fused).ops (config 0 [] 0) three_done
EndsWith-unfused_example =
    EndsWith-unfused counter_two with_fused 0 three_done with_fused-AsWindow three_not_out_of_fuel

abbrev sum : List OpCode
sum = load_var 0 ∷ load_var 1 ∷ add ∷ []

abbrev sum_fusion : Fusion
sum_fusion = record { op = add_var_var 0 1; width = 3; trampoline = false }

sum-fuse_window :
    fuse_window true true false 0 sum (load_var 0) (load_var 1) (add ∷ []) ≡ found sum_fusion
unfolding fuse_window
sum-fuse_window = refl

Stands-fuse_window_example : Stands true true false 0 sum sum sum_fusion
Stands-fuse_window_example =
    Stands-fuse_window true true false 0 sum (load_var 0) (load_var 1) (add ∷ []) sum_fusion
      sum-fuse_window

sum-window_at :
    window_at (collect_jump_targets sum) (length sum) 0 [] (load_var 0) (load_var 1 ∷ add ∷ [])
    ≡ found sum_fusion
unfolding collect_jump_targets rtcl.Ir.Fuse.tail_free is_target fuse_window
sum-window_at = refl

Untargeted-window_at_example :
    ((sum_fusion.trampoline ≡ false) × Untargeted sum 0 3)
    ⊎ ((sum_fusion.trampoline ≡ true)
        × (sum_fusion.width ≡ 2)
        × ToNext 0 sum (take 3 sum) sum_fusion.op)
Untargeted-window_at_example =
    Untargeted-window_at sum 0 [] (load_var 0) (load_var 1 ∷ add ∷ []) sum_fusion (omega arith)
      sum-window_at

is_target-collect_jump_targets_example :
    (is_target (collect_jump_targets with_fused.ops) 3 ≡ true)
    ↔ (JumpedTo 3 with_fused.ops × (3 ≤ length with_fused.ops))
is_target-collect_jump_targets_example = is_target-collect_jump_targets with_fused.ops 3

-- A jump to the next instruction, and another one to it.
abbrev loop_end : ByteCode
loop_end = record empty_unit { ops = jump 1 ∷ next_mark ∷ jump 1 ∷ []; line_map = 1 ∷ 1 ∷ 1 ∷ [] }

abbrev loop_closed : ByteCode
loop_closed = record empty_unit {
  ops = swap_to_next_mark ∷ nop ∷ jump 0 ∷ [];
  line_map = 1 ∷ 1 ∷ 1 ∷ [];
}

loop_end-fuse_pairs : fuse_pairs loop_end ≡ some (true, loop_closed)
unfolding fuse_pairs
loop_end-fuse_pairs = refl

fuse_pairs-Retargeted_example : ¬ JumpedTo 1 loop_closed.ops
fuse_pairs-Retargeted_example =
    fuse_pairs-Retargeted loop_end loop_closed true 0 1 swap_to_next_mark loop_end-fuse_pairs refl
      refl (λ e. cc) refl

-- Folded in two rounds.
abbrev chained : ByteCode
chained = record empty_unit {
  ops = push_int (pos 1) ∷ push_int (pos 2) ∷ add ∷ push_int (pos 5) ∷ sub ∷ [];
  line_map = 1 ∷ 1 ∷ 1 ∷ 1 ∷ 1 ∷ [];
}

chained_folded :
    peephole chained
    ≡ some (record empty_unit { ops = push_int (negsuc 1) ∷ []; line_map = 1 ∷ [] })
unfolding peephole
chained_folded = refl

-- Two negations in a row are removed, whatever is on the stack.
double_not :
    peephole (record empty_unit {
      ops = push_int (pos 5) ∷ not_op ∷ not_op ∷ [];
      line_map = 1 ∷ 1 ∷ 1 ∷ [];
    })
    ≡ some (record empty_unit { ops = push_int (pos 5) ∷ []; line_map = 1 ∷ [] })
unfolding peephole
double_not = refl

peephole-NopFree_example :
    (code' : ByteCode) × (peephole with_nops ≡ some code')
    × NopFree code'.ops
    × (length code'.line_map ≡ length code'.ops)
    × TargetsFit (length code'.ops) code'.ops
peephole-NopFree_example = peephole-NopFree with_nops refl with_nops-TargetsFit

folds : fold_ints (negsuc 2) (pos 4) shl ≡ some (int (negsuc 47))
unfolding fold_ints
folds = refl

small : in_i64 (negsuc 2) ≡ true
unfolding in_i64
small = refl

exact-fold_ints_example :
    (exact (negsuc 2) (pos 4) shl ≡ some (int (negsuc 47))) × InRange (int (negsuc 47))
exact-fold_ints_example = exact-fold_ints (negsuc 2) (pos 4) shl (int (negsuc 47)) small refl folds
