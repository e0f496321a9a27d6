-- ===== src/Ir/Strip.antt =====
-- crates/rtcl-ir/src/bytecode.rs, `strip_nops`: removing `Nop`s and moving the jump targets along.
-- The in-place rewrite is a rebuilt list; a target outside the table
-- and a kept instruction without a line are index panics, `none`.
pub mod Table
pub mod Run
pub mod Whole
use rtcl.Prelude.{
  ℕ, suc, ◌+◌, ◌≤◌, Bool, true, false, ◌&&◌, List, [], ◌∷◌, map, Option, none, some, length,
  get_elem?, ◌==◌, leb, if◌then◌else◌,
}
use rtcl.Ir.OpCode.{OpCode}
use rtcl.Ir.Targets.{map_targets, targets_of, is_nop}
use rtcl.Ir.ByteCode.{ByteCode}

-- The first loop: `new_index[i]` is the number of kept instructions before `i`.
unfoldable pub new_indices : ℕ → List OpCode → List ℕ
new_indices offset [] = []
new_indices offset (op ∷ ops) = offset ∷ new_indices (if is_nop op then offset else offset + 1) ops

-- `offset` after the first loop.
unfoldable pub new_len : ℕ → List OpCode → ℕ
new_len offset [] = offset
new_len offset (op ∷ ops) = new_len (if is_nop op then offset else offset + 1) ops

abbrev pub head_or : ℕ → List ℕ → ℕ
head_or d [] = d
head_or d (k ∷ ks) = k

-- The backwards loop that fills `forward`, with the entry for `len` last.
unfoldable pub forward_table : ℕ → List OpCode → List ℕ → List ℕ
forward_table n [] ks = n ∷ []
forward_table n (op ∷ ops) [] = n ∷ []
forward_table n (op ∷ ops) (k ∷ ks) =
    let rest = forward_table n ops ks in (if is_nop op then head_or n rest else k) ∷ rest

-- `forward[t]`, where the caller has checked that it is there.
unfoldable pub lookup_target : List ℕ → ℕ → ℕ
lookup_target table t = elim (get_elem? table t) [ none ↦ 0 | some k ↦ k ]

unfoldable pub all_below : ℕ → List ℕ → Bool
all_below n [] = true
all_below n (t ∷ ts) = leb (suc t) n && all_below n ts

-- No `forward[t]` is out of range.
unfoldable pub targets_fit : ℕ → List OpCode → Bool
unfolding all_below
targets_fit n [] = true
targets_fit n (op ∷ ops) = all_below n (targets_of op) && targets_fit n ops

-- The compaction loop, over the instructions and over the line map beside them.
unfoldable pub compact_ops : List OpCode → List OpCode
compact_ops [] = []
compact_ops (op ∷ ops) = if is_nop op then compact_ops ops else op ∷ compact_ops ops

abbrev pub push_line : ℕ → Option (List ℕ) → Option (List ℕ)
push_line line none = none
push_line line (some lines) = some (line ∷ lines)

-- The line of every kept instruction, `self.line_map[read]`; without one the index panics. What is
-- left of a longer map is cut off.
unfoldable pub compact_lines : List OpCode → List ℕ → Option (List ℕ)
compact_lines [] lines = some []
compact_lines (op ∷ ops) [] = if is_nop op then compact_lines ops [] else none
compact_lines (op ∷ ops) (line ∷ lines) =
    let rest = compact_lines ops lines in if is_nop op then rest else push_line line rest

unfoldable pub strip_ops : List OpCode → List OpCode
unfolding new_indices new_len forward_table lookup_target compact_ops is_nop map_targets
strip_ops ops =
    let n = new_len 0 ops in
    let forward = forward_table n ops (new_indices 0 ops) in
    compact_ops (map (map_targets (lookup_target forward)) ops)

abbrev pub with_lines : ByteCode → Option (List ℕ) → Option ByteCode
with_lines code none = none
with_lines code (some lines) = some (record code { ops = strip_ops code.ops; line_map = lines })

unfoldable pub strip_nops : ByteCode → Option ByteCode
unfolding strip_ops targets_fit compact_lines targets_of
strip_nops code =
    if new_len 0 code.ops == length code.ops
    then some code
    else if targets_fit (length code.ops + 1) code.ops
    then with_lines code (compact_lines code.ops code.line_map)
    else none
