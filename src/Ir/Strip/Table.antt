-- ===== src/Ir/Strip/Table.antt =====
-- The forwarding table that `strip_nops` of crates/rtcl-ir/src/bytecode.rs builds, beside the number
-- of kept instructions before a place.
use rtcl.Prelude.{
  ℕ, zero, suc, ◌+◌, ◌≤◌, ◌≡◌, refl, true, false, List, [], ◌∷◌, some, none, map, length, get_elem?,
  arith, if◌then◌else◌,
}
use rtcl.Ir.OpCode.{OpCode}
use rtcl.Ir.Targets.{is_nop, map_targets, is_nop-map_targets}
use rtcl.Ir.Strip.{new_indices, new_len, forward_table, head_or, compact_ops}

unfoldable pub kept_before : List OpCode → ℕ → ℕ
kept_before ops zero = 0
kept_before [] (suc t) = 0
kept_before (op ∷ ops) (suc t) = if is_nop op then kept_before ops t else suc (kept_before ops t)

forward_table-head :
    (offset : ℕ) (ops : List OpCode) (d : ℕ)
    → head_or d (forward_table (new_len offset ops) ops (new_indices offset ops)) ≡ offset
unfolding forward_table new_len new_indices
forward_table-head offset [] d = refl
forward_table-head offset (op ∷ ops) d =
    ground (arith, forward_table-head offset ops (new_len offset ops))

pub forward_table_lem :
    (offset : ℕ) (ops : List OpCode) (t : ℕ)
    → t ≤ length ops
    → get_elem? (forward_table (new_len offset ops) ops (new_indices offset ops)) t
      ≡ some (offset + kept_before ops t)
unfolding forward_table new_len new_indices kept_before
forward_table_lem offset [] zero h = ground arith
forward_table_lem offset [] (suc t) h = absurd (omega arith)
forward_table_lem offset (op ∷ ops) zero h =
    ground (arith, forward_table-head offset ops (new_len offset ops))
forward_table_lem offset (op ∷ ops) (suc t) h =
    ground (arith, forward_table_lem offset ops t, forward_table_lem (offset + 1) ops t)

-- A kept instruction stands, with its targets rewritten, where its place is forwarded to.
pub get_elem?-compact_ops :
    (f : ℕ → ℕ) (ops : List OpCode) (pc : ℕ) (op : OpCode)
    → get_elem? ops pc ≡ some op
    → is_nop op ≡ false
    → (get_elem? (compact_ops (map (map_targets f) ops)) (kept_before ops pc)
        ≡ some (map_targets f op))
      × (kept_before ops (suc pc) ≡ suc (kept_before ops pc))
unfolding compact_ops kept_before
get_elem?-compact_ops f [] pc op h k = cc
get_elem?-compact_ops f (o ∷ ops) zero op h k = ground (arith, is_nop-map_targets f op)
get_elem?-compact_ops f (o ∷ ops) (suc pc) op h k =
    ground (arith, is_nop-map_targets f o, get_elem?-compact_ops f ops pc op h k)

-- Past the end of the unit the place is forwarded past the end of the stripped one.
pub get_elem?-compact_ops_end :
    (f : ℕ → ℕ) (ops : List OpCode) (pc : ℕ)
    → get_elem? ops pc ≡ none
    → get_elem? (compact_ops (map (map_targets f) ops)) (kept_before ops pc) ≡ none
unfolding compact_ops kept_before
get_elem?-compact_ops_end f [] zero h = refl
get_elem?-compact_ops_end f [] (suc pc) h = refl
get_elem?-compact_ops_end f (o ∷ ops) zero h = cc
get_elem?-compact_ops_end f (o ∷ ops) (suc pc) h =
    ground (arith, is_nop-map_targets f o, get_elem?-compact_ops_end f ops pc h)

-- A removed instruction's place and the next one are forwarded to the same place.
pub kept_before-nop :
    (ops : List OpCode) (pc : ℕ) (op : OpCode)
    → get_elem? ops pc ≡ some op
    → is_nop op ≡ true
    → kept_before ops (suc pc) ≡ kept_before ops pc
unfolding kept_before
kept_before-nop [] pc op h k = cc
kept_before-nop (o ∷ ops) zero op h k = ground arith
kept_before-nop (o ∷ ops) (suc pc) op h k = ground (arith, kept_before-nop ops pc op h k)
