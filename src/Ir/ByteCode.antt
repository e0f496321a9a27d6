-- ===== src/Ir/ByteCode.antt =====
-- crates/rtcl-ir/src/bytecode.rs: the compiled unit, its constant pool, instruction list and locals.
-- `Rc` sharing of immutable data is dropped. A panic is `none`.
pub mod Pool
use Prim.Native.String.{String}
use text.Mathlib.Text.{◌==◌ as str_eq}
use rtcl.Prelude.{
  ℕ, zero, suc, ◌+◌, ◌%◌, ◌^◌, ◌<◌, Bool, true, false, List, [], ◌∷◌, ◌++◌, Option, none, some, ◌≡◌,
  refl, length, get_elem?, take, leb, if◌then◌else◌,
}
use rtcl.Ir.OpCode.{
  OpCode, push_const, push_const_wide, jump, jump_true, jump_false, catch_start, loop_enter,
  foreach_start,
}

pub record SrcSpan : Type 0 where
  pub start : ℕ
  pub end : ℕ

pub record CmdSite : Type 0 where
  pub text : SrcSpan
  pub line : ℕ
  pub line_rel : ℕ
  pub line_delta : ℕ
  pub word_srcs : List SrcSpan

pub record VarTarget : Type 0 where
  pub slot : Option ℕ
  pub name_idx : ℕ

pub record ForeachInfo : Type 0 where
  pub groups : List (List VarTarget)
  pub lmap : Bool
  pub framed : Bool

pub record ByteCode : Type 0 where
  pub constants : List String
  pub ops : List OpCode
  pub locals : List String
  pub line_map : List ℕ
  pub foreach_infos : List ForeachInfo
  pub sites : List CmdSite
  pub source : String
  pub fallback : Bool
  pub params_aligned : Option ℕ
  pub locals_mode : Bool
  pub epoch : ℕ

-- `ByteCode::default`, which `new` returns.
abbrev pub empty_unit : ByteCode
empty_unit = record {
  constants = [];
  ops = [];
  locals = [];
  line_map = [];
  foreach_infos = [];
  sites = [];
  source = "";
  fallback = false;
  params_aligned = none;
  locals_mode = false;
  epoch = 0;
}

-- `iter().position(|c| c == s)`
unfoldable pub position : String → List String → Option ℕ
position s [] = none
position s (c ∷ cs) =
    if str_eq c s then some 0 else elim (position s cs) [ none ↦ none | some i ↦ some (suc i) ]

-- `as u32` and `as u16` wrap.
abbrev pub as_u32 : ℕ → ℕ
as_u32 n = n % 2 ^ 32

abbrev pub as_u16 : ℕ → ℕ
as_u16 n = n % 2 ^ 16

-- The lookup that `add_const_wide` and `add_local` share: the index, and the table with the text in it.
unfoldable pub intern : String → List String → ℕ × List String
unfolding position
intern s table = elim (position s table) [
  | some i ↦ (i, table)
  | none ↦ (length table, table ++ s ∷ [])
]

unfoldable pub add_const_wide : String → ByteCode → ℕ × ByteCode
unfolding intern
add_const_wide s code =
    let (i, table) = intern s code.constants in (as_u32 i, record code { constants = table })

unfoldable pub add_const : String → ByteCode → ℕ × ByteCode
unfolding add_const_wide
add_const s code = let (i, code') = add_const_wide s code in (as_u16 i, code')

unfoldable pub get_const : ℕ → ByteCode → Option String
get_const i code = get_elem? code.constants i

unfoldable pub get_const_wide : ℕ → ByteCode → Option String
get_const_wide i code = get_elem? code.constants i

unfoldable pub emit : OpCode → ℕ → ByteCode → ℕ × ByteCode
emit op line code = (
  length code.ops,
  record code { ops = code.ops ++ op ∷ []; line_map = code.line_map ++ line ∷ [] },
)

unfoldable pub emit_push_const : String → ℕ → ByteCode → ℕ × ByteCode
unfolding add_const_wide emit
emit_push_const s line code =
    let (i, code') = add_const_wide s code in
    if leb i 0xffff
    then emit (push_const (as_u16 i)) line code'
    else emit (push_const_wide i) line code'

unfoldable pub truncate_ops : ℕ → ByteCode → ByteCode
truncate_ops n code = record code { ops = take n code.ops; line_map = take n code.line_map }

unfoldable pub line_at : ℕ → ByteCode → ℕ
line_at i code = elim (get_elem? code.line_map i) [ none ↦ 0 | some line ↦ line ]

-- `match &mut self.ops[idx]`: the instruction at `i` is replaced, or the call panics.
unfoldable pub patch_at : ℕ → (OpCode → Option OpCode) → List OpCode → Option (List OpCode)
patch_at i patch [] = none
patch_at zero patch (op ∷ ops) = elim (patch op) [ none ↦ none | some op' ↦ some (op' ∷ ops) ]
patch_at (suc i) patch (op ∷ ops) = elim (patch_at i patch ops) [
  | none ↦ none
  | some ops' ↦ some (op ∷ ops')
]

abbrev pub with_ops : ByteCode → Option (List OpCode) → Option ByteCode
with_ops code none = none
with_ops code (some ops) = some (record code { ops = ops })

unfoldable pub retarget_jump : ℕ → OpCode → Option OpCode
retarget_jump t (jump _) = some (jump t)
retarget_jump t (jump_true _) = some (jump_true t)
retarget_jump t (jump_false _) = some (jump_false t)
retarget_jump t (catch_start _) = some (catch_start t)
retarget_jump t op = none

unfoldable pub patch_jump : ℕ → ℕ → ByteCode → Option ByteCode
unfolding patch_at retarget_jump
patch_jump i target code = with_ops code (patch_at i (retarget_jump target) code.ops)

unfoldable pub retarget_loop : ℕ → ℕ → OpCode → Option OpCode
retarget_loop cont brk (loop_enter _ _) = some (loop_enter cont brk)
retarget_loop cont brk op = none

unfoldable pub patch_loop : ℕ → ℕ → ℕ → ByteCode → Option ByteCode
unfolding patch_at retarget_loop
patch_loop i cont brk code = with_ops code (patch_at i (retarget_loop cont brk) code.ops)

unfoldable pub retarget_foreach : ℕ → ℕ → OpCode → Option OpCode
retarget_foreach next end (foreach_start info _ _) = some (foreach_start info next end)
retarget_foreach next end op = none

unfoldable pub patch_foreach_start : ℕ → ℕ → ℕ → ByteCode → Option ByteCode
unfolding patch_at retarget_foreach
patch_foreach_start i next end code =
    with_ops code (patch_at i (retarget_foreach next end) code.ops)

unfoldable pub add_local : String → ByteCode → ℕ × ByteCode
unfolding intern
add_local s code =
    let (i, table) = intern s code.locals in (as_u16 i, record code { locals = table })

unfoldable pub find_local : String → ByteCode → Option ℕ
unfolding position
find_local s code = elim (position s code.locals) [ none ↦ none | some i ↦ some (as_u16 i) ]

unfoldable pub add_foreach_info : ForeachInfo → ByteCode → ℕ × ByteCode
add_foreach_info info code = (
  as_u32 (length code.foreach_infos),
  record code { foreach_infos = code.foreach_infos ++ info ∷ [] },
)

unfoldable pub foreach_info : ℕ → ByteCode → Option ForeachInfo
foreach_info i code = get_elem? code.foreach_infos i
