-- ===== src/Expr/Stack.antt =====
-- crates/rtcl-vm/src/interp/vm_exec.rs, `exec_op`: the instructions that push a constant and the
-- binary operators. Another instruction is `none` here.
use rtcl.Prelude.{true, false, List, [], ◌∷◌, Option, none, some, codes}
use rtcl.Ir.OpCode.{
  OpCode, push_int, push_true, push_false, pop, nop, add, sub, mul, div, mod_op, pow, eq, ne, lt,
  gt, le, ge, bit_and, bit_or, bit_xor, shl, shr,
}
use rtcl.Expr.Numbers.{BigInt, Floats}
use rtcl.Expr.Value.{Value, bool, text, Result, ok, err, panicked, then_do, from_int}
use rtcl.Expr.Arith.{Outcome, numeric_binop, int_mod, int_bitop}
use rtcl.Expr.Power.{int_shift, op_pow}
use rtcl.Expr.Compare.{op_eq, op_ne, op_rel}

module _ {B F : Type 0} (bigs : BigInt B) (floats : Floats F) where
  -- The top of the stack comes first.
  abbrev pub Stack : Type 0
  Stack = List (Value F)

  abbrev pub Binary : Type 0
  Binary = Value F → Value F → Outcome bigs floats

  unfoldable pub binary : OpCode → Option Binary
  unfolding numeric_binop int_mod op_pow op_eq op_ne op_rel int_bitop int_shift
  binary add = some (numeric_binop bigs floats b'+')
  binary sub = some (numeric_binop bigs floats b'-')
  binary mul = some (numeric_binop bigs floats b'*')
  binary div = some (numeric_binop bigs floats b'/')
  binary mod_op = some (int_mod bigs floats)
  binary pow = some (op_pow bigs floats)
  binary eq = some (op_eq bigs floats)
  binary ne = some (op_ne bigs floats)
  binary lt = some (λ a b. op_rel bigs floats a b (codes "<"))
  binary gt = some (λ a b. op_rel bigs floats a b (codes ">"))
  binary le = some (λ a b. op_rel bigs floats a b (codes "<="))
  binary ge = some (λ a b. op_rel bigs floats a b (codes ">="))
  binary bit_and = some (int_bitop bigs floats b'&')
  binary bit_or = some (int_bitop bigs floats b'|')
  binary bit_xor = some (int_bitop bigs floats b'^')
  binary shl = some (int_shift bigs floats true)
  binary shr = some (int_shift bigs floats false)
  binary op = none

  -- An empty stack pops the empty value.
  abbrev pub pop_val : Stack → Value F × Stack
  pop_val [] = (text [], [])
  pop_val (v ∷ st) = (v, st)

  abbrev pub push_onto : Stack → Outcome bigs floats → Result Stack
  push_onto st r = then_do r (λ v. ok (v ∷ st))

  -- `pop_pair`, then the operator.
  abbrev pub on_pair : Option Binary → Stack → Option (Result Stack)
  on_pair none st = none
  on_pair (some f) st =
      let (b, st') = pop_val st in let (a, rest) = pop_val st' in some (push_onto rest (f a b))

  unfoldable pub exec_op : OpCode → Stack → Option (Result Stack)
  unfolding binary from_int
  exec_op (push_int n) st = some (ok (from_int bigs floats n ∷ st))
  exec_op push_true st = some (ok (bool true ∷ st))
  exec_op push_false st = some (ok (bool false ∷ st))
  exec_op pop st = some (ok (pop_val st).1)
  exec_op nop st = some (ok st)
  exec_op op st = on_pair (binary op) st

  abbrev pub go_on : (Stack → Option (Result Stack)) → Option (Result Stack) → Option (Result Stack)
  go_on f none = none
  go_on f (some (ok st)) = f st
  go_on f (some (err e)) = some (err e)
  go_on f (some panicked) = some panicked

  -- Instructions without a jump, one after the other.
  unfoldable pub exec_ops : List OpCode → Stack → Option (Result Stack)
  unfolding exec_op
  exec_ops [] st = some (ok st)
  exec_ops (op ∷ ops) st = go_on (exec_ops ops) (exec_op op st)
