-- ===== src/Ir/OpCode.antt =====
-- crates/rtcl-ir/src/opcode.rs: the instruction set.
-- A u16, u32 or u8 operand is a native number, an i64 or i32 one an integer, and an f64 its bits.
use rtcl.Prelude.{ℕ}
use rtcl.Prelude.Int.{ℤ}

pub data OpCode : Type 0 where
  push_const : ℕ → OpCode
  push_const_wide : ℕ → OpCode
  push_empty : OpCode
  push_int : ℤ → OpCode
  push_float : ℕ → OpCode
  push_true : OpCode
  push_false : OpCode
  pop : OpCode
  dup : OpCode
  load_var : ℕ → OpCode
  store_var : ℕ → OpCode
  store_var_pop : ℕ → OpCode
  load_local : ℕ → OpCode
  store_local : ℕ → OpCode
  store_local_pop : ℕ → OpCode
  load_array_elem : ℕ → OpCode
  store_array_elem : ℕ → OpCode
  incr_var : ℕ → ℤ → OpCode
  incr_var_pop : ℕ → ℤ → OpCode
  incr_local : ℕ → ℤ → OpCode
  incr_local_pop : ℕ → ℤ → OpCode
  append_var : ℕ → OpCode
  unset_var : ℕ → OpCode
  var_exists : ℕ → OpCode
  push_frame : ℕ → OpCode
  pop_frame : OpCode
  up_var : ℕ → ℕ → ℕ → OpCode
  global : ℕ → OpCode
  jump : ℕ → OpCode
  jump_true : ℕ → OpCode
  jump_false : ℕ → OpCode
  loop_enter : ℕ → ℕ → OpCode
  loop_exit : OpCode
  foreach_start : ℕ → ℕ → ℕ → OpCode
  foreach_next : ℕ → ℕ → OpCode
  foreach_collect : OpCode
  foreach_end : OpCode
  break : OpCode
  continue : OpCode
  return : OpCode
  return_code : ℤ → OpCode
  exit : ℤ → OpCode
  add : OpCode
  sub : OpCode
  lappend_local : ℕ → OpCode
  lappend_var : ℕ → OpCode
  lappend_var_var : ℕ → ℕ → OpCode
  lappend_slot_slot : ℕ → ℕ → OpCode
  body_mark_framed : OpCode
  add_slot_slot : ℕ → ℕ → OpCode
  add_slot_imm : ℕ → ℤ → OpCode
  cmp_slot_slot : ℕ → ℕ → ℕ → OpCode
  cmp_slot_imm : ℕ → ℤ → ℕ → OpCode
  add_var_var : ℕ → ℕ → OpCode
  add_var_imm : ℕ → ℤ → OpCode
  cmp_var_var : ℕ → ℕ → ℕ → OpCode
  cmp_var_imm : ℕ → ℤ → ℕ → OpCode
  cmp_slot_slot_jump_true : ℕ → ℕ → ℕ → ℕ → OpCode
  cmp_slot_slot_jump_false : ℕ → ℕ → ℕ → ℕ → OpCode
  cmp_slot_imm_jump_true : ℕ → ℤ → ℕ → ℕ → OpCode
  cmp_slot_imm_jump_false : ℕ → ℤ → ℕ → ℕ → OpCode
  cmp_var_var_jump_true : ℕ → ℕ → ℕ → ℕ → OpCode
  cmp_var_var_jump_false : ℕ → ℕ → ℕ → ℕ → OpCode
  cmp_var_imm_jump_true : ℕ → ℤ → ℕ → ℕ → OpCode
  cmp_var_imm_jump_false : ℕ → ℤ → ℕ → ℕ → OpCode
  mul : OpCode
  div : OpCode
  mod_op : OpCode
  pow : OpCode
  neg : OpCode
  eq : OpCode
  ne : OpCode
  lt : OpCode
  gt : OpCode
  le : OpCode
  ge : OpCode
  str_eq : OpCode
  str_ne : OpCode
  and : OpCode
  or : OpCode
  not_op : OpCode
  bit_and : OpCode
  bit_or : OpCode
  bit_xor : OpCode
  bit_not : OpCode
  shl : OpCode
  shr : OpCode
  concat : ℕ → OpCode
  make_list : ℕ → OpCode
  list_append : OpCode
  list_index : OpCode
  list_length : OpCode
  str_len : OpCode
  str_index : OpCode
  expand_list : OpCode
  expand_mark : OpCode
  call : ℕ → ℕ → OpCode
  call_expand : ℕ → ℕ → OpCode
  dyn_call : ℕ → OpCode
  dyn_call_expand : ℕ → OpCode
  call_proc : ℕ → ℕ → OpCode
  tail_call_proc : ℕ → ℕ → OpCode
  eval_script : OpCode
  eval_expr : OpCode
  catch_start : ℕ → OpCode
  catch_end : OpCode
  line : ℕ → OpCode
  begin_cmd : ℕ → OpCode
  begin_cmd_sub_mark : ℕ → OpCode
  expr_mark_begin_cmd : ℕ → OpCode
  begin_cmd_push_const : ℕ → ℕ → OpCode
  sub_end_store_local_pop : ℕ → OpCode
  sub_end_store_var_pop : ℕ → OpCode
  sub_end_return : OpCode
  swap_to_next_mark : OpCode
  next_mark_begin_cmd : ℕ → OpCode
  begin_cmd_incr_local_pop : ℕ → ℕ → ℤ → OpCode
  begin_cmd_incr_var_pop : ℕ → ℕ → ℤ → OpCode
  for_next_incr_local : ℕ → ℕ → ℤ → ℕ → OpCode
  for_next_incr_var : ℕ → ℕ → ℤ → ℕ → OpCode
  foreach_next_close : ℕ → ℕ → OpCode
  slot_set_add_ss : ℕ → ℕ → ℕ → ℕ → ℕ → OpCode
  var_set_add_vv : ℕ → ℕ → ℕ → ℕ → ℕ → OpCode
  push_const_sub_mark : ℕ → OpCode
  sub_mark_begin_cmd : ℕ → OpCode
  expr_mark_begin_push_const : ℕ → ℕ → OpCode
  sub_slot_imm : ℕ → ℤ → OpCode
  sub_slot_slot : ℕ → ℕ → OpCode
  sub_end_dyn_call : ℕ → OpCode
  sub_end_call : ℕ → ℕ → OpCode
  sub_end_add : OpCode
  body_mark : OpCode
  next_mark : OpCode
  sub_mark : OpCode
  sub_end : OpCode
  expr_mark : OpCode
  nop : OpCode
