-- ===== src/Ir/Fuse/Whole.antt =====
-- The windows of `fuse_pairs` all together: the arms for statements and loops, and the whole match.
use rtcl.Prelude.{
  ℕ, ◌+◌, ◌≡◌, refl, sym, subst, inl, inr, Bool, true, List, [], ◌∷◌, Option, some, ◌==◌, if_intro,
  get_elem?, ◌&&◌, arith,
}
use rtcl.Prelude.Int.{ℤ}
use rtcl.Ir.OpCode.{
  OpCode, body_mark, body_mark_framed, push_const, push_const_wide, push_empty, push_int,
  push_float, push_true, push_false, pop, load_var, load_local, store_local, incr_var, incr_local,
  jump, foreach_next, cmp_slot_slot, cmp_slot_imm, cmp_var_var, cmp_var_imm, begin_cmd,
  begin_cmd_sub_mark, expr_mark_begin_cmd, swap_to_next_mark, begin_cmd_incr_local_pop,
  begin_cmd_incr_var_pop, next_mark, sub_mark, sub_end, expr_mark,
}
use rtcl.Ir.Unfuse.{expansion, expand_ops}
use rtcl.Ir.Fuse.Window.{
  Fusion, Found, no_window, out_of_range, found, fits_i32, fuse_statement, jump_back, fuse_swap,
  is_body_mark, fuse_trampoline, fuse_sub_mark, fuse_expr_mark, fuse_expr_cmd, fuse_next_mark,
  discard, fuse_window,
}
use rtcl.Ir.Fuse.Sound.{
  IsBodyMark, ToNext, to_mark, to_foreach, to_next, Stands, Sound, Sound-pair, Sound-dead,
  Sound-branch_if, Sound-third,
}
use rtcl.Ir.Fuse.Arms.{
  Sound-load_var, Sound-push_int, Sound-load_local, Sound-push_const, Sound-begin_cmd,
  Sound-sub_end, Sound-set_add,
}

jump_here : (i t : ℕ) → (t == i + 1) ≡ true → t ≡ i + 1
jump_here i t h = ground arith

IsBodyMark-of : (o : Option OpCode) → is_body_mark o ≡ true → IsBodyMark o
IsBodyMark-of (some body_mark) h = inl refl
IsBodyMark-of (some body_mark_framed) h = inr refl
IsBodyMark-of o h = cc

and_left : (a b : Bool) → (a && b) ≡ true → a ≡ true
and_left a b h = ground arith

and_right : (a b : Bool) → (a && b) ≡ true → b ≡ true
and_right a b h = ground arith

module _ (free free3 free4 : Bool) (i : ℕ) (all : List OpCode) where
  Sound-statement :
      (s1 : ℕ) (op : OpCode) (ops : List OpCode)
      → Sound free free3 free4 i all
          (begin_cmd_sub_mark s1 ∷ op ∷ ops)
          (fuse_statement free4 s1 op ops)
  unfolding fuse_statement
  Sound-statement s1 (begin_cmd s2) ops =
      if_intro (Sound free free3 free4 i all (begin_cmd_sub_mark s1 ∷ begin_cmd s2 ∷ ops)) free4
        (Sound-set_add free free3 free4 i all s1 s2 ops) (λ _. tt)
  Sound-statement s1 op ops = tt

  Sound-jump_back :
      (k : ℤ) (f : ℕ → OpCode) (first second op : OpCode) (rest : List OpCode)
      → free3 ≡ true
      → ((t : ℕ) → expand_ops (first ∷ second ∷ jump t ∷ []) ≡ expansion (f t))
      → Sound free free3 free4 i all (first ∷ second ∷ op ∷ rest) (jump_back k f op)
  unfolding jump_back
  Sound-jump_back k f first second (jump t) rest e h =
      if_intro (Sound free free3 free4 i all (first ∷ second ∷ jump t ∷ rest)) (fits_i32 k)
        (λ _. record { same = inl (h t); tail = inr (refl, inr (inl (refl, e))) }) (λ _. tt)
  Sound-jump_back k f first second op rest e h = tt

  Sound-swap :
      (op : OpCode) (ops : List OpCode)
      → Sound free free3 free4 i all (swap_to_next_mark ∷ op ∷ ops) (fuse_swap free3 op ops)
  unfolding fuse_swap expand_ops expansion
  Sound-swap (begin_cmd_incr_local_pop site x k) ops =
      let second = begin_cmd_incr_local_pop site x k in
      Sound-third free free3 free4 i all _ swap_to_next_mark second ops
        (λ op rest e. Sound-jump_back k _ swap_to_next_mark second op rest e (λ t. refl))
  Sound-swap (begin_cmd_incr_var_pop site x k) ops =
      let second = begin_cmd_incr_var_pop site x k in
      Sound-third free free3 free4 i all _ swap_to_next_mark second ops
        (λ op rest e. Sound-jump_back k _ swap_to_next_mark second op rest e (λ t. refl))
  Sound-swap op ops = tt

  Stands-ToNext :
      (t : ℕ) (op fused : OpCode) (ops : List OpCode)
      → t ≡ i + 1
      → ToNext i all (jump (i + 1) ∷ op ∷ []) fused
      → Stands free free3 free4 i all
          (jump t ∷ op ∷ ops)
          (record { op = fused; width = 2; trampoline = true })
  Stands-ToNext t op fused ops e n =
      let n' = subst (λ u. ToNext i all (jump u ∷ op ∷ []) fused) (sym e) n in
      record { same = inr (to_next n'); tail = inl (refl, refl, n') }

  Sound-trampoline :
      (t : ℕ) (op : OpCode) (ops : List OpCode)
      → Sound free free3 free4 i all (jump t ∷ op ∷ ops) (fuse_trampoline i all t op)
  unfolding fuse_trampoline
  Sound-trampoline t next_mark ops =
      if_intro (Sound free free3 free4 i all (jump t ∷ next_mark ∷ ops)) (t == i + 1)
        (λ h. Stands-ToNext t next_mark _ ops (jump_here i t h) to_mark) (λ _. tt)
  Sound-trampoline t (foreach_next info body) ops =
      if_intro (Sound free free3 free4 i all (jump t ∷ foreach_next info body ∷ ops))
        (t == i + 1 && is_body_mark (get_elem? all body))
        (λ h.
          Stands-ToNext t (foreach_next info body) _ ops (jump_here i t (and_left _ _ h))
            (to_foreach (IsBodyMark-of _ (and_right _ _ h))))
        (λ _. tt)
  Sound-trampoline t op ops = tt

  Sound-sub_mark :
      (op : OpCode) (ops : List OpCode)
      → Sound free free3 free4 i all (sub_mark ∷ op ∷ ops) (fuse_sub_mark free op)
  unfolding fuse_sub_mark expand_ops expansion
  Sound-sub_mark (begin_cmd site) ops =
      Sound-pair free free3 free4 i all _ sub_mark (begin_cmd site) ops refl
  Sound-sub_mark op ops = tt

  Sound-expr_mark :
      (op : OpCode) (ops : List OpCode)
      → Sound free free3 free4 i all (expr_mark ∷ op ∷ ops) (fuse_expr_mark free op)
  unfolding fuse_expr_mark expand_ops expansion
  Sound-expr_mark (begin_cmd site) ops =
      Sound-pair free free3 free4 i all _ expr_mark (begin_cmd site) ops refl
  Sound-expr_mark op ops = tt

  Sound-expr_cmd :
      (site : ℕ) (op : OpCode) (ops : List OpCode)
      → Sound free free3 free4 i all
          (expr_mark_begin_cmd site ∷ op ∷ ops)
          (fuse_expr_cmd free site op)
  unfolding fuse_expr_cmd expand_ops expansion
  Sound-expr_cmd site (push_const idx) ops =
      Sound-pair free free3 free4 i all _ (expr_mark_begin_cmd site) (push_const idx) ops refl
  Sound-expr_cmd site op ops = tt

  Sound-next_mark :
      (op : OpCode) (ops : List OpCode)
      → Sound free free3 free4 i all (next_mark ∷ op ∷ ops) (fuse_next_mark free op)
  unfolding fuse_next_mark expand_ops expansion
  Sound-next_mark (begin_cmd site) ops =
      Sound-pair free free3 free4 i all _ next_mark (begin_cmd site) ops refl
  Sound-next_mark op ops = tt

  Sound-discard :
      (fused first op : OpCode) (ops : List OpCode)
      → expand_ops (first ∷ pop ∷ []) ≡ expansion fused
      → Sound free free3 free4 i all (first ∷ op ∷ ops) (discard free fused op)
  unfolding discard
  Sound-discard fused first pop ops h = Sound-pair free free3 free4 i all fused first pop ops h
  Sound-discard fused first op ops h = tt

  pub Sound-fuse_window :
      (first op : OpCode) (ops : List OpCode)
      → Sound free free3 free4 i all
          (first ∷ op ∷ ops)
          (fuse_window free free3 free4 i all first op ops)
  unfolding fuse_window expand_ops expansion
  Sound-fuse_window (cmp_slot_slot a b cc) op ops =
      Sound-branch_if free free3 free4 i all _ _ (cmp_slot_slot a b cc) op ops (λ t. refl)
        (λ t. refl)
  Sound-fuse_window (cmp_slot_imm a k cc) op ops =
      Sound-branch_if free free3 free4 i all _ _ (cmp_slot_imm a k cc) op ops (λ t. refl)
        (λ t. refl)
  Sound-fuse_window (cmp_var_var a b cc) op ops =
      Sound-branch_if free free3 free4 i all _ _ (cmp_var_var a b cc) op ops (λ t. refl) (λ t. refl)
  Sound-fuse_window (cmp_var_imm a k cc) op ops =
      Sound-branch_if free free3 free4 i all _ _ (cmp_var_imm a k cc) op ops (λ t. refl) (λ t. refl)
  Sound-fuse_window (load_var a) op ops = Sound-load_var free free3 free4 i all a op ops
  Sound-fuse_window (push_int k) op ops = Sound-push_int free free3 free4 i all k op ops
  Sound-fuse_window (load_local a) op ops = Sound-load_local free free3 free4 i all a op ops
  Sound-fuse_window push_empty op ops = Sound-dead free free3 free4 i all push_empty op ops tt
  Sound-fuse_window push_true op ops = Sound-dead free free3 free4 i all push_true op ops tt
  Sound-fuse_window push_false op ops = Sound-dead free free3 free4 i all push_false op ops tt
  Sound-fuse_window (push_float x) op ops =
      Sound-dead free free3 free4 i all (push_float x) op ops tt
  Sound-fuse_window (push_const idx) op ops = Sound-push_const free free3 free4 i all idx op ops
  Sound-fuse_window (push_const_wide k) op ops =
      Sound-dead free free3 free4 i all (push_const_wide k) op ops tt
  Sound-fuse_window (begin_cmd site) op ops = Sound-begin_cmd free free3 free4 i all site op ops
  Sound-fuse_window expr_mark op ops = Sound-expr_mark op ops
  Sound-fuse_window sub_end op ops = Sound-sub_end free free3 free4 i all op ops
  Sound-fuse_window sub_mark op ops = Sound-sub_mark op ops
  Sound-fuse_window (expr_mark_begin_cmd site) op ops = Sound-expr_cmd site op ops
  Sound-fuse_window (begin_cmd_sub_mark s1) op ops = Sound-statement s1 op ops
  Sound-fuse_window swap_to_next_mark op ops = Sound-swap op ops
  Sound-fuse_window (jump t) op ops = Sound-trampoline t op ops
  Sound-fuse_window next_mark op ops = Sound-next_mark op ops
  Sound-fuse_window (incr_var x k) op ops = Sound-discard _ (incr_var x k) op ops refl
  Sound-fuse_window (incr_local x k) op ops = Sound-discard _ (incr_local x k) op ops refl
  Sound-fuse_window (store_local x) op ops = Sound-discard _ (store_local x) op ops refl
  Sound-fuse_window first op ops = tt

  Sound→Stands :
      (window : List OpCode) (o : Found) (f : Fusion)
      → o ≡ found f
      → Sound free free3 free4 i all window o
      → Stands free free3 free4 i all window f
  Sound→Stands window no_window f h s = cc
  Sound→Stands window out_of_range f h s = cc
  Sound→Stands window (found g) f h s =
      let e : g ≡ f = cc in subst (Stands free free3 free4 i all window) e s

-- Every window that `fuse_pairs` replaces expands to the same canonical instructions as its
-- superinstruction, unless it is a comparison of a literal with a variable (mirrored), a dropped
-- literal, or a jump to the next instruction, a mark of a step or a `foreach` step with a marked
-- body. Only such a jump takes the targets of its tail to itself; no other window has a jump target
-- in its tail.
pub Stands-fuse_window :
    (free free3 free4 : Bool) (i : ℕ) (all : List OpCode) (first op : OpCode) (ops : List OpCode)
    (f : Fusion)
    → fuse_window free free3 free4 i all first op ops ≡ found f
    → Stands free free3 free4 i all (first ∷ op ∷ ops) f
Stands-fuse_window free free3 free4 i all first op ops f h =
    Sound→Stands free free3 free4 i all (first ∷ op ∷ ops) _ f h
      (Sound-fuse_window free free3 free4 i all first op ops)
