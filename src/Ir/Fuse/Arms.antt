-- ===== src/Ir/Fuse/Arms.antt =====
-- The arms of `fuse_pairs`, one head instruction after the other.
use rtcl.Prelude.{ℕ, ◌≡◌, refl, inl, inr, Bool, true, List, [], ◌∷◌, arith, Option, none, some}
use rtcl.Prelude.Int.{ℤ}
use rtcl.Ir.OpCode.{
  OpCode, push_const, push_int, load_var, store_var_pop, load_local, store_local_pop, incr_var_pop,
  incr_local_pop, return, add, lappend_local, lappend_var, add_slot_slot, add_var_var, add_var_imm,
  cmp_var_var, cmp_var_imm, call, dyn_call, begin_cmd, begin_cmd_sub_mark, sub_end_store_local_pop,
  sub_end_store_var_pop, sub_mark, sub_end,
}
use rtcl.Ir.Unfuse.{cmp_cc_of, expansion, expand_ops}
use rtcl.Ir.Fuse.Window.{
  cmp_cc_mirror, compare_with, fuse_load_var, fuse_push_int, fuse_load_local, fuse_push_const,
  fuse_begin_cmd, fuse_sub_end, set_add,
}
use rtcl.Ir.Fuse.Sound.{
  mirrored, Sound, Sound-pair, Sound-dead, Sound-third, Sound-add_or_compare, Sound-before_pop,
  Sound-before_sub,
}

module _ (free free3 free4 : Bool) (i : ℕ) (all : List OpCode) where
  pub Sound-load_var :
      (a : ℕ) (op : OpCode) (ops : List OpCode)
      → Sound free free3 free4 i all (load_var a ∷ op ∷ ops) (fuse_load_var free3 a op ops)
  unfolding fuse_load_var expand_ops expansion
  Sound-load_var a (push_int k) ops =
      Sound-third free free3 free4 i all _ (load_var a) (push_int k) ops (λ op rest e.
        Sound-add_or_compare free free3 free4 i all (add_var_imm a k) (cmp_var_imm a k) (load_var a)
          (push_int k) op rest e refl (λ cc o h x. rw (x, h) refl))
  Sound-load_var a (load_var b) ops =
      Sound-third free free3 free4 i all _ (load_var a) (load_var b) ops (λ op rest e.
        Sound-add_or_compare free free3 free4 i all (add_var_var a b) (cmp_var_var a b) (load_var a)
          (load_var b) op rest e refl (λ cc o h x. rw (x, h) refl))
  Sound-load_var a (lappend_var d) ops =
      Sound-third free free3 free4 i all _ (load_var a) (lappend_var d) ops (λ op rest e.
        Sound-before_pop free free3 free4 i all _ (load_var a) (lappend_var d) op rest e refl)
  Sound-load_var a op ops = tt

  pub Sound-load_local :
      (a : ℕ) (op : OpCode) (ops : List OpCode)
      → Sound free free3 free4 i all (load_local a ∷ op ∷ ops) (fuse_load_local free3 a op ops)
  unfolding fuse_load_local expand_ops expansion
  Sound-load_local a (lappend_local d) ops =
      Sound-third free free3 free4 i all _ (load_local a) (lappend_local d) ops (λ op rest e.
        Sound-before_pop free free3 free4 i all _ (load_local a) (lappend_local d) op rest e refl)
  Sound-load_local a (push_int k) ops =
      Sound-third free free3 free4 i all _ (load_local a) (push_int k) ops (λ op rest e.
        Sound-before_sub free free3 free4 i all _ (load_local a) (push_int k) op rest e refl)
  Sound-load_local a (load_local b) ops =
      Sound-third free free3 free4 i all _ (load_local a) (load_local b) ops (λ op rest e.
        Sound-before_sub free free3 free4 i all _ (load_local a) (load_local b) op rest e refl)
  Sound-load_local a op ops = tt

  Sound-mirrored :
      (k : ℤ) (b : ℕ) (op : OpCode) (rest : List OpCode) (o : Option ℕ)
      → cmp_cc_of op ≡ o
      → free3 ≡ true
      → Sound free free3 free4 i all
          (push_int k ∷ load_var b ∷ op ∷ rest)
          (compare_with (λ cc. cmp_var_imm b k (cmp_cc_mirror cc)) o)
  Sound-mirrored k b op rest none h e = tt
  Sound-mirrored k b op rest (some cc) h e = record {
    same = inr (mirrored h);
    tail = inr (refl, inr (inl (refl, e)));
  }

  pub Sound-push_int :
      (k : ℤ) (op : OpCode) (ops : List OpCode)
      → Sound free free3 free4 i all (push_int k ∷ op ∷ ops) (fuse_push_int free free3 k op ops)
  unfolding fuse_push_int
  Sound-push_int k (load_var b) ops =
      Sound-third free free3 free4 i all _ (push_int k) (load_var b) ops
        (λ op rest e. Sound-mirrored k b op rest (cmp_cc_of op) refl e)
  Sound-push_int k op ops = Sound-dead free free3 free4 i all (push_int k) op ops tt

  pub Sound-push_const :
      (idx : ℕ) (op : OpCode) (ops : List OpCode)
      → Sound free free3 free4 i all (push_const idx ∷ op ∷ ops) (fuse_push_const free idx op)
  unfolding fuse_push_const expand_ops expansion
  Sound-push_const idx sub_mark ops =
      Sound-pair free free3 free4 i all _ (push_const idx) sub_mark ops refl
  Sound-push_const idx op ops = Sound-dead free free3 free4 i all (push_const idx) op ops tt

  pub Sound-begin_cmd :
      (site : ℕ) (op : OpCode) (ops : List OpCode)
      → Sound free free3 free4 i all (begin_cmd site ∷ op ∷ ops) (fuse_begin_cmd free site op)
  unfolding fuse_begin_cmd expand_ops expansion
  Sound-begin_cmd site sub_mark ops =
      Sound-pair free free3 free4 i all _ (begin_cmd site) sub_mark ops refl
  Sound-begin_cmd site (push_const idx) ops =
      Sound-pair free free3 free4 i all _ (begin_cmd site) (push_const idx) ops refl
  Sound-begin_cmd site (incr_local_pop x k) ops =
      Sound-pair free free3 free4 i all _ (begin_cmd site) (incr_local_pop x k) ops refl
  Sound-begin_cmd site (incr_var_pop x k) ops =
      Sound-pair free free3 free4 i all _ (begin_cmd site) (incr_var_pop x k) ops refl
  Sound-begin_cmd site op ops = tt

  pub Sound-sub_end :
      (op : OpCode) (ops : List OpCode)
      → Sound free free3 free4 i all (sub_end ∷ op ∷ ops) (fuse_sub_end free op)
  unfolding fuse_sub_end expand_ops expansion
  Sound-sub_end (store_local_pop slot) ops =
      Sound-pair free free3 free4 i all _ sub_end (store_local_pop slot) ops refl
  Sound-sub_end (store_var_pop idx) ops =
      Sound-pair free free3 free4 i all _ sub_end (store_var_pop idx) ops refl
  Sound-sub_end return ops = Sound-pair free free3 free4 i all _ sub_end return ops refl
  Sound-sub_end (dyn_call argc) ops =
      Sound-pair free free3 free4 i all _ sub_end (dyn_call argc) ops refl
  Sound-sub_end (call cmd_id argc) ops =
      Sound-pair free free3 free4 i all _ sub_end (call cmd_id argc) ops refl
  Sound-sub_end add ops = Sound-pair free free3 free4 i all _ sub_end add ops refl
  Sound-sub_end op ops = tt

  pub Sound-set_add :
      (s1 s2 : ℕ) (ops : List OpCode)
      → free4 ≡ true
      → Sound free free3 free4 i all
          (begin_cmd_sub_mark s1 ∷ begin_cmd s2 ∷ ops)
          (set_add s1 s2 ops)
  unfolding set_add expand_ops expansion
  Sound-set_add s1 s2 [] e = inr (e, omega arith)
  Sound-set_add s1 s2 (op ∷ []) e = inr (e, omega arith)
  Sound-set_add s1 s2 (add_slot_slot a b ∷ sub_end_store_local_pop d ∷ ops) e = record {
    same = inl refl;
    tail = inr (refl, inr (inr (refl, e)));
  }
  Sound-set_add s1 s2 (add_var_var a b ∷ sub_end_store_var_pop d ∷ ops) e = record {
    same = inl refl;
    tail = inr (refl, inr (inr (refl, e)));
  }
  Sound-set_add s1 s2 ops e = tt
