-- ===== src/Jit/Emit/Grows/Instructions.antt =====
-- Every emitter of libs/ubpf/vm/ubpf_jit_x86_64.h for whole instructions keeps the buffer and the
-- tables sound.
use appclick_ubpf.Prelude.{ℕ, ◌≡◌, ap, ◌∙◌, ◌==◌, arith}
use appclick_ubpf.Prelude.{Bool-cases, inl, inr}
use appclick_ubpf.Vm.{max_insts}
use appclick_ubpf.Jit.State.{JitState, too_many_loads, too_many_leas, modify, gets, pure, ◌>>=◌}
use appclick_ubpf.Jit.State.Keeps.{Keeps}
use appclick_ubpf.Jit.Emit.{
  emit_bytes, le_bytes, emit1, emit_modrm, emit_modrm_reg2reg, emit_modrm_and_displacement,
  emit_rex, emit_basic_rex, set_jit_status,
}
use appclick_ubpf.Jit.Emit.Instructions.{
  OperandSize, emit_push, emit_pop, emit_alu32, emit_alu32_imm32, emit_alu32_imm8,
  emit_truncate_u32, emit_alu64, emit_alu64_imm32, emit_alu64_imm8, emit_mov, emit_cmp_imm32,
  emit_cmp32_imm32, emit_cmp, emit_cmp32, emit_jcc, emit_load_opcode, s8, s16, s32, s64, emit_load,
  emit_load_imm, emit_rip_relative_prefix, emit_rip_relative_load, emit_rip_relative_lea,
  emit_store, emit_sized, emit_store_imm32, emit_ret, emit_jmp, emit_near_jmp, emit_call,
  emit_pause, emit_default_dispatcher, emit_dispatched_external_helper_call,
}
use appclick_ubpf.Jit.Emit.Grows.{Grows, later, Grows-error}
use appclick_ubpf.Jit.Emit.Grows.Rules.{grows_rules, load_entry, lea_entry, emit1-Grows}

-- Bytes leave the counts of the loads and of the leas.
num_loads-emit1 : (x : ℕ) (s : JitState) → (emit1 x s).1.num_loads ≡ s.num_loads
unfolding emit1 emit_bytes le_bytes modify
num_loads-emit1 x s = ground arith

num_loads-prefix :
    (r op dst : ℕ) (s : JitState) → (emit_rip_relative_prefix r op dst s).1.num_loads ≡ s.num_loads
unfolding emit_rip_relative_prefix emit_rex emit_modrm ◌>>=◌
num_loads-prefix r op dst s = simp num_loads-emit1

num_leas-emit1 : (x : ℕ) (s : JitState) → (emit1 x s).1.num_leas ≡ s.num_leas
unfolding emit1 emit_bytes le_bytes modify
num_leas-emit1 x s = ground arith

num_leas-prefix :
    (r op dst : ℕ) (s : JitState) → (emit_rip_relative_prefix r op dst s).1.num_leas ≡ s.num_leas
unfolding emit_rip_relative_prefix emit_rex emit_modrm ◌>>=◌
num_leas-prefix r op dst s = simp num_leas-emit1

module _ {s₀ : JitState} where
  pub emit_modrm-Grows : (modifier r m : ℕ) → Keeps (Grows s₀) (emit_modrm modifier r m)
  unfolding emit_modrm
  emit_modrm-Grows modifier r m = search grows_rules

  pub emit_modrm_reg2reg-Grows : (r m : ℕ) → Keeps (Grows s₀) (emit_modrm_reg2reg r m)
  unfolding emit_modrm_reg2reg
  emit_modrm_reg2reg-Grows r m = search (grows_rules, emit_modrm-Grows)

  pub emit_modrm_and_displacement-Grows :
      (r m d : ℕ) → Keeps (Grows s₀) (emit_modrm_and_displacement r m d)
  unfolding emit_modrm_and_displacement
  emit_modrm_and_displacement-Grows r m d = search (grows_rules, emit_modrm-Grows)

  pub emit_rex-Grows : (w r x b : ℕ) → Keeps (Grows s₀) (emit_rex w r x b)
  unfolding emit_rex
  emit_rex-Grows w r x b = search grows_rules

  pub emit_basic_rex-Grows : (w src dst : ℕ) → Keeps (Grows s₀) (emit_basic_rex w src dst)
  unfolding emit_basic_rex
  emit_basic_rex-Grows w src dst = search (grows_rules, emit_rex-Grows)

  pub emit_push-Grows : (r : ℕ) → Keeps (Grows s₀) (emit_push r)
  unfolding emit_push
  emit_push-Grows r = search (grows_rules, emit_basic_rex-Grows)

  pub emit_pop-Grows : (r : ℕ) → Keeps (Grows s₀) (emit_pop r)
  unfolding emit_pop
  emit_pop-Grows r = search (grows_rules, emit_basic_rex-Grows)

  pub emit_alu32-Grows : (op src dst : ℕ) → Keeps (Grows s₀) (emit_alu32 op src dst)
  unfolding emit_alu32
  emit_alu32-Grows op src dst = search (grows_rules, emit_basic_rex-Grows, emit_modrm_reg2reg-Grows)

  pub emit_alu32_imm32-Grows : (op src dst i : ℕ) → Keeps (Grows s₀) (emit_alu32_imm32 op src dst i)
  unfolding emit_alu32_imm32
  emit_alu32_imm32-Grows op src dst i = search (grows_rules, emit_alu32-Grows)

  pub emit_alu32_imm8-Grows : (op src dst i : ℕ) → Keeps (Grows s₀) (emit_alu32_imm8 op src dst i)
  unfolding emit_alu32_imm8
  emit_alu32_imm8-Grows op src dst i = search (grows_rules, emit_alu32-Grows)

  pub emit_truncate_u32-Grows : (destination : ℕ) → Keeps (Grows s₀) (emit_truncate_u32 destination)
  unfolding emit_truncate_u32
  emit_truncate_u32-Grows destination = search (grows_rules, emit_alu32_imm32-Grows)

  pub emit_alu64-Grows : (op src dst : ℕ) → Keeps (Grows s₀) (emit_alu64 op src dst)
  unfolding emit_alu64
  emit_alu64-Grows op src dst = search (grows_rules, emit_basic_rex-Grows, emit_modrm_reg2reg-Grows)

  pub emit_alu64_imm32-Grows : (op src dst i : ℕ) → Keeps (Grows s₀) (emit_alu64_imm32 op src dst i)
  unfolding emit_alu64_imm32
  emit_alu64_imm32-Grows op src dst i = search (grows_rules, emit_alu64-Grows)

  pub emit_alu64_imm8-Grows : (op src dst i : ℕ) → Keeps (Grows s₀) (emit_alu64_imm8 op src dst i)
  unfolding emit_alu64_imm8
  emit_alu64_imm8-Grows op src dst i = search (grows_rules, emit_alu64-Grows)

  pub emit_mov-Grows : (src dst : ℕ) → Keeps (Grows s₀) (emit_mov src dst)
  unfolding emit_mov
  emit_mov-Grows src dst = search (grows_rules, emit_alu64-Grows)

  pub emit_cmp_imm32-Grows : (dst i : ℕ) → Keeps (Grows s₀) (emit_cmp_imm32 dst i)
  unfolding emit_cmp_imm32
  emit_cmp_imm32-Grows dst i = search (grows_rules, emit_alu64_imm32-Grows)

  pub emit_cmp32_imm32-Grows : (dst i : ℕ) → Keeps (Grows s₀) (emit_cmp32_imm32 dst i)
  unfolding emit_cmp32_imm32
  emit_cmp32_imm32-Grows dst i = search (grows_rules, emit_alu32_imm32-Grows)

  pub emit_cmp-Grows : (src dst : ℕ) → Keeps (Grows s₀) (emit_cmp src dst)
  unfolding emit_cmp
  emit_cmp-Grows src dst = search (grows_rules, emit_alu64-Grows)

  pub emit_cmp32-Grows : (src dst : ℕ) → Keeps (Grows s₀) (emit_cmp32 src dst)
  unfolding emit_cmp32
  emit_cmp32-Grows src dst = search (grows_rules, emit_alu32-Grows)

  pub emit_jcc-Grows : (code target_pc : ℕ) → Keeps (Grows s₀) (emit_jcc code target_pc)
  unfolding emit_jcc
  emit_jcc-Grows code target_pc = search grows_rules

  pub emit_load_opcode-Grows : (size : OperandSize) → Keeps (Grows s₀) (emit_load_opcode size)
  unfolding emit_load_opcode
  emit_load_opcode-Grows s8 = search grows_rules
  emit_load_opcode-Grows s16 = search grows_rules
  emit_load_opcode-Grows s32 = search grows_rules
  emit_load_opcode-Grows s64 = search grows_rules

  pub emit_load-Grows :
      (size : OperandSize) (src dst offset : ℕ) → Keeps (Grows s₀) (emit_load size src dst offset)
  unfolding emit_load
  emit_load-Grows size src dst offset =
      search (
        grows_rules, emit_basic_rex-Grows, emit_load_opcode-Grows,
        emit_modrm_and_displacement-Grows,
      )

  pub emit_load_imm-Grows : (dst i : ℕ) → Keeps (Grows s₀) (emit_load_imm dst i)
  unfolding emit_load_imm
  emit_load_imm-Grows dst i = search (grows_rules, emit_alu64_imm32-Grows, emit_basic_rex-Grows)

  emit_rip_relative_prefix-Grows :
      (r op dst : ℕ) → Keeps (Grows s₀) (emit_rip_relative_prefix r op dst)
  unfolding emit_rip_relative_prefix
  emit_rip_relative_prefix-Grows r op dst = search (grows_rules, emit_rex-Grows, emit_modrm-Grows)

  pub emit_rip_relative_load-Grows :
      (dst target : ℕ) → Keeps (Grows s₀) (emit_rip_relative_load dst target)
  unfolding emit_rip_relative_load set_jit_status modify gets pure ◌>>=◌
  emit_rip_relative_load-Grows dst target = record {
    at = λ s g. elim (Bool-cases (s.num_loads == max_insts)) [
      | inl e ↦ rw e (Grows-error too_many_loads (cc) (later (cc) (cc)) g)
      | inr e ↦ rw e (
          load_entry target _ (ap (λ n. n == max_insts) (num_loads-prefix 0 0x8b dst s) ∙ e)
            ((emit_rip_relative_prefix-Grows 0 0x8b dst).at s g))
    ];
  }

  pub emit_rip_relative_lea-Grows :
      (dst target : ℕ) → Keeps (Grows s₀) (emit_rip_relative_lea dst target)
  unfolding emit_rip_relative_lea set_jit_status modify ◌>>=◌
  emit_rip_relative_lea-Grows dst target = record {
    at = λ s g. elim (Bool-cases (s.num_leas == max_insts)) [
      | inl e ↦ rw e (Grows-error too_many_leas (cc) (later (cc) (cc)) g)
      | inr e ↦ rw e (
          lea_entry target _ (ap (λ n. n == max_insts) (num_leas-prefix 1 0x8d dst s) ∙ e)
            ((emit_rip_relative_prefix-Grows 1 0x8d dst).at s g))
    ];
  }

  pub emit_store-Grows :
      (size : OperandSize) (src dst offset : ℕ) → Keeps (Grows s₀) (emit_store size src dst offset)
  unfolding emit_store
  emit_store-Grows size src dst offset =
      search (grows_rules, emit_rex-Grows, emit_modrm_and_displacement-Grows)

  pub emit_sized-Grows : (size : OperandSize) (i : ℕ) → Keeps (Grows s₀) (emit_sized size i)
  unfolding emit_sized
  emit_sized-Grows s8 i = search grows_rules
  emit_sized-Grows s16 i = search grows_rules
  emit_sized-Grows s32 i = search grows_rules
  emit_sized-Grows s64 i = search grows_rules

  pub emit_store_imm32-Grows :
      (size : OperandSize) (dst offset i : ℕ)
      → Keeps (Grows s₀) (emit_store_imm32 size dst offset i)
  unfolding emit_store_imm32
  emit_store_imm32-Grows size dst offset i =
      search
        (grows_rules, emit_basic_rex-Grows, emit_modrm_and_displacement-Grows, emit_sized-Grows)

  pub emit_ret-Grows : Keeps (Grows s₀) emit_ret
  unfolding emit_ret
  emit_ret-Grows = search grows_rules

  pub emit_jmp-Grows : (target_pc : ℕ) → Keeps (Grows s₀) (emit_jmp target_pc)
  unfolding emit_jmp
  emit_jmp-Grows target_pc = search grows_rules

  pub emit_near_jmp-Grows : (target_pc : ℕ) → Keeps (Grows s₀) (emit_near_jmp target_pc)
  unfolding emit_near_jmp
  emit_near_jmp-Grows target_pc = search grows_rules

  pub emit_call-Grows : (target_pc : ℕ) → Keeps (Grows s₀) (emit_call target_pc)
  unfolding emit_call
  emit_call-Grows target_pc = search grows_rules

  pub emit_pause-Grows : Keeps (Grows s₀) emit_pause
  unfolding emit_pause
  emit_pause-Grows = search grows_rules

  pub emit_default_dispatcher-Grows : (idx : ℕ) → Keeps (Grows s₀) (emit_default_dispatcher idx)
  unfolding emit_default_dispatcher
  emit_default_dispatcher-Grows idx =
      search
        (
          grows_rules, emit_rip_relative_load-Grows, emit_cmp_imm32-Grows, emit_jcc-Grows,
          emit_alu32-Grows, emit_alu64_imm8-Grows, emit_rip_relative_lea-Grows, emit_alu64-Grows,
          emit_load-Grows, emit_mov-Grows,
        )
        depth 60 fits 4000

  pub emit_dispatched_external_helper_call-Grows :
      (idx : ℕ) → Keeps (Grows s₀) (emit_dispatched_external_helper_call idx)
  unfolding emit_dispatched_external_helper_call
  emit_dispatched_external_helper_call-Grows idx =
      search
        (
          grows_rules, emit_push-Grows, emit_default_dispatcher-Grows, emit_load_imm-Grows,
          emit_call-Grows, emit_pop-Grows,
        )
        depth 60 fits 4000

pub ruleset instruction_rules = (
  grows_rules, emit_modrm_reg2reg-Grows, emit_modrm_and_displacement-Grows, emit_basic_rex-Grows,
  emit_push-Grows, emit_pop-Grows, emit_alu32-Grows, emit_alu32_imm32-Grows, emit_alu32_imm8-Grows,
  emit_truncate_u32-Grows, emit_alu64-Grows, emit_alu64_imm32-Grows, emit_alu64_imm8-Grows,
  emit_mov-Grows, emit_cmp_imm32-Grows, emit_cmp32_imm32-Grows, emit_cmp-Grows, emit_cmp32-Grows,
  emit_jcc-Grows, emit_load-Grows, emit_load_imm-Grows, emit_rip_relative_load-Grows,
  emit_rip_relative_lea-Grows, emit_store-Grows, emit_store_imm32-Grows, emit_ret-Grows,
  emit_jmp-Grows, emit_near_jmp-Grows, emit_call-Grows, emit_pause-Grows,
  emit_dispatched_external_helper_call-Grows,
)
