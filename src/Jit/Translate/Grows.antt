-- ===== src/Jit/Translate/Grows.antt =====
-- Every step of `translate` (libs/ubpf/vm/ubpf_jit_x86_64.c) keeps the buffer and the tables sound.
pub mod Program
use appclick_ubpf.Prelude.{
  ℕ, zero, suc, ◌≡◌, refl, Bool, true, false, Option, none, some, List, [], ◌∷◌,
}
use appclick_ubpf.Prelude.{if◌then◌else◌, ◌==◌, ◌&&◌, arith, Bool-cases, Option-cases, inl, inr}
use appclick_ubpf.Isa.{
  Inst, Op, alu, neg, le, be, ldx, st, stx, lddw, ja, jump, call, exit, Width, w32, w64, Source,
  imm, reg, AluOp, add, sub, mul, div, or, and, lsh, rsh, modulo, xor, mov, arsh, Cond, jeq, jgt,
  jge, jset, jne, jsgt, jsge, jlt, jle, jslt, jsle, decode,
}
use appclick_ubpf.Vm.{
  Vm, ExternalFunction, Dispatcher, basic_jit_mode, extended_jit_mode, max_ext_funcs,
}
use appclick_ubpf.Code.{fetch_instruction}
use appclick_ubpf.Jit.State.{
  JitState, is_no_error, unknown_instruction, Message, Emit, modify, gets, pure, ◌>>=◌,
}
use appclick_ubpf.Jit.State.Keeps.{Keeps, Keeps-bind, Keeps-gets, Keeps-pure}
use appclick_ubpf.Jit.Support.{fixup_jump_target}
use appclick_ubpf.Jit.Emit.Grows.{Grows, Says, Grows-error, Grows-tables}
use appclick_ubpf.Jit.Emit.Grows.Rules.{fixup-Grows}
use appclick_ubpf.Jit.Emit.Grows.Instructions.{instruction_rules, emit_rex-Grows}
use appclick_ubpf.Jit.Translate.Select.{
  emit_divisor_test, emit_zero_divisor, emit_result, muldivmod, emit_alu, emit_alu_imm32,
  emit_alu_imm8, emit_alu_op, emit_le, emit_be, emit_compare, emit_jump,
}
use appclick_ubpf.Jit.Translate.{
  Round, again, again_after_half, faulted, emit_pushes, emit_pops, emit_retpoline, emit_local_call,
  emit_dispatched_external_helper_address, emit_helpers, emit_helper_table, emit_call_op, emit_lddw,
  emit_unknown, emit_op, emit_fallthrough_jump, emit_function_prolog, fix_fallthrough,
  translate_inst, translate_insts, emit_prologue, emit_epilogue, translate,
}

module _ {s₀ : JitState} where
  -- Emission never reads these.
  pub Grows-rest :
      {s : JitState} (pc : ℕ → ℕ) (exit_at retpoline dispatcher helpers prolog : ℕ)
      (errmsg : Option Message)
      → Says s.jit_status errmsg
      → Grows s₀ s
      → Grows s₀ (record s {
        pc_locs = pc;
        exit_loc = exit_at;
        retpoline_loc = retpoline;
        dispatcher_loc = dispatcher;
        helper_table_loc = helpers;
        bpf_function_prolog_size = prolog;
        errmsg = errmsg;
      })
  Grows-rest {s} pc exit_at retpoline dispatcher helpers prolog errmsg why g =
      Grows-tables _
        (record {
          offset_same = refl;
          size_same = refl;
          buf_same = refl;
          status_same = refl;
          jumps_within = g.emitting.jumps_fit;
          loads_within = g.emitting.loads_fit;
          leas_within = g.emitting.leas_fit;
          local_calls_within = g.emitting.local_calls_fit;
          begun_still = g.emitting.begun;
          says_still = why;
        })
        (λ ok p. record {
          jumps_placed = p.jumps_placed;
          loads_placed = p.loads_placed;
          leas_placed = p.leas_placed;
          local_calls_placed = p.local_calls_placed;
          apart = p.apart;
        })
        g

  pub rest-Grows :
      (pc : JitState → ℕ → ℕ) (exit_at retpoline dispatcher helpers prolog : JitState → ℕ)
      → Keeps (Grows s₀) (
          modify (λ s. record s {
            pc_locs = pc s;
            exit_loc = exit_at s;
            retpoline_loc = retpoline s;
            dispatcher_loc = dispatcher s;
            helper_table_loc = helpers s;
            bpf_function_prolog_size = prolog s;
          }))
  unfolding modify
  rest-Grows pc exit_at retpoline dispatcher helpers prolog = record {
    at = λ s g.
        Grows-rest (pc s) (exit_at s) (retpoline s) (dispatcher s) (helpers s) (prolog s) s.errmsg
          g.emitting.says g;
  }

  emit_divisor_test-Grows : (a b : Bool) → Keeps (Grows s₀) (emit_divisor_test a b)
  unfolding emit_divisor_test
  emit_divisor_test-Grows a b = search instruction_rules depth 40 fits 4000

  emit_zero_divisor-Grows : (a : Bool) → Keeps (Grows s₀) (emit_zero_divisor a)
  unfolding emit_zero_divisor
  emit_zero_divisor-Grows a = search instruction_rules depth 40 fits 4000

  emit_result-Grows : (a b c : Bool) (dst : ℕ) → Keeps (Grows s₀) (emit_result a b c dst)
  unfolding emit_result
  emit_result-Grows a b c dst = search instruction_rules depth 40 fits 4000

  pub muldivmod-Grows : (opcode src dst i : ℕ) → Keeps (Grows s₀) (muldivmod opcode src dst i)
  unfolding muldivmod
  muldivmod-Grows opcode src dst i =
      search
        (
          instruction_rules, emit_rex-Grows, emit_divisor_test-Grows, emit_zero_divisor-Grows,
          emit_result-Grows,
        )
        depth 40 fits 4000

  pub emit_alu-Grows : (w : Width) (op src dst : ℕ) → Keeps (Grows s₀) (emit_alu w op src dst)
  unfolding emit_alu
  emit_alu-Grows w32 op src dst = search instruction_rules
  emit_alu-Grows w64 op src dst = search instruction_rules

  pub emit_alu_imm32-Grows :
      (w : Width) (op src dst i : ℕ) → Keeps (Grows s₀) (emit_alu_imm32 w op src dst i)
  unfolding emit_alu_imm32
  emit_alu_imm32-Grows w32 op src dst i = search instruction_rules
  emit_alu_imm32-Grows w64 op src dst i = search instruction_rules

  pub emit_alu_imm8-Grows :
      (w : Width) (op src dst i : ℕ) → Keeps (Grows s₀) (emit_alu_imm8 w op src dst i)
  unfolding emit_alu_imm8
  emit_alu_imm8-Grows w32 op src dst i = search instruction_rules
  emit_alu_imm8-Grows w64 op src dst i = search instruction_rules

pub ruleset alu_rules =
    (instruction_rules, muldivmod-Grows, emit_alu-Grows, emit_alu_imm32-Grows, emit_alu_imm8-Grows)

module _ {s₀ : JitState} where
  pub emit_alu_op-Grows :
      (w : Width) (o : AluOp) (s : Source) (opcode src dst i : ℕ)
      → Keeps (Grows s₀) (emit_alu_op w o s opcode src dst i)
  unfolding emit_alu_op
  emit_alu_op-Grows w add imm opcode src dst i = search alu_rules
  emit_alu_op-Grows w add reg opcode src dst i = search alu_rules
  emit_alu_op-Grows w sub imm opcode src dst i = search alu_rules
  emit_alu_op-Grows w sub reg opcode src dst i = search alu_rules
  emit_alu_op-Grows w or imm opcode src dst i = search alu_rules
  emit_alu_op-Grows w or reg opcode src dst i = search alu_rules
  emit_alu_op-Grows w and imm opcode src dst i = search alu_rules
  emit_alu_op-Grows w and reg opcode src dst i = search alu_rules
  emit_alu_op-Grows w lsh imm opcode src dst i = search alu_rules
  emit_alu_op-Grows w lsh reg opcode src dst i = search alu_rules
  emit_alu_op-Grows w rsh imm opcode src dst i = search alu_rules
  emit_alu_op-Grows w rsh reg opcode src dst i = search alu_rules
  emit_alu_op-Grows w xor imm opcode src dst i = search alu_rules
  emit_alu_op-Grows w xor reg opcode src dst i = search alu_rules
  emit_alu_op-Grows w arsh imm opcode src dst i = search alu_rules
  emit_alu_op-Grows w arsh reg opcode src dst i = search alu_rules
  emit_alu_op-Grows w mul s opcode src dst i = search alu_rules
  emit_alu_op-Grows w div s opcode src dst i = search alu_rules
  emit_alu_op-Grows w modulo s opcode src dst i = search alu_rules
  emit_alu_op-Grows w32 mov imm opcode src dst i = search alu_rules
  emit_alu_op-Grows w64 mov imm opcode src dst i = search alu_rules
  emit_alu_op-Grows w mov reg opcode src dst i = search alu_rules

  pub emit_le-Grows : (dst i : ℕ) → Keeps (Grows s₀) (emit_le dst i)
  unfolding emit_le
  emit_le-Grows dst i = search instruction_rules

  pub emit_be-Grows : (dst i : ℕ) → Keeps (Grows s₀) (emit_be dst i)
  unfolding emit_be
  emit_be-Grows dst i = search instruction_rules depth 20

  emit_compare-Grows :
      (w : Width) (c : Cond) (s : Source) (src dst i : ℕ)
      → Keeps (Grows s₀) (emit_compare w c s src dst i)
  unfolding emit_compare
  emit_compare-Grows w32 jeq imm src dst i = search alu_rules
  emit_compare-Grows w32 jeq reg src dst i = search alu_rules
  emit_compare-Grows w32 jgt imm src dst i = search alu_rules
  emit_compare-Grows w32 jgt reg src dst i = search alu_rules
  emit_compare-Grows w32 jge imm src dst i = search alu_rules
  emit_compare-Grows w32 jge reg src dst i = search alu_rules
  emit_compare-Grows w32 jne imm src dst i = search alu_rules
  emit_compare-Grows w32 jne reg src dst i = search alu_rules
  emit_compare-Grows w32 jsgt imm src dst i = search alu_rules
  emit_compare-Grows w32 jsgt reg src dst i = search alu_rules
  emit_compare-Grows w32 jsge imm src dst i = search alu_rules
  emit_compare-Grows w32 jsge reg src dst i = search alu_rules
  emit_compare-Grows w32 jlt imm src dst i = search alu_rules
  emit_compare-Grows w32 jlt reg src dst i = search alu_rules
  emit_compare-Grows w32 jle imm src dst i = search alu_rules
  emit_compare-Grows w32 jle reg src dst i = search alu_rules
  emit_compare-Grows w32 jslt imm src dst i = search alu_rules
  emit_compare-Grows w32 jslt reg src dst i = search alu_rules
  emit_compare-Grows w32 jsle imm src dst i = search alu_rules
  emit_compare-Grows w32 jsle reg src dst i = search alu_rules
  emit_compare-Grows w64 jeq imm src dst i = search alu_rules
  emit_compare-Grows w64 jeq reg src dst i = search alu_rules
  emit_compare-Grows w64 jgt imm src dst i = search alu_rules
  emit_compare-Grows w64 jgt reg src dst i = search alu_rules
  emit_compare-Grows w64 jge imm src dst i = search alu_rules
  emit_compare-Grows w64 jge reg src dst i = search alu_rules
  emit_compare-Grows w64 jne imm src dst i = search alu_rules
  emit_compare-Grows w64 jne reg src dst i = search alu_rules
  emit_compare-Grows w64 jsgt imm src dst i = search alu_rules
  emit_compare-Grows w64 jsgt reg src dst i = search alu_rules
  emit_compare-Grows w64 jsge imm src dst i = search alu_rules
  emit_compare-Grows w64 jsge reg src dst i = search alu_rules
  emit_compare-Grows w64 jlt imm src dst i = search alu_rules
  emit_compare-Grows w64 jlt reg src dst i = search alu_rules
  emit_compare-Grows w64 jle imm src dst i = search alu_rules
  emit_compare-Grows w64 jle reg src dst i = search alu_rules
  emit_compare-Grows w64 jslt imm src dst i = search alu_rules
  emit_compare-Grows w64 jslt reg src dst i = search alu_rules
  emit_compare-Grows w64 jsle imm src dst i = search alu_rules
  emit_compare-Grows w64 jsle reg src dst i = search alu_rules
  emit_compare-Grows w jset imm src dst i = search alu_rules
  emit_compare-Grows w jset reg src dst i = search alu_rules

  pub emit_jump-Grows :
      (w : Width) (c : Cond) (s : Source) (src dst i target_pc : ℕ)
      → Keeps (Grows s₀) (emit_jump w c s src dst i target_pc)
  unfolding emit_jump
  emit_jump-Grows w c s src dst i target_pc = search (instruction_rules, emit_compare-Grows)
