-- ===== src/Jit/Translate/Grows/Program.antt =====
-- `translate` of libs/ubpf/vm/ubpf_jit_x86_64.c as a whole keeps the buffer and the tables sound.
use appclick_ubpf.Prelude.{
  ℕ, zero, suc, ◌+◌, ◌≡◌, ◌≢◌, refl, Bool, true, false, Option, none, some, List, [], ◌∷◌,
}
use appclick_ubpf.Prelude.{Option-cases, inl, inr}
use appclick_ubpf.Isa.{Inst, Op, alu, neg, le, be, ldx, st, stx, lddw, ja, jump, call, exit}
use appclick_ubpf.Vm.{Vm, ExternalFunction, Dispatcher, JitMode, basic_jit_mode, extended_jit_mode}
use appclick_ubpf.Code.{fetch_instruction}
use appclick_ubpf.Jit.State.{
  JitState, JitProgress, no_error, too_many_jumps, too_many_loads, too_many_leas,
  too_many_local_calls, not_enough_space, unexpected_instruction, unknown_instruction, Message,
  many_jumps, many_loads, many_leas, many_local_calls, target_buffer_too_small,
  unknown_instruction_at, Emit, modify,
}
use appclick_ubpf.Jit.State.Keeps.{Keeps, Keeps-bind, Keeps-gets, Keeps-pure, Keeps-if}
use appclick_ubpf.Jit.Emit.Grows.{Grows, Says, later, now, Grows-error}
use appclick_ubpf.Jit.Emit.Grows.Rules.{fixup-Grows, emit8-Grows}
use appclick_ubpf.Jit.Emit.Grows.Instructions.{instruction_rules, emit_push-Grows, emit_pop-Grows}
use appclick_ubpf.Jit.Support.{fixup_jump_target}
use appclick_ubpf.Jit.Translate.{
  Round, again, again_after_half, faulted, emit_pushes, emit_pops, emit_retpoline, emit_local_call,
  emit_dispatched_external_helper_address, emit_helpers, emit_helper_table, emit_call_op, emit_lddw,
  emit_unknown, translate_error, emit_op, emit_fallthrough_jump, emit_function_prolog,
  fix_fallthrough, translate_inst, after_round, translate_insts, emit_stack, emit_prologue,
  emit_epilogue, translate,
}
use appclick_ubpf.Jit.Translate.Grows.{
  Grows-rest, rest-Grows, alu_rules, emit_alu_op-Grows, emit_le-Grows, emit_be-Grows,
  emit_jump-Grows,
}

Says-translate_error :
    (p : JitProgress) (m : Option Message) → Says p m → Says p (translate_error p m)
unfolding translate_error
Says-translate_error no_error m h = h
Says-translate_error too_many_jumps m h = now
Says-translate_error too_many_loads m h = now
Says-translate_error too_many_leas m h = now
Says-translate_error too_many_local_calls m h = now
Says-translate_error not_enough_space m h = now
Says-translate_error unexpected_instruction m h = h
Says-translate_error unknown_instruction m h = h

module _ {s₀ : JitState} where
  emit_pushes-Grows : (rs : List ℕ) → Keeps (Grows s₀) (emit_pushes rs)
  unfolding emit_pushes
  emit_pushes-Grows [] = search instruction_rules
  emit_pushes-Grows (r ∷ rs) = Keeps-bind _ _ (emit_push-Grows r) (λ _. emit_pushes-Grows rs)

  pub emit_pops-Grows : (rs : List ℕ) → Keeps (Grows s₀) (emit_pops rs)
  unfolding emit_pops
  emit_pops-Grows [] = search instruction_rules
  emit_pops-Grows (r ∷ rs) = Keeps-bind _ _ (emit_pops-Grows rs) (λ _. emit_pop-Grows r)

  retarget-Grows :
      (src dest : ℕ)
      → Keeps
          (Grows s₀)
          (modify (λ s. record s { jumps = fixup_jump_target s.jumps s.num_jumps src dest }))
  unfolding modify
  retarget-Grows src dest = record { at = λ s g. fixup-Grows src dest g }

  pub emit_retpoline-Grows : Keeps (Grows s₀) emit_retpoline
  unfolding emit_retpoline
  emit_retpoline-Grows = search (instruction_rules, retarget-Grows) depth 40 fits 4000

  fix_fallthrough-Grows : (source : Option ℕ) → Keeps (Grows s₀) (fix_fallthrough source)
  unfolding fix_fallthrough
  fix_fallthrough-Grows none = search instruction_rules
  fix_fallthrough-Grows (some source) = search instruction_rules

  after_round-Grows :
      (next : Round) (m n : Emit Bool)
      → Keeps (Grows s₀) m
      → Keeps (Grows s₀) n
      → Keeps (Grows s₀) (after_round next m n)
  unfolding after_round
  after_round-Grows again m n km kn = km
  after_round-Grows again_after_half m n km kn = kn
  after_round-Grows faulted m n km kn = Keeps-pure false

  emit_unknown-Grows : (i : ℕ) (inst : Inst) → Keeps (Grows s₀) (emit_unknown i inst)
  unfolding emit_unknown modify
  emit_unknown-Grows i inst = record {
    at = λ s g. Grows-error unknown_instruction (cc) now (
        Grows-rest s.pc_locs s.exit_loc s.retpoline_loc s.dispatcher_loc s.helper_table_loc
          s.bpf_function_prolog_size (some (unknown_instruction_at i inst.opcode)) now g);
  }

  say-Grows :
      Keeps (Grows s₀) (modify (λ s. record s { errmsg = translate_error s.jit_status s.errmsg }))
  unfolding modify
  say-Grows = record {
    at = λ s g.
        Grows-rest s.pc_locs s.exit_loc s.retpoline_loc s.dispatcher_loc s.helper_table_loc
          s.bpf_function_prolog_size (translate_error s.jit_status s.errmsg)
          (Says-translate_error s.jit_status s.errmsg g.emitting.says) g;
  }

-- An error has its message once `translate` is done.
pub translate_error-some :
    (p : JitProgress) (m : Option Message)
    → p ≢ no_error
    → Says p m
    → (why : Message) × (translate_error p m ≡ some why)
unfolding translate_error
translate_error-some no_error m bad h = absurd (bad refl)
translate_error-some too_many_jumps m bad h = (many_jumps, refl)
translate_error-some too_many_loads m bad h = (many_loads, refl)
translate_error-some too_many_leas m bad h = (many_leas, refl)
translate_error-some too_many_local_calls m bad h = (many_local_calls, refl)
translate_error-some not_enough_space m bad h = (target_buffer_too_small, refl)
translate_error-some unexpected_instruction m bad (later a b) = absurd (a refl)
translate_error-some unexpected_instruction (some why) bad now = (why, refl)
translate_error-some unknown_instruction m bad (later a b) = absurd (b refl)
translate_error-some unknown_instruction (some why) bad now = (why, refl)

module _ (map : List ℕ) (function_address : Option ExternalFunction → ℕ)
    (dispatcher_address : Option Dispatcher → ℕ) (vm : Vm) {s₀ : JitState} where
  emit_local_call-Grows :
      (target_pc : ℕ)
      → Keeps (Grows s₀) (emit_local_call map function_address dispatcher_address vm target_pc)
  unfolding emit_local_call
  emit_local_call-Grows target_pc = search instruction_rules depth 60 fits 4000

  emit_dispatcher-Grows :
      Keeps
        (Grows s₀)
        (emit_dispatched_external_helper_address map function_address dispatcher_address vm)
  unfolding emit_dispatched_external_helper_address
  emit_dispatcher-Grows = search instruction_rules

  pub emit_helpers-Grows :
      (n i : ℕ) → Keeps (Grows s₀) (emit_helpers map function_address dispatcher_address vm n i)
  unfolding emit_helpers
  emit_helpers-Grows zero i = search instruction_rules
  emit_helpers-Grows (suc n) i = Keeps-bind _ _ (emit8-Grows _) (λ _. emit_helpers-Grows n (i + 1))

  emit_helper_table-Grows :
      Keeps (Grows s₀) (emit_helper_table map function_address dispatcher_address vm)
  unfolding emit_helper_table
  emit_helper_table-Grows = search (instruction_rules, emit_helpers-Grows)

  emit_call_op-Grows :
      (i : ℕ) (inst : Inst)
      → Keeps (Grows s₀) (emit_call_op map function_address dispatcher_address vm i inst)
  unfolding emit_call_op
  emit_call_op-Grows i inst = search (instruction_rules, emit_local_call-Grows) depth 20

  emit_lddw-Grows :
      (i dst : ℕ) (inst : Inst)
      → Keeps (Grows s₀) (emit_lddw map function_address dispatcher_address vm i dst inst)
  unfolding emit_lddw
  emit_lddw-Grows i dst inst = elim (Option-cases (fetch_instruction vm (i + 1))) [
    | inl e ↦ rw (e, emit_lddw) (search instruction_rules)
    | inr (inst2, e) ↦ rw (e, emit_lddw) (search instruction_rules)
  ]

  emit_op-Grows :
      (i : ℕ) (inst : Inst) (dst src : ℕ) (op : Option Op)
      → Keeps (Grows s₀) (emit_op map function_address dispatcher_address vm i inst dst src op)
  unfolding emit_op
  emit_op-Grows i inst dst src none = search (instruction_rules, emit_unknown-Grows)
  emit_op-Grows i inst dst src (some (alu w o s)) = search (alu_rules, emit_alu_op-Grows)
  emit_op-Grows i inst dst src (some (neg w)) = search alu_rules
  emit_op-Grows i inst dst src (some le) = search (alu_rules, emit_le-Grows)
  emit_op-Grows i inst dst src (some be) = search (alu_rules, emit_be-Grows)
  emit_op-Grows i inst dst src (some (ldx z)) = search alu_rules
  emit_op-Grows i inst dst src (some (st z)) = search alu_rules
  emit_op-Grows i inst dst src (some (stx z)) = search alu_rules
  emit_op-Grows i inst dst src (some lddw) = search emit_lddw-Grows
  emit_op-Grows i inst dst src (some ja) = search alu_rules
  emit_op-Grows i inst dst src (some (jump w c s)) = search (alu_rules, emit_jump-Grows)
  emit_op-Grows i inst dst src (some call) = search (alu_rules, emit_call_op-Grows)
  emit_op-Grows i inst dst src (some exit) = search alu_rules

  emit_fallthrough_jump-Grows :
      (i : ℕ)
      → Keeps (Grows s₀) (emit_fallthrough_jump map function_address dispatcher_address vm i)
  unfolding emit_fallthrough_jump
  emit_fallthrough_jump-Grows i = search instruction_rules

  emit_function_prolog-Grows :
      (i : ℕ) → Keeps (Grows s₀) (emit_function_prolog map function_address dispatcher_address vm i)
  unfolding emit_function_prolog
  emit_function_prolog-Grows i = search (instruction_rules, rest-Grows) depth 40 fits 4000

  translate_inst-Grows :
      (i : ℕ) → Keeps (Grows s₀) (translate_inst map function_address dispatcher_address vm i)
  unfolding translate_inst
  translate_inst-Grows i = elim (Option-cases (fetch_instruction vm i)) [
    | inl e ↦ rw (e, translate_inst) (search instruction_rules)
    | inr (inst, e) ↦
        rw (e, translate_inst)
          (search
            (
              instruction_rules, rest-Grows, emit_fallthrough_jump-Grows,
              emit_function_prolog-Grows, fix_fallthrough-Grows, emit_op-Grows,
            )
            depth 40 fits 4000)
  ]

  pub translate_insts-Grows :
      (half : Bool) (n i : ℕ)
      → Keeps (Grows s₀) (translate_insts map function_address dispatcher_address vm half n i)
  unfolding translate_insts
  translate_insts-Grows half zero i = Keeps-pure true
  translate_insts-Grows true (suc n) i = translate_insts-Grows false n (i + 1)
  translate_insts-Grows false (suc n) i = Keeps-bind _ _ (Keeps-gets _) (λ status.
      Keeps-if _ _ _ (Keeps-pure true) (
        Keeps-bind _ _ (translate_inst-Grows i) (λ next.
          after_round-Grows next _ _ (translate_insts-Grows false n (i + 1))
            (translate_insts-Grows true n (i + 1)))))

  emit_stack-Grows :
      (mode : JitMode)
      → Keeps (Grows s₀) (emit_stack map function_address dispatcher_address vm mode)
  unfolding emit_stack
  emit_stack-Grows basic_jit_mode = search instruction_rules
  emit_stack-Grows extended_jit_mode = search instruction_rules

  pub emit_prologue-Grows :
      Keeps (Grows s₀) (emit_prologue map function_address dispatcher_address vm)
  unfolding emit_prologue
  emit_prologue-Grows =
      search (instruction_rules, emit_pushes-Grows, emit_stack-Grows) depth 40 fits 4000

  pub emit_epilogue-Grows :
      Keeps (Grows s₀) (emit_epilogue map function_address dispatcher_address vm)
  unfolding emit_epilogue
  emit_epilogue-Grows =
      search
        (
          instruction_rules, rest-Grows, emit_pops-Grows, emit_retpoline-Grows,
          emit_dispatcher-Grows, emit_helper_table-Grows,
        )
        depth 60 fits 8000

  pub translate-Grows : Keeps (Grows s₀) (translate map function_address dispatcher_address vm)
  unfolding translate
  translate-Grows =
      search
        (
          instruction_rules, emit_prologue-Grows, translate_insts-Grows, emit_epilogue-Grows,
          say-Grows,
        )
        depth 20 fits 4000
