-- ===== src/Jit/Translate.antt =====
-- `translate` of libs/ubpf/vm/ubpf_jit_x86_64.c, on the System V calling convention: the code for a
-- whole program, its epilogue, the retpoline and the table of the helpers.
pub mod Select
pub mod Grows
pub mod Registers
use appclick_ubpf.Prelude.{
  ℕ, zero, suc, ◌+◌, ◌-◌, ◌*◌, ◌%◌, ◌^◌, bit_and, Bool, true, false, not, ◌&&◌, ◌||◌, Option, none,
  some, List, [], ◌∷◌,
}
use appclick_ubpf.Prelude.{ltb, ◌==◌, ◌!=◌, if◌then◌else◌, get_elem?, set, update}
use appclick_ubpf.Prelude.{leb}
use appclick_ubpf.Words.{u32, i64, ℤ, pos, negsuc}
use appclick_ubpf.Isa.{
  Inst, Op, alu, neg, le, be, ldx, st, stx, lddw, ja, jump, call, exit, Size, decode, opcode_of,
}
use appclick_ubpf.Vm.{
  Vm, ExternalFunction, Dispatcher, JitMode, basic_jit_mode, extended_jit_mode, max_ext_funcs,
  ebpf_stack_size,
}
use appclick_ubpf.Code.{fetch_instruction}
use appclick_ubpf.StackUsage.{stack_usage_for_local_func}
use appclick_ubpf.Jit.State.{
  JitState, JitProgress, no_error, too_many_jumps, too_many_loads, too_many_leas,
  too_many_local_calls, not_enough_space, unexpected_instruction, unknown_instruction, is_no_error,
  Message, many_jumps, many_loads, many_leas, many_local_calls, target_buffer_too_small,
  unknown_instruction_at, target_pc_exit, Emit, modify, skip, when, pure, gets, ◌>>=◌, ◌>>◌,
}
use appclick_ubpf.Jit.Support.{fixup_jump_target, emit_jump_target}
use appclick_ubpf.Jit.Emit.{
  rax, rcx, rdx, rbx, rsp, rbp, rsi, rdi, volatile_ctxt, emit1, emit4, emit8,
  emit_local_call_address_reloc,
}
use appclick_ubpf.Jit.Emit.Instructions.{
  emit_push, emit_pop, emit_alu64, emit_alu64_imm32, emit_mov, emit_cmp_imm32, emit_jcc, emit_load,
  emit_load_imm, emit_store, emit_store_imm32, emit_ret, emit_jmp, emit_near_jmp, emit_call,
  emit_pause, emit_dispatched_external_helper_call, emit_truncate_u32,
}
use appclick_ubpf.Jit.Translate.Select.{
  emit_alu, emit_alu_op, emit_le, emit_be, emit_jump, operand_size,
}

abbrev pub platform_nonvolatile_registers : List ℕ
platform_nonvolatile_registers = rbp ∷ rbx ∷ 12 ∷ 13 ∷ 14 ∷ 15 ∷ []

-- The registers of R0 to R10 at the start; `ubpf_set_register_offset` changes them.
abbrev pub register_map : List ℕ
register_map = rax ∷ rdi ∷ rsi ∷ rdx ∷ 10 ∷ 8 ∷ rbx ∷ 12 ∷ 13 ∷ 14 ∷ 15 ∷ []

abbrev or_zero : Option ℕ → ℕ
or_zero none = 0
or_zero (some x) = x

-- `(i + x) % 11` of an `int`, as an index; `none` where it is negative. `negsuc n` is -(n + 1), and
-- the remainder of C has the sign of `i + x`.
unfoldable pub offset_index : ℕ → ℤ → Option ℕ
offset_index i (pos x) = some ((i + x) % 11)
offset_index i (negsuc n) =
    if leb (n + 1) i
    then some ((i - (n + 1)) % 11)
    else if (n + 1 - i) % 11 == 0
    then some 0
    else none

-- The entries of the map from `i` on, `n` of them, each moved by `x`; `none` is a read before the
-- array.
unfoldable pub rotate : List ℕ → ℤ → ℕ → ℕ → Option (List ℕ)
rotate map x zero i = some []
rotate map x (suc n) i =
    let rest = rotate map x n (i + 1) in
    elim (offset_index i x) [
      | none ↦ none
      | some j ↦ elim rest [
        | none ↦ none
        | some entries ↦ some (or_zero (get_elem? map j) ∷ entries)
      ]
    ]

unfoldable pub swap : List ℕ → ℕ → ℕ → List ℕ
swap map i j =
    let tmp = or_zero (get_elem? map j) in set (set map j (or_zero (get_elem? map i))) i tmp

-- The loop that shuffles the map: `n` rounds from `i` on; `rand_r` gives a number and a seed.
unfoldable pub shuffle : (ℕ → ℕ × ℕ) → List ℕ → ℕ → ℕ → ℕ → List ℕ
shuffle rand_r map seed zero i = map
shuffle rand_r map seed (suc n) i =
    let (r, seed') = rand_r seed in shuffle rand_r (swap map i (i + r % (11 - i))) seed' n (i + 1)

-- `ubpf_set_register_offset`; `none` is a read before the array.
unfoldable pub set_register_offset : (ℕ → ℕ × ℕ) → List ℕ → ℤ → Option (List ℕ)
set_register_offset rand_r map (negsuc n) = rotate map (negsuc n) 11 0
set_register_offset rand_r map (pos x) =
    if ltb x 11 then rotate map (pos x) 11 0 else some (shuffle rand_r map x 10 0)

-- An `int16_t` extended to 32 bits by its sign.
unfoldable pub i32_of_i16 : ℕ → ℕ
i32_of_i16 x = if ltb x (2 ^ 15) then x else x + (2 ^ 32 - 2 ^ 16)

unfoldable pub emit_pushes : List ℕ → Emit Unit
emit_pushes [] = skip
emit_pushes (r ∷ rs) = do emit_push r; emit_pushes rs

-- The loop that pops from the last register to the first.
unfoldable pub emit_pops : List ℕ → Emit Unit
emit_pops [] = skip
emit_pops (r ∷ rs) = do emit_pops rs; emit_pop r

-- The message of a failed translation; the last two were set where the error was found.
unfoldable pub translate_error : JitProgress → Option Message → Option Message
translate_error too_many_jumps errmsg = some many_jumps
translate_error too_many_loads errmsg = some many_loads
translate_error too_many_leas errmsg = some many_leas
translate_error too_many_local_calls errmsg = some many_local_calls
translate_error not_enough_space errmsg = some target_buffer_too_small
translate_error _ errmsg = errmsg

unfoldable pub emit_retpoline : Emit ℕ
emit_retpoline = do
  retpoline_target ← gets (λ (s : JitState). s.offset)
  label1_call_offset ← emit_call 0
  capture_ret_spec ← gets (λ (s : JitState). s.offset)
  emit_pause
  emit_jmp capture_ret_spec
  label1 ← gets (λ (s : JitState). s.offset)
  emit1 0x48
  emit1 0x89
  emit1 0x04
  emit1 0x24
  emit_ret
  modify (λ s. record s { jumps = fixup_jump_target s.jumps s.num_jumps label1_call_offset label1 })
  pure retpoline_target

-- The end of the jump round the prologue of a local function.
unfoldable pub fix_fallthrough : Option ℕ → Emit Unit
fix_fallthrough none = skip
fix_fallthrough (some fallthrough_jump_source) = emit_jump_target fallthrough_jump_source

-- `default:` of the `switch`.
unfoldable pub emit_unknown : ℕ → Inst → Emit Unit
emit_unknown i inst = modify (λ s. record s {
  jit_status = unknown_instruction;
  errmsg = some (unknown_instruction_at i inst.opcode);
})

-- How a round of the loop over the instructions ends: the next instruction, the one after the
-- second half of a load, or a read outside the array of instructions.
pub data Round : Type 0 where
  again again_after_half faulted : Round

unfoldable pub after_round : Round → Emit Bool → Emit Bool → Emit Bool
after_round again go go_after_half = go
after_round again_after_half go go_after_half = go_after_half
after_round faulted go go_after_half = pure false

-- What `translate` returns: 0, -1, or nothing after a read outside the array of instructions.
pub data Translated : Type 0 where
  translated failed stopped : Translated

-- `map` stands for the global `register_map`, the other two for the addresses of functions.
module _ (map : List ℕ) (function_address : Option ExternalFunction → ℕ)
    (dispatcher_address : Option Dispatcher → ℕ) (vm : Vm) where
  unfoldable pub map_register : ℕ → ℕ
  map_register r = or_zero (get_elem? map (r % 11))

  unfoldable pub emit_local_call : ℕ → Emit Unit
  emit_local_call target_pc = do
    emit1 0x4c
    emit1 0x2b
    emit1 0x3c
    emit1 0x24
    emit_push (map_register 6)
    emit_push (map_register 7)
    emit_push (map_register 8)
    emit_push (map_register 9)
    emit1 0xe8
    emit_local_call_address_reloc target_pc
    emit_pop (map_register 9)
    emit_pop (map_register 8)
    emit_pop (map_register 7)
    emit_pop (map_register 6)
    emit1 0x4c
    emit1 0x03
    emit1 0x3c
    emit1 0x24

  unfoldable pub emit_dispatched_external_helper_address : Emit ℕ
  emit_dispatched_external_helper_address = do
    external_helper_address_target ← gets (λ (s : JitState). s.offset)
    emit8 (dispatcher_address vm.dispatcher)
    pure external_helper_address_target

  -- The last `n` entries of the table, from index `i` on.
  unfoldable pub emit_helpers : ℕ → ℕ → Emit Unit
  emit_helpers zero i = skip
  emit_helpers (suc n) i = do emit8 (function_address (vm.ext_funcs i)); emit_helpers n (i + 1)

  unfoldable pub emit_helper_table : Emit ℕ
  emit_helper_table = do
    helper_table_address_target ← gets (λ (s : JitState). s.offset)
    emit_helpers max_ext_funcs 0
    pure helper_table_address_target

  -- `EBPF_OP_CALL`.
  unfoldable pub emit_call_op : ℕ → Inst → Emit Unit
  emit_call_op i inst =
      if inst.src == 0
      then (do
        emit_mov 10 rcx
        emit_dispatched_external_helper_call inst.imm
        when (inst.imm == vm.unwind_stack_extension_index)
            (do emit_cmp_imm32 (map_register 0) 0; emit_jcc 0x84 target_pc_exit; skip))
      else when (inst.src == 1) (emit_local_call (u32 (i + inst.imm + 1)))

  -- `EBPF_OP_LDDW`: the second half follows.
  unfoldable pub emit_lddw : ℕ → ℕ → Inst → Emit Round
  emit_lddw i dst inst = elim (fetch_instruction vm (i + 1)) [
    | none ↦ pure faulted
    | some inst2 ↦ do emit_load_imm dst (inst.imm + inst2.imm * 2 ^ 32); pure again_after_half
  ]

  -- The `switch`.
  unfoldable pub emit_op : ℕ → Inst → ℕ → ℕ → Option Op → Emit Round
  emit_op i inst dst src none = do emit_unknown i inst; pure again
  emit_op i inst dst src (some (alu w o s)) = do
    emit_alu_op w o s inst.opcode src dst inst.imm
    pure again
  emit_op i inst dst src (some (neg w)) = do emit_alu w 0xf7 3 dst; pure again
  emit_op i inst dst src (some le) = do emit_le dst inst.imm; pure again
  emit_op i inst dst src (some be) = do emit_be dst inst.imm; pure again
  emit_op i inst dst src (some (ldx z)) = do
    emit_load (operand_size z) src dst (i32_of_i16 inst.offset)
    pure again
  emit_op i inst dst src (some (st z)) = do
    emit_store_imm32 (operand_size z) dst (i32_of_i16 inst.offset) inst.imm
    pure again
  emit_op i inst dst src (some (stx z)) = do
    emit_store (operand_size z) src dst (i32_of_i16 inst.offset)
    pure again
  emit_op i inst dst src (some lddw) = emit_lddw i dst inst
  emit_op i inst dst src (some ja) = do emit_jmp (u32 (i + i32_of_i16 inst.offset + 1)); pure again
  emit_op i inst dst src (some (jump w c s)) = do
    emit_jump w c s src dst inst.imm (u32 (i + i32_of_i16 inst.offset + 1))
    pure again
  emit_op i inst dst src (some call) = do emit_call_op i inst; pure again
  emit_op i inst dst src (some exit) = do emit_alu64_imm32 0x81 0 rsp 8; emit_ret; pure again

  -- `vm->int_funcs[i]`.
  unfoldable pub starts_function : ℕ → Bool
  starts_function i = elim (get_elem? vm.int_funcs i) [ none ↦ false | some b ↦ b ]

  -- `ubpf_instruction_has_fallthrough` of the instruction before, where one is stored.
  unfoldable pub falls_through : ℕ → Bool
  falls_through i = elim (fetch_instruction vm (i - 1)) [
    | none ↦ false
    | some inst ↦ inst.opcode != opcode_of exit
  ]

  -- The jump round the prologue of a local function, if there is one.
  unfoldable pub emit_fallthrough_jump : ℕ → Emit (Option ℕ)
  emit_fallthrough_jump i =
      if (i != 0) && (starts_function i && falls_through i)
      then (do fallthrough_jump_source ← emit_near_jmp 0; pure (some fallthrough_jump_source))
      else pure none

  -- The prologue of a local function: its stack usage goes on the host's stack.
  unfoldable pub emit_function_prolog : ℕ → Emit Unit
  emit_function_prolog i = when ((i == 0) || starts_function i) (do
    prolog_start ← gets (λ (s : JitState). s.offset)
    emit_alu64_imm32 0x81 5 rsp 8
    emit1 0x48
    emit1 0xc7
    emit1 0x04
    emit1 0x24
    emit4 (stack_usage_for_local_func vm i)
    modify (λ s. record s {
      bpf_function_prolog_size =
          if s.bpf_function_prolog_size == 0
          then s.offset - prolog_start
          else s.bpf_function_prolog_size;
    }))

  -- The body of the loop over the instructions.
  unfoldable pub translate_inst : ℕ → Emit Round
  translate_inst i = elim (fetch_instruction vm i) [
    | none ↦ pure faulted
    | some inst ↦ do
      fallthrough_jump ← emit_fallthrough_jump i
      emit_function_prolog i
      fix_fallthrough fallthrough_jump
      modify (λ s. record s { pc_locs = update s.pc_locs i s.offset })
      next ← emit_op i inst (map_register inst.dst) (map_register inst.src) (decode inst.opcode)
      when ((bit_and inst.opcode 0x07 == 0x04) && (bit_and inst.opcode 0xf0 != 0xd0))
          (emit_truncate_u32 (map_register inst.dst))
      pure next
  ]

  -- The loop: `n` instructions are left, from `i` on. With `true` the first of them is the second
  -- half of a load, which the `++i` passes over. Returns false after a read outside the array.
  unfoldable pub translate_insts : Bool → ℕ → ℕ → Emit Bool
  translate_insts half zero i = pure true
  translate_insts true (suc n) i = translate_insts false n (i + 1)
  translate_insts false (suc n) i = do
    status ← gets (λ (s : JitState). s.jit_status)
    if not (is_no_error status) then pure true else (do
      next ← translate_inst i
      after_round next (translate_insts false n (i + 1)) (translate_insts true n (i + 1)))

  -- R10 is the top of the program's stack: of the host's, or as the caller gave it.
  unfoldable pub emit_stack : JitMode → Emit Unit
  emit_stack basic_jit_mode = do
    emit_mov rsp (map_register 10)
    emit_alu64_imm32 0x81 5 rsp ebpf_stack_size
  emit_stack extended_jit_mode = do
    emit_mov rdx (map_register 10)
    emit_alu64 0x01 rcx (map_register 10)

  -- The code up to the first instruction.
  unfoldable pub emit_prologue : Emit Unit
  emit_prologue = do
    emit_pushes platform_nonvolatile_registers
    when (map_register 1 != rdi) (emit_mov rdi (map_register 1))
    emit_mov rdi volatile_ctxt
    emit_alu64_imm32 0x81 5 rsp 0x8
    emit_mov rsp rbp
    mode ← gets (λ (s : JitState). s.jit_mode)
    emit_stack mode
    emit1 0xe8
    emit4 5
    emit_jmp target_pc_exit
    skip

  -- The code after the last instruction, with the retpoline and the addresses of the helpers.
  unfoldable pub emit_epilogue : Emit Unit
  emit_epilogue = do
    modify (λ s. record s { exit_loc = s.offset })
    when (map_register 0 != rax) (emit_mov (map_register 0) rax)
    emit_mov rbp rsp
    emit_alu64_imm32 0x81 0 rsp 0x8
    emit_pops platform_nonvolatile_registers
    emit1 0xc3
    retpoline ← emit_retpoline
    modify (λ s. record s { retpoline_loc = retpoline })
    dispatcher ← emit_dispatched_external_helper_address
    modify (λ s. record s { dispatcher_loc = dispatcher })
    helper_table ← emit_helper_table
    modify (λ s. record s { helper_table_loc = helper_table })

  -- `translate`. The status is looked at before the epilogue, and not after it.
  unfoldable pub translate : Emit Translated
  translate = do
    emit_prologue
    in_array ← translate_insts false vm.num_insts 0
    status ← gets (λ (s : JitState). s.jit_status)
    if not in_array
        then pure stopped
        else if not (is_no_error status)
        then (do
          modify (λ s. record s { errmsg = translate_error s.jit_status s.errmsg })
          pure failed)
        else (do emit_epilogue; pure translated)
