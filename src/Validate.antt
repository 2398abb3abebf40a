-- ===== src/Validate.antt =====
-- `validate` of libs/ubpf/vm/ubpf_vm.c: the checks that a program passes before it is loaded.
pub mod Spec
pub mod View
pub mod Cover
pub mod Step
pub mod Correct
pub mod Sample
use appclick_ubpf.Prelude.{ℕ, ◌+◌, ◌-◌, ◌^◌, Bool, true, false, not, ◌&&◌, ◌||◌, Option, none, some}
use appclick_ubpf.Prelude.{List, [], ◌∷◌, ◌==◌, ◌!=◌, ltb, leb, if◌then◌else◌, length, get_elem?}
use appclick_ubpf.Words.{u32, ℤ, pos, negsuc, sub_ℕ, signed32}
use appclick_ubpf.Isa.{
  Inst, w64, mov, Op, alu, neg, le, be, ldx, st, stx, lddw, ja, jump, call, exit,
}
use appclick_ubpf.Isa.{decode}
use appclick_ubpf.Vm.{Vm, max_insts, max_ext_funcs}
use appclick_ubpf.StackUsage.{calculate_stack_usage_for_local_func}

-- The messages, with the program counter that they name.
pub data ValidateError : Type 0 where
  too_many_instructions : ValidateError
  improperly_sized_stack_use : ℕ → ValidateError
  invalid_endian_immediate : ℕ → ValidateError
  invalid_source_register_for_lddw : ℕ → ValidateError
  incomplete_lddw : ℕ → ValidateError
  infinite_loop : ℕ → ValidateError
  jump_out_of_bounds : ℕ → ValidateError
  jump_to_middle_of_lddw : ℕ → ValidateError
  invalid_call_immediate : ℕ → ValidateError
  call_to_nonexistent_function : ℕ → ValidateError
  call_target_out_of_bounds : ℕ → ValidateError
  call_by_btf_id : ℕ → ValidateError
  invalid_call_type : ℕ → ValidateError
  unknown_opcode : ℕ → ValidateError
  invalid_source_register : ℕ → ValidateError
  invalid_destination_register : ℕ → ValidateError

-- What the `switch` leaves: `store`, and whether it skips the next instruction (`i++`).
pub data Verdict : Type 0 where
  passed : (store skip : Bool) → Verdict
  rejected : ValidateError → Verdict

-- `base + offset`, the offset being an `int16_t`.
abbrev pub add_i16 : ℕ → ℕ → ℤ
add_i16 base offset =
    if ltb offset (2 ^ 15) then pos (base + offset) else sub_ℕ base (2 ^ 16 - offset)

module _ (insts : List Inst) where
  unfoldable check_endian : ℕ → Inst → Verdict
  check_endian i inst =
      if (inst.imm != 16) && ((inst.imm != 32) && (inst.imm != 64))
      then rejected (invalid_endian_immediate i)
      else passed false false

  -- `none` is an index from `num_insts` on.
  check_lddw : ℕ → Inst → Verdict
  check_lddw i inst =
      if inst.src != 0
      then rejected (invalid_source_register_for_lddw i)
      else elim (get_elem? insts (i + 1)) [
        | none ↦ rejected (incomplete_lddw i)
        | some next ↦ if next.opcode != 0 then rejected (incomplete_lddw i) else passed false true
      ]

  -- `none` is a target from `num_insts` on.
  check_target : ℕ → ℤ → Verdict
  check_target i (negsuc _) = rejected (jump_out_of_bounds i)
  check_target i (pos new_pc) = elim (get_elem? insts new_pc) [
    | none ↦ rejected (jump_out_of_bounds i)
    | some target ↦
        if target.opcode == 0 then rejected (jump_to_middle_of_lddw i) else passed false false
  ]

  check_jump : ℕ → Inst → Verdict
  unfolding check_target
  check_jump i inst =
      if inst.offset == 2 ^ 16 - 1
      then rejected (infinite_loop i)
      else check_target i (add_i16 (i + 1) inst.offset)

  is_null_function : Vm → ℕ → Bool
  is_null_function vm imm = elim (vm.ext_funcs imm) [ none ↦ true | some _ ↦ false ]

  check_external_call : Vm → ℕ → Inst → Verdict
  unfolding is_null_function
  check_external_call vm i inst =
      if leb (2 ^ 31) inst.imm || leb max_ext_funcs inst.imm
      then rejected (invalid_call_immediate i)
      else elim vm.dispatcher [
        | some _ ↦
            if not (vm.dispatcher_validate inst.imm)
            then rejected (call_to_nonexistent_function i)
            else passed false false
        | none ↦
            if is_null_function vm inst.imm
            then rejected (call_to_nonexistent_function i)
            else passed false false
      ]

  -- The target is an `int`.
  check_local_target : Vm → ℕ → ℤ → Vm × Verdict
  check_local_target vm i (negsuc _) = (vm, rejected (call_target_out_of_bounds i))
  check_local_target vm i (pos call_target) =
      if leb (length insts) call_target
      then (vm, rejected (call_target_out_of_bounds i))
      else (let (vm', aligned) = calculate_stack_usage_for_local_func vm call_target in
          (
            vm',
            if aligned
                then passed false false
                else rejected (improperly_sized_stack_use call_target),
          ))

  check_call : Vm → ℕ → Inst → Vm × Verdict
  unfolding check_external_call check_local_target
  check_call vm i inst =
      if inst.src == 0
      then (vm, check_external_call vm i inst)
      else if inst.src == 1
      then check_local_target vm i (signed32 (u32 (i + (inst.imm + 1))))
      else if inst.src == 2
      then (vm, rejected (call_by_btf_id i))
      else (vm, rejected (invalid_call_type i))

  -- The cases of the `switch`.
  check_op : Vm → ℕ → Inst → Op → Vm × Verdict
  unfolding check_endian check_lddw check_jump check_call
  check_op vm i inst (alu w64 mov s) = (vm, passed true false)
  check_op vm i inst (alu w o s) = (vm, passed false false)
  check_op vm i inst (neg w) = (vm, passed false false)
  check_op vm i inst le = (vm, check_endian i inst)
  check_op vm i inst be = (vm, check_endian i inst)
  check_op vm i inst (ldx z) = (vm, passed false false)
  check_op vm i inst (st z) = (vm, passed true false)
  check_op vm i inst (stx z) = (vm, passed true false)
  check_op vm i inst lddw = (vm, check_lddw i inst)
  check_op vm i inst ja = (vm, check_jump i inst)
  check_op vm i inst (jump w c s) = (vm, check_jump i inst)
  check_op vm i inst call = check_call vm i inst
  check_op vm i inst exit = (vm, passed false false)

  -- What is checked behind the `switch`; the messages name `i`, which a load has advanced.
  check_registers : ℕ → Inst → Verdict → Verdict
  check_registers i inst (rejected e) = rejected e
  check_registers i inst (passed store skip) =
      if ltb 10 inst.src
      then rejected (invalid_source_register (if skip then i + 1 else i))
      else if ltb 9 inst.dst && not (store && (inst.dst == 10))
      then rejected (invalid_destination_register (if skip then i + 1 else i))
      else passed store skip

  -- One round of the loop.
  unfoldable pub check_inst : Vm → ℕ → Inst → Vm × Verdict
  unfolding check_op check_registers
  check_inst vm i inst = elim (decode inst.opcode) [
    | none ↦ (vm, rejected (unknown_opcode i))
    | some op ↦
        (let (vm', verdict) = check_op vm i inst op in (vm', check_registers i inst verdict))
  ]

  -- The loop from index `i` on, over the instructions that are left. `skip` says that the round
  -- before has passed over this one. `none` is the end, where the program is accepted.
  unfoldable pub check_from : Vm → ℕ → List Inst → Bool → Vm × Option ValidateError
  check_from vm i [] skip = (vm, none)
  check_from vm i (inst ∷ rest) true = check_from vm (i + 1) rest false
  check_from vm i (inst ∷ rest) false =
      let (vm', verdict) = check_inst vm i inst in
      elim verdict [
        | rejected e ↦ (vm', some e)
        | passed store skip ↦ check_from vm' (i + 1) rest skip
      ]

-- `none` is acceptance. The machine comes back with the stack usages that were asked for.
unfoldable pub validate : Vm → List Inst → Vm × Option ValidateError
validate vm insts =
    if leb max_insts (length insts)
    then (vm, some too_many_instructions)
    else (let (vm', aligned) = calculate_stack_usage_for_local_func vm 0 in
        if not aligned
        then (vm', some (improperly_sized_stack_use 0))
        else check_from insts vm' 0 insts false)
