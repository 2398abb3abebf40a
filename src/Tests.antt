-- ===== src/Tests.antt =====
-- The theorems on libs/ubpf/vm/ubpf_vm.c at concrete inputs.
use appclick_ubpf.Prelude.{ℕ, ◌+◌, ◌-◌, ◌%◌, ◌^◌, ◌≤◌, ◌<◌, ◌≡◌, ◌≢◌, ◌↔◌, ◌⊎◌, inl, refl, arith}
use appclick_ubpf.Prelude.{true, false, none, some, List, [], ◌∷◌, ◌==◌, if◌then◌else◌, not}
use appclick_ubpf.Words.{u32, signed32, signed64, i64}
use appclick_ubpf.Isa.{Inst, IsInst, decode, opcode_of, exit, jsgt, jset, w32, w64, add, arsh}
use appclick_ubpf.Isa.{cases, find_case}
use appclick_ubpf.Isa.Decode.{decode_iff}
use appclick_ubpf.Memory.{Memory, mem_load, mem_store, is_aligned, store_aligned, write_bytes}
use appclick_ubpf.Memory.Laws.{two, mem_load-mem_store}
use appclick_ubpf.Vm.{ebpf_stack_size, Vm, Code, create, max_ext_funcs}
use appclick_ubpf.Vm.Laws.{has_name, lookup_iff}
use appclick_ubpf.Vm.Config.{lookup_registered_function, register_stack_usage_calculator}
use appclick_ubpf.StackUsage.{calculate_stack_usage_for_local_func, stack_usage_for_local_func}
use appclick_ubpf.StackUsage.Laws.{usage_outlives_program, default_lost}
use appclick_ubpf.Code.{fetch_instruction, store_instruction}
use appclick_ubpf.Code.Laws.{HasCode, fetch-store}
use appclick_ubpf.Validate.{validate}
use appclick_ubpf.Validate.Spec.{IsValidProgram}
use appclick_ubpf.Validate.Correct.{validate_iff}
use appclick_ubpf.Validate.Sample.{insts-IsFit}
use appclick_ubpf.Load.{load, insts_of, unload_code}
use appclick_ubpf.Load.Correct.{CanLoad, Holds, load_correct}
use appclick_ubpf.Alu.{alu32, alu64, to_be, to_le, shift_mask_32, shift_mask_64}
use appclick_ubpf.Alu.Low.{alu32_low}
use appclick_ubpf.Alu.Bytes.{to_be-to_be}
use appclick_ubpf.Alu.Signed.{floor_div, arsh-floor_div}
use appclick_ubpf.Jump.{holds}
use appclick_ubpf.Jump.Laws.{opposite, holds_opposite, holds_widths}
use appclick_ubpf.Bounds.{Regions, bounds_check, is_accepted}
use appclick_ubpf.Bounds.Laws.{Inside, bounds_check_iff}
use appclick_ubpf.Shadow.{
  mark_stays, mark_bits_stay, check_shadow_stack, mark_shadow_stack, validate_shadow_register,
}
use appclick_ubpf.Shadow.Stack.{marked, check-mark_iff}
use appclick_ubpf.Shadow.Registers.{is_ready, validated_iff}
use appclick_ubpf.Sample.{machine, insts}

abbrev regions : Regions
regions = record { mem = 0x1000; mem_len = 64; stack_start = 0x2000; stack_length = 512 }

abbrev exit_inst : Inst
exit_inst = record { opcode = 0x95; dst = 0; src = 0; offset = 0; imm = 0 }

validate_iff_example : ((validate machine insts).1 ≡ none) ↔ IsValidProgram machine insts
validate_iff_example = validate_iff machine insts insts-IsFit

-- mov64 r0, 7; exit
abbrev bytes : List ℕ
bytes = 0xb7 ∷ 0 ∷ 0 ∷ 0 ∷ 7 ∷ 0 ∷ 0 ∷ 0 ∷ 0x95 ∷ 0 ∷ 0 ∷ 0 ∷ 0 ∷ 0 ∷ 0 ∷ 0 ∷ []

abbrev room : Code
room = record { address = 0x4000; stored = exit_inst ∷ exit_inst ∷ [] }

create-CanLoad : CanLoad create bytes room
unfolding create insts_of
create-CanLoad = record {
  empty = refl;
  whole = refl;
  room = refl;
  address_fits = omega arith;
  secret_fits = omega arith;
}

load_correct_example :
    (((load create bytes (some room) true).1 ≡ none) ↔ IsValidProgram create (insts_of bytes))
    × ((load create bytes (some room) true).1 ≡ none
        → Holds (load create bytes (some room) true).0 (insts_of bytes))
load_correct_example = load_correct create bytes room create-CanLoad

decode_iff_example : (decode 0x95 ≡ some exit) ↔ (opcode_of exit ≡ 0x95)
decode_iff_example = decode_iff 0x95 exit

abbrev ready : Code
ready = record { address = 0; stored = insts }

machine-HasCode : HasCode machine ready
unfolding machine create
machine-HasCode = record { loaded = refl; address_fits = omega arith; secret_fits = omega arith }

exit_inst-IsInst : IsInst exit_inst
exit_inst-IsInst = record {
  opcode_fits = omega arith;
  dst_fits = omega arith;
  src_fits = omega arith;
  offset_fits = omega arith;
  imm_fits = omega arith;
}

fetch-store_example :
    fetch_instruction (store_instruction machine 2 exit_inst) 2
    ≡ (if 2 == 2 then some exit_inst else fetch_instruction machine 2)
fetch-store_example =
    fetch-store machine ready 2 exit_inst 2 machine-HasCode (omega arith) exit_inst-IsInst

abbrev zeros : Memory
zeros = λ _. some 0

abbrev written : Memory
written = λ x. if 0x1003 == x then some 1 else if 0x1002 == x then some 2 else some 0

stored : mem_store zeros 0x1002 258 2 ≡ some written
unfolding mem_store is_aligned store_aligned write_bytes
stored = refl

mem_load-mem_store_example :
    (mem_load written 0x1002 2 ≡ some (258 % 256 ^ 2))
    × ((x : ℕ) → (x < 0x1002) ⊎ (0x1002 + 2 ≤ x) → written x ≡ zeros x)
mem_load-mem_store_example = mem_load-mem_store zeros 0x1002 258 written two stored

create-checked : create.bounds_check_enabled ≡ true
unfolding create
create-checked = refl

bounds_check_iff_example : (bounds_check create regions 0x1038 8 ≡ true) ↔ (
    (0x1038 + 8 < 2 ^ 64)
    × (Inside 0x1038 8 0x1000 64
        ⊎ (Inside 0x1038 8 0x2000 512 ⊎ (is_accepted create 0x1038 8 ≡ true))))
bounds_check_iff_example =
    bounds_check_iff create regions 0x1038 8 create-checked (omega arith) (omega arith)
      (omega arith) (omega arith) (omega arith)

alu32_low_example : alu32 add (u32 0x1ffffffff) (u32 1) ≡ alu32 add 0x1ffffffff 1
alu32_low_example = alu32_low add 0x1ffffffff 1 (omega arith) (omega arith)

arsh-floor_div_example :
    (signed64 (alu64 arsh 0xffffffff80000001 1)
      ≡ floor_div (signed64 0xffffffff80000001) (2 ^ shift_mask_64 1))
    × (signed32 (alu32 arsh 0xffffffff80000001 1)
        ≡ floor_div (signed32 (u32 0xffffffff80000001)) (2 ^ shift_mask_32 1))
arsh-floor_div_example = arsh-floor_div 0xffffffff80000001 1 (omega arith)

to_be-to_be_example : to_be 16 (to_be 16 0x12345) ≡ to_le 16 0x12345
to_be-to_be_example = to_be-to_be 16 0x12345 (inl refl) (omega arith)

jsgt_not_jset : jsgt ≢ jset
jsgt_not_jset e = cc

holds_opposite_example :
    holds w32 (opposite jsgt) 5 (2 ^ 32 - 1) ≡ not (holds w32 jsgt 5 (2 ^ 32 - 1))
holds_opposite_example = holds_opposite w32 jsgt 5 (2 ^ 32 - 1) jsgt_not_jset

holds_widths_example :
    holds w64 jsgt (i64 5) (i64 (2 ^ 32 - 1)) ≡ holds w32 jsgt (i64 5) (i64 (2 ^ 32 - 1))
holds_widths_example = holds_widths jsgt 5 (2 ^ 32 - 1) (omega arith) (omega arith) jsgt_not_jset

-- The machine with the undefined behaviour checks.
abbrev strict : Vm
strict = record create { undefined_behavior_check_enabled = true }

check-mark_iff_example :
    (check_shadow_stack strict regions (mark_shadow_stack strict regions (λ _. 0) 0x2010 8) 0x2014 8
      ≡ true)
    ↔ ((x : ℕ)
        → 0x2014 ≤ x
        → x < 0x2014 + 8
        → ((0x2010 ≤ x) × (x < 0x2010 + 8)) ⊎ (marked (λ _. 0) (x - 0x2000) ≡ 1))
check-mark_iff_example =
    check-mark_iff strict regions (λ _. 0) 0x2010 8 0x2014 8 refl (omega arith)
      (omega arith, omega arith) (omega arith, omega arith)

-- A stack of twelve bytes has a shadow of one: a mark of the last four bytes leaves it.
mark_leaves : mark_stays strict (record regions { stack_length = 12 }) 0x2008 4 ≡ false
unfolding mark_stays mark_bits_stay
mark_leaves = refl

exit_known : decode exit_inst.opcode ≡ some exit
unfolding decode cases find_case opcode_of
exit_known = refl

validated_iff_example :
    ((m : ℕ) × (validate_shadow_register strict 1 exit_inst ≡ some m))
    ↔ (is_ready exit 1 exit_inst ≡ true)
validated_iff_example = validated_iff strict 1 exit_inst exit refl exit_known

-- A machine that knows the usage of the main function.
abbrev asked : Vm
asked = record create {
  local_func_stack_usage = λ _. record { stack_usage_calculated = true; stack_usage = 64 };
}

usage_outlives_program_example :
    stack_usage_for_local_func
      (calculate_stack_usage_for_local_func
        (register_stack_usage_calculator (unload_code asked) (some (λ _ _. 32)) 0)
        0).0
      0
    ≡ stack_usage_for_local_func asked 0
usage_outlives_program_example = usage_outlives_program asked (some (λ _ _. 32)) 0 0 refl

abbrev named : Vm
named = record create { ext_func_names = λ i. if i == 3 then some "map_lookup" else none }

lookup_iff_example : (lookup_registered_function named "map_lookup" ≡ 3) ↔ (
    (3 < max_ext_funcs)
    × (has_name named "map_lookup" 3 ≡ true)
    × ((k : ℕ) → k < 3 → has_name named "map_lookup" k ≡ false))
lookup_iff_example = lookup_iff named "map_lookup" 3 (omega arith)

create-absent : create.stack_usage_calculator ≡ none
unfolding create
create-absent = refl

create-fresh :
    create.local_func_stack_usage 0 ≡ record { stack_usage_calculated = false; stack_usage = 0 }
unfolding create
create-fresh = refl

default_lost_example :
    (stack_usage_for_local_func create 0 ≡ ebpf_stack_size)
    × (stack_usage_for_local_func (calculate_stack_usage_for_local_func create 0).0 0 ≡ 0)
default_lost_example = default_lost create 0 create-absent create-fresh
