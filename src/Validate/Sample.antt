-- ===== src/Validate/Sample.antt =====
-- The sample program is accepted by `validate` of libs/ubpf/vm/ubpf_vm.c.
use mathlib.Core.Path.{subst}
use appclick_ubpf.Prelude.{zero, suc, ◌^◌, ◌≡◌, refl, none, List, [], ◌∷◌, arith}
use appclick_ubpf.Prelude.{Bool, true, false, ◌&&◌, ltb}
use appclick_ubpf.Isa.{Inst, IsInst, decode, cases, find_case, opcode_of}
use appclick_ubpf.StackUsage.{calculate_stack_usage_for_local_func, calculated}
use appclick_ubpf.Vm.{create}
use appclick_ubpf.Validate.{
  validate, check_from, check_inst, check_op, check_registers, check_call, check_local_target,
}
use appclick_ubpf.Validate.Spec.{IsValidProgram}
use appclick_ubpf.Validate.Correct.{IsFit, validate_iff}
use appclick_ubpf.Sample.{fresh, machine, insts}

abbrev is_fit : Inst → Bool
is_fit i =
    ltb i.opcode (2 ^ 8)
    && (ltb i.dst (2 ^ 4) && (ltb i.src (2 ^ 4) && (ltb i.offset (2 ^ 16) && ltb i.imm (2 ^ 32))))

abbrev all_fit : List Inst → Bool
all_fit [] = true
all_fit (x ∷ xs) = is_fit x && all_fit xs

is_fit-IsInst : (i : Inst) → is_fit i ≡ true → IsInst i
is_fit-IsInst i h = record {
  opcode_fits = ground arith;
  dst_fits = ground arith;
  src_fits = ground arith;
  offset_fits = ground arith;
  imm_fits = ground arith;
}

both_true : (a b : Bool) → (a && b) ≡ true → (a ≡ true) × (b ≡ true)
both_true true true h = (refl, refl)
both_true true false h = absurd (cc)
both_true false b h = absurd (cc)

all_fit-IsFit : (xs : List Inst) → all_fit xs ≡ true → IsFit xs
all_fit-IsFit [] h j inst e = absurd (cc)
all_fit-IsFit (x ∷ xs) h zero inst e =
    let same : x ≡ inst = cc in subst IsInst same (is_fit-IsInst x (both_true _ _ h).0)
all_fit-IsFit (x ∷ xs) h (suc j) inst e = all_fit-IsFit xs (both_true (is_fit x) _ h).1 j inst e

pub insts-IsFit : IsFit insts
insts-IsFit = all_fit-IsFit insts refl

pub accepted : (validate machine insts).1 ≡ none
unfolding validate check_from check_inst check_op check_registers check_call check_local_target
    calculate_stack_usage_for_local_func calculated machine create decode cases find_case opcode_of
accepted = refl

pub valid : IsValidProgram machine insts
valid = (validate_iff machine insts insts-IsFit).0 accepted

fresh_accepted : (validate fresh insts).1 ≡ none
unfolding validate check_from check_inst check_op check_registers check_call check_local_target
    calculate_stack_usage_for_local_func calculated fresh create decode cases find_case opcode_of
fresh_accepted = refl

pub fresh_valid : IsValidProgram fresh insts
fresh_valid = (validate_iff fresh insts insts-IsFit).0 fresh_accepted
