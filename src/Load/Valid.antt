-- ===== src/Load/Valid.antt =====
-- A program that `ubpf_load` of libs/ubpf/vm/ubpf_vm.c has accepted is valid in the machine that
-- holds it.
use appclick_ubpf.Prelude.{
  ℕ, ◌+◌, ◌≡◌, refl, inl, inr, ◌∙◌, true, none, some, Option, List, [], ◌∷◌, length,
}
use appclick_ubpf.Prelude.{Bool, ◌&&◌, ◌==◌, Bool-cases, Option-cases}
use appclick_ubpf.Isa.{Inst, call, opcode_of}
use appclick_ubpf.Vm.{Vm, Code}
use appclick_ubpf.Code.{store_instruction}
use appclick_ubpf.StackUsage.{calculated}
use appclick_ubpf.Validate.{validate}
use appclick_ubpf.Validate.Spec.{IsValidProgram}
use appclick_ubpf.Validate.View.{
  SameView, SameView-refl, SameView-trans, SameView-sym, SameView-IsValidInst, validate-SameView,
}
use appclick_ubpf.Validate.Correct.{validate_iff}
use appclick_ubpf.Load.{insts_of, fill, load, mark_target}
use appclick_ubpf.Load.Fill.{round}
use appclick_ubpf.Load.Correct.{CanLoad, load_correct, prepared, load-valid, insts_of-IsFit}

-- The parts of a machine that loading writes are none of those that the validation reads.
written_SameView :
    (vm : Vm) (code : Option Code) (count : ℕ) (targets : List Bool)
    → SameView vm (record vm { insts = code; num_insts = count; int_funcs = targets })
unfolding calculated
written_SameView vm code count targets = record {
  callable = λ n. refl;
  aligned = λ t. refl;
  secret = refl;
  same_options = refl;
}

mark_target-SameView : (vm : Vm) (i : ℕ) (inst : Inst) → SameView vm (mark_target vm i inst)
unfolding mark_target
mark_target-SameView vm i inst =
    elim (Bool-cases ((inst.opcode == opcode_of call) && (inst.src == 1))) [
      | inl e ↦ rw (e, mark_target) (written_SameView vm vm.insts vm.num_insts _)
      | inr e ↦ rw (e, mark_target) (SameView-refl vm)
    ]

store-SameView : (vm : Vm) (i : ℕ) (inst : Inst) → SameView vm (store_instruction vm i inst)
unfolding store_instruction
store-SameView vm i inst = elim (Option-cases vm.insts) [
  | inl e ↦ simp (e, store_instruction) (SameView-refl vm)
  | inr (code, e) ↦ simp (e, store_instruction) (written_SameView vm _ vm.num_insts vm.int_funcs)
]

fill-SameView : (rest : List Inst) (vm : Vm) (i : ℕ) → SameView vm (fill vm i rest)
unfolding fill
fill-SameView [] vm i = SameView-refl vm
fill-SameView (x ∷ xs) vm i = SameView-trans (mark_target-SameView vm i x) (
    SameView-trans (store-SameView (mark_target vm i x) i x)
      (fill-SameView xs (round vm i x) (i + 1)))

-- Validity depends on what stays the same.
SameView-IsValidProgram :
    (vm vm' : Vm) (insts : List Inst)
    → SameView vm vm'
    → IsValidProgram vm insts
    → IsValidProgram vm' insts
SameView-IsValidProgram vm vm' insts same v = record {
  fits = v.fits;
  main_usage = same.aligned 0 ∙ v.main_usage;
  each = λ j inst s at.
      SameView-IsValidInst insts vm' j inst vm (SameView-sym same) (v.each j inst s at);
}

-- Loading changes none of it, and the program is valid in the machine that comes out.
pub load-SameView :
    (vm : Vm) (code : List ℕ) (memory : Code)
    → CanLoad vm code memory
    → (load vm code (some memory) true).1 ≡ none
    → SameView vm (load vm code (some memory) true).0
load-SameView vm code memory can ok =
    let insts = insts_of code in
    let before = ((load_correct vm code memory can).0).0 ok in
    let accepted : (validate vm insts).1 ≡ none =
      (validate_iff vm insts (insts_of-IsFit code)).1 before in
    let after = (validate vm insts).0 in
    rw (load-valid vm code memory can accepted) (
      SameView-trans (validate-SameView vm insts) (
        SameView-trans (written_SameView after (some memory) _ _)
          (fill-SameView insts (prepared after memory (length insts)) 0)))

pub load-IsValidProgram :
    (vm : Vm) (code : List ℕ) (memory : Code)
    → CanLoad vm code memory
    → (load vm code (some memory) true).1 ≡ none
    → IsValidProgram (load vm code (some memory) true).0 (insts_of code)
load-IsValidProgram vm code memory can ok =
    SameView-IsValidProgram vm _ (insts_of code) (load-SameView vm code memory can ok)
      (((load_correct vm code memory can).0).0 ok)
