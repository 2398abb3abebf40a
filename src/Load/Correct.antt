-- ===== src/Load/Correct.antt =====
-- What a successful load leaves in a machine.
use appclick_ubpf.Prelude.{
  ℕ, zero, suc, ◌*◌, ◌+◌, ◌%◌, ◌^◌, ◌≤◌, ◌<◌, ◌≡◌, refl, inl, inr, ◌↔◌, ◌∙◌, sym, ap,
}
use appclick_ubpf.Prelude.{true, false, none, some, List, [], ◌∷◌, arith}
use appclick_ubpf.Prelude.{ltb, Bool-cases, Option-cases, length, get_elem?}
use mathlib.Core.Path.{subst}
use appclick_ubpf.Isa.{Inst, IsInst}
use appclick_ubpf.Isa.Encoding.{inst_of-IsInst}
use appclick_ubpf.Vm.{Vm, Code}
use appclick_ubpf.Code.{fetch_instruction}
use appclick_ubpf.Code.Laws.{HasCode}
use appclick_ubpf.Validate.{ValidateError, validate}
use appclick_ubpf.Validate.Spec.{IsValidProgram}
use appclick_ubpf.Validate.Correct.{IsFit, validate_iff}
use appclick_ubpf.Validate.View.{validate-SameView}
use appclick_ubpf.Load.{insts_of, replicate, invalid_program, fill, install, load}
use appclick_ubpf.Load.Fill.{round, round-num_insts, fill_outside, fill_inside}

-- Instructions read from bytes fit their fields.
pub insts_of-IsFit : (code : List ℕ) → IsFit (insts_of code)
unfolding insts_of
insts_of-IsFit (a ∷ b ∷ c ∷ d ∷ e ∷ f ∷ g ∷ h ∷ rest) zero inst eq = subst IsInst (cc) (
    inst_of-IsInst
      (a + 2 ^ 8 * b + 2 ^ 16 * c + 2 ^ 24 * d + 2 ^ 32 * e + 2 ^ 40 * f + 2 ^ 48 * g + 2 ^ 56 * h))
insts_of-IsFit (a ∷ b ∷ c ∷ d ∷ e ∷ f ∷ g ∷ h ∷ rest) (suc j) inst eq =
    insts_of-IsFit rest j inst eq
insts_of-IsFit _ j inst eq = cc

-- What the program needs of its surroundings: nothing is loaded, the code is whole instructions,
-- and the memory given for it has their size. What lies in that memory does not matter.
pub record CanLoad (vm : Vm) (code : List ℕ) (memory : Code) : Type 0 where
  pub empty : vm.insts ≡ none
  pub whole : length code % 8 ≡ 0
  pub room : length memory.stored ≡ length (insts_of code)
  pub address_fits : memory.address < 2 ^ 64
  pub secret_fits : vm.pointer_secret < 2 ^ 64

-- The machine that holds a program.
abbrev pub Holds : Vm → List Inst → Type 0
Holds vm insts =
    (vm.num_insts ≡ length insts) × ((pc : ℕ) → fetch_instruction vm pc ≡ get_elem? insts pc)

fill-num_insts : (rest : List Inst) (vm : Vm) (i : ℕ) → (fill vm i rest).num_insts ≡ vm.num_insts
unfolding fill
fill-num_insts [] vm i = refl
fill-num_insts (x ∷ xs) vm i = fill-num_insts xs (round vm i x) (i + 1) ∙ round-num_insts vm i x

get_elem?-none {ℓ} : {A : Type ℓ} (xs : List A) (i : ℕ) → length xs ≤ i → get_elem? xs i ≡ none
get_elem?-none [] i h = refl
get_elem?-none (x ∷ xs) zero h = absurd (omega arith)
get_elem?-none (x ∷ xs) (suc i) h = get_elem?-none xs i (omega arith)

fetch-outside :
    (vm : Vm) (code : Code) (pc : ℕ)
    → HasCode vm code
    → length code.stored ≤ pc
    → fetch_instruction vm pc ≡ none
unfolding fetch_instruction
fetch-outside vm code pc h out =
    rw (h.loaded, fetch_instruction) (ground (arith, get_elem?-none code.stored pc))

-- The loop over an array of the right size.
fill-Holds :
    (vm : Vm) (code : Code) (insts : List Inst)
    → IsFit insts
    → HasCode vm code
    → length code.stored ≡ length insts
    → vm.num_insts ≡ length insts
    → Holds (fill vm 0 insts) insts
fill-Holds vm code insts fit h room count = (
  fill-num_insts insts vm 0 ∙ count,
  λ pc. elim (Bool-cases (ltb pc (length insts))) [
    | inl inside ↦
        let e : pc ≡ 0 + pc = omega arith in
        ap (fetch_instruction (fill vm 0 insts)) e
        ∙ fill_inside insts vm code 0 pc fit h (omega arith) (ground arith)
    | inr outside ↦
        fill_outside insts vm code 0 pc fit h (omega arith) (inr (ground arith))
        ∙ fetch-outside vm code pc h (ground arith)
        ∙ sym (get_elem?-none insts pc (ground arith))
  ],
)

-- The machine when the loop begins.
abbrev pub prepared : Vm → Code → ℕ → Vm
prepared vm memory count = record vm {
  insts = some memory;
  num_insts = count % 2 ^ 16;
  int_funcs = replicate (count % 2 ^ 16) false;
}

pub load-valid :
    (vm : Vm) (code : List ℕ) (memory : Code)
    → CanLoad vm code memory
    → (validate vm (insts_of code)).1 ≡ none
    → load vm code (some memory) true ≡ (
      fill
          (prepared (validate vm (insts_of code)).0 memory (length (insts_of code)))
          0
          (insts_of code),
      none,
    )
unfolding load install
load-valid vm code memory can ok = simp (can.empty, load, can.whole, ok, install)

load-invalid :
    (vm : Vm) (code : List ℕ) (memory : Code) (e : ValidateError)
    → CanLoad vm code memory
    → (validate vm (insts_of code)).1 ≡ some e
    → (load vm code (some memory) true).1 ≡ some (invalid_program e)
unfolding load
load-invalid vm code memory e can bad = simp (can.empty, load, can.whole, bad)

-- For a machine without a program, bytes that are whole instructions, and room of their size at a
-- 64-bit address: `ubpf_load` succeeds exactly if the program is valid in the sense of the
-- specification. And after a success the machine holds the program: its length, and at each
-- program counter the instruction of the bytes, nothing behind its end. What the room holds before
-- does not matter.
pub load_correct :
    (vm : Vm) (code : List ℕ) (memory : Code)
    → CanLoad vm code memory
    → (((load vm code (some memory) true).1 ≡ none) ↔ IsValidProgram vm (insts_of code))
      × ((load vm code (some memory) true).1 ≡ none
          → Holds (load vm code (some memory) true).0 (insts_of code))
load_correct vm code memory can =
    let insts = insts_of code in
    let fit = insts_of-IsFit code in
    let verdict = validate_iff vm insts fit in
    elim (Option-cases (validate vm insts).1) [
      | inl ok ↦
          let vm' = (validate vm insts).0 in
          let small = (verdict.0 ok).fits in
          let ready : HasCode (prepared vm' memory (length insts)) memory = record {
            loaded = refl;
            address_fits = can.address_fits;
            secret_fits = rw ((validate-SameView vm insts).secret) can.secret_fits;
          } in
          rw (load-valid vm code memory can ok) (
            ((λ _. verdict.0 ok), (λ _. refl)),
            λ _.
                fill-Holds (prepared vm' memory (length insts)) memory insts fit ready can.room
                  (omega arith),
          )
      | inr (e, bad) ↦
          let refused = load-invalid vm code memory e can bad in
          (((λ h. cc), (λ valid. cc (verdict.1 valid))), λ h. cc)
    ]
