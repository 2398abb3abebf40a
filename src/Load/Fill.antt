-- ===== src/Load/Fill.antt =====
-- What the loop of `ubpf_load` leaves: each instruction at its index, and the marks of the targets
-- of local calls.
use appclick_ubpf.Prelude.{ℕ, suc, ◌+◌, ◌≤◌, ◌<◌, ◌≡◌, refl, ◌⊎◌, inl, inr, ◌∙◌, ap}
use appclick_ubpf.Prelude.{false, ◌&&◌, Option, some, List, [], ◌∷◌, arith}
use appclick_ubpf.Prelude.{◌==◌, if◌then◌else◌, Bool-cases, Option-cases, length, get_elem?, set}
use appclick_ubpf.Prelude.{zero, length-set, ==_refl}
use appclick_ubpf.Isa.{Inst, IsInst, call, opcode_of}
use appclick_ubpf.Vm.{Vm, Code}
use appclick_ubpf.Code.{scramble, fetch_instruction, store_instruction}
use appclick_ubpf.Code.Laws.{HasCode, fetch-store}
use appclick_ubpf.Load.{mark_target, fill}
use appclick_ubpf.Validate.Correct.{IsFit}

-- What a mark leaves alone.
mark_target-same :
    (vm : Vm) (i : ℕ) (inst : Inst)
    → ((mark_target vm i inst).insts ≡ vm.insts)
      × ((mark_target vm i inst).pointer_secret ≡ vm.pointer_secret)
unfolding mark_target
mark_target-same vm i inst =
    elim (Bool-cases ((inst.opcode == opcode_of call) && (inst.src == 1))) [
      | inl local ↦ rw (local, mark_target) (refl, refl)
      | inr other ↦ rw (other, mark_target) (refl, refl)
    ]

fetch-mark_target :
    (vm : Vm) (i at : ℕ) (inst : Inst)
    → fetch_instruction (mark_target vm i inst) at ≡ fetch_instruction vm at
unfolding mark_target
fetch-mark_target vm i at inst =
    elim (Bool-cases ((inst.opcode == opcode_of call) && (inst.src == 1))) [
      | inl local ↦ rw (local, mark_target) (unfold fetch_instruction in refl)
      | inr other ↦ rw (other, mark_target) refl
    ]

-- The array after one round.
abbrev stored_at : Vm → Code → ℕ → Inst → Code
stored_at vm code i inst = record code {
  stored = set code.stored i (scramble code.address vm.pointer_secret inst);
}

-- One round of the loop.
abbrev pub round : Vm → ℕ → Inst → Vm
round vm i inst = store_instruction (mark_target vm i inst) i inst

mark_target-HasCode :
    (vm : Vm) (code : Code) (i : ℕ) (inst : Inst)
    → HasCode vm code
    → HasCode (mark_target vm i inst) code
mark_target-HasCode vm code i inst h = record {
  loaded = (mark_target-same vm i inst).0 ∙ h.loaded;
  address_fits = h.address_fits;
  secret_fits = rw ((mark_target-same vm i inst).1) h.secret_fits;
}

round-HasCode :
    (vm : Vm) (code : Code) (i : ℕ) (inst : Inst)
    → HasCode vm code
    → HasCode (round vm i inst) (stored_at vm code i inst)
unfolding store_instruction
round-HasCode vm code i inst h =
    let m = mark_target-HasCode vm code i inst h in
    rw (m.loaded, store_instruction, (mark_target-same vm i inst).1)
      (record { loaded = refl; address_fits = h.address_fits; secret_fits = h.secret_fits })

fetch-round :
    (vm : Vm) (code : Code) (i at : ℕ) (inst : Inst)
    → HasCode vm code
    → i < length code.stored
    → IsInst inst
    → fetch_instruction (round vm i inst) at
      ≡ (if i == at then some inst else fetch_instruction vm at)
fetch-round vm code i at inst h in_range fits =
    fetch-store (mark_target vm i inst) code i inst at (mark_target-HasCode vm code i inst h)
      in_range fits
    ∙ ap (λ (o : Option Inst). if i == at then some inst else o) (fetch-mark_target vm i at inst)

pub round-num_insts : (vm : Vm) (i : ℕ) (inst : Inst) → (round vm i inst).num_insts ≡ vm.num_insts
unfolding store_instruction
round-num_insts vm i inst = elim (Option-cases (mark_target vm i inst).insts) [
  | inl none_loaded ↦ rw (none_loaded, store_instruction) mark-num_insts
  | inr (code, loaded) ↦ rw (loaded, store_instruction) mark-num_insts
]
  where
    mark-num_insts : (mark_target vm i inst).num_insts ≡ vm.num_insts
    mark-num_insts = elim (Bool-cases ((inst.opcode == opcode_of call) && (inst.src == 1))) [
      | inl local ↦ unfold mark_target in rw local refl
      | inr other ↦ unfold mark_target in rw other refl
    ]

-- The loop touches no index outside its range.
pub fill_outside :
    (rest : List Inst) (vm : Vm) (code : Code) (i at : ℕ)
    → IsFit rest
    → HasCode vm code
    → i + length rest ≤ length code.stored
    → (at < i) ⊎ (i + length rest ≤ at)
    → fetch_instruction (fill vm i rest) at ≡ fetch_instruction vm at
unfolding fill
fill_outside [] vm code i at fit h room out = refl
fill_outside (x ∷ xs) vm code i at fit h room out =
    let code' = stored_at vm code i x in
    let room' : i + 1 + length xs ≤ length code'.stored =
      omega (arith, length-set code.stored i (scramble code.address vm.pointer_secret x)) in
    let out' : (at < i + 1) ⊎ (i + 1 + length xs ≤ at) = omega arith in
    let apart : (i == at) ≡ false = ground arith in
    fill_outside xs (round vm i x) code' (i + 1) at (λ j y e. fit (suc j) y e)
      (round-HasCode vm code i x h) room' out'
    ∙ fetch-round vm code i at x h (omega arith) (fit 0 x refl)
    ∙ rw apart refl

-- Inside the range it leaves the instructions in their order.
pub fill_inside :
    (rest : List Inst) (vm : Vm) (code : Code) (i n : ℕ)
    → IsFit rest
    → HasCode vm code
    → i + length rest ≤ length code.stored
    → n < length rest
    → fetch_instruction (fill vm i rest) (i + n) ≡ get_elem? rest n
unfolding fill
fill_inside [] vm code i n fit h room lt = absurd (omega arith)
fill_inside (x ∷ xs) vm code i zero fit h room lt =
    let code' = stored_at vm code i x in
    let here : i + 0 ≡ i = omega arith in
    let room' : i + 1 + length xs ≤ length code'.stored =
      omega (arith, length-set code.stored i (scramble code.address vm.pointer_secret x)) in
    rw here (
      fill_outside xs (round vm i x) code' (i + 1) i (λ j y e. fit (suc j) y e)
        (round-HasCode vm code i x h) room' (inl (omega arith))
      ∙ fetch-round vm code i i x h (omega arith) (fit 0 x refl)
      ∙ rw (==_refl i) refl)
fill_inside (x ∷ xs) vm code i (suc k) fit h room lt =
    let code' = stored_at vm code i x in
    let there : i + suc k ≡ i + 1 + k = omega arith in
    let room' : i + 1 + length xs ≤ length code'.stored =
      omega (arith, length-set code.stored i (scramble code.address vm.pointer_secret x)) in
    rw there (
      fill_inside xs (round vm i x) code' (i + 1) k (λ j y e. fit (suc j) y e)
        (round-HasCode vm code i x h) room' (omega arith))
