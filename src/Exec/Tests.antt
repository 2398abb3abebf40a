-- ===== src/Exec/Tests.antt =====
-- The interpreter of libs/ubpf/vm/ubpf_vm.c on a small program.
use mathlib.Core.Path.{subst}
use appclick_ubpf.Prelude.{sym, true, none}
use appclick_ubpf.Validate.Spec.{IsValidProgram}
use appclick_ubpf.Validate.Sample.{fresh_valid}
use appclick_ubpf.Load.{load, insts_of}
use appclick_ubpf.Load.Correct.{CanLoad, load_correct}
use appclick_ubpf.Exec.Loaded.{run_of, loaded_runs_safely}
use appclick_ubpf.Sample.{fresh, bytes, room}
use appclick_ubpf.Prelude.{ℕ, ◌<◌, ◌≡◌, ◌≢◌, refl, inl, inr, some}
use appclick_ubpf.Prelude.{leb, arith, Bool-cases}
use appclick_ubpf.Isa.Encoding.{inst_of}
use appclick_ubpf.Memory.{Memory}
use appclick_ubpf.Vm.{create}
use appclick_ubpf.Machine.{Outcome, fault, start, Leads}
use appclick_ubpf.Perform.{external_function}
use appclick_ubpf.Exec.{exec_ex, step}
use appclick_ubpf.Sample.{machine, insts}
use appclick_ubpf.Exec.Sample.{run, first, zeros}
use appclick_ubpf.Exec.Fuel.{exec_ex_ends}
use appclick_ubpf.Exec.Faultless.{IsSurrounded}
use appclick_ubpf.Exec.Fits.{step_fits}
use appclick_ubpf.Exec.Ranges.{IsFitRun, IsState, IsFitOutcome}

limited : run.vm.instruction_limit ≢ 0
unfolding run machine
limited e = absurd (omega arith)

exec_ex_ends_example :
    (o : Outcome) × ((fuel : ℕ)
      → run.vm.instruction_limit < fuel
      → exec_ex run (λ _. 0) zeros fuel ≡ some o)
exec_ex_ends_example = exec_ex_ends run (λ _. 0) zeros limited

no_function :
    (index : ℕ) (f : ℕ → ℕ → ℕ → ℕ → ℕ → Memory → ℕ × Memory) → external_function run index ≢ some f
unfolding external_function run machine create
no_function index f e = elim (Bool-cases (leb 64 index)) [
  | inl h ↦ cc (rw h at e)
  | inr h ↦ cc (rw h at e)
]

run-IsFitRun : IsFitRun run
unfolding run machine create
run-IsFitRun = record {
  usages_fit = λ pc. omega arith;
  answers_fit = λ index f e. absurd (no_function index f e);
}

first-IsState : IsState first
unfolding first run start machine create
first-IsState = record {
  pc_fits = omega arith;
  regs_fit = λ r. ground arith;
  depth = omega arith;
  frames_fit = λ k. record {
    usage_fits = omega arith;
    return_fits = omega arith;
    saved_fit = λ _. omega arith;
  };
  mask_fits = omega arith;
  shadow_fits = λ k. omega arith;
  previous_fits = record {
    opcode_fits = omega arith;
    dst_fits = omega arith;
    src_fits = omega arith;
    offset_fits = omega arith;
    imm_fits = omega arith;
  };
  limit_fits = omega arith;
  bytes = λ x b e. ground arith;
}

step_fits_example : Leads IsState IsFitOutcome (step run first)
step_fits_example = step_fits run first run-IsFitRun first-IsState

read_back : insts_of bytes ≡ insts
unfolding insts_of inst_of
read_back = refl

fresh-CanLoad : CanLoad fresh bytes room
unfolding fresh create insts_of
fresh-CanLoad = record {
  empty = refl;
  whole = refl;
  room = refl;
  address_fits = omega arith;
  secret_fits = omega arith;
}

accepted : (load fresh bytes (some room) true).1 ≡ none
accepted =
    ((load_correct fresh bytes room fresh-CanLoad).0).1
      (subst (IsValidProgram fresh) (sym read_back) fresh_valid)

fresh-IsSurrounded : IsSurrounded (run_of fresh run.regions) zeros
unfolding run fresh create external_function
fresh-IsSurrounded = record {
  checked = refl;
  mem_region = omega arith;
  stack_region = omega arith;
  shadowed = inl refl;
  mem_mapped = λ x p q. (0, refl);
  stack_mapped = λ x p q. (0, refl);
  accepted_mapped = λ addr size e. absurd (cc);
  external_covers = λ index f e.
      absurd (elim (Bool-cases (leb 64 index)) [ inl h ↦ cc (rw h at e) | inr h ↦ cc (rw h at e) ]);
}

fresh_limited : fresh.instruction_limit ≢ 0
unfolding fresh
fresh_limited e = absurd (omega arith)

loaded_runs_safely_example :
    (o : Outcome) × (o ≢ fault)
    × ((fuel : ℕ)
        → fresh.instruction_limit < fuel
        → exec_ex (run_of (load fresh bytes (some room) true).0 run.regions) (λ _. 0) zeros fuel
          ≡ some o)
loaded_runs_safely_example =
    loaded_runs_safely fresh bytes room run.regions (λ _. 0) zeros fresh-CanLoad accepted
      fresh-IsSurrounded fresh_limited
