-- ===== src/Exec/Loaded.antt =====
-- From `ubpf_load` to `ubpf_exec_ex` (libs/ubpf/vm/ubpf_vm.c).
use appclick_ubpf.Prelude.{
  ℕ, inl, inr, ◌<◌, ◌≡◌, ◌≢◌, ◌∙◌, sym, ap, false, true, none, some, List, leb, if◌then◌else◌,
}
use mathlib.Core.Path.{subst}
use appclick_ubpf.Memory.{Memory}
use appclick_ubpf.Vm.{Vm, Code, max_ext_funcs}
use appclick_ubpf.Bounds.{Regions, is_accepted}
use appclick_ubpf.Validate.View.{SameView, Options}
use appclick_ubpf.Load.{insts_of, load}
use appclick_ubpf.Load.Correct.{CanLoad, load_correct}
use appclick_ubpf.Load.Valid.{load-SameView, load-IsValidProgram}
use appclick_ubpf.Machine.{Run, Outcome, fault}
use appclick_ubpf.Perform.{external_function}
use appclick_ubpf.Exec.{exec_ex}
use appclick_ubpf.Exec.Faultless.{IsSurrounded, IsSafeRun}
use appclick_ubpf.Exec.Safety.{exec_ex_safe}

abbrev pub run_of : Vm → Regions → Run
run_of vm regions = record { vm = vm; regions = regions }

accepted_same :
    (vm vm' : Vm) (addr size : ℕ)
    → SameView vm vm'
    → is_accepted vm' addr size ≡ is_accepted vm addr size
accepted_same vm vm' addr size same =
    ap (λ (o : Options). elim o.accepts [ none ↦ false | some f ↦ f o.accepts_data addr size ])
      same.same_options

function_same :
    (vm vm' : Vm) (regions : Regions) (index : ℕ)
    → SameView vm vm'
    → external_function (run_of vm' regions) index ≡ external_function (run_of vm regions) index
unfolding external_function
function_same vm vm' regions index same =
    ap
      (λ (o : Options). elim o.dispatches [
        | some dispatcher ↦ some (λ a b c d e. dispatcher a b c d e index regions.mem)
        | none ↦ if leb max_ext_funcs index then none else o.table index
      ])
      same.same_options

-- The surroundings of a run stay what they are when the machine only loads a program.
SameView-IsSurrounded :
    (vm vm' : Vm) (regions : Regions) (initial : Memory)
    → SameView vm vm'
    → IsSurrounded (run_of vm regions) initial
    → IsSurrounded (run_of vm' regions) initial
SameView-IsSurrounded vm vm' regions initial same s = record {
  checked = ap (λ (o : Options). o.checks_bounds) same.same_options ∙ s.checked;
  mem_region = s.mem_region;
  stack_region = s.stack_region;
  shadowed = elim s.shadowed [
    | inl off ↦ inl (ap (λ (o : Options). o.checks_undefined) same.same_options ∙ off)
    | inr whole ↦ inr whole
  ];
  mem_mapped = s.mem_mapped;
  stack_mapped = s.stack_mapped;
  accepted_mapped =
      λ addr size e. s.accepted_mapped addr size (sym (accepted_same vm vm' addr size same) ∙ e);
  external_covers =
      λ index f e. s.external_covers index f (sym (function_same vm vm' regions index same) ∙ e);
}

-- Whatever bytes are loaded into a machine without a program, with room of their size for the
-- instructions: if `ubpf_load` accepts them, the bounds check is on, an instruction limit is set, and
-- the undefined behaviour check is off or the length of the stack divisible by eight, then every run
-- of the machine that comes out ends in a value or the result -1, never in a crash: no access of
-- memory that is not mapped or behind the shadow stack, no call of a function that is not there, no
-- fetch outside the program. The memory and the stack do not wrap round the address space; they and
-- what the registered function accepts are mapped, and external functions unmap nothing. Any fuel
-- above the limit reaches the end.
pub loaded_runs_safely :
    (vm : Vm) (code : List ℕ) (room : Code) (regions : Regions) (garbage : ℕ → ℕ) (memory : Memory)
    → CanLoad vm code room
    → (load vm code (some room) true).1 ≡ none
    → IsSurrounded (run_of vm regions) memory
    → vm.instruction_limit ≢ 0
    → (o : Outcome) × (o ≢ fault)
      × ((fuel : ℕ)
          → vm.instruction_limit < fuel
          → exec_ex (run_of (load vm code (some room) true).0 regions) garbage memory fuel ≡ some o)
loaded_runs_safely vm code room regions garbage memory can ok around limited =
    let vm' = (load vm code (some room) true).0 in
    let same = load-SameView vm code room can ok in
    let limit = ap (λ (o : Options). o.limit) same.same_options in
    let safe : IsSafeRun (run_of vm' regions) (insts_of code) memory = record {
      holds = (load_correct vm code room can).1 ok;
      valid = load-IsValidProgram vm code room can ok;
      around = SameView-IsSurrounded vm vm' regions memory same around;
    } in
    let (o, fine, ends) =
      exec_ex_safe (run_of vm' regions) (insts_of code) garbage memory safe
        (λ e. limited (sym limit ∙ e)) in
    (o, fine, λ fuel h. ends fuel (subst (λ l. l < fuel) (sym limit) h))
