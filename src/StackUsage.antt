-- ===== src/StackUsage.antt =====
-- The stack that each local function uses: `ubpf_calculate_stack_usage_for_local_func` and
-- `ubpf_stack_usage_for_local_func` of libs/ubpf/vm/ubpf_vm.c.
pub mod Laws
use appclick_ubpf.Prelude.{
  ℕ, ◌%◌, Bool, true, false, Option, none, some, ◌==◌, if◌then◌else◌, update,
}
use appclick_ubpf.Words.{u16}
use appclick_ubpf.Vm.{Vm, StackUsage, ebpf_stack_size}

-- What the calculator leaves for the function at `pc`; it is asked once.
unfoldable pub calculated : Vm → ℕ → StackUsage
calculated vm pc =
    let known = vm.local_func_stack_usage pc in
    elim vm.stack_usage_calculator [
      | none ↦ record known { stack_usage_calculated = true }
      | some calculator ↦ if known.stack_usage_calculated then known else record {
        stack_usage_calculated = true;
        stack_usage = u16 (calculator pc vm.stack_usage_calculator_cookie);
      }
    ]

-- The new table, and whether the usage is a multiple of 16.
unfoldable pub calculate_stack_usage_for_local_func : Vm → ℕ → Vm × Bool
unfolding calculated
calculate_stack_usage_for_local_func vm pc =
    let usage = calculated vm pc in
    (
      record vm { local_func_stack_usage = update vm.local_func_stack_usage pc usage },
      usage.stack_usage % 16 == 0,
    )

unfoldable pub stack_usage_for_local_func : Vm → ℕ → ℕ
stack_usage_for_local_func vm pc =
    if (vm.local_func_stack_usage pc).stack_usage_calculated
    then (vm.local_func_stack_usage pc).stack_usage
    else ebpf_stack_size
