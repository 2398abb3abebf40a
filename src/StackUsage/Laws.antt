-- ===== src/StackUsage/Laws.antt =====
-- How long the stack usage of a local function is remembered by libs/ubpf/vm/ubpf_vm.c.
use appclick_ubpf.Prelude.{◌≡◌, refl, true, Option, arith, Option-cases, inl, inr}
use appclick_ubpf.Prelude.{==_refl, ◌∙◌, ℕ, none, false}
use appclick_ubpf.Vm.{Vm, ebpf_stack_size}
use appclick_ubpf.Vm.Config.{register_stack_usage_calculator}
use appclick_ubpf.StackUsage.{calculate_stack_usage_for_local_func, calculated}
use appclick_ubpf.StackUsage.{stack_usage_for_local_func}
use appclick_ubpf.Load.{unload_code, unmap_jitted}

-- Unloading leaves the table of usages alone.
unload_code-usages : (vm : Vm) → (unload_code vm).local_func_stack_usage ≡ vm.local_func_stack_usage
unfolding unload_code unmap_jitted
unload_code-usages vm = elim (Option-cases vm.jitted) [
  | inl e ↦ elim (Option-cases vm.insts) [
    | inl e' ↦ simp (e, unload_code, unmap_jitted, e')
    | inr (_, e') ↦ simp (e, unload_code, unmap_jitted, e')
  ]
  | inr (_, e) ↦ elim (Option-cases vm.insts) [
    | inl e' ↦ simp (e, unload_code, unmap_jitted, e')
    | inr (_, e') ↦ simp (e, unload_code, unmap_jitted, e')
  ]
]

-- A usage that is known is not asked for again.
calculate_known :
    (vm : Vm) (pc : ℕ)
    → (vm.local_func_stack_usage pc).stack_usage_calculated ≡ true
    → stack_usage_for_local_func (calculate_stack_usage_for_local_func vm pc).0 pc
      ≡ stack_usage_for_local_func vm pc
unfolding calculate_stack_usage_for_local_func stack_usage_for_local_func
calculate_known vm pc known = ground (arith, ==_refl pc)

-- A stack usage that is known for a program counter outlives the program: after the code is
-- unloaded and another calculator is registered, asking again gives the old one.
pub usage_outlives_program :
    (vm : Vm) (calculator : Option (ℕ → ℕ → ℕ)) (cookie pc : ℕ)
    → (vm.local_func_stack_usage pc).stack_usage_calculated ≡ true
    → stack_usage_for_local_func
        (calculate_stack_usage_for_local_func
          (register_stack_usage_calculator (unload_code vm) calculator cookie)
          pc).0
        pc
      ≡ stack_usage_for_local_func vm pc
unfolding stack_usage_for_local_func register_stack_usage_calculator
usage_outlives_program vm calculator cookie pc known =
    let kept = unload_code-usages vm in
    let next = register_stack_usage_calculator (unload_code vm) calculator cookie in
    calculate_known next pc (rw kept known) ∙ rw (kept, stack_usage_for_local_func) refl

-- Without a calculator, the usage of a function that was asked for and had none is 0 from then on,
-- while one that was not asked for has the whole stack: the default is lost by asking.
pub default_lost :
    (vm : Vm) (pc : ℕ)
    → vm.stack_usage_calculator ≡ none
    → vm.local_func_stack_usage pc ≡ record { stack_usage_calculated = false; stack_usage = 0 }
    → (stack_usage_for_local_func vm pc ≡ ebpf_stack_size)
      × (stack_usage_for_local_func (calculate_stack_usage_for_local_func vm pc).0 pc ≡ 0)
unfolding calculate_stack_usage_for_local_func stack_usage_for_local_func calculated
default_lost vm pc absent fresh =
    let here = ==_refl pc in
    (
      simp (fresh, stack_usage_for_local_func),
      simp (
        here, fresh, absent, calculated, stack_usage_for_local_func,
        calculate_stack_usage_for_local_func,
      ),
    )
