-- ===== src/Jit/Support.antt =====
-- libs/ubpf/vm/ubpf_jit_support.c: the start of a compilation, and the tables of the addresses that
-- are patched at its end.
pub mod Tables
use appclick_ubpf.Prelude.{
  ℕ, zero, suc, ◌+◌, ◌-◌, ◌^◌, Bool, true, false, not, ◌&&◌, Option, none, some,
}
use appclick_ubpf.Prelude.{◌==◌, if◌then◌else◌, update}
use appclick_ubpf.Vm.{JitMode, JitResult, jit_compile_failure}
use appclick_ubpf.Jit.State.{
  JitState, PatchableRelative, zeroed, no_error, Message, could_not_allocate, Emit, modify,
}

-- Which of the five calls of `calloc` give memory.
pub record Allocated : Type 0 where
  pub pc_locs_given : Bool
  pub jumps_given : Bool
  pub loads_given : Bool
  pub leas_given : Bool
  pub local_calls_given : Bool

-- `initialize_jit_state_result`, with 0 or -1 as `true` or `false`; `jit_mode` and `size` as given.
-- The code does not look at the allocation of `local_calls`.
unfoldable pub initialize_jit_state_result :
    Allocated → (ℕ → ℕ) → ℕ → JitMode → JitState → JitResult → Bool × JitState × JitResult
initialize_jit_state_result allocated buffer size jit_mode state compile_result =
    let given =
      allocated.pc_locs_given
      && (allocated.jumps_given && (allocated.loads_given && allocated.leas_given)) in
    (
      given,
      record state {
        offset = 0;
        size = size;
        buf = buffer;
        pc_locs = λ _. 0;
        jumps = λ _. zeroed;
        loads = λ _. zeroed;
        leas = λ _. zeroed;
        local_calls = λ _. zeroed;
        num_jumps = 0;
        num_loads = 0;
        num_leas = 0;
        num_local_calls = 0;
        jit_status = no_error;
        jit_mode = jit_mode;
        bpf_function_prolog_size = 0;
        errmsg = if given then none else some could_not_allocate;
      },
      record compile_result {
        compile_result = jit_compile_failure;
        external_dispatcher_offset = 0;
        jit_mode = jit_mode;
      },
    )

-- `emit_patchable_relative_ex`.
unfoldable pub emit_patchable_relative_ex :
    ℕ → ℕ → ℕ → (ℕ → PatchableRelative) → ℕ → Bool → ℕ → PatchableRelative
emit_patchable_relative_ex offset target_pc manual_target_offset table index near =
    update table index (record {
      offset_loc = offset;
      target_pc = target_pc;
      target_offset = manual_target_offset;
      near = near;
    })

-- `emit_patchable_relative`.
unfoldable pub emit_patchable_relative :
    ℕ → ℕ → ℕ → (ℕ → PatchableRelative) → ℕ → ℕ → PatchableRelative
emit_patchable_relative offset target_pc manual_target_offset table index =
    emit_patchable_relative_ex offset target_pc manual_target_offset table index false

-- `note_load`.
unfoldable pub note_load : ℕ → Emit Unit
note_load target_pc = modify (λ state. record state {
  loads = emit_patchable_relative state.offset target_pc 0 state.loads state.num_loads;
  num_loads = state.num_loads + 1;
})

-- `note_lea`.
unfoldable pub note_lea : ℕ → Emit Unit
note_lea offset = modify (λ state. record state {
  leas = emit_patchable_relative state.offset offset 0 state.leas state.num_leas;
  num_leas = state.num_leas + 1;
})

-- `fixup_jump_target`: the loop over the first `table_size` entries.
unfoldable pub fixup_jump_target : (ℕ → PatchableRelative) → ℕ → ℕ → ℕ → ℕ → PatchableRelative
fixup_jump_target table zero src_offset dest_offset = table
fixup_jump_target table (suc index) src_offset dest_offset =
    let rest = fixup_jump_target table index src_offset dest_offset in
    if (rest index).offset_loc == src_offset
    then update rest index (record (rest index) { target_offset = dest_offset })
    else rest

-- `emit_jump_target`.
unfoldable pub emit_jump_target : ℕ → Emit Unit
emit_jump_target jump_src = modify (λ state. record state {
  jumps = fixup_jump_target state.jumps state.num_jumps jump_src state.offset;
})
