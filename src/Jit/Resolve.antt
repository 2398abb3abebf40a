-- ===== src/Jit/Resolve.antt =====
-- The end of a compilation in libs/ubpf/vm/ubpf_jit_x86_64.c: `resolve_patchable_relatives`,
-- `ubpf_translate_x86_64`, and the changes to compiled code.
pub mod Safety
pub mod Landing
pub mod Promises
pub mod Guarantees
pub mod Updates
pub mod Slots
use appclick_ubpf.Prelude.{
  ℕ, zero, suc, ◌+◌, ◌-◌, ◌*◌, ◌%◌, ◌^◌, Bool, true, false, not, Option, none, some, List, [], ◌∷◌,
}
use appclick_ubpf.Prelude.{ltb, ◌==◌, ◌!=◌, if◌then◌else◌}
use appclick_ubpf.Words.{u32, u64}
use appclick_ubpf.Vm.{
  Vm, ExternalFunction, Dispatcher, JitMode, JitResult, jit_compile_success, basic_jit_mode,
}
use appclick_ubpf.Jit.State.{
  JitState, PatchableRelative, target_pc_exit, target_pc_retpoline, target_pc_external_dispatcher,
  target_load_helper_table, Message, could_not_patch, Emit, modify, pure, gets, ◌>>=◌, ◌>>◌,
}
use appclick_ubpf.Jit.Support.{Allocated, initialize_jit_state_result}
use appclick_ubpf.Jit.Emit.{le_bytes, copy_bytes, is_int8}
use appclick_ubpf.Jit.Translate.{Translated, translated, failed, stopped, translate}

-- `target_loc` of an entry of `jumps`.
unfoldable pub jump_target_loc : JitState → PatchableRelative → ℕ
jump_target_loc state jump =
    if jump.target_offset != 0
    then jump.target_offset
    else if jump.target_pc == target_pc_exit
    then state.exit_loc
    else if jump.target_pc == target_pc_retpoline
    then state.retpoline_loc
    else state.pc_locs jump.target_pc

-- `target_loc - (offset_loc + n)`, as a pattern of 32 bits.
unfoldable pub relative : ℕ → ℕ → ℕ → ℕ
relative target_loc offset_loc n = (target_loc + 2 ^ 32 - u32 (offset_loc + n)) % 2 ^ 32

-- `memcpy(&state->buf[offset_loc], &rel, n)`.
unfoldable pub patch : ℕ → ℕ → ℕ → Emit Unit
patch offset_loc n rel =
    modify (λ state. record state { buf = copy_bytes state.buf offset_loc (le_bytes n rel) })

-- The loop over the first `n` entries of a table, which ends at the first false.
unfoldable pub each : (ℕ → Emit Bool) → ℕ → Emit Bool
each body zero = pure true
each body (suc n) = do ok ← each body n; if not ok then pure false else body n

unfoldable pub resolve_jump : ℕ → Emit Bool
resolve_jump i = do
  jump ← gets (λ (s : JitState). s.jumps i)
  target_loc ← gets (λ (s : JitState). jump_target_loc s jump)
  if jump.near
      then (if not (is_int8 (relative target_loc jump.offset_loc 1))
          then pure false
          else (do patch jump.offset_loc 1 (relative target_loc jump.offset_loc 1); pure true))
      else (do patch jump.offset_loc 4 (relative target_loc jump.offset_loc 4); pure true)

-- The prologue of the function is passed over.
unfoldable pub resolve_local_call : ℕ → Emit Bool
resolve_local_call i = do
  local_call ← gets (λ (s : JitState). s.local_calls i)
  target_loc ← gets (λ (s : JitState). s.pc_locs local_call.target_pc)
  prolog ← gets (λ (s : JitState). s.bpf_function_prolog_size)
  patch local_call.offset_loc 4 (relative (relative target_loc local_call.offset_loc 4) prolog 0)
  pure true

unfoldable pub resolve_load : ℕ → Emit Bool
resolve_load i = do
  load ← gets (λ (s : JitState). s.loads i)
  dispatcher ← gets (λ (s : JitState). s.dispatcher_loc)
  if load.target_pc == target_pc_external_dispatcher
      then (do patch load.offset_loc 4 (relative dispatcher load.offset_loc 4); pure true)
      else pure false

unfoldable pub resolve_lea : ℕ → Emit Bool
resolve_lea i = do
  lea ← gets (λ (s : JitState). s.leas i)
  helper_table ← gets (λ (s : JitState). s.helper_table_loc)
  if lea.target_pc == target_load_helper_table
      then (do patch lea.offset_loc 4 (relative helper_table lea.offset_loc 4); pure true)
      else pure false

-- The four loops, each of them only where the one before did not return false.
unfoldable pub resolve_patchable_relatives : Emit Bool
resolve_patchable_relatives = do
  num_jumps ← gets (λ (s : JitState). s.num_jumps)
  num_local_calls ← gets (λ (s : JitState). s.num_local_calls)
  num_loads ← gets (λ (s : JitState). s.num_loads)
  num_leas ← gets (λ (s : JitState). s.num_leas)
  jumps ← each resolve_jump num_jumps
  if not jumps then pure false else (do
    local_calls ← each resolve_local_call num_local_calls
    if not local_calls then pure false else (do
      loads ← each resolve_load num_loads
      if not loads then pure false else each resolve_lea num_leas))

-- What `ubpf_translate_x86_64` leaves: the result with its message, the buffer, and `*size`.
pub record Compiled : Type 0 where
  pub result : JitResult
  pub errmsg : Option Message
  pub buffer : ℕ → ℕ
  pub size : ℕ

-- From `if (translate(…) < 0)` on; `none` is a read outside the array of instructions.
unfoldable pub finish_translation :
    JitResult → ℕ → JitMode → Translated × JitState → Option Compiled
finish_translation result size mode (stopped, state) = none
finish_translation result size mode (failed, state) =
    some (record { result = result; errmsg = state.errmsg; buffer = state.buf; size = size })
finish_translation result size mode (translated, state) =
    let (patched, state') = resolve_patchable_relatives state in
    some (record {
      result =
          if patched
          then record result {
            compile_result = jit_compile_success;
            external_dispatcher_offset = state'.dispatcher_loc;
            external_helper_offset = state'.helper_table_loc;
            jit_mode = mode;
          }
          else result;
      errmsg = if patched then state'.errmsg else some could_not_patch;
      buffer = state'.buf;
      size = if patched then state'.offset else size;
    })

module _ (map : List ℕ) (function_address : Option ExternalFunction → ℕ)
    (dispatcher_address : Option Dispatcher → ℕ) where
  -- `uninitialised` and `unset` are what the stack held for the two local variables; `*size` is
  -- truncated to 32 bits for the buffer.
  unfoldable pub translate_x86_64 :
      Allocated → JitState → JitResult → Vm → (ℕ → ℕ) → ℕ → JitMode → Option Compiled
  translate_x86_64 allocated uninitialised unset vm buffer size mode =
      let (given, state, result) =
        initialize_jit_state_result allocated buffer (u32 size) mode uninitialised unset in
      if not given
      then some (record { result = result; errmsg = state.errmsg; buffer = buffer; size = size })
      else finish_translation result size mode
          (translate map function_address dispatcher_address vm state)

-- `ubpf_jit_update_dispatcher_x86_64`: the code lies at the address `buffer`; `code` gives its
-- bytes. Additions are on `uint64_t`.
unfoldable pub jit_update_dispatcher : ℕ → ℕ → (ℕ → ℕ) → ℕ → ℕ → Bool × (ℕ → ℕ)
jit_update_dispatcher new_dispatcher buffer code size offset =
    let jit_upper_bound = u64 (buffer + size) in
    let dispatcher_address = u64 (buffer + offset) in
    if ltb (u64 (dispatcher_address + 8)) jit_upper_bound
    then (true, copy_bytes code offset (le_bytes 8 new_dispatcher))
    else (false, code)

-- `ubpf_jit_update_helper_x86_64`: `8 * idx` is on `unsigned int`.
unfoldable pub jit_update_helper : ℕ → ℕ → ℕ → (ℕ → ℕ) → ℕ → ℕ → Bool × (ℕ → ℕ)
jit_update_helper new_helper idx buffer code size offset =
    let jit_upper_bound = u64 (buffer + size) in
    let dispatcher_address = u64 (buffer + offset + u32 (8 * idx)) in
    if ltb (u64 (dispatcher_address + 8)) jit_upper_bound
    then (true, copy_bytes code (offset + u32 (8 * idx)) (le_bytes 8 new_helper))
    else (false, code)
