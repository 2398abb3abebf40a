-- ===== src/Jit/Resolve/Guarantees.antt =====
-- `ubpf_translate_x86_64` of libs/ubpf/vm/ubpf_jit_x86_64.c for every program and every buffer.
use appclick_ubpf.Prelude.{ℕ, ◌+◌, ◌^◌, ◌<◌, ◌≡◌, refl, Bool, ◌&&◌, Option, some, List}
use appclick_ubpf.Prelude.{Bool-cases, inl, inr}
use appclick_ubpf.Words.{u32}
use appclick_ubpf.Vm.{
  Vm, ExternalFunction, Dispatcher, JitMode, JitResult, jit_compile_failure, jit_compile_success,
}
use appclick_ubpf.Jit.State.{JitState, could_not_allocate}
use appclick_ubpf.Jit.Support.{Allocated, initialize_jit_state_result}
use appclick_ubpf.Jit.Translate.{failed, translate}
use appclick_ubpf.Jit.Resolve.{Compiled, finish_translation, translate_x86_64}
use appclick_ubpf.Jit.Resolve.Landing.All.{IsLinked}
use appclick_ubpf.Jit.Emit.Grows.{Grows}
use appclick_ubpf.Jit.Resolve.Slots.Whole.{
  WithSlots, translate_whole, translate-HasSlots, finish-EndsWithSlots,
}
use appclick_ubpf.Jit.Resolve.Promises.{
  IsWhole, patched_state, Leaves, KeepsBeyond, IsExplained, Fits, initial_state,
  initial_state-IsEmitting, finish_beyond, finish_size, finish-IsExplained, translate_state,
  translate-explained,
}

-- What `initialize_jit_state_result` looks at.
abbrev given : Allocated → Bool
given a = a.pc_locs_given && (a.jumps_given && (a.loads_given && a.leas_given))

abbrev failed_result : JitResult → JitMode → JitResult
failed_result unset mode = record unset {
  compile_result = jit_compile_failure;
  external_dispatcher_offset = 0;
  jit_mode = mode;
}

-- The code of a success, for the state that `translate` left.
abbrev pub HasLinks : JitState → Compiled → Type 0
HasLinks t c = c.result.compile_result ≡ jit_compile_success → IsWhole c → IsLinked t c.buffer

module _ (map : List ℕ) (function_address : Option ExternalFunction → ℕ)
    (dispatcher_address : Option Dispatcher → ℕ) where
  -- The two ways through `ubpf_translate_x86_64`.
  pub either_way :
      (P : Compiled → Type 0) (allocated : Allocated) (uninitialised : JitState) (unset : JitResult)
      (vm : Vm) (buffer : ℕ → ℕ) (size : ℕ) (mode : JitMode)
      → ((result : JitResult)
          → result.compile_result ≡ jit_compile_failure
          → P (record {
            result = result;
            errmsg = some could_not_allocate;
            buffer = buffer;
            size = size;
          }))
      → ((result : JitResult)
          → result.compile_result ≡ jit_compile_failure
          → Leaves P (
              finish_translation result size mode (
                translate map function_address dispatcher_address vm
                  (initial_state allocated buffer size mode uninitialised unset))))
      → Leaves P (
          translate_x86_64 map function_address dispatcher_address allocated uninitialised unset vm
            buffer size mode)
  unfolding translate_x86_64 initialize_jit_state_result
  either_way P allocated uninitialised unset vm buffer size mode lost finished =
      elim (Bool-cases (given allocated)) [
        | inl y ↦ rw y (rw y at (finished (failed_result unset mode) refl))
        | inr n ↦ rw n (lost (failed_result unset mode) refl)
      ]

  -- Where the buffer's size, as a `uint32_t`, leaves more than 8 below 2 ^ 32, `ubpf_translate_x86_64`
  -- changes at most the first four bytes behind the buffer, whatever the program and however the
  -- compilation ends. It changes none of them where the compilation succeeds and its code is whole,
  -- which its result tells: the table of the 64 helpers, at the offset in the result, ends the code.
  pub translate_x86_64-KeepsBeyond :
      (allocated : Allocated) (uninitialised : JitState) (unset : JitResult) (vm : Vm)
      (buffer : ℕ → ℕ) (size : ℕ) (mode : JitMode)
      → u32 size + 8 < 2 ^ 32
      → Leaves (KeepsBeyond buffer size) (
          translate_x86_64 map function_address dispatcher_address allocated uninitialised unset vm
            buffer size mode)
  unfolding initialize_jit_state_result
  translate_x86_64-KeepsBeyond allocated uninitialised unset vm buffer size mode room =
      let s = initial_state allocated buffer size mode uninitialised unset in
      let emitting = initial_state-IsEmitting allocated buffer size mode uninitialised unset room in
      either_way (KeepsBeyond buffer size) allocated uninitialised unset vm buffer size mode
        (λ result lost. record { four_at_most = λ i h. refl; none_if_whole = λ _ _ i h. refl })
        (λ result lost.
          finish_beyond s _ _ result size mode refl
            (translate_state map function_address dispatcher_address vm s emitting) lost
            (translate_whole map function_address dispatcher_address vm s emitting))

  -- Where the buffer's size, as a `uint32_t`, leaves more than 8 below 2 ^ 32, the code of a
  -- successful compilation, whose length `*size` becomes, is no longer than the buffer.
  pub translate_x86_64-Fits :
      (allocated : Allocated) (uninitialised : JitState) (unset : JitResult) (vm : Vm)
      (buffer : ℕ → ℕ) (size : ℕ) (mode : JitMode)
      → u32 size + 8 < 2 ^ 32
      → Leaves (Fits size) (
          translate_x86_64 map function_address dispatcher_address allocated uninitialised unset vm
            buffer size mode)
  unfolding initialize_jit_state_result
  translate_x86_64-Fits allocated uninitialised unset vm buffer size mode room =
      let s = initial_state allocated buffer size mode uninitialised unset in
      let emitting = initial_state-IsEmitting allocated buffer size mode uninitialised unset room in
      either_way (Fits size) allocated uninitialised unset vm buffer size mode
        (λ result lost won. absurd (cc))
        (λ result lost.
          finish_size s _ _ result size mode refl
            (translate_state map function_address dispatcher_address vm s emitting) lost)

  -- Where the buffer's size, as a `uint32_t`, leaves more than 8 below 2 ^ 32, every compilation that
  -- does not succeed has a message, whatever stopped it.
  pub translate_x86_64-IsExplained :
      (allocated : Allocated) (uninitialised : JitState) (unset : JitResult) (vm : Vm)
      (buffer : ℕ → ℕ) (size : ℕ) (mode : JitMode)
      → u32 size + 8 < 2 ^ 32
      → Leaves IsExplained (
          translate_x86_64 map function_address dispatcher_address allocated uninitialised unset vm
            buffer size mode)
  translate_x86_64-IsExplained allocated uninitialised unset vm buffer size mode room =
      let s = initial_state allocated buffer size mode uninitialised unset in
      let emitting = initial_state-IsEmitting allocated buffer size mode uninitialised unset room in
      either_way IsExplained allocated uninitialised unset vm buffer size mode
        (λ result lost failed. (could_not_allocate, refl))
        (λ result lost.
          finish-IsExplained _ _ result size mode
            (translate-explained map function_address dispatcher_address vm s emitting))

  -- Where the buffer's size, as a `uint32_t`, leaves more than 8 below 2 ^ 32: if a compilation
  -- succeeds and the table of the 64 helpers, at the offset in its result, ends the code, then this
  -- table holds the addresses of the helpers, and the eight bytes before it, at the other offset in
  -- the result, that of the dispatcher.
  pub translate_x86_64-EndsWithSlots :
      (allocated : Allocated) (uninitialised : JitState) (unset : JitResult) (vm : Vm)
      (buffer : ℕ → ℕ) (size : ℕ) (mode : JitMode)
      → u32 size + 8 < 2 ^ 32
      → Leaves (WithSlots map function_address dispatcher_address vm) (
          translate_x86_64 map function_address dispatcher_address allocated uninitialised unset vm
            buffer size mode)
  translate_x86_64-EndsWithSlots allocated uninitialised unset vm buffer size mode room =
      let s = initial_state allocated buffer size mode uninitialised unset in
      let emitting = initial_state-IsEmitting allocated buffer size mode uninitialised unset room in
      let t = translate map function_address dispatcher_address vm s in
      either_way (WithSlots map function_address dispatcher_address vm) allocated uninitialised
        unset vm buffer size mode (λ result lost won. absurd (cc))
        (λ result lost.
          finish-EndsWithSlots map function_address dispatcher_address vm t.0 t.1 result size mode
            (λ out is_whole.
              translate-HasSlots map function_address dispatcher_address vm s emitting out (
                translate_whole map function_address dispatcher_address vm s emitting out is_whole))
            (λ out.
              patched_state t.1
                (translate_state map function_address dispatcher_address vm s emitting))
            lost)
