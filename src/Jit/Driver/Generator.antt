-- ===== src/Jit/Driver/Generator.antt =====
-- The x86-64 code generator (libs/ubpf/vm/ubpf_jit_x86_64.c) as the one that libs/ubpf/vm/ubpf_jit.c
-- calls.
use mathlib.Core.Path.{subst}
use appclick_ubpf.Prelude.{ℕ, ◌≡◌, refl, Option, List}
use appclick_ubpf.Prelude.{Bool-cases, inl, inr}
use appclick_ubpf.Vm.{
  ExternalFunction, Dispatcher, JitMode, JitResult, jit_compile_success, jit_compile_failure,
}
use appclick_ubpf.Jit.State.{JitState}
use appclick_ubpf.Jit.Support.{Allocated}
use appclick_ubpf.Jit.Translate.{Translated, translated, failed, stopped}
use appclick_ubpf.Jit.Resolve.{
  Compiled, resolve_patchable_relatives, finish_translation, translate_x86_64,
}
use appclick_ubpf.Jit.Resolve.Promises.{Leaves, IsExplained}
use appclick_ubpf.Jit.Resolve.Guarantees.{either_way, translate_x86_64-IsExplained}
use appclick_ubpf.Jit.Driver.Laws.{IsTranslator}

HasMode : JitMode → Compiled → Type 0
HasMode mode c = c.result.compile_result ≡ jit_compile_success → c.result.jit_mode ≡ mode

finish-HasMode :
    (out : Translated) (t : JitState) (result : JitResult) (size : ℕ) (mode : JitMode)
    → result.compile_result ≡ jit_compile_failure
    → Leaves (HasMode mode) (finish_translation result size mode (out, t))
unfolding finish_translation HasMode
finish-HasMode translated t result size mode lost = λ won.
    elim (Bool-cases (resolve_patchable_relatives t).0) [ inl y ↦ rw y refl | inr n ↦ absurd (cc) ]
finish-HasMode failed t result size mode lost = λ won. absurd (cc)
finish-HasMode stopped t result size mode lost = tt

-- The x86-64 code generator keeps the laws that `ubpf_compile_ex` relies on: a successful result has
-- the mode that was asked for, and a failed one a message, whatever the registers, the addresses of
-- the functions and the allocations.
pub translate_x86_64-IsTranslator :
    (map : List ℕ) (function_address : Option ExternalFunction → ℕ)
    (dispatcher_address : Option Dispatcher → ℕ) (allocated : Allocated) (uninitialised : JitState)
    (unset : JitResult)
    → IsTranslator
        (translate_x86_64 map function_address dispatcher_address allocated uninitialised unset)
unfolding HasMode
translate_x86_64-IsTranslator map function_address dispatcher_address allocated uninitialised
      unset =
    record {
      mode_kept = λ vm buffer size mode c e. subst (Leaves (HasMode mode)) e (
          either_way map function_address dispatcher_address (HasMode mode) allocated uninitialised
            unset vm buffer size mode (λ result lost won. absurd (cc))
            (λ result lost. finish-HasMode _ _ result size mode lost));
      explains = λ vm buffer size mode c e room. subst (Leaves IsExplained) e (
          translate_x86_64-IsExplained map function_address dispatcher_address allocated
            uninitialised unset vm buffer size mode room);
    }
