-- ===== src/Jit/Resolve/Promises.antt =====
-- What `ubpf_translate_x86_64` (libs/ubpf/vm/ubpf_jit_x86_64.c) promises its caller: it writes only to
-- the buffer, a failure has a message, and the code fits.
use appclick_ubpf.Prelude.{ℕ, ◌*◌, ◌+◌, ◌^◌, ◌≤◌, ◌<◌, ◌≡◌, refl, ap, ◌∙◌, false}
use appclick_ubpf.Prelude.{Option, none, some, List, arith, Bool-cases, inl, inr}
use appclick_ubpf.Words.{u32}
use appclick_ubpf.Vm.{
  max_ext_funcs, Vm, ExternalFunction, Dispatcher, JitMode, JitResult, jit_compile_success,
  jit_compile_failure,
}
use appclick_ubpf.Jit.State.{
  modify, gets, pure, ◌>>=◌, is_no_error, JitState, no_error, Message, could_not_patch,
}
use appclick_ubpf.Jit.State.Keeps.{Keeps-bind}
use appclick_ubpf.Jit.Support.{Allocated, initialize_jit_state_result}
use appclick_ubpf.Jit.Emit.Apart.{tables_of, Apart-empty, Begun-empty}
use appclick_ubpf.Jit.Emit.Grows.{Grows, Grows-refl, error_of, IsEmitting, later}
use appclick_ubpf.Jit.Translate.{
  Translated, translated, failed, stopped, translate, emit_prologue, translate_insts,
}
use appclick_ubpf.Jit.Translate.Grows.Program.{
  translate-Grows, emit_prologue-Grows, translate_insts-Grows, translate_error-some,
}
use appclick_ubpf.Jit.Resolve.{Compiled, resolve_patchable_relatives, finish_translation}
use appclick_ubpf.Jit.Emit.Grows.{last-le}
use appclick_ubpf.Jit.Resolve.Safety.{
  PatchesBelow, Begun-EndBy, Patches-refl, resolve_patchable_relatives-Patches,
}

-- A property of what a compilation leaves.
abbrev pub Leaves : (Compiled → Type 0) → Option Compiled → Type 0
Leaves P none = Unit
Leaves P (some c) = P c

-- The state that `initialize_jit_state_result` leaves.
abbrev pub initial_state : Allocated → (ℕ → ℕ) → ℕ → JitMode → JitState → JitResult → JitState
initial_state allocated buffer size mode uninitialised unset =
    (initialize_jit_state_result allocated buffer (u32 size) mode uninitialised unset).1

pub initial_state-IsEmitting :
    (allocated : Allocated) (buffer : ℕ → ℕ) (size : ℕ) (mode : JitMode) (uninitialised : JitState)
    (unset : JitResult)
    → u32 size + 8 < 2 ^ 32
    → IsEmitting (initial_state allocated buffer size mode uninitialised unset)
unfolding initialize_jit_state_result
initial_state-IsEmitting allocated buffer size mode uninitialised unset room = record {
  in_buffer = omega arith;
  no_wrap = room;
  jumps_fit = omega arith;
  loads_fit = omega arith;
  leas_fit = omega arith;
  local_calls_fit = omega arith;
  begun =
      Begun-empty (tables_of (initial_state allocated buffer size mode uninitialised unset)) 0 refl
        refl refl refl;
  placed = λ e. record {
    jumps_placed = λ k h. absurd (omega arith);
    loads_placed = λ k h. absurd (omega arith);
    leas_placed = λ k h. absurd (omega arith);
    local_calls_placed = λ k h. absurd (omega arith);
    apart =
        Apart-empty (tables_of (initial_state allocated buffer size mode uninitialised unset)) refl
          refl refl refl;
  };
  says = later (cc) (cc);
}

-- The code ends with the whole table of the helpers, as the offset of the table and the size tell.
abbrev pub IsWhole : Compiled → Type 0
IsWhole c = c.size ≡ c.result.external_helper_offset + 8 * max_ext_funcs

abbrev pub IsWholeState : JitState → Type 0
IsWholeState t = t.offset ≡ t.helper_table_loc + 8 * max_ext_funcs

-- The patching writes at most four bytes behind the place where emission stopped.
pub patched_state :
    {s : JitState} (t : JitState)
    → Grows s t
    → PatchesBelow (t.offset + 4) t (resolve_patchable_relatives t).1
patched_state t g =
    (resolve_patchable_relatives-Patches t (t.offset + 4)
        (Begun-EndBy (tables_of t) t.offset g.emitting.begun)).at
      t (Patches-refl t)

-- What the caller finds in memory beyond the buffer.
pub record KeepsBeyond (buffer : ℕ → ℕ) (size : ℕ) (c : Compiled) : Type 0 where
  pub four_at_most : (i : ℕ) → u32 size + 4 ≤ i → c.buffer i ≡ buffer i
  pub none_if_whole :
      c.result.compile_result ≡ jit_compile_success
      → IsWhole c
      → (i : ℕ) → u32 size ≤ i
      → c.buffer i ≡ buffer i

pub finish_beyond :
    (s : JitState) (out : Translated) (t : JitState) (result : JitResult) (size : ℕ)
    (mode : JitMode)
    → s.size ≡ u32 size
    → Grows s t
    → result.compile_result ≡ jit_compile_failure
    → (out ≡ translated → IsWholeState t → t.jit_status ≡ no_error)
    → Leaves (KeepsBeyond s.buf size) (finish_translation result size mode (out, t))
unfolding finish_translation
finish_beyond s translated t result size mode e g bad whole =
    let p = patched_state t g in
    record {
      four_at_most = λ i h.
          p.beyond i (omega (arith, g.emitting.in_buffer, g.size_kept))
          ∙ g.outside_kept i (omega arith);
      none_if_whole = elim (Bool-cases (resolve_patchable_relatives t).0) [
        | inr n ↦ rw n (λ won. absurd (cc))
        | inl y ↦ rw y (λ won is_whole i h.
            let d = ap (λ (x : JitState). x.helper_table_loc) p.only_buf in
            let o = ap (λ (x : JitState). x.offset) p.only_buf in
            let ok = whole refl (omega (arith, is_whole, d, o)) in
            let q =
              (resolve_patchable_relatives-Patches t t.offset (last-le t (g.emitting.placed ok))).at
                t (Patches-refl t) in
            q.beyond i (omega (arith, g.emitting.in_buffer, g.size_kept))
            ∙ g.outside_kept i (omega arith))
      ];
    }
finish_beyond s failed t result size mode e g bad whole = record {
  four_at_most = λ i h. g.outside_kept i (omega arith);
  none_if_whole = λ won is_whole i h. g.outside_kept i (omega arith);
}
finish_beyond s stopped t result size mode e g bad whole = tt

-- A compilation that did not succeed has a message.
abbrev pub IsExplained : Compiled → Type 0
IsExplained c =
    c.result.compile_result ≡ jit_compile_failure → (why : Message) × (c.errmsg ≡ some why)

-- The code that a compilation leaves fits the buffer.
abbrev pub Fits : ℕ → Compiled → Type 0
Fits size c = c.result.compile_result ≡ jit_compile_success → c.size ≤ u32 size

pub finish_size :
    (s : JitState) (out : Translated) (t : JitState) (result : JitResult) (size : ℕ)
    (mode : JitMode)
    → s.size ≡ u32 size
    → Grows s t
    → result.compile_result ≡ jit_compile_failure
    → Leaves (Fits size) (finish_translation result size mode (out, t))
unfolding finish_translation
finish_size s translated t result size mode e g bad = λ won.
    let p = patched_state t g in
    elim (Bool-cases (resolve_patchable_relatives t).0) [
      | inl y ↦ rw y (
          rw (ap (λ (x : JitState). x.offset) p.only_buf)
            (omega (arith, g.emitting.in_buffer, g.size_kept)))
      | inr n ↦ absurd (cc)
    ]
finish_size s failed t result size mode e g bad = λ won. absurd (cc)
finish_size s stopped t result size mode e g bad = tt

pub finish-IsExplained :
    (out : Translated) (t : JitState) (result : JitResult) (size : ℕ) (mode : JitMode)
    → (out ≡ failed → (why : Message) × (t.errmsg ≡ some why))
    → Leaves IsExplained (finish_translation result size mode (out, t))
unfolding finish_translation
finish-IsExplained translated t result size mode h = λ lost.
    elim (Bool-cases (resolve_patchable_relatives t).0) [
      | inl y ↦ absurd (cc)
      | inr n ↦ rw n (could_not_patch, refl)
    ]
finish-IsExplained failed t result size mode h = λ lost. h refl
finish-IsExplained stopped t result size mode h = tt

module _ (map : List ℕ) (function_address : Option ExternalFunction → ℕ)
    (dispatcher_address : Option Dispatcher → ℕ) (vm : Vm) (s : JitState)
    (emitting : IsEmitting s) where
  pub translate_state : Grows s (translate map function_address dispatcher_address vm s).1
  translate_state =
      (translate-Grows map function_address dispatcher_address vm).at s (Grows-refl emitting)

  pub translate-explained :
      (translate map function_address dispatcher_address vm s).0 ≡ failed
      → (why : Message) × ((translate map function_address dispatcher_address vm s).1.errmsg
          ≡ some why)
  unfolding translate ◌>>=◌ gets modify pure
  translate-explained h =
      let m =
        (emit_prologue map function_address dispatcher_address vm >>= λ _.
        translate_insts map function_address dispatcher_address vm false vm.num_insts 0)
          s in
      let g =
        (Keeps-bind _ _ (emit_prologue-Grows map function_address dispatcher_address vm) (λ _.
            translate_insts-Grows map function_address dispatcher_address vm false vm.num_insts
              0)).at
          s (Grows-refl emitting) in
      elim (Bool-cases m.0) [
        | inr stop ↦ absurd (cc)
        | inl go ↦ elim (Bool-cases (is_no_error m.1.jit_status)) [
          | inl fine ↦ absurd (cc)
          | inr bad ↦
              rw (go, bad)
                (translate_error-some m.1.jit_status m.1.errmsg (error_of _ bad) g.emitting.says)
        ]
      ]
