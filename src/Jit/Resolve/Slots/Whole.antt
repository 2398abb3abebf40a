-- ===== src/Jit/Resolve/Slots/Whole.antt =====
-- The addresses of the dispatcher and of the helpers in the code that
-- libs/ubpf/vm/ubpf_jit_x86_64.c makes of a whole program.
use appclick_ubpf.Prelude.{
  ℕ, ◌+◌, ◌*◌, ◌<◌, ◌≡◌, refl, sym, ap, ◌∙◌, inl, inr, false, arith, Option, List,
}
use appclick_ubpf.Prelude.{Bool-cases}
use appclick_ubpf.Vm.{
  Vm, ExternalFunction, Dispatcher, JitMode, JitResult, max_ext_funcs, jit_compile_success,
  jit_compile_failure,
}
use appclick_ubpf.Jit.State.{JitState, no_error, is_no_error, Emit, modify, pure, gets, ◌>>=◌}
use appclick_ubpf.Jit.State.Keeps.{Keeps, Keeps-bind}
use appclick_ubpf.Jit.Emit.{le_bytes}
use appclick_ubpf.Jit.Emit.Grows.{last-le, IsEmitting, Grows, Grows-refl}
use appclick_ubpf.Jit.Emit.Grows.Instructions.{instruction_rules}
use appclick_ubpf.Jit.Translate.{
  Translated, translated, failed, stopped, emit_epilogue, emit_prologue, translate_insts, translate,
}
use appclick_ubpf.Jit.Translate.Grows.{rest-Grows}
use appclick_ubpf.Jit.Translate.Grows.Program.{
  emit_pops-Grows, emit_retpoline-Grows, emit_prologue-Grows, translate_insts-Grows,
}
use appclick_ubpf.Jit.Resolve.{Compiled, resolve_patchable_relatives, finish_translation}
use appclick_ubpf.Jit.Resolve.Safety.{
  PatchesBelow, Patches-refl, resolve_patchable_relatives-Patches,
}
use appclick_ubpf.Jit.Resolve.Promises.{Leaves, IsWhole, IsWholeState}
use appclick_ubpf.Jit.Resolve.Landing.{bytes_at, bytes_at-same}
use appclick_ubpf.Jit.Resolve.Slots.{HasSlots, emit_slots, slots_of, whole_of}

-- What holds after an action.
record Finishes {A : Type 0} (P : JitState → Type 0) (m : Emit A) : Type 0 where
  at : (s : JitState) → IsEmitting s → P (m s).1

module _ {A B : Type 0} {P : JitState → Type 0} where
  Finishes-bind :
      (m : Emit A) (f : A → Emit B)
      → ((s₀ : JitState) → Keeps (Grows s₀) m)
      → ((a : A) → Finishes P (f a))
      → Finishes P (m >>= f)
  unfolding ◌>>=◌
  Finishes-bind m f grows rest = record {
    at = λ s v. let (a, s') = m s in (rest a).at s' ((grows s).at s (Grows-refl v)).emitting;
  }

module _ (map : List ℕ) (function_address : Option ExternalFunction → ℕ)
    (dispatcher_address : Option Dispatcher → ℕ) (vm : Vm) where
  -- What holds after the addresses holds after the epilogue.
  emit_epilogue-Finishes :
      {P : JitState → Type 0}
      → Finishes P (emit_slots map function_address dispatcher_address vm)
      → Finishes P (emit_epilogue map function_address dispatcher_address vm)
  unfolding emit_epilogue emit_slots
  emit_epilogue-Finishes {P} slots =
      Finishes-bind _ _ (λ s₀. search rest-Grows)
        (λ _.
          Finishes-bind _ _ (λ s₀. search instruction_rules)
            (λ _.
              Finishes-bind _ _ (λ s₀. search instruction_rules)
                (λ _.
                  Finishes-bind _ _ (λ s₀. search instruction_rules)
                    (λ _.
                      Finishes-bind _ _ (λ s₀. emit_pops-Grows _)
                        (λ _.
                          Finishes-bind _ _ (λ s₀. search instruction_rules)
                            (λ _.
                              Finishes-bind _ _ (λ s₀. emit_retpoline-Grows)
                                (λ r.
                                  Finishes-bind _ _ (λ s₀. search rest-Grows) (λ _. slots))))))))

  translate-Finishes :
      {P : JitState → Type 0} (s : JitState)
      → Finishes P (emit_slots map function_address dispatcher_address vm)
      → IsEmitting s
      → (translate map function_address dispatcher_address vm s).0 ≡ translated
      → P (translate map function_address dispatcher_address vm s).1
  unfolding translate ◌>>=◌ gets modify pure
  translate-Finishes {P} s slots v done =
      let m =
        (emit_prologue map function_address dispatcher_address vm >>= λ _.
        translate_insts map function_address dispatcher_address vm false vm.num_insts 0)
          s in
      let g =
        (Keeps-bind _ _ (emit_prologue-Grows map function_address dispatcher_address vm) (λ _.
            translate_insts-Grows map function_address dispatcher_address vm false vm.num_insts
              0)).at
          s (Grows-refl v) in
      elim (Bool-cases m.0) [
        | inr stop ↦ absurd (cc)
        | inl go ↦ elim (Bool-cases (is_no_error m.1.jit_status)) [
          | inr bad ↦ absurd (cc)
          | inl fine ↦ rw (go, fine) ((emit_epilogue-Finishes slots).at m.1 g.emitting)
        ]
      ]

  -- Where the last 512 bytes are the table of the helpers, nothing is missing.
  pub translate_whole :
      (s : JitState)
      → IsEmitting s
      → (translate map function_address dispatcher_address vm s).0 ≡ translated
      → IsWholeState (translate map function_address dispatcher_address vm s).1
      → (translate map function_address dispatcher_address vm s).1.jit_status ≡ no_error
  translate_whole s v done =
      translate-Finishes {P = λ t. IsWholeState t → t.jit_status ≡ no_error} s
        (record { at = whole_of map function_address dispatcher_address vm }) v done

  pub translate-HasSlots :
      (s : JitState)
      → IsEmitting s
      → (translate map function_address dispatcher_address vm s).0 ≡ translated
      → (translate map function_address dispatcher_address vm s).1.jit_status ≡ no_error
      → HasSlots map function_address dispatcher_address vm
          (translate map function_address dispatcher_address vm s).1
  translate-HasSlots s v done =
      translate-Finishes
        {P = λ t. t.jit_status ≡ no_error → HasSlots map function_address dispatcher_address vm t} s
        (record { at = slots_of map function_address dispatcher_address vm }) v done

  -- The compiled code ends with the address of the dispatcher and then those of the 64 helpers, at
  -- the offsets that the result names.
  pub record EndsWithSlots (c : Compiled) : Type 0 where
    pub helpers_follow : c.result.external_helper_offset ≡ c.result.external_dispatcher_offset + 8
    pub code_ends : c.size ≡ c.result.external_helper_offset + 8 * max_ext_funcs
    pub dispatcher_stored :
        bytes_at c.buffer c.result.external_dispatcher_offset 8
        ≡ le_bytes 8 (dispatcher_address vm.dispatcher)
    pub helpers_stored :
        (k : ℕ)
        → k < max_ext_funcs
        → bytes_at c.buffer (c.result.external_helper_offset + 8 * k) 8
          ≡ le_bytes 8 (function_address (vm.ext_funcs k))

  abbrev pub WithSlots : Compiled → Type 0
  WithSlots c = c.result.compile_result ≡ jit_compile_success → IsWhole c → EndsWithSlots c

  -- The patching leaves the addresses alone, since every relocation ends before them.
  ends_of :
      (t : JitState) (c : Compiled)
      → (IsWholeState t → HasSlots map function_address dispatcher_address vm t)
      → PatchesBelow (t.offset + 4) t (resolve_patchable_relatives t).1
      → c.buffer ≡ (resolve_patchable_relatives t).1.buf
      → c.size ≡ (resolve_patchable_relatives t).1.offset
      → c.result.external_dispatcher_offset ≡ (resolve_patchable_relatives t).1.dispatcher_loc
      → c.result.external_helper_offset ≡ (resolve_patchable_relatives t).1.helper_table_loc
      → IsWhole c
      → EndsWithSlots c
  ends_of t c slots q eb es ed eh is_whole =
      let t' = (resolve_patchable_relatives t).1 in
      let d : c.result.external_dispatcher_offset ≡ t.dispatcher_loc =
        ed ∙ ap (λ (x : JitState). x.dispatcher_loc) q.only_buf in
      let e : c.result.external_helper_offset ≡ t.helper_table_loc =
        eh ∙ ap (λ (x : JitState). x.helper_table_loc) q.only_buf in
      let o : c.size ≡ t.offset = es ∙ ap (λ (x : JitState). x.offset) q.only_buf in
      let h = slots (sym o ∙ is_whole ∙ ap (λ (n : ℕ). n + 8 * max_ext_funcs) e) in
      let p =
        (resolve_patchable_relatives-Patches t t.dispatcher_loc
            (last-le (record t { offset = t.dispatcher_loc }) h.relocations_before)).at
          t (Patches-refl t) in
      record {
        helpers_follow = rw (d, e) h.slots_follow;
        code_ends = is_whole;
        dispatcher_stored =
            rw (d, eb)
              (bytes_at-same t'.buf t.buf t.dispatcher_loc 8 (λ i q r. p.beyond i q)
                ∙ h.dispatcher_there);
        helpers_stored = λ k q.
            rw (e, eb)
              (bytes_at-same t'.buf t.buf (t.helper_table_loc + 8 * k) 8
                  (λ i q r. p.beyond i (omega (arith, h.slots_follow)))
                ∙ h.helpers_there k q);
      }

  pub finish-EndsWithSlots :
      (out : Translated) (t : JitState) (result : JitResult) (size : ℕ) (mode : JitMode)
      → (out ≡ translated → IsWholeState t → HasSlots map function_address dispatcher_address vm t)
      → (out ≡ translated → PatchesBelow (t.offset + 4) t (resolve_patchable_relatives t).1)
      → result.compile_result ≡ jit_compile_failure
      → Leaves WithSlots (finish_translation result size mode (out, t))
  unfolding finish_translation
  finish-EndsWithSlots translated t result size mode slots patches lost = λ won.
      elim (Bool-cases (resolve_patchable_relatives t).0) [
        | inr n ↦ absurd (cc)
        | inl y ↦ rw y (ends_of t _ (slots refl) (patches refl) refl refl refl refl)
      ]
  finish-EndsWithSlots failed t result size mode slots patches lost = λ won. absurd (cc)
  finish-EndsWithSlots stopped t result size mode slots patches lost = tt
