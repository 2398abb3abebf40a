-- ===== src/Jit/Resolve/Slots.antt =====
-- Where the epilogue of libs/ubpf/vm/ubpf_jit_x86_64.c puts the addresses of the dispatcher and of
-- the helpers, and what stands there.
pub mod Whole
use mathlib.Core.Path.{subst}
use appclick_ubpf.Prelude.{
  ℕ, zero, suc, ◌+◌, ◌*◌, ◌≤◌, ◌<◌, ◌≡◌, ◌≢◌, refl, sym, ap, ◌∙◌, ◌⊎◌, inl, inr, Bool, true, false,
  arith, List, Option,
}
use appclick_ubpf.Prelude.{ltb, length, Bool-cases}
use appclick_ubpf.Words.{u32}
use appclick_ubpf.Vm.{Vm, ExternalFunction, Dispatcher, max_ext_funcs}
use appclick_ubpf.Jit.State.{
  JitState, no_error, not_enough_space, is_no_error, Emit, modify, skip, pure, gets, ◌>>=◌, ◌>>◌,
}
use appclick_ubpf.Jit.State.Keeps.{Keeps}
use appclick_ubpf.Jit.Emit.{le_bytes, copy_bytes, emit_bytes, emit8}
use appclick_ubpf.Jit.Emit.Grows.{
  IsEmitting, ArePlaced, IsPlaced, Grows, Grows-refl, stuck_bytes, full_bytes, appended,
  no_error_of, error_of,
}
use appclick_ubpf.Jit.Emit.Grows.Rules.{emit8-Grows}
use appclick_ubpf.Jit.Emit.Apart.{Tables, tables_of, Apart, width, four}
use appclick_ubpf.Jit.Translate.{
  emit_helpers, emit_helper_table, emit_dispatched_external_helper_address,
}
use appclick_ubpf.Jit.Translate.Grows.Program.{emit_helpers-Grows}
use appclick_ubpf.Jit.Resolve.Safety.{length-le_bytes}
use appclick_ubpf.Jit.Resolve.Landing.{bytes_at, bytes_at-same, stored_word}

-- Eight bytes that were emitted without an error.
pub record Emitted (x : ℕ) (s t : JitState) : Type 0 where
  pub started : s.jit_status ≡ no_error
  pub eight_on : t.offset ≡ s.offset + 8
  pub value_there : bytes_at t.buf s.offset 8 ≡ le_bytes 8 x
  pub same_tables : tables_of t ≡ tables_of s
  pub same_dispatcher : t.dispatcher_loc ≡ s.dispatcher_loc

emit8-Emitted :
    (x : ℕ) (s : JitState)
    → IsEmitting s
    → (emit8 x s).1.jit_status ≡ no_error
    → Emitted x s (emit8 x s).1
unfolding emit8
emit8-Emitted x s v ok = elim (Bool-cases (is_no_error s.jit_status)) [
  | inr e ↦ absurd (
      error_of _ e
        (sym (ap (λ (t : JitState). t.jit_status) (stuck_bytes (le_bytes 8 x) s e)) ∙ ok))
  | inl e ↦ elim (Bool-cases (ltb s.size (u32 (s.offset + length (le_bytes 8 x))))) [
    | inl f ↦ absurd (
        let bad : (emit_bytes (le_bytes 8 x) s).1.jit_status ≡ not_enough_space =
          ap (λ (t : JitState). t.jit_status) (full_bytes (le_bytes 8 x) s e f) in
        cc)
    | inr f ↦ rw (appended (le_bytes 8 x) s e f) (record {
      started = no_error_of _ e;
      eight_on = omega (arith, length-le_bytes 8 x, v.in_buffer, v.no_wrap);
      value_there = stored_word s.buf s.offset x;
      same_tables = refl;
      same_dispatcher = refl;
    })
  ]
]

-- Only the tables and the offset decide where relocations lie.
ArePlaced-same :
    (s t : JitState) → tables_of t ≡ tables_of s → t.offset ≡ s.offset → ArePlaced s → ArePlaced t
ArePlaced-same s t e o p = record {
  jumps_placed =
      rw o (
        subst (λ (T : Tables). IsPlaced width T.jumps T.num_jumps s.offset) (sym e) p.jumps_placed);
  loads_placed =
      rw o
        (subst (λ (T : Tables). IsPlaced four T.loads T.num_loads s.offset) (sym e) p.loads_placed);
  leas_placed =
      rw o (subst (λ (T : Tables). IsPlaced four T.leas T.num_leas s.offset) (sym e) p.leas_placed);
  local_calls_placed = rw o (
      subst (λ (T : Tables). IsPlaced four T.local_calls T.num_local_calls s.offset) (sym e)
        p.local_calls_placed);
  apart = subst Apart (sym e) p.apart;
}

-- The emission does not look at where the dispatcher's address is.
IsEmitting-dispatcher :
    (s : JitState) (loc : ℕ) → IsEmitting s → IsEmitting (record s { dispatcher_loc = loc })
IsEmitting-dispatcher s loc v = record {
  in_buffer = v.in_buffer;
  no_wrap = v.no_wrap;
  jumps_fit = v.jumps_fit;
  loads_fit = v.loads_fit;
  leas_fit = v.leas_fit;
  local_calls_fit = v.local_calls_fit;
  begun = v.begun;
  placed = λ ok. ArePlaced-same s (record s { dispatcher_loc = loc }) refl refl (v.placed ok);
  says = v.says;
}

module _ (map : List ℕ) (function_address : Option ExternalFunction → ℕ)
    (dispatcher_address : Option Dispatcher → ℕ) (vm : Vm) where
  -- `n` helpers that were emitted without an error, from index `i` on.
  pub record HelpersEmitted (n i : ℕ) (s t : JitState) : Type 0 where
    pub begun : s.jit_status ≡ no_error
    pub all_on : t.offset ≡ s.offset + 8 * n
    pub each_there :
        (k : ℕ)
        → k < n
        → bytes_at t.buf (s.offset + 8 * k) 8 ≡ le_bytes 8 (function_address (vm.ext_funcs (i + k)))
    pub tables_stay : tables_of t ≡ tables_of s
    pub dispatcher_stays : t.dispatcher_loc ≡ s.dispatcher_loc

  -- A state without an error came from one.
  no_error_before : {s t : JitState} → Grows s t → t.jit_status ≡ no_error → s.jit_status ≡ no_error
  no_error_before {s} {t} g ok = elim (Bool-cases (is_no_error s.jit_status)) [
    | inl e ↦ no_error_of _ e
    | inr e ↦ absurd ((g.stuck (error_of _ e)).0 ok)
  ]

  -- The first slot is not written again, the others are those of the rest.
  slot_of :
      {s s₁ t : JitState} (n i : ℕ)
      → Emitted (function_address (vm.ext_funcs i)) s s₁
      → Grows s₁ t
      → HelpersEmitted n (i + 1) s₁ t
      → (k : ℕ) → k < suc n
      → bytes_at t.buf (s.offset + 8 * k) 8 ≡ le_bytes 8 (function_address (vm.ext_funcs (i + k)))
  slot_of {s} {s₁} {t} n i one rest more zero h =
      let here : s.offset ≡ s.offset + 8 * 0 = omega arith in
      let index : i ≡ i + 0 = omega arith in
      subst (λ a. bytes_at t.buf a 8 ≡ le_bytes 8 (function_address (vm.ext_funcs (i + 0)))) here
        (subst (λ j. bytes_at t.buf s.offset 8 ≡ le_bytes 8 (function_address (vm.ext_funcs j)))
          index
          (bytes_at-same t.buf s₁.buf s.offset 8
              (λ a p q. rest.bytes_kept a (omega (arith, one.eight_on)))
            ∙ one.value_there))
  slot_of {s} {s₁} {t} n i one rest more (suc k) h =
      let there : s₁.offset + 8 * k ≡ s.offset + 8 * suc k = omega (arith, one.eight_on) in
      let index : i + 1 + k ≡ i + suc k = omega arith in
      subst (λ a. bytes_at t.buf a 8 ≡ le_bytes 8 (function_address (vm.ext_funcs (i + suc k))))
        there
        (subst
          (λ j.
            bytes_at t.buf (s₁.offset + 8 * k) 8 ≡ le_bytes 8 (function_address (vm.ext_funcs j)))
          index (more.each_there k (omega arith)))

  pub emit_helpers-Emitted :
      (n i : ℕ) (s : JitState)
      → IsEmitting s
      → (emit_helpers map function_address dispatcher_address vm n i s).1.jit_status ≡ no_error
      → HelpersEmitted n i s (emit_helpers map function_address dispatcher_address vm n i s).1
  unfolding emit_helpers skip ◌>>=◌
  emit_helpers-Emitted zero i s v ok = record {
    begun = ok;
    all_on = omega arith;
    each_there = λ k h. absurd (omega arith);
    tables_stay = refl;
    dispatcher_stays = refl;
  }
  emit_helpers-Emitted (suc n) i s v ok =
      let x = function_address (vm.ext_funcs i) in
      let s₁ = (emit8 x s).1 in
      let t = (emit_helpers map function_address dispatcher_address vm n (i + 1) s₁).1 in
      let first = (emit8-Grows x).at s (Grows-refl v) in
      let rest =
        (emit_helpers-Grows map function_address dispatcher_address vm n (i + 1)).at s₁
          (Grows-refl first.emitting) in
      let one = emit8-Emitted x s v (no_error_before rest ok) in
      let more = emit_helpers-Emitted n (i + 1) s₁ first.emitting ok in
      record {
        begun = one.started;
        all_on = omega (arith, more.all_on, one.eight_on);
        each_there = λ k h. slot_of n i one rest more k h;
        tables_stay = more.tables_stay ∙ one.same_tables;
        dispatcher_stays = more.dispatcher_stays ∙ one.same_dispatcher;
      }

  -- An emission that ends in an error has not moved past all of its bytes.
  short_first :
      (x : ℕ) (s : JitState) → (emit8 x s).1.jit_status ≢ no_error → (emit8 x s).1.offset ≡ s.offset
  unfolding emit8 emit_bytes modify
  short_first x s bad = ground arith

  emit_helpers_short :
      (n i : ℕ) (s : JitState)
      → IsEmitting s
      → (emit_helpers map function_address dispatcher_address vm (suc n) i s).1.jit_status
        ≢ no_error
      → (emit_helpers map function_address dispatcher_address vm (suc n) i s).1.offset
        < s.offset + 8 * suc n
  unfolding emit_helpers skip ◌>>=◌
  emit_helpers_short zero i s v bad =
      omega (arith, short_first (function_address (vm.ext_funcs i)) s bad)
  emit_helpers_short (suc n) i s v bad =
      let x = function_address (vm.ext_funcs i) in
      let s₁ = (emit8 x s).1 in
      let first = (emit8-Grows x).at s (Grows-refl v) in
      let rest =
        (emit_helpers-Grows map function_address dispatcher_address vm (suc n) (i + 1)).at s₁
          (Grows-refl first.emitting) in
      elim (Bool-cases (is_no_error s₁.jit_status)) [
        | inr e ↦ omega (arith, (rest.stuck (error_of _ e)).1, short_first x s (error_of _ e))
        | inl e ↦ omega (
          arith,
          (emit8-Emitted x s v (no_error_of _ e)).eight_on,
          emit_helpers_short n (i + 1) s₁ first.emitting bad,
        )
      ]

  -- The end of the epilogue, from the dispatcher's address on.
  unfoldable pub emit_slots : Emit Unit
  emit_slots = do
    dispatcher ← emit_dispatched_external_helper_address map function_address dispatcher_address vm
    modify (λ s. record s { dispatcher_loc = dispatcher })
    helper_table ← emit_helper_table map function_address dispatcher_address vm
    modify (λ s. record s { helper_table_loc = helper_table })

  -- The addresses are the last 520 bytes of the code, behind every relocation.
  pub record HasSlots (s : JitState) : Type 0 where
    pub slots_follow : s.helper_table_loc ≡ s.dispatcher_loc + 8
    pub slots_end : s.offset ≡ s.helper_table_loc + 8 * max_ext_funcs
    pub dispatcher_there :
        bytes_at s.buf s.dispatcher_loc 8 ≡ le_bytes 8 (dispatcher_address vm.dispatcher)
    pub helpers_there :
        (k : ℕ)
        → k < max_ext_funcs
        → bytes_at s.buf (s.helper_table_loc + 8 * k) 8
          ≡ le_bytes 8 (function_address (vm.ext_funcs k))
    pub relocations_before : ArePlaced (record s { offset = s.dispatcher_loc })

  pub slots_of :
      (s : JitState)
      → IsEmitting s
      → (emit_slots s).1.jit_status ≡ no_error
      → HasSlots (emit_slots s).1
  unfolding emit_slots ◌>>=◌ modify gets pure emit_dispatched_external_helper_address
      emit_helper_table
  slots_of s v ok =
      let s₁ = (emit8 (dispatcher_address vm.dispatcher) s).1 in
      let s₂ = record s₁ { dispatcher_loc = s.offset } in
      let t = (emit_helpers map function_address dispatcher_address vm max_ext_funcs 0 s₂).1 in
      let first = (emit8-Grows (dispatcher_address vm.dispatcher)).at s (Grows-refl v) in
      let v₂ : IsEmitting s₂ = IsEmitting-dispatcher s₁ s.offset first.emitting in
      let rest =
        (emit_helpers-Grows map function_address dispatcher_address vm max_ext_funcs 0).at s₂
          (Grows-refl v₂) in
      let one = emit8-Emitted (dispatcher_address vm.dispatcher) s v (no_error_before rest ok) in
      let more = emit_helpers-Emitted max_ext_funcs 0 s₂ v₂ ok in
      record {
        slots_follow = subst (λ d. s₁.offset ≡ d + 8) (sym more.dispatcher_stays) one.eight_on;
        slots_end = more.all_on;
        dispatcher_there =
            subst (λ d. bytes_at t.buf d 8 ≡ le_bytes 8 (dispatcher_address vm.dispatcher))
              (sym more.dispatcher_stays)
              (bytes_at-same t.buf s₁.buf s.offset 8
                  (λ a p q. rest.bytes_kept a (omega (arith, one.eight_on)))
                ∙ one.value_there);
        helpers_there = λ k h.
            subst
              (λ j.
                bytes_at t.buf (s₁.offset + 8 * k) 8
                ≡ le_bytes 8 (function_address (vm.ext_funcs j)))
              (omega arith) (more.each_there k h);
        relocations_before =
            ArePlaced-same s (record t { helper_table_loc = s₁.offset; offset = t.dispatcher_loc })
              (more.tables_stay ∙ one.same_tables) more.dispatcher_stays (v.placed one.started);
      }

  -- Where the last 512 bytes of the code are the table, nothing is missing.
  pub whole_of :
      (s : JitState)
      → IsEmitting s
      → (emit_slots s).1.offset ≡ (emit_slots s).1.helper_table_loc + 8 * max_ext_funcs
      → (emit_slots s).1.jit_status ≡ no_error
  unfolding emit_slots ◌>>=◌ modify gets pure emit_dispatched_external_helper_address
      emit_helper_table
  whole_of s v h =
      let s₁ = (emit8 (dispatcher_address vm.dispatcher) s).1 in
      let s₂ = record s₁ { dispatcher_loc = s.offset } in
      let t = (emit_helpers map function_address dispatcher_address vm max_ext_funcs 0 s₂).1 in
      let first = (emit8-Grows (dispatcher_address vm.dispatcher)).at s (Grows-refl v) in
      let v₂ : IsEmitting s₂ = IsEmitting-dispatcher s₁ s.offset first.emitting in
      elim (Bool-cases (is_no_error t.jit_status)) [
        | inl e ↦ no_error_of _ e
        | inr e ↦
            absurd
              (let short = emit_helpers_short 63 0 s₂ v₂ (error_of _ e) in omega (arith, h, short))
      ]
