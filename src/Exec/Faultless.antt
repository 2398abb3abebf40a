-- ===== src/Exec/Faultless.antt =====
-- No instruction of a validated program crashes `ubpf_exec_ex` (libs/ubpf/vm/ubpf_vm.c).
use appclick_ubpf.Prelude.{ℕ, ◌+◌, ◌^◌, ◌<◌, ◌≡◌, ◌≢◌, inl, inr, ◌∙◌, sym, ap, get_elem?-lt}
use appclick_ubpf.Prelude.{true, false, ◌&&◌, some, List, get_elem?}
use appclick_ubpf.Prelude.{arith, ℕ-cases, Bool-cases, Option-cases, ◌==◌, leb}
use appclick_ubpf.Words.{u16}
use appclick_ubpf.Isa.{Inst, Op, alu, neg, le, be, ldx, st, stx, lddw, ja, jump, call, exit}
use appclick_ubpf.Isa.{Size, byte, half, word, dword}
use appclick_ubpf.Memory.{Memory, mem_load, mem_store}
use appclick_ubpf.Memory.Laws.{IsMapped, IsSize, one, two, four, eight, mem_load-read_bytes}
use appclick_ubpf.Memory.Laws.{
  mem_store-write_bytes, read_bytes_mapped, write_bytes_mapped, write_bytes-IsMapped,
}
use appclick_ubpf.Vm.{max_ext_funcs}
use appclick_ubpf.Code.{fetch_instruction}
use appclick_ubpf.Bounds.{bounds_check, is_accepted}
use appclick_ubpf.Bounds.Laws.{IsRegion, bounds_check_iff}
use appclick_ubpf.Validate.Spec.{IsValidProgram, IsValidOp, IsValidCall, is_callable}
use appclick_ubpf.Load.Correct.{Holds}
use appclick_ubpf.Shadow.{check_shadow_stack}
use appclick_ubpf.Shadow.Length.{HasShadow, mark_stays_in, check_stays_in}
use appclick_ubpf.Jump.{holds}
use appclick_ubpf.Machine.{Run, State, Outcome, fault, Leads}
use appclick_ubpf.Perform.{
  perform, perform_load, perform_store, perform_call, perform_exit, perform_lddw, bytes_of,
}
use appclick_ubpf.Perform.{external_function, operand, call_external, call_local, address_of}
use appclick_ubpf.Exec.Rules.{Leads-guard, Leads-found}

-- Every address that the first memory maps, the second maps too.
abbrev pub Covers : Memory → Memory → Type 0
Covers m m' = (x v : ℕ) → m x ≡ some v → (w : ℕ) × (m' x ≡ some w)

-- What a run needs of its surroundings: the machine checks the bounds; with the undefined behaviour
-- check on, the length of the stack is divisible by eight; the memory, the stack, and
-- what the registered function accepts are mapped when the run begins; external functions unmap
-- nothing.
pub record IsSurrounded (run : Run) (initial : Memory) : Type 0 where
  pub checked : run.vm.bounds_check_enabled ≡ true
  pub mem_region : IsRegion run.regions.mem run.regions.mem_len
  pub stack_region : IsRegion run.regions.stack_start run.regions.stack_length
  pub shadowed : HasShadow run.vm run.regions
  pub mem_mapped : IsMapped initial run.regions.mem run.regions.mem_len
  pub stack_mapped : IsMapped initial run.regions.stack_start run.regions.stack_length
  pub accepted_mapped :
      (addr size : ℕ) → is_accepted run.vm addr size ≡ true → IsMapped initial addr size
  pub external_covers :
      (index : ℕ) (f : ℕ → ℕ → ℕ → ℕ → ℕ → Memory → ℕ × Memory)
      → external_function run index ≡ some f
      → (a b c d e : ℕ) (m : Memory) → Covers m (f a b c d e m).1

-- The machine holds a valid program, in such surroundings.
pub record IsSafeRun (run : Run) (insts : List Inst) (initial : Memory) : Type 0 where
  pub holds : Holds run.vm insts
  pub valid : IsValidProgram run.vm insts
  pub around : IsSurrounded run initial

abbrev pub IsNoFault : Outcome → Type 0
IsNoFault o = o ≢ fault

pub bytes_of-IsSize : (z : Size) → IsSize (bytes_of z)
bytes_of-IsSize byte = one
bytes_of-IsSize half = two
bytes_of-IsSize word = four
bytes_of-IsSize dword = eight

IsSize-bounds : {n : ℕ} → IsSize n → (0 < n) × (n < 2 ^ 32)
IsSize-bounds one = (omega arith, omega arith)
IsSize-bounds two = (omega arith, omega arith)
IsSize-bounds four = (omega arith, omega arith)
IsSize-bounds eight = (omega arith, omega arith)

module _ (run : Run) (insts : List Inst) (initial : Memory)
    (safe : IsSafeRun run insts initial) where
  -- What the check lets through is mapped.
  checked-IsMapped :
      (m : Memory) (addr size : ℕ)
      → Covers initial m
      → bounds_check run.vm run.regions addr size ≡ true
      → addr < 2 ^ 64
      → 0 < size
      → size < 2 ^ 32
      → IsMapped m addr size
  checked-IsMapped m addr size covers passes fits pos small x low high =
      let inside =
        (bounds_check_iff run.vm run.regions addr size safe.around.checked safe.around.mem_region
            safe.around.stack_region fits pos small).0
          passes in
      let start : (v : ℕ) × (initial x ≡ some v) = elim inside.1 [
        | inl (p, q) ↦ safe.around.mem_mapped x (omega arith) (omega arith)
        | inr (inl (p, q)) ↦ safe.around.stack_mapped x (omega arith) (omega arith)
        | inr (inr accepted) ↦ safe.around.accepted_mapped addr size accepted x low high
      ] in
      covers x start.0 start.1

  unfoldable pub Kept : State → Type 0
  Kept s = Covers initial s.memory

  perform_load_safe :
      (s : State) (i : Inst) {z : ℕ}
      → IsSize z
      → Covers initial s.memory
      → Leads Kept IsNoFault (perform_load run s i z)
  unfolding perform_load Kept
  perform_load_safe s i {z} size covers =
      let (pos, small) = IsSize-bounds size in
      let address = address_of s i.src i in
      let stays =
        check_stays_in run.vm run.regions s.shadow_stack address z safe.around.shadowed
          safe.around.stack_region (omega arith) small in
      rw stays (
        Leads-guard _ _ (check_shadow_stack run.vm run.regions s.shadow_stack address z) _ _
          (λ e. cc)
          (λ _.
            Leads-guard _ _ (bounds_check run.vm run.regions address z) _ _ (λ e. cc)
              (λ e.
                let mapped = checked-IsMapped s.memory address z covers e (omega arith) pos small in
                let (v, r) = read_bytes_mapped s.memory address z mapped in
                Leads-found _ _ (mem_load s.memory address z) _
                  (v, mem_load-read_bytes s.memory address size ∙ r) (λ _ _. covers))))

  perform_store_safe :
      (s : State) (i : Inst) (value : ℕ) {z : ℕ}
      → IsSize z
      → Covers initial s.memory
      → Leads Kept IsNoFault (perform_store run s i value z)
  unfolding perform_store Kept
  perform_store_safe s i value {z} size covers =
      let (pos, small) = IsSize-bounds size in
      let address = address_of s i.dst i in
      Leads-guard _ _ (bounds_check run.vm run.regions address z) _ _ (λ e. cc)
        (λ e.
          let mapped = checked-IsMapped s.memory address z covers e (omega arith) pos small in
          let (m, r) = write_bytes_mapped s.memory address value z mapped in
          let same = mem_store-write_bytes s.memory address value size in
          let stays =
            mark_stays_in run.vm run.regions address z safe.around.shadowed safe.around.stack_region
              (omega arith) small in
          rw stays (
            Leads-found _ _ (mem_store s.memory address value z) _ (m, same ∙ r)
              (λ m' stored x v at.
                let (w, now) = covers x v at in
                write_bytes-IsMapped s.memory address value z m' (sym same ∙ stored) x w now)))

  -- The call of a valid program finds its function.
  external_found :
      (i : ℕ)
      → i < 64
      → is_callable run.vm i ≡ true
      → (f : ℕ → ℕ → ℕ → ℕ → ℕ → Memory → ℕ × Memory) × (external_function run i ≡ some f)
  unfolding external_function
  external_found i small callable = elim (Option-cases run.vm.dispatcher) [
    | inr (d, e) ↦ ((λ a b c d' e'. d a b c d' e' i run.regions.mem), simp (e, external_function))
    | inl e ↦ elim (Option-cases (run.vm.ext_funcs i)) [
      | inl e' ↦ absurd (cc (rw (e, is_callable, e') at callable))
      | inr (f, e') ↦
          let in_table : leb max_ext_funcs i ≡ false = ground arith in
          (f, simp (e, external_function, in_table, e'))
    ]
  ]

  call_external_safe :
      (s : State) (i : Inst)
      → i.imm < 64
      → is_callable run.vm i.imm ≡ true
      → Covers initial s.memory
      → Leads Kept IsNoFault (call_external run s i)
  unfolding call_external Kept
  call_external_safe s i small callable covers =
      Leads-found _ _ (external_function run i.imm) _ (external_found i.imm small callable)
        (λ f found.
          let answer = f (s.reg 1) (s.reg 2) (s.reg 3) (s.reg 4) (s.reg 5) s.memory in
          elim (Bool-cases ((i.imm == run.vm.unwind_stack_extension_index) && (answer.0 == 0))) [
            | inl e ↦ rw e (λ e. cc)
            | inr e ↦ rw e (λ x v at.
                let (w, now) = covers x v at in
                safe.around.external_covers i.imm f found _ _ _ _ _ s.memory x w now)
          ])

  perform_call_safe :
      (j : ℕ) (s : State) (i : Inst)
      → IsValidCall run.vm insts j i
      → Covers initial s.memory
      → Leads Kept IsNoFault (perform_call run s i)
  unfolding perform_call call_local Kept
  perform_call_safe j s i (inl (external, small, callable)) covers =
      rw (external, perform_call) (call_external_safe s i small callable covers)
  perform_call_safe j s i (inr (local, _, _)) covers = rw (local, perform_call) (ground arith)

  perform_lddw_safe :
      (j : ℕ) (s : State) (i upper : Inst)
      → get_elem? insts (j + 1) ≡ some upper
      → s.pc ≡ u16 (j + 1)
      → Covers initial s.memory
      → Leads Kept IsNoFault (perform_lddw run s i)
  unfolding perform_lddw Kept
  perform_lddw_safe j s i upper at pc covers =
      let here : s.pc ≡ j + 1 = omega (arith, get_elem?-lt insts (j + 1) at, safe.valid.fits) in
      let fetched = ap (fetch_instruction run.vm) here ∙ safe.holds.1 (j + 1) ∙ at in
      Leads-found _ _ (fetch_instruction run.vm s.pc) _ (upper, fetched) (λ _ _. covers)

  perform_exit_safe : (s : State) → Covers initial s.memory → Leads Kept IsNoFault (perform_exit s)
  unfolding perform_exit Kept
  perform_exit_safe s covers = elim (ℕ-cases s.stack_frame_index) [
    | inl e ↦ rw (e, perform_exit) (λ e. cc)
    | inr (n, e) ↦ rw (e, perform_exit) covers
  ]

  pub perform_safe :
      (j : ℕ) (s : State) (i : Inst) (op : Op)
      → IsValidOp run.vm insts j i op
      → s.pc ≡ u16 (j + 1)
      → Covers initial s.memory
      → Leads Kept IsNoFault (perform run s i op)
  unfolding perform perform_exit Kept
  perform_safe j s i (ldx z) ok pc covers = perform_load_safe s i (bytes_of-IsSize z) covers
  perform_safe j s i (st z) ok pc covers = perform_store_safe s i _ (bytes_of-IsSize z) covers
  perform_safe j s i (stx z) ok pc covers = perform_store_safe s i _ (bytes_of-IsSize z) covers
  perform_safe j s i lddw (_, upper, at, _) pc covers = perform_lddw_safe j s i upper at pc covers
  perform_safe j s i call ok pc covers = perform_call_safe j s i ok covers
  perform_safe j s i (jump w c src) ok pc covers =
      elim (Bool-cases (holds w c (s.reg i.dst) (operand s i src))) [
        | inl e ↦ rw (e, perform) covers
        | inr e ↦ rw (e, perform) covers
      ]
  perform_safe j s i exit ok pc covers = perform_exit_safe s covers
  perform_safe j s i (alu w o src) ok pc covers = covers
  perform_safe j s i (neg w) ok pc covers = covers
  perform_safe j s i le ok pc covers = covers
  perform_safe j s i be ok pc covers = covers
  perform_safe j s i ja ok pc covers = covers
