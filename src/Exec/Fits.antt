-- ===== src/Exec/Fits.antt =====
-- Every variable of `ubpf_exec_ex` (libs/ubpf/vm/ubpf_vm.c) stays in the range of its C type.
use appclick_ubpf.Prelude.{ℕ, ◌+◌, ◌*◌, ◌^◌, ◌<◌, ◌≡◌, ◌∙◌, sym, inl, inr}
use appclick_ubpf.Prelude.{bit_or, ◌&&◌, some, arith, ℕ-cases, Bool-cases, Option-cases}
use appclick_ubpf.Prelude.{◌==◌, leb, update}
use appclick_ubpf.Prelude.{get_elem?}
use mathlib.Core.Path.{subst}
use appclick_ubpf.Prelude.Bits.{bit_or-lt}
use appclick_ubpf.Words.{u32, u64}
use appclick_ubpf.Isa.{Inst, IsInst, Op, alu, neg, le, be, ldx, st, stx, lddw, ja, jump, call, exit}
use appclick_ubpf.Isa.Encoding.{inst_of-IsInst}
use appclick_ubpf.Memory.{mem_load, mem_store}
use appclick_ubpf.Memory.Laws.{
  IsSize, mem_load-read_bytes, mem_store-write_bytes, read_bytes_bound, write_bytes-IsBytes,
}
use appclick_ubpf.Code.{fetch_instruction, scramble}
use appclick_ubpf.StackUsage.{stack_usage_for_local_func}
use appclick_ubpf.Alu.Fits.{negate-lt, to_le-lt, to_be-lt}
use appclick_ubpf.Jump.{holds}
use appclick_ubpf.Bounds.{bounds_check}
use appclick_ubpf.Shadow.{check_shadow_stack, check_stays, mark_stays}
use appclick_ubpf.Exec.Masks.{validate_shadow_register-lt, mark_shadow_stack-AreBytes}
use appclick_ubpf.Machine.{Run, State, Leads}
use appclick_ubpf.Perform.{
  perform, perform_load, perform_store, perform_call, perform_exit, perform_lddw, operand,
}
use appclick_ubpf.Perform.{external_function, call_external, call_local, address_of}
use appclick_ubpf.Exec.Faultless.{bytes_of-IsSize}
use appclick_ubpf.Exec.{step, entered, enter, leave, is_entry}
use appclick_ubpf.Exec.Rules.{Leads-step, Leads-run_inst, Leads-execute, Leads-guard, Leads-maybe}
use appclick_ubpf.Exec.Ranges.{
  IsState, IsFitOutcome, IsFitRun, write-lt, update-IsFrame, write-IsState, go-IsState, small_value,
  alu_by-lt, operand-lt, Fit,
}

module _ (run : Run) (fit_run : IsFitRun run) where
  perform_load_fits :
      (s : State) (i : Inst) {z : ℕ} → IsSize z → IsState s → Fit (perform_load run s i z)
  unfolding perform_load Fit IsFitOutcome
  perform_load_fits s i {z} size h =
      let address = address_of s i.src i in
      Leads-guard _ _ (check_stays run.vm run.regions s.shadow_stack address z) _ _ tt (λ _.
        Leads-guard _ _ (check_shadow_stack run.vm run.regions s.shadow_stack address z) _ _ h.bytes
          (λ _. Leads-guard _ _ (bounds_check run.vm run.regions address z) _ _ h.bytes (λ _.
            Leads-maybe _ _ (mem_load s.memory address z) _ tt (λ v loaded.
              let read = sym (mem_load-read_bytes s.memory address size) ∙ loaded in
              write-IsState s i.dst v h
                (small_value v size (read_bytes_bound s.memory address z v h.bytes read))))))

  perform_store_fits :
      (s : State) (i : Inst) (value : ℕ) {z : ℕ}
      → IsSize z
      → IsState s
      → Fit (perform_store run s i value z)
  unfolding perform_store Fit IsFitOutcome
  perform_store_fits s i value {z} size h =
      let address = address_of s i.dst i in
      Leads-guard _ _ (bounds_check run.vm run.regions address z) _ _ h.bytes (λ _.
        Leads-guard _ _ (mark_stays run.vm run.regions address z) _ _ tt (λ _.
          Leads-maybe _ _ (mem_store s.memory address value z) _ tt (λ m stored.
            let written = sym (mem_store-write_bytes s.memory address value size) ∙ stored in
            record {
              pc_fits = h.pc_fits;
              regs_fit = h.regs_fit;
              depth = h.depth;
              frames_fit = h.frames_fit;
              mask_fits = h.mask_fits;
              shadow_fits =
                  mark_shadow_stack-AreBytes run.vm run.regions s.shadow_stack address z
                    h.shadow_fits;
              previous_fits = h.previous_fits;
              limit_fits = h.limit_fits;
              bytes = write_bytes-IsBytes s.memory address value z m written h.bytes;
            })))

  perform_lddw_fits : (s : State) (i : Inst) → IsInst i → IsState s → Fit (perform_lddw run s i)
  unfolding perform_lddw Fit IsFitOutcome
  perform_lddw_fits s i fit h = Leads-maybe _ _ (fetch_instruction run.vm s.pc) _ tt (λ upper _.
      let value = bit_or (u32 i.imm) (u64 (upper.imm * 2 ^ 32)) in
      let small : value < 2 ^ 64 = bit_or-lt 64 _ _ (omega arith) (omega arith) in
      go-IsState (record s { reg = update s.reg i.dst value }) (s.pc + 1)
        (write-IsState s i.dst value h small))

  perform_exit_fits : (s : State) → IsState s → Fit (perform_exit s)
  unfolding perform_exit Fit IsFitOutcome
  perform_exit_fits s h = elim (ℕ-cases s.stack_frame_index) [
    | inl e ↦ rw (e, perform_exit) (h.regs_fit 0, h.bytes)
    | inr (n, e) ↦
        let frame = h.frames_fit n in
        rw (e, perform_exit)
          (record {
            pc_fits = frame.return_fits;
            regs_fit =
                write-lt _ 10 _
                  (write-lt _ 9 _
                    (write-lt _ 8 _
                      (write-lt _ 7 _ (write-lt _ 6 _ h.regs_fit (frame.saved_fit 0))
                        (frame.saved_fit 1))
                      (frame.saved_fit 2))
                    (frame.saved_fit 3))
                  (omega arith);
            depth = omega (arith, h.depth);
            frames_fit = h.frames_fit;
            mask_fits = h.mask_fits;
            shadow_fits = h.shadow_fits;
            previous_fits = h.previous_fits;
            limit_fits = h.limit_fits;
            bytes = h.bytes;
          })
  ]

  call_external_fits : (s : State) (i : Inst) → IsState s → Fit (call_external run s i)
  unfolding call_external Fit IsFitOutcome
  call_external_fits s i h = Leads-maybe _ _ (external_function run i.imm) _ tt (λ f found.
      let answer = f (s.reg 1) (s.reg 2) (s.reg 3) (s.reg 4) (s.reg 5) s.memory in
      let (small, bytes) =
        fit_run.answers_fit i.imm f found (s.reg 1) (s.reg 2) (s.reg 3) (s.reg 4) (s.reg 5) s.memory
          h.bytes in
      elim (Bool-cases ((i.imm == run.vm.unwind_stack_extension_index) && (answer.0 == 0))) [
        | inl e ↦ rw e (small, bytes)
        | inr e ↦ rw e (record {
          pc_fits = h.pc_fits;
          regs_fit = write-lt s.reg 0 (answer.0) h.regs_fit small;
          depth = h.depth;
          frames_fit = h.frames_fit;
          mask_fits = h.mask_fits;
          shadow_fits = h.shadow_fits;
          previous_fits = h.previous_fits;
          limit_fits = h.limit_fits;
          bytes = bytes;
        })
      ])

  call_local_fits : (s : State) (i : Inst) → IsState s → Fit (call_local s i)
  unfolding call_local Fit IsFitOutcome
  call_local_fits s i h = elim (Bool-cases (leb 10 s.stack_frame_index)) [
    | inl e ↦ rw (e, call_local) h.bytes
    | inr e ↦
        rw (e, call_local)
          (record {
            pc_fits = omega arith;
            regs_fit = write-lt s.reg 10 _ h.regs_fit (omega arith);
            depth = ground arith;
            frames_fit = update-IsFrame s.stack_frames s.stack_frame_index _ h.frames_fit (record {
              usage_fits = (h.frames_fit s.stack_frame_index).usage_fits;
              return_fits = h.pc_fits;
              saved_fit =
                  write-lt _ 3 _
                    (write-lt _ 2 _
                      (write-lt _ 1 _
                        (write-lt _ 0 _ (h.frames_fit s.stack_frame_index).saved_fit (h.regs_fit 6))
                        (h.regs_fit 7))
                      (h.regs_fit 8))
                    (h.regs_fit 9);
            });
            mask_fits = h.mask_fits;
            shadow_fits = h.shadow_fits;
            previous_fits = h.previous_fits;
            limit_fits = h.limit_fits;
            bytes = h.bytes;
          })
  ]

  perform_call_fits : (s : State) (i : Inst) → IsState s → Fit (perform_call run s i)
  unfolding perform_call Fit IsFitOutcome
  perform_call_fits s i h = elim (Bool-cases (i.src == 0)) [
    | inl e ↦ rw (e, perform_call) (call_external_fits s i h)
    | inr e ↦ elim (Bool-cases (i.src == 1)) [
      | inl e' ↦ rw (e, perform_call, e') (call_local_fits s i h)
      | inr e' ↦ elim (Bool-cases (i.src == 2)) [
        | inl e'' ↦ rw (e, perform_call, e', e'') h.bytes
        | inr e'' ↦ rw (e, perform_call, e', e'') h
      ]
    ]
  ]

  perform_fits : (s : State) (i : Inst) (op : Op) → IsInst i → IsState s → Fit (perform run s i op)
  unfolding perform Fit IsFitOutcome
  perform_fits s i (alu w o src) fit h =
      write-IsState s i.dst _ h (
        alu_by-lt w o (s.reg i.dst) (operand s i src) (h.regs_fit i.dst) (operand-lt s i src h fit))
  perform_fits s i (neg w) fit h = write-IsState s i.dst _ h (negate-lt w (s.reg i.dst))
  perform_fits s i le fit h =
      write-IsState s i.dst _ h (to_le-lt i.imm (s.reg i.dst) (h.regs_fit i.dst))
  perform_fits s i be fit h =
      write-IsState s i.dst _ h (to_be-lt i.imm (s.reg i.dst) (h.regs_fit i.dst))
  perform_fits s i (ldx z) fit h = perform_load_fits s i (bytes_of-IsSize z) h
  perform_fits s i (st z) fit h = perform_store_fits s i _ (bytes_of-IsSize z) h
  perform_fits s i (stx z) fit h = perform_store_fits s i _ (bytes_of-IsSize z) h
  perform_fits s i lddw fit h = perform_lddw_fits s i fit h
  perform_fits s i ja fit h = go-IsState s _ h
  perform_fits s i (jump w c src) fit h =
      elim (Bool-cases (holds w c (s.reg i.dst) (operand s i src))) [
        | inl e ↦ rw (e, perform) (go-IsState s _ h)
        | inr e ↦ rw (e, perform) h
      ]
  perform_fits s i call fit h = perform_call_fits s i h
  perform_fits s i exit fit h = perform_exit_fits s h

  usage-lt : (pc : ℕ) → stack_usage_for_local_func run.vm pc < 2 ^ 16
  unfolding stack_usage_for_local_func
  usage-lt pc = ground (arith, fit_run.usages_fit pc)

  entered-IsState :
      (s : State) (shadow : ℕ) → shadow < 2 ^ 16 → IsState s → IsState (entered run s shadow)
  unfolding enter
  entered-IsState s shadow small h = record {
    pc_fits = omega arith;
    regs_fit = h.regs_fit;
    depth = h.depth;
    frames_fit = elim (Bool-cases (is_entry run.vm s)) [
      | inl e ↦ rw e (
          update-IsFrame s.stack_frames s.stack_frame_index _ h.frames_fit (record {
            usage_fits = usage-lt s.pc;
            return_fits = (h.frames_fit s.stack_frame_index).return_fits;
            saved_fit = (h.frames_fit s.stack_frame_index).saved_fit;
          }))
      | inr e ↦ rw e h.frames_fit
    ];
    mask_fits = small;
    shadow_fits = h.shadow_fits;
    previous_fits = h.previous_fits;
    limit_fits = ground (arith, h.limit_fits);
    bytes = h.bytes;
  }

  leave-IsState : (i : Inst) (s : State) → IsInst i → IsState s → IsState (leave i s)
  unfolding leave
  leave-IsState i s fit h = record {
    pc_fits = h.pc_fits;
    regs_fit = λ r. ground (arith, h.regs_fit r);
    depth = h.depth;
    frames_fit = h.frames_fit;
    mask_fits = h.mask_fits;
    shadow_fits = h.shadow_fits;
    previous_fits = fit;
    limit_fits = h.limit_fits;
    bytes = h.bytes;
  }

fetch-IsInst : (run : Run) (pc : ℕ) (i : Inst) → fetch_instruction run.vm pc ≡ some i → IsInst i
unfolding fetch_instruction scramble
fetch-IsInst run pc i e = elim (Option-cases run.vm.insts) [
  | inl h ↦ absurd (cc (rw (h, fetch_instruction) at e))
  | inr (code, h) ↦ elim (Option-cases (get_elem? code.stored pc)) [
    | inl h' ↦ absurd (cc (rw (h, fetch_instruction, h') at e))
    | inr (stored, h') ↦
        let same : scramble code.address run.vm.pointer_secret stored ≡ i =
          cc (rw (h, fetch_instruction, h') at e) in
        subst IsInst same (inst_of-IsInst _)
  ]
]

-- Where external functions answer 64-bit values and write bytes, and the recorded stack usages are
-- 16-bit numbers: from a state whose variables are in their ranges, a round ends in such a state,
-- or ends the run with a 64-bit value. The registers stay below 2^64, the program counter and the
-- mask of the written registers below 2^16, the instruction limit below 2^32, no more than ten calls
-- are ever open, the fields of the frames and of the previous instruction fit their types, and the
-- shadow stack and memory hold bytes. Validation is not needed for this.
pub step_fits :
    (run : Run) (s : State) → IsFitRun run → IsState s → Leads IsState IsFitOutcome (step run s)
unfolding IsFitOutcome Fit
step_fits run s fit h = Leads-step _ _ run s h.bytes (λ _ _.
    Leads-run_inst _ _ run s h.bytes (λ _. tt)
      (λ i shadow fetched validated.
        let inst = fetch-IsInst run s.pc i fetched in
        let small =
          validate_shadow_register-lt run.vm s.shadow_registers shadow i inst h.mask_fits
            validated in
        let inside = entered-IsState run fit s shadow small h in
        Leads-execute IsState _ _ run (entered run s shadow) i inside.bytes
          (λ op known. perform_fits run fit (entered run s shadow) i op inst inside)
          (λ s' fine. leave-IsState run fit i s' inst fine)))
