-- ===== src/Shadow/Registers.antt =====
-- Which registers `ubpf_validate_shadow_register` of libs/ubpf/vm/ubpf_vm.c asks for, said of the
-- operation instead of the bits of its opcode.
use appclick_ubpf.Prelude.{
  ℕ, ◌≡◌, ◌↔◌, refl, sym, ap, ◌∙◌, Bool, true, false, not, ◌&&◌, ◌||◌, Option, none, some, arith,
}
use appclick_ubpf.Prelude.{inl, inr, ==_iff, Bool-cases, ◌==◌, if◌then◌else◌, bit_or}
use appclick_ubpf.Isa.{
  Inst, Size, Width, AluOp, Source, Cond, imm, reg, w32, w64, mov, Op, alu, neg, le, be, ldx, st,
  stx, lddw, ja, jump, call, exit,
}
use appclick_ubpf.Isa.{decode, opcode_of}
use appclick_ubpf.Isa.Decode.{decode_iff}
use appclick_ubpf.Vm.{Vm}
use appclick_ubpf.Shadow.{
  uses, register_uses, is_initialized, alu_reads_dst, is_plain_mode, is_condition,
}
use appclick_ubpf.Shadow.{validate_shadow_register, forget_arguments, after_call, after_exit}
use appclick_ubpf.Shadow.{shadow_mask}

-- The operations that are asked for their source register: those that read it, and BE, whose
-- opcode has the bit of a source register although it has none.
abbrev pub asks_src : Op → Bool
asks_src (alu w o reg) = true
asks_src be = true
asks_src (ldx z) = true
asks_src (stx z) = true
asks_src (jump w c reg) = true
asks_src _ = false

-- The operations that read their destination register.
abbrev pub reads_dst : Op → Bool
reads_dst (alu w mov s) = false
reads_dst (alu w o s) = true
reads_dst (neg w) = true
reads_dst le = true
reads_dst be = true
reads_dst (st z) = true
reads_dst (stx z) = true
reads_dst (jump w c s) = true
reads_dst _ = false

abbrev pub writes_dst : Op → Bool
writes_dst (alu w o s) = true
writes_dst (neg w) = true
writes_dst le = true
writes_dst be = true
writes_dst (ldx z) = true
writes_dst lddw = true
writes_dst _ = false

abbrev pub is_exit : Op → Bool
is_exit exit = true
is_exit _ = false

uses_alu :
    (w : Width) (o : AluOp) (s : Source)
    → register_uses (opcode_of (alu w o s))
      ≡ uses (asks_src (alu w o s)) (reads_dst (alu w o s)) true
unfolding register_uses alu_reads_dst is_plain_mode is_condition opcode_of
uses_alu w32 o imm = ground arith
uses_alu w32 o reg = ground arith
uses_alu w64 o imm = ground arith
uses_alu w64 o reg = ground arith

uses_jump :
    (w : Width) (c : Cond) (s : Source)
    → register_uses (opcode_of (jump w c s)) ≡ uses (asks_src (jump w c s)) true false
unfolding register_uses alu_reads_dst is_plain_mode is_condition opcode_of
uses_jump w32 c imm = ground arith
uses_jump w32 c reg = ground arith
uses_jump w64 c imm = ground arith
uses_jump w64 c reg = ground arith

uses_access :
    (z : Size)
    → (register_uses (opcode_of (ldx z)) ≡ uses true false true)
      × (register_uses (opcode_of (st z)) ≡ uses false true false)
      × (register_uses (opcode_of (stx z)) ≡ uses true true false)
unfolding register_uses alu_reads_dst is_plain_mode is_condition opcode_of
uses_access z = (ground arith, ground arith, ground arith)

-- The bits of each opcode say what its operation asks for and writes.
pub register_uses-opcode_of :
    (op : Op) → register_uses (opcode_of op) ≡ uses (asks_src op) (reads_dst op) (writes_dst op)
unfolding register_uses alu_reads_dst is_plain_mode is_condition opcode_of
register_uses-opcode_of (alu w o s) = uses_alu w o s
register_uses-opcode_of (jump w c s) = uses_jump w c s
register_uses-opcode_of (neg w32) = refl
register_uses-opcode_of (neg w64) = refl
register_uses-opcode_of le = refl
register_uses-opcode_of be = refl
register_uses-opcode_of (ldx z) = (uses_access z).0
register_uses-opcode_of (st z) = (uses_access z).1
register_uses-opcode_of (stx z) = (uses_access z).2
register_uses-opcode_of lddw = refl
register_uses-opcode_of ja = refl
register_uses-opcode_of call = refl
register_uses-opcode_of exit = refl

exit_code : (op : Op) → (opcode_of op == opcode_of exit) ≡ is_exit op
unfolding opcode_of
exit_code (alu w32 o imm) = ground arith
exit_code (alu w32 o reg) = ground arith
exit_code (alu w64 o imm) = ground arith
exit_code (alu w64 o reg) = ground arith
exit_code (jump w32 c imm) = ground arith
exit_code (jump w32 c reg) = ground arith
exit_code (jump w64 c imm) = ground arith
exit_code (jump w64 c reg) = ground arith
exit_code (neg w32) = refl
exit_code (neg w64) = refl
exit_code le = refl
exit_code be = refl
exit_code (ldx z) = ground arith
exit_code (st z) = ground arith
exit_code (stx z) = ground arith
exit_code lddw = refl
exit_code ja = refl
exit_code call = refl
exit_code exit = refl

-- Every register that the operation asks for holds a value; an EXIT asks for r0.
abbrev pub is_ready : Op → ℕ → Inst → Bool
is_ready op shadow_registers i =
    (not (asks_src op) || is_initialized shadow_registers i.src)
    && ((not (reads_dst op) || is_initialized shadow_registers i.dst)
        && (not (is_exit op) || is_initialized shadow_registers 0))

after_call_exit : (i : Inst) (x : ℕ) → opcode_of exit ≡ i.opcode → after_call i x ≡ x
unfolding after_call opcode_of
after_call_exit i x e = rw (← e, after_call) refl

-- What is left behind the two tests: an EXIT without a value in r0 is an error.
ends_iff :
    (i : Inst) (op : Op) (x : ℕ)
    → opcode_of op ≡ i.opcode
    → ((m : ℕ) × (after_exit i (after_call i x) ≡ some m))
      ↔ ((not (is_exit op) || is_initialized x 0) ≡ true)
unfolding after_exit
ends_iff i op x e =
    let test : (i.opcode == opcode_of exit) ≡ is_exit op =
      ap (λ n. n == opcode_of exit) (sym e) ∙ exit_code op in
    elim (Bool-cases (is_exit op)) [
      | inl ends ↦
          let same : opcode_of exit ≡ i.opcode = sym ((==_iff _ _).0 (test ∙ ends)) in
          rw (after_call_exit i x same, after_exit, test, ends)
            (elim (Bool-cases (is_initialized x 0)) [
              | inl set ↦ rw set ((λ _. refl), λ _. (forget_arguments x, refl))
              | inr clear ↦ rw clear ((λ h. cc h.1), λ h. cc)
            ])
      | inr goes_on ↦ rw (after_exit, test, goes_on) ((λ _. refl), λ _. (after_call i x, refl))
    ]

-- An EXIT writes no register, so the test of r0 sees the mask that the instruction finds.
exit_writes_none :
    (op : Op) (x y : ℕ)
    → (not (is_exit op) || is_initialized (if writes_dst op then y else x) 0)
      ≡ (not (is_exit op) || is_initialized x 0)
exit_writes_none exit x y = refl
exit_writes_none _ x y = refl

-- Two tests before a result.
tested_iff :
    (a s b d last : Bool) (rest : Option ℕ)
    → ((m : ℕ) × (rest ≡ some m)) ↔ (last ≡ true)
    → ((m : ℕ) × ((if a && not s then none else if b && not d then none else rest) ≡ some m))
      ↔ (((not a || s) && ((not b || d) && last)) ≡ true)
tested_iff true false b d last rest h = ((λ e. cc e.1), λ e. cc)
tested_iff true true true false last rest h = ((λ e. cc e.1), λ e. cc)
tested_iff false s true false last rest h = ((λ e. cc e.1), λ e. cc)
tested_iff true true true true last rest h = h
tested_iff true true false d last rest h = h
tested_iff false s true true last rest h = h
tested_iff false s false d last rest h = h

-- With the checks on, an instruction with a known opcode is let through exactly if every register
-- that its operation asks for has been written: the source where the operation reads it and for
-- BE, the destination where the operation reads it, and r0 for EXIT.
pub validated_iff :
    (vm : Vm) (shadow_registers : ℕ) (i : Inst) (op : Op)
    → vm.undefined_behavior_check_enabled ≡ true
    → decode i.opcode ≡ some op
    → ((m : ℕ) × (validate_shadow_register vm shadow_registers i ≡ some m))
      ↔ (is_ready op shadow_registers i ≡ true)
unfolding validate_shadow_register
validated_iff vm shadow_registers i op on known =
    let code = (decode_iff i.opcode op).0 known in
    let asked : register_uses i.opcode ≡ uses (asks_src op) (reads_dst op) (writes_dst op) =
      ap register_uses (sym code) ∙ register_uses-opcode_of op in
    let written =
      if writes_dst op then bit_or shadow_registers (shadow_mask i.dst) else shadow_registers in
    let ends = ends_iff i op written code in
    let ends' =
      rw (exit_writes_none op shadow_registers (bit_or shadow_registers (shadow_mask i.dst))) at
        ends in
    let tests =
      tested_iff (asks_src op) (is_initialized shadow_registers i.src) (reads_dst op)
        (is_initialized shadow_registers i.dst)
        (not (is_exit op) || is_initialized shadow_registers 0)
        (after_exit i (after_call i written)) ends' in
    rw (on, validate_shadow_register, asked) tests
