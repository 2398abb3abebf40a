-- ===== src/Shadow.antt =====
-- The undefined behaviour checks of libs/ubpf/vm/ubpf_vm.c: which stack bytes and which registers
-- have been written.
pub mod Stack
pub mod Registers
pub mod Length
use appclick_ubpf.Prelude.{
  ℕ, zero, suc, ◌+◌, ◌-◌, ◌*◌, ◌/◌, ◌%◌, ◌^◌, Bool, true, false, not, ◌&&◌, ◌||◌,
}
use appclick_ubpf.Prelude.{Option, none, some}
use appclick_ubpf.Prelude.{bit_and, bit_or, ◌==◌, ◌!=◌, ltb, leb, if◌then◌else◌, update}
use appclick_ubpf.Words.{u64}
use appclick_ubpf.Isa.{Inst, call, exit, opcode_of}
use appclick_ubpf.Vm.{Vm}
use appclick_ubpf.Bounds.{Regions, is_within}

-- The bytes of the shadow stack: a bit for each byte of the stack. The array has
-- `stack_length / 8` bytes, rounded down; what lies behind it is not looked at, since a read or a
-- write there ends the run in a crash (`check_stays`, `mark_stays`).
abbrev pub ShadowStack : Type 0
ShadowStack = ℕ → ℕ

-- `shadow_stack[bit_offset] |= bit_mask` for `left` bits from `test_bit` on.
unfoldable pub mark_bits : ShadowStack → (test_bit left : ℕ) → ShadowStack
mark_bits shadow test_bit zero = shadow
mark_bits shadow test_bit (suc left) =
    mark_bits (update shadow (test_bit / 8) (bit_or (shadow (test_bit / 8)) (2 ^ (test_bit % 8))))
      (test_bit + 1) left

-- Whether `left` bits from `test_bit` on are all set.
unfoldable pub check_bits : ShadowStack → (test_bit left : ℕ) → Bool
check_bits shadow test_bit zero = true
check_bits shadow test_bit (suc left) =
    if bit_and (shadow (test_bit / 8)) (2 ^ (test_bit % 8)) == 0
    then false
    else check_bits shadow (test_bit + 1) left

-- `calloc(stack_length / 8, 1)`.
abbrev pub shadow_length : Regions → ℕ
shadow_length r = r.stack_length / 8

-- Whether the loop over `left` bits from `test_bit` on writes to the array only.
unfoldable pub mark_bits_stay : (length test_bit left : ℕ) → Bool
mark_bits_stay length test_bit zero = true
mark_bits_stay length test_bit (suc left) =
    ltb (test_bit / 8) length && mark_bits_stay length (test_bit + 1) left

-- The same for the loop that reads, which stops at the first bit that is not set.
unfoldable pub check_bits_stay : (length : ℕ) → ShadowStack → (test_bit left : ℕ) → Bool
check_bits_stay length shadow test_bit zero = true
check_bits_stay length shadow test_bit (suc left) =
    ltb (test_bit / 8) length
    && ((bit_and (shadow (test_bit / 8)) (2 ^ (test_bit % 8)) == 0)
        || check_bits_stay length shadow (test_bit + 1) left)

-- `ubpf_mark_shadow_stack`.
unfoldable pub mark_shadow_stack : Vm → Regions → ShadowStack → (address size : ℕ) → ShadowStack
unfolding mark_bits
mark_shadow_stack vm r shadow address size =
    if not vm.undefined_behavior_check_enabled
    then shadow
    else (let access_end = u64 (address + size) in
        if ltb access_end address
        then shadow
        else if is_within address access_end r.stack_start r.stack_length
        then mark_bits shadow (address - r.stack_start) size
        else shadow)

-- `ubpf_check_shadow_stack`.
unfoldable pub check_shadow_stack : Vm → Regions → ShadowStack → (address size : ℕ) → Bool
unfolding check_bits
check_shadow_stack vm r shadow address size =
    if not vm.undefined_behavior_check_enabled
    then true
    else (let access_end = u64 (address + size) in
        if ltb access_end address
        then true
        else if is_within address access_end r.stack_start r.stack_length
        then check_bits shadow (address - r.stack_start) size
        else true)

-- Whether `ubpf_mark_shadow_stack` and `ubpf_check_shadow_stack` keep to the array.
unfoldable pub mark_stays : Vm → Regions → (address size : ℕ) → Bool
mark_stays vm r address size =
    if not vm.undefined_behavior_check_enabled
    then true
    else (let access_end = u64 (address + size) in
        if ltb access_end address
        then true
        else if is_within address access_end r.stack_start r.stack_length
        then mark_bits_stay (shadow_length r) (address - r.stack_start) size
        else true)

unfoldable pub check_stays : Vm → Regions → ShadowStack → (address size : ℕ) → Bool
check_stays vm r shadow address size =
    if not vm.undefined_behavior_check_enabled
    then true
    else (let access_end = u64 (address + size) in
        if ltb access_end address
        then true
        else if is_within address access_end r.stack_start r.stack_length
        then check_bits_stay (shadow_length r) shadow (address - r.stack_start) size
        else true)

-- What an instruction asks of its registers, and whether it writes the destination.
pub record Uses : Type 0 where
  pub src_register_required : Bool
  pub dst_register_required : Bool
  pub dst_register_initialized : Bool

abbrev uses : Bool → Bool → Bool → Uses
uses src dst writes = record {
  src_register_required = src;
  dst_register_required = dst;
  dst_register_initialized = writes;
}

-- `inst.opcode & EBPF_SRC_REG`.
abbrev has_source : ℕ → Bool
has_source opcode = bit_and opcode 0x08 != 0

-- The operations of the classes ALU and ALU64 that read their destination: 0xb0 is MOV, and
-- 0xe0 and 0xf0 are none.
unfoldable pub alu_reads_dst : ℕ → Bool
alu_reads_dst op = not ((op == 0xb0) || ((op == 0xe0) || (op == 0xf0)))

-- The modes of the classes JMP and JMP32: JA, CALL and EXIT read no register, 0xe0 and 0xf0 are
-- none.
unfoldable pub is_plain_mode : ℕ → Bool
is_plain_mode mode = (mode == 0x00) || ((mode == 0x80) || (mode == 0x90))

unfoldable pub is_condition : ℕ → Bool
unfolding is_plain_mode
is_condition mode = not (is_plain_mode mode || ((mode == 0xe0) || (mode == 0xf0)))

-- The `switch` over the class.
unfoldable pub register_uses : ℕ → Uses
unfolding alu_reads_dst is_plain_mode is_condition
register_uses opcode =
    let class = bit_and opcode 0x07 in
    let high = bit_and opcode 0xf0 in
    if class == 0x00
    then uses false false true
    else if class == 0x01
    then uses true false true
    else if class == 0x02
    then uses false true false
    else if class == 0x03
    then uses true true false
    else if (class == 0x04) || (class == 0x07)
    then uses (has_source opcode) (alu_reads_dst high) true
    else uses (has_source opcode && not (is_plain_mode high)) (is_condition high) false

-- `REGISTER_TO_SHADOW_MASK`.
abbrev pub shadow_mask : ℕ → ℕ
shadow_mask reg = 2 ^ reg

abbrev pub is_initialized : ℕ → ℕ → Bool
is_initialized shadow_registers reg = bit_and shadow_registers (shadow_mask reg) != 0

-- The bits of r1 to r5 cleared in a 16-bit mask.
unfoldable pub forget_arguments : ℕ → ℕ
forget_arguments shadow_registers = bit_and shadow_registers (2 ^ 16 - 1 - 0x3e)

-- What an external call and a return do to the mask; `none` is a return without a value in r0.
unfoldable pub after_call : Inst → ℕ → ℕ
unfolding forget_arguments
after_call inst shadow_registers =
    if (inst.opcode == opcode_of call) && (inst.src == 0)
    then forget_arguments (bit_or shadow_registers (shadow_mask 0))
    else shadow_registers

unfoldable pub after_exit : Inst → ℕ → Option ℕ
unfolding forget_arguments
after_exit inst shadow_registers =
    if inst.opcode == opcode_of exit
    then (if not (is_initialized shadow_registers 0)
        then none
        else some (forget_arguments shadow_registers))
    else some shadow_registers

-- `ubpf_validate_shadow_register`: the new mask, or `none` for an error.
unfoldable pub validate_shadow_register : Vm → ℕ → Inst → Option ℕ
unfolding register_uses after_call after_exit
validate_shadow_register vm shadow_registers inst =
    if not vm.undefined_behavior_check_enabled
    then some shadow_registers
    else (let u = register_uses inst.opcode in
        if u.src_register_required && not (is_initialized shadow_registers inst.src)
        then none
        else if u.dst_register_required && not (is_initialized shadow_registers inst.dst)
        then none
        else (let written =
              if u.dst_register_initialized
              then bit_or shadow_registers (shadow_mask inst.dst)
              else shadow_registers in
            after_exit inst (after_call inst written)))
