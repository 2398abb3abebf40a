-- ===== src/Jit/Emit.antt =====
-- The emitters of libs/ubpf/vm/ubpf_jit_x86_64.h that put bytes and relocations in the buffer. An
-- `int` is the pattern of its 32 bits, an `int64_t` of its 64.
pub mod Instructions
pub mod Apart
pub mod Grows
use appclick_ubpf.Prelude.{
  ℕ, zero, suc, ◌+◌, ◌*◌, ◌/◌, ◌%◌, ◌^◌, bit_and, bit_or, Bool, true, false, not, ◌&&◌, ◌||◌, List,
  [], ◌∷◌,
}
use appclick_ubpf.Prelude.{ltb, ◌==◌, ◌!=◌, if◌then◌else◌, length, update}
use appclick_ubpf.Words.{u32, pos, negsuc, leb_ℤ, signed32}
use appclick_ubpf.Vm.{max_insts}
use appclick_ubpf.Jit.State.{
  JitState, JitProgress, PatchableRelative, is_no_error, not_enough_space, too_many_jumps,
  too_many_local_calls, Emit, modify, pure, gets, when, ◌>>=◌, ◌>>◌,
}
use appclick_ubpf.Jit.Support.{emit_patchable_relative, emit_patchable_relative_ex}

-- The registers.
abbrev pub rax : ℕ
rax = 0

abbrev pub rcx : ℕ
rcx = 1

abbrev pub rdx : ℕ
rdx = 2

abbrev pub rbx : ℕ
rbx = 3

abbrev pub rsp : ℕ
rsp = 4

abbrev pub rbp : ℕ
rbp = 5

abbrev pub rsi : ℕ
rsi = 6

abbrev pub rdi : ℕ
rdi = 7

abbrev pub volatile_ctxt : ℕ
volatile_ctxt = 11

-- The bytes of a number of `n` bytes, lowest first.
unfoldable pub le_bytes : ℕ → ℕ → List ℕ
le_bytes zero x = []
le_bytes (suc n) x = x % 256 ∷ le_bytes n (x / 256)

-- `memcpy` into the buffer.
unfoldable pub copy_bytes : (ℕ → ℕ) → ℕ → List ℕ → ℕ → ℕ
copy_bytes buf loc [] = buf
copy_bytes buf loc (x ∷ xs) = copy_bytes (update buf loc x) (loc + 1) xs

-- `emit_bytes`: nothing after an error, and an error where the bytes do not fit. The addition is
-- on `uint32_t`.
unfoldable pub emit_bytes : List ℕ → Emit Unit
emit_bytes bytes = modify (λ state.
    if not (is_no_error state.jit_status)
    then state
    else if ltb state.size (u32 (state.offset + length bytes))
    then record state { jit_status = not_enough_space }
    else record state {
      buf = copy_bytes state.buf state.offset bytes;
      offset = u32 (state.offset + length bytes);
    })

unfoldable pub emit1 : ℕ → Emit Unit
emit1 x = emit_bytes (le_bytes 1 x)

unfoldable pub emit2 : ℕ → Emit Unit
emit2 x = emit_bytes (le_bytes 2 x)

unfoldable pub emit4 : ℕ → Emit Unit
emit4 x = emit_bytes (le_bytes 4 x)

unfoldable pub emit8 : ℕ → Emit Unit
emit8 x = emit_bytes (le_bytes 8 x)

unfoldable pub emit_4byte_offset_placeholder : Emit Unit
emit_4byte_offset_placeholder = emit4 0

-- `state->jit_status = …`.
unfoldable pub set_jit_status : JitProgress → Emit Unit
set_jit_status status = modify (λ state. record state { jit_status = status })

-- The entry that `emit_jump_address_reloc` and its near kin add to `jumps`.
unfoldable pub note_jump : ℕ → Bool → Emit Unit
note_jump target_pc near = modify (λ state. record state {
  jumps = emit_patchable_relative_ex state.offset target_pc 0 state.jumps state.num_jumps near;
  num_jumps = state.num_jumps + 1;
})

unfoldable pub note_local_call : ℕ → Emit Unit
note_local_call target_pc = modify (λ state. record state {
  local_calls =
      emit_patchable_relative state.offset target_pc 0 state.local_calls state.num_local_calls;
  num_local_calls = state.num_local_calls + 1;
})

unfoldable pub emit_jump_address_reloc : ℕ → Emit ℕ
emit_jump_address_reloc target_pc state =
    if state.num_jumps == max_insts
    then (set_jit_status too_many_jumps >> pure 0) state
    else (do
      target_address_offset ← gets (λ (s : JitState). s.offset)
      note_jump target_pc false
      emit_4byte_offset_placeholder
      pure target_address_offset)
        state

unfoldable pub emit_near_jump_address_reloc : ℕ → Emit ℕ
emit_near_jump_address_reloc target_pc state =
    if state.num_jumps == max_insts
    then (set_jit_status too_many_jumps >> pure 0) state
    else (do
      target_address_offset ← gets (λ (s : JitState). s.offset)
      note_jump target_pc true
      emit1 0x0
      pure target_address_offset)
        state

unfoldable pub emit_local_call_address_reloc : ℕ → Emit ℕ
emit_local_call_address_reloc target_pc state =
    if state.num_local_calls == max_insts
    then (set_jit_status too_many_local_calls >> pure 0) state
    else (do
      target_address_offset ← gets (λ (s : JitState). s.offset)
      note_local_call target_pc
      emit_4byte_offset_placeholder
      pure target_address_offset)
        state

-- `emit_modrm`; every call gives one of 0x00, 0x40, 0x80 and 0xc0 as `mod`.
unfoldable pub emit_modrm : ℕ → ℕ → ℕ → Emit Unit
emit_modrm modifier r m =
    emit1 (bit_or (bit_or (bit_and modifier 0xc0) (bit_and r 7 * 2 ^ 3)) (bit_and m 7))

unfoldable pub emit_modrm_reg2reg : ℕ → ℕ → Emit Unit
emit_modrm_reg2reg r m = emit_modrm 0xc0 r m

-- `d >= -128 && d <= 127`.
unfoldable pub is_int8 : ℕ → Bool
is_int8 d = leb_ℤ (negsuc 127) (signed32 d) && leb_ℤ (signed32 d) (pos 127)

unfoldable pub emit_modrm_and_displacement : ℕ → ℕ → ℕ → Emit Unit
emit_modrm_and_displacement r m d =
    if (d == 0) && (bit_and m 7 != rbp)
    then emit_modrm 0x00 r m
    else if is_int8 d
    then (do emit_modrm 0x40 r m; emit1 d)
    else (do emit_modrm 0x80 r m; emit4 d)

unfoldable pub emit_rex : ℕ → ℕ → ℕ → ℕ → Emit Unit
emit_rex w r x b = emit1 (bit_or (bit_or (bit_or (bit_or 0x40 (w * 2 ^ 3)) (r * 2 ^ 2)) (x * 2)) b)

-- `x & 8` as a test, and `!!(x & 8)`.
unfoldable pub is_high : ℕ → Bool
is_high r = bit_and r 8 != 0

abbrev pub to_int : Bool → ℕ
to_int true = 1
to_int false = 0

unfoldable pub emit_basic_rex : ℕ → ℕ → ℕ → Emit Unit
emit_basic_rex w src dst =
    when ((w != 0) || (is_high src || is_high dst))
      (emit_rex w (to_int (is_high src)) 0 (to_int (is_high dst)))
