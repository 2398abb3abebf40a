-- ===== src/Jump.antt =====
-- The conditions of the jumps in `ubpf_exec_ex` (libs/ubpf/vm/ubpf_vm.c). The operands are 64-bit
-- patterns: of a register, or of the immediate extended by its sign.
pub mod Laws
use appclick_ubpf.Prelude.{
  ℕ, ◌%◌, ◌^◌, bit_and, Bool, true, false, not, ◌==◌, ◌!=◌, ltb, leb, if◌then◌else◌,
}
use appclick_ubpf.Words.{u32, i32, signed64, ltb_ℤ, leb_ℤ}
use appclick_ubpf.Isa.{
  Cond, jeq, jgt, jge, jset, jne, jsgt, jsge, jlt, jle, jslt, jsle, Width, w32, w64,
}

-- `EBPF_OP_JEQ_IMM` to `EBPF_OP_JSLE_REG`.
unfoldable pub holds64 : Cond → ℕ → ℕ → Bool
holds64 jeq d s = d == s
holds64 jgt d s = ltb s d
holds64 jge d s = leb s d
holds64 jset d s = bit_and d s != 0
holds64 jne d s = d != s
holds64 jsgt d s = ltb_ℤ (signed64 s) (signed64 d)
holds64 jsge d s = leb_ℤ (signed64 s) (signed64 d)
holds64 jlt d s = ltb d s
holds64 jle d s = leb d s
holds64 jslt d s = ltb_ℤ (signed64 d) (signed64 s)
holds64 jsle d s = leb_ℤ (signed64 d) (signed64 s)

-- `EBPF_OP_JEQ32_IMM` to `EBPF_OP_JSLE32_REG`.
unfoldable pub holds32 : Cond → ℕ → ℕ → Bool
holds32 jeq d s = u32 d == u32 s
holds32 jgt d s = ltb (u32 s) (u32 d)
holds32 jge d s = leb (u32 s) (u32 d)
holds32 jset d s = bit_and (u32 d) (u32 s) != 0
holds32 jne d s = u32 d != u32 s
holds32 jsgt d s = ltb_ℤ (i32 s) (i32 d)
holds32 jsge d s = leb_ℤ (i32 s) (i32 d)
holds32 jlt d s = ltb (u32 d) (u32 s)
holds32 jle d s = leb (u32 d) (u32 s)
holds32 jslt d s = ltb_ℤ (i32 d) (i32 s)
holds32 jsle d s = leb_ℤ (i32 d) (i32 s)

abbrev pub holds : Width → Cond → ℕ → ℕ → Bool
holds w32 = holds32
holds w64 = holds64
