-- ===== src/Isa/Encoding.antt =====
-- `ebpf_encoded_inst` of libs/ubpf/vm/ubpf_vm.c: an instruction and the 64-bit number that lies in
-- the same eight bytes (little-endian, `dst` in the low bits of its byte).
use appclick_ubpf.Prelude.{ℕ, ◌+◌, ◌*◌, ◌/◌, ◌%◌, ◌^◌, ◌<◌, ◌≡◌, arith}
use appclick_ubpf.Isa.{Inst, IsInst}

unfoldable pub value_of : Inst → ℕ
value_of i = i.opcode + i.dst * 2 ^ 8 + i.src * 2 ^ 12 + i.offset * 2 ^ 16 + i.imm * 2 ^ 32

unfoldable pub inst_of : ℕ → Inst
inst_of v = record {
  opcode = v % 2 ^ 8;
  dst = v / 2 ^ 8 % 2 ^ 4;
  src = v / 2 ^ 12 % 2 ^ 4;
  offset = v / 2 ^ 16 % 2 ^ 16;
  imm = v / 2 ^ 32 % 2 ^ 32;
}

pub inst_of-value_of : (i : Inst) → IsInst i → inst_of (value_of i) ≡ i
unfolding inst_of value_of
inst_of-value_of i h = ground arith

pub value_of-inst_of : (v : ℕ) → v < 2 ^ 64 → value_of (inst_of v) ≡ v
unfolding inst_of value_of
value_of-inst_of v h = omega arith

pub value_of-lt : (i : Inst) → IsInst i → value_of i < 2 ^ 64
unfolding value_of
value_of-lt i h = omega arith

pub inst_of-IsInst : (v : ℕ) → IsInst (inst_of v)
unfolding inst_of
inst_of-IsInst v = omega arith
