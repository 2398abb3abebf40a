-- ===== src/Isa.antt =====
-- The instruction set of libs/ubpf/vm/ebpf.h: the instruction word, the opcodes that the header
-- defines, and the reading of an opcode byte by the `switch` statements of ubpf_vm.c.
pub mod Decode
pub mod Encoding
use appclick_ubpf.Prelude.{ℕ, ◌^◌, ◌<◌, bit_or, Option, none, some, List, [], ◌∷◌, ◌++◌, map}
use appclick_ubpf.Prelude.{◌==◌, if◌then◌else◌}

-- `struct ebpf_inst`. `offset` (16 bits) and `imm` (32 bits) are signed in the source: here they
-- are the two's complement patterns.
pub record Inst : Type 0 where
  pub opcode : ℕ
  pub dst : ℕ
  pub src : ℕ
  pub offset : ℕ
  pub imm : ℕ

-- Each field fits its bit-field.
pub record IsInst (i : Inst) : Type 0 where
  pub opcode_fits : i.opcode < 2 ^ 8
  pub dst_fits : i.dst < 2 ^ 4
  pub src_fits : i.src < 2 ^ 4
  pub offset_fits : i.offset < 2 ^ 16
  pub imm_fits : i.imm < 2 ^ 32

-- `EBPF_CLS_ALU`, `EBPF_CLS_JMP32` for 32 bits; `EBPF_CLS_ALU64`, `EBPF_CLS_JMP` for 64.
pub data Width : Type 0 where
  w32 w64 : Width

-- `EBPF_SRC_IMM` and `EBPF_SRC_REG`.
pub data Source : Type 0 where
  imm reg : Source

-- The arithmetic operations with two operands (`modulo` is MOD).
pub data AluOp : Type 0 where
  add sub mul div or and lsh rsh modulo xor mov arsh : AluOp

-- The conditions of the jumps.
pub data Cond : Type 0 where
  jeq jgt jge jset jne jsgt jsge jlt jle jslt jsle : Cond

-- `EBPF_SIZE_B`, `EBPF_SIZE_H`, `EBPF_SIZE_W`, `EBPF_SIZE_DW`.
pub data Size : Type 0 where
  byte half word dword : Size

-- The operations that have an opcode.
pub data Op : Type 0 where
  alu : Width → AluOp → Source → Op
  neg : Width → Op
  le be : Op
  ldx st stx : Size → Op
  lddw ja : Op
  jump : Width → Cond → Source → Op
  call exit : Op

unfoldable pub alu_class : Width → ℕ
alu_class w32 = 0x04
alu_class w64 = 0x07

unfoldable pub jmp_class : Width → ℕ
jmp_class w32 = 0x06
jmp_class w64 = 0x05

unfoldable pub source_bit : Source → ℕ
source_bit imm = 0x00
source_bit reg = 0x08

-- The high digit in `EBPF_OP_ADD_IMM` and its kin.
unfoldable pub alu_code : AluOp → ℕ
alu_code add = 0x00
alu_code sub = 0x10
alu_code mul = 0x20
alu_code div = 0x30
alu_code or = 0x40
alu_code and = 0x50
alu_code lsh = 0x60
alu_code rsh = 0x70
alu_code modulo = 0x90
alu_code xor = 0xa0
alu_code mov = 0xb0
alu_code arsh = 0xc0

-- `EBPF_MODE_JEQ` and its kin.
unfoldable pub cond_code : Cond → ℕ
cond_code jeq = 0x10
cond_code jgt = 0x20
cond_code jge = 0x30
cond_code jset = 0x40
cond_code jne = 0x50
cond_code jsgt = 0x60
cond_code jsge = 0x70
cond_code jlt = 0xa0
cond_code jle = 0xb0
cond_code jslt = 0xc0
cond_code jsle = 0xd0

unfoldable pub size_code : Size → ℕ
size_code byte = 0x10
size_code half = 0x08
size_code word = 0x00
size_code dword = 0x18

-- The `#define EBPF_OP_…` lines.
unfoldable pub opcode_of : Op → ℕ
unfolding alu_class jmp_class source_bit alu_code cond_code size_code
opcode_of (alu w o s) = bit_or (bit_or (alu_class w) (source_bit s)) (alu_code o)
opcode_of (neg w) = bit_or (alu_class w) 0x80
opcode_of le = bit_or (bit_or (alu_class w32) (source_bit imm)) 0xd0
opcode_of be = bit_or (bit_or (alu_class w32) (source_bit reg)) 0xd0
opcode_of (ldx z) = bit_or (bit_or 0x01 0x60) (size_code z)
opcode_of (st z) = bit_or (bit_or 0x02 0x60) (size_code z)
opcode_of (stx z) = bit_or (bit_or 0x03 0x60) (size_code z)
opcode_of lddw = bit_or (bit_or 0x00 0x00) (size_code dword)
opcode_of ja = bit_or (jmp_class w64) 0x00
opcode_of (jump w c s) = bit_or (bit_or (jmp_class w) (source_bit s)) (cond_code c)
opcode_of call = bit_or (jmp_class w64) 0x80
opcode_of exit = bit_or (jmp_class w64) 0x90

abbrev pub alu_ops : List AluOp
alu_ops = add ∷ sub ∷ mul ∷ div ∷ or ∷ and ∷ lsh ∷ rsh ∷ modulo ∷ xor ∷ mov ∷ arsh ∷ []

abbrev pub conds : List Cond
conds = jeq ∷ jgt ∷ jge ∷ jset ∷ jne ∷ jsgt ∷ jsge ∷ jlt ∷ jle ∷ jslt ∷ jsle ∷ []

abbrev pub sizes : List Size
sizes = byte ∷ half ∷ word ∷ dword ∷ []

-- The operations that the `switch` of `ubpf_exec_ex` has a case for.
unfoldable pub cases : List Op
cases =
    map (λ o. alu w32 o imm) alu_ops
    ++ (map (λ o. alu w32 o reg) alu_ops
        ++ (neg w32 ∷ le ∷ be ∷ map (λ o. alu w64 o imm) alu_ops
            ++ (map (λ o. alu w64 o reg) alu_ops
                ++ (neg w64 ∷ map ldx sizes
                    ++ (map st sizes
                        ++ (map stx sizes
                            ++ (lddw ∷ ja ∷ map (λ c. jump w64 c imm) conds
                                ++ (map (λ c. jump w64 c reg) conds
                                    ++ (map (λ c. jump w32 c imm) conds
                                        ++ (map (λ c. jump w32 c reg) conds
                                            ++ (call ∷ exit ∷ [])))))))))))

-- `switch (opcode)`: the case whose label is the opcode; `none` is `default:`.
unfoldable pub find_case : ℕ → List Op → Option Op
find_case n [] = none
find_case n (op ∷ ops) = if opcode_of op == n then some op else find_case n ops

unfoldable pub decode : ℕ → Option Op
unfolding opcode_of cases find_case
decode n = find_case n cases
