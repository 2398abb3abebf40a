-- ===== src/Isa/Decode.antt =====
-- The labels of the `switch` over opcodes are distinct.
use appclick_ubpf.Prelude.{ℕ, ◌≡◌, refl, ◌↔◌, some, List, [], ◌∷◌, arith}
use appclick_ubpf.Isa.{Width, w32, w64, Source, imm, reg, AluOp, Cond, Size, Op, alu, neg, le, be}
use appclick_ubpf.Isa.{
  ldx, st, stx, lddw, ja, jump, call, exit, opcode_of, cases, find_case, decode,
}

decode-alu :
    (w : Width) (o : AluOp) (s : Source) → decode (opcode_of (alu w o s)) ≡ some (alu w o s)
unfolding decode
decode-alu w32 o imm = ground arith
decode-alu w32 o reg = ground arith
decode-alu w64 o imm = ground arith
decode-alu w64 o reg = ground arith

decode-jump :
    (w : Width) (c : Cond) (s : Source) → decode (opcode_of (jump w c s)) ≡ some (jump w c s)
unfolding decode
decode-jump w32 c imm = ground arith
decode-jump w32 c reg = ground arith
decode-jump w64 c imm = ground arith
decode-jump w64 c reg = ground arith

decode-access :
    (z : Size)
    → (decode (opcode_of (ldx z)) ≡ some (ldx z))
      × (decode (opcode_of (st z)) ≡ some (st z))
      × (decode (opcode_of (stx z)) ≡ some (stx z))
unfolding decode
decode-access z = (ground arith, ground arith, ground arith)

pub decode-opcode_of : (op : Op) → decode (opcode_of op) ≡ some op
unfolding decode
decode-opcode_of (alu w o s) = decode-alu w o s
decode-opcode_of (neg w32) = refl
decode-opcode_of (neg w64) = refl
decode-opcode_of le = refl
decode-opcode_of be = refl
decode-opcode_of (ldx z) = (decode-access z).0
decode-opcode_of (st z) = (decode-access z).1
decode-opcode_of (stx z) = (decode-access z).2
decode-opcode_of lddw = refl
decode-opcode_of ja = refl
decode-opcode_of (jump w c s) = decode-jump w c s
decode-opcode_of call = refl
decode-opcode_of exit = refl

opcode_of-find_case :
    (n : ℕ) (ops : List Op) (op : Op) → find_case n ops ≡ some op → opcode_of op ≡ n
unfolding find_case
opcode_of-find_case n [] op h = ground arith
opcode_of-find_case n (o ∷ ops) op h = ground (arith, opcode_of-find_case n ops op)

-- The case that the `switch` over opcodes takes is the one whose label the header defines: an
-- opcode byte selects an operation exactly when it is that operation's opcode, so no two labels
-- are the same and every operation has its case.
pub decode_iff : (n : ℕ) (op : Op) → (decode n ≡ some op) ↔ (opcode_of op ≡ n)
unfolding decode
decode_iff n op = (opcode_of-find_case n cases op, λ e. rw (← e) (decode-opcode_of op))
