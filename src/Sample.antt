-- ===== src/Sample.antt =====
-- A program for the tests of libs/ubpf/vm/ubpf_vm.c: it calls a local function, which stores its
-- argument on the stack and gives 7 back.
use appclick_ubpf.Prelude.{ℕ, true, false, some, List, [], ◌∷◌}
use appclick_ubpf.Isa.{Inst}
use appclick_ubpf.Vm.{Code, Vm, create}

abbrev inst : ℕ → ℕ → ℕ → ℕ → ℕ → Inst
inst opcode dst src offset imm = record {
  opcode = opcode;
  dst = dst;
  src = src;
  offset = offset;
  imm = imm;
}

-- call 2; exit; stxdw [r10-8], r1; mov64 r0, 7; exit
abbrev pub insts : List Inst
insts =
    inst 0x85 0 1 0 1
    ∷ inst 0x95 0 0 0 0
    ∷ inst 0x7b 10 1 0xfff8 0
    ∷ inst 0xb7 0 0 0 7
    ∷ inst 0x95 0 0 0 0
    ∷ []

-- The machine with the program, where the keys are 0, and a limit of 100 instructions.
unfoldable pub machine : Vm
unfolding create
machine = record create {
  insts = some (record { address = 0; stored = insts });
  num_insts = 5;
  int_funcs = false ∷ false ∷ true ∷ false ∷ false ∷ [];
  instruction_limit = 100;
}

-- The same instructions as bytes.
abbrev pub bytes : List ℕ
bytes =
    0x85 ∷ 0x10 ∷ 0 ∷ 0 ∷ 1 ∷ 0 ∷ 0 ∷ 0 ∷ 0x95 ∷ 0 ∷ 0 ∷ 0 ∷ 0 ∷ 0 ∷ 0 ∷ 0 ∷ 0x7b ∷ 0x1a ∷ 0xf8
    ∷ 0xff ∷ 0 ∷ 0 ∷ 0 ∷ 0 ∷ 0xb7 ∷ 0 ∷ 0 ∷ 0 ∷ 7 ∷ 0 ∷ 0 ∷ 0 ∷ 0x95 ∷ 0 ∷ 0 ∷ 0 ∷ 0 ∷ 0 ∷ 0 ∷ 0
    ∷ []

-- A machine with a limit and no program, and room for this one.
unfoldable pub fresh : Vm
unfolding create
fresh = record create { instruction_limit = 100 }

abbrev pub room : Code
room = record { address = 0x4000; stored = insts }
