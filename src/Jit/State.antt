-- ===== src/Jit/State.antt =====
-- `struct jit_state` of libs/ubpf/vm/ubpf_jit_support.h, and the actions that change it.
pub mod Keeps
use appclick_ubpf.Prelude.{ℕ, ◌-◌, ◌^◌, bit_and, Bool, true, false, Option, none}
use appclick_ubpf.Vm.{JitMode, basic_jit_mode}

-- `enum JitProgress`.
pub data JitProgress : Type 0 where
  no_error too_many_jumps too_many_loads too_many_leas too_many_local_calls : JitProgress
  not_enough_space unexpected_instruction unknown_instruction : JitProgress

-- `jit_status == NoError`.
abbrev pub is_no_error : JitProgress → Bool
is_no_error no_error = true
is_no_error _ = false

-- `struct patchable_relative`.
pub record PatchableRelative : Type 0 where
  pub offset_loc : ℕ
  pub target_pc : ℕ
  pub target_offset : ℕ
  pub near : Bool

-- What `calloc` puts in a table.
abbrev pub zeroed : PatchableRelative
zeroed = record { offset_loc = 0; target_pc = 0; target_offset = 0; near = false }

-- `~UINT32_C(0)`.
abbrev all_ones : ℕ
all_ones = 2 ^ 32 - 1

abbrev pub target_pc_exit : ℕ
target_pc_exit = all_ones

abbrev pub target_pc_retpoline : ℕ
target_pc_retpoline = bit_and all_ones 0x0101

abbrev pub target_pc_external_dispatcher : ℕ
target_pc_external_dispatcher = bit_and all_ones 0x010101

abbrev pub target_load_helper_table : ℕ
target_load_helper_table = bit_and all_ones 0x01010101

-- The messages that the code generator passes to `ubpf_error`.
pub data Message : Type 0 where
  could_not_allocate target_buffer_too_small could_not_patch : Message
  many_jumps many_loads many_leas many_local_calls : Message
  unknown_instruction_at : (pc opcode : ℕ) → Message

-- `struct jit_state` without the fields that the x86-64 code generator never uses, and with the
-- message of the compile result, which `translate` has by its address. The buffer and the tables
-- are functions of the index.
pub record JitState : Type 0 where
  pub buf : ℕ → ℕ
  pub offset : ℕ
  pub size : ℕ
  pub pc_locs : ℕ → ℕ
  pub exit_loc : ℕ
  pub retpoline_loc : ℕ
  pub dispatcher_loc : ℕ
  pub helper_table_loc : ℕ
  pub jit_status : JitProgress
  pub jit_mode : JitMode
  pub jumps : ℕ → PatchableRelative
  pub loads : ℕ → PatchableRelative
  pub leas : ℕ → PatchableRelative
  pub local_calls : ℕ → PatchableRelative
  pub num_jumps : ℕ
  pub num_loads : ℕ
  pub num_leas : ℕ
  pub num_local_calls : ℕ
  pub bpf_function_prolog_size : ℕ
  pub errmsg : Option Message

-- A function of the C code that gets the state by its address, and returns an `A`.
abbrev pub Emit : Type 0 → Type 0
Emit A = JitState → A × JitState

unfoldable pub modify : (JitState → JitState) → Emit Unit
modify f s = (tt, f s)

unfoldable pub skip : Emit Unit
skip s = (tt, s)

-- `if (test) { m }`.
unfoldable pub when : Bool → Emit Unit → Emit Unit
when true m = m
when false m = skip

module _ {A : Type 0} where
  unfoldable pub pure : A → Emit A
  pure a s = (a, s)

  unfoldable pub gets : (JitState → A) → Emit A
  gets f s = (f s, s)

module _ {A B : Type 0} where
  infixl 10 ◌>>=◌ ◌>>◌
  unfoldable pub ◌>>=◌ : Emit A → (A → Emit B) → Emit B
  ◌>>=◌ m f s = let (a, s') = m s in f a s'

  abbrev pub ◌>>◌ : Emit A → Emit B → Emit B
  m >> n = m >>= λ _. n

-- The state before compilation, whatever the stack held.
abbrev pub blank : (ℕ → ℕ) → JitState
blank buffer = record {
  buf = buffer;
  offset = 0;
  size = 0;
  pc_locs = λ _. 0;
  exit_loc = 0;
  retpoline_loc = 0;
  dispatcher_loc = 0;
  helper_table_loc = 0;
  jit_status = no_error;
  jit_mode = basic_jit_mode;
  jumps = λ _. zeroed;
  loads = λ _. zeroed;
  leas = λ _. zeroed;
  local_calls = λ _. zeroed;
  num_jumps = 0;
  num_loads = 0;
  num_leas = 0;
  num_local_calls = 0;
  bpf_function_prolog_size = 0;
  errmsg = none;
}
