-- ===== src/Lib.antt =====
-- The virtual machine uBPF, which runs the packet filters of the click elements: its instruction
-- set, the loading and validation of a program, the interpreter, and the compiler to x86-64. The
-- code is libs/ubpf/vm/ubpf_vm.c, ubpf_jit.c, ubpf_jit_support.c, ubpf_jit_x86_64.c and, in part,
-- ubpf_loader.c, with the headers ebpf.h, ubpf_int.h, ubpf_jit_support.h, ubpf_jit_x86_64.h and
-- inc/ubpf.h beside them.
--
-- How the parts work together. A caller makes a machine (`ubpf_create`), registers external
-- functions and callbacks, and loads a program (`ubpf_load`): the bytes are read as instructions,
-- validated, and stored, each one xored with the address of the array and a secret. A run
-- (`ubpf_exec_ex`) is a loop that fetches an instruction, checks that the registers it reads were
-- written, and executes it; loads and stores go through the shadow stack and the bounds check,
-- local calls through at most ten stack frames. `ubpf_compile_ex` drives a code generator instead:
-- `ubpf_translate_x86_64` fetches the same stored instructions, emits code for each into a buffer,
-- notes the places that need an address in four tables, emits the epilogue and the tables of the
-- helpers, and then patches the addresses in; the driver copies the code into pages that it makes
-- executable, and keeps them in the machine.
--
-- The files:
--   Words        the casts `u32`, `i32`, `i64` and the shifts of signed values.
--   Isa          `struct ebpf_inst` (Inst), the opcodes (Op, opcode_of), the reading of an opcode
--                byte (decode) and of an instruction word (Isa.Encoding).
--   Memory       `ubpf_mem_load`, `ubpf_mem_store` on a partial function from addresses to bytes.
--   Vm           `struct ubpf_vm`, `ubpf_create`; Vm.Config has the setters and the lookup.
--   StackUsage   the two functions on the stack usage of local functions.
--   Code         `ubpf_fetch_instruction`, `ubpf_store_instruction`.
--   Validate     `validate`; Validate.Spec says what a valid program is, without the loop.
--   Load         `ubpf_load`, `ubpf_unload_code`; what allocations give is an argument.
--   Elf          `ubpf_load_elf_ex` from the header of the file to its symbol table; a read outside
--                the file is a result. Offsets in the file stand for addresses.
--   Alu, Jump    the arithmetic cases and the conditions of the interpreter.
--   Bounds       `bounds_check`.
--   Shadow       `ubpf_mark_shadow_stack`, `ubpf_check_shadow_stack`,
--                `ubpf_validate_shadow_register`; Shadow.Length says where the shadow stack is
--                long enough.
--   Machine      the local variables of `ubpf_exec_ex` (State), and how a run ends (Outcome).
--   Perform      the `switch` of `ubpf_exec_ex`.
--   Exec         the loop body (step), the loop (loop), `ubpf_exec_ex` (exec_ex), `ubpf_exec`
--                (exec). Exec.Rules has the rules by which a property of instructions becomes one
--                of rounds; Exec.Faultless and Exec.Safety, Exec.Fuel, Exec.Moves and Exec.Calls,
--                Exec.Masks, Exec.Ranges and Exec.Fits use them. Exec.Loaded goes from `ubpf_load`
--                to a run.
--   Jit          the compiler. State: `struct jit_state`, and the monad Emit of the code that
--                changes it. Support: the tables of ubpf_jit_support.c. Emit and
--                Emit.Instructions: the emitters of ubpf_jit_x86_64.h. Translate: the `switch`
--                and the loop of `translate`, its prologue and epilogue, with Translate.Select for
--                the opcode bytes. Resolve: `resolve_patchable_relatives`,
--                `ubpf_translate_x86_64`, and the updates of compiled code. Driver: ubpf_jit.c,
--                for any code generator.
--                Proofs: Emit.Grows says what every emitter does to the state, Emit.Apart that no
--                two noted places overlap, Translate.Grows carries both through a program;
--                Translate.Registers is about `ubpf_set_register_offset`.
--                Resolve.Safety and Resolve.Landing are about the patching, Resolve.Promises and
--                Resolve.Guarantees about a whole compilation, Resolve.Slots about the addresses of
--                the dispatcher and the helpers in it, Resolve.Updates about the updates.
--                Driver.Laws is about the driver, and Driver.Generator puts the x86-64 generator
--                in the place of its parameter.
--   Prelude      numbers, lists and bits. Sample and the Tests modules: concrete inputs.
--
-- Numbers and bounds. Words are natural numbers with their wrap-around written out; `offset` and
-- `imm` of an instruction, and an `int` of the machine, are two's complement patterns. Registers
-- are a function from register numbers, and the fields of an instruction are four bits wide, so no
-- access leaves the array of sixteen. The host is little-endian with 64-bit pointers. The buffer
-- and the tables of the compiler are functions from offsets and indices; the emitters add to a
-- `uint32_t` offset, so the theorems ask for a buffer that ends more than 8 bytes below 2 ^ 32.
--
-- Fuel. The loop of the interpreter runs on fuel, the number of rounds. With an instruction limit
-- one more than the limit is enough, for every program; without one a program may loop for ever,
-- and no fuel is enough. The loops of the compiler are recursion on the number of instructions and
-- on the sizes of the tables.
--
-- Crashes are values. A load or store of an address that is not mapped, a call of a null function,
-- a fetch outside the array and an access behind the shadow stack end a run with `fault`; a fetch
-- outside the array ends a compilation with `stopped`.
--
-- Parameters: external functions, the dispatcher and its validator, the calculator of stack usages,
-- the bounds check callback, the success of `mprotect`, of the update of jitted code and of the
-- allocations, the contents of fresh memory, of uninitialised registers and of uninitialised local
-- variables; for the compiler also the addresses of functions, the register map, and what
-- `mmap`, `munmap` and the setting of page attributes return.
--
-- Not modelled: the error messages, which are constructors here; `ubpf_destroy` and
-- `ubpf_set_error_print`; a failed allocation of the shadow stack; the assertions
-- and the release of the tables in the compiler, its calling convention on Windows, and its build
-- without retpolines; the second half of the ELF loader, which collects, links and relocates the
-- functions, and `section_idx_from_name`, which nothing calls; the code generator for arm64; the
-- platform shims and the test runner.
pub mod Prelude
pub mod Words
pub mod Isa
pub mod Memory
pub mod Vm
pub mod StackUsage
pub mod Code
pub mod Validate
pub mod Load
pub mod Elf
pub mod Alu
pub mod Bounds
pub mod Shadow
pub mod Machine
pub mod Jump
pub mod Perform
pub mod Exec
pub mod Jit
pub mod Sample
pub mod Tests
