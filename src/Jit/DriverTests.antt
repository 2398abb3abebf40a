-- ===== src/Jit/DriverTests.antt =====
-- Runs of libs/ubpf/vm/ubpf_jit.c, and of the tables of libs/ubpf/vm/ubpf_jit_support.c.
use appclick_ubpf.Prelude.{
  ℕ, ◌+◌, ◌*◌, ◌<◌, ◌≤◌, ◌≡◌, ◌≢◌, ◌↔◌, refl, arith, true, false, ◌&&◌, Option, none, some, [],
}
use appclick_ubpf.Prelude.{if◌then◌else◌, ltb, ◌==◌}
use appclick_ubpf.Vm.{
  create, JitMode, basic_jit_mode, jit_compile_success, ExternalFunction, Dispatcher,
}
use appclick_ubpf.Sample.{machine}
use appclick_ubpf.Jit.State.{PatchableRelative, zeroed, blank}
use appclick_ubpf.Jit.Support.{fixup_jump_target}
use appclick_ubpf.Jit.Support.Tables.{fixup_jump_target_lem}
use appclick_ubpf.Jit.Resolve.{Compiled, translate_x86_64, jit_update_dispatcher, jit_update_helper}
use appclick_ubpf.Jit.Resolve.Updates.{
  Updates, jit_update_helper-Updates, jit_update_helper-last, jit_update_dispatcher-Updates,
}
use appclick_ubpf.Jit.Driver.{
  Translator, Platform, Compilation, compile_ex, copy_jit, jit_address, drop_jitted, translate_ex,
  translated_by, message_or, compile_translated, install_code, is_up_to_date,
}
use appclick_ubpf.Jit.Driver.Laws.{
  IsTranslator, Ends, compile_ex-Ends, compile_ex-twice, copy_jit_iff,
}
use appclick_ubpf.Jit.Driver.Generator.{translate_x86_64-IsTranslator}
use appclick_ubpf.Jit.Translate.{register_map}

-- A code generator that makes a single return instruction.
abbrev made : JitMode → Compiled
made mode = record {
  result = record {
    external_dispatcher_offset = 0;
    external_helper_offset = 0;
    compile_result = jit_compile_success;
    jit_mode = mode;
  };
  errmsg = none;
  buffer = λ _. 0xc3;
  size = 1;
}

abbrev returner : Translator
returner vm buffer size mode = some (made mode)

returner-IsTranslator : IsTranslator returner
returner-IsTranslator = record {
  mode_kept = λ vm buffer size mode c e won. ground (arith, e);
  explains = λ vm buffer size mode c e room lost. ground (arith, e, lost);
}

abbrev working : Platform
working = record { buffer_given = true; page_mapped = true; attributes_set = true }

abbrev compiled_machine : Compilation
compiled_machine = record {
  vm = record machine {
    jitted = some jit_address;
    jitted_size = 1;
    jitted_result = (made basic_jit_mode).result;
  };
  errmsg = none;
  returned = some jit_address;
  unmapped = [];
  code = some (λ _. 0xc3);
}

first_run : compile_ex returner working machine none basic_jit_mode ≡ some compiled_machine
unfolding compile_ex is_up_to_date drop_jitted translate_ex translated_by message_or
    compile_translated install_code machine create
first_run = refl

room : machine.jitter_buffer_size ≡ 65536
unfolding machine create
room = refl

compile_ex-Ends_example : Ends returner machine basic_jit_mode compiled_machine
compile_ex-Ends_example =
    compile_ex-Ends returner working machine none basic_jit_mode compiled_machine
      returner-IsTranslator (rw room (omega arith)) first_run

compile_ex-twice_example :
    compile_ex returner working compiled_machine.vm none basic_jit_mode
    ≡ some (record {
      vm = compiled_machine.vm;
      errmsg = none;
      returned = some jit_address;
      unmapped = [];
      code = none;
    })
compile_ex-twice_example =
    compile_ex-twice returner working machine none basic_jit_mode compiled_machine jit_address
      working none returner-IsTranslator (rw room (omega arith)) first_run refl

abbrev no_function : Option ExternalFunction → ℕ
no_function f = 0

abbrev no_dispatcher : Option Dispatcher → ℕ
no_dispatcher d = 0

translate_x86_64-IsTranslator_example : IsTranslator (
    translate_x86_64 register_map no_function no_dispatcher
      (record {
        pc_locs_given = true;
        jumps_given = true;
        loads_given = true;
        leas_given = true;
        local_calls_given = true;
      })
      (blank (λ _. 0))
      create.jitted_result)
translate_x86_64-IsTranslator_example =
    translate_x86_64-IsTranslator register_map no_function no_dispatcher
      (record {
        pc_locs_given = true;
        jumps_given = true;
        loads_given = true;
        leas_given = true;
        local_calls_given = true;
      })
      (blank (λ _. 0)) create.jitted_result

copy_jit_iff_example :
    let (ok, errmsg, buffer') = copy_jit compiled_machine.vm (λ _. 0xc3) (λ _. 0) 4 in
    ((ok ≡ true) ↔ (
      (compiled_machine.vm.jitted_result.compile_result ≡ jit_compile_success)
      × (compiled_machine.vm.jitted ≢ none)
      × (compiled_machine.vm.jitted_size ≤ 4)))
    × ((ok ≡ false) → (buffer' ≡ (λ _. 0)) × (errmsg ≢ none))
    × ((ok ≡ true)
        → (errmsg ≡ none)
          × ((i : ℕ) → i < compiled_machine.vm.jitted_size → buffer' i ≡ 0xc3)
          × ((i : ℕ) → compiled_machine.vm.jitted_size ≤ i → buffer' i ≡ 0))
copy_jit_iff_example = copy_jit_iff compiled_machine.vm (λ _. 0xc3) (λ _. 0) 4

-- One jump at offset 5, whose target is fixed to 40.
abbrev one_jump : ℕ → PatchableRelative
one_jump k = record zeroed { offset_loc = 5; target_pc = 3 }

fixup_jump_target_lem_example : fixup_jump_target one_jump 1 5 40 0 ≡ (
    if ltb 0 1 && ((one_jump 0).offset_loc == 5)
    then record (one_jump 0) { target_offset = 40 }
    else one_jump 0)
fixup_jump_target_lem_example = fixup_jump_target_lem one_jump 1 5 40 0

jit_update_helper-Updates_example :
    Updates
      (10 + 8 * 2 + 8 < 600)
      (10 + 8 * 2)
      77
      (λ _. 0)
      (jit_update_helper 77 2 jit_address (λ _. 0) 600 10)
jit_update_helper-Updates_example =
    jit_update_helper-Updates 77 2 jit_address (λ _. 0) 600 10 (omega arith) (omega arith)
      (omega arith)

jit_update_helper-last_example :
    ((jit_update_helper 77 63 jit_address (λ _. 0) 600 88).0 ≡ true) ↔ (63 < 63)
jit_update_helper-last_example =
    jit_update_helper-last 77 63 jit_address (λ _. 0) 600 88 (omega arith) refl (omega arith)

jit_update_dispatcher-Updates_example :
    Updates (10 + 8 < 600) 10 77 (λ _. 0) (jit_update_dispatcher 77 jit_address (λ _. 0) 600 10)
jit_update_dispatcher-Updates_example =
    jit_update_dispatcher-Updates 77 jit_address (λ _. 0) 600 10 (omega arith) (omega arith)
