-- ===== src/Jit/Driver/Laws.antt =====
-- What `ubpf_compile_ex` and `ubpf_copy_jit` of libs/ubpf/vm/ubpf_jit.c promise.
use mathlib.Core.Path.{subst}
use mathlib.Core.Option.{none-ne-some}
use appclick_ubpf.Prelude.{ℕ, ◌+◌, ◌^◌, ◌≤◌, ◌<◌, ◌≡◌, ◌≢◌, refl, ap, ◌∙◌, sym, ◌↔◌, true, false}
use appclick_ubpf.Prelude.{
  some-injective, Option, none, some, List, [], arith, ltb, Bool-cases, Option-cases, inl, inr,
}
use appclick_ubpf.Words.{u32}
use appclick_ubpf.Vm.{
  Vm, JitMode, basic_jit_mode, extended_jit_mode, CompileResult, jit_compile_success,
  jit_compile_failure,
}
use appclick_ubpf.Jit.State.{Message}
use appclick_ubpf.Jit.Resolve.{Compiled}
use appclick_ubpf.Jit.Driver.{
  DriverMessage, from_translation, code_not_loaded, calloc_failed, map_failed, protect_failed,
  Translator, is_success, same_mode, is_set, Translation, message_or, translated_by, Platform,
  Compilation, jit_address, drop_jitted, give_up, install_code, compile_translated, is_up_to_date,
  translate_ex, compile_ex, copy_jit,
}

-- What the driver relies on in a code generator: the result has the mode that was asked for where it
-- is a success, and a message where it is not.
pub record IsTranslator (translate : Translator) : Type 0 where
  pub mode_kept :
      (vm : Vm) (buffer : ℕ → ℕ) (size : ℕ) (mode : JitMode) (c : Compiled)
      → translate vm buffer size mode ≡ some c
      → c.result.compile_result ≡ jit_compile_success
      → c.result.jit_mode ≡ mode
  pub explains :
      (vm : Vm) (buffer : ℕ → ℕ) (size : ℕ) (mode : JitMode) (c : Compiled)
      → translate vm buffer size mode ≡ some c
      → u32 size + 8 < 2 ^ 32
      → c.result.compile_result ≡ jit_compile_failure
      → (why : Message) × (c.errmsg ≡ some why)

-- The machine once old code is dropped.
abbrev pub dropped : Vm → Vm
dropped vm = (drop_jitted vm).0

-- How a compilation may end: with the code that is there; with a message and no code; or with new
-- code, which the code generator made for the machine without the old code.
pub data Ends (translate : Translator) (vm : Vm) (mode : JitMode) (c : Compilation) : Type 0 where
  kept :
      is_up_to_date vm mode ≡ true → c.vm ≡ vm → c.returned ≡ vm.jitted → Ends translate vm mode c
  refused :
      is_up_to_date vm mode ≡ false
      → c.vm.jitted ≡ none
      → c.returned ≡ none
      → (why : DriverMessage) → c.errmsg ≡ some why
      → Ends translate vm mode c
  compiled :
      is_up_to_date vm mode ≡ false
      → (made : Compiled)
      → translate (dropped vm) (λ _. 0) (dropped vm).jitter_buffer_size mode ≡ some made
      → made.result.compile_result ≡ jit_compile_success
      → c.vm.jitted_result ≡ made.result
      → c.vm.jitted ≡ some jit_address
      → c.returned ≡ some jit_address
      → c.vm.jitted_size ≡ made.size
      → c.code ≡ some made.buffer
      → Ends translate vm mode c

drop_facts :
    (vm : Vm)
    → ((dropped vm).jitted ≡ none) × ((dropped vm).jitter_buffer_size ≡ vm.jitter_buffer_size)
unfolding drop_jitted
drop_facts vm = ground arith

success_of : (r : CompileResult) → is_success r ≡ true → r ≡ jit_compile_success
success_of jit_compile_success e = refl
success_of jit_compile_failure e = absurd (cc)

failure_of : (r : CompileResult) → is_success r ≡ false → r ≡ jit_compile_failure
failure_of jit_compile_failure e = refl
failure_of jit_compile_success e = absurd (cc)

module _ (translate : Translator) (law : IsTranslator translate) (platform : Platform) (vm : Vm)
    (mode : JitMode) (stale : is_up_to_date vm mode ≡ false) where
  install-Ends :
      (made : Compiled) (unmapped : List (ℕ × ℕ)) (t : Translation)
      → translate (dropped vm) (λ _. 0) (dropped vm).jitter_buffer_size mode ≡ some made
      → made.result.compile_result ≡ jit_compile_success
      → t.vm ≡ record (dropped vm) { jitted_result = made.result }
      → t.size ≡ made.size
      → t.buffer ≡ made.buffer
      → Ends translate vm mode (install_code platform unmapped t)
  unfolding install_code give_up
  install-Ends made unmapped t e won ev es eb = elim (Bool-cases platform.page_mapped) [
    | inr n ↦
        rw n (refused stale (rw ev (drop_facts vm).0) (rw ev (drop_facts vm).0) map_failed refl)
    | inl y ↦ elim (Bool-cases platform.attributes_set) [
      | inr n ↦
          rw (y, n)
            (refused stale (rw ev (drop_facts vm).0) (rw ev (drop_facts vm).0) protect_failed refl)
      | inl y' ↦ rw (y, y') (compiled stale made e won (rw ev refl) refl refl es (rw eb refl))
    ]
  ]

  made-Ends :
      (made : Compiled) (unmapped : List (ℕ × ℕ))
      → translate (dropped vm) (λ _. 0) (dropped vm).jitter_buffer_size mode ≡ some made
      → u32 (dropped vm).jitter_buffer_size + 8 < 2 ^ 32
      → (c : Compilation)
      → compile_translated
          (dropped vm)
          platform
          unmapped
          (translated_by (dropped vm) none (some made))
        ≡ some c
      → Ends translate vm mode c
  unfolding compile_translated translated_by give_up drop_jitted message_or
  made-Ends made unmapped e room c h = elim (Bool-cases (is_success made.result.compile_result)) [
    | inl y ↦
        let same = some-injective (rw y at h) in
        subst (Ends translate vm mode) same
          (install-Ends made unmapped _ e (success_of _ y) refl refl refl)
    | inr n ↦
        let (why, said) =
          law.explains (dropped vm) (λ _. 0) (dropped vm).jitter_buffer_size mode made e room
            (failure_of _ n) in
        let same = some-injective (rw n at h) in
        subst (Ends translate vm mode) same
          (refused stale (drop_facts vm).0 (drop_facts vm).0 (from_translation why) (rw said refl))
  ]

-- Where the code generator keeps its laws and the size of the JIT buffer, as a `uint32_t`, leaves
-- more than 8 below 2 ^ 32, `ubpf_compile_ex` ends in one of three ways: it returns the code of an
-- earlier compilation in the same mode and changes nothing; it returns NULL, leaves a message and
-- no code in the machine; or it returns the address at which lie the bytes that the code generator
-- made, and the machine has this address, their size and their result.
pub compile_ex-Ends :
    (translate : Translator) (platform : Platform) (vm : Vm) (errmsg : Option DriverMessage)
    (mode : JitMode) (c : Compilation)
    → IsTranslator translate
    → u32 vm.jitter_buffer_size + 8 < 2 ^ 32
    → compile_ex translate platform vm errmsg mode ≡ some c
    → Ends translate vm mode c
unfolding compile_ex translate_ex give_up compile_translated translated_by install_code
compile_ex-Ends translate platform vm errmsg mode c law room h =
    elim (Bool-cases (is_up_to_date vm mode)) [
      | inl fresh ↦
          subst (Ends translate vm mode) (some-injective (rw fresh at h)) (kept fresh refl refl)
      | inr stale ↦ elim (Bool-cases (is_set (dropped vm).insts)) [
        | inr n ↦
            subst (Ends translate vm mode) (some-injective (rw (stale, n) at h))
              (refused stale (drop_facts vm).0 refl code_not_loaded refl)
        | inl y ↦ elim (Bool-cases platform.buffer_given) [
          | inr n ↦
              subst (Ends translate vm mode) (some-injective (rw (stale, y, n) at h))
                (refused stale (drop_facts vm).0 (drop_facts vm).0 calloc_failed refl)
          | inl y' ↦
              elim (Option-cases
                (translate (dropped vm) (λ _. 0) (dropped vm).jitter_buffer_size mode)) [
                  | inl e ↦ absurd (none-ne-some c (rw (stale, y, y', e) at h))
                  | inr (made, e) ↦
                      made-Ends translate law platform vm mode stale made (drop_jitted vm).1 e
                        (rw (drop_facts vm).1 room) c (rw (stale, y, y', e) at h)
                ]
        ]
      ]
    ]

same_mode_refl : (m : JitMode) → same_mode m m ≡ true
same_mode_refl basic_jit_mode = refl
same_mode_refl extended_jit_mode = refl

again_fresh :
    (translate : Translator) (platform : Platform) (vm : Vm) (errmsg : Option DriverMessage)
    (mode : JitMode) (address : ℕ)
    → is_up_to_date vm mode ≡ true
    → vm.jitted ≡ some address
    → compile_ex translate platform vm errmsg mode
      ≡ some
          (record { vm = vm; errmsg = errmsg; returned = some address; unmapped = []; code = none })
unfolding compile_ex
again_fresh translate platform vm errmsg mode address fresh there = rw fresh (
    ap
      (λ (r : Option ℕ).
        some (record { vm = vm; errmsg = errmsg; returned = r; unmapped = []; code = none }))
      there)

-- With a code generator that keeps the laws of a translator and a size of the buffer that leaves
-- more than 8 below 2 ^ 32: where `ubpf_compile_ex` has returned an address, a second call in the
-- same mode returns the same address and changes neither the machine nor the mappings, whatever the
-- platform does.
pub compile_ex-twice :
    (translate : Translator) (platform : Platform) (vm : Vm) (errmsg : Option DriverMessage)
    (mode : JitMode) (c : Compilation) (address : ℕ) (platform' : Platform)
    (errmsg' : Option DriverMessage)
    → IsTranslator translate
    → u32 vm.jitter_buffer_size + 8 < 2 ^ 32
    → compile_ex translate platform vm errmsg mode ≡ some c
    → c.returned ≡ some address
    → compile_ex translate platform' c.vm errmsg' mode
      ≡ some (record {
        vm = c.vm;
        errmsg = errmsg';
        returned = some address;
        unmapped = [];
        code = none;
      })
unfolding is_up_to_date
compile_ex-twice translate platform vm errmsg mode c address platform' errmsg' law room h got =
    elim (compile_ex-Ends translate platform vm errmsg mode c law room h) [
      | kept fresh same ret ↦
          again_fresh translate platform' c.vm errmsg' mode address (rw same fresh)
            (ap (λ (v : Vm). v.jitted) same ∙ sym ret ∙ got)
      | refused stale gone ret why said ↦ absurd (none-ne-some address (sym ret ∙ got))
      | compiled stale made e won er ej ret es ec ↦
          again_fresh translate platform' c.vm errmsg' mode address
            (rw (ej, er, won, law.mode_kept _ _ _ _ made e won) (same_mode_refl mode))
            (ej ∙ sym ret ∙ got)
    ]

-- `ubpf_copy_jit` copies exactly where code of a successful compilation is there and no longer than
-- the buffer: then the buffer holds the code and, beyond it, what it held. In every other case it
-- leaves the buffer alone and gives a message.
pub copy_jit_iff :
    (vm : Vm) (code buffer : ℕ → ℕ) (size : ℕ)
    → let (ok, errmsg, buffer') = copy_jit vm code buffer size in
      ((ok ≡ true) ↔ (
        (vm.jitted_result.compile_result ≡ jit_compile_success)
        × (vm.jitted ≢ none)
        × (vm.jitted_size ≤ size)))
      × ((ok ≡ false) → (buffer' ≡ buffer) × (errmsg ≢ none))
      × ((ok ≡ true)
          → (errmsg ≡ none)
            × ((i : ℕ) → i < vm.jitted_size → buffer' i ≡ code i)
            × ((i : ℕ) → vm.jitted_size ≤ i → buffer' i ≡ buffer i))
unfolding copy_jit
copy_jit_iff vm code buffer size = elim (Option-cases vm.jitted) [
  | inl e ↦ ground (arith, e)
  | inr (a, e) ↦ elim (Bool-cases (is_success vm.jitted_result.compile_result)) [
    | inr n ↦ ground (arith, e, n, failure_of vm.jitted_result.compile_result n)
    | inl y ↦ elim (Bool-cases (ltb size vm.jitted_size)) [
      | inl short ↦ ground (arith, e, y, short)
      | inr fits ↦ ground (arith, e, y, fits, success_of vm.jitted_result.compile_result y)
    ]
  ]
]
