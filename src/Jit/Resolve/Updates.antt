-- ===== src/Jit/Resolve/Updates.antt =====
-- `ubpf_jit_update_dispatcher_x86_64` and `ubpf_jit_update_helper_x86_64` of
-- libs/ubpf/vm/ubpf_jit_x86_64.c.
use appclick_ubpf.Prelude.{
  ℕ, ◌+◌, ◌*◌, ◌^◌, ◌≤◌, ◌<◌, ◌≡◌, ◌↔◌, refl, ◌⊎◌, Bool, true, false, arith,
}
use appclick_ubpf.Prelude.{ltb, if◌then◌else◌}
use appclick_ubpf.Words.{u32, u64}
use appclick_ubpf.Vm.{max_ext_funcs}
use appclick_ubpf.Jit.Emit.{le_bytes, copy_bytes}
use appclick_ubpf.Jit.Emit.Grows.{copy_bytes-outside}
use appclick_ubpf.Jit.Resolve.{jit_update_dispatcher, jit_update_helper}
use appclick_ubpf.Jit.Resolve.Landing.{bytes_at, stored_word}
use appclick_ubpf.Jit.Resolve.Safety.{length-le_bytes}

-- An update of the eight bytes at `loc`, which `fits` tells of.
pub record Updates (fits : Type 0) (loc value : ℕ) (code : ℕ → ℕ) (r : Bool × (ℕ → ℕ))
    : Type 0 where
  pub succeeds : (r.0 ≡ true) ↔ fits
  pub stored : r.0 ≡ true → bytes_at r.1 loc 8 ≡ le_bytes 8 value
  pub elsewhere : r.0 ≡ true → (i : ℕ) → (i < loc) ⊎ (loc + 8 ≤ i) → r.1 i ≡ code i
  pub refused : r.0 ≡ false → r.1 ≡ code

Updates-if :
    (b : Bool) (fits : Type 0) (loc value : ℕ) (code : ℕ → ℕ)
    → ((b ≡ true) ↔ fits)
    → Updates fits loc value code
        (if b then (true, copy_bytes code loc (le_bytes 8 value)) else (false, code))
Updates-if true fits loc value code when_fits = record {
  succeeds = when_fits;
  stored = λ won. stored_word code loc value;
  elsewhere =
      λ won i h. copy_bytes-outside code loc (le_bytes 8 value) i (rw (length-le_bytes 8 value) h);
  refused = λ lost. absurd (cc);
}
Updates-if false fits loc value code when_fits = record {
  succeeds = when_fits;
  stored = λ won. absurd (cc);
  elsewhere = λ won. absurd (cc);
  refused = λ lost. refl;
}

-- The test of both updates, with its additions on `uint64_t`.
in_code :
    (buffer size offset slot : ℕ)
    → slot ≡ buffer + offset
    → buffer + size < 2 ^ 64
    → slot + 8 < 2 ^ 64
    → (ltb (u64 (u64 slot + 8)) (u64 (buffer + size)) ≡ true) ↔ (offset + 8 < size)
in_code buffer size offset slot e p q = ground arith

-- Where neither the code nor the slot passes the end of the address space, an update of the
-- dispatcher succeeds exactly where the slot ends before the last byte of the code. It then stores
-- the new address in the eight bytes of the slot and changes no other byte; otherwise it changes
-- nothing.
pub jit_update_dispatcher-Updates :
    (new_dispatcher buffer : ℕ) (code : ℕ → ℕ) (size offset : ℕ)
    → buffer + size < 2 ^ 64
    → buffer + offset + 8 < 2 ^ 64
    → Updates
        (offset + 8 < size)
        offset
        new_dispatcher
        code
        (jit_update_dispatcher new_dispatcher buffer code size offset)
unfolding jit_update_dispatcher
jit_update_dispatcher-Updates new_dispatcher buffer code size offset p q =
    Updates-if _ _ offset new_dispatcher code
      (in_code buffer size offset (buffer + offset) refl p q)

-- Where neither the code nor the slot passes the end of the address space, an update of one of the
-- first 2 ^ 29 helpers succeeds exactly where its slot ends before the last byte of the code. It
-- then stores the new address in the eight bytes of the slot and changes no other byte; otherwise
-- it changes nothing.
pub jit_update_helper-Updates :
    (new_helper idx buffer : ℕ) (code : ℕ → ℕ) (size offset : ℕ)
    → idx < 2 ^ 29
    → buffer + size < 2 ^ 64
    → buffer + offset + 8 * idx + 8 < 2 ^ 64
    → Updates
        (offset + 8 * idx + 8 < size)
        (offset + 8 * idx)
        new_helper
        code
        (jit_update_helper new_helper idx buffer code size offset)
unfolding jit_update_helper
jit_update_helper-Updates new_helper idx buffer code size offset small p q =
    let slot : u32 (8 * idx) ≡ 8 * idx = omega arith in
    rw slot (
      Updates-if _ _ (offset + 8 * idx) new_helper code
        (in_code buffer size (offset + 8 * idx) (buffer + offset + 8 * idx) (omega arith) p q))

-- Where the code does not pass the end of the address space and the table of the helpers is the end
-- of the code, of its 64 helpers exactly those before the last can be updated.
pub jit_update_helper-last :
    (new_helper idx buffer : ℕ) (code : ℕ → ℕ) (size offset : ℕ)
    → idx < max_ext_funcs
    → offset + 8 * max_ext_funcs ≡ size
    → buffer + size < 2 ^ 64
    → ((jit_update_helper new_helper idx buffer code size offset).0 ≡ true) ↔ (idx < 63)
jit_update_helper-last new_helper idx buffer code size offset small table p =
    let (only, all) =
      (jit_update_helper-Updates new_helper idx buffer code size offset (omega arith) p
        (omega arith)).succeeds in
    (λ won. (let fits = only won in omega arith), λ h. all (omega arith))
