-- ===== src/Jit/Resolve/Safety.antt =====
-- `resolve_patchable_relatives` of libs/ubpf/vm/ubpf_jit_x86_64.c writes only to the code.
use appclick_ubpf.Prelude.{ℕ, zero, suc, ◌+◌, ◌/◌, ◌≤◌, ◌<◌, ◌≡◌, refl, ap, ◌∙◌, Bool, true, false}
use appclick_ubpf.Prelude.{arith, length, Bool-cases, inl, inr}
use appclick_ubpf.Jit.State.{JitState, Emit, modify, pure, ◌>>=◌}
use appclick_ubpf.Jit.State.Keeps.{Keeps, Keeps-pure, Keeps-bind, Keeps-if, Keeps-known}
use appclick_ubpf.Jit.Emit.{le_bytes, copy_bytes}
use appclick_ubpf.Jit.Emit.Apart.{
  Tables, tables_of, Table, jump, load, lea, local_call, count, last, Begun,
}
use appclick_ubpf.Jit.Emit.Grows.{copy_bytes-outside}
use appclick_ubpf.Jit.Resolve.{
  jump_target_loc, patch, each, resolve_jump, resolve_local_call, resolve_load, resolve_lea,
  resolve_patchable_relatives,
}

-- Only the buffer has changed, and only below `end`.
pub record PatchesBelow (end : ℕ) (s₀ s : JitState) : Type 0 where
  pub only_buf : s ≡ record s₀ { buf = s.buf }
  pub beyond : (i : ℕ) → end ≤ i → s.buf i ≡ s₀.buf i

-- Only the code has changed.
abbrev pub Patches : JitState → JitState → Type 0
Patches s₀ s = PatchesBelow s₀.offset s₀ s

pub length-le_bytes : (n x : ℕ) → length (le_bytes n x) ≡ n
unfolding le_bytes
length-le_bytes zero x = refl
length-le_bytes (suc n) x = ap suc (length-le_bytes n (x / 256))

-- A loop keeps what its body keeps.
pub each-Keeps :
    {P : JitState → Type 0} (body : ℕ → Emit Bool) (n : ℕ)
    → ((i : ℕ) → i < n → Keeps P (body i))
    → Keeps P (each body n)
unfolding each
each-Keeps body zero kept = Keeps-pure true
each-Keeps body (suc n) kept =
    Keeps-bind _ _ (each-Keeps body n (λ i h. kept i (omega arith)))
      (λ ok. Keeps-if _ _ _ (Keeps-pure false) (kept n (omega arith)))

-- The bytes of every relocation end at `end`.
abbrev pub EndBy : Tables → ℕ → Type 0
EndBy t end = (a : Table) (k : ℕ) → k < count t a → last t a k ≤ end

-- All four bytes of a relocation that was noted where the buffer ended lie behind the buffer.
pub Begun-EndBy : (t : Tables) (offset : ℕ) → Begun t offset → EndBy t (offset + 4)
Begun-EndBy t offset begun jump k h = ground (arith, begun jump k h)
Begun-EndBy t offset begun load k h = omega (arith, begun load k h)
Begun-EndBy t offset begun lea k h = omega (arith, begun lea k h)
Begun-EndBy t offset begun local_call k h = omega (arith, begun local_call k h)

module _ (s₀ : JitState) (end : ℕ) (ends : EndBy (tables_of s₀) end) where
  patch-Patches : (loc n rel : ℕ) → loc + n ≤ end → Keeps (PatchesBelow end s₀) (patch loc n rel)
  unfolding patch modify
  patch-Patches loc n rel inside = record {
    at = λ s p. record {
      only_buf =
          ap (λ (t : JitState). record t { buf = copy_bytes s.buf loc (le_bytes n rel) })
            p.only_buf;
      beyond = λ i h.
          copy_bytes-outside s.buf loc (le_bytes n rel) i
            (inr (omega (arith, length-le_bytes n rel)))
          ∙ p.beyond i h;
    };
  }

  patched :
      (loc n rel : ℕ)
      → loc + n ≤ end
      → Keeps (PatchesBelow end s₀) (patch loc n rel >>= λ _. pure true)
  patched loc n rel inside = Keeps-bind _ _ (patch-Patches loc n rel inside) (λ _. Keeps-pure true)

  pub resolve_jump-Patches :
      (i : ℕ) → i < s₀.num_jumps → Keeps (PatchesBelow end s₀) (resolve_jump i)
  unfolding resolve_jump jump_target_loc
  resolve_jump-Patches i h =
      Keeps-known _ _ (s₀.jumps i) (λ s p. ap (λ (t : JitState). t.jumps i) p.only_buf)
        (Keeps-known _ _ (jump_target_loc s₀ (s₀.jumps i))
          (λ s p. ap (λ (t : JitState). jump_target_loc t (s₀.jumps i)) p.only_buf)
          (elim (Bool-cases (s₀.jumps i).near) [
            | inl e ↦
                rw e (
                  Keeps-if _ _ _ (Keeps-pure false) (patched _ 1 _ (ground (arith, ends jump i h))))
            | inr e ↦ rw e (patched _ 4 _ (ground (arith, ends jump i h)))
          ]))

  pub resolve_local_call-Patches :
      (i : ℕ) → i < s₀.num_local_calls → Keeps (PatchesBelow end s₀) (resolve_local_call i)
  unfolding resolve_local_call
  resolve_local_call-Patches i h =
      Keeps-known _ _ (s₀.local_calls i) (λ s p. ap (λ (t : JitState). t.local_calls i) p.only_buf)
        (Keeps-known _ _ (s₀.pc_locs (s₀.local_calls i).target_pc)
          (λ s p. ap (λ (t : JitState). t.pc_locs (s₀.local_calls i).target_pc) p.only_buf)
          (Keeps-known _ _ s₀.bpf_function_prolog_size
            (λ s p. ap (λ (t : JitState). t.bpf_function_prolog_size) p.only_buf)
            (patched _ 4 _ (ends local_call i h))))

  pub resolve_load-Patches :
      (i : ℕ) → i < s₀.num_loads → Keeps (PatchesBelow end s₀) (resolve_load i)
  unfolding resolve_load
  resolve_load-Patches i h =
      Keeps-known _ _ (s₀.loads i) (λ s p. ap (λ (t : JitState). t.loads i) p.only_buf)
        (Keeps-known _ _ s₀.dispatcher_loc
          (λ s p. ap (λ (t : JitState). t.dispatcher_loc) p.only_buf)
          (Keeps-if _ _ _ (patched _ 4 _ (ends load i h)) (Keeps-pure false)))

  pub resolve_lea-Patches : (i : ℕ) → i < s₀.num_leas → Keeps (PatchesBelow end s₀) (resolve_lea i)
  unfolding resolve_lea
  resolve_lea-Patches i h =
      Keeps-known _ _ (s₀.leas i) (λ s p. ap (λ (t : JitState). t.leas i) p.only_buf)
        (Keeps-known _ _ s₀.helper_table_loc
          (λ s p. ap (λ (t : JitState). t.helper_table_loc) p.only_buf)
          (Keeps-if _ _ _ (patched _ 4 _ (ends lea i h)) (Keeps-pure false)))

  pub resolve_patchable_relatives-Patches : Keeps (PatchesBelow end s₀) resolve_patchable_relatives
  unfolding resolve_patchable_relatives
  resolve_patchable_relatives-Patches =
      Keeps-known _ _ s₀.num_jumps (λ s p. ap (λ (t : JitState). t.num_jumps) p.only_buf)
        (Keeps-known _ _ s₀.num_local_calls
          (λ s p. ap (λ (t : JitState). t.num_local_calls) p.only_buf)
          (Keeps-known _ _ s₀.num_loads (λ s p. ap (λ (t : JitState). t.num_loads) p.only_buf)
            (Keeps-known _ _ s₀.num_leas (λ s p. ap (λ (t : JitState). t.num_leas) p.only_buf)
              (Keeps-bind _ _ (each-Keeps _ _ resolve_jump-Patches) (λ jumps.
                Keeps-if _ _ _ (Keeps-pure false) (
                  Keeps-bind _ _ (each-Keeps _ _ resolve_local_call-Patches) (λ calls.
                    Keeps-if _ _ _ (Keeps-pure false) (
                      Keeps-bind _ _ (each-Keeps _ _ resolve_load-Patches) (λ loads.
                        Keeps-if _ _ _ (Keeps-pure false)
                          (each-Keeps _ _ resolve_lea-Patches))))))))))

pub Patches-refl : {end : ℕ} (s : JitState) → PatchesBelow end s s
Patches-refl {end} s = record { only_buf = refl; beyond = λ i h. refl }
