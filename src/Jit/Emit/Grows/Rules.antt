-- ===== src/Jit/Emit/Grows/Rules.antt =====
-- The emitters of libs/ubpf/vm/ubpf_jit_x86_64.h that write single numbers and relocations keep the
-- buffer and the tables sound.
use appclick_ubpf.Prelude.{ℕ, ◌≤◌, ◌≡◌, refl, Bool, true, false, ◌==◌, if◌then◌else◌, arith}
use appclick_ubpf.Prelude.{Bool-cases, inl, inr, length}
use appclick_ubpf.Vm.{max_insts}
use appclick_ubpf.Jit.State.{
  JitState, too_many_jumps, too_many_local_calls, modify, pure, gets, ◌>>=◌,
}
use appclick_ubpf.Jit.State.Keeps.{Keeps, emit_rules}
use appclick_ubpf.Jit.Support.{
  emit_patchable_relative, emit_patchable_relative_ex, note_load, note_lea, emit_jump_target,
  fixup_jump_target,
}
use appclick_ubpf.Jit.Support.Tables.{offset_loc-fixup, near-fixup}
use appclick_ubpf.Jit.Emit.{
  emit_bytes, le_bytes, emit1, emit2, emit4, emit8, emit_4byte_offset_placeholder, set_jit_status,
  note_jump, note_local_call, emit_jump_address_reloc, emit_near_jump_address_reloc,
  emit_local_call_address_reloc,
}
use appclick_ubpf.Jit.Emit.Apart.{
  Tables, tables_of, Table, jump, load, lea, local_call, entry, count, last, width, four,
  Apart-added, Apart-same, Begun-added, Begun-same,
}
use appclick_ubpf.Jit.Emit.Grows.{
  last-le, Grows, later, IsPlaced-update, width, four, Grows-bytes, Grows-error, Grows-tables,
  Grows-reserve,
}

-- The tables with a new target for some jumps.
abbrev retargeted : JitState → ℕ → ℕ → Tables
retargeted s src dest =
    tables_of (record s { jumps = fixup_jump_target s.jumps s.num_jumps src dest })

same_count :
    (s : JitState) (src dest : ℕ) (a : Table)
    → count (retargeted s src dest) a ≡ count (tables_of s) a
same_count s src dest jump = refl
same_count s src dest load = refl
same_count s src dest lea = refl
same_count s src dest local_call = refl

same_place :
    (s : JitState) (src dest : ℕ) (a : Table) (k : ℕ)
    → (entry (retargeted s src dest) a k).offset_loc ≡ (entry (tables_of s) a k).offset_loc
same_place s src dest jump k = offset_loc-fixup s.jumps s.num_jumps src dest k
same_place s src dest load k = refl
same_place s src dest lea k = refl
same_place s src dest local_call k = refl

same_last :
    (s : JitState) (src dest : ℕ) (a : Table) (k : ℕ)
    → last (retargeted s src dest) a k ≡ last (tables_of s) a k
same_last s src dest jump k =
    rw (offset_loc-fixup s.jumps s.num_jumps src dest k, near-fixup s.jumps s.num_jumps src dest k)
      refl
same_last s src dest load k = refl
same_last s src dest lea k = refl
same_last s src dest local_call k = refl

module _ {s₀ : JitState} where
  pub emit1-Grows : (x : ℕ) → Keeps (Grows s₀) (emit1 x)
  unfolding emit1 le_bytes
  emit1-Grows x = record { at = λ s g. Grows-bytes (le_bytes 1 x) (omega arith) g }

  pub emit2-Grows : (x : ℕ) → Keeps (Grows s₀) (emit2 x)
  unfolding emit2 le_bytes
  emit2-Grows x = record { at = λ s g. Grows-bytes (le_bytes 2 x) (omega arith) g }

  pub emit4-Grows : (x : ℕ) → Keeps (Grows s₀) (emit4 x)
  unfolding emit4 le_bytes
  emit4-Grows x = record { at = λ s g. Grows-bytes (le_bytes 4 x) (omega arith) g }

  pub emit8-Grows : (x : ℕ) → Keeps (Grows s₀) (emit8 x)
  unfolding emit8 le_bytes
  emit8-Grows x = record { at = λ s g. Grows-bytes (le_bytes 8 x) (omega arith) g }

  pub placeholder-Grows : Keeps (Grows s₀) emit_4byte_offset_placeholder
  unfolding emit_4byte_offset_placeholder
  placeholder-Grows = emit4-Grows 0

  -- A relocation's entry, then its bytes.
  jump_entry :
      (target_pc : ℕ) (is_near : Bool) (s : JitState) (n : ℕ)
      → (s.num_jumps == max_insts) ≡ false
      → length (le_bytes n 0) ≤ 8
      → (if is_near then 1 else 4) ≤ length (le_bytes n 0)
      → Grows s₀ s
      → Grows s₀ (emit_bytes (le_bytes n 0) (note_jump target_pc is_near s).1).1
  unfolding note_jump modify emit_patchable_relative_ex
  jump_entry target_pc is_near s n room small wide g =
      Grows-reserve ((note_jump target_pc is_near s).1) (le_bytes n 0) small
        (record {
          offset_same = refl;
          size_same = refl;
          buf_same = refl;
          status_same = refl;
          jumps_within = ground (arith, g.emitting.jumps_fit);
          loads_within = g.emitting.loads_fit;
          leas_within = g.emitting.leas_fit;
          local_calls_within = g.emitting.local_calls_fit;
          begun_still = Begun-added (tables_of s) jump _ s.offset g.emitting.begun (omega arith);
          says_still = g.emitting.says;
        })
        (λ buf ok before p. record {
          jumps_placed =
              IsPlaced-update width s.jumps s.num_jumps _ _ p.jumps_placed (omega (arith, wide));
          loads_placed = p.loads_placed;
          leas_placed = p.leas_placed;
          local_calls_placed = p.local_calls_placed;
          apart = Apart-added (tables_of s) jump _ before.apart (last-le s before);
        })
        g

  pub emit_jump_address_reloc-Grows :
      (target_pc : ℕ) → Keeps (Grows s₀) (emit_jump_address_reloc target_pc)
  unfolding emit_jump_address_reloc set_jit_status emit_4byte_offset_placeholder emit4 le_bytes
      ◌>>=◌ gets pure modify
  emit_jump_address_reloc-Grows target_pc = record {
    at = λ s g. elim (Bool-cases (s.num_jumps == max_insts)) [
      | inl e ↦ rw e (Grows-error too_many_jumps (cc) (later (cc) (cc)) g)
      | inr e ↦ rw e (jump_entry target_pc false s 4 e (omega arith) (omega arith) g)
    ];
  }

  pub emit_near_jump_address_reloc-Grows :
      (target_pc : ℕ) → Keeps (Grows s₀) (emit_near_jump_address_reloc target_pc)
  unfolding emit_near_jump_address_reloc set_jit_status emit1 le_bytes ◌>>=◌ gets pure modify
  emit_near_jump_address_reloc-Grows target_pc = record {
    at = λ s g. elim (Bool-cases (s.num_jumps == max_insts)) [
      | inl e ↦ rw e (Grows-error too_many_jumps (cc) (later (cc) (cc)) g)
      | inr e ↦ rw e (jump_entry target_pc true s 1 e (omega arith) (omega arith) g)
    ];
  }

  pub emit_local_call_address_reloc-Grows :
      (target_pc : ℕ) → Keeps (Grows s₀) (emit_local_call_address_reloc target_pc)
  unfolding emit_local_call_address_reloc set_jit_status note_local_call emit_patchable_relative
      emit_patchable_relative_ex emit_4byte_offset_placeholder emit4 le_bytes ◌>>=◌ gets pure modify
  emit_local_call_address_reloc-Grows target_pc = record {
    at = λ s g. elim (Bool-cases (s.num_local_calls == max_insts)) [
      | inl e ↦ rw e (Grows-error too_many_local_calls (cc) (later (cc) (cc)) g)
      | inr e ↦ rw e (
          Grows-reserve ((note_local_call target_pc s).1) (le_bytes 4 0) (omega arith)
            (record {
              offset_same = refl;
              size_same = refl;
              buf_same = refl;
              status_same = refl;
              jumps_within = g.emitting.jumps_fit;
              loads_within = g.emitting.loads_fit;
              leas_within = g.emitting.leas_fit;
              local_calls_within = ground (arith, g.emitting.local_calls_fit);
              begun_still =
                  Begun-added (tables_of s) local_call _ s.offset g.emitting.begun (omega arith);
              says_still = g.emitting.says;
            })
            (λ buf ok before p. record {
              jumps_placed = p.jumps_placed;
              loads_placed = p.loads_placed;
              leas_placed = p.leas_placed;
              local_calls_placed =
                  IsPlaced-update four s.local_calls s.num_local_calls _ _ p.local_calls_placed
                    (omega arith);
              apart = Apart-added (tables_of s) local_call _ before.apart (last-le s before);
            })
            g)
    ];
  }

  -- A load's entry and its bytes, where the table has room; so a lea's.
  pub load_entry :
      (target : ℕ) (s : JitState)
      → (s.num_loads == max_insts) ≡ false
      → Grows s₀ s
      → Grows s₀ (emit_4byte_offset_placeholder (note_load target s).1).1
  unfolding note_load emit_patchable_relative emit_patchable_relative_ex
      emit_4byte_offset_placeholder emit4 le_bytes modify
  load_entry target s room g =
      Grows-reserve ((note_load target s).1) (le_bytes 4 0) (omega arith)
        (record {
          offset_same = refl;
          size_same = refl;
          buf_same = refl;
          status_same = refl;
          jumps_within = g.emitting.jumps_fit;
          loads_within = ground (arith, g.emitting.loads_fit);
          leas_within = g.emitting.leas_fit;
          local_calls_within = g.emitting.local_calls_fit;
          begun_still = Begun-added (tables_of s) load _ s.offset g.emitting.begun (omega arith);
          says_still = g.emitting.says;
        })
        (λ buf ok before p. record {
          jumps_placed = p.jumps_placed;
          loads_placed = IsPlaced-update four s.loads s.num_loads _ _ p.loads_placed (omega arith);
          leas_placed = p.leas_placed;
          local_calls_placed = p.local_calls_placed;
          apart = Apart-added (tables_of s) load _ before.apart (last-le s before);
        })
        g

  pub lea_entry :
      (target : ℕ) (s : JitState)
      → (s.num_leas == max_insts) ≡ false
      → Grows s₀ s
      → Grows s₀ (emit_4byte_offset_placeholder (note_lea target s).1).1
  unfolding note_lea emit_patchable_relative emit_patchable_relative_ex
      emit_4byte_offset_placeholder emit4 le_bytes modify
  lea_entry target s room g =
      Grows-reserve ((note_lea target s).1) (le_bytes 4 0) (omega arith)
        (record {
          offset_same = refl;
          size_same = refl;
          buf_same = refl;
          status_same = refl;
          jumps_within = g.emitting.jumps_fit;
          loads_within = g.emitting.loads_fit;
          leas_within = ground (arith, g.emitting.leas_fit);
          local_calls_within = g.emitting.local_calls_fit;
          begun_still = Begun-added (tables_of s) lea _ s.offset g.emitting.begun (omega arith);
          says_still = g.emitting.says;
        })
        (λ buf ok before p. record {
          jumps_placed = p.jumps_placed;
          loads_placed = p.loads_placed;
          leas_placed = IsPlaced-update four s.leas s.num_leas _ _ p.leas_placed (omega arith);
          local_calls_placed = p.local_calls_placed;
          apart = Apart-added (tables_of s) lea _ before.apart (last-le s before);
        })
        g

  -- A new target moves no relocation.
  pub fixup-Grows :
      {s : JitState} (src dest : ℕ)
      → Grows s₀ s
      → Grows s₀ (record s { jumps = fixup_jump_target s.jumps s.num_jumps src dest })
  fixup-Grows {s} src dest g =
      Grows-tables (record s { jumps = fixup_jump_target s.jumps s.num_jumps src dest })
        (record {
          offset_same = refl;
          size_same = refl;
          buf_same = refl;
          status_same = refl;
          jumps_within = g.emitting.jumps_fit;
          loads_within = g.emitting.loads_fit;
          leas_within = g.emitting.leas_fit;
          local_calls_within = g.emitting.local_calls_fit;
          begun_still =
              Begun-same (tables_of s) (retargeted s src dest) s.offset (same_count s src dest)
                (same_place s src dest) g.emitting.begun;
          says_still = g.emitting.says;
        })
        (λ ok p. record {
          jumps_placed = λ k h.
              rw
                (
                  offset_loc-fixup s.jumps s.num_jumps src dest k,
                  near-fixup s.jumps s.num_jumps src dest k,
                )
                (p.jumps_placed k h);
          loads_placed = p.loads_placed;
          leas_placed = p.leas_placed;
          local_calls_placed = p.local_calls_placed;
          apart =
              Apart-same (tables_of s) (retargeted s src dest) (same_count s src dest)
                (same_place s src dest) (same_last s src dest) p.apart;
        })
        g

  pub emit_jump_target-Grows : (jump_src : ℕ) → Keeps (Grows s₀) (emit_jump_target jump_src)
  unfolding emit_jump_target modify
  emit_jump_target-Grows jump_src = record { at = λ s g. fixup-Grows jump_src s.offset g }

pub ruleset grows_rules = (
  emit_rules, emit1-Grows, emit2-Grows, emit4-Grows, emit8-Grows, placeholder-Grows,
  emit_jump_address_reloc-Grows, emit_near_jump_address_reloc-Grows,
  emit_local_call_address_reloc-Grows, emit_jump_target-Grows,
)
