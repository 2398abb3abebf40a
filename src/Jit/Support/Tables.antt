-- ===== src/Jit/Support/Tables.antt =====
-- `fixup_jump_target` of libs/ubpf/vm/ubpf_jit_support.c, entry by entry.
use appclick_ubpf.Prelude.{ℕ, zero, suc, ◌≡◌, ◌&&◌, ltb, ◌==◌, if◌then◌else◌, arith}
use appclick_ubpf.Jit.State.{PatchableRelative}
use appclick_ubpf.Jit.Support.{fixup_jump_target}

-- What `fixup_jump_target` leaves at each index: the entries below `table_size` that lie at
-- `src_offset` get the target `dest_offset`, and all others stay.
pub fixup_jump_target_lem :
    (table : ℕ → PatchableRelative) (table_size src_offset dest_offset k : ℕ)
    → fixup_jump_target table table_size src_offset dest_offset k ≡ (
        if ltb k table_size && ((table k).offset_loc == src_offset)
        then record (table k) { target_offset = dest_offset }
        else table k)
unfolding fixup_jump_target
fixup_jump_target_lem table zero src dest k = ground arith
fixup_jump_target_lem table (suc n) src dest k =
    ground
      (arith, fixup_jump_target_lem table n src dest k, fixup_jump_target_lem table n src dest n)

-- Neither place nor width of an entry changes.
pub offset_loc-fixup :
    (table : ℕ → PatchableRelative) (n src dest k : ℕ)
    → (fixup_jump_target table n src dest k).offset_loc ≡ (table k).offset_loc
offset_loc-fixup table n src dest k = ground (arith, fixup_jump_target_lem table n src dest k)

pub near-fixup :
    (table : ℕ → PatchableRelative) (n src dest k : ℕ)
    → (fixup_jump_target table n src dest k).near ≡ (table k).near
near-fixup table n src dest k = ground (arith, fixup_jump_target_lem table n src dest k)
