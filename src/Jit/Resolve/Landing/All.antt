-- ===== src/Jit/Resolve/Landing/All.antt =====
-- After a successful `resolve_patchable_relatives` (libs/ubpf/vm/ubpf_jit_x86_64.c) every jump, call,
-- load and lea of the code leads to its target.
use mathlib.Core.Path.{subst}
use appclick_ubpf.Prelude.{
  ℕ, zero, suc, ◌+◌, ◌-◌, ◌%◌, ◌^◌, ◌≤◌, ◌<◌, ◌≡◌, ◌≢◌, refl, sym, inl, inr, true,
}
use appclick_ubpf.Prelude.{==_iff, ◌!=◌}
use appclick_ubpf.Jit.State.{target_pc_exit, target_pc_retpoline}
use appclick_ubpf.Prelude.{arith, ◌==◌, Bool-cases}
use appclick_ubpf.Jit.State.{JitState, PatchableRelative, pure, gets, ◌>>=◌}
use appclick_ubpf.Jit.Emit.{le_bytes, is_int8}
use appclick_ubpf.Jit.Emit.Apart.{tables_of, Table, jump, load, lea, local_call, count, width}
use appclick_ubpf.Jit.Emit.Grows.{last-le, ArePlaced}
use appclick_ubpf.Jit.Resolve.{
  jump_target_loc, relative, each, resolve_jump, resolve_local_call, resolve_load, resolve_lea,
  resolve_patchable_relatives,
}
use appclick_ubpf.Jit.Resolve.Safety.{
  Patches, Patches-refl, each-Keeps, resolve_jump-Patches, resolve_local_call-Patches,
  resolve_load-Patches, resolve_lea-Patches,
}
use appclick_ubpf.Jit.Resolve.Landing.{
  bytes_at, displacement, Lands, loop-Lands, target-buf, jump-IsPatcher, local_call-IsPatcher,
  load-IsPatcher, lea-IsPatcher,
}

-- A near jump whose round returned true is near enough.
abbrev IsReached : JitState → ℕ → Type 0
IsReached s k = (s.jumps k).near ≡ true → is_int8 (displacement s jump k) ≡ true

reaches_with :
    (s₀ : JitState) (k : ℕ) (buf : ℕ → ℕ)
    → (resolve_jump k (record s₀ { buf = buf })).0 ≡ true
    → IsReached s₀ k
unfolding resolve_jump ◌>>=◌ gets pure is_int8 relative jump_target_loc
reaches_with s₀ k buf won close = elim (Bool-cases (is_int8 (displacement s₀ jump k))) [
  | inl fits ↦ fits
  | inr wide ↦ absurd (cc (rw close at wide, rw (close, target-buf s₀ buf (s₀.jumps k)) at won))
]

round_reaches :
    (s₀ s : JitState) (k : ℕ) → Patches s₀ s → (resolve_jump k s).0 ≡ true → IsReached s₀ k
round_reaches s₀ s k p =
    subst (λ (t : JitState). (resolve_jump k t).0 ≡ true → IsReached s₀ k) (sym p.only_buf)
      (reaches_with s₀ k s.buf)

every_table :
    (s : JitState) (buf : ℕ → ℕ)
    → ((k : ℕ) → k < s.num_jumps → Lands s jump k buf)
    → ((k : ℕ) → k < s.num_loads → Lands s load k buf)
    → ((k : ℕ) → k < s.num_leas → Lands s lea k buf)
    → ((k : ℕ) → k < s.num_local_calls → Lands s local_call k buf)
    → (a : Table) (k : ℕ) → k < count (tables_of s) a
    → Lands s a k buf
every_table s buf hj hl he hc jump = hj
every_table s buf hj hl he hc load = hl
every_table s buf hj hl he hc lea = he
every_table s buf hj hl he hc local_call = hc

module _ (s₀ : JitState) (placed : ArePlaced s₀) where
  loop_reaches :
      (n : ℕ) (s : JitState)
      → n ≤ s₀.num_jumps
      → Patches s₀ s
      → (each resolve_jump n s).0 ≡ true
      → (k : ℕ) → k < n
      → IsReached s₀ k
  unfolding each ◌>>=◌ pure
  loop_reaches zero s fits p won k h = absurd (omega arith)
  loop_reaches (suc n) s fits p won k h = elim (Bool-cases (each resolve_jump n s).0) [
    | inr lost ↦ absurd (cc (rw lost at won))
    | inl ok ↦ elim (Bool-cases (k == n)) [
      | inr other ↦ loop_reaches n s (omega arith) p ok k (ground (arith, other))
      | inl same ↦
          let p' =
            (each-Keeps resolve_jump n
                (λ i q. resolve_jump-Patches s₀ s₀.offset (last-le s₀ placed) i (omega arith))).at
              s p in
          subst (IsReached s₀) (ground (arith, same))
            (round_reaches s₀ (each resolve_jump n s).1 n p' (rw ok at won))
    ]
  ]

  -- After the four loops every relocation has its displacement, and near jumps are near enough.
  resolve-Lands :
      (resolve_patchable_relatives s₀).0 ≡ true
      → ((a : Table) (k : ℕ)
          → k < count (tables_of s₀) a
          → Lands s₀ a k (resolve_patchable_relatives s₀).1.buf)
        × ((k : ℕ) → k < s₀.num_jumps → IsReached s₀ k)
  unfolding resolve_patchable_relatives ◌>>=◌ gets pure
  resolve-Lands won =
      let p₀ = Patches-refl s₀ in
      let s₁ = (each resolve_jump s₀.num_jumps s₀).1 in
      let s₂ = (each resolve_local_call s₀.num_local_calls s₁).1 in
      let s₃ = (each resolve_load s₀.num_loads s₂).1 in
      elim (Bool-cases (each resolve_jump s₀.num_jumps s₀).0) [
        | inr lost ↦ absurd (cc (rw lost at won))
        | inl w₁ ↦ elim (Bool-cases (each resolve_local_call s₀.num_local_calls s₁).0) [
          | inr lost ↦ absurd (cc (rw (w₁, lost) at won))
          | inl w₂ ↦ elim (Bool-cases (each resolve_load s₀.num_loads s₂).0) [
            | inr lost ↦ absurd (cc (rw (w₁, w₂, lost) at won))
            | inl w₃ ↦
                let p₁ =
                  (each-Keeps _ _ (resolve_jump-Patches s₀ s₀.offset (last-le s₀ placed))).at s₀
                    p₀ in
                let p₂ =
                  (each-Keeps _ _ (resolve_local_call-Patches s₀ s₀.offset (last-le s₀ placed))).at
                    s₁ p₁ in
                let p₃ =
                  (each-Keeps _ _ (resolve_load-Patches s₀ s₀.offset (last-le s₀ placed))).at s₂
                    p₂ in
                let j =
                  loop-Lands s₀ placed jump resolve_jump (jump-IsPatcher s₀)
                    (resolve_jump-Patches s₀ s₀.offset (last-le s₀ placed)) s₀.num_jumps s₀
                    (omega arith) p₀ w₁ in
                let c =
                  loop-Lands s₀ placed local_call resolve_local_call (local_call-IsPatcher s₀)
                    (resolve_local_call-Patches s₀ s₀.offset (last-le s₀ placed)) s₀.num_local_calls
                    s₁ (omega arith) p₁ w₂ in
                let l =
                  loop-Lands s₀ placed load resolve_load (load-IsPatcher s₀)
                    (resolve_load-Patches s₀ s₀.offset (last-le s₀ placed)) s₀.num_loads s₂
                    (omega arith) p₂ w₃ in
                let e =
                  loop-Lands s₀ placed lea resolve_lea (lea-IsPatcher s₀)
                    (resolve_lea-Patches s₀ s₀.offset (last-le s₀ placed)) s₀.num_leas s₃
                    (omega arith) p₃ (rw (w₁, w₂, w₃) at won) in
                rw (w₁, w₂, w₃)
                  (
                    every_table s₀ (each resolve_lea s₀.num_leas s₃).1.buf
                        (λ k h. e.1 jump k h (cc) (l.1 jump k h (cc) (c.1 jump k h (cc) (j.0 k h))))
                        (λ k h. e.1 load k h (cc) (l.0 k h)) e.0
                        (λ k h. e.1 local_call k h (cc) (l.1 local_call k h (cc) (c.0 k h))),
                    loop_reaches s₀.num_jumps s₀ (omega arith) p₀ w₁,
                  )
          ]
        ]
      ]

-- `n` bytes at `loc` hold a displacement: from the place after them it leads to `target`, with
-- addresses of 32 bits. A displacement of one byte is between -128 and 127.
pub record Leads (buf : ℕ → ℕ) (loc n target : ℕ) : Type 0 where
  pub distance : ℕ
  pub stored : bytes_at buf loc n ≡ le_bytes n distance
  pub arrives : (loc + n + distance) % 2 ^ 32 ≡ target % 2 ^ 32
  pub near_enough : n ≡ 1 → is_int8 distance ≡ true

relative_arrives : (target loc n : ℕ) → (loc + n + relative target loc n) % 2 ^ 32 ≡ target % 2 ^ 32
unfolding relative
relative_arrives target loc n = omega arith

call_arrives :
    (target loc prolog : ℕ)
    → (loc + 4 + relative (relative target loc 4) prolog 0) % 2 ^ 32
      ≡ (target + 2 ^ 32 - prolog % 2 ^ 32) % 2 ^ 32
unfolding relative
call_arrives target loc prolog = omega arith

-- Where a jump of the table is meant to go: inside the code of an instruction where the code sets
-- an offset; to the end of the program's code, for a jump to the exit; to the retpoline; and else to
-- the code of the instruction that is its target.
pub data IsTarget (s : JitState) (p : PatchableRelative) : ℕ → Type 0 where
  within : {target : ℕ} → target ≢ 0 → p.target_offset ≡ target → IsTarget s p target
  exit_code : p.target_offset ≡ 0 → p.target_pc ≡ target_pc_exit → IsTarget s p s.exit_loc
  retpoline_code :
      p.target_offset ≡ 0 → p.target_pc ≡ target_pc_retpoline → IsTarget s p s.retpoline_loc
  inst_code :
      p.target_offset ≡ 0
      → p.target_pc ≢ target_pc_exit
      → p.target_pc ≢ target_pc_retpoline
      → IsTarget s p (s.pc_locs p.target_pc)

jump_target_loc-IsTarget :
    (s : JitState) (p : PatchableRelative) → IsTarget s p (jump_target_loc s p)
unfolding jump_target_loc
jump_target_loc-IsTarget s p = elim (Bool-cases (p.target_offset != 0)) [
  | inl e ↦ rw (e, jump_target_loc) (within (ground (arith, e)) refl)
  | inr e ↦
      let none_set : p.target_offset ≡ 0 = ground (arith, e) in
      elim (Bool-cases (p.target_pc == target_pc_exit)) [
        | inl x ↦ rw (e, x, jump_target_loc) (exit_code none_set ((==_iff _ _).0 x))
        | inr x ↦ elim (Bool-cases (p.target_pc == target_pc_retpoline)) [
          | inl r ↦ rw (e, x, r, jump_target_loc) (retpoline_code none_set ((==_iff _ _).0 r))
          | inr r ↦
              rw (e, x, r, jump_target_loc)
                (inst_code none_set (ground (arith, x)) (ground (arith, r)))
        ]
      ]
]

-- Every relocation leads to its target: a jump to a target that is meant (`IsTarget`), a local call
-- to the code of its instruction less the length of a prologue, a load to the dispatcher's address
-- and a lea to the table of the helpers.
pub record IsLinked (s : JitState) (buf : ℕ → ℕ) : Type 0 where
  pub jumps_lead :
      (k : ℕ)
      → k < s.num_jumps
      → (target : ℕ) × IsTarget s (s.jumps k) target
        × Leads buf (s.jumps k).offset_loc (width (s.jumps k)) target
  pub local_calls_lead :
      (k : ℕ)
      → k < s.num_local_calls
      → Leads buf
          (s.local_calls k).offset_loc
          4
          (s.pc_locs (s.local_calls k).target_pc + 2 ^ 32 - s.bpf_function_prolog_size % 2 ^ 32)
  pub loads_lead : (k : ℕ) → k < s.num_loads → Leads buf (s.loads k).offset_loc 4 s.dispatcher_loc
  pub leas_lead : (k : ℕ) → k < s.num_leas → Leads buf (s.leas k).offset_loc 4 s.helper_table_loc

width_one : (p : PatchableRelative) → width p ≡ 1 → p.near ≡ true
width_one p e = ground (arith, e)

-- Where the relocations lie in the code and share no byte, and `resolve_patchable_relatives` returns
-- true, every one of them leads to its target afterwards.
pub resolve_patchable_relatives-IsLinked :
    (s : JitState)
    → ArePlaced s
    → (resolve_patchable_relatives s).0 ≡ true
    → IsLinked s (resolve_patchable_relatives s).1.buf
resolve_patchable_relatives-IsLinked s placed won =
    let (lands, reached) = resolve-Lands s placed won in
    record {
      jumps_lead = λ k h.
          let target = jump_target_loc s (s.jumps k) in
          (
            target,
            jump_target_loc-IsTarget s (s.jumps k),
            record {
              distance = displacement s jump k;
              stored = lands jump k h;
              arrives = relative_arrives target (s.jumps k).offset_loc (width (s.jumps k));
              near_enough = λ one. reached k h (width_one (s.jumps k) one);
            },
          );
      local_calls_lead = λ k h. record {
        distance = displacement s local_call k;
        stored = lands local_call k h;
        arrives = call_arrives _ (s.local_calls k).offset_loc s.bpf_function_prolog_size;
        near_enough = λ one. absurd (omega (arith, one));
      };
      loads_lead = λ k h. record {
        distance = displacement s load k;
        stored = lands load k h;
        arrives = relative_arrives _ (s.loads k).offset_loc 4;
        near_enough = λ one. absurd (omega (arith, one));
      };
      leas_lead = λ k h. record {
        distance = displacement s lea k;
        stored = lands lea k h;
        arrives = relative_arrives _ (s.leas k).offset_loc 4;
        near_enough = λ one. absurd (omega (arith, one));
      };
    }
