-- ===== src/Jump/Laws.antt =====
-- How the conditions of the jumps relate.
use appclick_ubpf.Prelude.{ℕ, ◌^◌, ◌<◌, ◌≡◌, ◌≢◌, refl, not, ◌==◌, ◌!=◌, ltb, leb}
use appclick_ubpf.Prelude.{arith}
use appclick_ubpf.Words.{u32, i32, i64, signed64, ltb_ℤ, leb_ℤ, ℤ, pos, negsuc, signed64-i64}
use appclick_ubpf.Isa.{
  Cond, jeq, jgt, jge, jset, jne, jsgt, jsge, jlt, jle, jslt, jsle, Width, w32, w64,
}
use appclick_ubpf.Jump.{holds, holds64, holds32}

-- The condition that holds where this one does not; a bit test has none.
abbrev pub opposite : Cond → Cond
opposite jeq = jne
opposite jne = jeq
opposite jgt = jle
opposite jle = jgt
opposite jge = jlt
opposite jlt = jge
opposite jsgt = jsle
opposite jsle = jsgt
opposite jsge = jslt
opposite jslt = jsge
opposite jset = jset

ltb_ℤ-not : (a b : ℤ) → ltb_ℤ a b ≡ not (leb_ℤ b a)
ltb_ℤ-not (pos a) (pos b) = ground arith
ltb_ℤ-not (pos a) (negsuc b) = refl
ltb_ℤ-not (negsuc a) (pos b) = refl
ltb_ℤ-not (negsuc a) (negsuc b) = ground arith

leb_ℤ-not : (a b : ℤ) → leb_ℤ a b ≡ not (ltb_ℤ b a)
leb_ℤ-not (pos a) (pos b) = ground arith
leb_ℤ-not (pos a) (negsuc b) = refl
leb_ℤ-not (negsuc a) (pos b) = refl
leb_ℤ-not (negsuc a) (negsuc b) = ground arith

-- Each condition but the bit test has an opposite: of the two, exactly one holds, signed or not,
-- in 32 bits and in 64.
pub holds_opposite :
    (w : Width) (c : Cond) (d s : ℕ) → c ≢ jset → holds w (opposite c) d s ≡ not (holds w c d s)
unfolding holds64 holds32
holds_opposite w32 jset d s h = absurd (h refl)
holds_opposite w64 jset d s h = absurd (h refl)
holds_opposite w32 jsgt d s h = leb_ℤ-not (i32 d) (i32 s)
holds_opposite w64 jsgt d s h = leb_ℤ-not (signed64 d) (signed64 s)
holds_opposite w32 jsle d s h = ltb_ℤ-not (i32 s) (i32 d)
holds_opposite w64 jsle d s h = ltb_ℤ-not (signed64 s) (signed64 d)
holds_opposite w32 jsge d s h = ltb_ℤ-not (i32 d) (i32 s)
holds_opposite w64 jsge d s h = ltb_ℤ-not (signed64 d) (signed64 s)
holds_opposite w32 jslt d s h = leb_ℤ-not (i32 s) (i32 d)
holds_opposite w64 jslt d s h = leb_ℤ-not (signed64 s) (signed64 d)
holds_opposite w32 jeq d s h = ground arith
holds_opposite w32 jne d s h = ground arith
holds_opposite w32 jgt d s h = ground arith
holds_opposite w32 jge d s h = ground arith
holds_opposite w32 jlt d s h = ground arith
holds_opposite w32 jle d s h = ground arith
holds_opposite w64 jeq d s h = ground arith
holds_opposite w64 jne d s h = ground arith
holds_opposite w64 jgt d s h = ground arith
holds_opposite w64 jge d s h = ground arith
holds_opposite w64 jlt d s h = ground arith
holds_opposite w64 jle d s h = ground arith

u32-i64 : (a : ℕ) → a < 2 ^ 32 → u32 (i64 a) ≡ a
unfolding i64
u32-i64 a h = ground arith

ltb-i64 : (a b : ℕ) → a < 2 ^ 32 → b < 2 ^ 32 → (ltb (i64 a) (i64 b)) ≡ (ltb a b)
unfolding i64
ltb-i64 a b ha hb = ground arith

leb-i64 : (a b : ℕ) → a < 2 ^ 32 → b < 2 ^ 32 → (leb (i64 a) (i64 b)) ≡ (leb a b)
unfolding i64
leb-i64 a b ha hb = ground arith

==_i64 : (a b : ℕ) → a < 2 ^ 32 → b < 2 ^ 32 → (i64 a == i64 b) ≡ (a == b)
unfolding i64
==_i64 a b ha hb = ground arith

!=_i64 : (a b : ℕ) → a < 2 ^ 32 → b < 2 ^ 32 → (i64 a != i64 b) ≡ (a != b)
unfolding i64
!=_i64 a b ha hb = ground arith

-- On two 32-bit numbers extended by their sign, a condition of 64 bits holds exactly if the one
-- of 32 bits does; the bit test is left out.
pub holds_widths :
    (c : Cond) (a b : ℕ)
    → a < 2 ^ 32
    → b < 2 ^ 32
    → c ≢ jset
    → holds w64 c (i64 a) (i64 b) ≡ holds w32 c (i64 a) (i64 b)
unfolding holds64 holds32
holds_widths jset a b ha hb h = absurd (h refl)
holds_widths jeq a b ha hb h = rw (u32-i64 a ha, u32-i64 b hb, ==_i64 a b ha hb)
holds_widths jne a b ha hb h = rw (u32-i64 a ha, u32-i64 b hb, !=_i64 a b ha hb)
holds_widths jgt a b ha hb h = rw (u32-i64 a ha, u32-i64 b hb, ltb-i64 b a hb ha)
holds_widths jge a b ha hb h = rw (u32-i64 a ha, u32-i64 b hb, leb-i64 b a hb ha)
holds_widths jlt a b ha hb h = rw (u32-i64 a ha, u32-i64 b hb, ltb-i64 a b ha hb)
holds_widths jle a b ha hb h = rw (u32-i64 a ha, u32-i64 b hb, leb-i64 a b ha hb)
holds_widths jsgt a b ha hb h =
    rw (u32-i64 a ha, u32-i64 b hb, signed64-i64 a ha, signed64-i64 b hb)
holds_widths jsge a b ha hb h =
    rw (u32-i64 a ha, u32-i64 b hb, signed64-i64 a ha, signed64-i64 b hb)
holds_widths jslt a b ha hb h =
    rw (u32-i64 a ha, u32-i64 b hb, signed64-i64 a ha, signed64-i64 b hb)
holds_widths jsle a b ha hb h =
    rw (u32-i64 a ha, u32-i64 b hb, signed64-i64 a ha, signed64-i64 b hb)
