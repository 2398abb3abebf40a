-- ===== src/Vm/Laws.antt =====
-- The table of external functions of libs/ubpf/vm/ubpf_vm.c.
use text.Mathlib.Text.{◌==◌ as str_eq}
use Prim.Native.String.{String}
use appclick_ubpf.Prelude.{
  ℕ, zero, suc, ◌+◌, ◌-◌, ◌^◌, ◌≤◌, ◌<◌, ◌≡◌, ◌↔◌, refl, inl, inr, ◌∙◌, ap, sym, ==_iff, Bool, true,
  false,
}
use appclick_ubpf.Prelude.{none, some, arith, Option-cases, Bool-cases, ◌==◌, if◌then◌else◌}
use appclick_ubpf.Vm.{Vm, minus_one, max_ext_funcs}
use appclick_ubpf.Vm.Config.{lookup_from, lookup_registered_function}

-- Whether the function at an index has the name.
abbrev pub has_name : Vm → String → ℕ → Bool
has_name vm name i = elim (vm.ext_func_names i) [ none ↦ false | some other ↦ str_eq other name ]

lookup_round :
    (vm : Vm) (name : String) (left i : ℕ)
    → lookup_from vm name (suc left) i
      ≡ (if has_name vm name i then i else lookup_from vm name left (i + 1))
unfolding lookup_from
lookup_round vm name left i = elim (Option-cases (vm.ext_func_names i)) [
  | inl e ↦ rw (e, lookup_from, has_name) refl
  | inr (other, e) ↦ rw (e, lookup_from, has_name) refl
]

-- The loop gives the first index of its range that has the name.
lookup_from_iff :
    (vm : Vm) (name : String) (left start i : ℕ)
    → i < minus_one
    → (lookup_from vm name left start ≡ i) ↔ (
        (start ≤ i)
        × (i < start + left)
        × (has_name vm name i ≡ true)
        × ((k : ℕ) → start ≤ k → k < i → has_name vm name k ≡ false))
unfolding lookup_from
lookup_from_iff vm name zero start i small =
    ((λ e. absurd (omega arith)), λ h. absurd (omega arith))
lookup_from_iff vm name (suc left) start i small =
    let rest = lookup_from_iff vm name left (start + 1) i small in
    rw (lookup_round vm name left start) (elim (Bool-cases (has_name vm name start)) [
      | inl e ↦ rw e (
        (λ same. (
          omega arith,
          omega arith,
          ap (has_name vm name) (sym same) ∙ e,
          λ k p q. absurd (omega arith),
        )),
        λ h. elim (Bool-cases (start == i)) [
          | inl same ↦ (==_iff start i).0 same
          | inr other ↦ let before = h.3 start (omega arith) (ground (arith, h.0)) in absurd (cc)
        ],
      )
      | inr e ↦ rw e (
        (λ same.
            let (low, high, found, before) = rest.0 same in
            (
              omega arith,
              omega arith,
              found,
              λ k p q. elim (Bool-cases (start == k)) [
                | inl here ↦
                    let here' = (==_iff start k).0 here in ap (has_name vm name) (sym here') ∙ e
                | inr later ↦ before k (ground arith) q
              ],
            )),
        λ h. elim (Bool-cases (start == i)) [
          | inl same ↦
              let same' = (==_iff start i).0 same in
              let here = ap (has_name vm name) same' in let found = h.2 in absurd (cc)
          | inr other ↦
              rest.1 (ground (arith, h.0), omega (arith, h.1), h.2, λ k p q. h.3 k (omega arith) q)
        ],
      )
    ])

-- The lookup of a name gives an index, other than the -1 of a failure, exactly if it is the first
-- of the 64 indices whose function is registered under that name.
pub lookup_iff :
    (vm : Vm) (name : String) (i : ℕ)
    → i < 2 ^ 32 - 1
    → (lookup_registered_function vm name ≡ i) ↔ (
        (i < max_ext_funcs)
        × (has_name vm name i ≡ true)
        × ((k : ℕ) → k < i → has_name vm name k ≡ false))
unfolding lookup_registered_function
lookup_iff vm name i small =
    let first = lookup_from_iff vm name 64 0 i small in
    (
      (λ e.
          let (low, high, found, before) = first.0 e in
          (omega arith, found, λ k p. before k (omega arith) p)),
      λ h. first.1 (omega arith, omega (arith, h.0), h.1, λ k p q. h.2 k q),
    )
