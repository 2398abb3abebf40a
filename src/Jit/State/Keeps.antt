-- ===== src/Jit/State/Keeps.antt =====
-- Predicates that the actions of the code generator keep, one rule for each way to build an action.
use mathlib.Core.Path.{subst}
use appclick_ubpf.Prelude.{◌≡◌, sym, Bool, true, false, if◌then◌else◌}
use appclick_ubpf.Jit.State.{JitState, Emit, modify, skip, when, pure, gets, ◌>>=◌}

-- Where `P` holds before the action, it holds after it.
pub record Keeps {A : Type 0} (P : JitState → Type 0) (m : Emit A) : Type 0 where
  pub at : (s : JitState) → P s → P (m s).1

module _ {P : JitState → Type 0} where
  pub Keeps-modify :
      (f : JitState → JitState) → ((s : JitState) → P s → P (f s)) → Keeps P (modify f)
  unfolding modify
  Keeps-modify f h = record { at = h }

  pub Keeps-skip : Keeps P skip
  unfolding skip
  Keeps-skip = record { at = λ s h. h }

  pub Keeps-when : (b : Bool) (m : Emit Unit) → Keeps P m → Keeps P (when b m)
  unfolding when
  Keeps-when true m k = k
  Keeps-when false m k = Keeps-skip

module _ {A : Type 0} {P : JitState → Type 0} where
  pub Keeps-pure : (a : A) → Keeps P (pure a)
  unfolding pure
  Keeps-pure a = record { at = λ s h. h }

  pub Keeps-gets : (f : JitState → A) → Keeps P (gets f)
  unfolding gets
  Keeps-gets f = record { at = λ s h. h }

  pub Keeps-if : (b : Bool) (m n : Emit A) → Keeps P m → Keeps P n → Keeps P (if b then m else n)
  Keeps-if true m n km kn = km
  Keeps-if false m n km kn = kn

module _ {A B : Type 0} {P : JitState → Type 0} where
  pub Keeps-bind :
      (m : Emit A) (f : A → Emit B) → Keeps P m → ((a : A) → Keeps P (f a)) → Keeps P (m >>= f)
  unfolding ◌>>=◌
  Keeps-bind m f km kf = record { at = λ s h. let (a, s') = m s in (kf a).at s' (km.at s h) }

  -- What the action reads is the same in every state that `P` holds of.
  pub Keeps-known :
      (f : JitState → A) (k : A → Emit B) (a : A)
      → ((s : JitState) → P s → f s ≡ a)
      → Keeps P (k a)
      → Keeps P (gets f >>= k)
  unfolding ◌>>=◌ gets
  Keeps-known f k a known kept = record {
    at = λ s h. subst (λ a'. P (k a' s).1) (sym (known s h)) (kept.at s h);
  }

pub ruleset emit_rules = (Keeps-skip, Keeps-when, Keeps-pure, Keeps-gets, Keeps-if, Keeps-bind)
