-- ===== src/Machine/Runs.antt =====
-- A run of two programs, one behind the other, from its end.
use ginit.Base.{◌≡◌, refl}
use ginit.Machine.{Machine, World, Outcome, done, hung, gone, undefined, spent, M, continue}

-- A run that ends with a result has come from a result of its first part.
pub bind-done :
    {A B : Type 0} (o : Outcome A × World) (f : A → M B) (m : Machine) (b : B) (w : World)
    → continue o f m ≡ (done b, w)
    → (a : A) × (v : World) × (o ≡ (done a, v)) × (f a m v ≡ (done b, w))
bind-done (done a, v) f m b w e = (a, v, refl, e)
bind-done (hung, v) f m b w e = absurd (cc)
bind-done (gone, v) f m b w e = absurd (cc)
bind-done (undefined, v) f m b w e = absurd (cc)
bind-done (spent, v) f m b w e = absurd (cc)
