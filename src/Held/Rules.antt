-- ===== src/Held/Rules.antt =====
-- The rules for the programs that keep account of descriptors.
use ginit.Base.{ℕ, ◌≡◌, ◌≡◌, refl, ◌∙◌, Bool, true, false, List, if◌then◌else◌}
use ginit.Machine.{
  Arg, Call, Reply, Task, parent, World, Machine, Outcome, done, hung, gone, undefined, spent, M,
  pure, stop, continue, ◌>>=◌, ◌>>◌, syscall,
}
use ginit.Held.{change, effect, held, Post, Keeps, Preserves}

module _ {A B : Type 0} where
  continue-Post :
      (K : A → List ℕ) (L : B → List ℕ) (o : Outcome A × World) (f : A → M B) (m : Machine)
      → Post K o
      → ((a : A) → Keeps (K a) (f a) L)
      → Post L (continue o f m)
  continue-Post K L (done a, w) f m p q = (q a).run m w p
  continue-Post K L (hung, w) f m p q = tt
  continue-Post K L (gone, w) f m p q = tt
  continue-Post K L (undefined, w) f m p q = tt
  continue-Post K L (spent, w) f m p q = tt

  pub bind-Keeps :
      {h : List ℕ} {p : M A} {K : A → List ℕ} {q : A → M B} {L : B → List ℕ}
      → Keeps h p K
      → ((a : A) → Keeps (K a) (q a) L)
      → Keeps h (p >>= q) L
  bind-Keeps {K = K} {q} {L} kp kq = record {
    run = λ m w own. continue-Post K L _ q m (kp.run m w own) kq;
  }

effect-parent :
    (t : Task) (c : Call) (r : Reply) (h h' : List ℕ)
    → t ≡ parent
    → h ≡ h'
    → effect (record { task = t; call = c; reply = r }) h ≡ change c.num c.args r h'
effect-parent t c r h h' e q = rw (e, q) refl

pub syscall-Keeps :
    (num : ℕ) (args : List Arg) (h : List ℕ) → Keeps h (syscall num args) (λ r. change num args r h)
unfolding syscall held
syscall-Keeps num args h = record {
  run = λ m w own. (
    own.0,
    effect-parent w.task (record { num = num; args = args })
        (m.kernel w (record { num = num; args = args })) _ h own.0 own.1,
  );
}

pub pure-Keeps : {A : Type 0} {h : List ℕ} (a : A) (K : A → List ℕ) → h ≡ K a → Keeps h (pure a) K
pure-Keeps a K e = record { run = λ m w own. (own.0, own.1 ∙ e) }

pub stop-Keeps :
    {A : Type 0} {h : List ℕ} {K : A → List ℕ} (o : Outcome A)
    → ((w : World) → Post K (o, w))
    → Keeps h (stop o) K
stop-Keeps o f = record { run = λ m w own. f w }

pub if-Keeps :
    {A : Type 0} {h : List ℕ} {p q : M A} {K : A → List ℕ} (b : Bool)
    → Keeps h p K
    → Keeps h q K
    → Keeps h (if b then p else q) K
if-Keeps true kp kq = kp
if-Keeps false kp kq = kq

pub then-Preserves :
    {B : Type 0} {h : List ℕ} {p : M (Unit {0})} {q : M B} {L : B → List ℕ}
    → Preserves p
    → Keeps h q L
    → Keeps h (p >> q) L
then-Preserves {h = h} kp kq = bind-Keeps (kp h) (λ _. kq)

Post-to :
    {A : Type 0} (K L : A → List ℕ) (o : Outcome A × World)
    → ((a : A) → K a ≡ L a)
    → Post K o
    → Post L o
Post-to K L (done a, w) e own = (own.0, own.1 ∙ e a)
Post-to K L (hung, w) e own = tt
Post-to K L (gone, w) e own = tt
Post-to K L (undefined, w) e own = tt
Post-to K L (spent, w) e own = tt

pub to-Keeps :
    {A : Type 0} {h : List ℕ} {p : M A} (K L : A → List ℕ)
    → ((a : A) → K a ≡ L a)
    → Keeps h p K
    → Keeps h p L
to-Keeps {p = p} K L e kp = record { run = λ m w own. Post-to K L (p m w) e (kp.run m w own) }
