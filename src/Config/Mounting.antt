-- ===== src/Config/Mounting.antt =====
-- The calls that the generated mount functions of build.rs make.
use ginit.Base.{
  ℕ, ◌≡◌, refl, ap, ℤ, pos, negsuc, is_neg, as_i32, Bytes, Option, none, some, List, [], ◌∷◌,
  if◌then◌else◌,
}
use ginit.Machine.{Arg, word, bytes, null, Call, World, Machine, done, M, pure, ◌>>=◌, syscall}
use ginit.Machine.Runs.{bind-done}
use ginit.Machine.Chain.{
  Success, Chain, ends, next, call-Success, call-Failure, Stopped, stop_at, stop_after,
}
use ginit.Config.{Mount, make_dir, mount_each}
use ginit.Linux.Calls.{mkdir, mount}

abbrev call : ℕ → List Arg → Call
call num args = record { num = num; args = args }

abbrev mkdir_call : Bytes → ℕ → Call
mkdir_call dir mode = call 83 (bytes dir ∷ word mode ∷ [])

abbrev mount_call : Mount → Call
mount_call mt = call 165 (
    bytes mt.device
    ∷ bytes mt.dir
    ∷ bytes mt.fs_type
    ∷ word mt.flags
    ∷ elim mt.options [ none ↦ null | some o ↦ bytes o ]
    ∷ [])

-- The calls for one mount, in front of others: a directory is made where a mode is given.
abbrev pub with_directory : Mount → Option ℕ → List Call → List Call
with_directory mt none rest = rest
with_directory mt (some mode) rest = mkdir_call mt.dir mode ∷ rest

-- The calls for the mounts of a list.
unfoldable pub mount_calls : List Mount → List Call
mount_calls [] = []
mount_calls (mt ∷ mounts) = with_directory mt mt.mkdir_mode (mount_call mt ∷ mount_calls mounts)

-- A result that is not negative means that all calls were made, a negative one that it is the
-- result of the last call that was made.
abbrev pub Follows : List Call → ℤ → World → World → Type 0
Follows calls (pos n) w u = Chain calls w u
Follows calls (negsuc n) w u = Stopped calls (negsuc n) w u

follow_after :
    (c : Call) (calls : List Call) (ret : ℤ) (w v u : World)
    → Success c w v
    → Follows calls ret v u
    → Follows (c ∷ calls) ret w u
follow_after c calls (pos n) w v u s f = next s f
follow_after c calls (negsuc n) w v u s f = stop_after s f

abbrev made_by : ℕ → List Arg → M ℤ
made_by num args = syscall num args >>= λ r. pure (as_i32 r.ret)

after_call :
    (num : ℕ) (args : List Arg) (rest : M ℤ) (calls : List Call) (m : Machine) (ret : ℤ)
    (w v u : World) (made : ℤ)
    → made_by num args m w ≡ (done made, v)
    → (if is_neg made then pure made else rest) m v ≡ (done ret, u)
    → ((v' : World) → rest m v' ≡ (done ret, u) → Follows calls ret v' u)
    → Follows (call num args ∷ calls) ret w u
after_call num args rest calls m ret w v u (pos n) p q k =
    follow_after (call num args) calls ret w v u (call-Success num args m w v (pos n) p refl)
      (k v q)
after_call num args rest calls m ret w v u (negsuc n) p q k =
    let r : negsuc n ≡ ret = cc in
    let s = ap (λ x. x.1) q in
    rw (← r, ← s) (stop_at calls (call-Failure num args m w v (negsuc n) p refl))

-- One call, and what follows its success.
step-Follows :
    (num : ℕ) (args : List Arg) (rest : M ℤ) (calls : List Call) (m : Machine) (ret : ℤ)
    (w u : World)
    → (do made ← made_by num args; if is_neg made then pure made else rest) m w ≡ (done ret, u)
    → ((v : World) → rest m v ≡ (done ret, u) → Follows calls ret v u)
    → Follows (call num args ∷ calls) ret w u
step-Follows num args rest calls m ret w u e k =
    let (made, v, p, q) = bind-done (made_by num args m w) _ m ret u e in
    after_call num args rest calls m ret w v u made p q k

directory-Follows :
    (mt : Mount) (mode : Option ℕ) (rest : M ℤ) (calls : List Call) (m : Machine) (ret : ℤ)
    (w u : World)
    → (do made ← make_dir mt mode; if is_neg made then pure made else rest) m w ≡ (done ret, u)
    → ((v : World) → rest m v ≡ (done ret, u) → Follows calls ret v u)
    → Follows (with_directory mt mode calls) ret w u
unfolding make_dir mkdir
directory-Follows mt none rest calls m ret w u e k = k w e
directory-Follows mt (some mode) rest calls m ret w u e k =
    step-Follows 83 _ rest calls m ret w u e k

-- Whatever the kernel answers, the generated function makes the calls for its mounts in the order
-- of the list, all of them where its result is not negative, and else up to the one that has
-- failed with that result.
pub mount_each-Follows :
    (m : Machine) (mounts : List Mount) (ret : ℤ) (w u : World)
    → mount_each mounts m w ≡ (done ret, u)
    → Follows (mount_calls mounts) ret w u
unfolding mount_each mount mount_calls
mount_each-Follows m [] ret w u e = let r : pos 0 ≡ ret = cc in rw (← r) (ends (ap (λ x. x.1) e))
mount_each-Follows m (mt ∷ mounts) ret w u e =
    directory-Follows mt mt.mkdir_mode _ _ m ret w u e
      (λ v q. step-Follows 165 _ _ _ m ret v u q (λ v' q'. mount_each-Follows m mounts ret v' u q'))
