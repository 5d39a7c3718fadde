-- ===== src/Shutdown/Phases/Calls.antt =====
-- The calls of src/shutdown.rs that end the processes, unmount and power off, with their arguments.
use ginit.Base.{
  ℕ, ◌≡◌, refl, sym, ap, ◌∙◌, neg, as_i32, as_u64, Bytes, List, [], ◌∷◌, ◌++◌, append_assoc, map,
  reverse,
}
use mathlib.Core.List.{reverse-cons, map-append}
use ginit.Machine.{Call, word, bytes, null, World, Machine, done, M, syscall}
use ginit.Linux.Consts.{sigterm}
use ginit.Linux.Calls.{read, kill, umount, reboot}
use ginit.Mounts.File.{Delivers, eof, chunk}
use ginit.Shutdown.{end_all_processes, unmount_one, power_off}
use ginit.Shutdown.Phases.{step_calls}
use ginit.Shutdown.Phases.Others.{read-Unmarked}
use ginit.Shutdown.Phases.Parts.{after_kill-Unmarked}
use ginit.Shutdown.Phases.Order.{after_umount-Unmarked}

-- `kill(-1, SIGTERM)`: -1 as an unsigned number of 64 bits.
abbrev pub kill_call : Call
kill_call = record { num = 62; args = word 0xffffffffffffffff ∷ word 15 ∷ [] }

abbrev pub umount_call : Bytes → Call
umount_call dir = record { num = 166; args = bytes dir ∷ word 0 ∷ [] }

-- `reboot` with its two magic numbers, the first as a negative `i32`, and the command to power off.
abbrev pub reboot_call : Call
reboot_call = record {
  num = 169;
  args = word 0xfffffffffee1dead ∷ word 0x28121969 ∷ word 0x4321fedc ∷ null ∷ [];
}

-- The world behind a part that has come to its end.
pub step_calls-behind :
    {A : Type 0} (p : M A) (m : Machine) (w u : World) (a : A) (cs : List Call)
    → p m w ≡ (done a, u)
    → step_calls (p m w).1.history ≡ cs
    → step_calls u.history ≡ cs
step_calls-behind p m w u a cs e s = sym (ap (λ x. step_calls x.1.history) e) ∙ s

pub end_all_processes-step_calls :
    (fuel : ℕ) (m : Machine) (w : World)
    → step_calls (end_all_processes fuel m w).1.history ≡ kill_call ∷ step_calls w.history
unfolding end_all_processes kill syscall step_calls as_u64
end_all_processes-step_calls fuel m w =
    (after_kill-Unmarked fuel (as_i32 _)).run m (kill (neg 1) sigterm m w).1

pub unmount_one-step_calls :
    (name : Bytes) (m : Machine) (w : World)
    → step_calls (unmount_one name m w).1.history ≡ umount_call name ∷ step_calls w.history
unfolding unmount_one umount syscall step_calls
unmount_one-step_calls name m w = (after_umount-Unmarked (as_i32 _)).run m (umount name 0 m w).1

pub power_off-step_calls :
    (m : Machine) (w : World)
    → step_calls (power_off m w).1.history ≡ reboot_call ∷ step_calls w.history
unfolding power_off reboot syscall step_calls as_u64 as_i32
power_off-step_calls m w = refl

pub Delivers-step_calls :
    (m : Machine) (fd : ℕ) (w v : World) (cs : List Bytes)
    → Delivers m fd w cs v
    → step_calls v.history ≡ step_calls w.history
Delivers-step_calls m fd w v _ (eof e) =
    step_calls-behind (read fd _) m w v _ _ e ((read-Unmarked fd _).run m w)
Delivers-step_calls m fd w v _ (chunk {w' = u} {cs = cs} pos l e d) =
    Delivers-step_calls m fd u v cs d
    ∙ step_calls-behind (read fd _) m w u _ _ e ((read-Unmarked fd _).run m w)

-- The calls of a list of umounts lie the other way round in the history.
pub umounts-reverse :
    (d : Bytes) (ds : List Bytes) (before : List Call)
    → map umount_call (reverse ds) ++ umount_call d ∷ before
      ≡ map umount_call (reverse (d ∷ ds)) ++ before
umounts-reverse d ds before =
    rw (reverse-cons d ds, map-append)
      (sym (append_assoc (map umount_call (reverse ds)) (umount_call d ∷ []) before))
