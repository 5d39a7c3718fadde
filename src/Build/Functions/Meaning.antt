-- ===== src/Build/Functions/Meaning.antt =====
-- The mount functions that build.rs generates, as the compiled program runs them.
use ginit.Base.{is_neg, ◌≡◌, refl, ◌∙◌, ℕ, List, [], ◌∷◌, Option, none, some, if◌then◌else◌}
use ginit.Machine.{pure, ◌>>=◌}
use ginit.Config.{Mount, make_dir, mount_each}
use ginit.Build.Functions.{Statement, run_statement, run_body}
use ginit.Build.Functions.Statements.{statements, with_mkdir, mount_of}

run_body-with_mkdir :
    (m : Mount) (mode : Option ℕ) (body : List Statement)
    → run_body (with_mkdir m.dir mode body)
      ≡ (do made ← make_dir m mode; if is_neg made then pure made else run_body body)
unfolding run_body run_statement make_dir
run_body-with_mkdir m none body = refl
run_body-with_mkdir m (some mode) body = refl

-- The statements for a list of mounts do what `mount_each` of ginit.Config does.
pub run_body-statements : (mounts : List Mount) → run_body (statements mounts) ≡ mount_each mounts
unfolding run_body run_statement statements mount_each
run_body-statements [] = refl
run_body-statements (m ∷ mounts) =
    run_body-with_mkdir m m.mkdir_mode (mount_of m ∷ statements mounts)
    ∙ rw (run_body-statements mounts) refl
