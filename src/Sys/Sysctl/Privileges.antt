-- ===== src/Sys/Sysctl/Privileges.antt =====
-- `drop_superuser` of src/sys/sysctl.c.
use central_node.Common.{
  ℕ, ◌≡◌, ◌≢◌, sym, ◌∙◌, arith, Option, none, some, Option-cases, inl, inr, false,
}
use central_node.Common.Text.{Bytes}
use central_node.World.{World, exit_success, exit_failure, ◌>>=◌}
use central_node.Sys.Logging.{einvusr}
use central_node.Sys.Sysctl.{rootchecker, drop_superuser, uid_root, convert_id, set_ids, drop_to}

-- For root, `drop_superuser` fails with EINVUSR, and the process keeps its user and group.
drop_superuser_root :
    (w : World)
    → w.process.uid ≡ uid_root
    → ((drop_superuser w).0 ≡ exit_failure)
      × ((drop_superuser w).1.error.last_errno ≡ einvusr)
      × ((drop_superuser w).1.process ≡ w.process)
unfolding drop_superuser rootchecker
drop_superuser_root w h = ground arith

-- An identifier that is converted is not 0, which is root.
convert_id-nonzero :
    (text : Bytes) (u : ℕ) (w : World) → (convert_id text w).0 ≡ some u → u ≢ uid_root
unfolding convert_id
convert_id-nonzero text u w h = ground arith

set_ids-process :
    (u g : ℕ) (w : World)
    → (set_ids u g w).0 ≡ exit_success
    → ((set_ids u g w).1.process.uid ≡ u) × ((set_ids u g w).1.process.gid ≡ g)
unfolding set_ids
set_ids-process u g w h = ground arith

-- Behind the check on the user, whatever the variables hold and the system answers: where root
-- execution is not allowed, success means that neither the user nor the group is root any more.
pub drop_to-nonroot :
    (name uid gid : Option Bytes) (w : World)
    → w.options.allow_root_execution ≡ false
    → (drop_to name uid gid w).0 ≡ exit_success
    → ((drop_to name uid gid w).1.process.uid ≢ uid_root)
      × ((drop_to name uid gid w).1.process.gid ≢ uid_root)
unfolding drop_to
drop_to-nonroot (some name) (some uid) (some gid) w h ok =
    elim (Option-cases (convert_id uid w).0) [
      | inl e ↦ absurd (ground (arith, rw (drop_to, ◌>>=◌, e) at ok))
      | inr (u, e) ↦ elim (Option-cases (convert_id gid (convert_id uid w).1).0) [
        | inl e' ↦ absurd (ground (arith, rw (drop_to, ◌>>=◌, e, ◌>>=◌, e') at ok))
        | inr (g, e') ↦
            let (user, group) = set_ids-process u g _ (rw (drop_to, ◌>>=◌, e, ◌>>=◌, e') at ok) in
            rw (drop_to, ◌>>=◌, e, ◌>>=◌, e')
              (
                λ p. convert_id-nonzero uid u w e (sym user ∙ p),
                λ p. convert_id-nonzero gid g _ e' (sym group ∙ p),
              )
      ]
    ]
drop_to-nonroot none uid gid w h ok = absurd (ground arith)
drop_to-nonroot (some name) none gid w h ok = absurd (ground arith)
drop_to-nonroot (some name) (some uid) none w h ok = absurd (ground arith)
