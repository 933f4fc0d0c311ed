-- ===== src/Launcher/Ending.antt =====
-- What a launcher does to its processes when it is shut down.
use microservice_common.Base.{
  ◌+◌, ◌≡◌, refl, ◌∙◌, String, Bool, true, false, ◌&&◌, List, [], ◌∷◌, ◌++◌, any, map, arith,
  any-append,
}
use microservice_common.Base.Int.{ℤ, pos, int_eq, ltb_ℤ}
use microservice_common.Launcher.{
  Handle, Launcher, not_defined_exit_code, launch, has_pid, sigkill, shutdown,
}

abbrev pub is_kill_of : ℤ → ℤ × ℤ → Bool
is_kill_of pid s = int_eq s.0 pid && int_eq s.1 sigkill

any-kill :
    (pid : ℤ) (hs : List Handle)
    → any (is_kill_of pid) (map (λ h. (h.child_pid, sigkill)) hs) ≡ any (has_pid pid) hs
any-kill pid [] = refl
any-kill pid (h ∷ hs) = ground (arith, any-kill pid hs)

shutdown-kills :
    (l : Launcher) (pid : ℤ)
    → l.is_shutdown ≡ false
    → any (has_pid pid) l.handles ≡ true
    → any (is_kill_of pid) (shutdown l).signals ≡ true
unfolding shutdown
shutdown-kills l pid open_ h = simp open_ (
    any-append (is_kill_of pid) l.signals (map (λ h. (h.child_pid, sigkill)) l.handles)
    ∙ ground (arith, any-kill pid l.handles))

-- Shutting down a launcher that is not shut down leaves it no handle, and sends SIGKILL to the
-- process of each handle; shutting it down again does nothing.
pub shutdown_lem :
    (l : Launcher)
    → l.is_shutdown ≡ false
    → ((shutdown l).handles ≡ [])
      × ((pid : ℤ)
          → any (has_pid pid) l.handles ≡ true
          → any (is_kill_of pid) (shutdown l).signals ≡ true)
      × (shutdown (shutdown l) ≡ shutdown l)
unfolding shutdown
shutdown_lem l open_ = (simp open_ refl, λ pid. shutdown-kills l pid open_, simp open_ refl)

-- A launch without the look for duplicates whose fork fails leaves a handle of the pid 0 behind,
-- so that a shutdown after it sends SIGKILL to the pid 0.
pub launch-shutdown_failed :
    (forked : ℤ) (program : String) (args : List String) (read_output : Bool) (l : Launcher)
    → ltb_ℤ forked (pos 0) ≡ true
    → l.is_shutdown ≡ false
    → any (is_kill_of (pos 0)) (shutdown (launch forked program args read_output false l).0).signals
      ≡ true
unfolding launch
launch-shutdown_failed forked program args read_output l failed open_ =
    let left : Handle = record {
      address = l.next_address;
      child_pid = pos 0;
      program = program;
      args = args;
      read_output = read_output;
      exit_status = not_defined_exit_code;
    } in
    simp failed (
      shutdown-kills
        (record l { handles = l.handles ++ left ∷ []; next_address = l.next_address + 1 }) (pos 0)
        open_ (any-append (has_pid (pos 0)) l.handles (left ∷ []) ∙ ground arith))
