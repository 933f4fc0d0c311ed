-- ===== src/Locks.antt =====
-- system/process_launcher.cpp: ProcessLauncher::getLock and releaseLock. The named semaphores are the
-- system's: `opened` is whether sem_open gives one. The calls of sem_wait and sem_post that were made
-- stand beside the data.
pub mod Waits
use microservice_common.Base.{
  String, Bool, true, false, List, [], ◌∷◌, ◌++◌, any, if◌then◌else◌, str_eq,
}

pub record Locks : Type 0 where
  pub process_locks : List String
  pub waits : List String
  pub posts : List String

abbrev pub is_getted : String → Locks → Bool
is_getted name l = any (str_eq name) l.process_locks

-- A failed sem_wait is logged only.
unfoldable pub get_lock : Bool → String → Locks → Locks × Bool
get_lock opened name l =
    if is_getted name l
    then (l, true)
    else (if opened
        then (
          record l { process_locks = l.process_locks ++ name ∷ []; waits = l.waits ++ name ∷ [] },
          true,
        )
        else (l, false))

unfoldable pub release_lock : String → Locks → Locks × Bool
release_lock name l =
    if is_getted name l then (record l { posts = l.posts ++ name ∷ [] }, true) else (l, false)
