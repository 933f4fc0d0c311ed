-- ===== src/Wal/Journal.antt =====
-- The abstract journal that the write-ahead log promises: what is open, as three lists.
use microservice_common.Base.{String, Bool, not, List, [], ◌∷◌, str_eq, filter, ◌==◌, if◌then◌else◌}
use microservice_common.Base.Int.{ℤ, pos, int_eq}
use microservice_common.Base.Counting.{count}
use microservice_common.Common.Types.{ClientOperation, ProcessEvent, UserRegistration}

pub record Journal : Type 0 where
  pub operations : List ClientOperation
  pub events : List ProcessEvent
  pub registrations : List UserRegistration

abbrev pub empty_journal : Journal
empty_journal = record { operations = []; events = []; registrations = [] }

-- An operation replaces the one under its key, or is added.
unfoldable pub put_operation : ClientOperation → List ClientOperation → List ClientOperation
put_operation op [] = op ∷ []
put_operation op (o ∷ os) =
    if str_eq op.unique_key o.unique_key then op ∷ os else o ∷ put_operation op os

-- The empty key stands for all operations.
abbrev pub drop_operation : String → List ClientOperation → List ClientOperation
drop_operation key os = if str_eq "" key then [] else filter (λ o. not (str_eq key o.unique_key)) os

-- The pid 0 stands for all events.
abbrev pub drop_event : ℤ → List ProcessEvent → List ProcessEvent
drop_event pid es = if int_eq (pos 0) pid then [] else filter (λ e. not (int_eq pid e.pid)) es

abbrev pub drop_registration : String → List UserRegistration → List UserRegistration
drop_registration id rs =
    if str_eq "" id then [] else filter (λ r. not (str_eq id r.register_id)) rs

-- Whether a key, or a pid, stands in one entry only.
abbrev pub is_single_key : List ClientOperation → ClientOperation → Bool
is_single_key os o = count (λ x. str_eq o.unique_key x.unique_key) os == 1

abbrev pub is_single_pid : List ProcessEvent → ProcessEvent → Bool
is_single_pid es e = count (λ x. int_eq e.pid x.pid) es == 1
