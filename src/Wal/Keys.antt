-- ===== src/Wal/Keys.antt =====
-- One key through a history of the log: what the last call that affects it decides.
use microservice_common.Base.{
  String, ◌≤◌, ◌<◌, ◌≡◌, refl, ◌∙◌, Bool, true, false, not, ◌||◌, ◌&&◌, List, [], ◌∷◌, ◌++◌, str_eq,
  str_eq_iff, str_eq_refl, filter, arith,
}
use microservice_common.Base.Counting.{count, count-map, count-congr}
use microservice_common.Common.Types.{ClientOperation, all_keys}
use microservice_common.Common.Outcome.{returned}
use microservice_common.Wal.Journal.{Journal, put_operation, drop_operation}
use microservice_common.Wal.Service.{PersistenceService, KeepsJournal}
use microservice_common.Wal.Logger.{get_interrupted_operations}
use microservice_common.Wal.History.{
  Call, opens, closes, launches, stops, registers, unregisters, run, record_call, record_calls,
  run-Holds,
}
use microservice_common.Wal.Interrupted.{IsOpen, get_interrupted_operations-run}

-- Whether a call can change what stands under a key. The empty key stands for all keys.
abbrev pub affects : String → Call → Bool
affects key (opens op) = str_eq key op.unique_key || str_eq "" op.unique_key
affects key (closes k) = str_eq key k || str_eq "" k
affects key (launches e) = false
affects key (stops pid) = false
affects key (registers r) = false
affects key (unregisters id) = false

abbrev pub NoneAffects : String → List Call → Type 0
NoneAffects key [] = Unit {0}
NoneAffects key (c ∷ cs) = (affects key c ≡ false) × NoneAffects key cs

abbrev under : String → (ClientOperation → Bool) → ClientOperation → Bool
under key p o = str_eq key o.unique_key && p o

count-put_other :
    (key : String) (p : ClientOperation → Bool) (op : ClientOperation) (os : List ClientOperation)
    → str_eq key op.unique_key ≡ false
    → count (under key p) (put_operation op os) ≡ count (under key p) os
unfolding put_operation
count-put_other key p op [] ne = ground arith
count-put_other key p op (o ∷ os) ne =
    ground (arith, str_eq_iff op.unique_key o.unique_key, count-put_other key p op os ne)

count-drop_other :
    (key k : String) (p : ClientOperation → Bool) (os : List ClientOperation)
    → str_eq key k ≡ false
    → count (under key p) (filter (λ o. not (str_eq k o.unique_key)) os) ≡ count (under key p) os
count-drop_other key k p [] ne = refl
count-drop_other key k p (o ∷ os) ne = ground (
  arith,
  str_eq_iff key o.unique_key,
  str_eq_iff k o.unique_key,
  str_eq_iff key k,
  count-drop_other key k p os ne,
)

record_call-other :
    (key : String) (p : ClientOperation → Bool) (c : Call) (j : Journal)
    → affects key c ≡ false
    → count (under key p) (record_call c j).operations ≡ count (under key p) j.operations
unfolding record_call
record_call-other key p (opens op) j h = ground (
  arith,
  count-put_other key p op j.operations,
  count-drop_other key op.unique_key p j.operations,
)
record_call-other key p (closes k) j h = ground (arith, count-drop_other key k p j.operations)
record_call-other key p (launches e) j h = refl
record_call-other key p (stops pid) j h = refl
record_call-other key p (registers r) j h = refl
record_call-other key p (unregisters id) j h = refl

record_calls-other :
    (key : String) (p : ClientOperation → Bool) (cs : List Call) (j : Journal)
    → NoneAffects key cs
    → count (under key p) (record_calls cs j).operations ≡ count (under key p) j.operations
unfolding record_calls
record_calls-other key p [] j h = refl
record_calls-other key p (c ∷ cs) j h =
    record_calls-other key p cs (record_call c j) h.1 ∙ record_call-other key p c j h.0

record_calls-append :
    (cs ds : List Call) (j : Journal)
    → record_calls (cs ++ ds) j ≡ record_calls ds (record_calls cs j)
unfolding record_calls
record_calls-append [] ds j = refl
record_calls-append (c ∷ cs) ds j = record_calls-append cs ds (record_call c j)

count-put_self :
    (p : ClientOperation → Bool) (op : ClientOperation) (os : List ClientOperation)
    → p op ≡ true
    → 0 < count p (put_operation op os)
unfolding put_operation
count-put_self p op [] h = ground arith
count-put_self p op (o ∷ os) h = ground (arith, count-put_self p op os h)

count-drop_self :
    (key : String) (p : ClientOperation → Bool) (os : List ClientOperation)
    → count (under key p) (drop_operation key os) ≡ 0
count-drop_self key p [] = ground arith
count-drop_self key p (o ∷ os) = ground (arith, count-drop_self key p os)

abbrev same_text : String → ClientOperation → Bool
same_text text o = str_eq text o.command_full_text

count-under-le :
    (key : String) (p : ClientOperation → Bool) (os : List ClientOperation)
    → count (under key p) os ≤ count p os
count-under-le key p [] = omega arith
count-under-le key p (o ∷ os) = ground (arith, count-under-le key p os)

opened_now :
    (op : ClientOperation) (j : Journal)
    → op.begin ≡ true
    → 0
      < count
          (under op.unique_key (same_text op.command_full_text))
          (record_call (opens op) j).operations
unfolding record_call
opened_now op j b = simp b (
    count-put_self (under op.unique_key (same_text op.command_full_text)) op j.operations
      (ground (arith, str_eq_refl op.unique_key, str_eq_refl op.command_full_text)))

opened_stays :
    (before later : List Call) (op : ClientOperation) (j : Journal)
    → op.begin ≡ true
    → NoneAffects op.unique_key later
    → 0
      < count
          (same_text op.command_full_text)
          (record_calls (before ++ opens op ∷ later) j).operations
unfolding record_calls
opened_stays before later op j b h =
    let p = same_text op.command_full_text in
    let now = record_calls before j in
    rw (record_calls-append before (opens op ∷ later) j) (
      omega (
        arith,
        count-under-le op.unique_key p (record_calls later (record_call (opens op) now)).operations,
        record_calls-other op.unique_key p later (record_call (opens op) now) h,
        opened_now op now b,
      ))

closed_stays :
    (before later : List Call) (key : String) (p : ClientOperation → Bool) (j : Journal)
    → NoneAffects key later
    → count (under key p) (record_calls (before ++ closes key ∷ later) j).operations ≡ 0
unfolding record_calls record_call
closed_stays before later key p j h =
    let now = record_calls before j in
    rw (record_calls-append before (closes key ∷ later) j) (
      record_calls-other key p later (record_call (closes key) now) h
      ∙ count-drop_self key p now.operations)

module _ (s : PersistenceService) {Holds : s.State → Journal → Type 0}
    (k : KeepsJournal s Holds) where
  -- Where the service holds a journal of begun operations under distinct keys, an operation that
  -- was opened with its flag begin set, and whose key no later call affects, is handed back: its
  -- text is among the texts found.
  pub opened_operation_returned :
      (before later : List Call) (op : ClientOperation) (t : s.State) (j : Journal)
      → Holds t j
      → IsOpen j.operations
      → op.begin ≡ true
      → NoneAffects op.unique_key later
      → (found : List String) × (get_interrupted_operations s true
            (run s true (before ++ opens op ∷ later) t)
          ≡ returned found)
        × (0 < count (str_eq op.command_full_text) found)
  opened_operation_returned before later op t j h open_ b after_ =
      let cs = before ++ opens op ∷ later in
      let (found, e, same) = get_interrupted_operations-run s k cs t j h open_ in
      (
        found,
        e,
        omega (
          arith,
          same (str_eq op.command_full_text),
          count-map (λ o. o.command_full_text) (str_eq op.command_full_text)
              (record_calls cs j).operations,
          opened_stays before later op j b after_,
        ),
      )

  -- Where the service holds a journal, once a key is closed, and if no later call affects it, the
  -- service reads back operations of other keys only.
  pub closed_operation_gone :
      (before later : List Call) (key : String) (t : s.State) (j : Journal)
      → Holds t j
      → NoneAffects key later
      → (ops : List ClientOperation) × (s.read_operations all_keys
            (run s true (before ++ closes key ∷ later) t)
          ≡ returned ops)
        × (count (λ o. str_eq key o.unique_key) ops ≡ 0)
  closed_operation_gone before later key t j h after_ =
      let cs = before ++ closes key ∷ later in
      let (ops, e, same) =
        k.read_operations-all_keys (run s true cs t) (record_calls cs j) (run-Holds s k cs t j h) in
      (
        ops,
        e,
        same (λ o. str_eq key o.unique_key)
            ∙ count-congr _ (under key (λ o. true)) (record_calls cs j).operations
                (λ o. ground arith)
            ∙ closed_stays before later key (λ o. true) j after_,
      )
