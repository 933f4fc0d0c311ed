-- ===== src/Wal/Interrupted.antt =====
-- The client operations that the log hands back after an interruption.
use microservice_common.Base.{
  String, ◌≤◌, ◌≡◌, refl, ap, ◌∙◌, Bool, true, false, List, [], ◌∷◌, map, str_eq, str_eq_iff,
  str_eq_refl, filter, arith, Bool-cases, inl, inr,
}
use microservice_common.Base.Counting.{count, SameItems-map}
use microservice_common.Common.Types.{ClientOperation}
use microservice_common.Common.Outcome.{Reads, returned, ◌>>=◌}
use microservice_common.Wal.Journal.{Journal, put_operation, drop_operation, is_single_key}
use microservice_common.Wal.Service.{PersistenceService, KeepsJournal, AllBegun}
use microservice_common.Wal.Logger.{get_interrupted_operations}
use microservice_common.Wal.History.{
  Call, opens, closes, launches, stops, registers, unregisters, run, record_call, record_calls,
  run-Holds,
}

abbrev has_key : String → ClientOperation → Bool
has_key key o = str_eq key o.unique_key

-- Every entry is a begun operation, and no key stands in two entries.
pub record IsOpen (os : List ClientOperation) : Type 0 where
  pub begun : AllBegun os
  pub distinct : (key : String) → count (has_key key) os ≤ 1

put_operation-AllBegun :
    (op : ClientOperation) (os : List ClientOperation)
    → op.begin ≡ true
    → AllBegun os
    → AllBegun (put_operation op os)
unfolding put_operation
put_operation-AllBegun op [] b h = (b, tt)
put_operation-AllBegun op (o ∷ os) b h = ground (arith, put_operation-AllBegun op os b h.1)

filter-AllBegun :
    (p : ClientOperation → Bool) (os : List ClientOperation) → AllBegun os → AllBegun (filter p os)
filter-AllBegun p [] h = tt
filter-AllBegun p (o ∷ os) h = ground (arith, filter-AllBegun p os h.1)

count-filter-le :
    (p q : ClientOperation → Bool) (os : List ClientOperation) → count p (filter q os) ≤ count p os
count-filter-le p q [] = omega arith
count-filter-le p q (o ∷ os) = ground (arith, count-filter-le p q os)

count-put_operation_other :
    (key : String) (op : ClientOperation) (os : List ClientOperation)
    → str_eq key op.unique_key ≡ false
    → count (has_key key) (put_operation op os) ≡ count (has_key key) os
unfolding put_operation
count-put_operation_other key op [] ne = ground arith
count-put_operation_other key op (o ∷ os) ne =
    ground (arith, str_eq_iff op.unique_key o.unique_key, count-put_operation_other key op os ne)

count-put_operation_self :
    (op : ClientOperation) (os : List ClientOperation)
    → count (has_key op.unique_key) os ≤ 1
    → count (has_key op.unique_key) (put_operation op os) ≡ 1
unfolding put_operation
count-put_operation_self op [] h = ground (arith, str_eq_refl op.unique_key)
count-put_operation_self op (o ∷ os) h =
    ground (arith, str_eq_refl op.unique_key, count-put_operation_self op os)

put_operation-IsOpen :
    (op : ClientOperation) (os : List ClientOperation)
    → op.begin ≡ true
    → IsOpen os
    → IsOpen (put_operation op os)
put_operation-IsOpen op os b h = record {
  begun = put_operation-AllBegun op os b h.begun;
  distinct = λ key. elim (Bool-cases (str_eq key op.unique_key)) [
    | inl e ↦
        rw ((str_eq_iff key op.unique_key).0 e)
          (omega (arith, count-put_operation_self op os (h.distinct op.unique_key)))
    | inr e ↦ omega (arith, count-put_operation_other key op os e, h.distinct key)
  ];
}

drop_operation-IsOpen :
    (key : String) (os : List ClientOperation) → IsOpen os → IsOpen (drop_operation key os)
drop_operation-IsOpen key os h = elim (Bool-cases (str_eq "" key)) [
  | inl e ↦ rw e (record { begun = tt; distinct = λ k. omega arith })
  | inr e ↦ rw e (record {
    begun = filter-AllBegun _ os h.begun;
    distinct = λ k. omega (arith, count-filter-le (has_key k) _ os, h.distinct k);
  })
]

record_call-IsOpen :
    (c : Call) (j : Journal) → IsOpen j.operations → IsOpen (record_call c j).operations
unfolding record_call
record_call-IsOpen (opens op) j h = elim (Bool-cases op.begin) [
  | inl e ↦ simp e (put_operation-IsOpen op j.operations e h)
  | inr e ↦ simp e (drop_operation-IsOpen op.unique_key j.operations h)
]
record_call-IsOpen (closes key) j h = drop_operation-IsOpen key j.operations h
record_call-IsOpen (launches e) j h = h
record_call-IsOpen (stops pid) j h = h
record_call-IsOpen (registers r) j h = h
record_call-IsOpen (unregisters id) j h = h

pub record_calls-IsOpen :
    (cs : List Call) (j : Journal) → IsOpen j.operations → IsOpen (record_calls cs j).operations
unfolding record_calls
record_calls-IsOpen [] j h = h
record_calls-IsOpen (c ∷ cs) j h =
    record_calls-IsOpen cs (record_call c j) (record_call-IsOpen c j h)

-- Where keys are distinct, every entry is the only one under its key.
filter-is_single_key :
    (os part : List ClientOperation)
    → ((key : String) → count (has_key key) os ≤ 1)
    → ((key : String) → count (has_key key) part ≤ count (has_key key) os)
    → filter (is_single_key os) part ≡ part
filter-is_single_key os [] distinct within = refl
filter-is_single_key os (o ∷ part) distinct within = ground (
  arith,
  distinct o.unique_key,
  within o.unique_key,
  str_eq_refl o.unique_key,
  filter-is_single_key os part distinct (λ key. omega (arith, within key)),
)

abbrev pub texts : List ClientOperation → List String
texts = map (λ op. op.command_full_text)

module _ (s : PersistenceService) {Holds : s.State → Journal → Type 0}
    (k : KeepsJournal s Holds) where
  pub get_interrupted_operations-Reads :
      (t : s.State) (j : Journal)
      → Holds t j
      → IsOpen j.operations
      → Reads (get_interrupted_operations s true t) (texts j.operations)
  unfolding get_interrupted_operations
  get_interrupted_operations-Reads t j h open_ =
      let (ops, e, same) = k.read_operations-non_integrity_keys t j h open_.begun in
      (
        texts ops,
        ap (λ r. r >>= λ found. returned (texts found)) e,
        SameItems-map (λ op. op.command_full_text) ops _
            (λ p.
              same p
              ∙ ap (count p) (
                  filter-is_single_key j.operations j.operations open_.distinct
                    (λ key. omega arith))),
      )

  -- Where the service holds a journal of begun operations under distinct keys, the log hands back,
  -- in some order, the texts of exactly the operations that are open in that journal with the
  -- history recorded.
  pub get_interrupted_operations-run :
      (cs : List Call) (t : s.State) (j : Journal)
      → Holds t j
      → IsOpen j.operations
      → Reads
          (get_interrupted_operations s true (run s true cs t))
          (texts (record_calls cs j).operations)
  get_interrupted_operations-run cs t j h open_ =
      get_interrupted_operations-Reads (run s true cs t) (record_calls cs j)
        (run-Holds s k cs t j h) (record_calls-IsOpen cs j open_)

  -- Over a service that holds begun operations under distinct keys, any history of calls of an
  -- active log leaves it with begun operations under distinct keys.
  pub run-IsOpen :
      (cs : List Call) (t : s.State) (j : Journal)
      → Holds t j
      → IsOpen j.operations
      → (after : Journal) × Holds (run s true cs t) after × IsOpen after.operations
  run-IsOpen cs t j h open_ =
      (record_calls cs j, run-Holds s k cs t j h, record_calls-IsOpen cs j open_)
