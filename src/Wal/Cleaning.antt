-- ===== src/Wal/Cleaning.antt =====
-- cleanJournal, and the log that is not active.
use microservice_common.Base.{
  String, ◌≡◌, refl, ap, sym, ◌∙◌, Bool, true, false, List, [], ◌∷◌, map, is_empty, if◌then◌else◌,
  arith, Bool-cases, inl, inr, subst,
}
use microservice_common.Base.Counting.{SameItems, SameItems-map}
use microservice_common.Common.Types.{ClientOperation, all_keys, all_pids}
use microservice_common.Common.Outcome.{Reads, returned}
use microservice_common.Wal.Journal.{
  Journal, empty_journal, drop_operation, drop_event, drop_registration,
}
use microservice_common.Wal.Service.{PersistenceService, KeepsJournal, described}
use microservice_common.Wal.Logger.{
  is_journal_empty, clean_journal, get_interrupted_operations, open_operation,
  close_client_operation, open_process_event, close_process_event, open_user_registration,
  close_user_registration,
}
use microservice_common.Base.Int.{ℤ}
use microservice_common.Wal.Interrupted.{get_interrupted_operations-Reads}
use microservice_common.Wal.History.{
  Call, opens, closes, launches, stops, registers, unregisters, run, step,
}

module _ {ℓ κ} {A : Type ℓ} {B : Type κ} (f : A → B) where
  -- Lists with the same items under a function are both empty or both not.
  is_empty-SameItems :
      (xs ys : List A) → SameItems (map f xs) (map f ys) → is_empty xs ≡ is_empty ys
  is_empty-SameItems [] [] h = refl
  is_empty-SameItems [] (y ∷ ys) h = absurd (omega (arith, h (λ b. true)))
  is_empty-SameItems (x ∷ xs) [] h = absurd (omega (arith, h (λ b. true)))
  is_empty-SameItems (x ∷ xs) (y ∷ ys) h = refl

nil_of_is_empty {ℓ} : {A : Type ℓ} (xs : List A) → is_empty xs ≡ true → xs ≡ []
nil_of_is_empty [] h = refl
nil_of_is_empty (x ∷ xs) h = cc

-- What is left of a journal that is cleaned.
abbrev pub cleaned : Journal → Journal
cleaned j = record j { operations = drop_operation all_keys j.operations; events = [] }

cleaned_empty :
    (j : Journal)
    → (if is_empty j.events then is_empty j.operations else false) ≡ true
    → j ≡ cleaned j
cleaned_empty j h = λ i. record {
  operations = (no_operations ∙ sym (ap (drop_operation all_keys) no_operations)) i;
  events = nil_of_is_empty j.events (ground arith) i;
  registrations = j.registrations;
}
  where
    no_operations : j.operations ≡ []
    no_operations = nil_of_is_empty j.operations (ground arith)

drop_operation-nil : (key : String) → drop_operation key [] ≡ []
drop_operation-nil key = ground arith

drop_event-nil : (pid : ℤ) → drop_event pid [] ≡ []
drop_event-nil pid = ground arith

drop_registration-nil : (id : String) → drop_registration id [] ≡ []
drop_registration-nil id = ground arith

module _ (s : PersistenceService) {Holds : s.State → Journal → Type 0}
    (k : KeepsJournal s Holds) where
  is_journal_empty-Holds :
      (t : s.State) (j : Journal)
      → Holds t j
      → is_journal_empty s true t
        ≡ returned (if is_empty j.events then is_empty j.operations else false)
  unfolding is_journal_empty
  is_journal_empty-Holds t j h =
      let (es, e, same_es) = k.read_events-all_pids t j h in
      let (os, o, same_os) = k.read_operations-all_keys t j h in
      rw (e, o)
        (ground (
          arith,
          is_empty-SameItems described es j.events same_es,
          is_empty-SameItems (λ (x : ClientOperation). x) os j.operations
              (SameItems-map (λ x. x) os j.operations same_os),
        ))

  -- Where the service holds a journal, cleaning returns and leaves no process event; of the client
  -- operations it removes only those whose key is the text all_keys, and the registrations stay.
  pub clean_journal-Holds :
      (active : Bool) (t : s.State) (j : Journal)
      → Holds t j
      → (t' : s.State) × (clean_journal s active t ≡ returned t') × Holds t' (cleaned j)
  unfolding clean_journal
  clean_journal-Holds active t j h =
      elim (Bool-cases (if is_empty j.events then is_empty j.operations else false)) [
        | inl e ↦
            (t, rw (is_journal_empty-Holds t j h, e) refl, subst (Holds t) (cleaned_empty j e) h)
        | inr e ↦ (
          s.remove_event all_pids (s.remove_operation all_keys t),
          rw (is_journal_empty-Holds t j h, e) refl,
          k.remove_event_lem all_pids _ _ (k.remove_operation_lem all_keys t j h),
        )
      ]

  step_inactive-Holds :
      (c : Call) (t : s.State) → Holds t empty_journal → Holds (step s false c t) empty_journal
  unfolding step open_operation close_client_operation open_process_event close_process_event
      open_user_registration close_user_registration
  step_inactive-Holds (opens op) t h = h
  step_inactive-Holds (closes key) t h =
      subst (λ os. Holds (s.remove_operation key t) (record empty_journal { operations = os }))
        (drop_operation-nil key) (k.remove_operation_lem key t empty_journal h)
  step_inactive-Holds (launches e) t h = h
  step_inactive-Holds (stops pid) t h =
      subst (λ es. Holds (s.remove_event pid t) (record empty_journal { events = es }))
        (drop_event-nil pid) (k.remove_event_lem pid t empty_journal h)
  step_inactive-Holds (registers r) t h = h
  step_inactive-Holds (unregisters id) t h =
      subst (λ rs. Holds (s.remove_registration id t) (record empty_journal { registrations = rs }))
        (drop_registration-nil id) (k.remove_registration_lem id t empty_journal h)

  run_inactive-Holds :
      (cs : List Call) (t : s.State)
      → Holds t empty_journal
      → Holds (run s false cs t) empty_journal
  unfolding run
  run_inactive-Holds [] t h = h
  run_inactive-Holds (c ∷ cs) t h =
      run_inactive-Holds cs (step s false c t) (step_inactive-Holds c t h)

  -- Whatever an inactive log over a service that holds the empty journal is told, an active log
  -- that is opened over the same service afterwards hands back no operation.
  pub run_inactive-get_interrupted_operations :
      (cs : List Call) (t : s.State)
      → Holds t empty_journal
      → Reads (get_interrupted_operations s true (run s false cs t)) []
  run_inactive-get_interrupted_operations cs t h =
      get_interrupted_operations-Reads s k (run s false cs t) empty_journal
        (run_inactive-Holds cs t h) (record { begun = tt; distinct = λ key. omega arith })
