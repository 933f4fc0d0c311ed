-- ===== src/Environment/Events.antt =====
-- The process events that the facade stores are those of the abstract journal.
use microservice_common.Base.{
  ℕ, suc, ◌≡◌, refl, ap, ◌∙◌, Bool, true, false, not, List, [], ◌∷◌, ◌++◌, map, filter, arith,
  Bool-cases, inl, inr, map-map, map-congr,
}
use microservice_common.Base.Counting.{count, SameItems, SameItems-map}
use microservice_common.Base.Int.{ℤ, pos, int_eq, int_eq_iff}
use microservice_common.Common.Types.{ProcessEvent, all_pids, non_integrity_pids}
use microservice_common.Common.Outcome.{returned}
use microservice_common.Mongo.Document.{Document, int32}
use microservice_common.Mongo.Query.{is_in, equals}
use microservice_common.Mongo.Pipeline.{singles_pipeline}
use microservice_common.Mongo.Encoded.{
  Encodes, insert-Encodes, remove-Encodes, remove_everything-Encodes, find_all-Encodes,
  find_unique-Encodes, find-Encodes,
}
use microservice_common.Mongo.Driver.{Driver, Reliable}
use microservice_common.Database.State.{Database}
use microservice_common.Database.Events.{
  event_document, write_process_event, read_event, read_all_events, get_process_events,
  read_launched, get_non_integrity_process_events, remove_process_event,
}
use microservice_common.Wal.Journal.{drop_event, is_single_pid}
use microservice_common.Wal.Service.{ReadsEvents, described}
use microservice_common.Environment.Persistence.{read_events}

-- The facade writes every event as launched.
abbrev pub launched_document : ProcessEvent → Document
launched_document e = event_document e true

module _ (m : Driver) where
  abbrev pub HoldsEvents : Database m → List ProcessEvent → Type 0
  HoldsEvents db es = Encodes m launched_document db.table_wal_process_events es

  described-read_event :
      (stale : Bool) (e : ProcessEvent)
      → described (read_event m stale (launched_document e)) ≡ described e
  described-read_event stale e = λ i. (
    m.read_int32_lem "pid" (launched_document e) e.pid refl i,
    m.read_utf8_lem "program_name" (launched_document e) e.program_name refl i,
    m.read_array_lem "program_args" (launched_document e) e.program_args refl i,
  )

  described-read_all_events :
      (stale : ℕ → Bool) (n : ℕ) (ds : List Document)
      → map described (read_all_events m stale n ds) ≡ map (λ d. described (read_event m true d)) ds
  described-read_all_events stale n [] = refl
  described-read_all_events stale n (d ∷ ds) =
      ap (◌∷◌ (described (read_event m true d))) (described-read_all_events stale (suc n) ds)

  read-SameItems :
      (stale : ℕ → Bool) (ds : List Document) (es : List ProcessEvent)
      → SameItems ds (map launched_document es)
      → SameItems (map described (read_all_events m stale 0 ds)) (map described es)
  read-SameItems stale ds es h p =
      ap (count p) (described-read_all_events stale 0 ds)
      ∙ SameItems-map (λ d. described (read_event m true d)) ds _ h p
      ∙ ap (count p)
          (map-map _ launched_document es ∙ map-congr _ described es (described-read_event true))

  read_launched-returned :
      (stale : ℕ → Bool) (n : ℕ) (ds : List Document)
      → count (λ d. not (m.read_bool "launched" d)) ds ≡ 0
      → read_launched m stale n ds ≡ returned (read_all_events m stale n ds)
  unfolding read_launched
  read_launched-returned stale n [] h = refl
  read_launched-returned stale n (d ∷ ds) h =
      ground (arith, read_launched-returned stale (suc n) ds)

  all_launched :
      (es : List ProcessEvent)
      → count (λ d. not (m.read_bool "launched" d)) (map launched_document es) ≡ 0
  all_launched [] = refl
  all_launched (e ∷ es) =
      ground (arith, m.read_bool_lem "launched" (launched_document e) true refl, all_launched es)

  pub read_events-AllPids :
      (stale : ℕ → Bool) (db : Database m) (es : List ProcessEvent)
      → HoldsEvents db es
      → ReadsEvents (read_events m stale all_pids db) es
  unfolding read_events get_process_events
  read_events-AllPids stale db es h = (
    get_process_events m stale all_pids db,
    refl,
    read-SameItems stale _ es (find_all-Encodes m launched_document _ es h),
  )

  pub read_events-Pid :
      (stale : ℕ → Bool) (pid : ℤ) (db : Database m) (es : List ProcessEvent)
      → HoldsEvents db es
      → int_eq all_pids pid ≡ false
      → int_eq non_integrity_pids pid ≡ false
      → ReadsEvents (read_events m stale pid db) (filter (λ e. int_eq pid e.pid) es)
  unfolding read_events get_process_events
  read_events-Pid stale pid db es h all_ single =
      rw (all_, single)
        (
          read_all_events m stale 0 (m.find (equals "pid" (int32 pid)) db.table_wal_process_events),
          refl,
          read-SameItems stale _ _ (
              find-Encodes m launched_document (equals "pid" (int32 pid)) (λ e. int_eq pid e.pid)
                db.table_wal_process_events es (λ e. refl) h),
        )

  pub read_events-NonIntegrityPids :
      (stale : ℕ → Bool) (db : Database m) (es : List ProcessEvent)
      → HoldsEvents db es
      → ReadsEvents (read_events m stale non_integrity_pids db) (filter (is_single_pid es) es)
  unfolding read_events get_non_integrity_process_events
  read_events-NonIntegrityPids stale db es h = (
    read_all_events m stale 0 found,
    read_launched-returned stale 0 found (same _ ∙ all_launched (filter (is_single_pid es) es)),
    read-SameItems stale found _ same,
  )
    where
      found : List Document
      found =
          let t = db.table_wal_process_events in
          let pids = map (m.read_int32 "_id") (m.aggregate (singles_pipeline "pid") t) in
          m.find (is_in "pid" (map int32 pids)) t

      same : SameItems found (map launched_document (filter (is_single_pid es) es))
      same =
          find_unique-Encodes m launched_document "pid" (λ e. e.pid) int32 int_eq int_eq_iff
            (λ j k. refl) (m.read_int32 "_id") (λ e. refl)
            (λ e. m.read_int32_lem "_id" _ e.pid refl) db.table_wal_process_events es h

module _ (m : Driver) (ok : Reliable m) where
  pub write_process_event-HoldsEvents :
      (e : ProcessEvent) (db : Database m) (es : List ProcessEvent)
      → HoldsEvents m db es
      → HoldsEvents m (write_process_event m e true db).0 (es ++ e ∷ [])
  unfolding write_process_event
  write_process_event-HoldsEvents e db es h =
      insert-Encodes m launched_document e _ es (ok.inserts _ _) h

  pub remove_process_event-HoldsEvents :
      (pid : ℤ) (db : Database m) (es : List ProcessEvent)
      → HoldsEvents m db es
      → HoldsEvents m (remove_process_event m pid db) (drop_event pid es)
  unfolding remove_process_event
  remove_process_event-HoldsEvents pid db es h = elim (Bool-cases (int_eq (pos 0) pid)) [
    | inl e ↦ rw e (remove_everything-Encodes m launched_document _ es (ok.removes _ _) h)
    | inr e ↦ rw e (
        remove-Encodes m launched_document _ (λ x. int_eq pid x.pid) _ es (λ x. refl)
          (ok.removes _ _) h)
  ]
