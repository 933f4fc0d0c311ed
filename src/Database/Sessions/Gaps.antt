-- ===== src/Database/Sessions/Gaps.antt =====
-- splitSessionByGaps and scanPayloadForSessions, over any payload.
use microservice_common.Base.{◌≡◌, refl, ap, ◌∙◌, false, List, [], ◌∷◌, Option-cases, inl, inr}
use microservice_common.Base.Int.{ℤ, pos}
use microservice_common.Common.Types.{Trajectory}
use microservice_common.Common.Outcome.{Outcome, returned}
use microservice_common.Mongo.Document.{Document}
use microservice_common.Mongo.Pipeline.{steps_pipeline}
use microservice_common.Mongo.Driver.{Driver}
use microservice_common.Database.State.{Database}
use microservice_common.Database.Payload.{get_table_name, is_found, found_or_undefined}
use microservice_common.Database.Payload.Range.{HoldsPayload, get_payload_table_ref-found}
use microservice_common.Database.Sessions.{
  Splitting, unsplit, split_document, split_loop, split_session_by_gaps, scan_payload_for_sessions,
  collect, int32_values,
}

collect-none {ℓ κ} :
    {A : Type ℓ} {B : Type κ} (f : A → Outcome (List B)) (as_ : List A)
    → ((a : A) → f a ≡ returned [])
    → collect f as_ ≡ returned []
unfolding collect
collect-none f [] h = refl
collect-none f (a ∷ as_) h = rw (h a, collect-none f as_ h) refl

module _ (m : Driver) where
  split_loop-out :
      (n : ℤ) (ds : List Document) (s : Splitting)
      → s.session_opened ≡ false
      → (split_loop m n ds s).out ≡ s.out
  unfolding split_loop split_document
  split_loop-out n [] s h = refl
  split_loop-out n (d ∷ ds) s h =
      split_loop-out n ds (split_document m n d s) (simp h refl) ∙ simp h refl

  -- Splitting a session by its gaps returns no session, whatever the set holds: the flag that a
  -- session is open is never set.
  pub split_session_by_gaps-empty :
      (id n : ℤ) (ts : List Trajectory) (db : Database m)
      → HoldsPayload m id db ts
      → split_session_by_gaps m id n db ≡ returned []
  unfolding split_session_by_gaps
  split_session_by_gaps-empty id n ts db h =
      rw (get_payload_table_ref-found m id db ts h) (
        ap returned
          (split_loop-out n (m.aggregate (steps_pipeline n (pos 1)) h.table) unsplit refl))

  pub get_table_name-found :
      (id : ℤ) (db : Database m) (ts : List Trajectory) (h : HoldsPayload m id db ts)
      → get_table_name m id db ≡ returned h.table
  unfolding get_table_name
  get_table_name-found id db ts h = rw (h.found, is_found, found_or_undefined) refl

  -- The scan of a set's payload for sessions returns none, whatever the set holds.
  pub scan_payload_for_sessions-empty :
      (id : ℤ) (ts : List Trajectory) (db : Database m)
      → HoldsPayload m id db ts
      → scan_payload_for_sessions m id db ≡ returned []
  unfolding scan_payload_for_sessions
  scan_payload_for_sessions-empty id ts db h =
      rw (get_table_name-found id db ts h) (elim (Option-cases (m.distinct "session" h.table)) [
        | inl e ↦ rw e refl
        | inr (vs, e) ↦
            rw e (collect-none _ (int32_values vs) (λ n. split_session_by_gaps-empty id n ts db h))
      ])
