-- ===== src/Database/Sessions/Head.antt =====
-- scanPayloadHeadForSessions, over the trajectories of the payload.
use microservice_common.Base.{
  ◌+◌, ◌≡◌, refl, ap, sym, ◌∙◌, Bool, true, false, List, [], ◌∷◌, some, map, any, arith,
  if◌then◌else◌, Bool-cases, inl, inr, any-map,
}
use microservice_common.Base.Int.{ℤ, ◌≤ℤ◌, int_eq, int_eq_iff, int_eq_refl, ltb_ℤ}
use microservice_common.Base.Counting.{count, count-map}
use microservice_common.Base.Keys.{any-SameItems}
use microservice_common.Common.Types.{Trajectory, EventsSessionInfo}
use microservice_common.Common.Outcome.{returned}
use microservice_common.Mongo.Document.{Value, null, int32, int64, boolean, utf8, array, double}
use microservice_common.Mongo.Pipeline.{Row, sessions_of}
use microservice_common.Mongo.Driver.{Driver}
use microservice_common.Database.State.{Database}
use microservice_common.Database.Payload.Range.{HoldsPayload}
use microservice_common.Database.Sessions.{
  int32_values, min_from, min_element, scan_payload_head_for_sessions,
}
use microservice_common.Database.Sessions.Bounds.{
  row, in_session, IsBounded, payload-rows, get_session_info-IsBounded,
}
use microservice_common.Database.Sessions.Gaps.{get_table_name-found}

abbrev passes : (ℤ → Bool) → Value → Bool
passes p (int32 n) = p n
passes p _ = false

count-int32_values :
    (p : ℤ → Bool) (vs : List Value) → count p (int32_values vs) ≡ count (passes p) vs
count-int32_values p [] = refl
count-int32_values p (int32 n ∷ vs) = ap (λ k. (if p n then 1 else 0) + k) (count-int32_values p vs)
count-int32_values p (null ∷ vs) = omega (arith, count-int32_values p vs)
count-int32_values p (int64 n ∷ vs) = omega (arith, count-int32_values p vs)
count-int32_values p (boolean b ∷ vs) = omega (arith, count-int32_values p vs)
count-int32_values p (utf8 s ∷ vs) = omega (arith, count-int32_values p vs)
count-int32_values p (array ss ∷ vs) = omega (arith, count-int32_values p vs)
count-int32_values p (double n ∷ vs) = omega (arith, count-int32_values p vs)

any-sessions_of :
    (n : ℤ) (rows : List Row)
    → any (int_eq n) (sessions_of rows) ≡ any (λ r. int_eq n r.session) rows
unfolding sessions_of
any-sessions_of n [] = refl
any-sessions_of n (r ∷ rows) =
    ground (arith, any-sessions_of n rows, any-sessions_of r.session rows, int_eq_iff n r.session)

min_from_below : (a k : ℤ) (ns : List ℤ) → a ≤ℤ k → min_from a ns ≤ℤ k
min_from_below a k [] h = h
min_from_below a k (b ∷ ns) h = elim (Bool-cases (ltb_ℤ b a)) [
  | inl e ↦ simp e (min_from_below b k ns (ground arith))
  | inr e ↦ simp e (min_from_below a k ns h)
]

min_from_least : (a k : ℤ) (ns : List ℤ) → any (int_eq k) (a ∷ ns) ≡ true → min_from a ns ≤ℤ k
min_from_least a k [] h = ground (arith, int_eq_iff k a)
min_from_least a k (b ∷ ns) h = elim (Bool-cases (int_eq k a)) [
  | inl g ↦ min_from_below a k (b ∷ ns) (ground (arith, int_eq_iff k a))
  | inr g ↦ elim (Bool-cases (ltb_ℤ b a)) [
    | inl e ↦ simp e (min_from_least b k ns (ground arith))
    | inr e ↦ elim (Bool-cases (int_eq k b)) [
      | inl f ↦ simp e (min_from_below a k ns (ground (arith, int_eq_iff k b)))
      | inr f ↦ simp e (min_from_least a k ns (ground arith))
    ]
  ]
]

min_from_listed : (a : ℤ) (ns : List ℤ) → any (int_eq (min_from a ns)) (a ∷ ns) ≡ true
min_from_listed a [] = ground (arith, int_eq_refl a)
min_from_listed a (b ∷ ns) = elim (Bool-cases (ltb_ℤ b a)) [
  | inl e ↦ simp e (ground (arith, min_from_listed b ns))
  | inr e ↦ simp e (ground (arith, min_from_listed a ns))
]

module _ (m : Driver) where
  found_sessions :
      (id : ℤ) (ts : List Trajectory) (db : Database m) (h : HoldsPayload m id db ts)
      (vs : List Value)
      → m.distinct "session" h.table ≡ some vs
      → (n : ℤ) → any (int_eq n) (int32_values vs) ≡ any (in_session n) ts
  found_sessions id ts db h vs e n =
      any-SameItems (int_eq n) (int32_values vs) (sessions_of (map row ts)) (λ p.
        count-int32_values p vs
        ∙ m.distinct-sessions h.table (map row ts) vs (payload-rows m id ts db h) e (passes p)
        ∙ count-map int32 (passes p) (sessions_of (map row ts)))
      ∙ any-sessions_of n (map row ts)
      ∙ any-map row (λ r. int_eq n r.session) ts

  -- Where the driver answers the query for distinct sessions, and some session has a trajectory,
  -- scanPayloadHeadForSessions returns the bounds of a session that has trajectories and whose
  -- number is no greater than that session's.
  pub scan_payload_head_for_sessions-IsBounded :
      (id k : ℤ) (ts : List Trajectory) (db : Database m) (h : HoldsPayload m id db ts)
      (vs : List Value)
      → m.distinct "session" h.table ≡ some vs
      → any (in_session k) ts ≡ true
      → (n : ℤ) × (info : EventsSessionInfo) × (scan_payload_head_for_sessions m id db
          ≡ returned info)
        × IsBounded n ts info
        × (n ≤ℤ k)
  unfolding scan_payload_head_for_sessions min_element
  scan_payload_head_for_sessions-IsBounded id k ts db h vs e some_k =
      go (int32_values vs) refl (found_sessions id ts db h vs e k ∙ some_k)
    where
      go :
          (ns : List ℤ)
          → int32_values vs ≡ ns
          → any (int_eq k) ns ≡ true
          → (n : ℤ) × (info : EventsSessionInfo) × (scan_payload_head_for_sessions m id db
              ≡ returned info)
            × IsBounded n ts info
            × (n ≤ℤ k)
      go [] f listed = cc
      go (a ∷ ns) f listed =
          let n = min_from a ns in
          let (info, same, bounded) = get_session_info-IsBounded m id n ts db h (
            sym (found_sessions id ts db h vs e n)
            ∙ ap (any (int_eq n)) f
            ∙ min_from_listed a ns) in
          (
            n,
            info,
            rw (get_table_name-found m id db ts h, e, f) same,
            bounded,
            min_from_least a k ns listed,
          )
