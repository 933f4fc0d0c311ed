-- ===== src/Multitask/Clients.antt =====
-- The numbers of the clients.
use microservice_common.Base.{
  ℕ, zero, suc, ◌≤◌, ◌≡◌, refl, ap, ◌∙◌, false, not, ◌&&◌, List, [], ◌∷◌, ◌++◌, some, any, filter,
  if◌then◌else◌, arith, Bool-cases, inl, inr, any-append,
}
use microservice_common.Base.Int.{ℤ, pos, negsuc, int_eq, int_eq_iff, ◌≤ℤ◌, ◌<ℤ◌, leb_ℤ, suc_ℤ}
use microservice_common.Base.Counting.{count, count-append, any-count}
use microservice_common.Common.Outcome.{returned}
use microservice_common.Multitask.{
  Service, invalid_client_id, max_client_id, has_id, insert_client, add_runnable_client,
  remove_dump_to_database_client,
}

-- No client has a number that is still to be given, and no number is that of two clients.
pub record IsNumbered (s : Service) : Type 0 where
  pub positive : pos 0 ≤ℤ s.client_id_generator
  pub given : (id : ℤ) → s.client_id_generator <ℤ id → any (has_id id) s.clients ≡ false
  pub at_most_one : (id : ℤ) → count (has_id id) s.clients ≤ 1

suc_ℤ-above : (a : ℤ) → a <ℤ suc_ℤ a
suc_ℤ-above (pos n) = omega arith
suc_ℤ-above (negsuc zero) = omega arith
suc_ℤ-above (negsuc (suc n)) = omega arith

insert-given :
    (g id k : ℤ) (c : ℕ) (cs : List (ℤ × ℕ))
    → g <ℤ id
    → ((j : ℤ) → g <ℤ j → any (has_id j) cs ≡ false)
    → id <ℤ k
    → any (has_id k) (cs ++ (id, c) ∷ []) ≡ false
insert-given g id k c cs up h above =
    ground (arith, any-append (has_id k) cs ((id, c) ∷ []), h k (omega arith), int_eq_iff k id)

insert-count :
    (id k : ℤ) (c : ℕ) (cs : List (ℤ × ℕ))
    → any (has_id id) cs ≡ false
    → count (has_id k) cs ≤ 1
    → count (has_id k) (cs ++ (id, c) ∷ []) ≤ 1
insert-count id k c cs new h = elim (Bool-cases (int_eq k id)) [
  | inl e ↦ ground (
    arith,
    count-append (has_id k) cs ((id, c) ∷ []),
    any-count (has_id k) cs,
    ap (λ j. any (has_id j) cs) ((int_eq_iff k id).0 e) ∙ new,
  )
  | inr e ↦ ground (arith, count-append (has_id k) cs ((id, c) ∷ []))
]

-- Where no client has a number still to be given, no number is that of two clients, and the
-- generator is not at its last value, adding a client returns a number that no client has, puts
-- the client under it, and keeps the numbers so.
pub add_runnable_client-IsNumbered :
    (c : ℕ) (s : Service)
    → IsNumbered s
    → int_eq s.client_id_generator max_client_id ≡ false
    → (after : Service) × (id : ℤ) × (add_runnable_client (some c) s ≡ returned (after, id))
      × IsNumbered after
      × (after.clients ≡ s.clients ++ (id, c) ∷ [])
      × (any (has_id id) s.clients ≡ false)
unfolding add_runnable_client insert_client
add_runnable_client-IsNumbered c s h below =
    let id = suc_ℤ s.client_id_generator in
    let new = h.given id (suc_ℤ-above s.client_id_generator) in
    (
      record s { client_id_generator = id; clients = s.clients ++ (id, c) ∷ [] },
      id,
      simp (below, new) refl,
      record {
        positive = omega (arith, suc_ℤ-above s.client_id_generator, h.positive);
        given = λ k above.
            insert-given s.client_id_generator id k c s.clients (suc_ℤ-above s.client_id_generator)
              h.given above;
        at_most_one = λ k. insert-count id k c s.clients new (h.at_most_one k);
      },
      refl,
      new,
    )

count-filter_out :
    (k id : ℤ) (cs : List (ℤ × ℕ))
    → count (has_id k) (filter (λ c. not (has_id id c)) cs)
      ≡ (if int_eq k id then 0 else count (has_id k) cs)
count-filter_out k id [] = ground arith
count-filter_out k id (c ∷ cs) =
    ground (arith, int_eq_iff k id, int_eq_iff k c.0, int_eq_iff id c.0, count-filter_out k id cs)

filter_out-any :
    (k id : ℤ) (cs : List (ℤ × ℕ))
    → any (has_id k) cs ≡ false
    → any (has_id k) (filter (λ c. not (has_id id c)) cs) ≡ false
filter_out-any k id [] h = refl
filter_out-any k id (c ∷ cs) h = ground (arith, filter_out-any k id cs)

leaves-IsNumbered :
    (id : ℤ) (s : Service)
    → IsNumbered s
    → IsNumbered (record s { clients = filter (λ c. not (has_id id c)) s.clients })
leaves-IsNumbered id s h = record {
  positive = h.positive;
  given = λ k above. filter_out-any k id s.clients (h.given k above);
  at_most_one = λ k. ground (arith, count-filter_out k id s.clients, h.at_most_one k);
}

-- Where no client has a number still to be given and no number is that of two clients, removing a
-- client keeps the numbers so, and reports success exactly for a valid number of a client.
pub remove_dump_to_database_client-IsNumbered :
    (id : ℤ) (s : Service)
    → IsNumbered s
    → IsNumbered (remove_dump_to_database_client id s).0
      × ((remove_dump_to_database_client id s).1
          ≡ (not (leb_ℤ id invalid_client_id) && any (has_id id) s.clients))
unfolding remove_dump_to_database_client
remove_dump_to_database_client-IsNumbered id s h = elim (Bool-cases (leb_ℤ id invalid_client_id)) [
  | inl e ↦ simp e (h, refl)
  | inr e ↦ elim (Bool-cases (any (has_id id) s.clients)) [
    | inl f ↦ simp (e, f) (leaves-IsNumbered id s h, refl)
    | inr f ↦ simp (e, f) (h, refl)
  ]
]
