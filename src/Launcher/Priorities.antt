-- ===== src/Launcher/Priorities.antt =====
-- The observers that a launcher calls back.
use microservice_common.Base.{
  ◌+◌, ◌≤◌, ◌≡◌, refl, Bool, true, false, List, [], ◌∷◌, ◌++◌, any, All, if◌then◌else◌, arith,
  Bool-cases, inl, inr,
}
use microservice_common.Base.Int.{ℤ, ◌≤ℤ◌, ltb_ℤ}
use microservice_common.Base.Counting.{count, count-append, any-count, count-congr}
use microservice_common.Launcher.{
  Observer, Launcher, is_same, insert_by_priority, sort_by_priority, add_observer, remove_observer,
  erase_first,
}
use microservice_common.Launcher.Unlike.{count-erase_first}

-- In the order of priorities.
abbrev pub IsSorted : List Observer → Type 0
IsSorted [] = Unit {0}
IsSorted (o ∷ os) = All (λ p. o.priority ≤ℤ p.priority) os × IsSorted os

-- Sorted, and no observer twice.
pub record IsOrdered (os : List Observer) : Type 0 where
  pub sorted : IsSorted os
  pub at_most_one : (o : Observer) → count (is_same o) os ≤ 1

pub data ObserverCall : Type 0 where
  adds : Observer → ObserverCall
  removes : Observer → ObserverCall

unfoldable pub call : ObserverCall → Launcher → Launcher
call (adds o) l = add_observer o l
call (removes o) l = remove_observer o l

unfoldable pub run_observer_calls : List ObserverCall → Launcher → Launcher
run_observer_calls [] l = l
run_observer_calls (c ∷ cs) l = run_observer_calls cs (call c l)

All-insert_by_priority :
    (k : ℤ) (o : Observer) (os : List Observer)
    → k ≤ℤ o.priority
    → All (λ p. k ≤ℤ p.priority) os
    → All (λ p. k ≤ℤ p.priority) (insert_by_priority o os)
unfolding insert_by_priority
All-insert_by_priority k o [] h a = (h, tt)
All-insert_by_priority k o (p ∷ ps) h a = ground (arith, All-insert_by_priority k o ps h a.1)

All-trans :
    (j k : ℤ) (os : List Observer)
    → j ≤ℤ k
    → All (λ p. k ≤ℤ p.priority) os
    → All (λ p. j ≤ℤ p.priority) os
All-trans j k [] h a = tt
All-trans j k (p ∷ ps) h a = (omega arith, All-trans j k ps h a.1)

not_less : (a b : ℤ) → ltb_ℤ a b ≡ false → b ≤ℤ a
not_less a b h = ground arith

less : (a b : ℤ) → ltb_ℤ a b ≡ true → a ≤ℤ b
less a b h = ground arith

insert_by_priority-IsSorted :
    (o : Observer) (os : List Observer) → IsSorted os → IsSorted (insert_by_priority o os)
unfolding insert_by_priority
insert_by_priority-IsSorted o [] h = (tt, tt)
insert_by_priority-IsSorted o (p ∷ ps) h = elim (Bool-cases (ltb_ℤ p.priority o.priority)) [
  | inl e ↦ simp e (
    All-insert_by_priority p.priority o ps (less p.priority o.priority e) h.0,
    insert_by_priority-IsSorted o ps h.1,
  )
  | inr e ↦
      let le = not_less p.priority o.priority e in
      simp e ((le, All-trans o.priority p.priority ps le h.0), h)
]

sort_by_priority-IsSorted : (os : List Observer) → IsSorted (sort_by_priority os)
unfolding sort_by_priority
sort_by_priority-IsSorted [] = tt
sort_by_priority-IsSorted (o ∷ os) =
    insert_by_priority-IsSorted o (sort_by_priority os) (sort_by_priority-IsSorted os)

count-insert_by_priority :
    (q : Observer → Bool) (o : Observer) (os : List Observer)
    → count q (insert_by_priority o os) ≡ (if q o then 1 else 0) + count q os
unfolding insert_by_priority
count-insert_by_priority q o [] = refl
count-insert_by_priority q o (p ∷ ps) = ground (arith, count-insert_by_priority q o ps)

count-sort_by_priority :
    (q : Observer → Bool) (os : List Observer) → count q (sort_by_priority os) ≡ count q os
unfolding sort_by_priority
count-sort_by_priority q [] = refl
count-sort_by_priority q (o ∷ os) =
    ground (arith, count-insert_by_priority q o (sort_by_priority os), count-sort_by_priority q os)

All-erase_first :
    (k : ℤ) (q : Observer → Bool) (os : List Observer)
    → All (λ p. k ≤ℤ p.priority) os
    → All (λ p. k ≤ℤ p.priority) (erase_first q os)
unfolding erase_first
All-erase_first k q [] a = tt
All-erase_first k q (o ∷ os) a = ground (arith, All-erase_first k q os a.1)

erase_first-IsSorted :
    (q : Observer → Bool) (os : List Observer) → IsSorted os → IsSorted (erase_first q os)
unfolding erase_first
erase_first-IsSorted q [] h = tt
erase_first-IsSorted q (o ∷ os) h = elim (Bool-cases (q o)) [
  | inl e ↦ simp e h.1
  | inr e ↦ simp e (All-erase_first o.priority q os h.0, erase_first-IsSorted q os h.1)
]

count-same :
    (o p : Observer) (os : List Observer)
    → is_same p o ≡ true
    → count (is_same p) os ≡ count (is_same o) os
count-same o p os h = count-congr (is_same p) (is_same o) os (λ x. ground arith)

add_observer-IsOrdered :
    (o : Observer) (l : Launcher) → IsOrdered l.observers → IsOrdered (add_observer o l).observers
unfolding add_observer
add_observer-IsOrdered o l h = elim (Bool-cases (any (is_same o) l.observers)) [
  | inl e ↦ simp e h
  | inr e ↦ simp e (record {
    sorted = sort_by_priority-IsSorted (l.observers ++ o ∷ []);
    at_most_one = λ p. elim (Bool-cases (is_same p o)) [
      | inl s ↦ ground (
        arith,
        count-sort_by_priority (is_same p) (l.observers ++ o ∷ []),
        count-append (is_same p) l.observers (o ∷ []),
        count-same o p l.observers s,
        any-count (is_same o) l.observers,
      )
      | inr s ↦ ground (
        arith,
        count-sort_by_priority (is_same p) (l.observers ++ o ∷ []),
        count-append (is_same p) l.observers (o ∷ []),
        h.at_most_one p,
      )
    ];
  })
]

call-IsOrdered :
    (c : ObserverCall) (l : Launcher) → IsOrdered l.observers → IsOrdered (call c l).observers
unfolding call remove_observer
call-IsOrdered (adds o) l h = add_observer-IsOrdered o l h
call-IsOrdered (removes o) l h = record {
  sorted = erase_first-IsSorted (is_same o) l.observers h.sorted;
  at_most_one =
      λ p. omega (arith, count-erase_first (is_same p) (is_same o) l.observers, h.at_most_one p);
}

-- However observers are added and removed, they stay in the order of their priorities and none
-- stands there twice, where this held before.
pub run_observer_calls-IsOrdered :
    (cs : List ObserverCall) (l : Launcher)
    → IsOrdered l.observers
    → IsOrdered (run_observer_calls cs l).observers
unfolding run_observer_calls
run_observer_calls-IsOrdered [] l h = h
run_observer_calls-IsOrdered (c ∷ cs) l h =
    run_observer_calls-IsOrdered cs (call c l) (call-IsOrdered c l h)

-- Adding an observer that is not in the list puts it there once more, and every other observer
-- stands there as often as before.
pub add_observer-count :
    (o p : Observer) (l : Launcher)
    → any (is_same o) l.observers ≡ false
    → count (is_same p) (add_observer o l).observers
      ≡ count (is_same p) l.observers + (if is_same p o then 1 else 0)
unfolding add_observer
add_observer-count o p l e = simp e (
    ground (
      arith,
      count-sort_by_priority (is_same p) (l.observers ++ o ∷ []),
      count-append (is_same p) l.observers (o ∷ []),
    ))
