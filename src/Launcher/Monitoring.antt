-- ===== src/Launcher/Monitoring.antt =====
-- What a turn of the monitoring thread does with the processes that died.
use microservice_common.Base.{
  ℕ, ◌≡◌, refl, ap, ◌∙◌, Bool, true, false, not, ◌&&◌, List, [], ◌∷◌, map, any, filter, All,
  any-append, arith, Bool-cases, inl, inr, ◌==◌,
}
use microservice_common.Base.Int.{ℤ, int_eq, int_eq_iff, int_eq_refl}
use microservice_common.Base.Counting.{count, count-append}
use microservice_common.Launcher.{
  Handle, Observer, Launcher, is_same, has_pid, set_status, died_processes, erase_died, notify,
  clean_died,
}

-- The handle at an address, whose process does not run.
abbrev pub is_dead : (ℤ → Bool) → ℕ → Handle → Bool
is_dead runs address h = not (runs h.child_pid) && (h.address == address)

-- The observer was called with the handle at an address.
abbrev pub is_told : Observer → ℕ → Observer × Handle → Bool
is_told o address c = is_same o c.0 && (c.1.address == address)

-- The callback is about a handle whose process runs.
abbrev pub is_running : (ℤ → Bool) → Observer × Handle → Bool
is_running runs c = runs c.1.child_pid

same_pid : (runs : ℤ → Bool) (a b : ℤ) → int_eq a b ≡ true → runs a ≡ runs b
same_pid runs a b e = ap runs ((int_eq_iff a b).0 e)

module _ (runs : ℤ → Bool) (free : ℕ → Bool) (statuses : List (ℤ × ℤ)) where
  set_status-child_pid : (h : Handle) → (set_status free statuses h).child_pid ≡ h.child_pid
  set_status-child_pid h = elim (Bool-cases (free h.address)) [
    | inl e ↦ simp e refl
    | inr e ↦ simp e refl
  ]

  set_status-address : (h : Handle) → (set_status free statuses h).address ≡ h.address
  set_status-address h = elim (Bool-cases (free h.address)) [
    | inl e ↦ simp e refl
    | inr e ↦ simp e refl
  ]

  -- A running process has no pid of a died one.
  running-died_processes :
      (pid : ℤ) (hs : List Handle)
      → runs pid ≡ true
      → any (has_pid pid) (died_processes runs free statuses hs) ≡ false
  unfolding died_processes
  running-died_processes pid [] r = refl
  running-died_processes pid (h ∷ hs) r = ground (
    arith,
    running-died_processes pid hs r,
    set_status-child_pid h,
    same_pid runs h.child_pid pid,
  )

  dead-died_processes :
      (pid : ℤ) (hs : List Handle)
      → runs pid ≡ false
      → any (has_pid pid) hs ≡ true
      → any (has_pid pid) (died_processes runs free statuses hs) ≡ true
  unfolding died_processes
  dead-died_processes pid [] r e = e
  dead-died_processes pid (h ∷ hs) r e =
      ground
        (arith, dead-died_processes pid hs r, set_status-child_pid h, same_pid runs h.child_pid pid)

  told-died_processes :
      (address : ℕ) (hs : List Handle)
      → any (λ h. h.address == address) (died_processes runs free statuses hs)
        ≡ any (is_dead runs address) hs
  unfolding died_processes
  told-died_processes address [] = refl
  told-died_processes address (h ∷ hs) =
      ground (arith, told-died_processes address hs, set_status-address h)

-- The pid of each of these handles is that of a handle of the list.
abbrev Listed : List Handle → List Handle → Type 0
Listed ws = All (λ h. any (has_pid h.child_pid) ws ≡ true)

Listed-more : (w : Handle) (ws hs : List Handle) → Listed ws hs → Listed (w ∷ ws) hs
Listed-more w ws [] a = tt
Listed-more w ws (h ∷ hs) a = (ground (arith, a.0), Listed-more w ws hs a.1)

Listed-self : (hs : List Handle) → Listed hs hs
Listed-self [] = tt
Listed-self (h ∷ hs) =
    (ground (arith, int_eq_refl h.child_pid), Listed-more h hs hs (Listed-self hs))

module _ (runs : ℤ → Bool) (free : ℕ → Bool) (statuses : List (ℤ × ℤ)) where
  erase_died-filter :
      (ws hs : List Handle)
      → Listed ws hs
      → erase_died (died_processes runs free statuses ws) hs ≡ filter (λ h. runs h.child_pid) hs
  unfolding erase_died
  erase_died-filter ws [] a = refl
  erase_died-filter ws (h ∷ hs) a = elim (Bool-cases (runs h.child_pid)) [
    | inl r ↦ ground (
      arith,
      running-died_processes runs free statuses h.child_pid ws r,
      erase_died-filter ws hs a.1,
    )
    | inr r ↦ ground (
      arith,
      dead-died_processes runs free statuses h.child_pid ws r a.0,
      erase_died-filter ws hs a.1,
    )
  ]

told-here :
    (o : Observer) (address : ℕ) (h : Handle) (os : List Observer)
    → (h.address == address) ≡ true
    → any (is_told o address) (map (λ p. (p, h)) os) ≡ any (is_same o) os
told-here o address h [] e = refl
told-here o address h (p ∷ os) e = ground (arith, told-here o address h os e)

notify-told :
    (o : Observer) (address : ℕ) (died : List Handle) (os : List Observer)
    → any (is_same o) os ≡ true
    → any (λ h. h.address == address) died ≡ true
    → any (is_told o address) (notify died os) ≡ true
unfolding notify
notify-told o address [] os s d = d
notify-told o address (h ∷ hs) os s d =
    any-append (is_told o address) (map (λ p. (p, h)) os) (notify hs os)
    ∙ ground (arith, told-here o address h os, notify-told o address hs os s)

count-none_of :
    (runs : ℤ → Bool) (h : Handle) (os : List Observer)
    → runs h.child_pid ≡ false
    → count (is_running runs) (map (λ p. (p, h)) os) ≡ 0
count-none_of runs h [] r = refl
count-none_of runs h (p ∷ os) r = ground (arith, count-none_of runs h os r)

count-notify :
    (runs : ℤ → Bool) (free : ℕ → Bool) (statuses : List (ℤ × ℤ)) (hs : List Handle)
    (os : List Observer)
    → count (is_running runs) (notify (died_processes runs free statuses hs) os) ≡ 0
unfolding notify died_processes
count-notify runs free statuses [] os = refl
count-notify runs free statuses (h ∷ hs) os = elim (Bool-cases (runs h.child_pid)) [
  | inl r ↦ simp r (count-notify runs free statuses hs os)
  | inr r ↦ simp r (
      omega (
        arith,
        count-append (is_running runs) (map (λ p. (p, set_status free statuses h)) os)
            (notify (died_processes runs free statuses hs) os),
        count-none_of runs (set_status free statuses h) os
            (ap runs (set_status-child_pid runs free statuses h) ∙ r),
        count-notify runs free statuses hs os,
      ))
]

-- A turn of the monitoring thread keeps exactly the handles whose processes run, in their order.
pub clean_died-handles :
    (runs : ℤ → Bool) (free : ℕ → Bool) (l : Launcher)
    → (clean_died runs free l).handles ≡ filter (λ h. runs h.child_pid) l.handles
unfolding clean_died
clean_died-handles runs free l =
    erase_died-filter runs free l.exited_statuses l.handles l.handles (Listed-self l.handles)

-- A turn calls each observer in the list with each handle whose process does not run.
pub clean_died-told :
    (runs : ℤ → Bool) (free : ℕ → Bool) (l : Launcher) (o : Observer) (address : ℕ)
    → any (is_same o) l.observers ≡ true
    → any (is_dead runs address) l.handles ≡ true
    → any (is_told o address) (clean_died runs free l).callbacks ≡ true
unfolding clean_died
clean_died-told runs free l o address s d =
    let died = died_processes runs free l.exited_statuses l.handles in
    any-append (is_told o address) l.callbacks (notify died l.observers)
    ∙ ground (
      arith,
      notify-told o address died l.observers s
          (told-died_processes runs free l.exited_statuses address l.handles ∙ d),
    )

-- A turn calls no observer with a handle whose process runs.
pub clean_died-running :
    (runs : ℤ → Bool) (free : ℕ → Bool) (l : Launcher)
    → count (is_running runs) (clean_died runs free l).callbacks
      ≡ count (is_running runs) l.callbacks
unfolding clean_died
clean_died-running runs free l = omega (
  arith,
  count-append (is_running runs) l.callbacks
      (notify (died_processes runs free l.exited_statuses l.handles) l.observers),
  count-notify runs free l.exited_statuses l.handles l.observers,
)
