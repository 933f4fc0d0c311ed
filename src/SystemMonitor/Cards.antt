-- ===== src/SystemMonitor/Cards.antt =====
-- Which card is given, and that none is given twice.
use microservice_common.Base.{
  ℕ, ◌≤◌, ◌<◌, ◌≡◌, refl, Bool, true, false, not, ◌&&◌, ◌||◌, List, [], ◌∷◌, some, any, ltb, leb,
  ◌==◌, ==_iff, if◌then◌else◌, arith, Bool-cases, inl, inr, subst,
}
use microservice_common.Base.Counting.{count, any-count}
use microservice_common.SystemMonitor.{
  VideoStatus, no_available_cards, gpu_memory_load_percent_limit, search_free_card, card_at,
  set_used, memory_of, get_next_video_card_idx,
}

abbrev pub is_free : VideoStatus → Bool
is_free c = not c.used_by_video_server

abbrev pub has_index : ℕ → VideoStatus → Bool
has_index idx c = c.index == idx

-- The cards are under different indexes, each below the greatest unsigned int.
pub record IsIndexed (cards : List VideoStatus) : Type 0 where
  pub at_most_one : (idx : ℕ) → count (has_index idx) cards ≤ 1
  pub below : any (λ c. not (ltb c.index no_available_cards)) cards ≡ false

-- The loop ends no higher than it starts, and no free card has less in use than it ends with.
search_free_card-le :
    (cards : List VideoStatus) (idx least : ℕ) → (search_free_card cards idx least).1 ≤ least
search_free_card-le [] idx least = omega arith
search_free_card-le (c ∷ cs) idx least =
    ground (
      arith,
      search_free_card-le cs idx least,
      search_free_card-le cs c.index c.memory_used_percent,
    )

has_less : ℕ → VideoStatus → Bool
has_less least c = is_free c && ltb c.memory_used_percent least

search_free_card-least :
    (cards : List VideoStatus) (idx least : ℕ)
    → any (has_less (search_free_card cards idx least).1) cards ≡ false
unfolding has_less
search_free_card-least [] idx least = refl
search_free_card-least (c ∷ cs) idx least = ground (
  arith,
  search_free_card-least cs idx least,
  search_free_card-least cs c.index c.memory_used_percent,
  search_free_card-le cs idx least,
  search_free_card-le cs c.index c.memory_used_percent,
)

-- It ends with what it started from, or at a free card.
is_at : ℕ → ℕ → VideoStatus → Bool
is_at idx least c = is_free c && (c.index == idx) && (c.memory_used_percent == least)

ends_at : ℕ → ℕ → ℕ → ℕ → List VideoStatus → Bool
unfolding is_at
ends_at idx least i l cards = ((i == idx) && (l == least)) || any (is_at i l) cards

search_free_card-any :
    (cards : List VideoStatus) (idx least : ℕ)
    → ends_at idx least
        (search_free_card cards idx least).0
        (search_free_card cards idx least).1
        cards
      ≡ true
unfolding ends_at
search_free_card-any [] idx least = ground arith
search_free_card-any (c ∷ cs) idx least = ground (
  arith,
  search_free_card-any cs idx least,
  search_free_card-any cs c.index c.memory_used_percent,
)

any-is_at_index :
    (idx least : ℕ) (cards : List VideoStatus)
    → any (is_at idx least) cards ≡ true
    → any (has_index idx) cards ≡ true
unfolding is_at
any-is_at_index idx least [] h = cc
any-is_at_index idx least (c ∷ cs) h = ground (arith, any-is_at_index idx least cs)

is_at_later :
    (idx least : ℕ) (c : VideoStatus) (cs : List VideoStatus)
    → (c.index == idx) ≡ false
    → any (is_at idx least) (c ∷ cs) ≡ true
    → any (is_at idx least) cs ≡ true
unfolding is_at
is_at_later idx least c cs e h = ground arith

card_at-is_at :
    (idx least : ℕ) (cards : List VideoStatus)
    → count (has_index idx) cards ≤ 1
    → any (is_at idx least) cards ≡ true
    → (c : VideoStatus) × (card_at idx cards ≡ some c) × (is_at idx least c ≡ true)
unfolding is_at
card_at-is_at idx least [] one h = cc
card_at-is_at idx least (c ∷ cs) one h = elim (Bool-cases (c.index == idx)) [
  | inl e ↦
      (c, simp e refl, ground (arith, any-is_at_index idx least cs, any-count (has_index idx) cs))
  | inr e ↦
      let (d, at, good) =
        card_at-is_at idx least cs (ground arith) (is_at_later idx least c cs e h) in
      (d, simp e at, good)
]

-- What getNextVideoCardIdx ends in, by whether it has no card to give.
abbrev pub Given : Bool → List VideoStatus → List VideoStatus × ℕ → Type 0
Given true cards r =
    (r.0 ≡ cards)
    × (any (λ c. is_free c && ltb c.memory_used_percent gpu_memory_load_percent_limit) cards
        ≡ false)
Given false cards r =
    (c : VideoStatus) × (card_at r.1 cards ≡ some c)
    × (is_free c ≡ true)
    × (c.memory_used_percent < gpu_memory_load_percent_limit)
    × (any (λ d. is_free d && ltb d.memory_used_percent c.memory_used_percent) cards ≡ false)
    × (r.0 ≡ set_used true r.1 cards)

weaken_limit :
    (l k : ℕ) (cards : List VideoStatus)
    → k ≤ l
    → any (has_less l) cards ≡ false
    → any (λ c. is_free c && ltb c.memory_used_percent k) cards ≡ false
unfolding has_less
weaken_limit l k [] le h = refl
weaken_limit l k (c ∷ cs) le h = ground (arith, weaken_limit l k cs le)

no_card_below :
    (l : ℕ) (cards : List VideoStatus)
    → any (λ c. not (ltb c.index no_available_cards)) cards ≡ false
    → any (is_at no_available_cards l) cards ≡ false
unfolding is_at
no_card_below l [] h = refl
no_card_below l (c ∷ cs) h = ground (arith, no_card_below l cs)

-- What is given where the loop ends with an index.
given_at : ℕ → List VideoStatus → List VideoStatus × ℕ
given_at idx cards =
    if idx == no_available_cards
    then (cards, idx)
    else (if leb gpu_memory_load_percent_limit (memory_of (card_at idx cards))
        then (cards, no_available_cards)
        else (set_used true idx cards, idx))

found-Given :
    (cards : List VideoStatus) (h : IsIndexed cards) (idx least : ℕ)
    → ends_at no_available_cards no_available_cards idx least cards ≡ true
    → any (has_less least) cards ≡ false
    → Given ((given_at idx cards).1 == no_available_cards) cards (given_at idx cards)
unfolding given_at ends_at is_at
found-Given cards h idx least ends none_less = elim (Bool-cases (idx == no_available_cards)) [
  | inl e ↦
      let ends2 : ends_at no_available_cards no_available_cards no_available_cards least cards
          ≡ true =
        subst (λ i. ends_at no_available_cards no_available_cards i least cards ≡ true)
          ((==_iff idx no_available_cards).0 e) ends in
      simp e (
        refl,
        weaken_limit least gpu_memory_load_percent_limit cards
            (ground (arith, no_card_below least cards h.below)) none_less,
      )
  | inr e ↦
      let (c, at, good) = card_at-is_at idx least cards (h.at_most_one idx) (ground arith) in
      elim (Bool-cases (leb gpu_memory_load_percent_limit c.memory_used_percent)) [
        | inl much ↦
            simp (e, at, much)
              (
                refl,
                weaken_limit least gpu_memory_load_percent_limit cards (ground arith) none_less,
              )
        | inr less ↦
            simp (e, at, less)
              (
                c,
                refl,
                ground arith,
                ground arith,
                weaken_limit least c.memory_used_percent cards (ground arith) none_less,
                refl,
              )
      ]
]

-- Of cards under different indexes below the greatest unsigned int, getNextVideoCardIdx gives a
-- free one with less than 60 percent of its memory in use than which no free one has less, and
-- marks it as used; where there is none such, it changes nothing.
pub get_next_video_card_idx-Given :
    (cards : List VideoStatus)
    → IsIndexed cards
    → Given
        ((get_next_video_card_idx cards).1 == no_available_cards)
        cards
        (get_next_video_card_idx cards)
unfolding get_next_video_card_idx given_at
get_next_video_card_idx-Given cards h =
    found-Given cards h (search_free_card cards no_available_cards no_available_cards).0
      (search_free_card cards no_available_cards no_available_cards).1
      (search_free_card-any cards no_available_cards no_available_cards)
      (search_free_card-least cards no_available_cards no_available_cards)
