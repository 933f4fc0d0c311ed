-- ===== src/SystemMonitor.antt =====
-- system/system_monitor.{h,cpp}: which video card a video server is given. The cards stand in the order
-- in which the map is walked, under the index that each has; an index is an unsigned int.
pub mod Cards
use microservice_common.Base.{
  ℕ, ◌-◌, ◌^◌, Bool, true, false, List, [], ◌∷◌, Option, none, some, ltb, leb, ◌==◌, if◌then◌else◌,
}

-- SVideoStatus, without the card's name.
pub record VideoStatus : Type 0 where
  pub used_by_video_server : Bool
  pub gpu_load_percent : ℕ
  pub memory_used_percent : ℕ
  pub index : ℕ

-- (unsigned int)-1, which is also the greatest unsigned int.
abbrev pub no_available_cards : ℕ
no_available_cards = 2 ^ 32 - 1

abbrev pub gpu_memory_load_percent_limit : ℕ
gpu_memory_load_percent_limit = 60

-- The loop over the cards: the index and the memory of the least loaded so far.
abbrev pub search_free_card : List VideoStatus → ℕ → ℕ → ℕ × ℕ
search_free_card [] idx least = (idx, least)
search_free_card (c ∷ cs) idx least =
    if c.used_by_video_server
    then search_free_card cs idx least
    else (if ltb c.memory_used_percent least
        then search_free_card cs c.index c.memory_used_percent
        else search_free_card cs idx least)

-- The entry that `cardsStatuses[ idx ]` gives, which is there for an index that was found.
abbrev pub card_at : ℕ → List VideoStatus → Option VideoStatus
card_at idx [] = none
card_at idx (c ∷ cs) = if c.index == idx then some c else card_at idx cs

abbrev pub set_used : Bool → ℕ → List VideoStatus → List VideoStatus
set_used used idx [] = []
set_used used idx (c ∷ cs) =
    if c.index == idx
    then record c { used_by_video_server = used } ∷ cs
    else c ∷ set_used used idx cs

abbrev pub memory_of : Option VideoStatus → ℕ
memory_of none = 0
memory_of (some c) = c.memory_used_percent

unfoldable pub get_next_video_card_idx : List VideoStatus → List VideoStatus × ℕ
get_next_video_card_idx cards =
    let idx = (search_free_card cards no_available_cards no_available_cards).0 in
    if idx == no_available_cards
    then (cards, idx)
    else (if leb gpu_memory_load_percent_limit (memory_of (card_at idx cards))
        then (cards, no_available_cards)
        else (set_used true idx cards, idx))

unfoldable pub release_video_card_idx : ℕ → List VideoStatus → List VideoStatus
release_video_card_idx idx cards = set_used false idx cards
