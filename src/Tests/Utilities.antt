-- ===== src/Tests/Utilities.antt =====
-- common/ms_common_utils.h and system/system_monitor.cpp at concrete inputs.
use microservice_common.Base.{◌≡◌, refl, true, false, List, [], ◌∷◌, ◌==◌, arith}
use microservice_common.Common.Outcome.{returned}
use microservice_common.Utilities.{ip_address_to_octets, ip_address_from_octets}
use microservice_common.Utilities.Addresses.{ip_address_to_octets-ip_address_from_octets}
use microservice_common.SystemMonitor.{VideoStatus, no_available_cards, get_next_video_card_idx}
use microservice_common.SystemMonitor.Cards.{IsIndexed, Given, get_next_video_card_idx-Given}

ip_address_to_octets-ip_address_from_octets_example :
    ip_address_to_octets (ip_address_from_octets 3232235777) ≡ returned 3232235777
ip_address_to_octets-ip_address_from_octets_example =
    ip_address_to_octets-ip_address_from_octets 3232235777 (omega arith)

abbrev cards : List VideoStatus
cards =
    record { used_by_video_server = true; gpu_load_percent = 0; memory_used_percent = 5; index = 0 }
    ∷ record {
      used_by_video_server = false;
      gpu_load_percent = 9;
      memory_used_percent = 40;
      index = 1;
    }
    ∷ record {
      used_by_video_server = false;
      gpu_load_percent = 9;
      memory_used_percent = 30;
      index = 2;
    }
    ∷ []

cards-IsIndexed : IsIndexed cards
cards-IsIndexed = record { at_most_one = λ n. ground arith; below = refl }

get_next_video_card_idx-Given_example :
    Given
      ((get_next_video_card_idx cards).1 == no_available_cards)
      cards
      (get_next_video_card_idx cards)
get_next_video_card_idx-Given_example = get_next_video_card_idx-Given cards cards-IsIndexed
