-- ===== src/Warden/Apa/Tests.antt =====
-- An application, its completion, and the confirmations of a network.
use elusiv.Base.{set, replicate, ok, ℕ, ◌<◌, ◌≡◌, refl, true, false, none, some, List, [], ◌∷◌}
use elusiv.Bytes.Find.{eq_bytes}
use elusiv.Warden.Apa.{
  ApaWardenNetwork, all_some, is_application_phase, all_confirmed, is_confirmed,
  is_confirmation_phase, user_data_bytes, join_quote, start_application, find_member,
  complete_application, quotes_from, get_all_quotes, confirmation_message, confirm_others,
}
use elusiv.Warden.Apa.Phases.{IsValid, genesis, IsConfirmation, confirm_others-IsConfirmation}
use elusiv.Warden.Apa.Steps.{
  Step, started, confirmed, Reachable, reach_genesis, reach_step, Reachable-IsValid,
  Step-after_applications,
}
use elusiv.Warden.Apa.Completion.{complete_application-index}

abbrev first_byte_hash : List (List ℕ) → List ℕ
first_byte_hash quotes = 1 ∷ []

-- The warden 3 is the first member.
abbrev one_member : ApaWardenNetwork
one_member = record genesis {
  members_count = 1;
  members = 3 ∷ 0 ∷ 0 ∷ 0 ∷ 0 ∷ 0 ∷ [];
  quote_starts = (8 ∷ []) ∷ replicate 5 (replicate 558 0);
  exchange_keys = [] ∷ replicate 5 (replicate 32 0);
}

started_test : start_application genesis 3 (8 ∷ []) ≡ ok (one_member, 0)
unfolding start_application is_application_phase all_some user_data_bytes
started_test = refl

one_member-Reachable : Reachable first_byte_hash one_member
one_member-Reachable =
    reach_step genesis one_member reach_genesis
      (started genesis one_member 3 0 (8 ∷ []) started_test)

Reachable-IsValid_example : IsValid one_member
Reachable-IsValid_example = Reachable-IsValid first_byte_hash one_member one_member-Reachable

one_member-IsValid : IsValid one_member
one_member-IsValid = Reachable-IsValid first_byte_hash one_member one_member-Reachable

abbrev one_quote : ApaWardenNetwork
one_quote = record one_member { quote_ends = none ∷ none ∷ none ∷ some (9 ∷ []) ∷ none ∷ none ∷ [] }

completed_test : complete_application one_member 3 (9 ∷ []) ≡ ok one_quote
unfolding complete_application find_member is_application_phase all_some
completed_test = refl

complete_application-index_example :
    (3 < 6) × (one_quote.quote_ends ≡ set one_member.quote_ends 3 (some (9 ∷ [])))
complete_application-index_example =
    complete_application-index one_member one_quote 3 (9 ∷ []) one_member-IsValid completed_test

-- All applications are complete, and the member 0 has confirmed.
abbrev closed_network : ApaWardenNetwork
closed_network = record {
  members_count = 6;
  apa_key = none;
  members = 0 ∷ 1 ∷ 2 ∷ 3 ∷ 4 ∷ 5 ∷ [];
  quote_starts = replicate 6 (8 ∷ []);
  quote_ends = replicate 6 (some (9 ∷ []));
  exchange_keys = replicate 6 (7 ∷ []);
  confirmations = true ∷ replicate 5 false;
}

abbrev twice_confirmed : ApaWardenNetwork
twice_confirmed = record closed_network { confirmations = true ∷ true ∷ replicate 4 false }

closed_test : is_application_phase closed_network ≡ false
unfolding is_application_phase all_some
closed_test = refl

confirmed_test :
    confirm_others first_byte_hash closed_network 1 (7 ∷ []) (1 ∷ []) ≡ ok twice_confirmed
unfolding confirm_others is_confirmation_phase is_confirmed is_application_phase all_some
    all_confirmed confirmation_message get_all_quotes quotes_from join_quote eq_bytes
confirmed_test = refl

closed-Step : Step first_byte_hash closed_network twice_confirmed
closed-Step = confirmed closed_network twice_confirmed 1 (7 ∷ []) (1 ∷ []) confirmed_test

Step-after_applications_example :
    (twice_confirmed.members ≡ closed_network.members)
    × (is_application_phase twice_confirmed ≡ false)
    × (confirmation_message first_byte_hash twice_confirmed
        ≡ confirmation_message first_byte_hash closed_network)
    × (is_confirmed closed_network ≡ ok false)
Step-after_applications_example =
    Step-after_applications first_byte_hash closed_network twice_confirmed closed-Step closed_test

confirm_others-IsConfirmation_example :
    IsConfirmation first_byte_hash closed_network twice_confirmed 1 (7 ∷ []) (1 ∷ [])
confirm_others-IsConfirmation_example =
    confirm_others-IsConfirmation first_byte_hash closed_network twice_confirmed 1 (7 ∷ []) (1 ∷ [])
      confirmed_test
