-- ===== src/Enforcer/Heuristics/Tests.antt =====
-- Runs of the heuristics and their theorems on concrete names.
use palaestra_mcp_bridge.Common.{◌≡◌, ◌≢◌, ◌≤◌, refl, String, true, false, ◌||◌, []}
use palaestra_mcp_bridge.Enforcer.Types.{SafetyProfile}
use palaestra_mcp_bridge.Enforcer.Heuristics.{
  contains_word_or_prefix, word_from, at_boundaries, heuristic_profile, has_pii, is_irreversible,
  is_bulk,
}
use palaestra_mcp_bridge.Enforcer.Heuristics.Risk.{IsRiskLevel, heuristic_profile_lem}

-- A token that merely starts with the word is no match.
deletes_is_no_delete : contains_word_or_prefix "deletes_user" "delete" ≡ false
unfolding contains_word_or_prefix word_from at_boundaries
deletes_is_no_delete = refl

second_occurrence : contains_word_or_prefix "undelete_delete" "delete" ≡ true
unfolding contains_word_or_prefix word_from at_boundaries
second_occurrence = refl

abbrev same_text : String → String
same_text s = s

abbrev profile_of_delete : SafetyProfile
profile_of_delete = heuristic_profile same_text "bulk_delete" "gdpr, permanent" []

heuristic_profile_example :
    (profile_of_delete.source ≡ "inferred")
    × IsRiskLevel profile_of_delete.risk
    × (1 ≤ profile_of_delete.cost)
    × (profile_of_delete.cost ≤ 60)
    × (profile_of_delete.pii_exposure ≡ has_pii same_text "gdpr, permanent" [])
    × (has_pii same_text "gdpr, permanent" [] ≡ true → profile_of_delete.risk ≢ "low")
    × ((is_irreversible same_text "gdpr, permanent"
            || is_bulk same_text "bulk_delete" "gdpr, permanent")
          ≡ true
        → (profile_of_delete.requires_hitl ≡ true) × (profile_of_delete.risk ≢ "low"))
heuristic_profile_example = heuristic_profile_lem same_text "bulk_delete" "gdpr, permanent" []
