-- ===== src/Samples/NormalizationCases.antt =====
-- The theorem on src/osbench/normalization.py for two observations of different process ids.
use os_bench.Common.{String, ◌≡◌, refl, List, [], ◌∷◌, ◌==◌}
use os_bench.Normalization.Trees.{Members, number, text, member, no_more}
use os_bench.Normalization.{
  TextMethods, placeholder, remove_member, timed, rules_of, normalize_observation,
}
use os_bench.Normalization.Blind.{
  AlikeMembers, masked, open_key, same, both_end, normalize_observation-Alike,
}

abbrev methods : TextMethods
methods = record {
  lower = λ s. s;
  ends_with = λ s t. s == t;
  contains = λ s t. s == t;
  repr = λ v. "";
  sub_osbench = λ s. s;
  sub_tmp = λ s. s;
}

abbrev rules : List String
rules = "none" ∷ "pid" ∷ []

abbrev observed : String → String → Members
observed pid duration =
    member "pid" (number pid)
      (member "duration_ns" (number duration) (member "stdout" (text "hello") no_more))

observed-Alike :
    AlikeMembers methods
      (rules_of rules)
      (timed [] (observed "17" "300"))
      (timed [] (observed "23" "400"))
unfolding placeholder remove_member
observed-Alike = masked refl (open_key same both_end)

normalize_observation-Alike_example :
    normalize_observation methods [] rules (observed "17" "300")
    ≡ normalize_observation methods [] rules (observed "23" "400")
normalize_observation-Alike_example =
    normalize_observation-Alike methods [] rules (observed "17" "300") (observed "23" "400")
      observed-Alike "pid" [] refl
