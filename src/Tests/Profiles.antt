-- ===== src/Tests/Profiles.antt =====
-- Runs of the profile merge (protoprompt/profile/merge.py).
use protoprompt.Prelude.{◌+◌, ◌≡◌, refl, none, List, [], ◌∷◌, Text, codes, text_eq, text_eqb}
use protoprompt.Dict
use protoprompt.Dict.{Dict}
use protoprompt.Profile.{Traits, UserProfile, FactOp, ProfileDelta, apply_ops, merge}
use protoprompt.Profile.Facts.{last_op, outcome, get-apply_ops, merge-version}

abbrev op_of : Text → Text → Text → FactOp
op_of op key value = record { op = op; key = key; value = value }

abbrev three_ops : List FactOp
three_ops =
    op_of (codes "add") (codes "name") (codes "Ann")
    ∷ op_of (codes "forget") (codes "role") []
    ∷ op_of (codes "update") (codes "name") (codes "Bea")
    ∷ []

abbrev known_facts : Dict Text Text
known_facts = (codes "role", codes "tester") ∷ []

apply_ops_runs : apply_ops three_ops known_facts ≡ (codes "name", codes "Bea") ∷ []
unfolding apply_ops Dict.put Dict.remove text_eqb
apply_ops_runs = refl

get-apply_ops_example :
    Dict.get (codes "name") (apply_ops three_ops known_facts)
    ≡ outcome (last_op (codes "name") three_ops) (Dict.get (codes "name") known_facts)
get-apply_ops_example = get-apply_ops (codes "name") three_ops known_facts

abbrev plain_traits : Traits
plain_traits = record { style = codes "concise"; expertise = []; verbosity = []; formality = [] }

abbrev ann : UserProfile
ann = record {
  user_id = codes "u";
  traits = plain_traits;
  preferences = record { format = []; language = []; topics = [] };
  facts = known_facts;
  summary = [];
  updated_at = [];
  version = 3;
  source = [];
}

abbrev new_traits : Dict Text Text
new_traits = (codes "style", []) ∷ (codes "expertise", codes "expert") ∷ []

abbrev delta : ProfileDelta
delta = record {
  fact_ops = three_ops;
  traits = new_traits;
  preferences = [];
  topics = none;
  summary = [];
  source = codes "chat";
}

merge-version_example :
    merge ann
      (record {
        fact_ops = op_of (codes "forget") (codes "zzz") [] ∷ [];
        traits = [];
        preferences = [];
        topics = none;
        summary = [];
        source = [];
      })
      (codes "now")
    ≡ record ann { version = 3 + 1; updated_at = codes "now" }
unfolding Dict.get text_eqb
merge-version_example =
    merge-version ann (op_of (codes "forget") (codes "zzz") []) [] (codes "now") ((refl, refl), tt)
