-- ===== src/Profile/Facts.antt =====
-- The facts of a merged profile (protoprompt/profile/merge.py).
use protoprompt.Prelude.{
  All, text_eqb_iff, ◌+◌, ◌≡◌, refl, true, Option, none, some, List, [], ◌∷◌, Text, codes, text_eq,
  ◌==◌, arith, if◌then◌else◌,
}
use protoprompt.Dict
use protoprompt.Dict.{Dict}
use protoprompt.Dict.Laws.{get-put, get-remove, remove_absent}
use protoprompt.Profile.{UserProfile, FactOp, apply_op, apply_ops, merge}

-- The last operation on a name
pub last_op : Text → List FactOp → Option FactOp
last_op key [] = none
last_op key (op ∷ ops) = elim (last_op key ops) [
  | some later ↦ some later
  | none ↦ if op.key == key then some op else none
]

-- What an operation leaves of a fact
pub outcome : Option FactOp → Option Text → Option Text
outcome none old = old
outcome (some op) old = if op.op == codes "forget" then none else some op.value

get-apply_op :
    (key : Text) (op : FactOp) (facts : Dict Text Text)
    → Dict.get key (apply_op op facts)
      ≡ (if op.key == key then outcome (some op) (Dict.get key facts) else Dict.get key facts)
unfolding apply_op outcome
get-apply_op key op facts =
    ground (arith, get-put op.key key op.value facts, get-remove op.key key facts)

-- After any operations a fact is what the last operation on its name left, and as it was where there
-- is none.
pub get-apply_ops :
    (key : Text) (ops : List FactOp) (facts : Dict Text Text)
    → Dict.get key (apply_ops ops facts) ≡ outcome (last_op key ops) (Dict.get key facts)
unfolding apply_ops last_op outcome
get-apply_ops key [] facts = refl
get-apply_ops key (op ∷ ops) facts =
    ground (arith, get-apply_ops key ops (apply_op op facts), get-apply_op key op facts)

-- An operation that forgets a fact that is not there
abbrev pub ForgetsNothing : Dict Text Text → FactOp → Type 0
ForgetsNothing facts op = (op.op ≡ codes "forget") × (Dict.get op.key facts ≡ none)

apply_ops-nothing :
    (ops : List FactOp) (facts : Dict Text Text)
    → All (ForgetsNothing facts) ops
    → apply_ops ops facts ≡ facts
unfolding apply_ops apply_op
apply_ops-nothing [] facts all = refl
apply_ops-nothing (op ∷ ops) facts ((forgets, absent), all) =
    let is_forget : (op.op == codes "forget") ≡ true = (text_eqb_iff op.op _).1 forgets in
    rw (is_forget, remove_absent op.key facts absent) (apply_ops-nothing ops facts all)

-- A delta of one or more operations, all of which forget facts that are not there, changes nothing
-- of the profile, and yet bumps its version and sets its time.
pub merge-version :
    (p : UserProfile) (op : FactOp) (ops : List FactOp) (now : Text)
    → All (ForgetsNothing p.facts) (op ∷ ops)
    → merge p
        (record {
          fact_ops = op ∷ ops;
          traits = [];
          preferences = [];
          topics = none;
          summary = [];
          source = [];
        })
        now
      ≡ record p { version = p.version + 1; updated_at = now }
unfolding merge
merge-version p op ops now all = rw (apply_ops-nothing (op ∷ ops) p.facts all) refl
