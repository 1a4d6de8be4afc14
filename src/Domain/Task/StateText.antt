-- ===== src/Domain/Task/StateText.antt =====
-- The texts of the states: `toString`, `toID`, `MarshalJSON` and `UnmarshalJSON` of
-- internal/domain/task/models.go. `decode` is encoding/json's reading of a JSON text as a string,
-- `none` where it fails.
use Prim.Native.String.{◌++◌ as append}
use tasques.Prelude.{
  String, ◌≡◌, refl, Option, none, some, Outcome, ok, err, str_eq, str_eq_iff, Option-cases, inl,
  inr, if◌then◌else◌, arith,
}
use tasques.Domain.Task.{State, queued, claimed, failed, done, dead}

unfoldable pub to_string : State → String
to_string queued = "queued"
to_string claimed = "claimed"
to_string failed = "failed"
to_string done = "done"
to_string dead = "dead"

unfoldable pub to_id : String → Option State
to_id s =
    if str_eq s "queued"
    then some queued
    else if str_eq s "claimed"
    then some claimed
    else if str_eq s "failed"
    then some failed
    else if str_eq s "done"
    then some done
    else if str_eq s "dead"
    then some dead
    else none

pub data UnmarshalError : Type 0 where
  not_a_string invalid_state : UnmarshalError

unfoldable pub unmarshal_json : (String → Option String) → String → Outcome UnmarshalError State
unmarshal_json decode b = elim (decode b) [
  | none ↦ err not_a_string
  | some j ↦ elim (to_id j) [ none ↦ err invalid_state | some found ↦ ok found ]
]

to_id-to_string : (s : State) → to_id (to_string s) ≡ some s
unfolding to_id to_string
to_id-to_string queued = refl
to_id-to_string claimed = refl
to_id-to_string failed = refl
to_id-to_string done = refl
to_id-to_string dead = refl

to_string-to_id : (j : String) (s : State) → to_id j ≡ some s → j ≡ to_string s
unfolding to_id to_string
to_string-to_id j s h = ground (
  arith,
  str_eq_iff j "queued",
  str_eq_iff j "claimed",
  str_eq_iff j "failed",
  str_eq_iff j "done",
  str_eq_iff j "dead",
)

unfoldable pub marshal_json : State → String
marshal_json s = append "\"" (append (to_string s) "\"")

-- Where encoding/json reads the quoted state texts back, `UnmarshalJSON` undoes `MarshalJSON` on
-- every state; and whatever text it accepts was read as the text of the state that it returns.
pub unmarshal_json-marshal_json :
    (decode : String → Option String)
    → ((s : State) → decode (marshal_json s) ≡ some (to_string s))
    → ((s : State) → unmarshal_json decode (marshal_json s) ≡ ok s)
      × ((b : String) (s : State) → unmarshal_json decode b ≡ ok s → decode b ≡ some (to_string s))
unfolding unmarshal_json
unmarshal_json-marshal_json decode plain = (
  (λ s. ground (arith, plain s, to_id-to_string s)),
  λ b s h. elim (Option-cases (decode b)) [
    | inl e ↦ absurd (ground arith)
    | inr (j, e) ↦ ground (arith, to_string-to_id j s)
  ],
)
