-- ===== src/Es/Leader/Stash.antt =====
-- The states of the lock of internal/infra/elasticsearch/leader/lock.go, and the document that it keeps
-- in them.
use tasques.Prelude.{
  ℤ, String, ◌≡◌, ◌≢◌, inl, inr, refl, Option, none, some, ok, err, subst, ap, Option-cases, str_eq,
  str_eq_iff, Bool-cases, arith,
}
use tasques.Es.Client.{Runtime, marshal}
use tasques.Es.Leader.{
  State, checker, pretender, usurper, leader, stopped, EsLeaderInfo, EsLock, LockClient, Attempted,
  create_answer, update_answer, after_leader, after_pretender, after_checker, after_usurper,
  get_leader_doc, submit_name_for_leader, jostle_for_leader, turn_in, turn, round,
}

-- One round moves the state along one of these; a lock that is stopped makes no round.
infix 40 ◌⟶◌
pub data ◌⟶◌ : State → State → Type 0 where
  nobody_leads : checker ⟶ pretender
  other_leads : checker ⟶ usurper
  led_unaware : checker ⟶ leader
  unsure : checker ⟶ checker
  elected : pretender ⟶ leader
  beaten : pretender ⟶ checker
  usurped : usurper ⟶ leader
  kept_out : usurper ⟶ checker
  throne_empty : usurper ⟶ pretender
  re_elected : leader ⟶ leader
  deposed : leader ⟶ checker
  forgotten : leader ⟶ pretender

ruleset edges = (
  nobody_leads, other_leads, led_unaware, unsure, elected, beaten, usurped, kept_out, throne_empty,
  re_elected, deposed, forgotten,
)

-- What the lock keeps in a state: its own document while it leads, another's while it waits to usurp.
abbrev pub Fits : State → Option EsLeaderInfo → String → Type 0
Fits leader (some doc) me = doc.source.leader_id ≡ me
Fits leader none me = ⊥
Fits usurper (some doc) me = doc.source.leader_id ≢ me
Fits usurper none me = ⊥
Fits s doc me = Unit

abbrev pub Stash : EsLock → Type 0
Stash e = Fits e.state e.stashed_doc e.process_id

module _ {W : Type 0} (c : LockClient W) (rt : Runtime W) where
  jostle_for_leader-own :
      (e : EsLock) (doc r : EsLeaderInfo) (w : W)
      → (jostle_for_leader c rt e doc w).0 ≡ ok r
      → r.source.leader_id ≡ e.process_id
  unfolding jostle_for_leader marshal update_answer
  jostle_for_leader-own e doc r w h = ground arith

  submit_name_for_leader-own :
      (e : EsLock) (r : EsLeaderInfo) (w : W)
      → (submit_name_for_leader c rt e w).0 ≡ ok r
      → r.source.leader_id ≡ e.process_id
  unfolding submit_name_for_leader marshal create_answer
  submit_name_for_leader-own e r w h = ground arith

  after_leader-Stash :
      (e : EsLock) (r : Attempted)
      → ((i : EsLeaderInfo) → r ≡ ok i → i.source.leader_id ≡ e.process_id)
      → Stash (after_leader e r).0 × Stash (after_usurper e r).0 × Stash (after_pretender e r).0
  unfolding after_leader after_usurper after_pretender
  after_leader-Stash e (ok i) own = (own i refl, own i refl, own i refl)
  after_leader-Stash e (err x) own = (ground arith, ground arith, ground arith)

  after_checker-Stash : (e : EsLock) (r : Attempted) → Stash (after_checker e r).0
  unfolding after_checker
  after_checker-Stash e (ok i) = elim (Bool-cases (str_eq i.source.leader_id e.process_id)) [
    | inl b ↦ rw b ((str_eq_iff i.source.leader_id e.process_id).0 b)
    | inr b ↦ rw b (λ same. ground (arith, str_eq_iff i.source.leader_id e.process_id))
  ]
  after_checker-Stash e (err x) = ground arith

  turn_in-Stash :
      (s : State) (stashed : Option EsLeaderInfo) (e : EsLock) (w w' : W) {e' : EsLock} {wait : ℤ}
      → turn_in c rt s stashed e w ≡ (some (e', wait), w')
      → Stash e'
  unfolding turn_in
  turn_in-Stash leader none e w w' h = ground arith
  turn_in-Stash leader (some doc) e w w' {e'} h =
      let r = (jostle_for_leader c rt e doc w).0 in
      let keeps = after_leader-Stash e r (λ i. jostle_for_leader-own e doc i w) in
      let same : (after_leader e r).0 ≡ e' = ground arith in subst Stash same keeps.0
  turn_in-Stash usurper none e w w' h = ground arith
  turn_in-Stash usurper (some doc) e w w' {e'} h =
      let r = (jostle_for_leader c rt e doc w).0 in
      let keeps = after_leader-Stash e r (λ i. jostle_for_leader-own e doc i w) in
      let same : (after_usurper e r).0 ≡ e' = ground arith in subst Stash same keeps.1
  turn_in-Stash pretender stashed e w w' {e'} h =
      let r = (submit_name_for_leader c rt e w).0 in
      let keeps = after_leader-Stash e r (λ i. submit_name_for_leader-own e i w) in
      let same : (after_pretender e r).0 ≡ e' = ground arith in subst Stash same keeps.2
  turn_in-Stash checker stashed e w w' {e'} h =
      let r = (get_leader_doc c rt e w).0 in
      let same : (after_checker e r).0 ≡ e' = ground arith in
      subst Stash same (after_checker-Stash e r)
  turn_in-Stash stopped stashed e w w' h = absurd (ground arith)

  pub round-Stash : (e e' : EsLock) (w w' : W) → round c rt e w ≡ (some e', w') → Stash e'
  unfolding round
  round-Stash e e' w w' h =
      let v = (rt.get_utc w).1 in
      elim (Option-cases (turn c rt e v).0) [
        | inl f ↦ absurd (ground (arith, f))
        | inr (next, f) ↦
            let made = ap (λ x. (x, (turn c rt e v).1)) f in
            let same : next.0 ≡ e' = ground (arith, f) in
            subst Stash same (turn_in-Stash e.state e.stashed_doc e v _ made)
      ]
