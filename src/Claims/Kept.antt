-- ===== src/Claims/Kept.antt =====
-- The statements of Claims/Writes.antt keep the rows well-formed.
use birdtest.Prelude.{
  ◌≤◌, ◌≡◌, refl, sym, ◌∙◌, Bool, Bool-cases, true, false, ◌&&◌, List, some, inl, inr, ◌==◌,
  if◌then◌else◌, arith,
}
use birdtest.Claims.Rows.{
  ClaimState, TaskClaim, Task, Database, update, exists, count, find, is_claimed, is_completed,
}
use birdtest.Claims.Writes.{release_claim, is_open_id, is_task_of, release_slots}
use birdtest.Claims.Slots.{
  bit, count-update, count-update_same, exists-count, count-found, updated-WellFormed, is_live_of,
  is_done_of, Slot, has_id, WellFormed,
}

-- A claim that a query found.
module _ (p : TaskClaim → Bool) (claims : List TaskClaim) (c : TaskClaim)
    (found : find p claims ≡ some c) (ids : count (has_id c.id) claims ≤ 1) where
  same_id : (c.id == c.id) ≡ true
  same_id = ground arith

  pub count-row : (r : TaskClaim → Bool) → count (λ d. has_id c.id d && r d) claims ≡ bit (r c)
  count-row r = count-found p (has_id c.id) r claims c found same_id ids

  pub exists-row : (r : TaskClaim → Bool) → exists (λ d. has_id c.id d && r d) claims ≡ r c
  exists-row r = exists-count (λ d. has_id c.id d && r d) claims ∙ (rw (count-row r) (ground arith))

  module _ (terminal_state : ClaimState) (not_claimed : is_claimed terminal_state ≡ false)
      (not_completed : is_completed terminal_state ≡ false) where
    abbrev after : List TaskClaim
    after = update (is_open_id c.id) (λ d. record d { state = terminal_state }) claims

    released-Slot :
        (t : Task)
        → is_claimed c.state ≡ true
        → Slot claims t
        → Slot after (if is_task_of claims c.id t then release_slots 1 t else t)
    released-Slot t is_open s =
        let fewer =
          count-update (is_live_of t.id)
            (λ d. has_id c.id d && (is_claimed d.state && d.task_id == t.id)) (is_open_id c.id)
            (λ d. record d { state = terminal_state }) (λ d. ground (arith, not_claimed)) claims in
        let same =
          count-update_same (is_done_of t.id) (is_open_id c.id)
            (λ d. record d { state = terminal_state }) (λ d. ground (arith, not_completed))
            claims in
        let one = count-row (λ d. is_claimed d.state && d.task_id == t.id) in
        let task = exists-row (λ d. d.task_id == t.id) in
        record {
          live = ground (arith, fewer, one, task, is_open, s.live, s.done, s.one);
          done = ground (arith, same, s.done);
          one = ground (arith, s.one);
          says = ground (arith, s.says, s.one, task, fewer, one, s.live);
        }

pub release_claim-WellFormed :
    (db : Database) (p : TaskClaim → Bool) (c : TaskClaim) (terminal_state : ClaimState)
    → find p db.claims ≡ some c
    → is_claimed terminal_state ≡ false
    → is_completed terminal_state ≡ false
    → WellFormed db
    → WellFormed (release_claim db c.id terminal_state).0
unfolding release_claim
release_claim-WellFormed db p c terminal_state found nc nd h =
    elim (Bool-cases (exists (is_open_id c.id) db.claims)) [
      | inr closed ↦ rw closed h
      | inl opened ↦
          let is_open : is_claimed c.state ≡ true =
            sym (exists-row p db.claims c found (h.ids c.id) (λ d. is_claimed d.state)) ∙ opened in
          rw opened (
            updated-WellFormed db db.jobs (is_open_id c.id)
              (λ d. record d { state = terminal_state }) (is_task_of db.claims c.id)
              (release_slots 1) (λ d. (refl, (refl, (refl, refl)))) (λ t. (refl, refl))
              (λ t. released-Slot p db.claims c found (h.ids c.id) terminal_state nc nd t is_open)
              h)
    ]
