-- ===== src/Leaves/Issued.antt =====
-- A task that is reissued, and one that is made, put no rack out twice: jobs/registry.rs, `generate_leave_gen`.
use birdtest.Prelude.{
  ℕ, ◌+◌, ◌≤◌, ◌≡◌, refl, sym, ◌∙◌, subst, inl, inr, Bool-cases, true, false, ◌&&◌, List, [], ◌∷◌,
  none, some, ◌==◌, arith,
}
use birdtest.Claims.Rows.{task_claimed, exists, count, update, append, find}
use birdtest.Claims.Slots.{count-append, count-update_same}
use birdtest.Leaves.Rows.{Staged, LeaveTask, Generation}
use birdtest.Leaves.Selection.{
  dispatch, start_transition, in_progress, needs_merge, no_work_yet, Selected, selected_racks,
  selected_step, answered,
}
use birdtest.Leaves.Acquire.{
  answer_of, reissue, is_reissuable, insert_leave_task, acquired_task, failed,
}
use birdtest.Leaves.Steps.{is_ascending}
use birdtest.Leaves.Out.{times, outs, outs_of, is_waiting, ids}
use birdtest.Leaves.Hands.{Fair, Fair-after, Hands, Hands-Fair, forced_of}

abbrev reissued_tasks : ℕ → List LeaveTask → List LeaveTask
reissued_tasks task_id ts =
    update (λ t. t.id == task_id) (λ t. record t { state = task_claimed }) ts

module _ (staging : List Staged) (task_id rack : ℕ) where
  others_stay :
      (ts : List LeaveTask)
      → ids task_id ts ≡ 0
      → outs_of staging rack (reissued_tasks task_id ts) ≡ outs_of staging rack ts
  others_stay [] h = refl
  others_stay (t ∷ ts) h = ground (arith, h, others_stay ts)

  absent :
      (ts : List LeaveTask)
      → ids task_id ts ≡ 0
      → exists (λ t. t.id == task_id && is_waiting t) ts ≡ false
  absent [] h = refl
  absent (t ∷ ts) h = ground (arith, h, absent ts)

  outs_of-reissued :
      (ts : List LeaveTask)
      → ids task_id ts ≤ 1
      → exists (λ t. t.id == task_id && is_waiting t) ts ≡ true
      → outs_of staging rack (reissued_tasks task_id ts) ≡ outs_of staging rack ts
  outs_of-reissued [] one h = refl
  outs_of-reissued (t ∷ ts) one h = elim (Bool-cases (t.id == task_id)) [
    | inl same ↦
        let rest : ids task_id ts ≡ 0 = ground (arith, same, one) in
        ground (arith, same, h, absent ts rest, others_stay ts rest)
    | inr other ↦
        ground (
          arith,
          other,
          outs_of-reissued ts (ground (arith, other, one)) (ground (arith, other, h)),
        )
  ]

found_waiting :
    (locked : List ℕ) (ts : List LeaveTask) (t : LeaveTask)
    → find (is_reissuable locked) ts ≡ some t
    → exists (λ u. u.id == t.id && is_waiting u) ts ≡ true
found_waiting locked [] t e = absurd (ground (arith, e))
found_waiting locked (u ∷ us) t e = elim (Bool-cases (is_reissuable locked u)) [
  | inl this ↦
      let same : u ≡ t = ground (arith, this, e) in
      subst (λ v. exists (λ u. u.id == v.id && is_waiting u) (u ∷ us) ≡ true) same
        (ground (arith, this))
  | inr other ↦ ground (arith, found_waiting locked us t (ground (arith, other, e)))
]

pub none_waits : (ts : List LeaveTask) → find (is_reissuable []) ts ≡ none → count is_waiting ts ≡ 0
none_waits [] e = refl
none_waits (t ∷ ts) e = ground (arith, e, none_waits ts)

pub reissue-Fair :
    (locked : List ℕ) (g : Generation) (t : LeaveTask)
    → Fair g
    → find (is_reissuable locked) g.tasks ≡ some t
    → Fair (reissue t.id g)
reissue-Fair locked g t h found =
    let same : (rack : ℕ) → outs (reissue t.id g) rack ≡ outs g rack = λ rack.
      outs_of-reissued g.staging t.id rack g.tasks (h.unique t.id)
        (found_waiting locked g.tasks t found) in
    Fair-after g (reissue t.id g) h
      (record {
        outs_le = λ rack. omega (arith, same rack);
        ids_same = λ i.
            count-update_same (λ u. u.id == i) (λ u. u.id == t.id)
              (λ u. record u { state = task_claimed }) (λ u. ground arith) g.tasks;
      })
      refl (λ c at. at)

outs_of-append :
    (staging : List Staged) (rack task_id : ℕ) (racks : List ℕ) (ts : List LeaveTask)
    → outs_of staging rack
        (append ts (record { id = task_id; forced_racks = racks; state = task_claimed }))
      ≡ times rack racks + outs_of staging rack ts
outs_of-append staging rack task_id racks [] = ground arith
outs_of-append staging rack task_id racks (t ∷ ts) =
    omega (arith, outs_of-append staging rack task_id racks ts)

inserted-Fair :
    (g e : Generation) (task_id : ℕ) (racks : List ℕ)
    → Fair g
    → ids task_id g.tasks ≡ 0
    → Hands g e racks
    → Fair (insert_leave_task task_id racks e)
inserted-Fair g e task_id racks h fresh k = record {
  unique = λ i. ground (
    arith,
    h.unique i,
    k.fewer.ids_same i,
    k.fewer.ids_same task_id,
    fresh,
    count-append (λ t. t.id == i) e.tasks
        (record { id = task_id; forced_racks = racks; state = task_claimed }),
  );
  once = λ rack. omega (arith, k.once rack, outs_of-append e.staging rack task_id racks e.tasks);
  sorted = subst (λ l. is_ascending 0 l ≡ true) (sym k.racks) h.sorted;
  behind =
      λ c rack at lt. outs_of-append e.staging rack task_id racks e.tasks ∙ k.behind c rack at lt;
}

pub answer_of-Fair :
    (g : Generation) (task_id : ℕ) (chosen : Generation × Selected)
    → Fair g
    → ids task_id g.tasks ≡ 0
    → Hands g chosen.0 (forced_of chosen.1)
    → Fair (answer_of g task_id (answered chosen)).0
answer_of-Fair g task_id (e, selected_step (dispatch racks)) h fresh k =
    inserted-Fair g e task_id racks h fresh k
answer_of-Fair g task_id (e, selected_step start_transition) h fresh k = Hands-Fair g e h k
answer_of-Fair g task_id (e, selected_step in_progress) h fresh k = Hands-Fair g e h k
answer_of-Fair g task_id (e, selected_step needs_merge) h fresh k = Hands-Fair g e h k
answer_of-Fair g task_id (e, selected_step no_work_yet) h fresh k = Hands-Fair g e h k
answer_of-Fair g task_id (e, selected_racks racks) h fresh k =
    elim (Bool-cases e.previous_artifact) [
      | inl ready ↦
          let same : answer_of g task_id (answered (e, selected_racks racks))
              ≡ (insert_leave_task task_id racks e, acquired_task task_id racks) =
            ground (arith, ready) in
          subst (λ r. Fair r.0) (sym same) (inserted-Fair g e task_id racks h fresh k)
      | inr missing ↦
          let same : answer_of g task_id (answered (e, selected_racks racks))
              ≡ (record e { cursor_rack = g.cursor_rack }, failed) =
            ground (arith, missing) in
          subst (λ r. Fair r.0) (sym same)
            (Fair-after g (record e { cursor_rack = g.cursor_rack }) h
              (record { outs_le = k.fewer.outs_le; ids_same = k.fewer.ids_same }) k.racks
              (λ c at. at))
    ]
