-- ===== src/Service/Authority/Build.antt =====
-- service/src/authority_core.c: building and scrapping, and the budgets of settlements.
use f4mp.Base.{
  ℕ, ◌+◌, ◌-◌, ◌%◌, ◌^◌, ◌≤◌, ◌<◌, ◌≡◌, ◌≢◌, ◌⊎◌, inl, inr, ap, ◌∙◌, true, false, some, List, [],
  ◌∷◌, arith, All, Bool-cases, Option-cases, if◌then◌else◌, ltb,
}
use f4mp.Messages.Workshop.{MsgBuildRequest, MsgObjectMoveRequest, MsgObjectScrapRequest}
use f4mp.Service.State.{SessionState, ObjectRuntimeState, SettlementState}
use f4mp.Service.Slots.{
  find_first, update_first, is_some, All-update_found, All-update_first, find_first-update_first,
  find_first-update_first_new, find_first-test,
}
use f4mp.Service.Store.{
  find_object, find_settlement, with_object, with_settlement, ws_alloc_object, ws_remove_object,
  is_object, is_settlement, free_object,
}
use f4mp.Service.Floats.{Floats}
use f4mp.Service.Validation.{
  validate_build_request, validate_player_connected, workshop_whitelist_contains,
  validate_object_scrap_request, Whitelist,
}
use f4mp.Service.Authority.{
  Authority, ac_handle_build_request, ac_handle_object_move, ac_handle_object_scrap,
}

abbrev pub IsWithinBudget : SessionState → Type 0
IsWithinBudget s = All (λ (t : SettlementState). t.object_count ≤ t.object_budget) s.settlements

pub one_more : SettlementState → SettlementState
one_more t = record t { object_count = (t.object_count + 1) % 2 ^ 32 }

pub one_less : SettlementState → SettlementState
one_less t = record t {
  object_count = if ltb 0 t.object_count then t.object_count - 1 else t.object_count;
}

-- A write to the settlement that an id finds keeps every other within its budget too.
settlement_budget :
    (s : SessionState) (id : ℕ) (f : SettlementState → SettlementState) (t : SettlementState)
    → find_settlement s id ≡ some t
    → (f t).object_count ≤ (f t).object_budget
    → IsWithinBudget s
    → IsWithinBudget (with_settlement s id f)
unfolding find_settlement with_settlement
settlement_budget s id f t e room h =
    All-update_found (is_settlement id) (λ u. u.object_count ≤ u.object_budget) f s.settlements t e
      room h

module _ (F : Floats) where
  valid_room :
      (wl : Whitelist) (s : SessionState) (msg : MsgBuildRequest)
      → validate_build_request F wl s msg ≡ true
      → (t : SettlementState) × (find_settlement s msg.settlement_id ≡ some t)
        × (t.object_count < t.object_budget)
  unfolding validate_build_request
  valid_room wl s msg e = elim (Option-cases (find_settlement s msg.settlement_id)) [
    | inl p ↦ absurd (ground arith)
    | inr (t, p) ↦ (t, p, ground arith)
  ]

  -- A build request that is not accepted leaves the session as it was, and says why not.
  pub ac_handle_build_request-denied :
      (w : Authority) (msg : MsgBuildRequest)
      → (ac_handle_build_request F w msg).0.accepted ≡ 0
      → ((ac_handle_build_request F w msg).1.session ≡ w.session)
        × ((ac_handle_build_request F w msg).0.reason ≢ 0)
        × ((ac_handle_build_request F w msg).0.object_net_id ≡ 0)
  unfolding ac_handle_build_request ws_alloc_object
  ac_handle_build_request-denied w msg e = ground arith

  -- The two ways a build request ends.
  build_outcome :
      (w : Authority) (msg : MsgBuildRequest)
      → ((ac_handle_build_request F w msg).1.session ≡ w.session)
        ⊎ ((validate_build_request F w.whitelist w.session msg ≡ true)
            × ((ac_handle_build_request F w msg).1.session.settlements
                ≡ (with_settlement w.session msg.settlement_id one_more).settlements))
  unfolding ac_handle_build_request ws_alloc_object with_settlement one_more
  build_outcome w msg = ground arith

  -- No build request takes a settlement past its budget.
  ac_handle_build_request-IsWithinBudget :
      (w : Authority) (msg : MsgBuildRequest)
      → IsWithinBudget w.session
      → IsWithinBudget (ac_handle_build_request F w msg).1.session
  unfolding one_more
  ac_handle_build_request-IsWithinBudget w msg h = elim (build_outcome w msg) [
    | inl e ↦ rw e h
    | inr (valid, e) ↦
        let (t, found, room) = valid_room w.whitelist w.session msg valid in
        rw e (settlement_budget w.session msg.settlement_id one_more t found (omega arith) h)
  ]

  -- The object that an accepted request places.
  abbrev pub placed : Authority → MsgBuildRequest → ObjectRuntimeState
  placed w msg = record {
    in_use = true;
    object_net_id = w.next_object_id;
    form_id = msg.form_id;
    settlement_id = msg.settlement_id;
    position = msg.position;
    rotation = msg.rotation;
    state_flags = 1;
    owner_player_id = msg.player_id;
    pending_despawn = false;
  }

  build_accepted :
      (w : Authority) (msg : MsgBuildRequest)
      → (ac_handle_build_request F w msg).0.accepted ≡ 1
      → (validate_build_request F w.whitelist w.session msg ≡ true)
        × (is_some (find_first free_object w.session.objects) ≡ true)
        × ((ac_handle_build_request F w msg).0.object_net_id ≡ w.next_object_id)
        × ((ac_handle_build_request F w msg).1.session.objects
            ≡ update_first free_object (λ _. placed w msg) w.session.objects)
        × ((ac_handle_build_request F w msg).1.session.settlements
            ≡ update_first (is_settlement msg.settlement_id) one_more w.session.settlements)
  unfolding ac_handle_build_request ws_alloc_object with_settlement one_more
  build_accepted w msg e = ground arith

  is_placed :
      (w : Authority) (msg : MsgBuildRequest) → is_object w.next_object_id (placed w msg) ≡ true
  unfolding is_object
  is_placed w msg = ground arith

  one_more_same :
      (id : ℕ) (t : SettlementState)
      → is_settlement id t ≡ true
      → is_settlement id (one_more t) ≡ true
  unfolding is_settlement one_more
  one_more_same id t h = h

  valid_sender :
      (wl : Whitelist) (s : SessionState) (msg : MsgBuildRequest)
      → validate_build_request F wl s msg ≡ true
      → (validate_player_connected s msg.player_id ≡ true)
        × (workshop_whitelist_contains wl msg.form_id ≡ true)
  unfolding validate_build_request
  valid_sender wl s msg e = elim (Option-cases (find_settlement s msg.settlement_id)) [
    | inl p ↦ absurd (ground arith)
    | inr (t, p) ↦ (ground arith, ground arith)
  ]

  -- A build request that is accepted comes from a connected player and asks for a form of the
  -- whitelist; its settlement had room and counts one object more; and the result names the next object
  -- id, under which, unless an object had that id before, one is then found with what was requested.
  pub ac_handle_build_request-accepted :
      (w : Authority) (msg : MsgBuildRequest)
      → (ac_handle_build_request F w msg).0.accepted ≡ 1
      → let (result, w') = ac_handle_build_request F w msg in
        (validate_player_connected w.session msg.player_id ≡ true)
        × (workshop_whitelist_contains w.whitelist msg.form_id ≡ true)
        × (result.object_net_id ≡ w.next_object_id)
        × ((is_some (find_object w.session w.next_object_id) ≡ true)
            ⊎ (find_object w'.session w.next_object_id ≡ some (placed w msg)))
        × ((t : SettlementState) × (find_settlement w.session msg.settlement_id ≡ some t)
            × (t.object_count < t.object_budget)
            × (find_settlement w'.session msg.settlement_id ≡ some (one_more t)))
  unfolding find_object find_settlement
  ac_handle_build_request-accepted w msg e =
      let (valid, free, id, objects, settlements) = build_accepted w msg e in
      let (t, found, room) = valid_room w.whitelist w.session msg valid in
      let (sender, form) = valid_sender w.whitelist w.session msg valid in
      (
        sender,
        form,
        id,
        elim (Option-cases (find_object w.session w.next_object_id)) [
          | inl fresh ↦ inr (
              ap (find_first (is_object w.next_object_id)) objects
              ∙ find_first-update_first_new free_object (is_object w.next_object_id) (placed w msg)
                  w.session.objects fresh free (is_placed w msg))
          | inr (o, used) ↦ inl (ap is_some used)
        ],
        (
          t,
          found,
          room,
          ap (find_first (is_settlement msg.settlement_id)) settlements
              ∙ find_first-update_first (is_settlement msg.settlement_id) one_more
                  w.session.settlements t found
                  (one_more_same msg.settlement_id t (
                    find_first-test (is_settlement msg.settlement_id) w.session.settlements t
                      found)),
        ),
      )

  move_settlements :
      (s : SessionState) (msg : MsgObjectMoveRequest)
      → (ac_handle_object_move F s msg).1.settlements ≡ s.settlements
  unfolding ac_handle_object_move with_object
  move_settlements s msg = ground arith

one_less-IsWithinBudget :
    (s : SessionState) (id : ℕ) → IsWithinBudget s → IsWithinBudget (with_settlement s id one_less)
unfolding with_settlement one_less
one_less-IsWithinBudget s id h =
    All-update_first (is_settlement id) (λ t. t.object_count ≤ t.object_budget) one_less
      s.settlements (λ t _ p. ground arith) h

scrap_settlements :
    (s : SessionState) (msg : MsgObjectScrapRequest)
    → ((ac_handle_object_scrap s msg).1 ≡ s)
      ⊎ ((id : ℕ) × ((ac_handle_object_scrap s msg).1.settlements
            ≡ (with_settlement s id one_less).settlements))
unfolding ac_handle_object_scrap ws_remove_object with_object with_settlement one_less
scrap_settlements s msg = elim (Option-cases (find_object s msg.object_net_id)) [
  | inl p ↦ inl (ground arith)
  | inr (o, p) ↦ elim (Bool-cases (validate_object_scrap_request s msg)) [
    | inl v ↦ inr (o.settlement_id, ground arith)
    | inr v ↦ inl (ground arith)
  ]
]

-- A request about the workshop, in the order in which the service handles them.
pub data Request : Type 0 where
  build : MsgBuildRequest → Request
  move : MsgObjectMoveRequest → Request
  scrap : MsgObjectScrapRequest → Request

module _ (F : Floats) where
  unfoldable pub workshop_step : Authority → Request → Authority
  workshop_step w (build msg) = (ac_handle_build_request F w msg).1
  workshop_step w (move msg) = record w { session = (ac_handle_object_move F w.session msg).1 }
  workshop_step w (scrap msg) = record w { session = (ac_handle_object_scrap w.session msg).1 }

  unfoldable pub workshop_run : Authority → List Request → Authority
  workshop_run w [] = w
  workshop_run w (r ∷ rs) = workshop_run (workshop_step w r) rs

  workshop_step-IsWithinBudget :
      (w : Authority) (r : Request)
      → IsWithinBudget w.session
      → IsWithinBudget (workshop_step w r).session
  unfolding workshop_step
  workshop_step-IsWithinBudget w (build msg) h = ac_handle_build_request-IsWithinBudget F w msg h
  workshop_step-IsWithinBudget w (move msg) h = rw (move_settlements F w.session msg) h
  workshop_step-IsWithinBudget w (scrap msg) h = elim (scrap_settlements w.session msg) [
    | inl e ↦ rw e h
    | inr (id, e) ↦ rw e (one_less-IsWithinBudget w.session id h)
  ]

  -- Whatever is built, moved and scrapped, and in whatever order, each settlement counts no more
  -- objects than its budget.
  pub workshop_run-IsWithinBudget :
      (w : Authority) (rs : List Request)
      → IsWithinBudget w.session
      → IsWithinBudget (workshop_run w rs).session
  unfolding workshop_run
  workshop_run-IsWithinBudget w [] h = h
  workshop_run-IsWithinBudget w (r ∷ rs) h =
      workshop_run-IsWithinBudget (workshop_step w r) rs (workshop_step-IsWithinBudget w r h)
