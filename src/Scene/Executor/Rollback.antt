-- ===== src/Scene/Executor/Rollback.antt =====
-- services/scene-svc/src/main.rs: a scene that fails leaves the devices as they were.
use mathlib.Core.List.{reverse-append}
use lokan_os.Prelude.{
  String, ◌≡◌, ◌≢◌, refl, ap, ◌∙◌, Bool, true, false, not, Option, some, List, [], ◌∷◌, ◌++◌,
  reverse, all, ◌&&◌, arith, str_eq, eq_iff, if◌then◌else◌, if-cases,
}
use lokan_os.Prelude.Result.{Result, ok, err}
use lokan_os.Scene.Client.{SceneError, DeviceRegistryClient}
use lokan_os.Scene.Executor.{
  Detail, rollback_failed, DeviceApplyResult, SceneResponse, DeviceOperation, Progress, apply_op,
  after_apply, after_fetch, undo_result, finish, apply_ops, undo_all, apply_scene, start,
  SceneStatus,
}

-- A registry in which each device has one state: a fetch reads it, an apply that is accepted sets
-- it and no other, and an apply that is refused changes nothing.
pub record Stateful (client : DeviceRegistryClient) : Type 0 where
  pub state_of : client.World → String → Option client.Value
  pub fetch-state :
      (w : client.World) (id : String) (v : client.Value)
      → (client.fetch_state w id).1 ≡ ok v
      → state_of w id ≡ some v
  pub fetch-same :
      (w : client.World) (id j : String) → state_of (client.fetch_state w id).0 j ≡ state_of w j
  pub apply-state :
      (w : client.World) (id : String) (v : client.Value) (j : String)
      → (client.apply_state w id v).1 ≡ ok tt
      → state_of (client.apply_state w id v).0 j ≡ (if str_eq id j then some v else state_of w j)
  pub apply-same :
      (w : client.World) (id : String) (v : client.Value) (e : SceneError) (j : String)
      → (client.apply_state w id v).1 ≡ err e
      → state_of (client.apply_state w id v).0 j ≡ state_of w j

abbrev is_undo_failure : Option Detail → Bool
is_undo_failure (some (rollback_failed e)) = true
is_undo_failure _ = false

-- No result reports a rollback that failed.
abbrev pub undone_ok : List DeviceApplyResult → Bool
undone_ok rs = all (λ r. not (is_undo_failure r.detail)) rs

module _ (client : DeviceRegistryClient) (law : Stateful client) where
  open law use {state_of}

  -- The states after each of these was written, in this order.
  abbrev pub written :
      (String → Option client.Value) → List (String × client.Value) → String → Option client.Value
  written f [] = f
  written f ((id, v) ∷ rest) = written (λ j. if str_eq id j then some v else f j) rest

  written-same :
      (f g : String → Option client.Value) (ps : List (String × client.Value))
      → ((j : String) → f j ≡ g j)
      → (j : String) → written f ps j ≡ written g ps j
  written-same f g [] h j = h j
  written-same f g ((id, v) ∷ ps) h j =
      written-same (λ k. if str_eq id k then some v else f k)
        (λ k. if str_eq id k then some v else g k) ps
        (λ k. ap (λ (t : Option client.Value). if str_eq id k then some v else t) (h k)) j

  -- Putting back what was recorded, the latest first, gives the states from before.
  Back : client.World → client.World → List (String × client.Value) → Type 0
  Back before w ps = (j : String) → written (state_of w) (reverse ps) j ≡ state_of before j

  Back-same :
      (before w w' : client.World) (ps : List (String × client.Value))
      → ((j : String) → state_of w' j ≡ state_of w j)
      → Back before w ps
      → Back before w' ps
  unfolding Back
  Back-same before w w' ps same b j =
      written-same (state_of w') (state_of w) (reverse ps) same j ∙ b j

  Back-apply :
      (before w w' : client.World) (ps : List (String × client.Value)) (id : String)
      (prev v : client.Value)
      → state_of w id ≡ some prev
      → ((j : String) → state_of w' j ≡ (if str_eq id j then some v else state_of w j))
      → Back before w ps
      → Back before w' (ps ++ (id, prev) ∷ [])
  unfolding Back
  Back-apply before w w' ps id prev v was set b j = rw (reverse-append ps ((id, prev) ∷ [])) (
      written-same (λ k. if str_eq id k then some prev else state_of w' k) (state_of w) (reverse ps)
        (λ k. ground (arith, set k, was, eq_iff id k)) j
      ∙ b j)

  after_apply-Back :
      (before w : client.World) (p : Progress client) (op : DeviceOperation client)
      (prev : client.Value) (x : client.World × Result SceneError (Unit {0}))
      → state_of w op.device_id ≡ some prev
      → (x.1 ≡ ok tt
          → (j : String)
          → state_of x.0 j ≡ (if str_eq op.device_id j then some op.state else state_of w j))
      → ((e : SceneError) → x.1 ≡ err e → (j : String) → state_of x.0 j ≡ state_of w j)
      → Back before w p.previous_states
      → let q = after_apply client p op prev x in Back before q.world q.previous_states
  unfolding after_apply
  after_apply-Back before w p op prev (w', ok u) was set same b =
      Back-apply before w w' p.previous_states op.device_id prev op.state was (set refl) b
  after_apply-Back before w p op prev (w', err e) was set same b =
      Back-same before w w' p.previous_states (same e refl) b

  after_fetch-Back :
      (before : client.World) (p : Progress client) (op : DeviceOperation client)
      (x : client.World × Result SceneError client.Value)
      → ((j : String) → state_of x.0 j ≡ state_of p.world j)
      → ((v : client.Value) → x.1 ≡ ok v → state_of p.world op.device_id ≡ some v)
      → Back before p.world p.previous_states
      → let q = after_fetch client p op x in Back before q.world q.previous_states
  unfolding after_fetch
  after_fetch-Back before p op (w, ok prev) same was b =
      after_apply-Back before w p op prev (client.apply_state w op.device_id op.state)
        (same op.device_id ∙ was prev refl) (λ e j. law.apply-state w op.device_id op.state j e)
        (λ e h j. law.apply-same w op.device_id op.state e j h)
        (Back-same before p.world w p.previous_states same b)
  after_fetch-Back before p op (w, err e) same was b =
      Back-same before p.world w p.previous_states same b

  apply_op-Back :
      (before : client.World) (p : Progress client) (op : DeviceOperation client)
      → Back before p.world p.previous_states
      → let q = apply_op client p op in Back before q.world q.previous_states
  unfolding apply_op
  apply_op-Back before p op b =
      if-cases (λ (q : Progress client). Back before q.world q.previous_states)
        p.failure_encountered _ _ (λ _. b)
        (λ _.
          after_fetch-Back before p op (client.fetch_state p.world op.device_id)
            (λ j. law.fetch-same p.world op.device_id j)
            (λ v h. law.fetch-state p.world op.device_id v h) b)

  apply_ops-Back :
      (before : client.World) (p : Progress client) (ops : List (DeviceOperation client))
      → Back before p.world p.previous_states
      → let q = apply_ops client p ops in Back before q.world q.previous_states
  unfolding apply_ops
  apply_ops-Back before p [] b = b
  apply_ops-Back before p (op ∷ ops) b =
      apply_ops-Back before (apply_op client p op) ops (apply_op-Back before p op b)

  undone_ok-append :
      (rs ss : List DeviceApplyResult) → undone_ok (rs ++ ss) ≡ (undone_ok rs && undone_ok ss)
  undone_ok-append [] ss = refl
  undone_ok-append (r ∷ rs) ss = ground (arith, undone_ok-append rs ss)

  undo_all-keeps :
      (w : client.World) (rs : List DeviceApplyResult) (ps : List (String × client.Value))
      → undone_ok (undo_all client w rs ps).1 ≡ true
      → undone_ok rs ≡ true
  unfolding undo_all
  undo_all-keeps w rs [] h = h
  undo_all-keeps w rs ((id, v) ∷ ps) h =
      let x = client.apply_state w id v in
      ground (
        arith,
        undo_all-keeps x.0 (rs ++ undo_result client id x.1 ∷ []) ps h,
        undone_ok-append rs (undo_result client id x.1 ∷ []),
      )

  undo_result-ok :
      (rs : List DeviceApplyResult) (id : String) (r : Result SceneError (Unit {0}))
      → undone_ok (rs ++ undo_result client id r ∷ []) ≡ true
      → r ≡ ok tt
  unfolding undo_result
  undo_result-ok rs id (ok u) h = refl
  undo_result-ok rs id (err e) h =
      absurd (ground (arith, undone_ok-append rs (undo_result client id (err e) ∷ [])))

  -- A rollback that reports no failure has written what it was given.
  undo_all-written :
      (w : client.World) (rs : List DeviceApplyResult) (ps : List (String × client.Value))
      → undone_ok (undo_all client w rs ps).1 ≡ true
      → (j : String) → state_of (undo_all client w rs ps).0 j ≡ written (state_of w) ps j
  unfolding undo_all
  undo_all-written w rs [] h j = refl
  undo_all-written w rs ((id, v) ∷ ps) h j =
      let x = client.apply_state w id v in
      let rs' = rs ++ undo_result client id x.1 ∷ [] in
      let done : x.1 ≡ ok tt = undo_result-ok rs id x.1 (undo_all-keeps x.0 rs' ps h) in
      undo_all-written x.0 rs' ps h j
      ∙ written-same (state_of x.0) (λ k. if str_eq id k then some v else state_of w k) ps
          (λ k. law.apply-state w id v k done) j

  finish-restores :
      (before : client.World) (p : Progress client)
      → Back before p.world p.previous_states
      → (finish client p).1.status ≢ SceneStatus.applied
      → undone_ok (finish client p).1.results ≡ true
      → (j : String) → state_of (finish client p).0 j ≡ state_of before j
  unfolding finish Back
  finish-restores before p b =
      if-cases
        (λ (q : client.World × SceneResponse).
          q.1.status ≢ SceneStatus.applied
          → undone_ok q.1.results ≡ true
          → (j : String) → state_of q.0 j ≡ state_of before j)
        p.failure_encountered _ _
        (λ _ _ h j. undo_all-written p.world p.results (reverse p.previous_states) h j ∙ b j)
        (λ _ bad. absurd (bad refl))

  -- When devices behave as `Stateful` says, a scene that does not end as applied, and in which no
  -- rollback was refused, leaves each device in the state it had before the scene.
  pub apply_scene-restores :
      (w : client.World) (ops : List (DeviceOperation client))
      → let x = apply_scene client w ops in
        x.1.status ≢ SceneStatus.applied
        → undone_ok x.1.results ≡ true
        → (j : String) → state_of x.0 j ≡ state_of w j
  unfolding apply_scene Back
  apply_scene-restores w ops =
      finish-restores w (apply_ops client (start client w) ops)
        (apply_ops-Back w (start client w) ops (λ j. refl))
