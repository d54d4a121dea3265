-- ===== src/MultiMode/Steps.antt =====
-- The life of the controller of multi_mode_controller.cpp after its activation: requests to
-- `setControllersCallback` and cycles of `update`, in any order. The mutex makes each one step.
use mathlib.Core.Option.{some-injective}
use franka_gazebo.Prelude.{
  ℕ, suc, ◌≡◌, ◌≢◌, inl, inr, refl, sym, ap, ◌∙◌, arith, Bool, true, none, some, List, [], ◌∷◌,
  length, All,
}
use franka_gazebo.MultiMode.ControlSet.{
  Controller, ControllerMsg, ModeArm, MultiModeController, set_controllers_callback,
}
use franka_gazebo.MultiMode.ControlSet.Exclusive.{IsWired}
use franka_gazebo.MultiMode.ControlSet.Service.{InStep, IsStocked, set_controllers_callback_lem}
use franka_gazebo.MultiMode.Torques.{compute_tau, compute_all, update}
use franka_gazebo.MultiMode.Torques.Delivered.{length-compute_tau}
use franka_gazebo.MultiMode.Setup.Pointers.{
  IsNamed, HasPointers, name_at-compute_all, IsWiredTo-HasPointers,
}
use franka_gazebo.MultiMode.Setup.{Setting, on_configure, on_activate}
use franka_gazebo.MultiMode.Setup.Readiness.{on_configure-on_activate}

module _ {D : Type 0} where
  pub data Step (c c' : MultiModeController D) : Type 0 where
    serves :
        (req : List ControllerMsg) (done : Bool)
        → set_controllers_callback c req ≡ some (c', done)
        → Step c c'
    updates : (torque : Controller → ℕ → List D) → c' ≡ (update torque c).0 → Step c c'

  pub data Reach (c : MultiModeController D) : MultiModeController D → Type 0 where
    here : Reach c c
    next : {k l : MultiModeController D} → Reach c k → Step k l → Reach c l

  pub record IsReady (c : MultiModeController D) : Type 0 where
    pub wired : IsWired c
    pub stocked : IsStocked c
    pub in_step : InStep c
    pub named : IsNamed c.robot_index c.arms

  length-compute_all :
      (torque : Controller → ℕ → List D) (xs : List Controller) (arms : List (ModeArm D))
      → length (compute_all torque xs arms) ≡ length arms
  unfolding compute_all
  length-compute_all torque [] arms = refl
  length-compute_all torque (x ∷ xs) arms =
      length-compute_all torque xs (compute_tau x.tau (torque x) arms)
      ∙ length-compute_tau x.tau (torque x) arms

  update-IsReady :
      (torque : Controller → ℕ → List D) (c : MultiModeController D)
      → IsReady c
      → IsReady (update torque c).0
  unfolding update
  update-IsReady torque c h = record {
    wired = record {
      in_range =
          λ r. rw (length-compute_all torque c.active_control_set c.arms) (h.wired.in_range r);
      resources = h.wired.resources;
      active = h.wired.active;
    };
    stocked = h.stocked;
    in_step = h.in_step;
    named = λ r i e. name_at-compute_all torque c.active_control_set c.arms i ∙ h.named r i e;
  }

  set_controllers_callback-arms :
      (c c' : MultiModeController D) (req : List ControllerMsg) (done : Bool)
      → set_controllers_callback c req ≡ some (c', done)
      → (c'.arms ≡ c.arms) × (c'.robot_index ≡ c.robot_index)
  unfolding set_controllers_callback
  set_controllers_callback-arms c c' req done e = ground arith

  set_controllers_callback-IsReady :
      (c c' : MultiModeController D) (req : List ControllerMsg) (done : Bool)
      → IsReady c
      → set_controllers_callback c req ≡ some (c', done)
      → IsReady c'
  set_controllers_callback-IsReady c c' req done h e =
      let there = set_controllers_callback-arms c c' req done e in
      elim (set_controllers_callback_lem c req h.wired h.stocked h.in_step) [
        | inl p ↦
            let same : c ≡ c' = ap (λ x. x.0) (some-injective _ _ (sym p ∙ e)) in rw (← same) h
        | inr (new, p, served) ↦
            let same : new ≡ c' = ap (λ x. x.0) (some-injective _ _ (sym p ∙ e)) in
            rw (← same) record {
              wired = served.wired;
              stocked = served.stocked;
              in_step = served.in_step;
              named = rw (same, there.0, there.1) h.named;
            }
      ]

  set_controllers_callback-ne-none :
      (c : MultiModeController D) (req : List ControllerMsg)
      → IsReady c
      → set_controllers_callback c req ≢ none
  set_controllers_callback-ne-none c req h e =
      elim (set_controllers_callback_lem c req h.wired h.stocked h.in_step) [
        | inl p ↦ ground (arith, p)
        | inr (new, p, served) ↦ ground (arith, p)
      ]

  Reach-IsReady : (c c' : MultiModeController D) → Reach c c' → IsReady c → IsReady c'
  Reach-IsReady c c' here h = h
  Reach-IsReady c c' (next {k = k} path (serves req done e)) h =
      set_controllers_callback-IsReady k c' req done (Reach-IsReady c k path h) e
  Reach-IsReady c c' (next {k = k} path (updates torque e)) h =
      rw e (update-IsReady torque k (Reach-IsReady c k path h))

  -- After a configuration for at least one arm that returns SUCCESS and an activation, in every history of
  -- requests and cycles, the running controllers are the active ones, and no request whatsoever ends in an
  -- exception. Every active controller has a pointer for each name of its resource, in this order, to the
  -- arm that has this name, or, where no arm is known under the name, to the first arm.
  pub on_activate-IsReady :
      (s : Setting) (tau : List D) (n : ℕ) (c c' : MultiModeController D)
      → on_configure s tau (suc n) ≡ some (c, true)
      → Reach (on_activate c) c'
      → IsReady c'
        × All (HasPointers c'.robot_index c'.arms) c'.active_control_set
        × ((req : List ControllerMsg) → set_controllers_callback c' req ≢ none)
  on_activate-IsReady s tau n c c' e path =
      let (wired, stocked, in_step, named) = on_configure-on_activate s tau n c e in
      let h =
        Reach-IsReady (on_activate c) c' path
          (record { wired = wired; stocked = stocked; in_step = in_step; named = named }) in
      (
        h,
        IsWiredTo-HasPointers c'.robot_index c'.arms c'.active_control_set h.named h.wired.active,
        λ req. set_controllers_callback-ne-none c' req h,
      )
