-- ===== src/MultiMode/Setup/Readiness.antt =====
-- The controller of multi_mode_controller.cpp after `on_configure` and `on_activate`.
use franka_gazebo.Prelude.{
  ℕ, suc, ◌+◌, ◌≡◌, refl, ◌∙◌, arith, Bool, true, false, Option, none, some, List, [], ◌∷◌, ◌++◌,
  Name, codes, Option-cases, Bool-cases, inl, inr,
}
use franka_gazebo.MultiMode.ControlSet.{
  ControllerInfo, Controller, MultiModeController, value, Outcome-cases, get_control_set_from_info,
}
use franka_gazebo.MultiMode.ControlSet.Exclusive.{IsWired, get_control_set_from_info_lem}
use franka_gazebo.MultiMode.ControlSet.Service.{IsStocked, InStep, runs_after-starts}
use franka_gazebo.MultiMode.Setup.{
  Setting, configure_arms, add_resources, add_controllers, start_infos, start_controllers,
  init_controllers, unconfigured, on_configure, engines_ready, on_activate,
}
use franka_gazebo.MultiMode.Setup.Pointers.{IsNamed}
use franka_gazebo.MultiMode.Setup.Wiring.{
  IsPrepared, IsArmed, configure_arms-IsArmed, IsArmed-IsPrepared, add_resources-IsPrepared,
}

module _ {D : Type 0} where
  -- A result, if there is one, is a prepared controller.
  abbrev GivesPrepared : Option (MultiModeController D × Bool) → Type 0
  GivesPrepared none = Unit
  GivesPrepared (some (c, b)) = IsPrepared c

  add_controllers-IsPrepared :
      (s : Setting) (names : List Name) (c : MultiModeController D)
      → IsPrepared c
      → GivesPrepared (add_controllers s names c)
  unfolding add_controllers
  add_controllers-IsPrepared s [] c h = h
  add_controllers-IsPrepared s (n ∷ ns) c h =
      by_resources (s.strings (codes "resources." ++ n)) (add_controllers-IsPrepared s ns) refl
    where
      by_resources :
          (rs : List Name)
          → ((k : MultiModeController D) → IsPrepared k → GivesPrepared (add_controllers s ns k))
          → s.strings (codes "resources." ++ n) ≡ rs
          → GivesPrepared (add_controllers s (n ∷ ns) c)
      by_resources [] ih e = rw (e, add_controllers) h
      by_resources (r ∷ rs) ih e = elim (Bool-cases (s.is_registered n)) [
        | inl q ↦
            rw (e, add_controllers, q)
              (ih (add_resources n (r ∷ rs) c) (add_resources-IsPrepared n (r ∷ rs) c h))
        | inr q ↦ rw (e, add_controllers, q) tt
      ]

  activated-IsPrepared :
      (c : MultiModeController D) (is : List ControllerInfo) (new : List Controller)
      → IsPrepared c
      → get_control_set_from_info c is ≡ value new
      → IsPrepared (record c { active_control_set = new })
  activated-IsPrepared c is new h e = record {
    wired = record {
      in_range = h.wired.in_range;
      resources = h.wired.resources;
      active = (get_control_set_from_info_lem c is new h.wired e).1;
    };
    stocked = h.stocked;
    named = h.named;
    silent = h.silent;
  }

  start_controllers-IsPrepared :
      (s : Setting) (c : MultiModeController D)
      → IsPrepared c
      → GivesPrepared (start_controllers s c)
  start_controllers-IsPrepared s c h = by_names (s.strings (codes "start_controllers.names")) refl
    where
      by_names :
          (ns : List Name)
          → s.strings (codes "start_controllers.names") ≡ ns
          → GivesPrepared (start_controllers s c)
      by_names [] e = rw (e, start_controllers) h
      by_names (n ∷ ns) e = elim (Option-cases (start_infos s (n ∷ ns))) [
        | inl p ↦ rw (start_controllers, e, p) h
        | inr (is, p) ↦ elim (Outcome-cases (get_control_set_from_info c is)) [
          | inl q ↦ rw (start_controllers, e, p, q) h
          | inr (inl q) ↦ rw (start_controllers, e, p, q) tt
          | inr (inr (new, q)) ↦ elim (Bool-cases (engines_ready s c)) [
            | inl r ↦ rw (start_controllers, e, p, q, r) (activated-IsPrepared c is new h q)
            | inr r ↦ rw (start_controllers, e, p, q, r) h
          ]
        ]
      ]

  init_controllers-IsPrepared :
      (s : Setting) (c : MultiModeController D)
      → IsPrepared c
      → GivesPrepared (init_controllers s c)
  unfolding init_controllers
  init_controllers-IsPrepared s c h = by_names (s.strings (codes "controllers")) refl
    where
      by_names :
          (ns : List Name)
          → s.strings (codes "controllers") ≡ ns
          → GivesPrepared (init_controllers s c)
      by_names [] e = rw (init_controllers, e) h
      by_names (n ∷ ns) e = by_result (add_controllers s (n ∷ ns) c) refl
        where
          by_result :
              (o : Option (MultiModeController D × Bool))
              → add_controllers s (n ∷ ns) c ≡ o
              → GivesPrepared (init_controllers s c)
          by_result none p = rw (init_controllers, e, p) tt
          by_result (some (c', false)) p =
              let v = add_controllers-IsPrepared s (n ∷ ns) c h in
              rw (init_controllers, e, p) (rw p at v)
          by_result (some (c', true)) p =
              let v = add_controllers-IsPrepared s (n ∷ ns) c h in
              rw (init_controllers, e, p) (start_controllers-IsPrepared s c' (rw p at v))

  unconfigured-IsArmed : IsArmed 0 (unconfigured {D = D})
  unconfigured-IsArmed = record {
    size = refl;
    in_range = λ r i e. absurd (cc);
    named = λ r i e. absurd (cc);
    no_resources = refl;
    no_controllers = refl;
    none_active = refl;
    silent = refl;
  }

  on_configure-IsPrepared :
      (s : Setting) (tau : List D) (n : ℕ) (c : MultiModeController D)
      → on_configure s tau (suc n) ≡ some (c, true)
      → IsPrepared c
  unfolding on_configure
  on_configure-IsPrepared s tau n c e = by_arms (configure_arms s tau (suc n) 0 unconfigured) refl
    where
      by_arms :
          (o : MultiModeController D × Bool)
          → configure_arms s tau (suc n) 0 unconfigured ≡ o
          → IsPrepared c
      by_arms (k, false) p = absurd (ground (arith, p))
      by_arms (k, true) p =
          let size : suc n + 0 ≡ suc n = omega arith in
          let armed =
            configure_arms-IsArmed s tau (suc n) 0 unconfigured k unconfigured-IsArmed p in
          let v = init_controllers-IsPrepared s k (IsArmed-IsPrepared n k (rw size at armed)) in
          elim (Option-cases (init_controllers s k)) [
            | inl q ↦ absurd (ground (arith, p, q))
            | inr ((k', done), q) ↦
                let same : k' ≡ c = ground (arith, p, q) in rw (← same) (rw q at v)
          ]

  -- If the configuration of a controller for at least one arm returns SUCCESS, the activated controller
  -- has what the service relies on: all indices are in range, every controller has the pointers that
  -- `robot_index_` gives for its resource, every resource of a controller has its pointers, the running
  -- controllers are the active ones, and each index is that of the arm with the name. This holds also where `initControllers` has failed.
  pub on_configure-on_activate :
      (s : Setting) (tau : List D) (n : ℕ) (c : MultiModeController D)
      → on_configure s tau (suc n) ≡ some (c, true)
      → IsWired (on_activate c)
        × IsStocked (on_activate c)
        × InStep (on_activate c)
        × IsNamed (on_activate c).robot_index (on_activate c).arms
  unfolding on_activate
  on_configure-on_activate s tau n c e =
      let v = on_configure-IsPrepared s tau n c e in
      (
        record {
          in_range = v.wired.in_range;
          resources = v.wired.resources;
          active = v.wired.active;
        },
        v.stocked,
        λ i. rw v.silent (runs_after-starts i false c.active_control_set ∙ ground arith),
        v.named,
      )
