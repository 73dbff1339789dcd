-- ===== src/App/Ready.antt =====
-- When runCommand of pkg/app/app.go calls the function of the application, and which logger it finds.
use public_pkg.Common.{
  [], ◌∷◌, Option, none, some, ◌≡◌, refl, ◌⊎◌, inl, inr, Option-cases, if◌then◌else◌,
}
use public_pkg.Log.{Zap, ZapLogger, w, with_context_extractor}
use public_pkg.Log.Extractors.{init_forgets}
use public_pkg.BuildVersion.{VersionValue, not_set, enabled, raw}
use public_pkg.App.{Pflags, Target, App}
use public_pkg.App.Run.{
  Host, initialize_logger, announce, complete_options, validate_options, load_options, log_options,
  check_health, launch, run_command, last,
}

fails_or_not :
    {E W : Type 0} (x : Option E × W)
    → ((e : E) × (after : W) × (x ≡ (some e, after))) ⊎ ((after : W) × (x ≡ (none, after)))
fails_or_not (some e, after) = inl (e, after, refl)
fails_or_not (none, after) = inr (after, refl)

fails_or_not3 :
    {E V W : Type 0} (x : Option E × V × W)
    → ((e : E) × (value : V) × (after : W) × (x ≡ (some e, value, after)))
      ⊎ ((value : V) × (after : W) × (x ≡ (none, value, after)))
fails_or_not3 (some e, value, after) = inl (e, value, after, refl)
fails_or_not3 (none, value, after) = inr (value, after, refl)

module _ (z : Zap) (p : Pflags) (W E Ctx : Type 0) (host : Host z p W E) where
  -- After `initializeLogger` the global logger adds no field of a context, whatever extractors the application has.
  initialize_logger_forgets :
      (app : App p W E Ctx) (world : W) (std : ZapLogger z Ctx) (ctx : Ctx)
      → initialize_logger z p W E Ctx host app world ≡ some std
      → w z Ctx std ctx ≡ std
  unfolding initialize_logger
  initialize_logger_forgets app world std ctx h =
      init_forgets z Ctx (some (log_options (host.settings world)))
        (with_context_extractor z Ctx app.context_extractors ∷ []) std ctx h

  -- A value of the options is completed to another: by the method `Complete`, or, where they have none, not at all.
  abbrev pub Completed : (o : Target p W E) → o.Value → W → o.Value → W → Type 0
  Completed o value world completed done =
      ((o.complete ≡ none) × (completed ≡ value) × (done ≡ world))
      ⊎ ((f : o.Value → W → Option E × o.Value × W) × (o.complete ≡ some f)
          × (f value world ≡ (none, completed, done)))

  -- A value of the options is valid: so says the method `Validate`, or they have none.
  abbrev pub Validated : (o : Target p W E) → o.Value → W → W → Type 0
  Validated o value world checked =
      ((o.validate ≡ none) × (checked ≡ world))
      ⊎ ((f : o.Value → W → Option E × W) × (o.validate ≡ some f)
          × (f value world ≡ (none, checked)))

  -- The health check has no error, or there is none.
  abbrev pub Healthy : App p W E Ctx → W → W → Type 0
  Healthy app world start =
      ((app.health_check_func ≡ none) × (start ≡ world))
      ⊎ ((f : W → Option E × W) × (app.health_check_func ≡ some f) × (f world ≡ (none, start)))

  complete_options-Completed :
      (o : Target p W E) (value completed : o.Value) (world done : W)
      → complete_options z p W E Ctx host o value world ≡ (none, completed, done)
      → Completed o value world completed done
  complete_options-Completed o value completed world done h = elim (Option-cases o.complete) [
    | inl e ↦ let h' = rw (complete_options, e) at h in inl (e, cc h', cc h')
    | inr (f, e) ↦ inr (f, e, rw (complete_options, e) at h)
  ]

  validate_options-Validated :
      (o : Target p W E) (value : o.Value) (world checked : W)
      → validate_options z p W E Ctx host o value world ≡ (none, checked)
      → Validated o value world checked
  validate_options-Validated o value world checked h = elim (Option-cases o.validate) [
    | inl e ↦ let h' = rw (validate_options, e) at h in inl (e, cc h')
    | inr (f, e) ↦ inr (f, e, rw (validate_options, e) at h)
  ]

  check_health-Healthy :
      (app : App p W E Ctx) (world start : W)
      → check_health z p W E Ctx host app world ≡ (none, start)
      → Healthy app world start
  check_health-Healthy app world start h = elim (Option-cases app.health_check_func) [
    | inl e ↦ let h' = rw (check_health, e) at h in inl (e, cc h')
    | inr (f, e) ↦ inr (f, e, rw (check_health, e) at h)
  ]

  -- The options were read from the configuration, completed and validated, without an error.
  pub data Loaded : Option (Target p W E) → W → W → Type 1 where
    nothing : {world : W} → Loaded none world world
    loaded :
        {o : Target p W E} {world read done checked : W} {value completed : o.Value}
        → host.unmarshal o o.value world ≡ (none, value, read)
        → Completed o value read completed done
        → Validated o completed done checked
        → Loaded (some o) world checked

  -- Everything that comes before the function of the application: `start` is the world that it is called in.
  pub record Ready (app : App p W E Ctx) (flag : VersionValue) (world start : W) : Type 1 where
    pub bound : W
    pub checked : W
    pub std : ZapLogger z Ctx
    pub no_version : flag ≡ not_set
    pub binds : host.bind_pflags world ≡ (none, bound)
    pub loads : Loaded app.options bound checked
    pub logs : initialize_logger z p W E Ctx host app checked ≡ some std
    pub healthy :
        Healthy app
          (if app.silence then checked else announce z p W E Ctx host app std checked)
          start

  -- The options stop at an error, or are loaded.
  load_options-Loaded :
      (o : Option (Target p W E)) (world : W)
      → ((e : E) × (after : W) × (load_options z p W E Ctx host o world ≡ (some e, after)))
        ⊎ ((after : W) × (load_options z p W E Ctx host o world ≡ (none, after))
            × Loaded o world after)
  unfolding load_options
  load_options-Loaded none world = inr (world, refl, nothing)
  load_options-Loaded (some o) world = elim (fails_or_not3 (host.unmarshal o o.value world)) [
    | inl (e, value, read, h) ↦ inl (e, read, rw (load_options, h) refl)
    | inr (value, read, h) ↦ elim (fails_or_not3 (complete_options z p W E Ctx host o value read)) [
      | inl (e, completed, done, h') ↦ inl (e, done, rw (load_options, h, h') refl)
      | inr (completed, done, h') ↦
          elim (fails_or_not (validate_options z p W E Ctx host o completed done)) [
            | inl (e, after, h'') ↦ inl (e, after, rw (load_options, h, h', h'') refl)
            | inr (after, h'') ↦ inr (
              after,
              rw (load_options, h, h', h'') refl,
              loaded h (complete_options-Completed o value completed read done h')
                  (validate_options-Validated o completed done after h''),
            )
          ]
    ]
  ]

  abbrev pub with_run : App p W E Ctx → (W → Option E × W) → App p W E Ctx
  with_run app run = record app { run = run }

  -- `runCommand` calls the function of the application only when everything before it succeeded: no version was
  -- asked for, the flags were bound, the options read, completed and validated by the methods that they have, the
  -- logger built and the health check, if there is one, passed. Then it returns what the function returns.
  -- Otherwise its outcome is the same with any function.
  pub run_command-Ready :
      (app : App p W E Ctx) (flag : VersionValue) (world : W)
      → ((run : W → Option E × W)
          → run_command z p W E Ctx host (with_run app run) flag world
            ≡ run_command z p W E Ctx host app flag world)
        ⊎ ((start : W) × Ready app flag world start
            × ((run : W → Option E × W)
                → run_command z p W E Ctx host (with_run app run) flag world ≡ last (run start)))
  unfolding run_command launch
  run_command-Ready app enabled world = inl (λ run. refl)
  run_command-Ready app raw world = inl (λ run. refl)
  run_command-Ready app not_set world = elim (fails_or_not (host.bind_pflags world)) [
    | inl (e, bound, b) ↦ inl (λ run. rw (run_command, b) refl)
    | inr (bound, b) ↦ elim (load_options-Loaded app.options bound) [
      | inl (e, checked, l) ↦ inl (λ run. rw (run_command, b, l) refl)
      | inr (checked, l, loads) ↦
          elim (Option-cases (initialize_logger z p W E Ctx host app checked)) [
            | inl none_i ↦ inl (λ run. rw (run_command, b, l, none_i) refl)
            | inr (std, i) ↦
                elim (fails_or_not (
                  check_health z p W E Ctx host app
                    (if app.silence then checked else announce z p W E Ctx host app std checked))) [
                      | inl (e, after, h) ↦ inl (λ run. rw (run_command, b, l, i, h) refl)
                      | inr (start, h) ↦ inr (
                        start,
                        record {
                          bound = bound;
                          checked = checked;
                          std = std;
                          no_version = refl;
                          binds = b;
                          loads = loads;
                          logs = i;
                          healthy = check_health-Healthy app _ start h;
                        },
                        λ run. rw (run_command, b, l, i, h) refl,
                      )
                    ]
          ]
    ]
  ]
