-- ===== src/Modules/Loading/Errors.antt =====
-- What a call of `Load` or `Unload` (src/modules.cpp) that fails leaves behind.
use hottpd.Base.{
  ℕ, ◌≡◌, ◌⊎◌, inl, inr, refl, ◌∙◌, Bool, true, false, none, some, List, ◌==◌, if◌then◌else◌, Bytes,
  is_positive, arith, Bool-cases, Option-cases,
}
use mathlib.Core.Bool.{not, ◌&&◌}
use hottpd.Modules.{Handlers, detach_all}
use hottpd.Modules.Interfaces.{interface_instance_count}
use hottpd.Modules.Loading.{
  Exception, ModuleError, exception, incorrect_version, no_entrypoint, not_within_directory,
  no_such_file, already_loaded, library, open_threw, init_null, init_threw, init_module, version,
  version_threw, Library, Manager, find_module, attach_events, fail, open_library, check_version,
  init, load, load_file, load-file, is_file, mod_file, unload, marked_static, in_use, not_loaded,
}
use hottpd.Modules.Loading.Detached.{detach_all-attach_events, Absent, detach_all-Absent}

module _ {World : Type 0} (lib : Library World) where
  -- The handlers are those there were, or `init_module` has thrown and left some.
  abbrev pub Kept : List Handlers → List Handlers → Type 0
  Kept events after =
      (after ≡ events)
      ⊎ ((w : World) × (h : ℕ) × (a : ℕ) × (attached : List ℕ) × (e : Exception) × ((lib.call_init w
              h).0
            ≡ init_threw a attached e)
          × (after ≡ attach_events a attached events))

  pub record IsRefused (m : Manager World) (answer : Bool × Manager World) : Type 0 where
    pub fails : answer.0 ≡ false
    pub modules : answer.1.modules ≡ m.modules
    pub interfaces : answer.1.interfaces ≡ m.interfaces
    pub mod_count : answer.1.mod_count ≡ m.mod_count
    pub events : Kept m.events answer.1.events
    pub error : (e : ModuleError) × (answer.1.last_error ≡ some e)

  pub fail-IsRefused :
      (e : ModuleError) (m n : Manager World)
      → n.modules ≡ m.modules
      → n.interfaces ≡ m.interfaces
      → n.mod_count ≡ m.mod_count
      → Kept m.events n.events
      → IsRefused m (fail lib e n)
  fail-IsRefused e m n same faces count kept = record {
    fails = refl;
    modules = same;
    interfaces = faces;
    mod_count = count;
    events = kept;
    error = (e, refl);
  }

  -- A new object handles no event until its constructor attaches it.
  abbrev pub NewObjects : List Handlers → Type 0
  NewObjects events =
      (w : World) (h a : ℕ) (attached : List ℕ)
      → (lib.call_init w h).0 ≡ init_module a attached
      → Absent a events

  abbrev Outcome : Manager World → Bool × Manager World → Type 0
  Outcome m answer = (answer.0 ≡ true) ⊎ IsRefused m answer

  check_version-Outcome :
      (name : Bytes) (h a : ℕ) (m n : Manager World)
      → n.modules ≡ m.modules
      → n.interfaces ≡ m.interfaces
      → n.mod_count ≡ m.mod_count
      → detach_all a n.events ≡ m.events
      → Outcome m (check_version lib name h a n)
  unfolding check_version
  check_version-Outcome name h a m n same faces count left =
      let detached : Manager World = record n {
        events = detach_all a n.events;
        world = lib.dlclose (lib.delete_module n.world a) h;
      } in
      let refused : (e : ModuleError) → IsRefused m (fail lib e detached) =
        λ e. fail-IsRefused e m detached same faces count (inl left) in
      elim (lib.get_version n.world a)
          as (λ v. lib.get_version n.world a ≡ v → Outcome m (check_version lib name h a n)) [
            | version_threw e ↦ λ r. rw (check_version, r) (inr (refused (exception name e)))
            | version api ↦ λ r. elim (Bool-cases (api == lib.api_version)) [
              | inl ok ↦ rw (check_version, r, ok) (inl refl)
              | inr bad ↦ rw (check_version, r, bad) (inr (refused (incorrect_version name api)))
            ]
          ]
        refl

  init-Outcome :
      (name : Bytes) (h : ℕ) (m : Manager World)
      → NewObjects m.events
      → Outcome m (init lib name h m)
  unfolding init
  init-Outcome name h m new =
      let w : World = (lib.call_init m.world h).1 in
      elim ((lib.call_init m.world h).0)
          as (λ v. (lib.call_init m.world h).0 ≡ v → Outcome m (init lib name h m)) [
            | init_null ↦ λ r.
                rw (init, r)
                  (inr (
                    fail-IsRefused (no_entrypoint name) m (record m { world = lib.dlclose w h })
                      refl refl refl (inl refl)))
            | init_threw a attached e ↦ λ r.
                rw (init, r)
                  (inr (
                    fail-IsRefused (exception name e) m
                      (record m {
                        events = attach_events a attached m.events;
                        world = lib.dlclose w h;
                      })
                      refl refl refl (inr (m.world, h, a, attached, e, r, refl))))
            | init_module a attached ↦ λ r.
                rw (init, r)
                  (check_version-Outcome name h a m
                    (record m { events = attach_events a attached m.events; world = w }) refl refl
                    refl
                    (detach_all-attach_events a attached m.events
                      ∙ detach_all-Absent a m.events (new m.world h a attached r)))
          ]
        refl

  either :
      (m : Manager World) (b : Bool) (x y : Bool × Manager World)
      → Outcome m x
      → Outcome m y
      → Outcome m (if b then x else y)
  either m true x y h k = h
  either m false x y h k = k

  load_file-Outcome :
      (name : Bytes) (m : Manager World) → NewObjects m.events → Outcome m (load_file lib name m)
  unfolding load_file
  load_file-Outcome name m new =
      let w : World = (open_library lib (mod_file lib name) m.world).1 in
      let tried : Manager World = record m { world = w } in
      let here : (e : ModuleError) → Outcome m (fail lib e m) =
        λ e. inr (fail-IsRefused e m m refl refl refl (inl refl)) in
      let opened : Outcome m (elim (open_library lib (mod_file lib name) m.world).0 [
        | open_threw e ↦ fail lib (exception name e) tried
        | library h ↦ init lib name h tried
      ]) =
        elim (open_library lib (mod_file lib name) m.world).0
          as (λ o. Outcome m (elim o [
            | open_threw e ↦ fail lib (exception name e) tried
            | library h ↦ init lib name h tried
          ])) [
            | open_threw e ↦
                inr (fail-IsRefused (exception name e) m tried refl refl refl (inl refl))
            | library h ↦ elim (init-Outcome name h tried new) [
              | inl done ↦ inl done
              | inr r ↦ inr (record {
                fails = r.fails;
                modules = r.modules;
                interfaces = r.interfaces;
                mod_count = r.mod_count;
                events = r.events;
                error = r.error;
              })
            ]
          ] in
      either m (not (lib.dir_valid m.world (mod_file lib name))) _ _
        (here (not_within_directory name))
        (either m (not (lib.file_exists m.world (mod_file lib name))) _ _ (here (no_such_file name))
          (elim (find_module name m.modules)
            as (λ o. Outcome m (elim o [
              | some _ ↦ fail lib (already_loaded name) m
              | none ↦ elim (open_library lib (mod_file lib name) m.world).0 [
                | open_threw e ↦ fail lib (exception name e) tried
                | library h ↦ init lib name h tried
              ]
            ])) [ some v ↦ here (already_loaded name) | none ↦ opened ]))

  -- Take a name without `*` and `?`, of a file with `.so` in its name, and let no new object have the
  -- address of one that handles an event. `Load` answers; and if it returns false, the modules, the
  -- interfaces and the count are as before, an error is recorded, and so are the handlers of all events
  -- as before, unless `init_module` has thrown; then the events that it had attached before it threw
  -- have kept the object that was being made.
  pub load-IsRefused :
      (name : Bytes) (m : Manager World)
      → is_file lib name ≡ true
      → NewObjects m.events
      → (answer : Bool × Manager World) × (load lib name m ≡ some answer)
        × (answer.0 ≡ false → IsRefused m answer)
  load-IsRefused name m file new = (
    load_file lib name m,
    load-file lib name m file,
    λ failed. elim (load_file-Outcome name m new) [
      | inl done ↦ ground (arith, done, failed)
      | inr refused ↦ refused
    ],
  )

  -- `Unload` returns true just if the name is loaded, its module is not static, and the first
  -- interface that lists the module has no uses; if it returns false, nothing has changed but that an
  -- error is recorded.
  pub unload-refuses :
      (name : Bytes) (m : Manager World)
      → ((unload lib name m).0 ≡ elim (find_module name m.modules) [
        | none ↦ false
        | some v ↦
            not (lib.is_static m.world v.object)
            && not (is_positive (interface_instance_count v.object m.interfaces).0)
      ])
        × ((unload lib name m).0 ≡ false
            → (e : ModuleError) × ((unload lib name m).1 ≡ record m { last_error = some e }))
  unfolding unload
  unload-refuses name m = elim (Option-cases (find_module name m.modules)) [
    | inl absent ↦ rw (unload, absent) (refl, λ failed. (not_loaded name, refl))
    | inr (v, present) ↦ elim (Bool-cases (lib.is_static m.world v.object)) [
      | inl e ↦ rw (unload, present, e) (refl, λ failed. (marked_static name, refl))
      | inr e ↦ elim (Bool-cases (is_positive (interface_instance_count v.object m.interfaces).0)) [
        | inl u ↦
            rw (unload, present, e, u)
              (
                refl,
                λ failed. (
                  in_use name (interface_instance_count v.object m.interfaces).0
                      (interface_instance_count v.object m.interfaces).1,
                  refl,
                ),
              )
        | inr u ↦ rw (unload, present, e, u) (refl, λ failed. ground (arith, failed))
      ]
    ]
  ]
