-- ===== src/Modules/Loading/Sound.antt =====
-- The handlers of the events while modules are loaded and unloaded (src/modules.cpp): each belongs
-- to a module that is loaded.
use hottpd.Base.{
  ℕ, ◌≡◌, ◌≢◌, inl, inr, refl, ◌∙◌, Bool, true, false, none, some, List, [], ◌∷◌, ◌==◌,
  if◌then◌else◌, Bytes, eq_bytes_iff, eq_bytes_refl, is_positive, arith, Bool-cases, Option-cases,
}
use mathlib.Core.Bool.{not}
use mathlib.Core.Path.{subst}
use hottpd.Modules.{Handlers}
use hottpd.Modules.Interfaces.{interface_instance_count}
use hottpd.Modules.Loading.{
  Exception, init_null, init_threw, init_module, version, version_threw, library, open_threw,
  open_library, mod_file, fail, exception, already_loaded, Library, Loaded, Modules, Manager,
  find_module, attach_events, check_version, init, load, load_file, load-file, is_file, unload,
  insert_module, prioritize_all,
}
use hottpd.Modules.Loading.Errors.{NewObjects, IsRefused, load-IsRefused}
use hottpd.Modules.Loading.Attached.{
  find-insert, Owned, Sound, attach_events-Sound, set_priorities-Sound, Sound-more,
  detach_all-Sound,
}

refused : {P : Type 0} → false ≡ true → P
refused e = ground (arith, e)

module _ {World : Type 0} (lib : Library World) where
  prioritize_all-Sound :
      (all modules : Modules) (events : List Handlers)
      → Sound all events
      → Sound all (prioritize_all lib modules events)
  unfolding prioritize_all
  prioritize_all-Sound all [] events s = s
  prioritize_all-Sound all ((k, v) ∷ rest) events s =
      prioritize_all-Sound all rest _
        (set_priorities-Sound all v.object (lib.prioritize v.object) events s)

  abbrev pub IsSound : Manager World → Type 0
  IsSound m = Sound m.modules m.events

  abbrev Fine : Bool × Manager World → Type 0
  Fine answer = answer.0 ≡ true → IsSound answer.1

  check_version-Fine :
      (name : Bytes) (h a : ℕ) (attached : List ℕ) (m : Manager World) (w : World)
      → find_module name m.modules ≡ none
      → IsSound m
      → Fine (
          check_version lib name h a
            (record m { events = attach_events a attached m.events; world = w }))
  unfolding check_version
  check_version-Fine name h a attached m w free s =
      let v : Loaded = record { handle = h; object = a } in
      let all : Modules = insert_module name v m.modules in
      let more : Sound all m.events =
        Sound-more m.modules all m.events
          (λ x. λ (other, u, found, is). (
            other,
            u,
            find-insert name other v m.modules free
                ∙ ground (arith, eq_bytes_iff name other, free, found),
            is,
          ))
          s in
      let own : Owned all a =
        (name, v, find-insert name name v m.modules free ∙ rw (eq_bytes_refl name) refl, refl) in
      let done : Sound all (prioritize_all lib all (attach_events a attached m.events)) =
        prioritize_all-Sound all all _ (attach_events-Sound all a attached m.events own more) in
      elim (lib.get_version w a)
          as (λ r.
            lib.get_version w a ≡ r
            → Fine (
                check_version lib name h a
                  (record m { events = attach_events a attached m.events; world = w }))) [
                    | version_threw e ↦ λ r. rw (check_version, r) (λ done. refused done)
                    | version api ↦ λ r. elim (Bool-cases (api == lib.api_version)) [
                      | inl ok ↦ rw (check_version, r, ok) (λ _. done)
                      | inr bad ↦ rw (check_version, r, bad) (λ done. refused done)
                    ]
                  ]
        refl

  -- No constructor throws.
  abbrev pub NoneThrows : Type 0
  NoneThrows =
      (w : World) (h a : ℕ) (attached : List ℕ) (e : Exception)
      → (lib.call_init w h).0 ≢ init_threw a attached e

  init-Fine :
      (name : Bytes) (h : ℕ) (m : Manager World)
      → find_module name m.modules ≡ none
      → IsSound m
      → Fine (init lib name h m)
  unfolding init
  init-Fine name h m free s =
      let w : World = (lib.call_init m.world h).1 in
      elim ((lib.call_init m.world h).0)
          as (λ v. (lib.call_init m.world h).0 ≡ v → Fine (init lib name h m)) [
            | init_null ↦ λ r. rw (init, r) (λ done. refused done)
            | init_threw a attached e ↦ λ r. rw (init, r) (λ done. refused done)
            | init_module a attached ↦
                λ r. rw (init, r) (check_version-Fine name h a attached m w free s)
          ]
        refl

  either : (b : Bool) (x y : Bool × Manager World) → Fine x → Fine y → Fine (if b then x else y)
  either true x y h k = h
  either false x y h k = k

  pub load_file-Fine : (name : Bytes) (m : Manager World) → IsSound m → Fine (load_file lib name m)
  unfolding load_file
  load_file-Fine name m s =
      let tried : Manager World = record m {
        world = (open_library lib (mod_file lib name) m.world).1;
      } in
      let opened : Bool × Manager World = elim (open_library lib (mod_file lib name) m.world).0 [
        | open_threw e ↦ fail lib (exception name e) tried
        | library h ↦ init lib name h tried
      ] in
      either (not (lib.dir_valid m.world (mod_file lib name))) _ _ (λ done. refused done)
        (either (not (lib.file_exists m.world (mod_file lib name))) _ _ (λ done. refused done)
          (elim (find_module name m.modules)
              as (λ o.
                find_module name m.modules ≡ o
                → Fine (elim o [ some _ ↦ fail lib (already_loaded name) m | none ↦ opened ])) [
                  | some v ↦ λ r. λ done. refused done
                  | none ↦ λ r.
                      elim (open_library lib (mod_file lib name) m.world).0
                        as (λ o. Fine (elim o [
                          | open_threw e ↦ fail lib (exception name e) tried
                          | library h ↦ init lib name h tried
                        ])) [
                          | open_threw e ↦ λ done. refused done
                          | library h ↦ init-Fine name h tried r s
                        ]
                ]
            refl))

  -- Take a name without `*` and `?`, of a file with `.so` in its name, and let each handler of an event
  -- stand once, and be a module that is loaded. Then `Load` answers, and this is so after it, whether
  -- it succeeds or not, if no constructor throws and no new object has the address of one that handles
  -- an event.
  pub load-Sound :
      (name : Bytes) (m : Manager World)
      → is_file lib name ≡ true
      → NewObjects lib m.events
      → NoneThrows
      → IsSound m
      → (answer : Bool × Manager World) × (load lib name m ≡ some answer) × IsSound answer.1
  load-Sound name m file new none_throws s =
      let (answer, loads, refuses) = load-IsRefused lib name m file new in
      let same : load_file lib name m ≡ answer = ground (arith, load-file lib name m file, loads) in
      (
        answer,
        loads,
        elim (Bool-cases answer.0) [
          | inl done ↦
              subst (λ (a : Bool × Manager World). a.0 ≡ true → IsSound a.1) same
                (load_file-Fine name m s) done
          | inr failed ↦
              let r : IsRefused lib m answer = refuses failed in
              elim r.events [
                | inl kept ↦ rw (r.modules, kept) s
                | inr (w, h, a, attached, e, threw, _) ↦ absurd (none_throws w h a attached e threw)
              ]
        ],
      )

  -- If each handler of an event stands once and is a module that is loaded, then so it is after
  -- `Unload`, whatever it answers: a module that is unloaded handles no event.
  pub unload-Sound : (name : Bytes) (m : Manager World) → IsSound m → IsSound (unload lib name m).1
  unfolding unload
  unload-Sound name m s = elim (Option-cases (find_module name m.modules)) [
    | inl absent ↦ rw (unload, absent) s
    | inr (v, present) ↦ elim (Bool-cases (lib.is_static m.world v.object)) [
      | inl e ↦ rw (unload, present, e) s
      | inr e ↦ elim (Bool-cases (is_positive (interface_instance_count v.object m.interfaces).0)) [
        | inl u ↦ rw (unload, present, e, u) s
        | inr u ↦ rw (unload, present, e, u) (detach_all-Sound m.modules name v m.events present s)
      ]
    ]
  ]
