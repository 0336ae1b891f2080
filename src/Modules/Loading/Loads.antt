-- ===== src/Modules/Loading/Loads.antt =====
-- What a call of `Load` (src/modules.cpp) that succeeds does to the map of the modules.
use hottpd.Base.{
  ℕ, ◌≡◌, inl, inr, refl, ◌∙◌, Bool, true, false, none, some, ◌==◌, if◌then◌else◌, Bytes,
  eq_bytes_iff, eq_bytes_refl, arith, Bool-cases,
}
use mathlib.Core.Bool.{not}
use hottpd.Modules.Loading.{
  exception, already_loaded, library, open_threw, init_null, init_threw, init_module, version,
  version_threw, Library, Loaded, Manager, Modules, find_module, fail, open_library, check_version,
  init, load_file, mod_file,
}
use hottpd.Modules.Loading.Attached.{find-insert}

-- A module has this name.
abbrev pub Has : Bytes → Modules → Type 0
Has name modules = (v : Loaded) × (find_module name modules ≡ some v)

-- Every module that is in one map is in the other.
abbrev pub Extends : Modules → Modules → Type 0
Extends modules more =
    (name : Bytes) (v : Loaded) → find_module name modules ≡ some v → find_module name more ≡ some v

module _ {World : Type 0} (lib : Library World) where
  abbrev pub Adds : Bytes → Modules → Bool × Manager World → Type 0
  Adds name modules answer =
      answer.0 ≡ true → Has name answer.1.modules × Extends modules answer.1.modules

  refused : {A : Type 0} → false ≡ true → A
  refused e = absurd (ground (arith, e))

  check_version-Adds :
      (name : Bytes) (h a : ℕ) (m : Manager World)
      → find_module name m.modules ≡ none
      → Adds name m.modules (check_version lib name h a m)
  unfolding check_version
  check_version-Adds name h a m free =
      let v : Loaded = record { handle = h; object = a } in
      elim (lib.get_version m.world a)
          as (λ r.
            lib.get_version m.world a ≡ r → Adds name m.modules (check_version lib name h a m)) [
              | version_threw e ↦ λ r. rw (check_version, r) (λ done. refused done)
              | version api ↦ λ r. elim (Bool-cases (api == lib.api_version)) [
                | inl ok ↦
                    rw (check_version, r, ok)
                      (λ _. (
                        (v, find-insert name name v m.modules free ∙ rw (eq_bytes_refl name) refl),
                        λ other u found.
                            find-insert name other v m.modules free
                            ∙ ground (arith, eq_bytes_iff name other, free, found),
                      ))
                | inr bad ↦ rw (check_version, r, bad) (λ done. refused done)
              ]
            ]
        refl

  init-Adds :
      (name : Bytes) (h : ℕ) (m : Manager World)
      → find_module name m.modules ≡ none
      → Adds name m.modules (init lib name h m)
  unfolding init
  init-Adds name h m free =
      elim ((lib.call_init m.world h).0)
          as (λ v. (lib.call_init m.world h).0 ≡ v → Adds name m.modules (init lib name h m)) [
            | init_null ↦ λ r. rw (init, r) (λ done. refused done)
            | init_threw a attached e ↦ λ r. rw (init, r) (λ done. refused done)
            | init_module a attached ↦ λ r. rw (init, r) (check_version-Adds name h a _ free)
          ]
        refl

  either :
      (name : Bytes) (modules : Modules) (b : Bool) (x y : Bool × Manager World)
      → Adds name modules x
      → Adds name modules y
      → Adds name modules (if b then x else y)
  either name modules true x y h k = h
  either name modules false x y h k = k

  -- After `Load` has succeeded for one file its module is there, with all that were there before.
  pub load_file-Adds :
      (name : Bytes) (m : Manager World) → Adds name m.modules (load_file lib name m)
  unfolding load_file
  load_file-Adds name m =
      let tried : Manager World = record m {
        world = (open_library lib (mod_file lib name) m.world).1;
      } in
      let opened : Bool × Manager World = elim (open_library lib (mod_file lib name) m.world).0 [
        | open_threw e ↦ fail lib (exception name e) tried
        | library h ↦ init lib name h tried
      ] in
      either name m.modules (not (lib.dir_valid m.world (mod_file lib name))) _ _
        (λ done. refused done)
        (either name m.modules (not (lib.file_exists m.world (mod_file lib name))) _ _
          (λ done. refused done)
          (elim (find_module name m.modules)
              as (λ o.
                find_module name m.modules ≡ o
                → Adds name m.modules
                    (elim o [ some _ ↦ fail lib (already_loaded name) m | none ↦ opened ])) [
                      | some v ↦ λ r. λ done. refused done
                      | none ↦ λ r.
                          elim (open_library lib (mod_file lib name) m.world).0
                            as (λ o. Adds name m.modules (elim o [
                              | open_threw e ↦ fail lib (exception name e) tried
                              | library h ↦ init lib name h tried
                            ])) [
                              | open_threw e ↦ λ done. refused done
                              | library h ↦ init-Adds name h tried r
                            ]
                    ]
            refl))
