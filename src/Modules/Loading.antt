-- ===== src/Modules/Loading.antt =====
-- src/modules.cpp: `ModuleManager::Load` for the name of one file with `.so`, `Unload`, and src/dynamic.cpp
-- and include/dynamic.h (`DLLManager`, `DLLFactory`), as far as `Load` sees them. A module that is
-- loaded is its library's handle with the address of the object. What modules themselves do is
-- `Library`: which events a constructor attaches, which priorities a module asks for, and their
-- effect on the world; they leave the lists of the manager to the calls modelled here.
pub mod Detached
pub mod Errors
pub mod Attached
pub mod Sound
pub mod Loads
pub mod Tests
use hottpd.Base.{
  ℕ, zero, suc, ◌+◌, ◌-◌, Bool, true, false, Option, none, some, List, [], ◌∷◌, ◌++◌, ◌==◌,
  if◌then◌else◌, Bytes, codes, eq_bytes, take, ℤ, increment, decrement, is_positive, find_char,
  find_text, ◌≡◌, refl, ◌&&◌,
}
use mathlib.Core.Bool.{not}
use hottpd.Modules.{Handlers, PriorityState, attach, detach_all, set_priority}
use hottpd.Modules.Interfaces.{Interfaces, precedes, interface_instance_count}

pub data Exception : Type 0 where
  load_module_exception find_symbol_exception core_exception : Bytes → Exception

-- The texts of `LastModuleError`, each with the file that it names.
pub data ModuleError : Type 0 where
  not_within_directory no_such_file already_loaded : Bytes → ModuleError
  incorrect_version : Bytes → ℕ → ModuleError
  no_entrypoint : Bytes → ModuleError
  exception : Bytes → Exception → ModuleError
  marked_static : Bytes → ModuleError
  in_use : Bytes → ℤ → Bytes → ModuleError
  not_loaded : Bytes → ModuleError

pub data Opened : Type 0 where
  library : ℕ → Opened
  open_threw : Exception → Opened

-- `init_module`: the events that the constructor attaches, by their number, and the object's
-- address, if there is one.
pub data Init : Type 0 where
  init_null : Init
  init_threw : ℕ → List ℕ → Exception → Init
  init_module : ℕ → List ℕ → Init

pub data Version : Type 0 where
  version : (api : ℕ) → Version
  version_threw : Exception → Version

-- The system and the modules. `dir_valid` and `file_exists` are `ServerConfig::DirValid` and
-- `FileExists`, which ask the system. `get_version` is the `GetVersion` of a new object; that of a
-- module that is loaded returns, and `is_static` is its flag VF_STATIC.
pub record Library (World : Type 0) : Type 0 where
  pub mod_path : Bytes
  pub max_buf : ℕ
  pub api_version : ℕ
  pub dir_valid : World → Bytes → Bool
  pub file_exists : World → Bytes → Bool
  pub dlopen : World → Bytes → Opened × World
  pub dlsym : World → ℕ → Option Exception
  pub dlclose : World → ℕ → World
  pub call_init : World → ℕ → Init × World
  pub get_version : World → ℕ → Version
  pub is_static : World → ℕ → Bool
  pub delete_module : World → ℕ → World
  pub on_load_module : World → ℕ → Bytes → World
  pub on_unload_module : World → ℕ → Bytes → World
  pub prioritize : ℕ → List (ℕ × PriorityState)

pub record Loaded : Type 0 where
  pub handle : ℕ
  pub object : ℕ

abbrev pub Modules : Type 0
Modules = List (Bytes × Loaded)

pub record Manager (World : Type 0) : Type 0 where
  pub modules : Modules
  pub events : List Handlers
  pub interfaces : Interfaces
  pub mod_count : ℤ
  pub last_error : Option ModuleError
  pub world : World

unfoldable pub find_module : Bytes → Modules → Option Loaded
unfolding eq_bytes
find_module name [] = none
find_module name ((k, v) ∷ rest) = if eq_bytes k name then some v else find_module name rest

-- `Modules[name] = v` for a name that has no module.
unfoldable pub insert_module : Bytes → Loaded → Modules → Modules
unfolding precedes
insert_module name v [] = (name, v) ∷ []
insert_module name v ((k, w) ∷ rest) =
    let onward = insert_module name v rest in
    if precedes name k then (name, v) ∷ (k, w) ∷ rest else (k, w) ∷ onward

unfoldable pub erase_module : Bytes → Modules → Modules
unfolding eq_bytes
erase_module name [] = []
erase_module name ((k, v) ∷ rest) =
    let onward = erase_module name rest in if eq_bytes k name then rest else (k, v) ∷ onward

-- One event's handlers changed.
unfoldable pub at_event : (Handlers → Handlers) → ℕ → List Handlers → List Handlers
at_event f i [] = []
at_event f zero (handlers ∷ events) = f handlers ∷ events
at_event f (suc i) (handlers ∷ events) = handlers ∷ at_event f i events

-- `Attach` with an array of events
unfoldable pub attach_events : ℕ → List ℕ → List Handlers → List Handlers
unfolding at_event attach
attach_events who [] events = events
attach_events who (i ∷ is) events =
    attach_events who is (at_event (λ handlers. (attach who handlers).1) i events)

-- The calls of `SetPriority` that one module makes, and that all of them make.
unfoldable pub set_priorities : ℕ → List (ℕ × PriorityState) → List Handlers → List Handlers
unfolding at_event set_priority
set_priorities who [] events = events
set_priorities who ((i, s) ∷ wishes) events =
    set_priorities who wishes (at_event (λ handlers. (set_priority who s handlers).1) i events)

module _ {World : Type 0} (lib : Library World) where
  unfoldable pub prioritize_all : Modules → List Handlers → List Handlers
  unfolding set_priorities
  prioritize_all [] events = events
  prioritize_all ((k, v) ∷ rest) events =
      prioritize_all rest (set_priorities v.object (lib.prioritize v.object) events)

  abbrev is_none : {A : Type 0} → Option A → Bool
  is_none none = true
  is_none (some _) = false

  abbrev pub fail : ModuleError → Manager World → Bool × Manager World
  fail e m = (false, record m { last_error = some e })

  -- `new ircd_module`, for a file with `.so` in its name: the library, with its `init_module`. If that
  -- is missing, the destructor of `DLLManager` closes the library.
  unfoldable pub open_library : Bytes → World → Opened × World
  open_library file w =
      let (answer, w') = lib.dlopen w file in
      elim answer [
        | open_threw e ↦ (open_threw e, w')
        | library h ↦ elim (lib.dlsym w' h) [
          | none ↦ (library h, w')
          | some e ↦ (open_threw e, lib.dlclose w' h)
        ]
      ]

  -- The version of a new object is looked at.
  unfoldable pub check_version : Bytes → ℕ → ℕ → Manager World → Bool × Manager World
  unfolding insert_module prioritize_all detach_all
  check_version name h a m =
      let detached = record m {
        events = detach_all a m.events;
        world = lib.dlclose (lib.delete_module m.world a) h;
      } in
      elim (lib.get_version m.world a) [
        | version_threw e ↦ fail (exception name e) detached
        | version api ↦
            let modules = insert_module name (record { handle = h; object = a }) m.modules in
            if not (api == lib.api_version) then fail (incorrect_version name api) detached else (
              true,
              record m {
                modules = modules;
                mod_count = increment m.mod_count;
                events = prioritize_all modules m.events;
                world = lib.on_load_module m.world a name;
              },
            )
      ]

  -- `CallInit`. An object whose constructor has thrown is not known to `Load`.
  unfoldable pub init : Bytes → ℕ → Manager World → Bool × Manager World
  unfolding check_version attach_events
  init name h m =
      let (answer, w) = lib.call_init m.world h in
      elim answer [
        | init_null ↦ fail (no_entrypoint name) (record m { world = lib.dlclose w h })
        | init_threw a attached e ↦
            fail (exception name e)
              (record m { events = attach_events a attached m.events; world = lib.dlclose w h })
        | init_module a attached ↦
            check_version name h a
              (record m { events = attach_events a attached m.events; world = w })
      ]

  abbrev pub mod_file : Bytes → Bytes
  mod_file name = take (lib.max_buf - 1) (lib.mod_path ++ b'/' ∷ name)

  -- `Load` from its second part on, for one file, whose name holds `.so`.
  unfoldable pub load_file : Bytes → Manager World → Bool × Manager World
  unfolding find_module open_library init
  load_file name m =
      let (answer, w) = open_library (mod_file name) m.world in
      let tried = record m { world = w } in
      let opened : Bool × Manager World = elim answer [
        | open_threw e ↦ fail (exception name e) tried
        | library h ↦ init name h tried
      ] in
      if not (lib.dir_valid m.world (mod_file name))
      then fail (not_within_directory name) m
      else if not (lib.file_exists m.world (mod_file name))
      then fail (no_such_file name) m
      else elim (find_module name m.modules) [
        | some _ ↦ fail (already_loaded name) m
        | none ↦ opened
      ]

  -- A name without `*` and `?`, of a file with `.so` in its name. For a pattern `Load` calls itself for
  -- what the directory holds, and for a file without `.so` the destructor of `DLLManager` may read a
  -- handle that is not set.
  unfoldable pub is_file : Bytes → Bool
  unfolding find_char find_text
  is_file name =
      is_none (find_char b'*' name)
      && is_none (find_char b'?' name)
      && not (is_none (find_text (codes ".so") (mod_file name)))

  -- `Load`; `none` for the names of which nothing is said here.
  unfoldable pub load : Bytes → Manager World → Option (Bool × Manager World)
  unfolding is_file load_file
  load name m = if is_file name then some (load_file name m) else none

  pub load-file :
      (name : Bytes) (m : Manager World)
      → is_file name ≡ true
      → load name m ≡ some (load_file name m)
  unfolding load
  load-file name m h = rw h refl

  unfoldable pub unload : Bytes → Manager World → Bool × Manager World
  unfolding find_module interface_instance_count is_positive detach_all erase_module
  unload name m = elim (find_module name m.modules) [
    | none ↦ fail (not_loaded name) m
    | some v ↦
        let (uses, interface) = interface_instance_count v.object m.interfaces in
        let told = lib.on_unload_module m.world v.object name in
        if lib.is_static m.world v.object
        then fail (marked_static name) m
        else if is_positive uses
        then fail (in_use name uses interface) m
        else (
          true,
          record m {
            events = detach_all v.object m.events;
            modules = erase_module name m.modules;
            mod_count = decrement m.mod_count;
            world = lib.dlclose (lib.delete_module told v.object) v.handle;
          },
        )
  ]
