-- ===== src/Modules/Loading/Tests.antt =====
-- A module is loaded, another is refused, one is unloaded, and one in use by its second interface is
-- unloaded too.
use hottpd.Base.{
  ℕ, ◌≡◌, refl, ap, true, false, ◌&&◌, some, none, [], ◌∷◌, ◌==◌, Bool, codes, eq_bytes,
  if◌then◌else◌, pos, is_positive, find_char, find_text, arith,
}
use mathlib.Core.Bool.{not}
use hottpd.Modules.{position, prio_first}
use hottpd.Modules.Interfaces.{
  publish_interface, use_interface, find_interface_entry, done_with_interface,
  done_with_interface-use_interface, interface_instance_count,
}
use hottpd.Modules.Loading.{
  ModuleError, Library, Manager, library, init_module, version, load, load_file, is_file, unload,
  find_module,
}
use hottpd.Modules.Loading.Errors.{NewObjects, IsRefused, load-IsRefused, unload-refuses}
use hottpd.Modules.Loading.Attached.{Attached}
use hottpd.Modules.Loading.Sound.{IsSound, NoneThrows, load-Sound, load_file-Fine, unload-Sound}

-- The world is the next object; a file whose API is wrong is opened as library 1.
abbrev lib : Library ℕ
lib = record {
  mod_path = codes "/mods";
  max_buf = 512;
  api_version = 10000;
  dir_valid = λ w file. true;
  file_exists = λ w file. true;
  dlopen = λ w file. (library (if eq_bytes file (codes "/mods/old.so") then 1 else 0), w);
  dlsym = λ w h. none;
  dlclose = λ w h. w;
  call_init = λ w h. (init_module (if h == 1 then 9 else 8) (0 ∷ []), w);
  get_version = λ w a. version (if a == 9 then 9999 else 10000);
  is_static = λ w a. false;
  delete_module = λ w a. w;
  on_load_module = λ w a name. w;
  on_unload_module = λ w a name. w;
  prioritize = λ a. (0, prio_first) ∷ [];
}

abbrev empty : Manager ℕ
empty = record {
  modules = [];
  events = [] ∷ [] ∷ [];
  interfaces = [];
  mod_count = pos 0;
  last_error = none;
  world = 0;
}

new : NewObjects lib empty.events
unfolding position
new w h a attached r = (refl, (refl, tt))

none_throws : NoneThrows lib
none_throws w h a attached e r =
    ground (arith, ap {B = Bool} (λ i. elim i [ init_module _ _ ↦ true | _ ↦ false ]) r)

empty-IsSound : IsSound lib empty
empty-IsSound =
    let none_there : Attached [] [] = λ x. (omega arith, λ there. ground (arith, there)) in
    (none_there, (none_there, tt))

abbrev loaded : Manager ℕ
unfolding load_file
loaded = (load_file lib (codes "a.so") empty).1

loaded_events : loaded.events ≡ (8 ∷ []) ∷ [] ∷ []
unfolding loaded
loaded_events = refl

old_fails : (load_file lib (codes "old.so") empty).0 ≡ false
unfolding load_file eq_bytes
old_fails = refl

pattern_unknown : load lib (codes "*.so") empty ≡ none
unfolding load find_char
pattern_unknown = refl

a_is_file : is_file lib (codes "a.so") ≡ true
unfolding is_file find_char find_text
a_is_file = refl

old_is_file : is_file lib (codes "old.so") ≡ true
unfolding is_file find_char find_text
old_is_file = refl

load-IsRefused_example :
    (answer : Bool × Manager ℕ) × (load lib (codes "old.so") empty ≡ some answer)
    × (answer.0 ≡ false → IsRefused lib empty answer)
load-IsRefused_example = load-IsRefused lib (codes "old.so") empty old_is_file new

load-Sound_example :
    (answer : Bool × Manager ℕ) × (load lib (codes "a.so") empty ≡ some answer)
    × IsSound lib answer.1
load-Sound_example = load-Sound lib (codes "a.so") empty a_is_file new none_throws empty-IsSound

loaded-IsSound : IsSound lib loaded
unfolding loaded load
loaded-IsSound = load_file-Fine lib (codes "a.so") empty empty-IsSound refl

unload-Sound_example : IsSound lib (unload lib (codes "a.so") loaded).1
unload-Sound_example = unload-Sound lib (codes "a.so") loaded loaded-IsSound

unloaded_events : (unload lib (codes "a.so") loaded).1.events ≡ [] ∷ [] ∷ []
unfolding loaded unload eq_bytes
unloaded_events = refl

unload-refuses_example :
    ((unload lib (codes "a.so") loaded).0 ≡ elim (find_module (codes "a.so") loaded.modules) [
      | none ↦ false
      | some v ↦
          not (lib.is_static loaded.world v.object)
          && not (is_positive (interface_instance_count v.object loaded.interfaces).0)
    ])
    × ((unload lib (codes "a.so") loaded).0 ≡ false
        → (e : ModuleError) × ((unload lib (codes "a.so") loaded).1
            ≡ record loaded { last_error = some e }))
unload-refuses_example = unload-refuses lib (codes "a.so") loaded

abbrev served : Manager ℕ
unfolding loaded publish_interface use_interface
served = record loaded {
  interfaces =
      use_interface (codes "b")
        (publish_interface (codes "b") 8 (publish_interface (codes "a") 8 []).1).1;
}

-- Its second interface is in use.
unloaded_in_use : (unload lib (codes "a.so") served).0 ≡ true
unfolding served unload eq_bytes
unloaded_in_use = refl

uses_restored :
    find_interface_entry
      (codes "b")
      (done_with_interface (codes "b") (use_interface (codes "b") served.interfaces))
    ≡ find_interface_entry (codes "b") served.interfaces
uses_restored = done_with_interface-use_interface (codes "b") (codes "b") served.interfaces
