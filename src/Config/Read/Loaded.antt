-- ===== src/Config/Read/Loaded.antt =====
-- The modules of the configuration: the loops of `ServerConfig::Read` (src/configreader.cpp) and of
-- `LoadAll` (src/modules.cpp).
use hottpd.Base.{
  Option, none, some, All, ℕ, zero, suc, ◌+◌, ◌≡◌, ◌<◌, ◌⊎◌, refl, ap, Bool, true, false, List, [],
  ◌∷◌, length, length-append, Bytes, arith, Bool-cases, Option-cases, inl, inr, codes, negsuc,
}
use hottpd.Config.{ConfigData}
use hottpd.Config.Settings.{ServerConfig}
use hottpd.Config.Values.{conf_value_enum}
use hottpd.Config.Entries.{Build}
use hottpd.Config.Read.{
  ModuleNames, Core, do_module, do_modules, module_name, all_but, is_among, load_tags, load_all,
  load_added, modules_of, LoadEnd, goes_on, stops, no_file,
}
use hottpd.Config.Read.Counts.{Looked, unlooked, Looked-trans, conf_value-Looked}
use hottpd.Modules.Loading.{Library, Manager, Modules, find_module, load, load_file, is_file}
use hottpd.Modules.Loading.Loads.{Has, Extends, load_file-Adds}

-- Each name has a module.
abbrev pub AllHave : List Bytes → Modules → Type 0
AllHave [] modules = Unit
AllHave (name ∷ names) modules = Has name modules × AllHave names modules

-- Each module tag gives one name.
pub do_modules-names :
    (max_buf more tagnum : ℕ) (target : ConfigData) (names : ModuleNames)
    → (length (do_modules max_buf more tagnum target names).0.new_module_names
        ≡ length names.new_module_names + more)
      × ((do_modules max_buf more tagnum target names).0.old_module_names ≡ names.old_module_names)
      × ((do_modules max_buf more tagnum target names).0.added_modules ≡ names.added_modules)
      × ((do_modules max_buf more tagnum target names).0.removed_modules ≡ names.removed_modules)
      × Looked target (do_modules max_buf more tagnum target names).1
unfolding do_modules do_module
do_modules-names max_buf zero tagnum target names = (omega arith, refl, refl, refl, unlooked)
do_modules-names max_buf (suc more) tagnum target names =
    let (modname, target') = module_name max_buf tagnum target in
    let (size, old, added, removed, same) =
      do_modules-names max_buf more (tagnum + 1) target' (do_module modname names) in
    (
      omega (arith, size, length-append names.new_module_names (modname ∷ [])),
      old,
      added,
      removed,
      Looked-trans (conf_value-Looked target (codes "module") (codes "name") [] tagnum false) same,
    )

-- Nothing was loaded before.
pub all_but-nothing : (names : List Bytes) → all_but [] names ≡ names
unfolding all_but is_among
all_but-nothing [] = refl
all_but-nothing (name ∷ names) = ap (◌∷◌ name) (all_but-nothing names)

module _ {World : Type 0} (build : Build) (lib : Library World) where
  -- The states of the manager that come about, from `start` on, as `Load` succeeds for some names.
  pub data Loads (conf : ServerConfig) (start : Manager World) : Manager World → Type 0 where
    unloaded : Loads conf start start
    loads :
        {m : Manager World} (now : Manager World) (name : Bytes)
        → Loads conf start m
        → load (modules_of build lib conf) name m ≡ some (true, now)
        → Loads conf start now

  -- After `Load` had succeeded for some names, from `start` on, it returned false for such a name, and
  -- `last` is what it has left.
  abbrev pub Fails : (Bytes → Type 0) → ServerConfig → Manager World → Manager World → Type 0
  Fails named conf start last =
      (name : Bytes) × named name
      × (m : Manager World) × Loads conf start m
      × (load (modules_of build lib conf) name m ≡ some (false, last))

  -- Such a name is a pattern, or the file has no `.so`.
  abbrev pub Unsaid : (Bytes → Type 0) → ServerConfig → Bytes → Type 0
  Unsaid named conf name = named name × (is_file (modules_of build lib conf) name ≡ false)

  -- What `Load` does with a name.
  load-cases :
      (conf : ServerConfig) (name : Bytes) (m : Manager World)
      → ((load (modules_of build lib conf) name m ≡ none)
          × (is_file (modules_of build lib conf) name ≡ false))
        ⊎ ((now : Manager World) × (load (modules_of build lib conf) name m ≡ some (true, now))
            × Has name now.modules
            × Extends m.modules now.modules)
        ⊎ ((now : Manager World) × (load (modules_of build lib conf) name m ≡ some (false, now)))
  unfolding load
  load-cases conf name m =
      let l : Library World = modules_of build lib conf in
      let a : Bool × Manager World = load_file l name m in
      elim (Bool-cases (is_file l name)) [
        | inr e ↦ inl (rw (load, e) refl, e)
        | inl e ↦ elim (Bool-cases a.0) [
          | inl done ↦
              let (has, up) = load_file-Adds l name m done in
              inr (
                inl (
                  a.1,
                  rw (load, e) (ap {B = Option (Bool × Manager World)} (λ b. some (b, a.1)) done),
                  has,
                  up,
                ))
          | inr failed ↦ inr (
              inr (
                a.1,
                rw (load, e) (ap {B = Option (Bool × Manager World)} (λ b. some (b, a.1)) failed),
              ))
        ]
      ]

  -- The name of a module tag.
  abbrev pub Tagged : ConfigData → Bytes → Type 0
  Tagged target name =
      (count : ℕ) × (now : ConfigData) × (count < conf_value_enum target (codes "module"))
      × Looked target now
      × (name ≡ (module_name build.max_buf count now).0)

  -- Nothing but the configuration and the modules has changed.
  abbrev pub Same : ConfigData → Core World → Core World → Type 0
  Same target c c' = (c'.conf ≡ c.conf) × (c'.names ≡ c.names) × Looked target c'.config_data

  -- How the loop of `LoadAll` ends, where `target` is the configuration before it, and `start` what
  -- the manager was.
  abbrev pub Ends : ConfigData → Manager World → Core World → LoadEnd (Core World) → Type 0
  Ends target start c (goes_on c') = Same target c c' × Loads c.conf start c'.manager
  Ends target start c (stops c') = Same target c c' × Fails (Tagged target) c.conf start c'.manager
  Ends target start c (no_file name c') = Same target c c' × Unsaid (Tagged target) c.conf name

  load_tags-Ends :
      (target : ConfigData) (start : Manager World) (more count : ℕ) (c : Core World)
      → Looked target c.config_data
      → Loads c.conf start c.manager
      → count + more ≡ conf_value_enum target (codes "module")
      → Ends target start c (load_tags build lib more count c)
  unfolding load_tags
  load_tags-Ends target start zero count c seen before all = ((refl, refl, seen), before)
  load_tags-Ends target start (suc more) count c seen before all =
      let (token, target') = module_name build.max_buf count c.config_data in
      let looked : Looked target target' =
        Looked-trans seen
          (conf_value-Looked c.config_data (codes "module") (codes "name") [] count false) in
      let inside : count < conf_value_enum target (codes "module") = omega (arith, all) in
      let tagged : Tagged target token = (count, c.config_data, inside, seen, refl) in
      elim (load-cases c.conf token c.manager) [
        | inl (e, unsaid) ↦ rw (load_tags, e) ((refl, refl, looked), (tagged, unsaid))
        | inr (inl (now, e, has, up)) ↦
            let c' : Core World = record c { config_data = target'; manager = now } in
            rw (load_tags, e)
              (load_tags-Ends target start more (count + 1) c' looked (loads now token before e)
                (omega (arith, all)))
        | inr (inr (now, e)) ↦
            rw (load_tags, e) ((refl, refl, looked), (token, tagged, c.manager, before, e))
      ]

  abbrev pub counting : Core World → Manager World
  counting c = record (c.manager) { mod_count = negsuc 0 }

  pub load_all-Ends : (c : Core World) → Ends c.config_data (counting c) c (load_all build lib c)
  unfolding load_all
  load_all-Ends c =
      load_tags-Ends c.config_data (counting c) (conf_value_enum c.config_data (codes "module")) 0
        (record c { manager = counting c }) unlooked unloaded (omega arith)

  -- At the start of the program: each name that is to be added has a module, or one could not be
  -- loaded, or nothing is said of one.
  abbrev pub Added :
      (Bytes → Type 0)
      → ServerConfig
      → Manager World
      → List Bytes
      → Modules
      → LoadEnd (Manager World)
      → Type 0
  Added named conf start names modules (goes_on m) =
      AllHave names m.modules × Extends modules m.modules
  Added named conf start names modules (stops m) = Fails named conf start m
  Added named conf start names modules (no_file name m) = Unsaid named conf name

  more-Added :
      (named : Bytes → Type 0) (conf : ServerConfig) (start : Manager World) (name : Bytes)
      (names : List Bytes) (modules more : Modules) (a : LoadEnd (Manager World))
      → Has name more
      → Extends modules more
      → Added named conf start names more a
      → Added named conf start (name ∷ names) modules a
  more-Added named conf start name names modules more (goes_on m) (v, found) up (rest, on) =
      (((v, on name v found), rest), λ k u h. on k u (up k u h))
  more-Added named conf start name names modules more (stops m) has up h = h
  more-Added named conf start name names modules more (no_file x m) has up h = h

  pub load_added-Added :
      (named : Bytes → Type 0) (conf : ServerConfig) (start : Manager World) (names : List Bytes)
      (m : Manager World)
      → All named names
      → Loads conf start m
      → Added named conf start names m.modules (load_added build lib true conf names m)
  unfolding load_added
  load_added-Added named conf start [] m all before = (tt, λ k u h. h)
  load_added-Added named conf start (name ∷ names) m (is, all) before =
      elim (Option-cases (find_module name m.modules)) [
        | inr (v, found) ↦
            rw (load_added, found)
              (more-Added named conf start name names m.modules m.modules
                (load_added build lib true conf names m) (v, found) (λ k u h. h)
                (load_added-Added named conf start names m all before))
        | inl absent ↦ elim (load-cases conf name m) [
          | inl (e, unsaid) ↦ rw (load_added, absent, e) (is, unsaid)
          | inr (inl (now, e, has, up)) ↦
              rw (load_added, absent, e)
                (more-Added named conf start name names m.modules now.modules
                  (load_added build lib true conf names now) has up
                  (load_added-Added named conf start names now all (loads now name before e)))
          | inr (inr (now, e)) ↦ rw (load_added, absent, e) (name, is, m, before, e)
        ]
      ]
