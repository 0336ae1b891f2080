-- ===== src/Config/Read/Ended.antt =====
-- How `ServerConfig::Read` (src/configreader.cpp) can end at the start of the program, and how it does
-- after `LoadAll`.
use hottpd.Base.{
  negsuc, All, eq_bytes_refl, ◌∷◌, zero, suc, ◌≡◌, ◌≢◌, ◌⊎◌, refl, true, false, none, some, List,
  [], length, Bytes, arith, Bool-cases, inl, inr, codes,
}
use hottpd.Config.{ConfigData}
use hottpd.Config.Settings.{ServerConfig}
use hottpd.Config.Validators.{CoreException, more_than_one, not_defined, dir_valid}
use hottpd.Config.Values.{conf_value_enum}
use hottpd.Config.Entries.{Build}
use hottpd.Config.Entries.Bounds.{Checked, root_text}
use hottpd.Config.Read.{
  Core, ReadEnd, returns, exits, leaves, goes_wrong, calls_load, LoadEnd, goes_on, stops, no_file,
  modules_of, Surroundings, pid_file, is_among, check_once, load_added, unload_removed, finish_read,
  exit_status_config, exit_status_pid, exit_status_module,
}
use hottpd.Config.Read.Loaded.{AllHave, Fails, Loads, unloaded, Tagged, Added, load_added-Added}
use hottpd.Modules.Loading.{Library, Manager, is_file}

module _ {World : Type 0} (build : Build) (lib : Library World) (sys : Surroundings World) where
  -- The manager as `LoadAll` begins, in some state of the world.
  abbrev pub starting : Core World → World → Manager World
  starting c w = record (c.manager) { mod_count = negsuc 0; world = w }

  -- The manager after the PID file has been written.
  abbrev pub written : ServerConfig → Manager World → Manager World
  written conf m = record m {
    world = (sys.open_to_write m.world (pid_file sys.config_file_name conf.pid)).1;
  }

  abbrev pub IsNew : Core World → Bytes → Type 0
  IsNew c name = is_among name c.names.new_module_names ≡ true

  -- One of the names could not be loaded, by `LoadAll`, or after it had loaded what it had to and the
  -- PID file had been written; `c'` has what `Load` left.
  abbrev pub NotLoaded : ConfigData → Core World → Core World → Type 0
  NotLoaded target c c' =
      (w : World) × (Fails build lib (Tagged build lib target) c'.conf (starting c w) c'.manager
        ⊎ ((m : Manager World) × Loads build lib c'.conf (starting c w) m
            × Fails build lib (IsNew c') c'.conf (written c'.conf m) c'.manager))

  -- What is known of each way to end, for a configuration that has been parsed.
  abbrev pub Ended : ConfigData → Core World → ReadEnd World → Type 0
  Ended target c (returns c') =
      Checked build sys.directories target c.manager.world c'.conf
      × (conf_value_enum target (codes "server") ≡ 1)
      × (length c'.names.new_module_names ≡ conf_value_enum target (codes "module"))
      × AllHave c'.names.new_module_names c'.manager.modules
  Ended target c (exits status c') =
      ((status ≡ exit_status_config)
        × ((dir_valid sys.directories (root_text build target) c.manager.world).0 ≡ false)
        × (c'.conf ≡ c.conf)
        × (c'.manager.modules ≡ c.manager.modules))
      ⊎ ((status ≡ exit_status_module) × NotLoaded target c c')
      ⊎ ((status ≡ exit_status_pid)
          × (w : World) × ((sys.open_to_write w (pid_file sys.config_file_name c'.conf.pid)).0
              ≡ false)
          × (c'.manager.world
              ≡ (sys.open_to_write w (pid_file sys.config_file_name c'.conf.pid)).1))
  Ended target c (leaves e c') = conf_value_enum target (codes "server") ≢ 1
  Ended target c (calls_load name c') =
      (Tagged build lib target name ⊎ IsNew c' name)
      × (is_file (modules_of build lib c'.conf) name ≡ false)
  Ended target c goes_wrong = ⊥

  pub check_once-one :
      (tag : Bytes) (target : ConfigData)
      → (check_once tag target ≡ none) × (conf_value_enum target tag ≡ 1)
        ⊎ ((e : CoreException) × (check_once tag target ≡ some e)
            × (conf_value_enum target tag ≢ 1))
  unfolding check_once
  check_once-one tag target =
      elim (conf_value_enum target tag)
          as (λ n.
            conf_value_enum target tag ≡ n
            → (check_once tag target ≡ none) × (conf_value_enum target tag ≡ 1)
              ⊎ ((e : CoreException) × (check_once tag target ≡ some e)
                  × (conf_value_enum target tag ≢ 1))) [
                    | zero ↦ λ e. inr (not_defined tag, rw (check_once, e) refl, omega (arith, e))
                    | suc zero ↦ λ e. inl (rw (check_once, e) refl, e)
                    | suc (suc n) ↦
                        λ e. inr (more_than_one tag, rw (check_once, e) refl, omega (arith, e))
                  ]
        refl

  among-all :
      (all names : List Bytes)
      → ((x : Bytes) → is_among x names ≡ true → is_among x all ≡ true)
      → All (λ x. is_among x all ≡ true) names
  unfolding is_among
  among-all all [] up = tt
  among-all all (name ∷ names) up = (
    up name (rw (eq_bytes_refl name) refl),
    among-all all names (λ x h. up x (ground (arith, h))),
  )

  -- `c2` is what `LoadAll` has left.
  pub finish_read-Ended :
      (target : ConfigData) (c c2 : Core World) (w : World)
      → Checked build sys.directories target c.manager.world c2.conf
      → conf_value_enum target (codes "server") ≡ 1
      → length c2.names.new_module_names ≡ conf_value_enum target (codes "module")
      → c2.names.added_modules ≡ c2.names.new_module_names
      → c2.names.removed_modules ≡ []
      → Loads build lib c2.conf (starting c w) c2.manager
      → Ended target c (finish_read build lib sys true c2)
  unfolding finish_read unload_removed
  finish_read-Ended target c c2 w checked one size added none_removed before =
      let asked = sys.open_to_write c2.manager.world (pid_file sys.config_file_name c2.conf.pid) in
      let news : List Bytes = c2.names.new_module_names in
      let opened : Manager World = written c2.conf c2.manager in
      let outcome : LoadEnd (Manager World) = load_added build lib true c2.conf news opened in
      let ends : Added build lib (IsNew c2) c2.conf opened news opened.modules outcome =
        load_added-Added build lib (IsNew c2) c2.conf opened news opened
          (among-all news news (λ x h. h)) unloaded in
      elim (Bool-cases asked.0) [
        | inr e ↦ rw (finish_read, e) (inr (inr (refl, c2.manager.world, e, refl)))
        | inl e ↦
            rw (finish_read, e, none_removed, added)
              (elim outcome
                  as (λ o.
                    Added build lib (IsNew c2) c2.conf opened news opened.modules o
                    → Ended target c (elim o [
                      | goes_on m ↦ returns (record c2 { manager = m })
                      | stops m ↦ exits exit_status_module (record c2 { manager = m })
                      | no_file name m ↦ calls_load name (record c2 { manager = m })
                    ])) [
                      | goes_on m ↦ λ h. (checked, one, size, h.0)
                      | stops m ↦ λ h. inr (inl (refl, (w, inr (c2.manager, before, h))))
                      | no_file name m ↦ λ h. (inr h.0, h.1)
                    ]
                ends)
      ]
