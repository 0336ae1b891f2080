-- ===== src/Config/Read.antt =====
-- `ServerConfig::Read` (src/configreader.cpp), with its callbacks for the module tags, `CheckOnce`,
-- `ModuleManager::LoadAll` (src/modules.cpp) and `InspIRCd::WritePID` (src/inspircd.cpp). `Load` is
-- that of one file with `.so`; for another name nothing is said of what follows. `BindPorts`, which is called only for `bail` false, is the member `bind_ports`.
pub mod Counts
pub mod Loaded
pub mod Ended
pub mod Sound
pub mod Tests
use hottpd.Base.{
  ℕ, zero, suc, ◌+◌, Bool, true, false, ◌||◌, Option, none, some, List, [], ◌∷◌, ◌++◌, ◌==◌,
  if◌then◌else◌, Bytes, codes, is_empty, eq_bytes, rfind_char, take, negsuc, starts_with, ◌&&◌,
}
use mathlib.Core.Bool.{not}
use mathlib.Core.List.{map}
use hottpd.Config.{ConfigData}
use hottpd.Config.Load.{loaded, error, load_conf}
use hottpd.Config.Values.{conf_value, conf_value_enum}
use hottpd.Config.Item.{strlcpy}
use hottpd.Config.Settings.{ServerConfig}
use hottpd.Config.Validators.{CoreException, more_than_one, not_defined, Directories}
use hottpd.Config.Entries.{Build, text_of, Reader, reads, throws, breaks, read_values}
use hottpd.Config.Table.{values}
use hottpd.Modules.Loading.{Library, Manager, Modules, find_module, load, unload}

-- The vectors of the module names.
pub record ModuleNames : Type 0 where
  pub old_module_names : List Bytes
  pub new_module_names : List Bytes
  pub added_modules : List Bytes
  pub removed_modules : List Bytes

unfoldable pub is_among : Bytes → List Bytes → Bool
unfolding eq_bytes
is_among name [] = false
is_among name (other ∷ names) = eq_bytes other name || is_among name names

-- Those of `names` that are not among `others`.
unfoldable pub all_but : List Bytes → List Bytes → List Bytes
unfolding is_among
all_but others [] = []
all_but others (name ∷ names) =
    let rest = all_but others names in if is_among name others then rest else name ∷ rest

-- `GetAllModuleNames(0)`
abbrev pub all_module_names : Modules → List Bytes
all_module_names modules = map (λ m. m.0) modules

unfoldable pub init_module : Modules → ModuleNames → ModuleNames
init_module modules names = record {
  old_module_names = all_module_names modules;
  new_module_names = [];
  added_modules = [];
  removed_modules = [];
}

unfoldable pub do_module : Bytes → ModuleNames → ModuleNames
do_module modname names = record names { new_module_names = names.new_module_names ++ modname ∷ [] }

unfoldable pub done_module : ModuleNames → ModuleNames
unfolding all_but
done_module names = record names {
  added_modules = names.added_modules ++ all_but names.old_module_names names.new_module_names;
  removed_modules = names.removed_modules ++ all_but names.new_module_names names.old_module_names;
}

-- The name in the module tag of a number, and the configuration after it is looked up.
abbrev pub module_name : ℕ → ℕ → ConfigData → Bytes × ConfigData
module_name max_buf tagnum target =
    let (found, target') = conf_value target (codes "module") (codes "name") [] tagnum false in
    (strlcpy (text_of found) max_buf, target')

-- The loop over the module tags, `more` of them from `tagnum` on.
unfoldable pub do_modules : ℕ → ℕ → ℕ → ConfigData → ModuleNames → ModuleNames × ConfigData
unfolding conf_value strlcpy do_module
do_modules max_buf zero tagnum target names = (names, target)
do_modules max_buf (suc more) tagnum target names =
    let (modname, target') = module_name max_buf tagnum target in
    do_modules max_buf more (tagnum + 1) target' (do_module modname names)

-- The exception of `CheckOnce`, if it throws.
unfoldable pub check_once : Bytes → ConfigData → Option CoreException
unfolding conf_value_enum
check_once tag target = elim (conf_value_enum target tag) [
  | zero ↦ some (not_defined tag)
  | suc zero ↦ none
  | suc (suc _) ↦ some (more_than_one tag)
]

pub record Core (World : Type 0) : Type 0 where
  pub config_data : ConfigData
  pub conf : ServerConfig
  pub names : ModuleNames
  pub manager : Manager World

-- How `Read` ends: it returns, the program exits with a status, an exception leaves `Read`, what
-- happens is undefined, or `Load` is called for a name of which nothing is said, a pattern or a file
-- without `.so`.
pub data ReadEnd (World : Type 0) : Type 0 where
  returns : Core World → ReadEnd World
  exits : ℕ → Core World → ReadEnd World
  leaves : CoreException → Core World → ReadEnd World
  calls_load : Bytes → Core World → ReadEnd World
  goes_wrong : ReadEnd World

-- How a loop over names for `Load` ends: all are loaded, the program exits since one is not, or one is
-- a name of which nothing is said.
pub data LoadEnd (State : Type 0) : Type 0 where
  goes_on stops : State → LoadEnd State
  no_file : Bytes → State → LoadEnd State

-- The system, as `Read` uses it: the text of the configuration file, if it can be opened; the
-- working directory; opening a file and writing the number of the process there, true if it can be
-- opened; and `BindPorts`.
pub record Surroundings (World : Type 0) : Type 0 where
  pub config_file_name : Bytes
  pub read_config : World → Option Bytes
  pub directories : Directories World
  pub open_to_write : World → Bytes → Bool × World
  pub bind_ports : ConfigData → World → World

-- `WritePID`: the name of the file.
unfoldable pub pid_file : Bytes → Bytes → Bytes
unfolding rfind_char starts_with
pid_file config_file_name filename =
    let fname = if is_empty filename then codes "inspircd.pid" else filename in
    if starts_with (codes "/") fname then fname else elim (rfind_char b'/' config_file_name) [
      | none ↦ fname
      | some pos ↦ take pos config_file_name ++ b'/' ∷ fname
    ]

abbrev pub exit_status_config : ℕ
exit_status_config = 4

abbrev pub exit_status_pid : ℕ
exit_status_pid = 9

abbrev pub exit_status_module : ℕ
exit_status_module = 13

module _ {World : Type 0} (build : Build) (lib : Library World) where
  -- What `Load` uses, with the directory of the settings.
  abbrev pub modules_of : ServerConfig → Library World
  modules_of conf = record lib { mod_path = conf.mod_path; max_buf = build.max_buf }

  -- The loop of `LoadAll`, with `more` tags left from `count` on.
  unfoldable pub load_tags : ℕ → ℕ → Core World → LoadEnd (Core World)
  unfolding conf_value strlcpy load
  load_tags zero count c = goes_on c
  load_tags (suc more) count c =
      let (token, target') = module_name build.max_buf count c.config_data in
      elim (load (modules_of c.conf) token c.manager) [
        | none ↦ no_file token (record c { config_data = target' })
        | some answer ↦
            let c' : Core World = record c { config_data = target'; manager = answer.1 } in
            let rest = load_tags more (count + 1) c' in if not answer.0 then stops c' else rest
      ]

  -- Looking a value up leaves the number of tags as it is.
  unfoldable pub load_all : Core World → LoadEnd (Core World)
  unfolding load_tags conf_value_enum
  load_all c =
      load_tags (conf_value_enum c.config_data (codes "module")) 0
        (record c { manager = record (c.manager) { mod_count = negsuc 0 } })

  unfoldable pub unload_removed : List Bytes → Manager World → Manager World
  unfolding unload
  unload_removed [] m = m
  unload_removed (name ∷ names) m = unload_removed names (unload lib name m).1

  unfoldable pub load_added :
      Bool → ServerConfig → List Bytes → Manager World → LoadEnd (Manager World)
  unfolding find_module load
  load_added bail conf [] m = goes_on m
  load_added bail conf (name ∷ names) m =
      let skipped = load_added bail conf names m in
      elim (find_module name m.modules) [
        | some _ ↦ skipped
        | none ↦ elim (load (modules_of conf) name m) [
          | none ↦ no_file name m
          | some answer ↦
              let rest = load_added bail conf names answer.1 in
              if not answer.0 && bail then stops answer.1 else rest
        ]
      ]

  module _ (sys : Surroundings World) where
    -- `ReportConfigError`
    unfoldable pub report_config_error : Bool → Core World → ReadEnd World
    report_config_error bail c = if bail then exits exit_status_config c else returns c

    -- From `WritePID` on.
    unfoldable pub finish_read : Bool → Core World → ReadEnd World
    unfolding pid_file unload_removed load_added
    finish_read bail c =
        let (opened, w) =
          sys.open_to_write c.manager.world (pid_file sys.config_file_name c.conf.pid) in
        let bound = if bail then w else sys.bind_ports c.config_data w in
        let unloaded =
          unload_removed c.names.removed_modules (record (c.manager) { world = bound }) in
        if not opened
        then exits exit_status_pid (record c { manager = record (c.manager) { world = w } })
        else elim (load_added bail c.conf c.names.added_modules unloaded) [
          | goes_on m ↦ returns (record c { manager = m })
          | stops m ↦ exits exit_status_module (record c { manager = m })
          | no_file name m ↦ calls_load name (record c { manager = m })
        ]

    -- From the module tags on.
    unfoldable pub read_modules : Bool → Core World → ReadEnd World
    unfolding init_module do_modules done_module load_all check_once finish_read conf_value_enum
    read_modules bail c =
        let (names, target) =
          do_modules build.max_buf (conf_value_enum c.config_data (codes "module")) 0 c.config_data
            (init_module c.manager.modules c.names) in
        elim (load_all (record c { config_data = target; names = done_module names })) [
          | stops c' ↦ exits exit_status_module c'
          | no_file name c' ↦ calls_load name c'
          | goes_on c' ↦ elim (check_once (codes "server") c'.config_data) [
            | some e ↦ leaves e c'
            | none ↦ finish_read bail c'
          ]
        ]

    abbrev pub with_reader : Reader World → Core World → Core World
    with_reader r c = record c {
      config_data = r.config_data;
      conf = r.conf;
      manager = record (c.manager) { world = r.world };
    }

    unfoldable pub read : Bool → Core World → ReadEnd World
    unfolding load_conf read_values report_config_error read_modules
    read bail c = elim (load_conf (sys.read_config c.manager.world) []) [
      | error _ ↦ report_config_error bail c
      | loaded newconfig ↦
          elim (read_values build (values build sys.directories)
            (record { config_data = newconfig; conf = c.conf; world = c.manager.world })) [
              | throws e r ↦ report_config_error bail (with_reader r c)
              | breaks ↦ goes_wrong
              | reads r ↦ read_modules bail (with_reader r c)
            ]
    ]
