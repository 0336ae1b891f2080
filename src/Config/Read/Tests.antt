-- ===== src/Config/Read/Tests.antt =====
-- Reading a small configuration at the start of the program.
use hottpd.Base.{
  ℕ, ◌≡◌, ◌≢◌, ◌⊎◌, refl, Bool, true, false, ◌&&◌, ◌==◌, none, some, [], ◌∷◌, Bytes, codes,
  eq_bytes, pos, arith,
}
use hottpd.Config.Settings.{ServerConfig, LogLevel}
use hottpd.Config.Validators.{
  Directories, not_a_directory, dir_valid, validate_dir, validate_soft_limit, validate_log_level,
  validate_net_buffer_size, no_validation, validate_max_conn,
}
use hottpd.Config.Entries.{Build, Reader, reads, throws, breaks, read_values}
use hottpd.Config.Entries.Bounds.{root_text, Checked, read_values-Checked}
use hottpd.Config.Entries.Typed.{read_values-IsTyped}
use hottpd.Config.Entries.Suited.{values-AllTyped}
use hottpd.Config.Table.{values}
use hottpd.Config.Read.{Core, returns, ReadEnd, Surroundings, read}
use hottpd.Config.Read.Ended.{Ended}
use hottpd.Modules.Loading.{Library, library, init_module, version, find_module}

abbrev lib : Library ℕ
lib = record {
  mod_path = [];
  max_buf = 0;
  api_version = 10000;
  dir_valid = λ w file. true;
  file_exists = λ w file. true;
  dlopen = λ w file. (library 0, w);
  dlsym = λ w h. none;
  dlclose = λ w h. w;
  call_init = λ w h. (init_module 8 [], w);
  get_version = λ w a. version 10000;
  is_static = λ w a. false;
  delete_module = λ w a. w;
  on_load_module = λ w a name. w;
  on_unload_module = λ w a name. w;
  prioritize = λ a. [];
}

abbrev build : Build
build = record {
  max_buf = 514;
  max_clients = 1024;
  max_clients_s = codes "1024";
  somaxconn_s = codes "128";
  mod_path = codes "/mods";
}

-- The one directory is /srv/www.
abbrev directories : Directories ℕ
unfolding eq_bytes
directories = record {
  getcwd = λ w. some (codes "/srv/www");
  chdir = λ w path. (eq_bytes path (codes "/srv/www"), w);
}

abbrev settings : ServerConfig
settings = record {
  doc_root = [];
  debug_name = [];
  mod_path = [];
  custom_version = [];
  pid = [];
  set_user = [];
  set_group = [];
  ch_root = [];
  soft_limit = 1024;
  net_buffer_size = pos 10240;
  stat_cache_duration = pos 2;
  max_conn = pos 128;
  keep_alive_max = pos 30;
  timeout_cull_frequency = pos 0;
  timeout_total_lifetime = pos 0;
  timeout_idle_lifetime = pos 0;
  max_post_body = pos 0;
  maximum_dynamic_processes = pos 0;
  follow_sym_links = true;
  no_atime = true;
  log_level = LogLevel.default;
  debugging = false;
}

abbrev text : Bytes
text =
    codes
      "server {\n document-root = \"/srv/www/\"\n softlimit = 0\n loglevel = debug\n}\nmodule {\n name = a.so\n}\n"

abbrev sys : Surroundings ℕ
unfolding directories
sys = record {
  config_file_name = codes "/etc/hottpd.conf";
  read_config = λ w. some text;
  directories = directories;
  open_to_write = λ w path. (eq_bytes path (codes "/etc/inspircd.pid"), w);
  bind_ports = λ target w. w;
}

abbrev core : Core ℕ
core = record {
  config_data = [];
  conf = settings;
  names = record {
    old_module_names = [];
    new_module_names = [];
    added_modules = [];
    removed_modules = [];
  };
  manager = record {
    modules = [];
    events = [] ∷ [];
    interfaces = [];
    mod_count = pos 0;
    last_error = none;
    world = 0;
  };
}

-- It returns, with a SoftLimit put right, `debugging` set and the module loaded.
went_well : ReadEnd ℕ → Bool
unfolding find_module
went_well (returns c) =
    c.conf.soft_limit == 1024
    && c.conf.debugging
    && elim (find_module (codes "a.so") c.manager.modules) [ none ↦ false | some _ ↦ true ]
went_well _ = false

it_goes_well : went_well (read build lib sys true core) ≡ true
unfolding went_well read sys validate_dir validate_soft_limit validate_log_level
    validate_net_buffer_size no_validation validate_max_conn
it_goes_well = refl

-- Of a name without a slash at its end only the directory above is looked at, and that of /srv is none.
last_part_unseen : (dir_valid directories (codes "/srv/www/none") 0).0 ≡ true
unfolding dir_valid directories
last_part_unseen = refl

first_level_refused : (dir_valid directories (codes "/srv") 0).0 ≡ false
unfolding dir_valid directories
first_level_refused = refl

read_values-Checked_example :
    ((r' : Reader ℕ) × (read_values build
          (values build directories)
          (record { config_data = []; conf = settings; world = 0 })
        ≡ throws (not_a_directory (codes "server")) r')
      × ((dir_valid directories (root_text build []) 0).0 ≡ false)
      × (r'.conf ≡ settings))
    ⊎ ((r' : Reader ℕ) × (read_values build
            (values build directories)
            (record { config_data = []; conf = settings; world = 0 })
          ≡ reads r')
        × Checked build directories [] 0 r'.conf)
read_values-Checked_example =
    read_values-Checked build directories (omega arith) (omega arith) (omega arith) (omega arith)
      (record { config_data = []; conf = settings; world = 0 })

abbrev start : Reader ℕ
start = record { config_data = []; conf = settings; world = 0 }

read_values-IsTyped_example : read_values build (values build directories) start ≢ breaks
read_values-IsTyped_example =
    read_values-IsTyped build (omega arith) (values build directories) start (omega arith)
      (values-AllTyped build (omega arith) directories)
