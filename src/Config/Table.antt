-- ===== src/Config/Table.antt =====
-- The table `Values` of `ServerConfig::Read` (src/configreader.cpp).
use hottpd.Base.{List, [], ◌∷◌, Bytes, codes}
use hottpd.Config.Settings.{
  ValueContainer, value_container_char, value_container_int, value_container_uint,
  value_container_bool, the_doc_root, the_debug_name, the_mod_path, the_custom_version, the_pid,
  the_set_user, the_set_group, the_ch_root, the_net_buffer_size, the_stat_cache_duration,
  the_max_conn, the_keep_alive_max, the_timeout_cull_frequency, the_timeout_total_lifetime,
  the_timeout_idle_lifetime, the_max_post_body, the_maximum_dynamic_processes, the_follow_sym_links,
  the_no_atime,
}
use hottpd.Config.Validators.{
  Directories, Validator, no_validation, validate_soft_limit, validate_max_conn,
  validate_net_buffer_size, validate_log_level, validate_dir,
}
use hottpd.Config.Entries.{
  DataKind, dt_integer, dt_charptr, dt_boolean, InitialConfig, Build, plain,
}

abbrev server : Bytes
server = codes "server"

abbrev security : Bytes
security = codes "security"

abbrev performance : Bytes
performance = codes "performance"

module _ {World : Type 0} (build : Build) (sys : Directories World) where
  abbrev pub entry :
      Bytes → Bytes → Bytes → ValueContainer → DataKind → Validator World → InitialConfig World
  entry tag value default_value val kind validation_function = record {
    tag = tag;
    value = value;
    default_value = default_value;
    val = val;
    datatype = plain kind;
    validation_function = validation_function;
  }

  abbrev pub document_root : InitialConfig World
  document_root =
      entry server (codes "document-root") [] (value_container_char the_doc_root) dt_charptr
        (validate_dir sys)

  abbrev pub soft_limit_entry : InitialConfig World
  soft_limit_entry =
      entry server (codes "softlimit") build.max_clients_s (value_container_uint) dt_integer
        (validate_soft_limit build.max_clients)

  abbrev pub log_level_entry : InitialConfig World
  log_level_entry =
      entry server (codes "loglevel") (codes "default") (value_container_char the_debug_name)
        dt_charptr validate_log_level

  abbrev pub net_buffer_size_entry : InitialConfig World
  net_buffer_size_entry =
      entry server (codes "netbuffersize") (codes "10240") (value_container_int the_net_buffer_size)
        dt_integer validate_net_buffer_size

  -- The entries after the first four, none of which has a validator that does more than warn.
  abbrev pub unchecked : List (InitialConfig World)
  unchecked =
      entry server (codes "moduledir") build.mod_path (value_container_char the_mod_path) dt_charptr
        no_validation
      ∷ entry server (codes "customversion") [] (value_container_char the_custom_version) dt_charptr
          no_validation
      ∷ entry server (codes "pidfile") [] (value_container_char the_pid) dt_charptr no_validation
      ∷ entry security (codes "follow-symlinks") (codes "yes")
          (value_container_bool the_follow_sym_links) dt_boolean no_validation
      ∷ entry security (codes "user") [] (value_container_char the_set_user) dt_charptr
          no_validation
      ∷ entry security (codes "group") [] (value_container_char the_set_group) dt_charptr
          no_validation
      ∷ entry security (codes "chroot") [] (value_container_char the_ch_root) dt_charptr
          no_validation
      ∷ entry performance (codes "stat-cache-time") (codes "2")
          (value_container_int the_stat_cache_duration) dt_integer no_validation
      ∷ entry performance (codes "noatime") (codes "yes") (value_container_bool the_no_atime)
          dt_boolean no_validation
      ∷ entry performance (codes "max-conn-queue") build.somaxconn_s
          (value_container_int the_max_conn) dt_integer validate_max_conn
      ∷ entry performance (codes "keepalive-max") (codes "30")
          (value_container_int the_keep_alive_max) dt_integer no_validation
      ∷ entry performance (codes "timeout-frequency") (codes "120")
          (value_container_int the_timeout_cull_frequency) dt_integer no_validation
      ∷ entry performance (codes "timeout-total-lifetime") (codes "30")
          (value_container_int the_timeout_total_lifetime) dt_integer no_validation
      ∷ entry performance (codes "timeout-idle-lifetime") (codes "5")
          (value_container_int the_timeout_idle_lifetime) dt_integer no_validation
      ∷ entry performance (codes "max-post-body") (codes "1024")
          (value_container_int the_max_post_body) dt_integer no_validation
      ∷ entry performance (codes "max-dynamic-processes") (codes "2")
          (value_container_int the_maximum_dynamic_processes) dt_integer no_validation
      ∷ []

  abbrev pub values : List (InitialConfig World)
  values = document_root ∷ soft_limit_entry ∷ log_level_entry ∷ net_buffer_size_entry ∷ unchecked
