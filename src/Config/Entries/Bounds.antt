-- ===== src/Config/Entries/Bounds.antt =====
-- What the loop over the table of `ServerConfig::Read` (src/configreader.cpp) comes to.
use hottpd.Base.{
  ℕ, ◌≡◌, ◌≤◌, ◌<◌, ◌^◌, ◌⊎◌, refl, ap, sym, ◌∙◌, true, false, ◌||◌, [], if◌then◌else◌, Bytes,
  codes, arith, Bool-cases, inl, inr, pos,
}
use hottpd.Config.{ConfigData}
use hottpd.Config.Values.{conf_value}
use hottpd.Config.Item.{strlcpy, get_integer, int_text}
use hottpd.Config.Settings.{
  ServerConfig, set_char, set_int, unsigned, the_doc_root, the_debug_name, the_mod_path,
  the_custom_version, the_pid, the_set_user, the_set_group, the_ch_root, the_net_buffer_size,
  the_stat_cache_duration, the_max_conn, the_keep_alive_max, the_timeout_cull_frequency,
  the_timeout_total_lifetime, the_timeout_idle_lifetime, the_max_post_body,
  the_maximum_dynamic_processes, the_follow_sym_links, the_no_atime,
}
use hottpd.Config.Validators.{
  Directories, no_validation, validate_max_conn, validate_log_level, validate_dir, level_of,
  is_debug, below, above, dir_valid, not_a_directory,
}
use hottpd.Config.Entries.{
  Build, Reader, store, store_int, text_of, take_value, reads, throws, read_value, read_values,
}
use hottpd.Config.Entries.Steps.{
  store_text-char, Passes, ◌also◌, all_done, AllHarmless, char-Harmless, int-Harmless,
  bool-Harmless, read_values-AllHarmless,
}
use hottpd.Config.Entries.Ranges.{
  Within, corrected-Within, validate_soft_limit-item, validate_net_buffer_size-item,
  unsigned-Within,
}
use hottpd.Config.Table.{
  document_root, soft_limit_entry, log_level_entry, net_buffer_size_entry, unchecked, values,
}

-- The text of the document root in a configuration.
abbrev pub root_text : Build → ConfigData → Bytes
root_text build target =
    strlcpy (text_of (conf_value target (codes "server") (codes "document-root") [] 0 false).0)
      build.max_buf

-- What the settings that are checked are, once all values have been read, from `w` on.
pub record Checked {World : Type 0} (build : Build) (sys : Directories World) (target : ConfigData)
    (w : World) (c : ServerConfig) : Type 0 where
  pub doc_root : c.doc_root ≡ root_text build target
  pub directory : (dir_valid sys c.doc_root w).0 ≡ true
  pub at_least : 1 ≤ c.soft_limit
  pub at_most : c.soft_limit ≤ build.max_clients
  pub buffer : (n : ℕ) × (c.net_buffer_size ≡ pos n) × (1024 ≤ n) × (n ≤ 65535)
  pub debugging : c.debugging ≡ is_debug c.log_level

module _ {World : Type 0} (build : Build) (sys : Directories World) (some_room : 0 < build.max_buf)
    (small : build.max_buf ≤ 1024) (some_clients : 0 < build.max_clients)
    (few_clients : build.max_clients < 2 ^ 31) where
  idle : Passes {World = World} build no_validation
  unfolding no_validation
  idle conf tag item w = refl

  warns : Passes {World = World} build validate_max_conn
  unfolding validate_max_conn
  warns conf tag item w = refl

  unchecked-AllHarmless : AllHarmless build (unchecked build sys)
  unchecked-AllHarmless =
      char-Harmless build some_room small _ _ _ _ idle the_mod_path refl
      also char-Harmless build some_room small _ _ _ _ idle the_custom_version refl
      also char-Harmless build some_room small _ _ _ _ idle the_pid refl
      also bool-Harmless build some_room small _ _ _ _ idle the_follow_sym_links
      also char-Harmless build some_room small _ _ _ _ idle the_set_user refl
      also char-Harmless build some_room small _ _ _ _ idle the_set_group refl
      also char-Harmless build some_room small _ _ _ _ idle the_ch_root refl
      also int-Harmless build some_room small _ _ _ _ idle the_stat_cache_duration refl
      also bool-Harmless build some_room small _ _ _ _ idle the_no_atime
      also int-Harmless build some_room small _ _ _ _ warns the_max_conn refl
      also int-Harmless build some_room small _ _ _ _ idle the_keep_alive_max refl
      also int-Harmless build some_room small _ _ _ _ idle the_timeout_cull_frequency refl
      also int-Harmless build some_room small _ _ _ _ idle the_timeout_total_lifetime refl
      also int-Harmless build some_room small _ _ _ _ idle the_timeout_idle_lifetime refl
      also int-Harmless build some_room small _ _ _ _ idle the_max_post_body refl
      also int-Harmless build some_room small _ _ _ _ idle the_maximum_dynamic_processes refl
      also all_done

  soft_limit-read :
      (r : Reader World)
      → (r' : Reader World) × (read_value build (soft_limit_entry build sys) r ≡ reads r')
        × (1 ≤ r'.conf.soft_limit)
        × (r'.conf.soft_limit ≤ build.max_clients)
        × (r'.conf.doc_root ≡ r.conf.doc_root)
  unfolding read_value take_value store store_int
  soft_limit-read r =
      let found =
        conf_value r.config_data (codes "server") (codes "softlimit") build.max_clients_s 0 false in
      let item : Bytes = strlcpy (text_of found.0) build.max_buf in
      let item' : Bytes =
        if below (get_integer item) 1 || above (get_integer item) build.max_clients
        then int_text (pos build.max_clients)
        else item in
      let (low, high) = unsigned-Within build.max_clients few_clients (get_integer item') (
        corrected-Within 1 build.max_clients build.max_clients item some_clients (omega arith)
          few_clients) in
      (
        record {
          config_data = found.1;
          conf = record (r.conf) { soft_limit = unsigned (get_integer item') };
          world = r.world;
        },
        rw (validate_soft_limit-item build.max_clients r.conf (codes "server") item r.world) refl,
        low,
        high,
        refl,
      )

  log_level-read :
      (r : Reader World)
      → (r' : Reader World) × (read_value build (log_level_entry build sys) r ≡ reads r')
        × (r'.conf.debugging ≡ is_debug r'.conf.log_level)
        × (r'.conf.soft_limit ≡ r.conf.soft_limit)
        × (r'.conf.doc_root ≡ r.conf.doc_root)
  unfolding read_value take_value store validate_log_level set_char
  log_level-read r =
      let found =
        conf_value r.config_data (codes "server") (codes "loglevel") (codes "default") 0 false in
      let item : Bytes = strlcpy (text_of found.0) build.max_buf in
      let conf : ServerConfig = record (r.conf) {
        log_level = level_of item;
        debugging = is_debug (level_of item);
      } in
      (
        record { config_data = found.1; conf = set_char the_debug_name item conf; world = r.world },
        rw (store_text-char build.max_buf the_debug_name (text_of found.0) conf some_room small)
            refl,
        refl,
        refl,
        refl,
      )

  net_buffer_size-read :
      (r : Reader World)
      → (r' : Reader World) × (read_value build (net_buffer_size_entry build sys) r ≡ reads r')
        × Within 1024 65535 r'.conf.net_buffer_size
        × (r'.conf.debugging ≡ r.conf.debugging)
        × (r'.conf.log_level ≡ r.conf.log_level)
        × (r'.conf.soft_limit ≡ r.conf.soft_limit)
        × (r'.conf.doc_root ≡ r.conf.doc_root)
  unfolding read_value take_value store store_int set_int
  net_buffer_size-read r =
      let found =
        conf_value r.config_data (codes "server") (codes "netbuffersize") (codes "10240") 0 false in
      let item : Bytes = strlcpy (text_of found.0) build.max_buf in
      let item' : Bytes =
        if below (get_integer item) 1024 || above (get_integer item) 65535
        then int_text (pos 10240)
        else item in
      (
        record {
          config_data = found.1;
          conf = set_int the_net_buffer_size (get_integer item') r.conf;
          world = r.world;
        },
        rw (validate_net_buffer_size-item r.conf (codes "server") item r.world) refl,
        corrected-Within 1024 65535 10240 item (omega arith) (omega arith) (omega arith),
        refl,
        refl,
        refl,
        refl,
      )

  document_root-read :
      (r : Reader World)
      → ((r' : Reader World) × (read_value build (document_root build sys) r
            ≡ throws (not_a_directory (codes "server")) r')
          × ((dir_valid sys (root_text build r.config_data) r.world).0 ≡ false)
          × (r'.conf ≡ r.conf))
        ⊎ ((r' : Reader World) × (read_value build (document_root build sys) r ≡ reads r')
            × (r'.conf.doc_root ≡ root_text build r.config_data)
            × ((dir_valid sys (root_text build r.config_data) r.world).0 ≡ true))
  unfolding read_value take_value store validate_dir set_char
  document_root-read r =
      let found = conf_value r.config_data (codes "server") (codes "document-root") [] 0 false in
      let item : Bytes = strlcpy (text_of found.0) build.max_buf in
      let w : World = (dir_valid sys item r.world).1 in
      elim (Bool-cases (dir_valid sys item r.world).0) [
        | inl valid ↦ inr (
          record { config_data = found.1; conf = set_char the_doc_root item r.conf; world = w },
          rw
              (
                valid,
                store_text-char build.max_buf the_doc_root (text_of found.0) r.conf some_room small,
              )
              refl,
          refl,
          valid,
        )
        | inr bad ↦
            inl (record { config_data = found.1; conf = r.conf; world = w }, rw bad refl, bad, refl)
      ]

  -- Let MAXBUF be positive and not above 1024, and MAXCLIENTS positive and below 2^31. However the
  -- configuration is, the values are all read or the first of them, the document root, is refused.
  -- If `DirValid` refuses it, the loop throws that it is not a directory, and every setting is as it
  -- was. Else the document root is that of the configuration and passes `DirValid`, SoftLimit is at least 1 and at most MAXCLIENTS, NetBufferSize
  -- at least 1024 and at most 65535, and debugging is set just for the log level `debug`. No
  -- container is used as one of another kind, and no array overflows.
  pub read_values-Checked :
      (r : Reader World)
      → ((r' : Reader World) × (read_values build (values build sys) r
            ≡ throws (not_a_directory (codes "server")) r')
          × ((dir_valid sys (root_text build r.config_data) r.world).0 ≡ false)
          × (r'.conf ≡ r.conf))
        ⊎ ((r' : Reader World) × (read_values build (values build sys) r ≡ reads r')
            × Checked build sys r.config_data r.world r'.conf)
  unfolding read_values
  read_values-Checked r = elim (document_root-read r) [
    | inl (r1, fails, bad, same) ↦ inl (r1, rw (read_values, fails) refl, bad, same)
    | inr (r1, one, root1, valid) ↦
        let (r2, two, low, high, root2) = soft_limit-read r1 in
        let (r3, three, level, soft3, root3) = log_level-read r2 in
        let (r4, four, buffer, debugging4, level4, soft4, root4) = net_buffer_size-read r3 in
        let (r5, five, same) =
          read_values-AllHarmless build (unchecked build sys) r4 unchecked-AllHarmless in
        let soft : r5.conf.soft_limit ≡ r2.conf.soft_limit = same.soft_limit ∙ soft4 ∙ soft3 in
        let root : r5.conf.doc_root ≡ root_text build r.config_data =
          same.doc_root ∙ root4 ∙ root3 ∙ root2 ∙ root1 in
        inr (
          r5,
          rw (read_values, one)
              (rw (read_values, two) (rw (read_values, three) (rw (read_values, four) five))),
          record {
            doc_root = root;
            directory = ap (λ p. (dir_valid sys p r.world).0) root ∙ valid;
            at_least = omega (arith, soft, low);
            at_most = omega (arith, soft, high);
            buffer = (buffer.0, same.net_buffer_size ∙ buffer.1, buffer.2, buffer.3);
            debugging =
                same.debugging ∙ debugging4 ∙ level ∙ ap is_debug (sym (same.log_level ∙ level4));
          },
        )
  ]
