-- ===== src/Config/Entries/Steps.antt =====
-- One entry of the table is read: what `read_value` does for each kind of container.
use hottpd.Base.{
  ℕ, zero, suc, ◌≡◌, ◌≤◌, ◌<◌, refl, true, false, List, [], ◌∷◌, ltb, ◌==◌, Bytes, length, arith,
  Bool-cases, inl, inr,
}
use hottpd.Config.Values.{conf_value}
use hottpd.Config.Item.{strlcpy, get_integer, get_bool}
use hottpd.Config.Settings.{
  ServerConfig, value_container_char, value_container_int, value_container_bool, capacity, set_char,
  set_int, set_bool, CharArray, IntMember, BoolMember, the_doc_root, the_debug_name, the_mod_path,
  the_custom_version, the_pid, the_set_user, the_set_group, the_ch_root,
}
use hottpd.Config.Validators.{answered, Validator}
use hottpd.Config.Entries.{
  dt_integer, dt_charptr, dt_boolean, InitialConfig, Build, Reader, stored, plain, text_of,
  store_text, take_value, reads, store, store_int, store_bool, read_value, read_values,
}
use hottpd.Config.Entries.Same.{
  Same, untouched, is_doc_root, is_net_buffer_size, set_char-Same, set_int-Same, set_bool-Same,
  Same-trans,
}

pub strlcpy-fits : (src : Bytes) (n : ℕ) → 0 < n → length (strlcpy src n) < n
unfolding strlcpy
strlcpy-fits src zero h = absurd (omega (arith, h))
strlcpy-fits src (suc zero) h = omega arith
strlcpy-fits [] (suc (suc n)) h = omega arith
strlcpy-fits (c ∷ src) (suc (suc n)) h = elim (Bool-cases (c == 0)) [
  | inl e ↦ rw e (omega arith)
  | inr e ↦ let ih = strlcpy-fits src (suc n) (omega arith) in rw e (omega (arith, ih))
]

pub capacity_least : (max_buf : ℕ) (a : CharArray) → max_buf ≤ 1024 → max_buf ≤ capacity max_buf a
unfolding capacity
capacity_least max_buf the_doc_root h = omega arith
capacity_least max_buf the_debug_name h = omega arith
capacity_least max_buf the_mod_path h = h
capacity_least max_buf the_custom_version h = omega arith
capacity_least max_buf the_pid h = omega arith
capacity_least max_buf the_set_user h = omega arith
capacity_least max_buf the_set_group h = omega arith
capacity_least max_buf the_ch_root h = omega arith

pub store_text-char :
    (max_buf : ℕ) (a : CharArray) (text : Bytes) (conf : ServerConfig)
    → 0 < max_buf
    → max_buf ≤ 1024
    → store_text max_buf (value_container_char a) (strlcpy text max_buf) conf
      ≡ stored (set_char a (strlcpy text max_buf) conf)
unfolding store_text
store_text-char max_buf a text conf some_room small =
    let e : ltb (length (strlcpy text max_buf)) (capacity max_buf a) ≡ true =
      ground (arith, strlcpy-fits text max_buf some_room, capacity_least max_buf a small) in
    rw (store_text, e) refl

module _ {World : Type 0} (build : Build) where
  -- The entry is always read, and leaves those settings alone.
  abbrev pub Harmless : InitialConfig World → Type 0
  Harmless e =
      (r : Reader World)
      → (r' : Reader World) × (read_value build e r ≡ reads r') × Same r.conf r'.conf

  -- The validator passes every item on.
  abbrev pub Passes : Validator World → Type 0
  Passes v =
      (conf : ServerConfig) (tag item : Bytes) (w : World)
      → v conf tag item w ≡ answered true item conf w

  module _ (some_room : 0 < build.max_buf) (small : build.max_buf ≤ 1024)
      (tag value default_value : Bytes) (v : Validator World) (passes : Passes v) where
    pub char-Harmless :
        (a : CharArray)
        → is_doc_root a ≡ false
        → Harmless (record {
          tag = tag;
          value = value;
          default_value = default_value;
          val = value_container_char a;
          datatype = plain dt_charptr;
          validation_function = v;
        })
    unfolding read_value take_value store
    char-Harmless a other r =
        let found = conf_value r.config_data tag value default_value 0 false in
        let item : Bytes = strlcpy (text_of found.0) build.max_buf in
        (
          record { config_data = found.1; conf = set_char a item r.conf; world = r.world },
          rw
              (
                passes r.conf tag item r.world,
                store_text-char build.max_buf a (text_of found.0) r.conf some_room small,
              )
              refl,
          set_char-Same a item r.conf other,
        )

    pub int-Harmless :
        (m : IntMember)
        → is_net_buffer_size m ≡ false
        → Harmless (record {
          tag = tag;
          value = value;
          default_value = default_value;
          val = value_container_int m;
          datatype = plain dt_integer;
          validation_function = v;
        })
    unfolding read_value take_value store store_int
    int-Harmless m other r =
        let found = conf_value r.config_data tag value default_value 0 false in
        let item : Bytes = strlcpy (text_of found.0) build.max_buf in
        (
          record {
            config_data = found.1;
            conf = set_int m (get_integer item) r.conf;
            world = r.world;
          },
          rw (passes r.conf tag item r.world) refl,
          set_int-Same m (get_integer item) r.conf other,
        )

    pub bool-Harmless :
        (m : BoolMember)
        → Harmless (record {
          tag = tag;
          value = value;
          default_value = default_value;
          val = value_container_bool m;
          datatype = plain dt_boolean;
          validation_function = v;
        })
    unfolding read_value take_value store store_bool
    bool-Harmless m r =
        let found = conf_value r.config_data tag value default_value 0 false in
        let item : Bytes = strlcpy (text_of found.0) build.max_buf in
        (
          record {
            config_data = found.1;
            conf = set_bool m (get_bool item) r.conf;
            world = r.world;
          },
          rw (passes r.conf tag item r.world) refl,
          set_bool-Same m (get_bool item) r.conf,
        )

  infixr 4 ◌also◌
  pub data AllHarmless : List (InitialConfig World) → Type 0 where
    all_done : AllHarmless []
    ◌also◌ :
        {e : InitialConfig World} {es : List (InitialConfig World)}
        → Harmless e
        → AllHarmless es
        → AllHarmless (e ∷ es)

  pub read_values-AllHarmless :
      (es : List (InitialConfig World)) (r : Reader World)
      → AllHarmless es
      → (r' : Reader World) × (read_values build es r ≡ reads r') × Same r.conf r'.conf
  unfolding read_values
  read_values-AllHarmless [] r all_done = (r, refl, untouched refl refl refl refl refl)
  read_values-AllHarmless (e ∷ es) r (h also hs) =
      let (r1, one, same) = h r in
      let (r2, more, still) = read_values-AllHarmless es r1 hs in
      (r2, rw (read_values, one) more, Same-trans same still)
