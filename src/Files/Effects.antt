-- ===== src/Files/Effects.antt =====
-- What `CheckFilePath` (src/filesystem.cpp) does to the system: it asks, and nothing else.
use hottpd.Base.{
  Bool, true, [], ◌∷◌, ◌++◌, ◌≡◌, inl, inr, refl, ◌∙◌, ◌==◌, Bytes, Bool-cases, Option-cases, ltb,
  ◌&&◌,
}
use hottpd.Files.{
  StatAnswer, found, failed, StatConfig, PathAnswer, regular, directory, special, without_slash,
  refresh, stat, Fs, climb, check_file_path, at_slash, lookup, choose, expires,
}

module _ {World A : Type 0} (ask : World → Bool → Bytes → StatAnswer × World) (conf : StatConfig)
    (view : World → A)
    (still : (w : World) (follow : Bool) (path : Bytes) → view (ask w follow path).1 ≡ view w) where
  refresh-keeps :
      (follow : Bool) (path : Bytes) (fs : Fs ask)
      → view (refresh ask conf follow path fs).1.1 ≡ view fs.1
  unfolding refresh
  refresh-keeps follow path (c, w) = still w follow path

  stat-keeps :
      (follow fromcache : Bool) (path : Bytes) (fs : Fs ask)
      → view (stat ask conf follow fromcache path fs).1.1 ≡ view fs.1
  unfolding stat
  stat-keeps follow fromcache path (c, w) = elim (Bool-cases (conf.stat_cache_duration == 0)) [
    | inl e ↦ rw (stat, e) (still w follow path)
    | inr e ↦ elim (Option-cases (lookup path (choose follow c))) [
      | inl l ↦ rw (stat, e, l) (refresh-keeps follow path (c, w))
      | inr (item, l) ↦
          elim (Bool-cases (fromcache && ltb conf.now (expires conf.stat_cache_duration item))) [
            | inl h ↦ rw (stat, e, l, h) refl
            | inr h ↦ rw (stat, e, l, h) (refresh-keeps follow path (c, w))
          ]
    ]
  ]

  at_slash-keeps :
      (path : Bytes) (answer : StatAnswer) (fs before : Fs ask) (onward : PathAnswer × Fs ask)
      → view fs.1 ≡ view before.1
      → view onward.1.1 ≡ view before.1
      → view (at_slash path answer fs onward).1.1 ≡ view before.1
  unfolding at_slash
  at_slash-keeps path (failed e) fs before onward h k = h
  at_slash-keeps path (found st) fs before onward h k =
      elim st.mode
        as (λ m.
          view (at_slash path (found (record st { mode = m })) fs onward).1.1 ≡ view before.1) [
            | directory ↦ k
            | regular ↦ h
            | special ↦ h
          ]

  climb-keeps :
      (rest before : Bytes) (fs : Fs ask) → view (climb ask conf before rest fs).1.1 ≡ view fs.1
  unfolding climb
  climb-keeps [] before fs = stat-keeps conf.follow_sym_links true before fs
  climb-keeps (c ∷ rest) before fs =
      let fs' = (stat ask conf conf.follow_sym_links true before fs).1 in
      let asked = stat-keeps conf.follow_sym_links true before fs in
      elim (Bool-cases (c == b'/')) [
        | inl e ↦ rw e (
            at_slash-keeps before _ fs' fs _ asked
              (climb-keeps rest (before ++ c ∷ []) fs' ∙ asked))
        | inr e ↦ rw e (climb-keeps rest (before ++ c ∷ []) fs)
      ]

  -- What asking leaves as it is, `CheckFilePath` leaves as it is.
  pub check_file_path-keeps :
      (basedir path : Bytes) (fs : Fs ask)
      → view (check_file_path ask conf basedir path fs).1.1 ≡ view fs.1
  unfolding check_file_path
  check_file_path-keeps basedir [] fs = climb-keeps [] (without_slash basedir) fs
  check_file_path-keeps basedir (c ∷ path) fs =
      climb-keeps path (without_slash basedir ++ c ∷ []) fs
