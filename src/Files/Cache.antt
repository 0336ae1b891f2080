-- ===== src/Files/Cache.antt =====
-- The age of what the two caches of `Stat` (src/filesystem.cpp) hold.
use hottpd.Base.{
  ℕ, ◌+◌, ◌≤◌, ◌<◌, Bool, true, false, ◌&&◌, some, [], ◌∷◌, ◌≡◌, ◌⊎◌, inl, inr, refl, ltb, ◌==◌,
  Bytes, eq_bytes, eq_bytes_iff, All, arith, Bool-cases, Option-cases, &&_right,
}
use hottpd.Files.{
  StatAnswer, found, failed, StatCacheItem, Cache, Caches, StatConfig, lookup, erase, expires,
  choose, replace, refresh, stat, Fs,
}

-- Each entry is what the system said of its path when the entry was made, in the past.
module _ (truth : ℕ → Bool → Bytes → StatAnswer) where
  abbrev pub Recorded : Bool → ℕ → Cache → Type 0
  Recorded follow now cache =
      All
        (λ (entry : Bytes × StatCacheItem).
          (entry.1.answer ≡ truth entry.1.created follow entry.0) × (entry.1.created ≤ now))
        cache

  pub record IsHonest (now : ℕ) (c : Caches) : Type 0 where
    pub followed : Recorded true now c.stat_cache
    pub links : Recorded false now c.link_stat_cache

  Recorded-choose :
      (follow : Bool) (now : ℕ) (c : Caches)
      → IsHonest now c
      → Recorded follow now (choose follow c)
  Recorded-choose true now c h = h.followed
  Recorded-choose false now c h = h.links

  IsHonest-replace :
      (follow : Bool) (now : ℕ) (cache : Cache) (c : Caches)
      → Recorded follow now cache
      → IsHonest now c
      → IsHonest now (replace follow cache c)
  IsHonest-replace true now cache c r h = record { followed = r; links = h.links }
  IsHonest-replace false now cache c r h = record { followed = h.followed; links = r }

  erase-Recorded :
      (follow : Bool) (now : ℕ) (path : Bytes) (cache : Cache)
      → Recorded follow now cache
      → Recorded follow now (erase path cache)
  unfolding erase
  erase-Recorded follow now path [] h = tt
  erase-Recorded follow now path ((k, v) ∷ cache) h = elim (Bool-cases (eq_bytes k path)) [
    | inl e ↦ rw e (erase-Recorded follow now path cache h.1)
    | inr e ↦ rw e (h.0, erase-Recorded follow now path cache h.1)
  ]

  lookup-Recorded :
      (follow : Bool) (now : ℕ) (path : Bytes) (cache : Cache) {item : StatCacheItem}
      → Recorded follow now cache
      → lookup path cache ≡ some item
      → (item.answer ≡ truth item.created follow path) × (item.created ≤ now)
  unfolding lookup
  lookup-Recorded follow now path [] h e = cc
  lookup-Recorded follow now path ((k, v) ∷ cache) {item} h e =
      elim (Bool-cases (eq_bytes k path)) [
        | inl same ↦ ground (arith, eq_bytes_iff k path)
        | inr other ↦ lookup-Recorded follow now path cache h.1 (rw other at e)
      ]

  -- How old an answer may be: the duration, but less than a second for an error.
  abbrev pub lifetime : ℕ → StatAnswer → ℕ
  lifetime duration (found _) = duration
  lifetime duration (failed _) = 1

  -- The answer was the system's at a time that is now, or not longer ago than its lifetime.
  pub record IsTimely (conf : StatConfig) (follow : Bool) (path : Bytes) (answer : StatAnswer)
      : Type 0 where
    pub time : ℕ
    pub true_then : answer ≡ truth time follow path
    pub past : time ≤ conf.now
    pub recent : (time ≡ conf.now) ⊎ (conf.now < time + lifetime conf.stat_cache_duration answer)

  lt_expires :
      (duration now : ℕ) (item : StatCacheItem)
      → ltb now (expires duration item) ≡ true
      → now < item.created + lifetime duration item.answer
  lt_expires duration now item h = ground arith

module _ {World : Type 0} (ask : World → Bool → Bytes → StatAnswer × World)
    (truth : ℕ → Bool → Bytes → StatAnswer) where
  abbrev pub Good : StatConfig → Bool → Bytes → StatAnswer × Fs ask → Type 0
  Good conf follow path (answer, (c, w)) =
      IsTimely truth conf follow path answer × IsHonest truth conf.now c

  module _ (conf : StatConfig)
      (asks : (w : World) (follow : Bool) (path : Bytes)
        → (ask w follow path).0 ≡ truth conf.now follow path) where
    refresh-Good :
        (follow : Bool) (path : Bytes) (c : Caches) (w : World)
        → IsHonest truth conf.now c
        → Good conf follow path (refresh ask conf follow path (c, w))
    unfolding refresh
    refresh-Good follow path c w h = (
      record {
        time = conf.now;
        true_then = asks w follow path;
        past = omega arith;
        recent = inl refl;
      },
      IsHonest-replace truth follow conf.now _ c
          (
            (asks w follow path, omega arith),
            erase-Recorded truth follow conf.now path (choose follow c)
                (Recorded-choose truth follow conf.now c h),
          )
          h,
    )

    -- Where the system call answers by what is true now, and each cache holds answers that were
    -- true when they were made, `Stat` gives an answer that is true now or was within its time to
    -- live, and leaves the caches so.
    pub stat-Good :
        (follow fromcache : Bool) (path : Bytes) (c : Caches) (w : World)
        → IsHonest truth conf.now c
        → Good conf follow path (stat ask conf follow fromcache path (c, w))
    unfolding stat
    stat-Good follow fromcache path c w h = elim (Bool-cases (conf.stat_cache_duration == 0)) [
      | inl e ↦ rw e (
        record {
          time = conf.now;
          true_then = asks w follow path;
          past = omega arith;
          recent = inl refl;
        },
        h,
      )
      | inr e ↦ rw e (elim (Option-cases (lookup path (choose follow c))) [
        | inl absent ↦ rw absent (refresh-Good follow path c w h)
        | inr (item, present) ↦
            rw present
              (elim (Bool-cases
                (fromcache && ltb conf.now (expires conf.stat_cache_duration item))) [
                  | inl fresh ↦
                      let (was, past) =
                        lookup-Recorded truth follow conf.now path (choose follow c)
                          (Recorded-choose truth follow conf.now c h) present in
                      rw fresh (
                        record {
                          time = item.created;
                          true_then = was;
                          past = past;
                          recent = inr (
                              lt_expires truth conf.stat_cache_duration conf.now item
                                (&&_right fromcache _ fresh));
                        },
                        h,
                      )
                  | inr stale ↦ rw stale (refresh-Good follow path c w h)
                ])
      ])
    ]
