-- ===== src/Files.antt =====
-- src/filesystem.cpp and include/filesystem.h: `FileSystem::Stat` with its two caches, and
-- `FileSystem::CheckFilePath`. The system calls `stat` and `lstat` are the argument `ask`, which
-- says for a world, `followlink` and a path what the call answers and the world after it.
pub mod Cache
pub mod Path
pub mod Effects
pub mod Tests
use hottpd.Base.{
  ℕ, ◌+◌, Bool, true, false, ◌&&◌, Option, none, some, List, [], ◌∷◌, ◌++◌, ltb, ◌==◌,
  if◌then◌else◌, Bytes, eq_bytes,
}

-- The values of `errno` that the program tells apart.
pub data Errno : Type 0 where
  eacces enoent eloop enametoolong enotdir other_error : Errno

-- `S_ISDIR`, `S_ISREG`, or neither
pub data Mode : Type 0 where
  directory regular special : Mode

-- The fields of `struct stat` that the program reads.
pub record StatBuf : Type 0 where
  pub mode : Mode
  pub size : ℕ
  pub uid : ℕ

-- A result of 0 with the structure, or a negative one with `errno`.
pub data StatAnswer : Type 0 where
  found : StatBuf → StatAnswer
  failed : Errno → StatAnswer

pub record StatCacheItem : Type 0 where
  pub created : ℕ
  pub answer : StatAnswer

abbrev pub Cache : Type 0
Cache = List (Bytes × StatCacheItem)

pub record Caches : Type 0 where
  pub stat_cache : Cache
  pub link_stat_cache : Cache

-- What `Stat` reads of the configuration and the clock. A duration below 1 is 0 here.
pub record StatConfig : Type 0 where
  pub stat_cache_duration : ℕ
  pub follow_sym_links : Bool
  pub now : ℕ

unfoldable pub lookup : Bytes → Cache → Option StatCacheItem
unfolding eq_bytes
lookup path [] = none
lookup path ((k, v) ∷ cache) = if eq_bytes k path then some v else lookup path cache

unfoldable pub erase : Bytes → Cache → Cache
unfolding eq_bytes
erase path [] = []
erase path ((k, v) ∷ cache) =
    let rest = erase path cache in if eq_bytes k path then rest else (k, v) ∷ rest

abbrev pub expires : ℕ → StatCacheItem → ℕ
expires duration item = elim item.answer [
  | found _ ↦ item.created + duration
  | failed _ ↦ item.created + 1
]

abbrev pub choose : Bool → Caches → Cache
choose true c = c.stat_cache
choose false c = c.link_stat_cache

abbrev pub replace : Bool → Cache → Caches → Caches
replace true cache c = record c { stat_cache = cache }
replace false cache c = record c { link_stat_cache = cache }

-- `basedir` with one slash at its end taken off
unfoldable pub without_slash : Bytes → Bytes
without_slash [] = []
without_slash (c ∷ []) = if c == b'/' then [] else c ∷ []
without_slash (c ∷ d ∷ rest) = c ∷ without_slash (d ∷ rest)

pub data PathAnswer : Type 0 where
  serve : Bytes → StatBuf → PathAnswer
  refuse : Errno → PathAnswer

-- After the loop: the whole path.
unfoldable pub at_end : Bytes → StatAnswer → PathAnswer
at_end path (failed e) = refuse e
at_end path (found st) = elim st.mode [ regular ↦ serve path st | _ ↦ refuse eacces ]

-- Inside it, at a slash; `onward` is what the rest of the loop gives.
unfoldable pub at_slash {ℓ} :
    {S : Type ℓ} → Bytes → StatAnswer → S → PathAnswer × S → PathAnswer × S
at_slash path (failed e) s onward = (refuse e, s)
at_slash path (found st) s onward = elim st.mode [
  | directory ↦ onward
  | regular ↦ (serve path st, s)
  | special ↦ (refuse eacces, s)
]

module _ {World : Type 0} (ask : World → Bool → Bytes → StatAnswer × World) where
  abbrev pub Fs : Type 0
  Fs = Caches × World

  -- A call of the system, whose answer goes into the cache.
  unfoldable pub refresh : StatConfig → Bool → Bytes → Fs → StatAnswer × Fs
  unfolding erase
  refresh conf follow path (c, w) =
      let (answer, w') = ask w follow path in
      let item : StatCacheItem = record { created = conf.now; answer = answer } in
      (answer, (replace follow ((path, item) ∷ erase path (choose follow c)) c, w'))

  unfoldable pub stat : StatConfig → Bool → Bool → Bytes → Fs → StatAnswer × Fs
  unfolding refresh lookup
  stat conf follow fromcache path (c, w) =
      if conf.stat_cache_duration == 0
      then (let (answer, w') = ask w follow path in (answer, (c, w')))
      else elim (lookup path (choose follow c)) [
        | none ↦ refresh conf follow path (c, w)
        | some item ↦
            if fromcache && ltb conf.now (expires conf.stat_cache_duration item)
            then (item.answer, (c, w))
            else refresh conf follow path (c, w)
      ]

  -- The loop of `CheckFilePath`: `before` is the part of `fullpath` that ends at the iterator.
  unfoldable pub climb : StatConfig → Bytes → Bytes → Fs → PathAnswer × Fs
  unfolding at_end at_slash
  climb conf before [] fs =
      let (answer, fs') = stat conf conf.follow_sym_links true before fs in
      (at_end before answer, fs')
  climb conf before (c ∷ rest) fs =
      let (answer, fs') = stat conf conf.follow_sym_links true before fs in
      let onward = climb conf (before ++ c ∷ []) rest fs' in
      let skip = climb conf (before ++ c ∷ []) rest fs in
      if c == b'/' then at_slash before answer fs' onward else skip

  -- The loop begins after the first byte of the path, which is not empty.
  unfoldable pub check_file_path : StatConfig → Bytes → Bytes → Fs → PathAnswer × Fs
  unfolding climb stat without_slash
  check_file_path conf basedir [] fs = climb conf (without_slash basedir) [] fs
  check_file_path conf basedir (c ∷ path) fs = climb conf (without_slash basedir ++ c ∷ []) path fs
