-- ===== src/Files/Tests.antt =====
-- Runs of `CheckFilePath` over a small tree.
use hottpd.Base.{
  ℕ, ◌≡◌, refl, arith, Bool, true, [], ◌∷◌, ◌++◌, Bytes, codes, eq_bytes, if◌then◌else◌,
}
use hottpd.Files.Cache.{IsHonest, Good, stat-Good}
use hottpd.Files.Path.{Sound, check_file_path-Sound}
use hottpd.Files.{
  without_slash, StatAnswer, StatConfig, Caches, found, failed, regular, directory, enoent, serve,
  check_file_path, stat, refuse,
}

abbrev pub tree : Unit {0} → Bool → Bytes → StatAnswer × Unit {0}
tree w follow path = (
  (if eq_bytes path (codes "/srv/a")
      then found (record { mode = directory; size = 0; uid = 0 })
      else if eq_bytes path (codes "/srv/a/f")
      then found (record { mode = regular; size = 5; uid = 0 })
      else failed enoent),
  tt,
)

abbrev pub conf : StatConfig
conf = record { stat_cache_duration = 2; follow_sym_links = true; now = 100 }

abbrev pub no_caches : Caches
no_caches = record { stat_cache = []; link_stat_cache = [] }

path_info :
    (check_file_path tree conf (codes "/srv/") (codes "/a/f/info") (no_caches, tt)).0
    ≡ serve (codes "/srv/a/f") (record { mode = regular; size = 5; uid = 0 })
unfolding check_file_path
path_info = refl

a_directory :
    (check_file_path tree conf (codes "/srv/") (codes "/a/") (no_caches, tt)).0 ≡ refuse enoent
unfolding check_file_path
a_directory = refl

abbrev truth : ℕ → Bool → Bytes → StatAnswer
truth time follow path = (tree tt follow path).0

abbrev cached : Caches
cached = record {
  stat_cache =
      (codes "/srv/a", record { created = 99; answer = truth 99 true (codes "/srv/a") }) ∷ [];
  link_stat_cache = [];
}

cached-IsHonest : IsHonest truth 100 cached
cached-IsHonest = record { followed = ((refl, omega arith), tt); links = tt }

stat-Good_example :
    Good tree truth conf true
      (codes "/srv/a")
      (stat tree conf true true (codes "/srv/a") (cached, tt))
stat-Good_example =
    stat-Good tree truth conf (λ w follow path. refl) true true (codes "/srv/a") cached tt
      cached-IsHonest

check_file_path-Sound_example :
    Sound tree conf
      (no_caches, tt)
      (without_slash (codes "/srv/") ++ b'/' ∷ [])
      (codes "a/f/info")
      (check_file_path tree conf (codes "/srv/") (b'/' ∷ codes "a/f/info") (no_caches, tt)).0
check_file_path-Sound_example =
    check_file_path-Sound tree conf (no_caches, tt) (codes "/srv/") b'/' (codes "a/f/info")
