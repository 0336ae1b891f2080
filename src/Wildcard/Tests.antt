-- ===== src/Wildcard/Tests.antt =====
-- Runs of the matcher on masks.
use hottpd.Base.{◌≡◌, refl, codes, ◌==◌, true}
use hottpd.Wildcard.{done, csmatch, match, same_folded}
use hottpd.Wildcard.Matches.{Matches}
use hottpd.Wildcard.Loop.{Decides}
use hottpd.Wildcard.Correct.{csmatch-Decides, match-Decides}

a_module : match (codes "M_cgi.so") (codes "m_*.s?") ≡ done true
unfolding match
a_module = refl

csmatch-Decides_example :
    Decides
      (Matches ◌==◌ (codes "m_*.so") (codes "m_cgi.so"))
      (csmatch (codes "m_cgi.so") (codes "m_*.so"))
csmatch-Decides_example = csmatch-Decides (codes "m_cgi.so") (codes "m_*.so")

match-Decides_example :
    Decides
      (Matches same_folded (codes "M_*.so") (codes "m_a.so.so"))
      (match (codes "m_a.so.so") (codes "M_*.so"))
match-Decides_example = match-Decides (codes "m_a.so.so") (codes "M_*.so")
