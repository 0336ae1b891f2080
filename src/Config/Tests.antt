-- ===== src/Config/Tests.antt =====
-- A small configuration.
use hottpd.Base.{◌≡◌, refl, Bytes, codes, [], ◌∷◌, ◌++◌, some, false, All}
use hottpd.Config.{ConfigData, no_value, unexpected_end}
use hottpd.Config.Load.{loaded, error, load_conf, scan_line, text_lines}
use hottpd.Config.Values.{conf_value}
use hottpd.Config.WellFormed.{LoadOk, IsWellFormed, load_conf-WellFormed}
use hottpd.Config.Print.{IsSection, print}
use hottpd.Config.RoundTrip.{load_conf-print}
use hottpd.Config.Lookup.{looked_up, conf_value-looked_up}

abbrev text : Bytes
text = codes "# ports\nbind { /* any */ address = *;\n port=\"80\"\n}\n"

abbrev bind : ConfigData
bind = (codes "bind", (codes "address", codes "*") ∷ (codes "port", codes "80") ∷ []) ∷ []

text_loads : load_conf (some text) [] ≡ loaded bind
unfolding load_conf scan_line text_lines
text_loads = refl

no_value_fails : load_conf (some (codes "a {\n b =\n}")) [] ≡ error (no_value 2)
unfolding load_conf scan_line text_lines
no_value_fails = refl

-- On one line, the end of the section comes before the end of the item.
one_line_fails : load_conf (some (codes "a { b = c; }")) [] ≡ error (unexpected_end 1)
unfolding load_conf scan_line text_lines
one_line_fails = refl

load_conf-WellFormed_example : LoadOk IsWellFormed (load_conf (some text) [])
load_conf-WellFormed_example = load_conf-WellFormed (some text) [] tt

bind-IsSection : All IsSection bind
bind-IsSection = (
  (
    (refl, (refl, (refl, (refl, (refl, tt))))),
    (
      (
        (refl, (refl, (refl, (refl, (refl, (refl, (refl, (refl, tt)))))))),
        (refl, ((refl, refl), tt)),
      ),
      (
        ((refl, (refl, (refl, (refl, (refl, tt))))), (refl, ((refl, refl), ((refl, refl), tt)))),
        tt,
      ),
    ),
  ),
  tt,
)

load_conf-print_example : load_conf (some (print bind)) [] ≡ loaded ([] ++ bind)
load_conf-print_example = load_conf-print [] bind bind-IsSection

conf_value-looked_up_example :
    (conf_value bind (codes "bind") (codes "port") [] 0 false).0
    ≡ looked_up bind (codes "bind") (codes "port") [] 0 false
conf_value-looked_up_example = conf_value-looked_up bind (codes "bind") (codes "port") [] 0 false
