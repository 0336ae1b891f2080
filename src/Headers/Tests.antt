-- ===== src/Headers/Tests.antt =====
-- Runs of the header map.
use hottpd.Base.{◌≡◌, refl, [], codes, ◌∷◌, if◌then◌else◌, some, none}
use hottpd.Headers.Laws.{find-set_header, find-remove_header, find-create_header}
use hottpd.Headers.{
  Headers, set_header, get_header, formatted, find, same_name, is_set, remove_header, create_header,
}

abbrev two : Headers
two =
    (record { name = codes "Date"; value = codes "today" })
    ∷ (record { name = codes "Server"; value = codes "x" })
    ∷ []

replaced :
    formatted (set_header (codes "DATE") (codes "now") two) ≡ codes "Date: now\r\nServer: x\r\n"
unfolding formatted set_header hottpd.Headers.Order.compare_names
replaced = refl

inserted :
    formatted (set_header (codes "Host") (codes "h") two)
    ≡ codes "Date: today\r\nHost: h\r\nServer: x\r\n"
unfolding formatted set_header hottpd.Headers.Order.compare_names
inserted = refl

host_set : find (codes "host") (set_header (codes "Host") (codes "a") two) ≡ (
    if same_name (codes "host") (codes "Host") then some (codes "a") else find (codes "host") two)
host_set = find-set_header (codes "host") (codes "Host") (codes "a") two

removed_find :
    find (codes "host") (remove_header (codes "Host") two)
    ≡ (if same_name (codes "host") (codes "Host") then none else find (codes "host") two)
removed_find = find-remove_header (codes "host") (codes "Host") two

created_find : find (codes "date") (create_header (codes "Date") (codes "now") two) ≡ (
    if is_set (codes "Date") two
    then find (codes "date") two
    else if same_name (codes "date") (codes "Date")
    then some (codes "now")
    else find (codes "date") two)
created_find = find-create_header (codes "date") (codes "Date") (codes "now") two
