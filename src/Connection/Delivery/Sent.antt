-- ===== src/Connection/Delivery/Sent.antt =====
-- One step of sending a file: `ServeFile` (src/backend_write.cpp) and `SendStaticData`
-- (src/request.cpp).

use hottpd.Base.{
  ℕ, ◌+◌, ◌-◌, ◌≡◌, ◌≤◌, ◌⊎◌, inl, inr, refl, sym, ap, ◌∙◌, true, false, some, [], ◌++◌, ◌==◌,
  ==_iff, if◌then◌else◌, length, take, drop, take-append-drop, length-drop, append_assoc,
  append-nil, Bytes, arith, Bool-cases, Option-cases,
}
use hottpd.Connection.{http_send_data, Config, Host, Hooks, request_write}
use hottpd.Connection.Write.{State, serve_file}
use hottpd.Connection.Output.{end_request, send_static_data}
use hottpd.Connection.Delivery.{IsWire, InFlight, Outcome, drop-drop, drop_end, take_all}
use hottpd.Connection.Delivery.{delete-quits, SendAnswer-cases}

module _ (host : Host) (conf : Config) (hooks : Hooks host.World)
    (check : State host conf → State host conf) (wire : host.World → Bytes)
    (on_wire : IsWire host wire) (content : Bytes) (file : ℕ)
    (stable : (w : host.World) (text : Bytes)
      → (host.map_file w file (length content)).0 ≡ some text
      → text ≡ content) where
  abbrev pub OnWay : Bytes → State host conf → Type 0
  OnWay = InFlight host conf wire content file

  abbrev pub Result : Bytes → State host conf → Type 0
  Result = Outcome host conf wire content file (end_request host conf hooks check)

  -- After more of the file has been sent.
  module _ (whole : Bytes) (s : State host conf) (i : OnWay whole s)
      (state : s.conn.state ≡ http_send_data) (empty : s.conn.sendq ≡ []) where
    abbrev pub rest : Bytes
    rest = drop s.conn.rfilesent content

    abbrev pub onward : ℕ → host.World → State host conf
    onward n w = record s { conn = record (s.conn) { rfilesent = s.conn.rfilesent + n }; world = w }

    left : (n : ℕ) → s.conn.sendq ++ drop (s.conn.rfilesent + n) content ≡ drop n rest
    left n =
        ap (λ l. l ++ drop (s.conn.rfilesent + n) content) empty
        ∙ sym (drop-drop s.conn.rfilesent n content)

    pub onward-InFlight :
        (n : ℕ) (w : host.World)
        → n ≤ length rest
        → wire w ≡ wire s.world ++ take n rest
        → OnWay whole (onward n w)
    onward-InFlight n w fits out = record {
      backend = i.backend;
      unfinished = i.unfinished;
      served = i.served;
      size = i.size;
      within = omega (arith, length-drop s.conn.rfilesent content, i.within, fits);
      phase = inr (state, empty);
      total =
          ap (λ l. wire w ++ l) (left n)
          ∙ ap (λ l. l ++ drop n rest) out
          ∙ append_assoc (wire s.world) (take n rest) (drop n rest)
          ∙ ap (λ l. wire s.world ++ l) (take-append-drop n rest)
          ∙ ap (λ l. wire s.world ++ (l ++ rest)) (sym empty)
          ∙ i.total;
    }

    same-InFlight : (w : host.World) → wire w ≡ wire s.world → OnWay whole (record s { world = w })
    same-InFlight w out = record {
      backend = i.backend;
      unfinished = i.unfinished;
      served = i.served;
      size = i.size;
      within = i.within;
      phase = i.phase;
      total = ap (λ l. l ++ (s.conn.sendq ++ rest)) out ∙ i.total;
    }

    pub finished-whole :
        (t : State host conf)
        → OnWay whole t
        → t.conn.sendq ≡ []
        → t.conn.rfilesent ≡ t.conn.rfilesize
        → wire t.world ≡ whole
    finished-whole t k none_queued all =
        let nothing : drop t.conn.rfilesent content ≡ [] =
          drop_end t.conn.rfilesent content (omega (arith, all, k.size)) in
        sym (append-nil (wire t.world))
        ∙ ap (λ l. wire t.world ++ l) (sym nothing)
        ∙ ap (λ l. wire t.world ++ (l ++ drop t.conn.rfilesent content)) (sym none_queued)
        ∙ k.total

    -- The branches after `ServeFile`.
    served-Outcome :
        (t : State host conf)
        → OnWay whole t
        → t.conn.sendq ≡ []
        → Result whole (
            if t.conn.rfilesent == t.conn.rfilesize
            then end_request host conf hooks check t
            else request_write t)
    unfolding request_write
    served-Outcome t k none_queued = elim (Bool-cases (t.conn.rfilesent == t.conn.rfilesize)) [
      | inl e ↦ rw e (
          inr (
            inr (
              t,
              finished-whole t k none_queued ((==_iff t.conn.rfilesent t.conn.rfilesize).0 e),
              refl,
            )))
      | inr e ↦ rw e (
          inl (record {
            backend = k.backend;
            unfinished = k.unfinished;
            served = k.served;
            size = k.size;
            within = k.within;
            phase = k.phase;
            total = k.total;
          }))
    ]

    pub serve_file-text :
        (text : Bytes)
        → (host.map_file s.world file s.conn.rfilesize).0 ≡ some text
        → take (s.conn.rfilesize - s.conn.rfilesent) (drop s.conn.rfilesent text) ≡ rest
    serve_file-text text mapped =
        let same : text ≡ content =
          stable s.world text (ap (λ k. (host.map_file s.world file k).0) (sym i.size) ∙ mapped) in
        ap (λ l. take (s.conn.rfilesize - s.conn.rfilesent) (drop s.conn.rfilesent l)) same
        ∙ take_all (s.conn.rfilesize - s.conn.rfilesent) rest
            (omega (arith, i.size, length-drop s.conn.rfilesent content))

    -- `ServeFile` fails, or what it has sent is on the wire.
    serve_file-InFlight :
        ((serve_file host conf s).0 ≡ false)
        ⊎ (((serve_file host conf s).0 ≡ true)
            × OnWay whole (serve_file host conf s).1
            × ((serve_file host conf s).1.conn.sendq ≡ []))
    unfolding serve_file
    serve_file-InFlight = elim (Option-cases (host.map_file s.world file s.conn.rfilesize).0) [
      | inl unmapped ↦ inl (rw (serve_file, i.served, unmapped) refl)
      | inr (text, mapped) ↦
          let w : host.World = (host.map_file s.world file s.conn.rfilesize).1 in
          let chunk : Bytes =
            take (s.conn.rfilesize - s.conn.rfilesent) (drop s.conn.rfilesent text) in
          let part : chunk ≡ rest = serve_file-text text mapped in
          let clean : wire w ≡ wire s.world = on_wire.mapped s.world file s.conn.rfilesize in
          let w' : host.World = (host.send w s.conn.socket chunk).1 in
          elim (SendAnswer-cases (host.send w s.conn.socket chunk).0) [
            | inl (n, r) ↦
                let (fits, out) = on_wire.accepted w s.conn.socket chunk n r in
                let inside : n ≤ length rest = omega (arith, fits, ap (λ l. length l) part) in
                let now_out : wire w' ≡ wire s.world ++ take n rest =
                  out
                  ∙ ap (λ l. l ++ take n chunk) clean
                  ∙ ap (λ l. wire s.world ++ take n l) part in
                inr (
                  rw (serve_file, i.served, mapped, r)
                    (refl, onward-InFlight n w' inside now_out, empty))
            | inr (inl r) ↦ inr (
                rw (serve_file, i.served, mapped, r)
                  (refl, same-InFlight w' (on_wire.blocked w s.conn.socket chunk r ∙ clean), empty))
            | inr (inr r) ↦ inl (rw (serve_file, i.served, mapped, r) refl)
          ]
    ]

    pub send_static_data-Outcome : Result whole (send_static_data host conf hooks check s)
    unfolding send_static_data
    send_static_data-Outcome =
        let t : State host conf = (serve_file host conf s).1 in
        elim serve_file-InFlight [
          | inl failed ↦ inr (inl (rw (send_static_data, i.served, failed) (delete-quits t)))
          | inr (fine, k, none_queued) ↦
              rw (send_static_data, i.served, fine) (served-Outcome t k none_queued)
        ]
