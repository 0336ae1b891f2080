-- ===== src/Connection/Delivery/Progress.antt =====
-- A file while it is served, where the socket takes what it is offered: `FlushWriteBuf`
-- (src/buffer.cpp), `ServeFile` (src/backend_write.cpp) and `SendStaticData` (src/request.cpp).

use hottpd.Base.{
  ℕ, ◌+◌, ◌-◌, ◌≡◌, ◌≤◌, ◌<◌, ◌⊎◌, inl, inr, refl, sym, ap, ◌∙◌, true, false, none, some, [], ◌++◌,
  ◌==◌, ==_iff, if◌then◌else◌, length, take, drop, length-drop, Bytes, arith, Bool-cases, zero, suc,
}
use hottpd.Connection.{
  http_send_headers, http_send_data, Config, Host, Hooks, request_write, Fd, sent,
}
use hottpd.Connection.Write.{State, serve_file}
use hottpd.Connection.Output.{end_request, send_static_data, flushed}
use hottpd.Connection.Delivery.{IsWire, InFlight}
use hottpd.Connection.Delivery.Sent
use hottpd.Connection.Delivery.Queue

-- The socket takes something of what it is offered, if that is not empty.
abbrev pub Takes : Host → Type 0
Takes host =
    (w : host.World) (socket : Fd) (text : Bytes)
    → (n : ℕ) × ((host.send w socket text).0 ≡ sent n) × (n ≡ 0 → text ≡ [])

module _ (host : Host) (conf : Config) (hooks : Hooks host.World)
    (check : State host conf → State host conf) (wire : host.World → Bytes)
    (on_wire : IsWire host wire) (takes : Takes host) (content : Bytes) (file : ℕ)
    (held : (w : host.World) → (host.map_file w file (length content)).0 ≡ some content) where
  pub stable :
      (w : host.World) (text : Bytes)
      → (host.map_file w file (length content)).0 ≡ some text
      → text ≡ content
  stable w text mapped = ap (λ o. elim o [ none ↦ [] | some x ↦ x ]) (sym mapped ∙ held w)

  -- What is still to go.
  abbrev pub remaining : State host conf → ℕ
  remaining s = length s.conn.sendq + (length content - s.conn.rfilesent)

  abbrev pub Done : Bytes → State host conf → Type 0
  Done whole a =
      (t : State host conf) × (wire t.world ≡ whole) × (a ≡ end_request host conf hooks check t)

  -- Less is still to go to the same peer, or all has gone out.
  abbrev pub Advances : Bytes → State host conf → State host conf → Type 0
  Advances whole s a =
      (InFlight host conf wire content file whole a
        × (remaining a < remaining s)
        × (a.conn.socket ≡ s.conn.socket))
      ⊎ Done whole a

  moves :
      (at n size : ℕ)
      → at + n ≤ length content
      → size ≡ length content
      → (n ≡ 0 → drop at content ≡ [])
      → (at + n == size) ≡ false
      → 0 < n
  moves at zero size within full moved e =
      let nothing : length content - at ≡ 0 =
        sym (length-drop at content) ∙ ap (λ l. length l) (moved refl) in
      ground (arith, nothing)
  moves at (suc n) size within full moved e = omega arith

  module _ (whole : Bytes) (s : State host conf) (i : InFlight host conf wire content file whole s)
      (state : s.conn.state ≡ http_send_data) (empty : s.conn.sendq ≡ []) where
    abbrev onward : ℕ → host.World → State host conf
    onward n w = record s { conn = record (s.conn) { rfilesent = s.conn.rfilesent + n }; world = w }

    onward-Advances :
        (n : ℕ) (w : host.World)
        → InFlight host conf wire content file whole (onward n w)
        → (n ≡ 0 → drop s.conn.rfilesent content ≡ [])
        → Advances whole s (
            if s.conn.rfilesent + n == s.conn.rfilesize
            then end_request host conf hooks check (onward n w)
            else request_write (onward n w))
    unfolding request_write
    onward-Advances n w k moved = elim (Bool-cases (s.conn.rfilesent + n == s.conn.rfilesize)) [
      | inl e ↦ rw e (
          inr (
            onward n w,
            Sent.finished-whole host conf hooks check wire on_wire content file stable whole s i
                state empty (onward n w) k empty
                ((==_iff (s.conn.rfilesent + n) s.conn.rfilesize).0 e),
            refl,
          ))
      | inr e ↦ rw e (
          inl (
            record {
              backend = k.backend;
              unfinished = k.unfinished;
              served = k.served;
              size = k.size;
              within = k.within;
              phase = k.phase;
              total = k.total;
            },
            omega (
              arith,
              k.within,
              moves s.conn.rfilesent n s.conn.rfilesize k.within k.size moved e,
            ),
            refl,
          ))
    ]

    -- `ServeFile` does not fail, and puts out something of what is left.
    serve_file-onward :
        (n : ℕ) × (w : host.World) × (serve_file host conf s ≡ (true, onward n w))
        × InFlight host conf wire content file whole (onward n w)
        × (n ≡ 0 → drop s.conn.rfilesent content ≡ [])
    unfolding serve_file
    serve_file-onward =
        let mapped : (host.map_file s.world file s.conn.rfilesize).0 ≡ some content =
          ap (λ k. (host.map_file s.world file k).0) i.size ∙ held s.world in
        let w : host.World = (host.map_file s.world file s.conn.rfilesize).1 in
        let rest : Bytes = drop s.conn.rfilesent content in
        let chunk : Bytes =
          take (s.conn.rfilesize - s.conn.rfilesent) (drop s.conn.rfilesent content) in
        let part : chunk ≡ rest =
          Sent.serve_file-text host conf hooks check wire on_wire content file stable whole s i
            state empty content mapped in
        let clean : wire w ≡ wire s.world = on_wire.mapped s.world file s.conn.rfilesize in
        let w' : host.World = (host.send w s.conn.socket chunk).1 in
        let (n, r, some_taken) = takes w s.conn.socket chunk in
        let (fits, out) = on_wire.accepted w s.conn.socket chunk n r in
        let inside : n ≤ length rest = omega (arith, fits, ap (λ l. length l) part) in
        let now_out : wire w' ≡ wire s.world ++ take n rest =
          out ∙ ap (λ l. l ++ take n chunk) clean ∙ ap (λ l. wire s.world ++ take n l) part in
        (
          n,
          w',
          simp (serve_file, i.served, mapped, r),
          Sent.onward-InFlight host conf hooks check wire on_wire content file stable whole s i
              state empty n w' inside now_out,
          λ none_taken. sym part ∙ some_taken none_taken,
        )

    pub send_static_data-Advances : Advances whole s (send_static_data host conf hooks check s)
    unfolding send_static_data
    send_static_data-Advances =
        let (n, w, served, k, moved) = serve_file-onward in
        rw (send_static_data, i.served, served) (onward-Advances n w k moved)

  module _ (quiet : (s : State host conf) → hooks.on_buffer_flushed s ≡ s) (whole : Bytes)
      (s : State host conf) (i : InFlight host conf wire content file whole s)
      (state : s.conn.state ≡ http_send_headers) where
    pub flushed-Advances : s.conn.sendq ≡ [] → Advances whole s (flushed host conf hooks check s)
    flushed-Advances empty =
        let begun : State host conf = record s {
          conn = record (s.conn) { state = http_send_data };
        } in
        let k : InFlight host conf wire content file whole begun = record {
          backend = i.backend;
          unfinished = i.unfinished;
          served = i.served;
          size = i.size;
          within = i.within;
          phase = inr (refl, empty);
          total = i.total;
        } in
        rw
          (Queue.flushed-begun host conf hooks check wire on_wire content file stable quiet s state
            i.backend)
          (send_static_data-Advances whole begun k refl empty)
