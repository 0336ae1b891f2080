-- ===== src/Connection/Delivery/Delivered.antt =====
-- A file is served to its end: `HandleEvent` (src/connections.cpp), each time the socket may be
-- written to.

use hottpd.Base.{
  ℕ, zero, suc, ◌+◌, ◌-◌, ◌≡◌, ◌≤◌, ◌<◌, inl, inr, refl, ap, ◌∙◌, true, false, some, length, Bytes,
  ◌++◌, ◌&&◌, ◌==◌, codes, decimal, arith,
}
use hottpd.Files.{StatBuf, serve, check_file_path}
use hottpd.Headers.{Headers, find}
use hottpd.Connection.{Fd, no_fd, magic_fd, fd, Config, opens, Host, Hooks, bounds_check_fd}
use hottpd.Connection.Output.{serve_data}
use hottpd.Connection.Write.{State, is_magic}
use hottpd.Connection.Input.{event_write, handle_event}
use hottpd.Connection.Request.{recheck}
use hottpd.Connection.Delivery.{IsWire, InFlight}
use hottpd.Connection.Delivery.Progress.{Takes, remaining, Advances, send_static_data-Advances}
use hottpd.Connection.Delivery.Flushed.{flush_write_buf-Advances}
use hottpd.Connection.Delivery.Head.{length_name, head}
use hottpd.Connection.Delivery.Begin.{IsStill, serve_data-Begun}
use hottpd.Connection.Delivery.Writable

not_magic : (max : ℕ) (socket : Fd) → bounds_check_fd max socket ≡ true → is_magic socket ≡ false
unfolding bounds_check_fd
not_magic max no_fd e = refl
not_magic max magic_fd e = absurd (ground (arith, e))
not_magic max (fd n) e = refl

module _ (host : Host) (conf : Config) (hooks : Hooks host.World) where
  -- So many times the socket may be written to.
  unfoldable pub write_events : ℕ → State host conf → State host conf
  unfolding handle_event
  write_events zero s = s
  write_events (suc n) s = write_events n (handle_event host conf hooks event_write s)

  module _ (wire : host.World → Bytes) (on_wire : IsWire host wire) (takes : Takes host)
      (content : Bytes) (file : ℕ)
      (held : (w : host.World) → (host.map_file w file (length content)).0 ≡ some content)
      (quiet : (s : State host conf) → hooks.on_buffer_flushed s ≡ s) (whole : Bytes) where
    abbrev OnWay : State host conf → Type 0
    OnWay = InFlight host conf wire content file whole

    handle_event-Advances :
        (s : State host conf)
        → OnWay s
        → is_magic s.conn.socket ≡ false
        → Advances host conf hooks
            (recheck host conf hooks)
            wire
            on_wire
            takes
            content
            file
            held
            whole
            s
            (handle_event host conf hooks event_write s)
    handle_event-Advances s i real =
        let check : State host conf → State host conf = recheck host conf hooks in
        let seen : State host conf = Writable.seen host conf hooks s in
        let k : OnWay seen = record {
          backend = i.backend;
          unfinished = i.unfinished;
          served = i.served;
          size = i.size;
          within = i.within;
          phase = i.phase;
          total = i.total;
        } in
        let by_backend =
          Writable.handle_event-body host conf hooks s
          ∙ ap (λ b. Writable.write_body host conf hooks s.conn.state b s) i.backend in
        elim i.phase [
          | inl state ↦
              rw (by_backend, ap (λ x. Writable.write_body host conf hooks x true s) state)
                (flush_write_buf-Advances host conf hooks check wire on_wire takes content file held
                  quiet whole seen k state real)
          | inr (state, empty) ↦
              rw (by_backend, ap (λ x. Writable.write_body host conf hooks x true s) state)
                (send_static_data-Advances host conf hooks check wire on_wire takes content file
                  held whole seen k state empty)
        ]

    abbrev left : State host conf → ℕ
    left = remaining host conf hooks (recheck host conf hooks) wire on_wire takes content file held

    abbrev Ends : ℕ → State host conf → Type 0
    Ends m s =
        (n : ℕ) × (t : State host conf) × (n ≤ m)
        × (wire t.world ≡ whole)
        × (write_events n s ≡ Writable.ending host conf hooks t)

    write_events-Ends :
        (m : ℕ) (s : State host conf)
        → OnWay s
        → is_magic s.conn.socket ≡ false
        → left s < m
        → Ends m s
    unfolding write_events
    write_events-Ends zero s i real few = absurd (omega (arith, few))
    write_events-Ends (suc m) s i real few =
        let a : State host conf = handle_event host conf hooks event_write s in
        elim (handle_event-Advances s i real) [
          | inl (k, less, peer) ↦
              let (n, t, fits, out, ended) =
                write_events-Ends m a k (ap (λ x. is_magic x) peer ∙ real)
                  (omega (arith, less, few)) in
              (suc n, t, omega (arith, fits), out, ended)
          | inr (t, out, ended) ↦ (1, t, omega arith, out, ended)
        ]

  -- Let a response whose file holds `content` be on its way, all that has gone out together with all
  -- that is queued and all that is left of the file being `whole`. Where the socket is not closed and,
  -- each time it may be written to, takes something of what it is offered, the file can always be
  -- mapped and keeps its content, and no module acts when the queue is empty, just `whole` has gone
  -- out after at most as many write events as there are bytes to go, and one, and the request ends.
  pub write_events-delivers :
      (wire : host.World → Bytes) (content : Bytes) (file : ℕ)
      → IsWire host wire
      → Takes host
      → ((w : host.World) → (host.map_file w file (length content)).0 ≡ some content)
      → ((s : State host conf) → hooks.on_buffer_flushed s ≡ s)
      → (whole : Bytes) (s : State host conf) → InFlight host conf wire content file whole s
      → is_magic s.conn.socket ≡ false
      → (n : ℕ) × (t : State host conf) × (n
          ≤ suc (length s.conn.sendq + (length content - s.conn.rfilesent)))
        × (wire t.world ≡ whole)
        × (write_events n s ≡ Writable.ending host conf hooks t)
  write_events-delivers wire content file on_wire takes held quiet whole s i real =
      write_events-Ends wire on_wire takes content file held quiet whole
        (suc (length s.conn.sendq + (length content - s.conn.rfilesent))) s i real (omega arith)

  -- Let `CheckFilePath` serve a file for the request's path, which the system opens, whose size is
  -- that of its content and not 0, on a connection whose socket is in bounds, and which is not marked
  -- as done with a response's buffer (`ResponseBufferDone` is false). Where send puts out
  -- what it says and takes something of what it is offered, the file can always be mapped and keeps
  -- its content, the other calls of the system put nothing out, and no module acts when the queue is
  -- empty: after `ServeData` and some write events, no more than there are bytes to go, and one,
  -- there has gone out, after what was out or queued before, just the status line 200, headers with
  -- the size as their Content-Length, an empty line and the content; and the request ends.
  pub serve_data-delivers :
      (wire : host.World → Bytes) (content : Bytes) (file : ℕ)
      → IsWire host wire
      → IsStill host wire
      → Takes host
      → ((w : host.World) → (host.map_file w file (length content)).0 ≡ some content)
      → ((s : State host conf) → hooks.on_buffer_flushed s ≡ s)
      → (upath : Bytes) (st : StatBuf) → st.size ≡ length content
      → 0 < length content
      → ((w : host.World)
          → (host.open_file w (conf.no_atime && st.uid == host.geteuid) upath).0 ≡ opens file)
      → (s : State host conf)
      → (check_file_path host.ask conf.stat_config conf.doc_root s.conn.uri (s.caches, s.world)).0
        ≡ serve upath st
      → s.conn.response_buffer_done ≡ false
      → bounds_check_fd conf.max_descriptors s.conn.socket ≡ true
      → let a : State host conf = serve_data host conf hooks (recheck host conf hooks) s in
        (hs : Headers) × (n : ℕ) × (t : State host conf) × (find length_name hs
          ≡ some (decimal (length content)))
        × (n ≤ suc (length a.conn.sendq + (length content - a.conn.rfilesent)))
        × (wire t.world
            ≡ (wire s.world ++ s.conn.sendq) ++ (head host conf 200 (codes "OK") hs s ++ content))
        × (write_events n a ≡ Writable.ending host conf hooks t)
  serve_data-delivers wire content file on_wire still takes held quiet upath st size some_size
        opening s found unfinished real =
      let a : State host conf = serve_data host conf hooks (recheck host conf hooks) s in
      let (hs, long, peer, i) =
        serve_data-Begun host conf hooks (recheck host conf hooks) wire still content file upath st
          size some_size opening s found unfinished real in
      let (n, t, fits, out, ended) =
        write_events-delivers wire content file on_wire takes held quiet
          ((wire s.world ++ s.conn.sendq) ++ (head host conf 200 (codes "OK") hs s ++ content)) a i
          (ap (λ x. is_magic x) peer ∙ not_magic conf.max_descriptors s.conn.socket real) in
      (hs, n, t, long, fits, out, ended)
