-- ===== src/Connection/Delivery/Begin.antt =====
-- From a request for a file to the answer that is on its way: `ServeData` and `SendHeaders`
-- (src/request.cpp).
use hottpd.Base.{
  ℕ, ◌≡◌, ◌<◌, ◌⊎◌, inl, inr, refl, ap, sym, ◌∙◌, Bool, true, false, ◌&&◌, none, some, [], ◌++◌,
  ◌==◌, append_assoc, Bytes, codes, length, decimal, arith, Option-cases,
}
use mathlib.Core.Path.{subst}
use hottpd.Files.{StatBuf, serve, check_file_path}
use hottpd.Files.Effects.{check_file_path-keeps}
use hottpd.Headers.{Headers, find}
use hottpd.Connection.{Config, opens, refuses, Host, Hooks, bounds_check_fd}
use hottpd.Connection.Write.{State, close_filefd}
use hottpd.Connection.Output.{serve_opened, serve_path, serve_data, open_error}
use hottpd.Connection.Delivery.{InFlight}
use hottpd.Connection.Delivery.Head.{length_name, head, send_headers-head}

-- Asking about a name, opening a file and closing one put nothing out.
pub record IsStill (host : Host) (wire : host.World → Bytes) : Type 0 where
  pub asked :
      (w : host.World) (follow : Bool) (path : Bytes) → wire (host.ask w follow path).1 ≡ wire w
  pub opened :
      (w : host.World) (noatime : Bool) (path : Bytes)
      → wire (host.open_file w noatime path).1 ≡ wire w
  pub closed : (w : host.World) (file : ℕ) → wire (host.close_file w file) ≡ wire w

module _ (host : Host) (conf : Config) (hooks : Hooks host.World)
    (check : State host conf → State host conf) (wire : host.World → Bytes)
    (still : IsStill host wire) (content : Bytes) (file : ℕ) where
  -- An answer with this length in its head is on its way to the same peer, after what went before.
  abbrev pub Begun : Bytes → State host conf → State host conf → Type 0
  Begun before s a =
      (hs : Headers) × (find length_name hs ≡ some (decimal (length content)))
      × (a.conn.socket ≡ s.conn.socket)
      × InFlight host conf wire content file
          (before ++ (head host conf 200 (codes "OK") hs s ++ content)) a

  serve_opened-Begun :
      (st : StatBuf) (s : State host conf)
      → st.size ≡ length content
      → 0 < length content
      → s.conn.response_buffer_done ≡ false
      → bounds_check_fd conf.max_descriptors s.conn.socket ≡ true
      → Begun (wire s.world ++ s.conn.sendq) s (serve_opened host conf hooks check st file s)
  unfolding serve_opened
  serve_opened-Begun st s size some_size unfinished real =
      let ready : State host conf = record s {
        conn = record (s.conn) {
          filefd = some file;
          rfilesize = st.size;
          rfilesent = 0;
          response_backend = true;
        };
      } in
      let (hs, keepalive, long, made) =
        send_headers-head host conf hooks check st.size 200 (codes "OK") [] ready
          (omega (arith, size, some_size)) real in
      let text : Bytes = head host conf 200 (codes "OK") hs s in
      (
        hs,
        long ∙ ap (λ n. some (decimal n)) size,
        ap (λ x. x.conn.socket) made,
        rw made (record {
          backend = refl;
          unfinished = unfinished;
          served = refl;
          size = size;
          within = omega arith;
          phase = inl refl;
          total =
              ap (λ l. wire s.world ++ l) (append_assoc s.conn.sendq text content)
              ∙ sym (append_assoc (wire s.world) s.conn.sendq (text ++ content));
        }),
      )

  module _ (upath : Bytes) (st : StatBuf) (size : st.size ≡ length content)
      (some_size : 0 < length content)
      (opening : (w : host.World)
        → (host.open_file w (conf.no_atime && st.uid == host.geteuid) upath).0 ≡ opens file) where
    -- What `ServeData` does once the file that was served before is closed.
    abbrev then_open : State host conf → State host conf
    then_open s =
        let (answer, w) = host.open_file s.world (conf.no_atime && st.uid == host.geteuid) upath in
        let t = record s { world = w } in
        elim answer [
          | opens f ↦ serve_opened host conf hooks check st f t
          | refuses e ↦ open_error host conf hooks check e t
        ]

    then_open-Begun :
        (s : State host conf)
        → s.conn.response_buffer_done ≡ false
        → bounds_check_fd conf.max_descriptors s.conn.socket ≡ true
        → Begun (wire s.world ++ s.conn.sendq) s (then_open s)
    then_open-Begun s unfinished real =
        let w : host.World =
          (host.open_file s.world (conf.no_atime && st.uid == host.geteuid) upath).1 in
        let quiet : wire w ≡ wire s.world = still.opened s.world _ upath in
        rw (then_open, opening s.world)
          (subst
            (λ (l : Bytes).
              Begun (l ++ s.conn.sendq) s
                (serve_opened host conf hooks check st file (record s { world = w })))
            quiet (serve_opened-Begun st (record s { world = w }) size some_size unfinished real))

    close_filefd-cases :
        (s : State host conf)
        → (close_filefd host conf s ≡ s)
          ⊎ ((f : ℕ) × (close_filefd host conf s ≡ record s {
            conn = record (s.conn) { filefd = none };
            world = host.close_file s.world f;
          }))
    unfolding close_filefd
    close_filefd-cases s = elim (Option-cases s.conn.filefd) [
      | inl e ↦ inl (simp (close_filefd, e))
      | inr (f, e) ↦ inr (f, simp (close_filefd, e))
    ]

    serve_path-Begun :
        (s : State host conf)
        → s.conn.response_buffer_done ≡ false
        → bounds_check_fd conf.max_descriptors s.conn.socket ≡ true
        → Begun (wire s.world ++ s.conn.sendq) s (serve_path host conf hooks check upath st s)
    unfolding serve_path
    serve_path-Begun s unfinished real =
        let before : Bytes = wire s.world ++ s.conn.sendq in
        let named : State host conf = record s { conn = record (s.conn) { upath = upath } } in
        elim (close_filefd-cases named) [
          | inl e ↦
              subst (λ (x : State host conf). Begun before s x) (sym (ap (λ x. then_open x) e))
                (then_open-Begun named unfinished real)
          | inr (f, e) ↦
              let t : State host conf = record named {
                conn = record (named.conn) { filefd = none };
                world = host.close_file named.world f;
              } in
              subst (λ (x : State host conf). Begun before s x) (sym (ap (λ x. then_open x) e))
                (subst (λ (l : Bytes). Begun (l ++ s.conn.sendq) s (then_open t))
                  (still.closed s.world f) (then_open-Begun t unfinished real))
        ]

  -- For a path that `CheckFilePath` serves.
  pub serve_data-Begun :
      (upath : Bytes) (st : StatBuf)
      → st.size ≡ length content
      → 0 < length content
      → ((w : host.World)
          → (host.open_file w (conf.no_atime && st.uid == host.geteuid) upath).0 ≡ opens file)
      → (s : State host conf)
      → (check_file_path host.ask conf.stat_config conf.doc_root s.conn.uri (s.caches, s.world)).0
        ≡ serve upath st
      → s.conn.response_buffer_done ≡ false
      → bounds_check_fd conf.max_descriptors s.conn.socket ≡ true
      → Begun (wire s.world ++ s.conn.sendq) s (serve_data host conf hooks check s)
  unfolding serve_data
  serve_data-Begun upath st size some_size opening s found unfinished real =
      let fs =
        (check_file_path host.ask conf.stat_config conf.doc_root s.conn.uri
          (s.caches, s.world)).1 in
      let t : State host conf = record s { caches = fs.0; world = fs.1 } in
      let quiet : wire fs.1 ≡ wire s.world =
        check_file_path-keeps host.ask conf.stat_config wire still.asked conf.doc_root s.conn.uri
          (s.caches, s.world) in
      rw (serve_data, found)
        (subst
          (λ (l : Bytes). Begun (l ++ s.conn.sendq) s (serve_path host conf hooks check upath st t))
          quiet (serve_path-Begun upath st size some_size opening t unfinished real))
