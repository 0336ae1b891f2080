-- ===== src/Connection/Delivery/Queue.antt =====
-- The queue of a connection that serves a file: `FlushWriteBuf` (src/buffer.cpp).
use mathlib.Core.Bool.{not}
use hottpd.Base.{
  ℕ, ◌≡◌, ◌⊎◌, inl, inr, refl, sym, ap, ◌∙◌, Bool, true, false, ◌&&◌, some, [], ◌∷◌, ◌++◌, ◌==◌,
  if◌then◌else◌, length, take, drop, take-append-drop, append_assoc, Bytes, is_empty, Bool-cases,
}
use hottpd.Connection.{
  HttpState, http_send_headers, http_send_data, Config, Host, Hooks, request_write,
}
use hottpd.Connection.Write.{State, is_state, is_magic, drain}
use hottpd.Connection.Output.{end_request, send_static_data, flushed, flush_write_buf}
use hottpd.Connection.Delivery.{IsWire, InFlight, Outcome}
use hottpd.Connection.Delivery.{delete-quits, SendAnswer-cases}
use hottpd.Connection.Delivery.Sent.{send_static_data-Outcome}

module _ (host : Host) (conf : Config) (hooks : Hooks host.World)
    (check : State host conf → State host conf) (wire : host.World → Bytes)
    (on_wire : IsWire host wire) (content : Bytes) (file : ℕ)
    (stable : (w : host.World) (text : Bytes)
      → (host.map_file w file (length content)).0 ≡ some text
      → text ≡ content) where
  abbrev pub OnWay : Bytes → State host conf → Type 0
  OnWay = InFlight host conf wire content file

  abbrev pub Result : Bytes → State host conf → Type 0
  Result = Outcome host conf wire content file (end_request host conf hooks check)

  pub asks-InFlight :
      (whole : Bytes) (s : State host conf) → OnWay whole s → OnWay whole (request_write s)
  unfolding request_write
  asks-InFlight whole s i = record {
    backend = i.backend;
    unfinished = i.unfinished;
    served = i.served;
    size = i.size;
    within = i.within;
    phase = i.phase;
    total = i.total;
  }

  abbrev pub dequeued : ℕ → host.World → State host conf → State host conf
  dequeued n w s = record s { conn = record (s.conn) { sendq = drop n s.conn.sendq }; world = w }

  pub dequeued-InFlight :
      (whole : Bytes) (s : State host conf)
      → OnWay whole s
      → s.conn.state ≡ http_send_headers
      → (n : ℕ) (w : host.World) → wire w ≡ wire s.world ++ take n s.conn.sendq
      → OnWay whole (dequeued n w s)
  dequeued-InFlight whole s i state n w out =
      let queue : Bytes = s.conn.sendq in
      let rest : Bytes = drop s.conn.rfilesent content in
      record {
        backend = i.backend;
        unfinished = i.unfinished;
        served = i.served;
        size = i.size;
        within = i.within;
        phase = inl state;
        total =
            ap (λ l. l ++ (drop n queue ++ rest)) out
            ∙ append_assoc (wire s.world) (take n queue) (drop n queue ++ rest)
            ∙ ap (λ l. wire s.world ++ l)
                (sym (append_assoc (take n queue) (drop n queue) rest)
                  ∙ ap (λ l. l ++ rest) (take-append-drop n queue))
            ∙ i.total;
      }

  abbrev pub Headed : Bytes → State host conf → Type 0
  Headed whole s = OnWay whole s × (s.conn.state ≡ http_send_headers)

  either-Headed :
      (whole : Bytes) (b : Bool) (x y : State host conf)
      → Headed whole x
      → Headed whole y
      → Headed whole (if b then x else y)
  either-Headed whole true x y h k = h
  either-Headed whole false x y h k = k

  -- The queue, before the file.
  drain-InFlight :
      (whole : Bytes) (s : State host conf)
      → Headed whole s
      → (((drain host conf s).0 ≡ false) × ((drain host conf s).1.conn.quitting ≡ true))
        ⊎ (((drain host conf s).0 ≡ true) × Headed whole (drain host conf s).1)
  unfolding drain
  drain-InFlight whole s (i, state) =
      elim (Bool-cases (not (is_empty s.conn.sendq) && not (is_magic s.conn.socket))) [
        | inr idle ↦ rw (drain, idle) (inr (refl, (i, state)))
        | inl busy ↦
            let w' : host.World = (host.send s.world s.conn.socket s.conn.sendq).1 in
            elim (SendAnswer-cases (host.send s.world s.conn.socket s.conn.sendq).0) [
              | inl (n, r) ↦
                  let k : OnWay whole (dequeued n w' s) =
                    dequeued-InFlight whole s i state n w'
                      (on_wire.accepted s.world s.conn.socket s.conn.sendq n r).1 in
                  let asked : State host conf = request_write (dequeued n w' s) in
                  rw (drain, busy, r)
                    (inr (
                      refl,
                      either-Headed whole (n == length s.conn.sendq) (dequeued n w' s) asked
                          (k, state) (asks-InFlight whole (dequeued n w' s) k, state),
                    ))
              | inr (inl r) ↦
                  let k : OnWay whole (record s { world = w' }) = record {
                    backend = i.backend;
                    unfinished = i.unfinished;
                    served = i.served;
                    size = i.size;
                    within = i.within;
                    phase = i.phase;
                    total =
                        ap (λ l. l ++ (s.conn.sendq ++ drop s.conn.rfilesent content))
                          (on_wire.blocked s.world s.conn.socket s.conn.sendq r)
                        ∙ i.total;
                  } in
                  rw (drain, busy, r)
                    (inr (refl, (asks-InFlight whole (record s { world = w' }) k, state)))
              | inr (inr r) ↦
                  rw (drain, busy, r) (inl (refl, delete-quits (record s { world = w' })))
            ]
      ]

  module _ (quiet : (s : State host conf) → hooks.on_buffer_flushed s ≡ s) where
    pub is_empty-cases : (xs : Bytes) → ((is_empty xs ≡ true) × (xs ≡ [])) ⊎ (is_empty xs ≡ false)
    is_empty-cases [] = inl (refl, refl)
    is_empty-cases (x ∷ xs) = inr refl

    abbrev pub begun : State host conf → State host conf
    begun s = record s { conn = record (s.conn) { state = http_send_data } }

    pub flushed-begun :
        (s : State host conf)
        → s.conn.state ≡ http_send_headers
        → s.conn.response_backend ≡ true
        → flushed host conf hooks check s ≡ send_static_data host conf hooks check (begun s)
    unfolding flushed
    flushed-begun s state backend =
        let after : State host conf → State host conf = λ t.
          if is_state t.conn.state http_send_data && t.conn.response_buffer_done
          then end_request host conf hooks check t
          else if is_state t.conn.state http_send_headers && t.conn.response_backend
          then send_static_data host conf hooks check (begun t)
          else t in
        let body : HttpState → Bool → State host conf = λ x b.
          if is_state x http_send_data && s.conn.response_buffer_done
          then end_request host conf hooks check s
          else if is_state x http_send_headers && b
          then send_static_data host conf hooks check (begun s)
          else s in
        ap after (quiet s)
        ∙ ap (λ x. body x s.conn.response_backend) state
        ∙ ap (λ b. body http_send_headers b) backend

    flushed-Outcome :
        (whole : Bytes) (s : State host conf)
        → Headed whole s
        → s.conn.sendq ≡ []
        → Result whole (flushed host conf hooks check s)
    flushed-Outcome whole s (i, state) empty =
        let k : OnWay whole (begun s) = record {
          backend = i.backend;
          unfinished = i.unfinished;
          served = i.served;
          size = i.size;
          within = i.within;
          phase = inr (refl, empty);
          total = i.total;
        } in
        rw (flushed-begun s state i.backend) (
          send_static_data-Outcome host conf hooks check wire on_wire content file stable whole
            (begun s) k refl empty)

    pub flush_write_buf-Outcome :
        (whole : Bytes) (s : State host conf)
        → Headed whole s
        → Result whole (flush_write_buf host conf hooks check s)
    unfolding flush_write_buf
    flush_write_buf-Outcome whole s h =
        let t : State host conf = (drain host conf s).1 in
        elim (drain-InFlight whole s h) [
          | inl (stopped, quits) ↦ rw (flush_write_buf, stopped) (inr (inl quits))
          | inr (goes_on, k) ↦ elim (is_empty-cases t.conn.sendq) [
            | inl (e, empty) ↦ rw (flush_write_buf, goes_on, e) (flushed-Outcome whole t k empty)
            | inr e ↦ rw (flush_write_buf, goes_on, e) (inl k.0)
          ]
        ]
