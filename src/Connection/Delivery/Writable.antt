-- ===== src/Connection/Delivery/Writable.antt =====
-- A file while it is served: `HandleEvent` (src/connections.cpp) for a socket that may be written to.

use hottpd.Base.{
  ℕ, ◌≡◌, inl, inr, refl, ap, ◌∙◌, Bool, true, ◌&&◌, some, if◌then◌else◌, length, Bytes,
}
use hottpd.Connection.{HttpState, http_send_data, Config, Host, Hooks}
use hottpd.Connection.Write.{State, is_state}
use hottpd.Connection.Output.{end_request, send_static_data, flush_write_buf}
use hottpd.Connection.Input.{event_write, handle_event}
use hottpd.Connection.Request.{recheck}
use hottpd.Connection.Delivery.{IsWire, InFlight, Outcome}
use hottpd.Connection.Delivery.Sent.{send_static_data-Outcome}
use hottpd.Connection.Delivery.Queue.{flush_write_buf-Outcome}

module _ (host : Host) (conf : Config) (hooks : Hooks host.World) where
  abbrev pub ending : State host conf → State host conf
  ending = end_request host conf hooks (recheck host conf hooks)

  abbrev pub seen : State host conf → State host conf
  seen s = record s { conn = record (s.conn) { last_socket_event = conf.stat_config.now } }

  -- What a write event calls, by the state and the backend.
  abbrev pub write_body : HttpState → Bool → State host conf → State host conf
  write_body x b s =
      if is_state x http_send_data && b
      then send_static_data host conf hooks (recheck host conf hooks) (seen s)
      else flush_write_buf host conf hooks (recheck host conf hooks) (seen s)

  pub handle_event-body :
      (s : State host conf)
      → handle_event host conf hooks event_write s
        ≡ write_body s.conn.state s.conn.response_backend s
  unfolding handle_event
  handle_event-body s = refl

  -- Let a response whose file holds `content` be on its way, all that has gone out together with all
  -- that is queued and all that is left of the file being `whole`. When the socket may be written to,
  -- then afterwards it is still on its way, with the same `whole`; or the connection is quitting; or
  -- just `whole` has gone out, and the request ends. This holds where `send` puts out what it says,
  -- the file keeps its content, and no module acts when the queue is empty.
  pub handle_event-Outcome :
      (wire : host.World → Bytes) (content : Bytes) (file : ℕ)
      → IsWire host wire
      → ((w : host.World) (text : Bytes)
          → (host.map_file w file (length content)).0 ≡ some text
          → text ≡ content)
      → ((s : State host conf) → hooks.on_buffer_flushed s ≡ s)
      → (whole : Bytes) (s : State host conf) → InFlight host conf wire content file whole s
      → Outcome host conf wire content file ending whole
          (handle_event host conf hooks event_write s)
  handle_event-Outcome wire content file on_wire stable quiet whole s i =
      let check : State host conf → State host conf = recheck host conf hooks in
      let k : InFlight host conf wire content file whole (seen s) = record {
        backend = i.backend;
        unfinished = i.unfinished;
        served = i.served;
        size = i.size;
        within = i.within;
        phase = i.phase;
        total = i.total;
      } in
      let by_backend = handle_event-body s ∙ ap (λ b. write_body s.conn.state b s) i.backend in
      elim i.phase [
        | inl state ↦
            rw (by_backend, ap (λ x. write_body x true s) state)
              (flush_write_buf-Outcome host conf hooks check wire on_wire content file stable quiet
                whole (seen s) (k, state))
        | inr (state, empty) ↦
            rw (by_backend, ap (λ x. write_body x true s) state)
              (send_static_data-Outcome host conf hooks check wire on_wire content file stable whole
                (seen s) k state empty)
      ]
