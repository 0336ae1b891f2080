-- ===== src/Connection/Delivery/Flushed.antt =====
-- The queue of a connection that serves a file, where the socket takes what it is offered:
-- `FlushWriteBuf` (src/buffer.cpp).

use hottpd.Base.{
  ℕ, ◌-◌, ◌≡◌, ◌≤◌, ◌<◌, inl, inr, refl, ap, ◌∙◌, Bool, true, false, some, [], ◌==◌, if◌then◌else◌,
  length, drop, length-drop, Bytes, is_empty, arith, Bool-cases, zero, suc, ◌∷◌,
}
use mathlib.Core.Bool.{not}
use hottpd.Connection.{http_send_headers, Config, Host, Hooks, request_write}
use hottpd.Connection.Write.{State, is_magic, drain}
use hottpd.Connection.Output.{flushed, flush_write_buf}
use hottpd.Connection.Delivery.{IsWire, InFlight}
use hottpd.Connection.Delivery.Progress.{Takes, stable, remaining, Advances, flushed-Advances}
use hottpd.Connection.Delivery.Queue

shrinks :
    (n : ℕ) (xs : Bytes)
    → n ≤ length xs
    → is_empty xs ≡ false
    → (n ≡ 0 → xs ≡ [])
    → length (drop n xs) < length xs
shrinks n [] fits busy some_taken = ground (arith, busy)
shrinks zero (x ∷ xs) fits busy some_taken =
    let none_left : suc (length xs) ≡ 0 = ap (λ l. length l) (some_taken refl) in
    absurd (omega (arith, none_left))
shrinks (suc n) (x ∷ xs) fits busy some_taken = omega (arith, length-drop n xs, fits)

module _ (host : Host) (conf : Config) (hooks : Hooks host.World)
    (check : State host conf → State host conf) (wire : host.World → Bytes)
    (on_wire : IsWire host wire) (takes : Takes host) (content : Bytes) (file : ℕ)
    (held : (w : host.World) → (host.map_file w file (length content)).0 ≡ some content)
    (quiet : (s : State host conf) → hooks.on_buffer_flushed s ≡ s) where
  abbrev Moves : Bytes → State host conf → State host conf → Type 0
  Moves = Advances host conf hooks check wire on_wire takes content file held

  abbrev OnWay : Bytes → State host conf → Type 0
  OnWay = InFlight host conf wire content file

  module _ (whole : Bytes) (s : State host conf) (i : OnWay whole s)
      (state : s.conn.state ≡ http_send_headers) where
    -- Something has left the queue.
    abbrev Shorter : State host conf → Type 0
    Shorter t =
        OnWay whole t
        × (t.conn.state ≡ http_send_headers)
        × (length t.conn.sendq < length s.conn.sendq)
        × (t.conn.rfilesent ≡ s.conn.rfilesent)
        × (t.conn.socket ≡ s.conn.socket)

    either-Shorter :
        (b : Bool) (x y : State host conf) → Shorter x → Shorter y → Shorter (if b then x else y)
    either-Shorter true x y h k = h
    either-Shorter false x y h k = k

    drain-Shorter :
        is_magic s.conn.socket ≡ false
        → is_empty s.conn.sendq ≡ false
        → (t : State host conf) × (drain host conf s ≡ (true, t)) × Shorter t
    unfolding drain request_write
    drain-Shorter real busy =
        let queue : Bytes = s.conn.sendq in
        let (n, r, some_taken) = takes s.world s.conn.socket queue in
        let w' : host.World = (host.send s.world s.conn.socket queue).1 in
        let (fits, out) = on_wire.accepted s.world s.conn.socket queue n r in
        let rest : State host conf = record s {
          conn = record (s.conn) { sendq = drop n queue };
          world = w';
        } in
        let k : OnWay whole rest =
          Queue.dequeued-InFlight host conf hooks check wire on_wire content file
            (stable host conf hooks check wire on_wire takes content file held) whole s i state n w'
            out in
        let asked : OnWay whole (request_write rest) =
          Queue.asks-InFlight host conf hooks check wire on_wire content file
            (stable host conf hooks check wire on_wire takes content file held) whole rest k in
        let less : length (drop n queue) < length queue = shrinks n queue fits busy some_taken in
        (
          (if n == length queue then rest else request_write rest),
          simp (drain, real, busy, r),
          either-Shorter (n == length queue) rest (request_write rest) (k, state, less, refl, refl)
              (asked, state, less, refl, refl),
        )

    drain-idle : is_empty s.conn.sendq ≡ true → drain host conf s ≡ (true, s)
    unfolding drain
    drain-idle e = rw (drain, e) refl

    -- What follows the first half of `FlushWriteBuf`.
    then-Advances :
        (t : State host conf)
        → OnWay whole t
        → t.conn.state ≡ http_send_headers
        → remaining host conf hooks check wire on_wire takes content file held t
          ≤ remaining host conf hooks check wire on_wire takes content file held s
        → t.conn.socket ≡ s.conn.socket
        → (is_empty t.conn.sendq ≡ false → length t.conn.sendq < length s.conn.sendq)
        → t.conn.rfilesent ≡ s.conn.rfilesent
        → Moves whole s (if is_empty t.conn.sendq then flushed host conf hooks check t else t)
    then-Advances t k st less same shorter at =
        elim (Queue.is_empty-cases host conf hooks check wire on_wire content file
          (stable host conf hooks check wire on_wire takes content file held) quiet t.conn.sendq) [
            | inl (e, none_left) ↦
                elim (flushed-Advances host conf hooks check wire on_wire takes content file held
                  quiet whole t k st none_left) [
                    | inl (onward, fewer, peer) ↦
                        rw e (inl (onward, omega (arith, fewer, less), peer ∙ same))
                    | inr done ↦ rw e (inr done)
                  ]
            | inr e ↦
                rw e (inl (k, omega (arith, shorter e, ap (λ n. length content - n) at), same))
          ]

    flush_write_buf-drained :
        (t : State host conf)
        → drain host conf s ≡ (true, t)
        → flush_write_buf host conf hooks check s
          ≡ (if is_empty t.conn.sendq then flushed host conf hooks check t else t)
    unfolding flush_write_buf
    flush_write_buf-drained t d =
        ap
          (λ r.
            if not r.0
            then r.1
            else if is_empty r.1.conn.sendq
            then flushed host conf hooks check r.1
            else r.1)
          d

    pub flush_write_buf-Advances :
        is_magic s.conn.socket ≡ false → Moves whole s (flush_write_buf host conf hooks check s)
    flush_write_buf-Advances real = elim (Bool-cases (is_empty s.conn.sendq)) [
      | inl e ↦
          rw (flush_write_buf-drained s (drain-idle e))
            (then-Advances s i state (omega arith) refl (λ n. absurd (ground (arith, e, n))) refl)
      | inr busy ↦
          let (t, d, (k, st, less, at, same)) = drain-Shorter real busy in
          rw (flush_write_buf-drained t d) (
            then-Advances t k st (omega (arith, less, ap (λ n. length content - n) at)) same
              (λ n. less) at)
    ]
