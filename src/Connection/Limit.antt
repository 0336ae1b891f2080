-- ===== src/Connection/Limit.antt =====
-- The limits on what is received: the request buffer and the body (src/buffer.cpp).
use mathlib.Core.Bool.{true≢false}
use hottpd.Base.{
  ℕ, ◌+◌, ◌-◌, ◌%◌, ◌^◌, ◌≤◌, ◌<◌, Bool, true, false, ◌++◌, ◌≡◌, ◌⊎◌, inl, inr, refl, if◌then◌else◌,
  length, length-append, length-take, take, Bytes, is_empty, arith,
}
use hottpd.Connection.{http_recv_reqbody, http_wait_request, Config, Host, St, Hooks, delete}
use hottpd.Connection.Write.{State, is_state, is_magic}
use hottpd.Connection.Request.{check_request}
use hottpd.Connection.Input.{
  ReadAnswer, read_bytes, read_eof, read_again, read_failed, c_string, max_requestbuf, add_body,
  add_buffer, read_data,
}

-- A connection that is given up, or whose request buffer is within the limit.
abbrev pub Limited : {World : Type 0} → St World → Type 0
Limited s = (s.conn.quitting ≡ true) ⊎ (length s.conn.requestbuf ≤ max_requestbuf)

abbrev Fits : {World : Type 0} → Bool × St World → Type 0
Fits p = p.0 ≡ true → length p.1.conn.requestbuf ≤ max_requestbuf

module _ {World : Type 0} where
  if-Fits : (b : Bool) (x y : Bool × St World) → Fits x → Fits y → Fits (if b then x else y)
  if-Fits true x y i j = i
  if-Fits false x y i j = j

  else-Fits : (b : Bool) (x y : Bool × St World) → b ≡ false → Fits y → Fits (if b then x else y)
  else-Fits true x y e j = absurd (true≢false e)
  else-Fits false x y e j = j

  delete_quits : (s : St World) → (delete s).conn.quitting ≡ true
  unfolding delete
  delete_quits s = ground arith

  kept_or_deleted : (p : Bool × St World) → Fits p → Limited (if p.0 then p.1 else delete p.1)
  kept_or_deleted (true, s) f = inr (f refl)
  kept_or_deleted (false, s) f = inl (delete_quits s)

module _ (host : Host) (conf : Config) (hooks : Hooks host.World) where
  add_buffer-Fits :
      (a : Bytes) (s : State host conf)
      → is_state s.conn.state http_recv_reqbody ≡ false
      → length s.conn.requestbuf ≤ max_requestbuf
      → Fits (add_buffer host conf hooks a s)
  unfolding add_buffer
  add_buffer-Fits a s e h =
      let queued : State host conf = record s {
        conn = record (s.conn) { requestbuf = s.conn.requestbuf ++ a };
      } in
      let checked : State host conf =
        check_request host conf hooks (length queued.conn.requestbuf + 1) (length s.conn.requestbuf)
          queued in
      if-Fits (is_empty a) (true, s) _ (λ t. h)
        (else-Fits (is_state s.conn.state http_recv_reqbody) _ _ e (
          if-Fits (is_state s.conn.state http_wait_request) _ _ (λ t. ground (arith, t))
            (λ t. ground (arith, t))))

  -- Outside of a body, reading leaves at most 5120 bytes in the request buffer of a connection
  -- that is not given up, if there were no more before.
  pub read_data-Limited :
      (answer : ReadAnswer) (s : State host conf)
      → is_state s.conn.state http_recv_reqbody ≡ false
      → length s.conn.requestbuf ≤ max_requestbuf
      → Limited (read_data host conf hooks answer s)
  unfolding read_data delete
  read_data-Limited answer s e h =
      elim (is_magic s.conn.socket)
        as (λ b. Limited (
          if b then s else elim answer [
            | read_bytes bytes ↦
                if (add_buffer host conf hooks (c_string bytes) s).0
                then (add_buffer host conf hooks (c_string bytes) s).1
                else delete (add_buffer host conf hooks (c_string bytes) s).1
            | read_eof ↦ delete s
            | read_again ↦ s
            | read_failed ↦ delete s
          ])) [
            | true ↦ inr h
            | false ↦
                elim answer
                  as (λ a. Limited (elim a [
                    | read_bytes bytes ↦
                        if (add_buffer host conf hooks (c_string bytes) s).0
                        then (add_buffer host conf hooks (c_string bytes) s).1
                        else delete (add_buffer host conf hooks (c_string bytes) s).1
                    | read_eof ↦ delete s
                    | read_again ↦ s
                    | read_failed ↦ delete s
                  ])) [
                    | read_bytes bytes ↦
                        kept_or_deleted (add_buffer host conf hooks (c_string bytes) s)
                          (add_buffer-Fits (c_string bytes) s e h)
                    | read_eof ↦ inl (delete_quits s)
                    | read_again ↦ inr h
                    | read_failed ↦ inl (delete_quits s)
                  ]
          ]

  -- Data that arrives for a body never makes it longer than its announced length, if
  -- that is below 2^32 and the body was not longer before.
  pub add_body-Fits :
      (a : Bytes) (s : State host conf)
      → s.conn.request_body_length < 2 ^ 32
      → length s.conn.request_body ≤ s.conn.request_body_length
      → length (add_body host conf hooks a s).conn.request_body ≤ s.conn.request_body_length
  unfolding add_body
  add_body-Fits a s b h =
      let remains : ℕ =
        (s.conn.request_body_length + 2 ^ 32 - length s.conn.request_body % 2 ^ 32) % 2 ^ 32 in
      let exact : remains ≡ s.conn.request_body_length - length s.conn.request_body = omega arith in
      let old : Bytes = s.conn.request_body in
      ground (
        arith,
        exact,
        length-append old a,
        length-append old (take remains a),
        length-take remains a,
      )
