-- ===== src/Connection/Delivery.antt =====
-- What reaches the peer while a file is served: src/buffer.cpp (`FlushWriteBuf`), src/request.cpp
-- (`SendStaticData`), src/backend_write.cpp (`ServeFile`) and src/connections.cpp (`HandleEvent`).
pub mod Sent
pub mod Queue
pub mod Writable
pub mod Begin
pub mod Head
pub mod Flushed
pub mod Delivered
pub mod Progress
pub mod Tests
use mathlib.Core.Bool.{not}
use hottpd.Base.{
  ℕ, zero, suc, ◌+◌, ◌-◌, ◌≡◌, ◌≤◌, ◌⊎◌, inl, inr, refl, sym, ap, ◌∙◌, Bool, true, false, ◌&&◌,
  Option, none, some, List, [], ◌∷◌, ◌++◌, ◌==◌, ==_iff, if◌then◌else◌, length, take, drop,
  take-append-drop, length-drop, drop-nil, append_assoc, append-nil, Bytes, is_empty, arith,
  Bool-cases, Option-cases,
}
use hottpd.Connection.{
  HttpState, http_send_headers, http_send_data, Fd, Connection, Config, Host, St, Hooks, SendAnswer,
  sent, would_block, send_failed, delete, request_write, add_item,
}
use hottpd.Connection.Write.{State, is_state, is_magic, serve_file, drain}
use hottpd.Connection.Output.{end_request, send_static_data, flushed, flush_write_buf}
use hottpd.Connection.Request.{recheck}

-- What has gone out is a function of the world: `send` appends what it says that it sent, and `mmap`
-- appends nothing.
pub record IsWire (host : Host) (wire : host.World → Bytes) : Type 0 where
  pub accepted :
      (w : host.World) (socket : Fd) (text : Bytes) (n : ℕ)
      → (host.send w socket text).0 ≡ sent n
      → (n ≤ length text) × (wire (host.send w socket text).1 ≡ wire w ++ take n text)
  pub blocked :
      (w : host.World) (socket : Fd) (text : Bytes)
      → (host.send w socket text).0 ≡ would_block
      → wire (host.send w socket text).1 ≡ wire w
  pub mapped : (w : host.World) (file size : ℕ) → wire (host.map_file w file size).1 ≡ wire w

pub later : (m n : ℕ) → suc (m + n) ≡ suc m + n
later m n = omega arith

pub drop-drop : (m n : ℕ) (xs : Bytes) → drop n (drop m xs) ≡ drop (m + n) xs
drop-drop zero n xs = ap (λ k. drop k xs) (omega arith)
drop-drop (suc m) n [] = drop-nil n ∙ sym (drop-nil (suc m + n))
drop-drop (suc m) n (x ∷ xs) = drop-drop m n xs ∙ ap (λ k. drop k (x ∷ xs)) (later m n)

pub drop_end : (n : ℕ) (xs : Bytes) → length xs ≤ n → drop n xs ≡ []
drop_end zero [] h = refl
drop_end zero (x ∷ xs) h = absurd (omega (arith, h))
drop_end (suc n) [] h = refl
drop_end (suc n) (x ∷ xs) h = drop_end n xs (omega (arith, h))

pub take_all : (n : ℕ) (xs : Bytes) → length xs ≤ n → take n xs ≡ xs
take_all zero [] h = refl
take_all zero (x ∷ xs) h = absurd (omega (arith, h))
take_all (suc n) [] h = refl
take_all (suc n) (x ∷ xs) h = ap (λ l. x ∷ l) (take_all n xs (omega (arith, h)))

pub delete-quits : {World : Type 0} (s : St World) → (delete s).conn.quitting ≡ true
unfolding delete
delete-quits s = refl

pub SendAnswer-cases :
    (a : SendAnswer) → ((n : ℕ) × (a ≡ sent n)) ⊎ (a ≡ would_block) ⊎ (a ≡ send_failed)
SendAnswer-cases (sent n) = inl (n, refl)
SendAnswer-cases would_block = inr (inl refl)
SendAnswer-cases send_failed = inr (inr refl)

module _ (host : Host) (conf : Config) (wire : host.World → Bytes) (content : Bytes)
    (file : ℕ) where
  -- A response whose file holds `content` is on its way: all that has gone out, and all that is still
  -- to go, is `whole`.
  pub record InFlight (whole : Bytes) (s : State host conf) : Type 0 where
    pub backend : s.conn.response_backend ≡ true
    pub unfinished : s.conn.response_buffer_done ≡ false
    pub served : s.conn.filefd ≡ some file
    pub size : s.conn.rfilesize ≡ length content
    pub within : s.conn.rfilesent ≤ length content
    pub phase :
        (s.conn.state ≡ http_send_headers) ⊎ ((s.conn.state ≡ http_send_data) × (s.conn.sendq ≡ []))
    pub total : wire s.world ++ (s.conn.sendq ++ drop s.conn.rfilesent content) ≡ whole

  -- It stays on its way, or the connection is given up, or `whole` has gone out and the request ends.
  abbrev pub Outcome : (State host conf → State host conf) → Bytes → State host conf → Type 0
  Outcome end whole after =
      InFlight whole after
      ⊎ (after.conn.quitting ≡ true)
      ⊎ ((t : State host conf) × (wire t.world ≡ whole) × (after ≡ end t))
