-- ===== src/Connection/Invariant.antt =====
-- The invariant of a connection, and the parts of src/request.cpp, src/buffer.cpp and
-- src/connections.cpp that send: the fuel has not run out, the request buffer is no longer than a
-- bound, and the cull list has the connection once if it is quitting, and else not at all.
pub mod Output
pub mod Loop
pub mod Input
use mathlib.Core.Bool.{not}
use hottpd.Base.{
  ℕ, zero, suc, ◌+◌, ◌-◌, ◌≤◌, ◌<◌, Bool, true, false, ◌&&◌, ◌||◌, Option, none, some, List, [],
  ◌∷◌, ◌++◌, ◌==◌, ◌≡◌, ◌⊎◌, inl, inr, refl, sym, ◌∙◌, leb, ltb, if◌then◌else◌, length, take, drop,
  Bytes, codes, is_empty, decimal, arith, Bool-cases, Option-cases,
}
use hottpd.Files.{
  Caches, Errno, eacces, enoent, eloop, enametoolong, enotdir, StatBuf, PathAnswer, serve, refuse,
  check_file_path,
}
use hottpd.Headers.{Headers, set_header, formatted}
use hottpd.Connection.Response.{response_headers, connection_header, version_text, error_page}
use hottpd.Connection.{
  HttpState, http_send_data, http_send_headers, http_finished, Connection, Config, Host, St, Hooks,
  add_item, delete, request_write, SendAnswer, sent, would_block, send_failed, OpenAnswer, opens,
  refuses,
}
use hottpd.Connection.Write.{
  State, is_state, is_magic, reset, write, serve_file, close_filefd, drain,
}
use hottpd.Connection.Output.{
  end_request, send_static_data, flushed, flush_write_buf, send_headers, send_error, path_error,
  open_error, serve_opened, serve_path, serve_data,
}

pub record Inv {World : Type 0} (least bound : ℕ) (s : St World) : Type 0 where
  pub fed : s.starved ≡ false
  pub short : length s.conn.requestbuf ≤ bound
  pub kept : least ≤ s.culls
  pub culled : s.culls ≡ (if s.conn.quitting then 1 else 0)

pub weaken : {World : Type 0} (least m n : ℕ) (s : St World) → m ≤ n → Inv least m s → Inv least n s
weaken least m n s h i = record {
  fed = i.fed;
  short = omega (arith, i.short);
  culled = i.culled;
  kept = i.kept;
}

module _ {World : Type 0} {least bound : ℕ} where
  pub if-Inv :
      (b : Bool) {x y : St World}
      → Inv least bound x
      → Inv least bound y
      → Inv least bound (if b then x else y)
  if-Inv true i j = i
  if-Inv false i j = j

module _ {World : Type 0} (least bound : ℕ) (s : St World) where
  pub delete-Inv : Inv least bound s → Inv least bound (delete s)
  unfolding delete
  delete-Inv i = ground arith

module _ (host : Host) (conf : Config) where
  pub write-Inv :
      (least bound : ℕ) (text : Bytes) (s : State host conf)
      → Inv least bound s
      → Inv least bound (write host conf text s)
  unfolding write
  write-Inv bound text s i = ground arith

  pub serve_file-Inv :
      (least bound : ℕ) (s : State host conf)
      → Inv least bound s
      → Inv least bound (serve_file host conf s).1
  unfolding serve_file
  serve_file-Inv bound s i = ground arith

  pub close_filefd-Inv :
      (least bound : ℕ) (s : State host conf)
      → Inv least bound s
      → Inv least bound (close_filefd host conf s)
  unfolding close_filefd
  close_filefd-Inv bound s i = ground arith

  pub drain-Inv :
      (least bound : ℕ) (s : State host conf)
      → Inv least bound s
      → Inv least bound (drain host conf s).1
  unfolding drain
  drain-Inv bound s i = ground arith

-- What a module may do to a connection.
pub record Keep {World : Type 0} (hooks : Hooks World) : Type 0 where
  pub pre_request :
      (least bound : ℕ) (s : St World) (method vhost dir file : Bytes)
      → Inv least bound s
      → Inv least bound (hooks.on_pre_request s method vhost dir file).1
  pub buffer_flushed :
      (least bound : ℕ) (s : St World)
      → Inv least bound s
      → Inv least bound (hooks.on_buffer_flushed s)
