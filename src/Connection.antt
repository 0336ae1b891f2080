-- ===== src/Connection.antt =====
-- include/connections.h: the state of a connection, and what it needs of its surroundings.
-- The parts: `Output` (src/buffer.cpp, src/connections.cpp, src/request.cpp and
-- src/backend_write.cpp: what is sent), `Request` (src/request.cpp: `CheckRequest`), `Input`
-- (src/buffer.cpp, src/connections.cpp: what is received). Logging is left out. Time does not
-- pass within one event.
pub mod Write
pub mod Parse
pub mod Response
pub mod Output
pub mod Request
pub mod Input
pub mod Invariant
pub mod Limit
pub mod Delivery
pub mod Tests
use hottpd.Base.{
  ℕ, ◌+◌, Bool, true, false, Option, none, some, List, [], ◌∷◌, leb, if◌then◌else◌, Bytes,
}
use hottpd.Files.{StatAnswer, StatConfig, Caches, Errno}
use hottpd.Headers.{Headers}
use hottpd.Mime.{MimeTypes}

pub data HttpState : Type 0 where
  http_wait_request http_recv_reqbody http_send_headers http_send_data http_finished : HttpState

pub data HttpVersion : Type 0 where
  http_unspecified http_1_0 http_1_1 : HttpVersion

-- A descriptor: -1, `FD_MAGIC_NUMBER`, or one of the system's.
pub data Fd : Type 0 where
  no_fd magic_fd : Fd
  fd : ℕ → Fd

-- A pointer to the one backend is told from NULL by `response_backend`; `filefd` is `none` for -1.
pub record Connection : Type 0 where
  pub socket : Fd
  pub state : HttpState
  pub sendq : Bytes
  pub requestbuf : Bytes
  pub last_socket_event : ℕ
  pub requests_completed : ℕ
  pub method : Bytes
  pub uri : Bytes
  pub uriquery : Bytes
  pub upath : Bytes
  pub http_version : HttpVersion
  pub keepalive : Bool
  pub headers : Headers
  pub request_body_length : ℕ
  pub request_body : Bytes
  pub response_buffer_done : Bool
  pub response_backend : Bool
  pub filefd : Option ℕ
  pub rfilesize : ℕ
  pub rfilesent : ℕ
  pub quitting : Bool

-- The connection that the constructor makes at a time, with its socket set.
unfoldable pub opened : Fd → ℕ → Connection
opened socket now = record {
  socket = socket;
  state = http_wait_request;
  sendq = [];
  requestbuf = [];
  last_socket_event = now;
  requests_completed = 0;
  method = [];
  uri = [];
  uriquery = [];
  upath = [];
  http_version = http_unspecified;
  keepalive = true;
  headers = [];
  request_body_length = 0;
  request_body = [];
  response_buffer_done = false;
  response_backend = false;
  filefd = none;
  rfilesize = 0;
  rfilesent = 0;
  quitting = false;
}

-- What the program's configuration and clock say. `max_post_body` is read as an unsigned int, and
-- a negative `keep_alive_max` acts as 0.
pub record Config : Type 0 where
  pub doc_root : Bytes
  pub keep_alive_max : ℕ
  pub max_post_body : ℕ
  pub no_atime : Bool
  pub max_descriptors : ℕ
  pub mime_types : MimeTypes
  pub stat_config : StatConfig

pub data SendAnswer : Type 0 where
  sent : ℕ → SendAnswer
  would_block send_failed : SendAnswer

pub data OpenAnswer : Type 0 where
  opens : ℕ → OpenAnswer
  refuses : Errno → OpenAnswer

-- The system calls: `stat` and `lstat`, `send`, `open` (the flag is `O_NOATIME`), `close`, `mmap`
-- of a whole file, `geteuid`, and the date that `asctime` prints.
pub record Host : Type 1 where
  pub World : Type 0
  pub ask : World → Bool → Bytes → StatAnswer × World
  pub send : World → Fd → Bytes → SendAnswer × World
  pub open_file : World → Bool → Bytes → OpenAnswer × World
  pub close_file : World → ℕ → World
  pub map_file : World → ℕ → ℕ → Option Bytes × World
  pub geteuid : ℕ
  pub date : ℕ → Bytes

-- A connection in its surroundings: the stat caches, whether the socket engine has been asked to
-- poll for writing, how often the connection stands in the list of those to be culled, and the
-- system. `starved` is the model's own: the fuel of `CheckRequest` has run out.
pub record St (World : Type 0) : Type 0 where
  pub conn : Connection
  pub caches : Caches
  pub want_write : Bool
  pub culls : ℕ
  pub starved : Bool
  pub world : World

-- The modules: `OnPreRequest` (true for the result 1) and `OnBufferFlushed`. A module may change
-- the connection.
pub record Hooks (World : Type 0) : Type 0 where
  pub on_pre_request : St World → Bytes → Bytes → Bytes → Bytes → Bool × St World
  pub on_buffer_flushed : St World → St World

module _ {World : Type 0} where
  -- `CullList::AddItem`: a connection that is quitting is not quit twice.
  unfoldable pub add_item : St World → St World
  add_item s =
      if s.conn.quitting
      then s
      else record s { conn = record (s.conn) { quitting = true }; culls = s.culls + 1 }

  -- `ConnectionManager::Delete`
  unfoldable pub delete : St World → St World
  unfolding add_item
  delete s =
      let s' = add_item s in
      record s' { conn = record (s'.conn) { quitting = true; state = http_finished } }

  unfoldable pub request_write : St World → St World
  request_write s = record s { want_write = true }

-- `SocketEngine::BoundsCheckFd`
unfoldable pub bounds_check_fd : ℕ → Fd → Bool
bounds_check_fd max no_fd = false
bounds_check_fd max magic_fd = false
bounds_check_fd max (fd n) = leb n max
