-- ===== src/Config/Read/Sound.antt =====
-- How `ServerConfig::Read` (src/configreader.cpp) ends at the start of the program, where no module
-- is loaded.
use hottpd.Config.Read.{Core}
use hottpd.Config.Read.Ended.{Ended}
