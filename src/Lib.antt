-- ===== src/Lib.antt =====
-- netFiles: an FTP server and a WebDAV server over one directory tree. This library models the two
-- servers and what they stand on, and the user store, and proves what keeps them below their root
-- and their transfers right.
--
-- The parts, and how they interact. A session (netfiles/src/ftp/ftp_session.cpp) reads lines, hands
-- each to the command processor (netfiles/src/ftp/ftp_command_processor.cpp), and sends the reply;
-- the processor looks up a handler; handlers resolve paths (`PathResolver`), call the file system
-- (netfiles/src/core/async_fs.cpp), or have the session open a data connection
-- (netfiles/src/ftp/data_channel.cpp) and move a file or a listing over it. A WebDAV connection
-- (netfiles/src/webdav/dav_handler.cpp) reads requests with the HTTP parser
-- (netfiles/src/webdav/http_parser.cpp), resolves their paths, makes a resource
-- (netfiles/src/webdav/dav_resource.cpp) for each, and answers, a PROPFIND with a document of the
-- XML builder (netfiles/src/webdav/dav_namespaces.hpp).
--
-- The files:
--   Base         Boolean tests, lists, byte strings and the outcome of a coroutine.
--   Core/Utils   `split`, `parseCmd`, `to_lower`, `to_Upper` (netfiles/src/core/utils.hpp).
--   Core/Fs      std::filesystem: Disk (nodes, and paths as texts), Walk (`canonical`, `exists`,
--                `is_directory`), Ops (`AsyncFileSystemPOSIX` of netfiles/src/core/async_fs.cpp),
--                and the lemmas: Canonical, Frame, AtReal. Copy is `copy_file` and the recursive
--                `copy`, Files `read_file`, `write_file` and `sanitize_path`.
--   StringUtil   `StringUtil::encode`, Utf, the conversions of `EncodingConverter`, and
--                Modern, `ModernString<char>` (netfiles/src/stringUtil.h).
--   Ftp/Types    netfiles/src/ftp/ftp_types.hpp.
--   Ftp/World    the state that a session reads and changes, and its monad.
--   Ftp/PathResolver, Ftp/Handlers, Ftp/Processor
--                netfiles/src/ftp/ftp_command_processor.cpp, the session's loop included.
--   Ftp/Session  the constructor, `start` and `read_command` of netfiles/src/ftp/ftp_session.cpp.
--   Ftp/Transfer, Ftp/Execute
--                `DataChannelManager`, `DataTransfer` and `AsyncFileBuffered`; the `execute_...`
--                functions of netfiles/src/ftp/ftp_session.cpp.
--   Ftp/Quiet    which steps leave the tree and the session alone.
--   Main         the arguments of netfiles/src/main.cpp.
--   Security     netfiles/src/security/access_control.cpp: Users (the store and its file), Access
--                (who is let in), Stored and LastLine (saving and loading).
--   Webdav/Http  netfiles/src/webdav/http_parser.cpp: Types (methods), Url, RequestLine, Headers
--                (the request too), Response, Request (from the socket), Date, Filename.
--   Webdav/World what a WebDAV connection reads and changes, and its monad.
--   Webdav/Xml   `DavXmlBuilder`.
--   Webdav/Resource
--                `DavFile`, `DavCollection` and the factory; Streams and Locks hold the lemmas.
--   Webdav/Handler
--                `DavRequestHandler`: Files (GET, HEAD, PUT, DELETE, MKCOL, COPY, MOVE), Propfind
--                (the others), Serve (the loop); Paths, Still, Enough, Confined and Effects hold
--                the lemmas.
--   Tests        a small site; Tests/Commands, Tests/Storage, Tests/Text, Tests/Dav and
--                Tests/Strings apply the theorems at it.
--
-- How the model reads the code. A coroutine is a function from the world to an outcome (a value, an
-- exception with its text, or no result yet) and the world after it; an exception keeps what was
-- done before it. A path is its text in the generic (`/`) grammar. The tree is an association list
-- from names to files, directories and links; a resolution follows at most 40 links, the system's
-- limit, and more is an error. Permissions and device errors of the system are left out: what fails
-- is what the shape of the tree makes fail; a path that does not resolve is an error of a missing
-- entry, and a file is not made through a link that leads nowhere. The client is three lists of
-- events, of connections, reads and writes; when one is used up, the next such operation has no
-- result yet. How an attempt to connect ends is the next event, whatever the endpoint, and the
-- endpoints that were asked for are kept in order. A successful read of no bytes does not occur on
-- a connection; the loops translate the code's test for it, and the theorems that need bytes say
-- so. Win32's conversions, the sockets, file attributes, the text mode of C streams and the control
-- channel's writes are parameters (`Host`); so are the width of `off_t` and the text mode of the
-- descriptors that `read_file` and `write_file` open (`Descriptors`). The loop that sends a file
-- runs on fuel, one more than there are bytes to read: every round that goes on has read one at
-- least. The server's loop runs on as many rounds as there are reads to come: every line takes one
-- at least. Byte counts of a session wrap at 2 ^ 64, ports at 2 ^ 16. The WebDAV server has
-- `DavHost` for its parameters: the clock, calendar dates, file times, Win32's conversions,
-- `gb18030_to_utf8`, the width of `unsigned long`, and what an uninitialised version holds. Its
-- loops run on a weight of the reads to come, a bound on how many there can be; a copy of a tree
-- goes 130 levels down, and is an error below. `put_loop` runs on one round more than the bytes
-- asked for, which is enough where the input has them; where it has less the source does not end,
-- and the model says that it has no result. The passive listener stands on 127.0.0.1, as the source
-- binds it.
--
-- Not modelled: log output, the executor pool, the accept loops of netfiles/src/main.cpp, of the
-- `ModernString` of netfiles/src/stringUtil.h what searches from the end, and parses signed and
-- floating-point numbers, the mutex of a resource's locks, which no other request shares, and
-- netfiles/src/webdav/Encoding.hpp, which is another project's.
pub mod Base
pub mod Core
pub mod Ftp
pub mod Main
pub mod Security
pub mod StringUtil
pub mod Tests
pub mod Webdav
