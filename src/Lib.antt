-- ===== src/Lib.antt =====
-- wfrest: a verification library for the web framework's core and for the file comparison server.
--
-- The program is a C++ web framework on top of workflow. A request's path goes to the Router, which
-- asks the RouteTable, a tree of path levels, for the record of handlers of a route and gives the
-- request to the handler of its verb. A BluePrint holds a router of its own, whose routes are put
-- below a prefix of another, and wraps handlers in aspects. The bodies of requests are read by
-- MultiPartParser and HttpContent, queries by UriUtil, cookies by HttpCookie, all by the helpers of
-- StringPiece, StrUtil, CodeUtil, PathUtil and Base64. The file comparison server reads files in
-- buffers by one thread per file, which gets commands through a ring queue, and hashes their lines.
--
-- Files, with the code that each is about:
-- - Base: shared names, byte strings, Boolean tests, lemmas on lists.
-- - StringPiece: src/base/StringPiece.h. A piece is the bytes it shows.
-- - StrUtil: src/util/StrUtil.{h,cc}. CodeUtil: src/util/CodeUtil.cc.
-- - PathUtil: src/util/PathUtil.cc. Base64: src/base/base64.cc.
-- - Map: std::map with byte strings as keys, in the order of the keys.
-- - UriUtil: src/util/UriUtil.cc, Urlencode of src/core/HttpContent.cc, HttpCookie::split.
-- - Verb: src/core/VerbHandler.h. ErrorCode: src/base/ErrorCode.{h,cc}.
-- - RouteTable: src/core/RouteTable.{h,cc}; find_or_create, find and all_routes on a tree that is a
--   value: a call that returns a reference is the change that its caller makes there.
-- - Router: src/core/Router.{h,cc}; handle, call, add_route, all_routes.
-- - MultiPartParser: src/core/MultiPartParser.c; one function per state, the mark and the index as
--   the bytes that are pending.
-- - HttpContent: src/core/HttpContent.cc; the callbacks on the parser's user data.
-- - BluePrint: src/core/BluePrint.{cc,inl}, AopUtil.h, Aspect.h.
-- - Content: file_compare/content/dc_content.cc; the worker's line hashing and reading.
-- - CommonCode: file_compare/common/dc_common_error.h. FileAttr: the attributes of files and
--   directories in file_compare/content/dc_content.{h,cc}.
-- - Reader: the two threads of a local server in dc_content.cc, do_ and get_ of the caller and
--   thd_worker, with the two queues between them as lists of messages.
-- - Remote: dc_content_remote_t of dc_content.cc; the attributes of directories by HTTP requests, as
--   the states of get_dir_list_attr, with the callbacks that bring the answers.
-- - Compare: file_compare/compare/dc_compare.cc; the objects of the result, in Servers the waiting for
--   all servers, in Walk the walk through the standard's directories.
-- - ApiTask: file_compare/api/dc_api_task.{h,cc}; a task from JSON, with cJSON as a record of
--   functions on any type of values.
-- - Diff: file_compare/diff/dc_diff.{h,cc}; rows and dc_diff_row_t.
-- - HttpDef: src/core/HttpDef.{h,cc}. HttpMsg: src/core/HttpMsg.cc; lookups, the content type, Error.
--   Its Body: what is read of a request's body and what String appends, with src/base/Compress.cc.
--   Its Encoder: the body that String sends of a MultiPartEncoder (src/core/HttpContent.h).
--   HttpDef.Suffixes: the names of types as values of headers.
-- - HeaderMap: std::map with MapStringCaseLess of src/util/StrUtil.h.
-- - HttpCookie: src/core/HttpCookie.{h,cc}; the text of a cookie.
-- - HttpServerTask: src/core/HttpServerTask.cc; the headers that are added to a response, and how long
--   a connection is kept alive.
-- - HttpServer: src/core/HttpServer.cc; a request on its way to its handler, the serving of files.
-- - HttpFile: src/core/HttpFile.cc; the range of send_file.
-- - Chan: file_compare/diff/chan.h; the ring queue of one producer and one consumer.
-- - Executor: file_compare/internal/dc_internal_task.cc; the list of tasks as a step relation of the
--   threads' critical sections.
-- - Tests: each theorem at a concrete input.
--
-- Bytes are natural numbers; where a proof needs that they are below 256 it says so. Every loop is
-- structural recursion on the bytes, the pieces or the tree, but for one. A view out of
-- bounds, an exception of the standard library, a failed assertion and a waiting push are values of
-- the results. The loop that waits for the servers has a number of turns; a theorem says how many
-- are enough. The polling of a file is any sequence of turns of the two threads.
--
-- Parameters of the model: handlers are values of any type; the state that aspects change is any
-- type; the digests SHA1 and MD5 are any functions of byte strings; what read gives is a list of
-- buffers; the result of a task is any value; what stat, getpwuid, localtime and readdir give is any
-- function or listing; the texts of error codes are any function; workflow's URI parser, its split and
-- strip, and its message are functions, and zlib's streams; so are the JSON library's calls and the
-- format of times. Whether a path is a file, whether its size is known, and what pread gives of it,
-- are functions of the path.
--
-- Not modelled: the glue on workflow, the tasks of HttpMsg; the loops of src/base/Compress.cc over
-- zlib's streams, which are a parameter with them; zlib, MySQL and the file system,
-- which are other libraries; copies of nlohmann/json and cJSON; logging. The queue's steps are whole
-- calls: the order of the loads and stores inside a call is not modelled. The memory that rows
-- share is not modelled, their bytes are.
pub mod ApiTask
pub mod Base
pub mod StringPiece
pub mod StrUtil
pub mod CodeUtil
pub mod PathUtil
pub mod Base64
pub mod Map
pub mod UriUtil
pub mod Verb
pub mod Reader
pub mod Remote
pub mod RouteTable
pub mod Diff
pub mod ErrorCode
pub mod Router
pub mod MultiPartParser
pub mod FileAttr
pub mod HttpContent
pub mod HttpDef
pub mod HttpFile
pub mod HttpMsg
pub mod HttpServer
pub mod HeaderMap
pub mod HttpServerTask
pub mod HttpCookie
pub mod CommonCode
pub mod Compare
pub mod Content
pub mod Chan
pub mod Executor
pub mod BluePrint
pub mod Tests
