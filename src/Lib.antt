-- ===== src/Lib.antt =====
-- A verification library of the AIMP Remote Control plugin: a plugin of the AIMP player that serves a
-- JSON-RPC interface over HTTP, so that a phone or a browser can see and steer the player.
--
-- The parts, and the files that model them (paths of the program from the repository's root):
--   * src/helpers/crc32.cpp: the checksum under ids. Hash, Hash/Crc32 (crc32_update is Crc32Update).
--   * src/remoteControlIdManager.cpp: stable ids for playlists and their items, which AIMP names by
--     texts and positions. IdManager, one function per method; IdManager/RoundTrip has histories.
--   * src/stateUpdateEvents.cpp: versions that AIMP's messages raise and that long polls wait on.
--     Events; `receive` is one message or call, `wait_result` what Wait returns.
--   * src/sleepTimer.cpp: an action at a deadline, run by a thread. SleepTimer (set, cancel, get, and
--     `turn`, one turn of the loop in Run) and SleepTimer/System, which puts the thread, its clients
--     and the clock together as a step relation.
--   * src/digestAuthenticator.cpp: HTTP digest authentication. Digest; `authorize` is Authorize.
--   * src/settings.cpp: Load and Save over AIMP's configuration. Settings.
--   * src/helpers/networkWatcher.cpp, src/serviceDiscoveryServer.cpp, src/remoteControlServer.cpp:
--     which addresses are served. Network; `reconcile` is the server's Reconcile, and
--     `discovery_reconcile` the discovery server's. Network/Watcher is the watcher's thread: `watch_turn`
--     is a turn of Run, and `WatchStep` puts it together with the calls from outside.
--   * src/remoteControlServer.cpp again: which requests reach a method, and with what parameters.
--     Routing; `pre_route` is the handler before the routes.
--   * src/helpers/playlistEntryJson.cpp: the fields of a playlist entry, and the search. Entries.
--   * src/plugin.cpp: which parts start and stop, in which order. Plugin.
--   * src/remoteControlCommands: the methods. Rpc has their parameters and results;
--     Commands/Scheduler is over the sleep timer, Commands/Subscribe over the events and the timer,
--     Commands/Tracks, Commands/Ratings and Commands/Playlists over Aimp. Listing has the methods that
--     list playlists and entries, with the ids that they hand out; Player the state of the player and
--     the methods that play, pause, stop and go on; Status the numbered states and the equalizer;
--     Uploads the handler of uploaded files over a file system; Media covers, lyrics, downloads and
--     the listing of folders, with Media/Serving for the routes of src/remoteControlServer.cpp that
--     give them out.
--   * src/helpers/aimpHelper.cpp: from ids to AIMP's objects, which are an interface here. Aimp.
--
-- State is passed explicitly. A mutex of the program makes a critical section one step here. Integers
-- of the program are numbers with their wrap-around written out; what C++ leaves undefined (a signed
-- overflow, a cast out of range) is a result of its own, never a value.
-- Parameters are what is not in src/: MD5, the parser of the Authorization header, AIMP's
-- configuration service with its laws, the folder functions of the system, whether an address can be
-- bound, what the web root holds, the patterns of the routes, the file system and the paths of
-- std::filesystem, single floats, and AIMP's objects and services with the calls on them.
-- Fuel: the search for a free id gets two rounds more than there are ids, which a theorem shows to be
-- enough; the search for the path of an uploaded file one more than there are files, which is shown to
-- be enough too; splitting a text gets one round more than it has bytes, each of which uses up a byte, and
-- a number one digit more than its value.
-- Not modelled: the options dialog and other code that only calls the SDK, the notifications of the
-- operating system, the sockets and the HTTP, JSON and MD5 libraries, and what is built for Windows only.
pub mod Aimp
pub mod Commands
pub mod Digest
pub mod Entries
pub mod Events
pub mod Hash
pub mod IdManager
pub mod Listing
pub mod Media
pub mod Network
pub mod Player
pub mod Plugin
pub mod Prelude
pub mod Routing
pub mod Rpc
pub mod Settings
pub mod SleepTimer
pub mod Status
pub mod Uploads
