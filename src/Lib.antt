-- ===== src/Lib.antt =====
-- loginhelper is a plugin for a game client. It fills in the login and the PIN window from the
-- environment or the command line, redirects the login to another server, and finds the game's
-- functions in the loaded module by byte patterns.
--
-- The parts, with the files that model them:
--   src/loginhelper/searchers.h   Searchers: the pattern compiler and the searcher (compile_pattern,
--     pattern_searcher). Searchers/Nibbles is the meaning of a pattern's text, Searchers/Compile,
--     First, Text and Spelling prove the code against it.
--   src/loginhelper/totp.h        Totp: the normalisation of a secret's text and generateTotp.
--   src/loginhelper/LoginOtp.h    Pin: GetPin on a record of the file's globals, with where the PIN
--     comes from in Pin/Sources and Pin/Arguments and how a call fails in Pin/Failures; Pin/Panel:
--     the hooks on the PIN window, whose fields in Data.h are a record.
--   src/loginhelper/Lobby.h       Login: GetLogin; Server: GetServer and the hook on RequestLogin
--     (Server/Requests); LoginPanel: the hooks on the login window, which share the globals of the
--     other hooks.
--   src/loginhelper/memset.h      Patches: the writes to protected pages and the place of a pattern.
--   src/loginhelper/Data.h        Layout: where the members of the game's structures stand; the fields
--     that a hook uses are a record beside the hook.
--   src/loginhelper/versioninfo.c Version: GetModuleVersionInfo over the bytes of the resource;
--     Version/Safety follows every read, Version/Children is the inner loop against a list of blocks.
--   src/loginhelper/dllmain.cpp   Entry: oep_notify on a module's code, the searches, the hooks
--     (Entry/Hooks), where they stand (Entry/Places) and the options (Entry/Options, and by the words
--     of the command line Entry/Arguments); Entry/Main: oep_notify from the module on, DllMain and init;
--     Entry/Image: the same by the headers in the module's memory.
--     The brace at line 183, which is one too many, is not there in the model.
--     Session: the globals that the entry and the hooks share, under any sequence of notifications,
--     hooks and play of the game; Session/Hooks takes the hooks apart into changes, Session/Stable is
--     what the changes keep, Session/Entered adds the entry, Session/Notified the way
--     from a notification's module to the entry.
--   include/pe                    Pe: a module's headers, sections and exports; Pe/Loader: the searches
--     of the loader's list, under its lock. Pe/Loader/Rings is a list as it comes back to its head.
--   include/ntapi/critsec.h, mprotect.h   Locks: the guards on a lock and on a protection.
--   include/fnv1a.h               Fnv1a: the two loops of make_hash and the case folds; Fnv1a/Reference:
--     the algorithm on bytes; Fnv1a/Literals: the other overloads and the literals.
--   include/ntapi/string.h        NtString: counted strings and their comparisons; NtString/Words is
--     the comparison by whole words against the one by characters, NtString/Access the elements and
--     the iterators.
--   The expressions that these files search the command line with are in Regex/Patterns, over a
--   backtracking matcher of std::wregex in Regex, with a declarative reading in Regex/Matches, and of
--   the arguments in Regex/Words, Regex/Pin and Regex/Login; std::stoi and sprintf_s are in Std.
--
-- State is passed explicitly: each file's globals are a record, and the process that the Windows API
-- reads and writes is an abstract state behind the interface Win32, whose documented behaviour is the
-- record IsEnvironment; Win32/Sample is a concrete process for the tests. The functions of the game
-- that a hook calls, and cpptotp's decoder and one-time password, are parameters. The calls
-- of Detours are a trace in the entry's state (DetourCall). A call ends in a value, an exception, an
-- abort of the C runtime, or an access out of bounds (Prelude/Results).
-- The structures of winnt.h and of the loader, which the system's memory holds, are records of readers
-- (Winnt, LoaderData), as are the calls on texts of versioninfo.c (TextCalls). In Version a read outside
-- of the resource is an outcome of its own (Version/Steps), as is fuel used up.
-- Every loop is a structural recursion over a list or the rounds left, except four. The one over words in
-- NtString has the number of bytes as fuel, and every round takes eight of them. The inner loop of Version
-- has one more than the end of the block as fuel, and every round passes eight bytes; its outer loop has
-- one more than the length of the path, of which every round takes a character. The walk through the
-- loader's list has its fuel as an argument, which the theorems ask to be more than the list's entries.
--
-- Not modelled: src/loginhelper/libcppotp, include/gsl, include/phnt, include/SafeInt.hpp and
-- include/xorstr.hpp, which are copies of other projects' libraries; include/searchers.h, which is the
-- same text as src/loginhelper/searchers.h; include/pluginsdk.h, whose structures the plugin does not
-- use as they are declared; and logging under DEBUG. `$` of an expression is taken to hold at the end of
-- the command line alone, and letters are folded as in the "C" locale. The hooks run on
-- one thread; a function of the game that a hook calls may call hooks again.
pub mod Prelude
pub mod Win32
pub mod Std
pub mod Regex
pub mod Searchers
pub mod Totp
pub mod Pin
pub mod Login
pub mod Server
pub mod Fnv1a
pub mod NtString
pub mod Patches
pub mod Layout
pub mod LoginPanel
pub mod Locks
pub mod Pe
pub mod Version
pub mod Entry
pub mod Session
