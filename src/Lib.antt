-- ===== src/Lib.antt =====
-- Verification library of r4r, the tool that traces a program and rebuilds its environment as a
-- Docker image. It models the C++ headers of the folder src/.
--
-- Conventions. A function of the program is a function by clauses with the program's name. A C++
-- exception is `throw` with its message, a failed CHECK is `fatal` (Base/Outcome). A std::string is the
-- list of its bytes (Base/Text); a map is an association list used through its laws (Base/Dict); a set
-- is a list used through `contains` (Base/Equality); std::sort is insertion sort with the comparison
-- that the source passes (Base/Sort); a machine integer is a number with its wrap-around written out
-- (Base/Int). Log lines have no effect on any modelled state and are left out.
--
-- How the parts interact. The monitor of system calls waits for the traced processes and calls its
-- listener at each entry and exit. The file tracer is that listener: it collects the files of the
-- processes, reads path names out of their memory (System/Memory), asks the system about files (System)
-- and passes over those that the map of ignored files names. The resolvers share the files out: to
-- packages of the two databases, which look paths up in a trie, or to the files of the manifest, which
-- the user can edit as a text. The database of R packages plans the installation of the packages, and
-- the builder of the installation script carries the plan out. The command line parser, JSON and the
-- string functions serve all of them.
--
-- R packages, src/rpkg_database.h. Rpkg has the packages and the database; Rpkg/Visit the walk
-- `dfs_visit`, Rpkg/Plan `get_installation_plan` and `get_dependencies`. The recursion of the walk takes
-- fuel, one more than the number of packages, which is enough since the packages on the stack differ
-- (Rpkg/Visit/Explains). Rpkg/Load fills the database from the lines that R prints, with the trie of the
-- packages' folders; the run of R is a parameter, the lines.
--
-- Installation script, src/install_r_package_builder.h. Install cuts the plan into batches; the text of
-- the script is not modelled.
--
-- Paths, src/util_fs.h. Path has a std::filesystem::path as the sequence of its components, with the
-- tests on it that the tracer uses.
--
-- Symbolic links, src/util_fs.h. Symlinks is `resolve_symlinks`, its map of the links of the root
-- directory a parameter. The work list takes fuel: a name that is new puts at most two names behind
-- itself, so that three steps for each name that can be met, and two, are enough. Where the links of a
-- system lead to new names without end, so does the source (Symlinks/Total).
--
-- Operating system, src/process.h and src/syscall_monitor.h. A value of the record `System` answers the
-- questions that the program asks: file status, links, working directories, memory of a process. A call
-- of a handler takes one such value, so that a system that changes is a sequence of values.
-- System/Memory is `read_string_from_process`; its loop takes fuel, one more than the limit on the
-- length, since every round that is followed by another one reads a byte. The source does not test the
-- size of its buffer: a read that goes behind the end is `fatal`.
--
-- Processes, src/process.h. Process has the end of a child, the reading of its pipe and the wait for a
-- signal with a time limit.
--
-- Monitor, src/syscall_monitor.h. SyscallMonitor is the parent's side of `start`, from the first stop of
-- the tracee to its end. The answers of waitpid, ptrace and the clock are functions of the calls made so
-- far. The loop takes fuel, one for each wait, and the polls for the first stop as much; it is enough
-- where the kernel reports the end of the tracee, and the clock passes the limit, within that number
-- (SyscallMonitor/Returns). With the file tracer as the listener the calls are the events of
-- FileTracer/Trace. SyscallMonitor/Parked has the processes that stand still, SyscallMonitor/Asked the
-- stops at a system call, both read off the answers of the kernel.
--
-- Ignored files, src/ignore_file_map.h. IgnoreFileMap has the map and the rules that src/tracer.h starts
-- with; `ignore` is a value of the parameter of the file tracer.
--
-- Resolvers, src/resolvers.h and `ResolveFileTask` of src/tracer.h. Resolvers has the three resolvers and
-- the task; each may find another system and other links. Their fuel is that of the symbolic links
-- (Resolvers/Total). Manifest has the records of src/manifest.h and src/user.h.
--
-- Manifest as a text, src/manifest_format.h, src/manifest_section.h and `EditManifestTask` of
-- src/tracer.h. ManifestFormat reads and writes named sections, ManifestSection the section of the files
-- to copy; the editor is a parameter, a function of the text.
--
-- Trie, src/filesystem_trie.h. Trie has the nodes, `insert`, `find` and `find_last_matching`; its
-- theorems compare it with the list of its insertions. The iterator and the copies are left out.
--
-- File tracer, src/file_tracer.h. FileTracer has the tracer's state and what it records at an exit,
-- FileTracer/Handlers the handlers of the system calls, with the numbers of x86_64, and the two methods
-- of the listener, FileTracer/Trace a run over events. The query of ignored files is a parameter.
--
-- Dockerfile, src/dockerfile.h. Dockerfile is the builder, its calls one function each;
-- Dockerfile/Statements has sequences of calls, Dockerfile/Texts the text that each call stands for and
-- Dockerfile/Logical how Docker reads the text.
--
-- JSON, src/json.h. Json has the values and the printer, Json/Parser the parser, with its position as
-- the rest of the input. `double` is a type parameter with what the standard streams do to it. The
-- parser takes fuel, twice the length of the text and one, which is enough on what the printer writes
-- (the round trip shows it). `json_query` is not modelled.
--
-- Command line, src/argparser.h. ArgParser has the options, the positionals and `parse`; a callback is
-- a function on the state of its client. The loop takes fuel, one more than the number of arguments.
-- The help text is left out.
--
-- Strings, src/util.h. Util has the splitting and escaping functions; Util/Quote reads an argument the way
-- a POSIX shell does, with that shell's own special characters, to say what escaping has to keep.
--
-- Debian packages, src/dpkg_database.h. Dpkg reads the output of dpkg -l and the lists of files, both
-- of which are parameters, into the map of packages and the trie of their files; Dpkg/Installed says
-- of the output itself what it lists as installed.
--
-- Not modelled: the tasks that write the Dockerfile, the files of the base image, the child's side
-- of the monitor up to execvp, archives, downloads, the queries of users and groups and the entry
-- points, which are not part of this library, and running other programs, which is input and output.
pub mod Base
pub mod Rpkg
pub mod Install
pub mod Path
pub mod Trie
pub mod System
pub mod FileTracer
pub mod Json
pub mod ArgParser
pub mod Util
pub mod Dpkg
pub mod Symlinks
pub mod Process
pub mod SyscallMonitor
pub mod Manifest
pub mod Resolvers
pub mod IgnoreFileMap
pub mod ManifestFormat
pub mod ManifestSection
pub mod Dockerfile
