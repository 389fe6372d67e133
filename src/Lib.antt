-- ===== src/Lib.antt =====
-- PS4-Hen-Plugins: plugins for a homebrew-enabled console. This library models the parts of the
-- repository that hold its own logic and state, and proves what they keep.
--
-- Ini and its children: the INI files of common/ini.h and common/ini.c, in which every plugin keeps
-- its settings. A pointer to a node of a linked list is the node between the nodes before and after
-- it (Focus). A string is its bytes without the NUL. Ini.Text: trim_whitespace and extract_comment.
-- Ini.Load: ini_load, with the loop over the lines as a fold over a Loader (the structure, the
-- current section, and the list that pending_comments points to). Ini.Store: ini_get, the setters,
-- comments and deletion. Ini.Save: what ini_save and ini_print write. Each malloc of a node has its
-- answer as an argument; malloc of the structure's file name and strdup are taken to succeed, since
-- the code uses their results unchecked. fgets, strncpy and isspace are those of the C standard.
-- ini_free and free_comment_list only give memory back and are not modelled.
--
-- Ftp and its children: the FTP server of plugin_server/source/ftp. Ftp: the state of a client
-- (ftp_env_t), the calls it makes of the system, and actions on the state and the log of calls. A
-- Kernel is the system, a parameter: it answers every call, as a function of the calls before it.
-- Ftp.Format: numbers, ftp_abspath and ftp_mode_string. Ftp.Replies, Ftp.Paths, Ftp.Connection,
-- Ftp.Transfer and Ftp.Store: the functions of cmd.c. Ftp.Session: ftp_readline, the table of
-- commands, ftp_execute, ftp_greet and ftp_thread of ftp.c. The command of plugin_server built for
-- the console has no __PROSPERO__, so MTRW is its other branch. Ftp.Server: ftp_serve and ftp_main,
-- run on the list of attempts to serve, each being what the system calls in it answer. Threads of
-- different clients share no state, so that a thread is run to its end where it is created, on a
-- system of its own. Ftp.Fate says without the calls what attempts leave behind.
--
-- A loop that waits for the system has fuel, and ends as `starved` where that is used up; a theorem
-- that such a loop returns names the fuel that is enough: one for each chunk of a file and one more,
-- and two more than the bytes of a line.
--
-- Memory and its children: common/memory.c, on memory as a function from addresses to bytes.
-- Memory.Pattern: pattern_to_byte and PatternScan; a signature of more than 512 bytes is taken to be
-- rejected, as the check behind the parse means it, though the array is overrun by then.
-- Memory.Search: u64_Scan, Mem_Scan and char_Scan. Memory.Jump: WriteJump32_pid, WriteJump64_pid,
-- sys_proc_memset and ReadLEA32; what the system call of sys_proc_rw does is a parameter. Memory.Hook:
-- get_instruction_size, CreatePrologueHook and its cave, with the disassembler, the place of the cave
-- and its size (cave_pad, max_cave_size) as parameters; each instruction has at least one byte, so
-- that the loop over them has as much fuel as the bytes it has to pass. Memory.Code: get_code_info,
-- pid_chunk_scan, Make32to64Jmp and the patches of internal calls. findProcess, findSymbolPtrInEboot
-- and hex_dump, which print or call the system, are not modelled.
--
-- Pkg and its children: the package browser of plugin_mono/source/pkg_broswer.c. Pkg.Names: the
-- endings of names and the title ID. Pkg.Escape: xml_escape. Pkg.Scan: the scan of the drives, into the
-- list of at most 1024 packages. Pkg.Page: the page of buttons. Pkg.Directories: mkdir_p.
-- Pkg.Install: the installer by path. Pkg.Browser: the entry points, with the list as their state.
-- What stat, readdir, mkdir and sceKernelDlsym answer, what the installer returns and the text of a
-- floating-point number are parameters. The scan calls itself down to the depth that the source
-- bounds, and its fuel is that depth.
--
-- Settings and its children: plugin_mono/source/shellui_patch/settings_menu.c, with the hashes of
-- common/stringid.h (Settings.StringId). Settings.Replace: str_replace, whose fuel is the length of
-- its input. Settings.Root: SetupSettingsRoot. Settings.Local: ReadWriteLocalSettings, which is a
-- client of Ini. Settings.Handlers: NewOnPress, NewOnPreCreate and the other handlers of a page, with
-- the properties of an element as a record and the files that the settings are kept in as a
-- function of their path. Settings.Plugins: RunPluginsBuild, with the loader and the making of an
-- element as parameters, and endsWith of common/file.c. ReadResourceStream's dispatch and
-- UploadOnBranch, which work by calls of the Mono runtime, are not modelled.
--
-- Klog and its children: the kernel log server of plugin_server/source/klog.c. Klog.Serve:
-- serve_file_while_connected. Klog.Server: serve_file and the loop around it. Klog.Disk:
-- klog_to_disk_thread. A loop is run on the list of its turns, a turn being what the system calls in
-- it answered. The names of the log files and the notices are not modelled.
--
-- Not modelled: common/HDE, a third-party disassembler; the other files of plugin_mono, and
-- plugin_bootloader, plugin_shellcore and plugin_example, which call the Mono runtime and patch other
-- processes; plugin_loader, which starts the plugins; the other files and the notices of common.
--
-- Base: the names shared by all modules, lists and bytes over the native numbers, and C's integers.
-- Ini.Tests, Ftp.Tests and its children, Memory.Tests, Memory.Scans, Pkg.Tests, Settings.Tests,
-- Settings.Shelf and Klog.Tests apply the theorems at small inputs.
pub mod Base
pub mod Ini
pub mod Ftp
pub mod Klog
pub mod Memory
pub mod Pkg
pub mod Settings
