-- ===== src/Lib.antt =====
-- Central Node, a client for tinc networks: a model of its C code, and what is proved of it.
--
-- The program keeps its state in one global struct, `nodecfg` (base/cnode.h). `main` calls
-- `cnode_init_instance`, which evaluates the arguments, reads the configuration and fetches the list of
-- networks, then starts the menus, and calls `cnode_cleanup` at the end.
-- Every part reports errors by the macro NODE_SETLASTERR, which records the error in the struct and
-- logs its text; logging opens the log file anew for each line. The configuration file
-- /etc/cnode/node.cfg holds a line NAME="value" for each entry. It is replaced by the default one if it
-- is missing or has another number of lines. Each value is stored in the struct by `config_evalentry`.
--
-- How a C function is modelled. World.antt holds the fields of the struct that are read or written here,
-- the files that the program keeps, and the system (the record Os), which is a parameter: for each
-- request, numbered by the requests before it, it grants or gives an error number. So a request may be
-- refused once and granted later. A function is a command, World → A × World, with every call, guard
-- and early return of the source in its order; its status is the number that the C code returns. What C
-- leaves undefined (a use of NULL, a conversion without an argument in a format) has no result in
-- World/Faults.antt, whose predicate Returns says that a run is defined and its result right. Strings
-- are lists of byte values without a zero byte (Common/Text.antt, with the functions of the C library
-- by their documented behaviour). Numbers are natural numbers, with the wrap-around at 64 bits written
-- out.
--
-- The files:
--   Common, Common/*: the libraries' names, tests, lists by native length, C strings and their lemmas
--   World, World/*: the state, undefined behaviour, a state for examples
--   Data, Data/*: data/data.c (x_ctoi, rtonm, x_numdigits)
--   Sys/Logging, Sys/Logging/*: sys/logging.c, and of base/cnode.c and base/cnode.h NODE_SETLASTERR,
--     node_strerror and cnode_setloglvl
--   Sys/Sysctl, Sys/Sysctl/*: sys/sysctl.c (files, folders, drop_superuser, kernel modules, is_wsl)
--   Sys/Config/Entry, Entry/*: config_entry_to_str and config_str_to_entry of sys/config.c
--   Sys/Config/Eval, Eval/*: config_evalentry, a helper for each case of its switch
--   Sys/Config/File, File/*: config_createcfg, config_count_entries, config_create_uuid,
--     config_read_uuid, and crypto_gen_safe_uuid of sys/crypto/uuid.c
--   Sys/Config/Value: config_get_value
--   Sys/Config/Write, Write/*: config_writevalue, with the line that it replaces (Line)
--   Sys/Crypto, Crypto/*: sys/crypto/md5.c; OpenSSL is the part `md5` of the record Os
--   Sys/Daemons, Daemons/*: sys/nodeWD/wdctl.c and sys/daemon/tincdctl.c
--   Sys/Config/Read, Read/*: config_readcfg, a function for each part of its loop; the theorems go from
--     the names (Names) over one line (Line) and all lines (Lines) to the function (File, Fresh)
--   Net/NetworkList, NetworkList/*: the linked list of net/netops.c (network_info_entry_add,
--     network_info_final) on a heap, and the predicate that the heap holds a list (Chain)
--   Net/Curl, Curl/*: net/curlcomm.c; libcurl is the part `transfer` of the record Os; a transfer in pieces
--     (Deliver) and a whole request (Request)
--   Net/Ops, Ops/*: the rest of net/netops.c: the loop over the lines of any bytes
--     (Names), the names that a repository serves (Served), net_get_networks as a whole (Fetch),
--     net_format_url, isspecial, net_checkupdate (Update)
--   Net/Ifs, Ifs/*: net/ifs.c; the interfaces and their addresses are parts of the record Os
--   Base/Args, Args/*: print_message_format_color, cnode_eval_sarg and cnode_parse_sargs of base/cnode.c
--   Base/Instance, Instance/*: cnode_init_instance and cnode_cleanup of base/cnode.c: the early ends and
--     the clean-up (Exits), and the start where all goes well, from its end (Finishes) to the whole (Starts)
--   Gui/Colors, Colors/*: the colours of gui/cursesctl.c (ncurses_apply_rgb, ncurses_apply_ncolor,
--     ncurses_swap_color, ncurses_restore_color); ncurses is a parameter
--   Gui/Start, Start/*: the start of the terminal in gui/cursesctl.c (ncurses_init_colors, with theorems in
--     Painted, and ncurses_init_gui, with theorems in Init)
--   Gui/Menu: gui/menu.h and menu_geterror; Menu/Entries: menu_config_formatentries and
--     menu_entries_load_networks; Menu/Execute: menu_execoption (a function for each menu with items that
--     do something); Menu/Load: menu_loadmenu, from its colours (swap_colors) over the set-up (open_menu)
--     and the keys (key_loop) to END_ROUTINE (end_routine); Menu/Semaphore: menu_semaphore and
--     menu_init_all_menus. The theorems go the same way: what an item leaves (Execute/Next), what the
--     keys lead to (Load/Keys) and any keys (Load/AnyKeys), what a menu leaves (Load/Colors), the menus as
--     a whole where the End key is due (Semaphore/Exit), with their entries (Semaphore/Init), as a step
--     relation with an invariant for any keys (Semaphore/Reach), which the loop follows (Semaphore/Rests),
--     and without keys (Semaphore/Endless). The keys that the user will press are a list in the state.
--   Main, Main/*: main.c; behind a failed start (Refused), behind the start and the terminal (Ends), and
--     from the beginning to the end (Whole) on a first launch (FirstLaunch) and with a configuration file
--     (Relaunch)
-- A module Tests holds runs and, for each theorem with conditions, a state that meets them.
--
-- Bounds and fuel. The loop of config_readcfg runs CFG_NENTRIES rounds as in the source. The loop of
-- config_count_entries has the length of the file, plus one, as fuel: each round but the last reads a
-- byte. The label of config_read_uuid is reached twice at most, by its counter. The number printer has
-- twenty rounds, enough for 64 bits, as its lemma shows. The loop of net_get_networks has one round
-- more than the bytes it reads. The loops over the list of networks have one round more than the
-- addresses that were given, which is more than the nodes of the list. The loop over the keys of a menu
-- has one round more than the keys that are left, and each round but the last takes one. menu_semaphore
-- loads menus for as long as the user wants: the number of rounds is an argument, a run that is not over
-- by then ends with none, and twice the keys that are left are enough where the End key comes twice in
-- a row, then Enter and the End key again: a prompt may take the first one, and getchar, outside of
-- curses mode, a whole line of keys. The loop over the blocks of a file to hash has one round more than its bytes.
--
-- Left out: the time stamps of log lines and the counts that log_write returns, which no caller reads;
-- what is printed and painted on the terminal; closing files and freeing strings, which change nothing
-- modelled. The nodes of the network list are allocated and freed on a heap. A value stored by reference
-- is stored as its bytes. Of a menu, the highlighted item and `current_menu`, which no caller
-- reads, are left out: ncurses says which item is selected. Not modelled: what only
-- paints the screen (gui_displayinfo but for its read of the interfaces, gui_clear_output_rows, the
-- gui_ functions of gui/cursesctl.c), and base/help.c, which only prints. The assembly files are stubs
-- around system calls.
pub mod Common
pub mod World
pub mod Data
pub mod Net
pub mod Sys
pub mod Base
pub mod Gui
pub mod Main
