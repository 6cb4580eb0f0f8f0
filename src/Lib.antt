-- ===== src/Lib.antt =====
-- A model of the programs that this repository contains in C: the configuration tools of
-- package/config, which read Kconfig files and a .config, work out the value of every symbol and
-- write the result; sstrip, which drops the useless end of ELF files; and makedevs, which makes the
-- device nodes that a table lists. They are separate programs.
--
-- Parts, and the files that model them:
--   Common                 what the others share: lists and options measured by native numbers,
--                          Boolean tests, C strings as lists of byte values (Common/Text), printed
--                          numbers (Common/Decimal)
--   Config/Types           package/config/expr.h: tristates, expressions, symbols, the table
--   Config/Numbers         strtoll and strtoull as package/config/expr.c uses them
--   Config/Value           expr_parse_string and expr_calc_value of expr.c, and
--                          sym_get_string_value of symbol.c; Constants and Negation are its lemmas
--   Config/Valid           the table that the other functions rely on
--   Config/EliminateYn     expr_eliminate_yn of expr.c
--   Config/EliminateEq     expr_eliminate_eq and expr_eq of expr.c
--   Config/Join            expr_join_or and expr_join_and of expr.c
--   Config/Transform       expr_transform of expr.c
--   Config/Query           expr_alloc_and, expr_alloc_or, expr_trans_bool, expr_contains_symbol and
--                          expr_depends_symbol of expr.c
--   Config/Compare         expr_trans_compare of expr.c
--   Config/Escape          sym_escape_string_value and sym_string_valid of symbol.c, and
--                          conf_set_sym_val of confdata.c
--   Config/Setting         sym_get_type, sym_tristate_within_range, sym_set_tristate_value and
--                          sym_toggle_tristate_value of symbol.c
--   Config/Symtab          strhash, sym_lookup and sym_find of symbol.c; Flat is the table as it is to
--                          be seen from outside
--   Config/Printer         the printers of confdata.c, conf_write_symbol and conf_write_heading
--   Config/Reader          conf_read_simple of confdata.c once the file is open; Lines, Written, Ends
--                          and File are about the lines that the printer writes
--   Config/Calc            sym_calc_value of symbol.c with all that it calls: State has the symbols,
--                          Deps the expressions, properties and visibility, Choices the choices with
--                          set_all_choice_values of confdata.c, Newval the new value; Settles, Ends,
--                          Total and Once, and the modules named for what ends, are about its calls
--   Config/Calc/Strings    sym_string_within_range, sym_clear_all_valid, sym_set_string_value and
--                          sym_get_string_default of symbol.c
--   Config/Calc/NewSymbols conf_set_all_new_symbols and randomize_choice_values of confdata.c, over
--                          the numbers that rand gives
--   Config/Check           sym_check_deps of symbol.c with its stack and its messages, and the loop of
--                          conf_parse: Search, Symbols and Group are about the walk over a symbol, a
--                          plain symbol and a choice, Total about the calls, All about all symbols
--   Config/Print           expr_print, expr_compare_type and expr_print_revdep of expr.c; Grammar is
--                          the lexer of package/config/zconf.l and the grammar of zconf.y, as far as
--                          an expression of names without quotes needs them
--   Config/Gstr            the growable strings of package/config/util.c and expr_gstr_print of expr.c
--   Config/Expand          sym_expand_string_value of symbol.c and file_lookup of util.c
--   Config/Menu            menu_init, menu_add_entry and the functions after it in package/config/menu.c
--                          up to menu_add_symbol, and prop_alloc of symbol.c
--   Sstrip/Endian          the macros EGET and ESET of package/sstrip/sstrip.c
--   Sstrip/Headers         readelfheader, getmemorysize, modifyheaders and commitchanges there
--   Sstrip/Zeros           truncatezeros there
--   Sstrip/Strip           their order in main
--   Makedevs               package/makedevs/makedevs.c: what main does for a line of the table
-- Modules named Tests hold sample data, runs on it, and the theorems applied to it.
--
-- How the state corresponds. A tristate is a number, 0 for no, 1 for mod and 2 for yes, since the
-- macros EXPR_AND, EXPR_OR and EXPR_NOT compute with it. A pointer to a symbol is a number, its
-- place in the table, where symbol_no, symbol_mod and symbol_yes have the places 0, 1 and 2; what
-- the code compares as pointers is compared as numbers. An expression is a tree, and a function
-- that changes its argument in place returns the changed tree; where the code holds two trees at
-- once and rewrites parts of both, the part is reached by its path from the root. NULL is `none`.
-- The functions are those of the source by name; helpers stand for a part of the function that
-- the comment above them names. An ELF header is a record of the fields that sstrip uses, as the
-- file holds them, and a file is its length with its bytes by offset. A run of makedevs is the list
-- of its system calls with whether the exit code is a failure, given an answer for each call.
--
-- The table of symbols is the array of buckets, each a list, with the address of the next symbol.
-- A program over symbols in Config/Calc takes all symbols, by address, with modules_sym,
-- modules_val and the count of changes, and gives a result with the symbols after it, or nothing
-- where the fuel does not suffice. The Reading of Config/Reader is that table with what
-- conf_read_simple sets of each symbol. Config/Setting and Config/Value stand on symbols already
-- calculated, Config/Calc calculates them on the way as the code does. Config/Check takes what the
-- symbols stand for from the same records and keeps SYMBOL_CHECK, SYMBOL_CHECKED, the stack and
-- stderr as its state; a line on stderr is its wording with the symbols that it names. What
-- expr_print prints is the list of its calls of `fn`. A growable string and the buffer of
-- sym_expand_string_value have the size of their allocation with their text. Config/Menu keeps the
-- entries of the menus by number, with the static variables of menu.c and the properties and type
-- of each symbol.
--
-- Bounds and fuel. expr_eq compares on fuel, one more than the sizes of both trees together, since
-- every call that it makes is on smaller trees; expr_transform works on fuel given by a weight
-- that each rule makes smaller; the toggling loop has three rounds, since the values repeat after
-- three; the loop of truncatezeros has one round more than the size, which every round lowers but
-- one at a single byte that is not zero. The calls of sym_calc_value nest as deep as its fuel, and
-- three times the number of symbols and one is enough, since each call either sets SYMBOL_VALID or
-- clears SYMBOL_NEED_SET_CHOICE_VALUES before it makes others; those of sym_check_deps nest at
-- most twice the number of symbols and two deep, since each call but that of a choice for its
-- value sets SYMBOL_CHECKED first; the loop of sym_expand_string_value shortens its text in each
-- round; the loop of menu_add_prop over the entries above has the number of entries as fuel, since
-- an entry is younger than its parent; sixteen digits hold the limit that is printed in
-- hexadecimal. Numbers of the C programs wrap where the code lets them: 64 bits for sizes in
-- sstrip and for the patterns that strtoll gives, 32 bits for the minor numbers of makedevs, and
-- the width of the field in ESET.
--
-- Conditions that come back: `IsValid t`, a table whose constants are as symbol.c makes them and whose
-- values are tristates, a bool one never `mod`; `HasNames t`, one in
-- which the constants that occur in a file have distinct texts, none of them numbers.
--
-- Not modelled: SYMBOL_CHANGED, the flags of menus, and the warnings of the configuration tools
-- but those in Config/Check and Config/Menu, which only the user sees; of configuration files the
-- names, the opening and the order in which conf_write visits the menus; the lexer and the parser,
-- which are generated; in menu.c menu_add_option, sym_check_prop, menu_finalize and all that
-- follows it; the user interfaces mconf, nconf, gconf and qconf with lxdialog; memory management;
-- in package/sstrip the reading and writing of header bytes; in package/makedevs the reading of
-- lines, the lookup of users and the recursion into directories; package/vlan. The rest of the
-- repository is make rules, patches and archives of other projects.
pub mod Common
pub mod Config
pub mod Sstrip
pub mod Makedevs
