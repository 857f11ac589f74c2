-- ===== src/Lib.antt =====
-- The Kyro kernel: a development about the parts of the kernel that compute.
--
-- The kernel is a small 32-bit operating system in C. Its string and memory functions, its
-- allocator and its formatted output serve all other parts. The file table and the user table are
-- arrays of structs that are searched by name with strcmp and filled with strcpy and strncpy. The
-- keyboard driver takes scancodes from a port, keeps the modifiers and the lights, and queues the
-- other keys in a ring. The paging code keeps a bitmap of frames and the page directory, with
-- tables that come from the allocator. Processes are blocks from the allocator, linked into a list
-- that the scheduler goes round; creating, forking, destroying and ending them changes the list.
-- The screen is written through print_message and putchar. The terminal reads lines from the
-- keyboard and echoes them on the screen; the login and the shell are built on that. kernel_init
-- sets up the interrupt descriptors, the interrupt controllers, the timer, paging, the system
-- calls and the first process, and kernel_main logs the user in.
--
-- The modules, and the code that each models:
-- - Base: shared notation, arrays as lists, the bits of a word, tests by evaluation.
-- - CString (kernel/utils/string.c): strlen to strstr, one function each. A char pointer is what
--   is left of its array. CString.Copy, Compare and Search state the functions on texts, that is,
--   on what stands before the first NUL.
-- - Memory (kernel/utils/memory.c, second half): memset, memcpy, memmove, memcmp, memchr.
-- - Heap (kernel/utils/memory.c, first half): kmalloc, kmalloc_a, kmalloc_p, kmalloc_ap, kfree,
--   malloc, free; heap_current is the state.
-- - Printf (kernel/printf.c): puts, print_number, printf, print_number_to_buffer, vsprintf,
--   sprintf. What is printed is the value of the function. printf and vsprintf have a switch each;
--   Printf.Stored compares the two.
-- - Table (kernel/fs.c, kernel/user.c): the search by name and the shift that closes a gap.
-- - Fs (kernel/fs.c, include/fs/fs.h): file_list and file_count as a record. Fs.Spec is the list
--   of entries that the table stands for, and Fs.Refine relates the two.
-- - User (kernel/user.c, include/user.h, tools/init.c): users, user_count and next_uid as a
--   record. User.Spec is the book of accounts, User.Invariant what holds of it, User.Run sequences
--   of calls.
-- - Port (kernel/io.c): the answers of the devices are a list, in which each stands with the port
--   that gives it, and the writes are recorded with their ports.
-- - Keyboard (kernel/drivers/keyboard.c, include/drivers/keyboard.h): keyboard_state as a record;
--   Keyboard.Device the controller, Keyboard.Ring the buffer as a queue, Keyboard.Handler the
--   interrupt handler, Keyboard.Chars the characters.
-- - Pic (kernel/pic.c): the two interrupt controllers through their ports; Pic.Masks is the masks
--   of the lines.
-- - Paging (kernel/memory/paging.c, include/memory/paging.h): Paging.Frames the bitmap,
--   Paging.Directory the two levels of tables. A table is kept in the directory, since each is a
--   block of its own.
-- - Screen (kernel/kernel.c): video_memory and the cursor as a record; Screen.Shows is the page
--   that the screen shows.
-- - Process (kernel/process.c, include/process.h): the blocks of the processes as a list, in which
--   a pointer is a place, with the heap, the frames and the directories that they use;
--   Process.Create creates and forks, Process.Destroy destroys. Process.Chain is the list that
--   process_list starts, Process.Runs the systems in which schedule works, Process.Runs.Steps the
--   steps that keep it so, Process.Schedule, Process.Exit and Process.Lost are about schedule and
--   exit.
-- - Output and Input (kernel/printf.c): puts and the calls of printf on the screen;
--   getchar_blocking, gets_simple, scanf and the stubs round them.
-- - Console (kernel/terminal.c, kernel/printf.c): the screen and the keyboard together, and the
--   loop that terminal_get_line and gets_simple share; Console.Line is the editor of lines that it
--   implements.
-- - Terminal (kernel/terminal.c, include/terminal.h), Shell (kernel/run_shell.c,
--   kernel/run_terminal.c, kernel/login.c, kernel/shell.c): the terminal, the login and the
--   commands; Shell.Sessions is what a user types up to the command exit.
-- - Timer (kernel/timer.c, include/timer.h): the divisor, the tick count and sleep.
-- - Idt (kernel/interrupts/idt.c, include/interrupts/idt.h): the table of descriptors and the
--   handlers of exceptions.
-- - Syscall (kernel/syscall.c): the dispatch on the call number, and the gate.
-- - Stdio (lib/stdio/stdio.c, lib/stdio/stdio.h): the streams.
-- - Stubs (kernel/networking.c, kernel/package_manager.c, kernel/scripting.c,
--   kernel/drivers/mouse.c, kernel/drivers/network.c): the functions that only print a message or
--   return a constant.
-- - Start (kernel/kernel.c): kernel_init and kernel_main; Start.Ready is what the first leaves and
--   Start.Idle what the second does, from the data as the boot loader leaves them.
-- - Math (kernel/utils/math.c): pow, sqrt, gcd, lcm and the small functions.
-- - Tests: the theorems at concrete inputs.
--
-- A value none is a fault: a read or a write outside an array or through NULL, a division by zero,
-- or a wait that the answers of the device do not end. Sums of 32 bits wrap where the source's do.
-- The loops that run to a bound are structural. The others take fuel: the digits of print_number,
-- where 32 places, those of the buffer, are enough for 32 bits; the search of schedule, where as
-- many turns as the list has processes are enough; gcd, where the second number and one more are
-- enough; pow, where 33 turns are enough for an exponent of 32 bits; sqrt, where more than the
-- number is enough; the search of destroy_process, where as many turns as processes stand before
-- the one it looks for are enough; the loop that reads a line, where one turn for each character
-- that arrives and one more are enough; and the loop of the shell, where one turn for each line is
-- enough. The waits for an interrupt, next_char and sleep, go through the list of the interrupts
-- that come.
--
-- The contents of newly allocated memory and the registers of the processor are not part of the
-- model; the registers that a process keeps are. An interrupt comes only where the code halts for
-- one. Not modelled: assembly, context_switch among it, the loading of the descriptor table and,
-- outside paging_init, that of cr3. The processor is taken to go on behind these loads, and behind
-- those of paging_init. kernel/printf_stubs.c is not in the build.
pub mod Base
pub mod CString
pub mod Memory
pub mod Heap
pub mod Printf
pub mod Table
pub mod Fs
pub mod User
pub mod Port
pub mod Keyboard
pub mod Pic
pub mod Paging
pub mod Screen
pub mod Console
pub mod Output
pub mod Terminal
pub mod Input
pub mod Process
pub mod Timer
pub mod Idt
pub mod Syscall
pub mod Stdio
pub mod Stubs
pub mod Shell
pub mod Start
pub mod Math
pub mod Tests
