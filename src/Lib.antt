-- ===== src/Lib.antt =====
-- Verification library of os1-meaty-skeleton, a 32-bit x86 kernel and its C library.
--
-- The parts, and where they are modelled (paths from the repository's root; each module of the
-- list below has child modules for its lemmas, which the module's own comment introduces):
--
--   Kmem       src/kernel/utils/kmem.c: the kernel heap. The headers of the blocks are a function
--              from addresses; `kmalloc` and `kfree` are translated with their pointer updates on
--              32 bits. Kmem/Blocks has the abstract heap, a list of sizes and free flags with
--              first fit; Kmem/Tiles says when headers represent such a list.
--   Keyboard   src/kernel/drivers/keyboard.c: the static variables are the record `Driver`, and a
--              scancode, a request for an event and the translation to ASCII are functions.
--              Keyboard/Tables has the four tables of the source.
--   Str        src/libc/string: memory is a function from addresses to bytes.
--   Scanf      src/libc/stdio/scanf.c: `kscanf` on a line that has been read; Scanf/Editor has the reading of
--              the line from the events of the keyboard. `kscanf` gets the length of the
--              format as its fuel, which is enough since each turn takes a character of it.
--   Snprintf   src/libc/string/snprintf.c: the format is parsed as the source does it, the variable
--              arguments are a list, and the characters go into a buffer of a given size.
--              Snprintf/Number has the helpers and Snprintf/Print the loop.
--   Stdio      src/libc/stdio: fgets.c gives the lines of a stream, over a list of the replies of
--              `read`. Stdio/Buffer has `write_buffer` and `fflush` of buffer.c over the replies of
--              `write`, and Stdio/Print `vfprintf` and `puts`. `write_buffer` gets the length of the
--              text as its fuel, which is enough since each turn takes a byte.
--   Mouse      src/kernel/drivers/mouse.c: waiting for the controller, over the values of its ports.
--   Bmp        src/kernel/utils/bmp.c: the file is read from a function of offsets, and a read behind its
--              size is undefined.
--   Vbe        src/kernel/drivers/vbe.c: text on the frame buffer, which is a part of the memory. Vbe/Font
--              reads the table of code points of a font; its loops get as their fuel more than the
--              table has bytes, which is enough since each turn takes a byte.
--   Vga        src/kernel/drivers/vga.c: the text screen is a function from indices to entries.
--              Vga/Page is a page without an end, whose last lines the screen shows.
--   Console    src/kernel/arch/i386/mconio.c: Console/Format has `format_string`, Console the loop of
--              `cprintf` over the buffer, and Console/Print the calls as a whole. Console/Styled
--              writes coloured text with escape sequences.
--   Gdt        src/kernel/arch/i386/gdt.c: the segment descriptors.
--   Mbr        src/kernel/fs/mbr.c: the partition table, from which FAT32 gets its first block.
--   Unicode    src/kernel/fs/unicode.c: UTF-16 strings and their conversion to ASCII.
--   Paging     src/kernel/arch/i386/paging.c: page directories and tables lie in a memory of words.
--              Paging has `map_phys_to_virt` and what it calls, Paging/Init the two stages of the
--              start, and Paging/Walk what the processor makes of the entries.
--   Fat32      src/kernel/fs/fat32.c: the FAT, cluster chains and reads; Fat32/Dir is the directory
--              reader with long file names.
--   Vfs        src/kernel/fs/vfs.c: the nodes, the root and `fd_table` are the record `Vfs`; Vfs/Path
--              finds nodes, Vfs/Calls and Vfs/Dirs have the calls, and Vfs/Syscalls the system
--              calls of src/kernel/fs/syscalls.c round them. The mounted file systems are
--              functions by the address of their `struct file_operations`, and the heap is an
--              `Allocator`, which also has what the uninitialised `entry` of `vfs_lookup` holds.
--   Disk       what file systems read: a block device, and little-endian fields of a buffer.
--   Prelude    shared helpers: Boolean tests, lists and integers over the native numbers.
--
-- The parts meet through calls: the file systems read blocks of the IDE driver, which is the
-- parameter `Device` (`read_sectors(lba, buffer, count)`, with any failure as `none`).
--
-- Machine arithmetic: numbers are natural numbers, and a sum that the source takes on 32 bits is
-- taken modulo 2 ^ 32 where it can reach that. An `int` result is an integer `ℤ`, and a file offset one
-- whose sums wrap around on 32 bits.
--
-- Bounds and fuel: a loop over memory up to a terminator has fuel 2 ^ 32, the size of the address
-- space. The search of `kmalloc` has one round more than the heap has room for headers. The loops of
-- `fat32_read` have one round more than the bytes to skip or to read, each of which goes on by a
-- byte at least where a cluster is not empty; a directory has at most 2 ^ 28 clusters. A round of `vsnprintf` takes a character of the
-- format at least, and a number below 2 ^ 64 has fewer digits than the 31 that its buffer holds.
--
-- The loop of `cprintf` takes a byte of its buffer of 1024 bytes in every turn, and `format_string` a
-- character of the format; both have one turn more as fuel. A word has at most ten digits.
--
-- Not modelled: port input and output, interrupt entry, the loading of the processor's tables,
-- the modes of the graphics driver, the serial driver, floating point formats, the user programs, and the messages that are printed.
pub mod Bmp
pub mod Console
pub mod Disk
pub mod Fat32
pub mod Gdt
pub mod Keyboard
pub mod Kmem
pub mod Mbr
pub mod Mouse
pub mod Paging
pub mod Prelude
pub mod Scanf
pub mod Snprintf
pub mod Stdio
pub mod Str
pub mod Unicode
pub mod Vbe
pub mod Vfs
pub mod Vga
