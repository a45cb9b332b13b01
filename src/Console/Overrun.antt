-- ===== src/Console/Overrun.antt =====
-- How `cprintf` of src/kernel/arch/i386/mconio.c passes the terminator of its text.
use os1_meaty_skeleton.Vga.{Vga}
