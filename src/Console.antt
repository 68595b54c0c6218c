-- ===== src/Console.antt =====
-- The console of kern/console.c: the ring of characters that wait to be read, the keyboard, the
-- screen, and the serial and parallel ports that get a copy of the output. What the devices give and
-- when the ports are ready is the hardware's: the bytes they give are arguments.
pub mod Input
pub mod Keyboard
pub mod Screen
pub mod Getc
