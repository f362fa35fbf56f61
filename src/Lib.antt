-- ===== src/Lib.antt =====
-- The AVR firmware of SageApple: a 6502 in software on an ATmega328P, its two memory maps, the
-- programs in its ROMs, the status LEDs, and the drivers that run it on a host.
--
-- The parts and how they interact. The core (avr/sage6502.c) keeps the registers, the cycle counter
-- and the pending interrupts in variables, and reaches memory by `bus_read` and `bus_write` only.
-- Two files implement these: avr/bus.c, the monitor board, and avr/bus_apple2.c, the Apple profile
-- with its keyboard, video switches and language card. Both read a ROM (avr/rom_host.c,
-- avr/rom_apple2.c) and sit on a serial port, the hardware's on the board and a FIFO on the host. The
-- LED driver (avr/led.c) is driven by its own beat interrupt and by calls from the main loop. On a
-- host, avr/host_main.c and avr/apple2_host_main.c step the core in place of the main loop.
--
--   Base             Boolean tests, C arrays, words and their bits, signed integers
--   Bus              the memory interface as a record of operations, and three records of its laws
--   Cpu              avr/sage6502.c. Regs, Tables, Alu, Core (memory access, stack, addressing
--                    modes), Exec (instructions), Step (interrupts, reset, one step) are the model;
--                    Valid, Ensures, Safety, Status, Arithmetic, Decimal, Operands, Addressing,
--                    Branches, Stack, Interrupts and Opcodes are about it. A C function that uses the
--                    bus is a transformer of the registers and the bus state; its name is the C
--                    function's. `IsValid` is the range of each variable's C type. Running is the
--                    list of the core's operations for a test that computes with all of them.
--                    Simulation is about the core on two buses of which one simulates the other
--   Reference        a 6502 by its documentation, apart from the code: flags as truth values, sums
--                    and remainders for the arithmetic, memory that reads leave unchanged, no decimal
--                    mode, and the base cycles of the code's table. State, Values, Execute and Step
--                    describe it; Registers, Status, Stack, Memory, Handler, Implied, Dispatch,
--                    Machine and Interrupts compare avr/sage6502.c with it
--   Uart             the serial port as a record; Ring has the host FIFOs of
--                    avr/apple2_host_main.c and avr/host_uart.c, Line the abstract serial line;
--                    Circular is about a circular buffer of any size, Fifo about the first FIFO and
--                    the line, Replay about the second FIFO and the line, Contents about its
--                    states up to their line, and Wrap about its overrun
--   Monitor          avr/bus.c; Laws fills two records of laws for it, Plain the one of plain memory
--                    when nothing waits on the line, and Simulation is about two ports behind it
--   Apple            avr/bus_apple2.c. State, Keyboard, Video, Card, Map are the model; Keys,
--                    Delivery, Switches, Banks and Overrun are about it, Ram and Laws fill the two records of
--                    laws, and Running is the list of its operations
--   Led              avr/led.c with the enumerations of avr/led.h. State, Sequencer, Driver and Names
--                    are the model; Trace and Patterns are about one LED, Multi and Marks about
--                    several, Faults and Limits about any number
--   Boot             avr/main.c: `boot` is main up to its loop, `turn` one turn of the loop, and
--                    `events` turns with beat interrupts between them; Progress, Stepping and
--                    Serial are about it
--   Rom              Apple is avr/rom_apple2.c and Monitor avr/rom_host.c, as functions from an
--                    offset; Bytes is about their range, Console about the Apple ROM's program and
--                    Hex about two subroutines of the monitor
--   Host             avr/apple2_host_main.c: the stepping loop here, its groups of checks in Checks,
--                    and `main` in Main; Session is avr/host_main.c. Passes, Steps, Runs, Endurance
--                    and Terminal are about them
--   Tests            runs on small states
--
-- Integers are natural numbers with the wrap-around of their C types written out; `int` in the
-- decimal subtraction is an integer. C arrays are lists; a read past the end, which C leaves
-- undefined, gives 0 and a write there is dropped; `language_card_ram` is read past its end for
-- $E100-$E1FF. Loops are structural recursion, over the LEDs, the bytes of a string, the lines of a
-- session or the steps that `run_steps` has left; the main loop is a list of its turns. The numbers
-- of steps of `run_steps` are the code's own, 200, 2000 and 60000. The ROM's subroutines run for at
-- most 20 and 40 steps and the console for 75, which is enough for every byte.
--
-- Not modelled: the hardware registers MCUSR and UCSR0A where the code reads them (arguments of
-- the functions), the constants that `uart_init` of avr/main.c takes from the chip's headers and
-- the numbers of the bits of MCUSR there (the record Setup; `stub_bits` has those of
-- avr/avrtest/avr/io.h, which differ), the serial port's data register (the record Uart), the
-- output of the host drivers but for the bytes that the program sends, the reading of a file of
-- lines (the lines, or that the file does not open, are an argument), avr/led_test.c,
-- avr/rom_avr.c, which is the chip's copy of the monitor's ROM, `cpu_op_table` and `hu_set_out`,
-- which pass on a pointer, and the reference machine in Sage, of which the core is a port.
pub mod Base
pub mod Bus
pub mod Cpu
pub mod Uart
pub mod Monitor
pub mod Apple
pub mod Led
pub mod Boot
pub mod Rom
pub mod Host
pub mod Reference
mod Tests
